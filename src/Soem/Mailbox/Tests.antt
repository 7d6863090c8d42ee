-- ===== src/Soem/Mailbox/Tests.antt =====
-- A count, and a mailbox that is never filled.
use bharatiya_beagle_bone.Common.{◌≡◌, arith, none, replicate}
use bharatiya_beagle_bone.Common.Int.{pos}
use bharatiya_beagle_bone.Soem.Mailbox.Receive.{Received, read_until}
use bharatiya_beagle_bone.Soem.Mailbox.Timed.{read_until-enough}
use bharatiya_beagle_bone.Soem.Samples.{silent, two_slaves}

abbrev waiting : Received
waiting = record { wkc = pos 0; mbx = replicate 16 0; smstat = 8 }

read_until-enough_example :
    read_until silent none 1 1000 2 2 waiting two_slaves
    ≡ read_until silent none 1 1000 5 2 waiting two_slaves
read_until-enough_example =
    read_until-enough silent none 1 1000 2 5 2 waiting two_slaves (omega arith) (omega arith)
