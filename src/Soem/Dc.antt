-- ===== src/Soem/Dc.antt =====
-- soem/ethercatdc.c: the ports of a slave. `dcrt_a` to `dcrt_d` are the times at which a latched frame
-- came to the ports 0 to 3, and a port is active when a cable is in use there.
pub mod Ports
pub mod Sync
pub mod Config
pub mod Trigger
pub mod Parent
mod Tests
use bharatiya_beagle_bone.Common.{ℕ, ◌==◌, if◌then◌else◌, bit_and}
use bharatiya_beagle_bone.Soem.Eeprom.{has_bits}
use bharatiya_beagle_bone.Soem.Slaves.{Slave}

abbrev pub portm0 : ℕ
portm0 = 0x01

abbrev pub portm1 : ℕ
portm1 = 0x02

abbrev pub portm2 : ℕ
portm2 = 0x04

abbrev pub portm3 : ℕ
portm3 = 0x08

-- `ecx_porttime`
unfoldable pub porttime : Slave → ℕ → ℕ
porttime s port =
    if port == 0
    then s.dcrt_a
    else if port == 1
    then s.dcrt_b
    else if port == 2
    then s.dcrt_c
    else if port == 3
    then s.dcrt_d
    else 0

-- The first of three ports that is active, or else the port itself.
abbrev first_active : ℕ → ℕ → ℕ → ℕ → ℕ → ℕ → ℕ → ℕ → ℕ
first_active aport m1 p1 m2 p2 m3 p3 port =
    if has_bits m1 aport
    then p1
    else if has_bits m2 aport
    then p2
    else if has_bits m3 aport
    then p3
    else port

-- `ecx_prevport`, on the active ports of the slave.
unfoldable pub prevport : ℕ → ℕ → ℕ
prevport aport port =
    if port == 0
    then first_active aport portm2 2 portm1 1 portm3 3 port
    else if port == 1
    then first_active aport portm3 3 portm0 0 portm2 2 port
    else if port == 2
    then first_active aport portm1 1 portm3 3 portm0 0 port
    else if port == 3
    then first_active aport portm0 0 portm2 2 portm1 1 port
    else port

-- `ecx_parentport`, on the ports of the parent that are not consumed: the port, and what is left.
unfoldable pub parentport : ℕ → ℕ × ℕ
parentport b =
    if has_bits portm3 b
    then (3, bit_and b 0xf7)
    else if has_bits portm1 b
    then (1, bit_and b 0xfd)
    else if has_bits portm2 b
    then (2, bit_and b 0xfb)
    else if has_bits portm0 b
    then (0, bit_and b 0xfe)
    else (0, b)
