-- ===== src/Lib.antt =====
-- The servo master of this repository: the program SOEM/test/linux/simple_test/simple_test.c, which
-- drives one Panasonic servo over EtherCAT. It stands in a fork of the EtherCAT library SOEM, whose
-- own code (SOEM/soem and the Linux driver SOEM/oshw/linux/nicdrv.c) is the second half of the model.
--
-- The parts, and how they work together. `simpletest` brings the bus up; between PRE_OP and SAFE_OP
-- the library calls `PanasonicSetup`, which maps the process data. Then `RTthread` exchanges the
-- process data in every cycle: it keeps step with the distributed clock (`ec_sync`), reads the status
-- word, decodes it (`updateStatus`), and lets `DriveEnable` answer with the next command
-- (`modifyControlWord`), which goes to the array `opPDO`. The thread `ecatcheck` brings slaves back
-- that have left the operational state.
--
-- - Common: arrays as lists, C's masks, words and signed integers over native numbers.
-- - Drive: the globals of the drive functions. Drive/Status is `updateStatus`, Drive/Control is
--   `modifyControlWord`, `StopDrive` and `ShutDownDrive`, Drive/Enable is `DriveEnable` and
--   `printStatus`.
-- - Clock: `add_timespec` and `ec_sync`.
-- - EcatCheck: the thread `ecatcheck`, over a record of the library's calls.
-- - Setup: the set-up functions as lists of mailbox writes; Setup/Layout the offsets of the program.
-- - Image: `IOmap`, `opPDO`, the pointer `ec_slave[0].outputs` and the functions that write through it.
-- - Cycle: `RTthread`, over the library's send and receive.
-- - Startup: `simpletest`, over the library's calls.
-- - Request: the functions that check and report a motion request.
-- - Motion: the motion control of the earlier version "simple_test -Working Version With motor operation
--   checked.c" in the same folder, which is commented out in simple_test.c.
-- - Server: the socket server of the earlier version
--   simple_test_GivingUpOnThisVersionAfter15DaysEffort.c in the same folder.
-- - Soem: the EtherCAT library. A function that reads or changes the context is a `Run` of Common/Steps:
--   it takes the state and returns its result with the new state. Cycle, EcatCheck and Startup do not
--   use this model: they take the library's calls as parameters.
-- - Soem/Registers: the constants of SOEM/soem/ethercattype.h. Soem/Samples: data of the tests.
-- - Soem/Nic: SOEM/oshw/linux/nicdrv.c, the frame buffers and their states, sending, receiving and
--   filing of frames. The socket and the clock are the record `Wire`: send, recv, polls, usleep, clock.
-- - Soem/Frame, Soem/Base: SOEM/soem/ethercatbase.c, building the datagrams of a frame and the blocking
--   primitives (`ecx_BRD`, `ecx_FPRD`, `ecx_FPWR` and the like).
-- - SOEM/soem/ethercatmain.c: Soem/Errors is the ring of errors, Soem/Eeprom the EEPROM access over
--   the bus, Soem/Slaves which side owns the EEPROM, Soem/Sii the byte cache and the sections of the
--   slave information, Soem/State the states of the slaves, Soem/Mailbox the mailbox transfer,
--   Soem/ProcessData the cyclic exchange and its stack of frames.
-- - Soem/Coe: SOEM/soem/ethercatcoe.c over the record `Mail` (send, receive, the counter, the reports);
--   Soem/Coe/Port is the library's own. Soem/Coe/Download is `ecx_SDOwrite`, Soem/Coe/Upload
--   `ecx_SDOread`, Soem/Coe/Pdo `ecx_RxPDO` and `ecx_TxPDO`, Soem/Coe/Mapping `ecx_readPDOmap`,
--   Soem/Coe/Complete `ecx_readPDOmapCA`.
--   Download/Receiver and Upload/Server are the other side, a slave by the protocol.
-- - Soem/Dc: SOEM/soem/ethercatdc.c. Soem/Dc/Sync is `ecx_dcsync0` and `ecx_dcsync01`, Soem/Dc/Config
--   `ecx_configdc`.
--
-- Numbers: unsigned words are native numbers with the wrap-around written out; `int64` times and the
-- `int` counters of the threads are without a bound, since the program does not run long enough to
-- reach one. Loops over slaves are recursion on the list, and the endless loops of the threads are
-- modelled by one turn, and by n turns for every n. The library's loops stop in one of three ways.
-- A loop on a timer recurs on the number of times the timer is found not to have expired, which is
-- an argument: a model of the clock, so any waiting time is covered. A loop with a constant bound in
-- the source recurs on that bound: 511 rounds of the search for the PDOs, EC_MAXBUF buffers, the
-- number of segments, 993 rounds of the EEPROM's dump (two words or more in each, from word 64 to
-- word 2048). A loop without any bound in the source recurs on fuel, `passes` for the repeated
-- EEPROM command, `sections` for the search in the SII, `rounds` for the segments of an object and
-- for the search of a slave's parent; the fuel is an argument. Bytes that C would write behind a
-- buffer are lost in the model, and those it would read there are 0.
--
-- Not modelled: prints, sleeps of the program, the creation of the threads, the code that is
-- commented out; of the library, the start-up of the bus (soem/ethercatconfig.c), the lists of the
-- object dictionary (soem/ethercatcoe.c), the
-- protocols FoE, EoE and SoE of the mailbox, the texts of errors, opening and closing of sockets and
-- mutexes (one thread runs at a time), and the ports to other systems.
pub mod Common
pub mod Drive
pub mod Clock
pub mod EcatCheck
pub mod Setup
pub mod Image
pub mod Cycle
pub mod Motion
pub mod Startup
pub mod Request
pub mod Server
pub mod Soem
