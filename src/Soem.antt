-- ===== src/Soem.antt =====
-- soem/ and oshw/linux/: the EtherCAT master library of the repository.
pub mod Frame
pub mod Nic
pub mod Base
pub mod Errors
pub mod Registers
pub mod Eeprom
pub mod Slaves
pub mod Sii
pub mod State
pub mod Mailbox
pub mod ProcessData
pub mod Coe
pub mod Dc
pub mod Samples
