-- ===== src/EthernetIp.antt =====
-- protocol/ethernetip: the encapsulation of EtherNet/IP and the Common Industrial Protocol in it.
pub mod Eip
pub mod Cip
pub mod Server
pub mod Session
mod Runs
pub mod Objects
pub mod Pccc
