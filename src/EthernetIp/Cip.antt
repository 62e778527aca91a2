-- ===== src/EthernetIp/Cip.antt =====
-- protocol/ethernetip/cip: paths (path.go), messages (message.go) and their dispatch (router.go).
pub mod Path
pub mod Message
pub mod Router
pub mod Tag
pub mod Logix
