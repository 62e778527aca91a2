-- ===== src/EthernetIp/Objects.antt =====
-- protocol/ethernetip/objects: CIP objects that a router dispatches to.
pub mod Assembly
pub mod ConnMgr
