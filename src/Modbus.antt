-- ===== src/Modbus.antt =====
-- protocol/modbus: the Modbus TCP client protocol, the server and the transaction pool.
pub mod Types
pub mod Frame
pub mod Packing
pub mod Protocol
pub mod Store
pub mod Server
pub mod Connection
pub mod Client
pub mod Transactions
pub mod TcpConn
mod Runs
