-- ===== src/Lib.antt =====
-- goindustrial is a Go library of industrial protocols: Modbus TCP and EtherNet/IP clients and
-- servers, over replaceable transports, with a monitor that polls values. This development is about
-- protocol/modbus, transport, the read plans of monitor, and the messages of protocol/ethernetip.
--
-- The parts and how they meet. A client method generates the data of a request, sends it through a
-- transport, with retries, and parses the response. On the server's side a loop reads frames from a
-- connection, looks the handler of the function code up, and writes the answer; a handler decodes
-- the data, calls the data store, and encodes what it returned. A transport makes the connection of
-- a client, makes it again after a failure, and closes it. The monitor merges the points it polls
-- into windows that are read at once. EtherNet/IP wraps CIP requests, which name an object by a path
-- and are dispatched to it by a router; a client registers a session with the server, whose loop
-- serves the packets of that session.
--
--   Base.*                helpers: lists over native numbers, results of Go calls (`Go`: a value, an
--                         error, or a run-time panic), byte slices, code that changes a state (`Exec`)
--   Modbus.Types          protocol/modbus/types.go: codes, limits, exception tests
--   Modbus.Frame          mbap.go, pdu.go, request.go, response.go: `Encode` is request_encode and
--                         response_encode, `Decode` is request_decode and response_decode
--   Modbus.Packing        the loops of protocol.go and server_protocol.go that pack coils and registers
--   Modbus.Protocol       protocol.go and device.go: the generate and parse functions of
--                         `ProtocolHandler`, under their own names
--   Modbus.Store          datastore.go: the interface `DataStore` as a record over the type of states,
--                         its laws (Store.Laws), and `MemoryStore` as an instance
--   Modbus.Server         server_protocol.go: the ten handlers, over any data store
--   Modbus.Connection     server.go: setupDefaultHandlers, SetHandler, dispatchRequest, and
--                         handleConnection, whose loop body is handle_frame
--   Modbus.Client         client.go: `send` and the Modbus methods of `Client`; Client.Exchange has a
--                         transport that carries each frame to the server and its answer back
--   Modbus.Transactions   transaction.go: the pool, and Complete and Cancel of a transaction
--   Modbus.TcpConn        conn.go: the loops and the life cycle of a client's connection; Pipeline
--                         puts it in front of the server
--   Modbus.Runs           runs on small inputs; so are the other Runs
--   Transport             transport/transport.go and options.go; Transport.Reconnecting and
--                         Transport.Direct are reconnecting.go and direct.go, where get_conn is
--                         `Conn`; Modbus.Client.Reconnecting puts the client on top
--   Monitor.Plan          monitor/cluster_plan.go: buildWindows and findWindow
--   EthernetIp.Eip        protocol/ethernetip/eip: header.go, cpf.go, the codes of commands.go, and
--                         Discovery, which is discovery.go
--   EthernetIp.Cip        protocol/ethernetip/cip: Path is path.go, Message message.go, Router
--                         router.go, Tag tag.go, and Logix timer.go and counter.go
--   EthernetIp.Server     protocol/ethernetip/server.go: the handlers of messages; Server.Conn is
--                         HandleConn, whose loop body is conn_round
--   EthernetIp.Session    session.go and conn.go of protocol/ethernetip; Session.Exchange has a
--                         connection to the server's loop
--   EthernetIp.Objects    protocol/ethernetip/objects: Assembly is assembly/assembly.go, ConnMgr is
--                         connmgr/connmgr.go, with the requests of connmgr/types.go
--   EthernetIp.Pccc       protocol/ethernetip/pccc: frame.go, and in Client the rawRead and writeBytes
--                         of client.go
--
-- Numbers. The protocol's integers are natural numbers; a conversion to 8, 16 or 64 bits is written
-- as a remainder where the code has one. A theorem that needs a number to fit 16 bits says so.
-- A slice is a list, an index out of range is `panic`, and binary.BigEndian's reads and writes are
-- two index expressions. A Go map from addresses is a function into options.
--
-- Fuel. The loop of nextTNS has two units, as it goes on only after a number that is zero and 1
-- follows. handle_connection takes fuel: the input is finite and each round that goes on consumes at
-- least the seven bytes of a header, so one unit more than the input has bytes is enough, and for
-- whole frames one unit more than there are frames. The same holds of handle_conn, whose rounds
-- consume a header of 24 bytes, and of read_loop of the client's connection, where a wait without
-- bytes counts as an item of the input.
--
-- Parameters. The connector, the closer and the callbacks of a transport, the `Send` of a connection,
-- the objects of a router, the executor of the PCCC client, and sort.Slice and sort.Strings are
-- parameters; so is the connection of an EtherNet/IP session, as the bytes that arrive for a packet
-- that is written. Theorems on open connections take a view of them that the connector adds to and
-- the closer takes from (Tracks); theorems on plans take sorts that permute, the one of points in
-- ascending order.
--
-- State and errors. Code that changes a state returns the new state beside its result, also where the
-- result is an error. A method of a data store holds the store's mutex from start to end and is one
-- step. A panic of a handler is not recovered by the server and ends the round as `crashed`.
--
-- Not modelled: sockets, deadlines, goroutines and the log; starting and stopping the servers, and
-- their callbacks; of the client's TCP connection the waits of `Send`, what a loop does when a
-- channel is closed under it, and ResetTransactions; the generic Read and Write of plc.PLC; of the
-- monitor the polling and the subscriptions; of EtherNet/IP the client, I/O, and the symbols of CIP;
-- of PCCC the notation of addresses, and the client's bits and words; the Lua bindings and the
-- examples.
pub mod Base
pub mod EthernetIp
pub mod Modbus
pub mod Monitor
pub mod Transport
