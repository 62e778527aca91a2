-- ===== src/Modbus/TcpConn.antt =====
-- protocol/modbus/conn.go: the client's side of a connection. `readLoop` matches responses to the
-- transactions of a pool, `writeLoop` writes queued requests. The transactions that a loop completes
-- are listed in order; the values that they had in the pool are those of the shared objects, as
-- nothing else completes a transaction that was released. `TcpConn` has what the mutex protects; each
-- hold of it is one step. The log and the hex dump are left out.
pub mod Reading
pub mod Matching
pub mod Rounds
pub mod Returns
pub mod Delivery
pub mod Placing
pub mod Pipeline
pub mod Lifecycle
use goindustrial.Base.{
  ℕ, zero, suc, ◌+◌, ◌-◌, ◌%◌, ◌^◌, ◌==◌, leb, not, if◌then◌else◌, List, [], ◌∷◌, ◌++◌, Bool, true,
  false, ◌⊎◌, inl, inr, Option, none, some,
}
use goindustrial.Base.{
  Go, Error, ok, err, panic, io_eof, io_unexpected_eof, invalid_protocol_header,
  invalid_response_length, read_body_failed, already_connected, not_connected, transaction_failed,
}
use goindustrial.Modbus.Types.{tcp_header_length, tcp_protocol_identifier}
use goindustrial.Modbus.Frame.{Mbap, Request, Response, new_response, request_encode}
use goindustrial.Modbus.Connection.{parse_header}
use goindustrial.Modbus.Transactions.{
  Transaction, complete, TransactionPool, new_transaction_pool, place, release, close, unsafe_reset,
}

-- What the socket gives, byte by byte: a byte, or a wait that passes the deadline of 100 ms. The end
-- of the list is the end of the stream.
pub data Item : Type 0 where
  byte : ℕ → Item
  pause : Item

-- `io.ReadFull` with a deadline: bytes that were read before it passed are gone.
pub data Full : Type 0 where
  full : List ℕ → List Item → Full
  timed_out : List Item → Full
  failed : Error → Full

after_item : ℕ → Full → Full
after_item b (full bytes rest) = full (b ∷ bytes) rest
after_item b (timed_out rest) = timed_out rest
after_item b (failed _) = failed io_unexpected_eof

pub read_items : ℕ → List Item → Full
unfolding after_item
read_items zero input = full [] input
read_items (suc n) [] = failed io_eof
read_items (suc n) (pause ∷ input) = timed_out input
read_items (suc n) (byte b ∷ input) = after_item b (read_items n input)

-- The pool, and the transactions that the loop has completed
pub record Reader : Type 0 where
  pub pool : TransactionPool
  pub completed : List Transaction

-- A round of `readLoop` goes on with the rest of the input, or calls `setDisconnected` with an
-- error and returns.
pub data ReadRound : Type 0 where
  go_on : Reader → List Item → ReadRound
  stopped : Reader → Error → ReadRound

-- A transaction that `Release` found is completed; an unknown ID is only logged.
pub settle : Reader → TransactionPool × Option Transaction → Response ⊎ Error → Reader
unfolding complete
settle r (pool, none) result = record r { pool = pool }
settle r (pool, some t) result = record {
  pool = pool;
  completed = r.completed ++ complete t result ∷ [];
}

pub process_error : Reader → ℕ → Error → Reader
unfolding settle release
process_error r transaction_id e = settle r (release r.pool transaction_id) (inr e)

pub deliver : Reader → Response → Reader
unfolding settle release
deliver r response = settle r (release r.pool response.mbap.transaction_id) (inl response)

-- `body[0]` and `body[1:]`, of a body that is not empty
on_body : Reader → Mbap → List Item → List ℕ → ReadRound
on_body r header rest [] = go_on r rest
on_body r header rest (function_code ∷ payload) =
    go_on (deliver r (new_response header.transaction_id header.unit_id function_code payload)) rest

after_body : Reader → Mbap → Full → ReadRound
unfolding on_body
after_body r header (full body rest) = on_body r header rest body
after_body r header (timed_out rest) = go_on r rest
after_body r header (failed e) =
    stopped (process_error r header.transaction_id (read_body_failed e)) e

pub on_response_header : Reader → List Item → Go (Mbap × ℕ) → ReadRound
unfolding after_body
on_response_header r rest (ok (header, field)) =
    if not (header.protocol_id == tcp_protocol_identifier)
    then stopped (process_error r header.transaction_id invalid_protocol_header)
        invalid_protocol_header
    else if leb field 1
    then stopped (process_error r header.transaction_id invalid_response_length)
        invalid_response_length
    else after_body r header (read_items (field - 1) rest)
on_response_header r rest (err e) = stopped r e
on_response_header r rest panic = stopped r io_eof

after_response_header : Reader → Full → ReadRound
after_response_header r (full header rest) = on_response_header r rest (parse_header header)
after_response_header r (timed_out rest) = go_on r rest
after_response_header r (failed e) = stopped r e

pub read_round : Reader → List Item → ReadRound
unfolding after_response_header
read_round r input = after_response_header r (read_items tcp_header_length input)

-- `readLoop`, while the connection is not closed from elsewhere. `none` means that the fuel ran out.
pub read_loop : ℕ → Reader → List Item → Option (Reader × Error)
read_loop zero r input = none
read_loop (suc fuel) r input = elim (read_round r input) [
  | go_on r' rest ↦ read_loop fuel r' rest
  | stopped r' e ↦ some (r', e)
]

-- The bytes written, and the transactions that `writeLoop` completed
pub record Writer : Type 0 where
  pub written : List ℕ
  pub failures : List Transaction

-- A round of `writeLoop` for a queued transaction. `write` is what the socket says to a write; a
-- transaction that was cancelled before is skipped.
pub write_round : (List ℕ → Option Error) → Transaction → Writer → Writer × Option Error
unfolding complete
write_round write t w = if t.cancelled then (w, none) else elim (write (request_encode t.request)) [
  | none ↦ (record w { written = w.written ++ request_encode t.request }, none)
  | some e ↦ (record w { failures = w.failures ++ complete t (inr e) ∷ [] }, some e)
]

-- `writeLoop` on the transactions of its channel, until a write fails
pub write_loop : (List ℕ → Option Error) → List Transaction → Writer → Writer × Option Error
unfolding write_round
write_loop write [] w = (w, none)
write_loop write (t ∷ queue) w =
    let (w', result) = write_round write t w in
    elim result [ none ↦ write_loop write queue w' | some e ↦ (w', some e) ]

-- The state that `mutex` protects. A generation's `done` channel is closed where `torn_down` holds,
-- which `closeOnce` makes happen once; `conn` is a socket, by a number.
pub record TcpConn : Type 0 where
  pub connected : Bool
  pub gen : ℕ
  pub torn_down : Bool
  pub conn : Option ℕ
  pub pool : TransactionPool

-- `NewTCPConn`
unfoldable pub new_tcp_conn : TcpConn
unfolding new_transaction_pool
new_tcp_conn = record {
  connected = false;
  gen = 0;
  torn_down = false;
  conn = none;
  pool = new_transaction_pool;
}

-- A pool for the next connection: a new one where the old one was closed.
unfoldable pub renewed_pool : TransactionPool → TransactionPool
unfolding new_transaction_pool unsafe_reset
renewed_pool pool = if pool.done then new_transaction_pool else (unsafe_reset pool).0

-- `connect`, with what the dial gives: a socket, or an error
unfoldable pub connect : ℕ ⊎ Error → TcpConn → TcpConn × Go (Unit {0})
unfolding renewed_pool close
connect dial c = if c.connected then (c, err already_connected) else elim dial [
  | inl socket ↦ (
    record {
      connected = true;
      gen = (c.gen + 1) % 2 ^ 64;
      torn_down = false;
      conn = some socket;
      pool = renewed_pool c.pool;
    },
    ok tt,
  )
  | inr e ↦ (record c { pool = (close (renewed_pool c.pool)).0 }, err e)
]

-- `unsafeTeardown`, with the socket that it closes
unfoldable pub unsafe_teardown : TcpConn → TcpConn × Option ℕ
unfolding close
unsafe_teardown c =
    if c.torn_down
    then (c, none)
    else (record c { torn_down = true; pool = (close c.pool).0 }, c.conn)

unfoldable pub disconnect : TcpConn → TcpConn × Option ℕ
unfolding unsafe_teardown
disconnect c = unsafe_teardown (record c { connected = false })

-- `setDisconnected`, from a loop of the generation `gen`
unfoldable pub set_disconnected : ℕ → TcpConn → TcpConn × Option ℕ
unfolding unsafe_teardown
set_disconnected gen c =
    if not (gen == c.gen) then (c, none) else unsafe_teardown (record c { connected = false })

after_place : TcpConn → TransactionPool × Go Transaction → TcpConn × Go Transaction
after_place c (pool, ok t) = (record c { pool = pool }, ok t)
after_place c (pool, err e) = (record c { pool = pool }, err (transaction_failed e))
after_place c (pool, panic) = (record c { pool = pool }, panic)

-- The start of `Send`, up to the transaction that is queued
unfoldable pub begin_send : TcpConn → Request → TcpConn × Go Transaction
unfolding after_place
begin_send c request =
    if not c.connected then (c, err not_connected) else after_place c (place c.pool request)
