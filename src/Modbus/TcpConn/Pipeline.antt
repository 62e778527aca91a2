-- ===== src/Modbus/TcpConn/Pipeline.antt =====
-- conn.go with server.go: requests of several callers on one connection.
use mathlib.Core.Path.{subst}
use goindustrial.Base.{
  ℕ, suc, ◌+◌, ◌<◌, ◌≡◌, refl, sym, ◌∙◌, ap, List, [], ◌∷◌, ◌++◌, All, none, some, false, length,
  append-nil, append_assoc, arith,
}
use goindustrial.Base.{Go, ok, io_eof}
use goindustrial.Base.Bytes.{IsU16}
use goindustrial.Modbus.Frame.{Request, Response, set_transaction_id, new_response, request_encode}
use goindustrial.Modbus.Server.{respond}
use goindustrial.Modbus.Server.Answers.{Answered, answered, refused}
use goindustrial.Modbus.Connection.{
  Handlers, dispatch_request, Connection, closed, exception_response, handle_connection,
}
use goindustrial.Modbus.Connection.Safety.{Serves}
use goindustrial.Modbus.Connection.Loop.{
  wire_response, requests_encode, responses_encode, IsModbusFrame, replies,
  handle_connection-replies,
}
use goindustrial.Modbus.Transactions.{Transaction, new_transaction, TransactionPool}
use goindustrial.Modbus.TcpConn.{Reader, Writer, write_round, write_loop, read_loop}
use goindustrial.Modbus.TcpConn.Reading.{on_wire}
use goindustrial.Modbus.TcpConn.Matching.{id_of}
use goindustrial.Modbus.TcpConn.Delivery.{
  deliver_all, IsModbusResponse, read_loop-deliver_all, completions, Answer, delivered,
}
use goindustrial.Modbus.TcpConn.Placing.{place_all, Carries, placed_all}

-- A request as a caller makes it
pub record IsSendable (q : Request) : Type 0 where
  pub short : length q.pdu.payload + 2 < 65536
  pub modbus : q.mbap.protocol_id ≡ 0

abbrev pub requests_of : List Transaction → List Request
requests_of [] = []
requests_of (t ∷ ts) = t.request ∷ requests_of ts

write_round_live :
    (t : Transaction) (w : Writer)
    → t.cancelled ≡ false
    → write_round (λ _. none) t w
      ≡ (record w { written = w.written ++ request_encode t.request }, none)
unfolding write_round
write_round_live t w live = rw live

write_loop_next :
    (t : Transaction) (queue : List Transaction) (w w' : Writer)
    → write_round (λ _. none) t w ≡ (w', none)
    → write_loop (λ _. none) (t ∷ queue) w ≡ write_loop (λ _. none) queue w'
unfolding write_loop
write_loop_next t queue w w' e =
    let outcome = ap (λ x. x.1) e in let state = ap (λ x. x.0) e in rw (write_loop, outcome, state)

written_all :
    (qs : List Request) (ts : List Transaction) (w : Writer)
    → Carries qs ts
    → write_loop (λ _. none) ts w
      ≡ (record w { written = w.written ++ requests_encode (requests_of ts) }, none)
unfolding write_loop requests_encode
written_all [] [] w h = rw (append-nil w.written)
written_all [] (t ∷ ts) w h = absurd h
written_all (q ∷ qs) [] w h = absurd h
written_all (q ∷ qs) (t ∷ ts) w ((_, made), more) =
    let live : t.cancelled ≡ false = ap (λ u. u.cancelled) made in
    let rest =
      written_all qs ts (record w { written = w.written ++ request_encode t.request }) more in
    write_loop_next t ts w _ (write_round_live t w live)
    ∙ rest
    ∙ ap (λ l. (record w { written = l }, none))
        (append_assoc w.written (request_encode t.request) (requests_encode (requests_of ts)))

frame_of :
    (q : Request) (t : Transaction)
    → IsSendable q
    → IsU16 (id_of t)
    → t ≡ new_transaction (set_transaction_id (id_of t) q)
    → IsModbusFrame t.request
unfolding set_transaction_id
frame_of q t sendable fits made =
    let same : t.request ≡ set_transaction_id (id_of t) q = ap (λ u. u.request) made in
    subst IsModbusFrame (sym same) (record {
      fits = record {
        transaction_fits = fits;
        protocol_fits = rw sendable.modbus (omega arith);
        payload_fits = sendable.short;
      };
      modbus = sendable.modbus;
    })

frames_of :
    (qs : List Request) (ts : List Transaction)
    → All IsSendable qs
    → Carries qs ts
    → All IsModbusFrame (requests_of ts)
frames_of [] [] g h = tt
frames_of [] (t ∷ ts) g h = absurd h
frames_of (q ∷ qs) [] g h = absurd h
frames_of (q ∷ qs) (t ∷ ts) (g, gs) ((fits, made), more) =
    (frame_of q t g fits made, frames_of qs ts gs more)

wire_response-id :
    (q : Request) {r : Go Response}
    → Answered q r
    → (wire_response q r).mbap.transaction_id ≡ q.mbap.transaction_id
unfolding respond new_response exception_response
wire_response-id q (answered payload h) = refl
wire_response-id q (refused code) = refl

wire_response-IsModbusResponse :
    (q : Request) {r : Go Response}
    → Answered q r
    → IsU16 q.mbap.transaction_id
    → IsModbusResponse (wire_response q r)
unfolding respond new_response exception_response
wire_response-IsModbusResponse q (answered payload h) fits = record {
  fits = record {
    transaction_fits = fits;
    protocol_fits = omega arith;
    payload_fits = omega arith;
  };
  modbus = refl;
}
wire_response-IsModbusResponse q (refused code) fits = record {
  fits = record {
    transaction_fits = fits;
    protocol_fits = omega arith;
    payload_fits = omega arith;
  };
  modbus = refl;
}

module _ {S : Type 0} (handlers : Handlers S) where
  -- The requests are written and served, the answers are read, and each transaction is completed
  -- with the answer to its own request; the pool is then as before.
  abbrev pub Exchanged :
      TransactionPool → TransactionPool → List Transaction → Connection S → Type 0
  Exchanged pool pool' ts c =
      let responses = (replies handlers c.store (requests_of ts)).1 in
      (w : Writer) × (c' : Connection S) × (r : Reader) × (write_loop (λ _. none) ts
          (record { written = []; failures = [] })
        ≡ (w, none))
      × (handle_connection (suc (length (requests_of ts))) handlers c w.written ≡ some (closed c'))
      × (c'.output ≡ c.output ++ responses_encode responses)
      × (read_loop (suc (length responses)) (record { pool = pool'; completed = [] })
            (on_wire (responses_encode responses) [])
          ≡ some (r, io_eof))
      × (r.completed ≡ completions ts responses)
      × Answer ts responses
      × ((j : ℕ) → r.pool.transactions j ≡ pool.transactions j)

module _ {S : Type 0} (handlers : Handlers S) (serves : Serves handlers) where
  replies-Answer :
      (ts : List Transaction) (s : S)
      → All IsModbusFrame (requests_of ts)
      → Answer ts (replies handlers s (requests_of ts)).1
        × All IsModbusResponse (replies handlers s (requests_of ts)).1
  unfolding replies
  replies-Answer [] s good = (tt, tt)
  replies-Answer (t ∷ ts) s (good, more) =
      let result = dispatch_request handlers t.request s in
      let (answers, fits) = replies-Answer ts result.0 more in
      (
        (wire_response-id t.request (serves t.request s), answers),
        (
          wire_response-IsModbusResponse t.request (serves t.request s) good.fits.transaction_fits,
          fits,
        ),
      )

  -- Requests of several callers that were all placed in an open pool, as Modbus frames, are written
  -- one after the other; a server whose handlers answer every request serves them and closes at the
  -- end of its input; the read loop on the bytes of its answers ends at the end of the stream,
  -- having completed the transactions in order, each with the answer to its own request and under
  -- its own ID; and the pool holds again what it held before.
  pub read_loop-handle_connection :
      (qs : List Request) (pool pool' : TransactionPool) (ts : List Transaction) (c : Connection S)
      → pool.done ≡ false
      → All IsSendable qs
      → place_all qs pool ≡ (pool', ok ts)
      → Exchanged handlers pool pool' ts c
  read_loop-handle_connection qs pool pool' ts c live sendable all_placed =
      let (flight, carries) = placed_all qs pool pool' ts live all_placed in
      let frames = frames_of qs ts sendable carries in
      let (c', served, store, output) =
        handle_connection-replies handlers serves c (requests_of ts) frames in
      let (answers, fits) = replies-Answer ts c.store frames in
      let responses = (replies handlers c.store (requests_of ts)).1 in
      let start : Reader = record { pool = pool'; completed = [] } in
      let (completed, back) = delivered pool start ts responses flight answers in
      (
        record { written = requests_encode (requests_of ts); failures = [] },
        c',
        deliver_all start responses,
        written_all qs ts (record { written = []; failures = [] }) carries,
        served,
        output,
        read_loop-deliver_all start responses fits,
        completed,
        answers,
        back,
      )
