-- ===== src/Modbus/TcpConn/Rounds.antt =====
-- conn.go: the rounds of the read loop keep what is in flight and what was completed apart.
use goindustrial.Base.{
  ℕ, zero, suc, inl, inr, refl, List, [], ◌∷◌, Bool-cases, Option, none, some, not, leb, ◌==◌,
}
use goindustrial.Base.{Error, Go, ok, err, panic}
use goindustrial.Modbus.Frame.{Mbap, new_response}
use goindustrial.Modbus.Transactions.{TransactionPool}
use goindustrial.Modbus.TcpConn.{
  Item, Full, full, timed_out, failed, Reader, ReadRound, go_on, stopped, process_error, deliver,
  on_body, after_body, on_response_header, after_response_header, read_round, read_loop,
}
use goindustrial.Modbus.TcpConn.Matching.{IsAwaiting, IsSound, settle-IsSound}

-- The reader of a round, and of a loop.
reader_of : ReadRound → Reader
reader_of (go_on r rest) = r
reader_of (stopped r e) = r

-- What a loop that returned left.
abbrev pub Left : (Reader → Type 0) → Option (Reader × Error) → Type 0
Left P none = Unit {0}
Left P (some (r, e)) = P r

module _ (start : TransactionPool) where
  on_body-IsSound :
      (awaiting : IsAwaiting start) (r : Reader) (header : Mbap) (rest : List Item) (body : List ℕ)
      → IsSound start r
      → IsSound start (reader_of (on_body r header rest body))
  unfolding on_body reader_of
  on_body-IsSound awaiting r header rest [] sound = sound
  on_body-IsSound awaiting r header rest (function_code ∷ payload) sound =
      unfold deliver new_response in
      settle-IsSound start awaiting r header.transaction_id
        (inl (new_response header.transaction_id header.unit_id function_code payload)) sound refl

  after_body-IsSound :
      (awaiting : IsAwaiting start) (r : Reader) (header : Mbap) (body : Full)
      → IsSound start r
      → IsSound start (reader_of (after_body r header body))
  unfolding after_body reader_of
  after_body-IsSound awaiting r header (full body rest) sound =
      on_body-IsSound awaiting r header rest body sound
  after_body-IsSound awaiting r header (timed_out rest) sound = sound
  after_body-IsSound awaiting r header (failed e) sound =
      unfold process_error in settle-IsSound start awaiting r header.transaction_id (inr _) sound tt

  on_response_header-IsSound :
      (awaiting : IsAwaiting start) (r : Reader) (rest : List Item) (header : Go (Mbap × ℕ))
      → IsSound start r
      → IsSound start (reader_of (on_response_header r rest header))
  unfolding on_response_header reader_of process_error
  on_response_header-IsSound awaiting r rest (ok (header, field)) sound =
      elim (Bool-cases (not (header.protocol_id == 0))) [
        | inl e ↦ rw e (settle-IsSound start awaiting r header.transaction_id (inr _) sound tt)
        | inr e ↦ elim (Bool-cases (leb field 1)) [
          | inl short ↦
              rw e
                (rw short (settle-IsSound start awaiting r header.transaction_id (inr _) sound tt))
          | inr long ↦ rw e (rw long (after_body-IsSound awaiting r header _ sound))
        ]
      ]
  on_response_header-IsSound awaiting r rest (err e) sound = sound
  on_response_header-IsSound awaiting r rest panic sound = sound

  after_response_header-IsSound :
      (awaiting : IsAwaiting start) (r : Reader) (header : Full)
      → IsSound start r
      → IsSound start (reader_of (after_response_header r header))
  unfolding after_response_header reader_of
  after_response_header-IsSound awaiting r (full header rest) sound =
      on_response_header-IsSound awaiting r rest _ sound
  after_response_header-IsSound awaiting r (timed_out rest) sound = sound
  after_response_header-IsSound awaiting r (failed e) sound = sound

  loop_step :
      (fuel : ℕ) (round : ReadRound)
      → IsSound start (reader_of round)
      → ((r : Reader) (rest : List Item)
          → IsSound start r
          → Left (IsSound start) (read_loop fuel r rest))
      → Left
          (IsSound start)
          (elim round [ go_on r' rest ↦ read_loop fuel r' rest | stopped r' e ↦ some (r', e) ])
  unfolding reader_of
  loop_step fuel (go_on r rest) sound ih = ih r rest sound
  loop_step fuel (stopped r e) sound ih = sound

  pub read_loop-IsSound :
      (awaiting : IsAwaiting start) (fuel : ℕ) (r : Reader) (input : List Item)
      → IsSound start r
      → Left (IsSound start) (read_loop fuel r input)
  unfolding read_loop
  read_loop-IsSound awaiting zero r input sound = tt
  read_loop-IsSound awaiting (suc fuel) r input sound =
      loop_step fuel (read_round r input)
        (unfold read_round in after_response_header-IsSound awaiting r _ sound)
        (read_loop-IsSound awaiting fuel)
