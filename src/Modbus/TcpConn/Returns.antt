-- ===== src/Modbus/TcpConn/Returns.antt =====
-- conn.go: the read loop ends, since each round that goes on consumes a part of the input.
use mathlib.Core.Path.{subst}
use goindustrial.Base.{
  ℕ, zero, suc, ◌+◌, ◌-◌, ◌<◌, ◌≤◌, ◌≡◌, refl, ◌∙◌, ◌⊎◌, All, false, none, List, [], ◌∷◌,
  Bool-cases, inl, inr, Option, some, not, leb, ◌==◌, length, arith,
}
use goindustrial.Base.{Error, Go, ok, err, panic, transport_closing}
use goindustrial.Modbus.Frame.{Mbap}
use goindustrial.Modbus.Transactions.{Transaction, TransactionPool, cancel, close}
use goindustrial.Modbus.TcpConn.{
  Item, byte, pause, Full, full, timed_out, failed, after_item, read_items, Reader, ReadRound,
  go_on, stopped, on_body, after_body, on_response_header, after_response_header, read_round,
  read_loop,
}
use goindustrial.Modbus.TcpConn.Matching.{IsAwaiting, IsSound, IsMatched, HasId}
use goindustrial.Modbus.TcpConn.Rounds.{Left, read_loop-IsSound}

-- What `io.ReadFull` leaves of an input of a length.
abbrev Leaves : ℕ → ℕ → Full → Type 0
Leaves n total (full bytes rest) = length rest + n ≤ total
Leaves n total (timed_out rest) = length rest < total
Leaves n total (failed e) = Unit {0}

after_item-Leaves :
    (n total b : ℕ) (r : Full) → Leaves n total r → Leaves (suc n) (suc total) (after_item b r)
unfolding after_item
after_item-Leaves n total b (full bytes rest) h = omega arith
after_item-Leaves n total b (timed_out rest) h = omega arith
after_item-Leaves n total b (failed e) h = tt

read_items-Leaves : (n : ℕ) (input : List Item) → Leaves n (length input) (read_items n input)
unfolding read_items
read_items-Leaves zero input = omega arith
read_items-Leaves (suc n) [] = tt
read_items-Leaves (suc n) (pause ∷ input) = omega arith
read_items-Leaves (suc n) (byte b ∷ input) =
    after_item-Leaves n (length input) b (read_items n input) (read_items-Leaves n input)

-- A round that goes on leaves less than a total.
abbrev GoesOn : ℕ → ReadRound → Type 0
GoesOn total (go_on r rest) = length rest < total
GoesOn total (stopped r e) = Unit {0}

on_body-GoesOn :
    (total : ℕ) (r : Reader) (header : Mbap) (rest : List Item) (body : List ℕ)
    → length rest < total
    → GoesOn total (on_body r header rest body)
unfolding on_body
on_body-GoesOn total r header rest [] h = h
on_body-GoesOn total r header rest (b ∷ body) h = h

after_body-GoesOn :
    (total n left : ℕ) (r : Reader) (header : Mbap) (body : Full)
    → left < total
    → Leaves n left body
    → GoesOn total (after_body r header body)
unfolding after_body
after_body-GoesOn total n left r header (full body rest) h k =
    on_body-GoesOn total r header rest body (omega arith)
after_body-GoesOn total n left r header (timed_out rest) h k = omega arith
after_body-GoesOn total n left r header (failed e) h k = tt

on_response_header-GoesOn :
    (total : ℕ) (r : Reader) (rest : List Item) (header : Go (Mbap × ℕ))
    → length rest < total
    → GoesOn total (on_response_header r rest header)
unfolding on_response_header
on_response_header-GoesOn total r rest (ok (header, field)) h =
    elim (Bool-cases (not (header.protocol_id == 0))) [
      | inl e ↦ rw e tt
      | inr e ↦ elim (Bool-cases (leb field 1)) [
        | inl short ↦ rw e (rw short tt)
        | inr long ↦ rw e (
            rw long (
              after_body-GoesOn total (field - 1) (length rest) r header
                (read_items (field - 1) rest) h (read_items-Leaves (field - 1) rest)))
      ]
    ]
on_response_header-GoesOn total r rest (err e) h = tt
on_response_header-GoesOn total r rest panic h = tt

after_response_header-GoesOn :
    (total : ℕ) (r : Reader) (header : Full)
    → Leaves 7 total header
    → GoesOn total (after_response_header r header)
unfolding after_response_header
after_response_header-GoesOn total r (full header rest) h =
    on_response_header-GoesOn total r rest _ (omega arith)
after_response_header-GoesOn total r (timed_out rest) h = h
after_response_header-GoesOn total r (failed e) h = tt

abbrev Ends : Option (Reader × Error) → Type 0
Ends result = (r : Reader) × (e : Error) × (result ≡ some (r, e))

round-Ends :
    (fuel total : ℕ) (round : ReadRound)
    → GoesOn total round
    → ((r : Reader) (rest : List Item) → length rest < total → Ends (read_loop fuel r rest))
    → Ends (elim round [ go_on r rest ↦ read_loop fuel r rest | stopped r e ↦ some (r, e) ])
round-Ends fuel total (go_on r rest) h ih = ih r rest h
round-Ends fuel total (stopped r e) h ih = (r, e, refl)

read_loop-Ends :
    (fuel : ℕ) (r : Reader) (input : List Item)
    → length input < fuel
    → Ends (read_loop fuel r input)
unfolding read_loop
read_loop-Ends zero r input h = absurd (omega arith)
read_loop-Ends (suc fuel) r input h =
    round-Ends fuel (length input) (read_round r input)
      (unfold read_round in
        after_response_header-GoesOn (length input) r _ (read_items-Leaves 7 input))
      (λ r' rest k. read_loop-Ends fuel r' rest (omega arith))

-- The loop returns, and keeps what it keeps.
abbrev pub Stops : TransactionPool → List Item → Type 0
Stops pool input =
    (r : Reader) × (e : Error) × (read_loop (suc (length input))
        (record { pool = pool; completed = [] }) input
      ≡ some (r, e))
    × IsSound pool r

-- The loop returns, and the closing of the pool cancels what it has not completed.
abbrev pub Finishes : TransactionPool → List Item → Type 0
Finishes pool input =
    (r : Reader) × (e : Error) × (read_loop (suc (length input))
        (record { pool = pool; completed = [] }) input
      ≡ some (r, e))
    × All IsMatched r.completed
    × ((id : ℕ) (t : Transaction)
        → pool.transactions id ≡ some t
        → HasId id r.completed ⊎ ((close r.pool).1 id ≡ some (cancel t transport_closing)))
    × ((id : ℕ) → (close r.pool).0.transactions id ≡ none)

-- From a pool whose transactions wait under their own IDs, whatever bytes and waits arrive, the
-- read loop returns; a transaction of the pool is still in it or was completed; and the completed
-- ones come from the pool, are no longer in it, differ in their IDs, and have a response to their
-- own ID, or an error.
pub read_loop_returns :
    (pool : TransactionPool) (input : List Item) → IsAwaiting pool → Stops pool input
read_loop_returns pool input awaiting =
    let start : Reader = record { pool = pool; completed = [] } in
    let sound = read_loop-IsSound pool awaiting (suc (length input)) start input (record {
      shrinks = λ id. inl refl;
      matched = tt;
      origin = tt;
      once = tt;
      same_done = refl;
    }) in
    let (r, e, done) = read_loop-Ends (suc (length input)) start input (omega arith) in
    (r, e, done, subst (Left (IsSound pool)) done sound)

close_cancels :
    (pool : TransactionPool) (id : ℕ) (t : Transaction)
    → pool.done ≡ false
    → pool.transactions id ≡ some t
    → (close pool).1 id ≡ some (cancel t transport_closing)
unfolding close
close_cancels pool id t live here = simp live (rw here)

close_empties :
    (pool : TransactionPool) → pool.done ≡ false → (id : ℕ) → (close pool).0.transactions id ≡ none
unfolding close
close_empties pool live id = simp live

-- From an open pool whose transactions wait under their own IDs, whatever bytes and waits arrive,
-- the read loop returns; each completed transaction has a response to its own ID, or an error; each
-- transaction that was in flight was completed by the loop or is cancelled by the pool's closing;
-- and none is left in the pool.
pub close-read_loop :
    (pool : TransactionPool) (input : List Item)
    → IsAwaiting pool
    → pool.done ≡ false
    → Finishes pool input
close-read_loop pool input awaiting live =
    let (r, e, done, sound) = read_loop_returns pool input awaiting in
    let still : r.pool.done ≡ false = sound.same_done ∙ live in
    (
      r,
      e,
      done,
      sound.matched,
      (λ id t here. elim (sound.shrinks id) [
        | inl same ↦ inr (close_cancels r.pool id t still (same ∙ here))
        | inr (out, has) ↦ inl has
      ]),
      close_empties r.pool still,
    )
