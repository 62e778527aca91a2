-- ===== src/Modbus/TcpConn/Delivery.antt =====
-- conn.go: responses that arrive back to back reach the transactions that wait for them.
use mathlib.Core.Path.{subst}
use goindustrial.Base.{
  ℕ, suc, ◌≡◌, ◌≢◌, inl, inr, refl, sym, ◌∙◌, ap, List, [], ◌∷◌, ◌++◌, All, none, some, ◌==◌,
  ==_iff, Bool-cases, true, false, length, append_assoc, append-nil, arith,
}
use goindustrial.Base.{io_eof}
use goindustrial.Modbus.Frame.{Response, response_encode}
use goindustrial.Modbus.Frame.RoundTrip.{FitsFrame}
use goindustrial.Modbus.Connection.Loop.{responses_encode}
use goindustrial.Modbus.Transactions.{Transaction, complete, TransactionPool, release}
use goindustrial.Modbus.TcpConn.{
  Item, Reader, go_on, settle, deliver, read_items, read_round, read_loop,
}
use goindustrial.Modbus.TcpConn.Reading.{on_wire, on_wire-append, read_round-encode_frame}
use goindustrial.Modbus.TcpConn.Matching.{id_of, Distinct}

-- Responses delivered one after the other
pub deliver_all : Reader → List Response → Reader
deliver_all r [] = r
deliver_all r (x ∷ xs) = deliver_all (deliver r x) xs

-- A frame that a client accepts
pub record IsModbusResponse (x : Response) : Type 0 where
  pub fits : FitsFrame x.mbap x.pdu
  pub modbus : x.mbap.protocol_id ≡ 0

read_loop_next :
    (fuel : ℕ) (r : Reader) (input : List Item) {r' : Reader} {rest : List Item}
    → read_round r input ≡ go_on r' rest
    → read_loop (suc fuel) r input ≡ read_loop fuel r' rest
unfolding read_loop
read_loop_next fuel r input e = rw (read_loop, e)

response_read :
    (r : Reader) (x : Response) (rest : List Item)
    → IsModbusResponse x
    → read_round r (on_wire (response_encode x) rest) ≡ go_on (deliver r x) rest
unfolding response_encode
response_read r x rest good = read_round-encode_frame r x.mbap x.pdu rest good.fits good.modbus

-- Whole frames are delivered in order, up to the end of the stream.
pub read_loop-deliver_all :
    (r : Reader) (xs : List Response)
    → All IsModbusResponse xs
    → read_loop (suc (length xs)) r (on_wire (responses_encode xs) [])
      ≡ some (deliver_all r xs, io_eof)
unfolding deliver_all responses_encode
read_loop-deliver_all r [] good = unfold read_loop read_round read_items on_wire in refl
read_loop-deliver_all r (x ∷ xs) (good, more) =
    rw (on_wire-append (response_encode x) (responses_encode xs) []) (
      read_loop_next (suc (length xs)) r _
        (response_read r x (on_wire (responses_encode xs) []) good)
      ∙ read_loop-deliver_all (deliver r x) xs more)

-- Each transaction with the response at its place
unfoldable pub completions : List Transaction → List Response → List Transaction
completions (t ∷ ts) (x ∷ xs) = complete t (inl x) ∷ completions ts xs
completions [] xs = []
completions (t ∷ ts) [] = []

-- The responses go by the IDs of the transactions, in order.
abbrev pub Answer : List Transaction → List Response → Type 0
Answer [] [] = Unit {0}
Answer (t ∷ ts) (x ∷ xs) = (x.mbap.transaction_id ≡ id_of t) × Answer ts xs
Answer _ _ = ⊥

-- Transactions that are in flight beside the entries of a pool.
pub record InFlight (before after : TransactionPool) (ts : List Transaction) : Type 0 where
  pub placed : All (λ t. after.transactions (id_of t) ≡ some t) ts
  pub free : All (λ t. before.transactions (id_of t) ≡ none) ts
  pub differ : Distinct ts
  pub others : (j : ℕ) → All (λ t. id_of t ≢ j) ts → after.transactions j ≡ before.transactions j

deliver_found :
    (r : Reader) (x : Response) (t : Transaction)
    → r.pool.transactions x.mbap.transaction_id ≡ some t
    → deliver r x ≡ record {
      pool = (release r.pool x.mbap.transaction_id).0;
      completed = r.completed ++ complete t (inl x) ∷ [];
    }
unfolding deliver settle release
deliver_found r x t e = rw e

released_free :
    (pool : TransactionPool) (id j : ℕ)
    → (j == id) ≡ true
    → (release pool id).0.transactions j ≡ none
unfolding release
released_free pool id j e = rw e

released_other :
    (pool : TransactionPool) (id j : ℕ)
    → (j == id) ≡ false
    → (release pool id).0.transactions j ≡ pool.transactions j
unfolding release
released_other pool id j e = rw e

==-ne : (j i : ℕ) → (j == i) ≡ false → j ≢ i
==-ne j i e p = ground arith

module _ (before : TransactionPool) where
  still_placed :
      (pool : TransactionPool) (id : ℕ) (ts : List Transaction)
      → All (λ t. id_of t ≢ id) ts
      → All (λ t. pool.transactions (id_of t) ≡ some t) ts
      → All (λ t. (release pool id).0.transactions (id_of t) ≡ some t) ts
  unfolding release
  still_placed pool id [] h k = tt
  still_placed pool id (t ∷ ts) (h, hs) (k, ks) = (ground (arith, h), still_placed pool id ts hs ks)

  after_release :
      (pool : TransactionPool) (t : Transaction) (ts : List Transaction)
      → InFlight before pool (t ∷ ts)
      → InFlight before (release pool (id_of t)).0 ts
  after_release pool t ts h = record {
    placed = still_placed pool (id_of t) ts h.differ.0 h.placed.1;
    free = h.free.1;
    differ = h.differ.1;
    others = λ j k. elim (Bool-cases (j == id_of t)) [
      | inl e ↦
          released_free pool (id_of t) j e
          ∙ sym (ap before.transactions ((==_iff j (id_of t)).0 e) ∙ h.free.0)
      | inr e ↦
          released_other pool (id_of t) j e ∙ h.others j ((λ p. ==-ne j (id_of t) e (sym p)), k)
    ];
  }

  pub delivered :
      (r : Reader) (ts : List Transaction) (xs : List Response)
      → InFlight before r.pool ts
      → Answer ts xs
      → ((deliver_all r xs).completed ≡ r.completed ++ completions ts xs)
        × ((j : ℕ) → (deliver_all r xs).pool.transactions j ≡ before.transactions j)
  unfolding deliver_all completions
  delivered r [] [] h a = (sym (append-nil r.completed), λ j. h.others j tt)
  delivered r [] (x ∷ xs) h a = absurd a
  delivered r (t ∷ ts) [] h a = absurd a
  delivered r (t ∷ ts) (x ∷ xs) h (same, a) =
      let found = deliver_found r x t (ap r.pool.transactions same ∙ h.placed.0) in
      let next : Reader = record {
        pool = (release r.pool x.mbap.transaction_id).0;
        completed = r.completed ++ complete t (inl x) ∷ [];
      } in
      let flight =
        subst (λ i. InFlight before (release r.pool i).0 ts) (sym same)
          (after_release r.pool t ts h) in
      let (done, rest) = delivered next ts xs flight a in
      subst
        (λ q.
          ((deliver_all q xs).completed ≡ r.completed ++ complete t (inl x) ∷ completions ts xs)
          × ((j : ℕ) → (deliver_all q xs).pool.transactions j ≡ before.transactions j))
        (sym found)
        (done ∙ append_assoc r.completed (complete t (inl x) ∷ []) (completions ts xs), rest)
