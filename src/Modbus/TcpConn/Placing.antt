-- ===== src/Modbus/TcpConn/Placing.antt =====
-- transaction.go and conn.go: several callers place their requests in a pool, one after the other.
use mathlib.Core.Path.{subst}
use goindustrial.Base.{
  ℕ, ◌≡◌, ◌≢◌, inl, inr, refl, sym, ◌∙◌, ap, List, [], ◌∷◌, All, Option, none, some, ◌==◌, ==_iff,
  ==_self, Bool-cases, false, if◌then◌else◌, arith,
}
use goindustrial.Base.{Go, ok}
use goindustrial.Base.Bytes.{IsU16}
use goindustrial.Base.Stateful.{Exec, ◌>>=◌, lift, >>=-eq-ok}
use goindustrial.Modbus.Frame.{Request, set_transaction_id}
use goindustrial.Modbus.Transactions.{Transaction, new_transaction, TransactionPool, place}
use goindustrial.Modbus.Transactions.Place.{Placed, placed, full, place-Placed}
use goindustrial.Modbus.TcpConn.Matching.{id_of, Differs}
use goindustrial.Modbus.TcpConn.Delivery.{InFlight}

-- Callers that place their requests one after the other; the first error ends it.
unfoldable pub place_all : List Request → Exec TransactionPool (List Transaction)
place_all [] = lift (ok [])
place_all (q ∷ qs) = (λ pool. place pool q) >>= λ t. place_all qs >>= λ ts. lift (ok (t ∷ ts))

-- What placing one request did.
record WasPlaced (pool : TransactionPool) (q : Request) (pool' : TransactionPool) (t : Transaction)
    : Type 0 where
  was_free : pool.transactions (id_of t) ≡ none
  fits : IsU16 (id_of t)
  made : t ≡ new_transaction (set_transaction_id (id_of t) q)
  added : (j : ℕ) → pool'.transactions j ≡ (if j == id_of t then some t else pool.transactions j)
  still_open : pool'.done ≡ pool.done

Placed-WasPlaced :
    {pool : TransactionPool} {q : Request} {r : TransactionPool × Go Transaction} (t : Transaction)
    → Placed pool q r
    → r.1 ≡ ok t
    → WasPlaced pool q r.0 t
unfolding set_transaction_id
Placed-WasPlaced {pool} {q} t (placed id next_id fits free) e =
    let whole : new_transaction (set_transaction_id id q) ≡ t = cc in
    let same : id ≡ id_of t = ap id_of whole in
    record {
      was_free = ap pool.transactions (sym same) ∙ free;
      fits = subst IsU16 same fits;
      made = sym whole ∙ ap (λ i. new_transaction (set_transaction_id i q)) same;
      added = λ j. ground arith;
      still_open = refl;
    }
Placed-WasPlaced t (full next_id busy) e = cc

none-ne-some : (t : Transaction) → ◌≢◌ {A = Option Transaction} none (some t)
none-ne-some t p = cc

-- The transactions carry the requests, each with its ID.
abbrev pub Carries : List Request → List Transaction → Type 0
Carries [] [] = Unit {0}
Carries (q ∷ qs) (t ∷ ts) =
    (IsU16 (id_of t) × (t ≡ new_transaction (set_transaction_id (id_of t) q))) × Carries qs ts
Carries _ _ = ⊥

module _ {pool pool1 : TransactionPool} {q : Request} {t : Transaction}
    (w : WasPlaced pool q pool1 t) where
  entry_self : pool1.transactions (id_of t) ≡ some t
  entry_self = w.added (id_of t) ∙ rw (==_self (id_of t))

  entry_other : (j : ℕ) → id_of t ≢ j → pool1.transactions j ≡ pool.transactions j
  entry_other j ne = w.added j ∙ elim (Bool-cases (j == id_of t)) [
    | inl e ↦ absurd (ne (sym ((==_iff j (id_of t)).0 e)))
    | inr e ↦ rw e
  ]

  entry_free :
      (u : Transaction)
      → pool1.transactions (id_of u) ≡ none
      → (id_of u ≢ id_of t) × (pool.transactions (id_of u) ≡ none)
  entry_free u e = elim (Bool-cases (id_of u == id_of t)) [
    | inl same ↦
        let p = ap pool1.transactions ((==_iff (id_of u) (id_of t)).0 same) in
        absurd (none-ne-some t (sym e ∙ p ∙ entry_self))
    | inr other ↦
        let ne : id_of u ≢ id_of t = λ p. ground arith in
        (ne, sym (entry_other (id_of u) (λ p. ne (sym p))) ∙ e)
  ]

  others_apart :
      (ts : List Transaction)
      → All (λ u. pool1.transactions (id_of u) ≡ none) ts
      → All (Differs t) ts × All (λ u. pool.transactions (id_of u) ≡ none) ts
  others_apart [] h = (tt, tt)
  others_apart (u ∷ ts) (h, hs) =
      let (a, b) = entry_free u h in
      let (more_a, more_b) = others_apart ts hs in ((a, more_a), (b, more_b))

  extend_flight :
      (pool' : TransactionPool) (ts : List Transaction)
      → InFlight pool1 pool' ts
      → InFlight pool pool' (t ∷ ts)
  extend_flight pool' ts h =
      let (apart, free) = others_apart ts h.free in
      record {
        placed = (h.others (id_of t) apart ∙ entry_self, h.placed);
        free = (w.was_free, free);
        differ = (apart, h.differ);
        others = λ j k. h.others j k.1 ∙ entry_other j k.0;
      }

lifted : {S A : Type 0} (s s' : S) (a b : A) → (lift (ok a)) s ≡ (s', ok b) → (s ≡ s') × (a ≡ b)
lifted s s' a b h = (ap (λ x. x.0) h, ground arith)

no_flight : (pool : TransactionPool) → InFlight pool pool []
no_flight pool = record { placed = tt; free = tt; differ = tt; others = λ j k. refl }

pub placed_all :
    (qs : List Request) (pool pool' : TransactionPool) (ts : List Transaction)
    → pool.done ≡ false
    → place_all qs pool ≡ (pool', ok ts)
    → InFlight pool pool' ts × Carries qs ts
unfolding place_all
placed_all [] pool pool' ts live h =
    let (same, nil) = lifted pool pool' [] ts h in
    subst (λ us. InFlight pool pool' us × Carries [] us) nil
      (subst (λ p. InFlight pool p [] × Carries [] []) same (no_flight pool, tt))
placed_all (q ∷ qs) pool pool' ts live h =
    let (t, first, more) =
      >>=-eq-ok (λ p. place p q) (λ t. place_all qs >>= λ ts. lift (ok (t ∷ ts))) pool h in
    let (rest, others, last) =
      >>=-eq-ok (place_all qs) (λ ts. lift (ok (t ∷ ts))) (place pool q).0 more in
    let w = Placed-WasPlaced t (place-Placed pool q live) first in
    let (done, whole) = lifted _ pool' (t ∷ rest) ts last in
    let after : place_all qs (place pool q).0 ≡ (pool', ok rest) = ground (arith, done, others) in
    let (flight, carries) = placed_all qs (place pool q).0 pool' rest (w.still_open ∙ live) after in
    subst (λ us. InFlight pool pool' us × Carries (q ∷ qs) us) whole
      (extend_flight w pool' rest flight, ((w.fits, w.made), carries))
