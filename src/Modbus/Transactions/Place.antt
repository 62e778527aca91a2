-- ===== src/Modbus/Transactions/Place.antt =====
-- Which ID a request gets, and what the pool holds then.
use goindustrial.Base.{
  ℕ, zero, suc, ◌+◌, ◌<◌, ◌≡◌, ◌≢◌, ◌⊎◌, inl, inr, refl, sym, ◌∙◌, ap, false, Bool-cases, ◌==◌,
  Option, none, some, if◌then◌else◌, arith,
}
use mathlib.Core.Path.{subst}
use goindustrial.Base.{Go, ok, err, pool_full}
use goindustrial.Base.Bytes.{IsU16, u16}
use goindustrial.Modbus.Frame.{Request, set_transaction_id}
use goindustrial.Modbus.Transactions.{
  Transaction, new_transaction, TransactionPool, u32, find_free, add_transaction, place, release,
}

pub Option-cases : {A : Type 0} (o : Option A) → (o ≡ none) ⊎ ((a : A) × (o ≡ some a))
Option-cases none = inl refl
Option-cases (some a) = inr (a, refl)

-- The candidate after the next ID is the next candidate, also where the counter wraps.
u16-u32 : (n k : ℕ) → u16 (u32 (n + 1) + k) ≡ u16 (n + suc k)
u16-u32 n k = omega arith

module _ (transactions : ℕ → Option Transaction) where
  -- The k candidates from n on are in flight.
  abbrev pub InFlight : ℕ → ℕ → Type 0
  InFlight n k = (j : ℕ) → j < k → transactions (u16 (n + j)) ≢ none

  -- A search with `left` rounds from n on took the first free candidate, or there was none.
  abbrev pub Searched : ℕ → ℕ → Option ℕ → Type 0
  Searched left n id =
      ((k : ℕ) × (k < left)
        × InFlight n k
        × (transactions (u16 (n + k)) ≡ none)
        × (id ≡ some (u16 (n + k))))
      ⊎ (InFlight n left × (id ≡ none))

  more-InFlight :
      (n k : ℕ) (t : Transaction)
      → transactions (u16 n) ≡ some t
      → InFlight (u32 (n + 1)) k
      → InFlight n (suc k)
  more-InFlight n k t e others zero h p =
      let same : u16 (n + 0) ≡ u16 n = omega arith in cc (p, e, same)
  more-InFlight n k t e others (suc j) h p =
      others j (omega arith) (ap transactions (u16-u32 n j) ∙ p)

  find_free-free :
      (left n : ℕ)
      → transactions (u16 n) ≡ none
      → find_free (suc left) transactions n ≡ (u32 (n + 1), some (u16 n))
  unfolding find_free
  find_free-free left n e = rw (find_free, e)

  find_free-busy :
      (left n : ℕ) (t : Transaction)
      → transactions (u16 n) ≡ some t
      → find_free (suc left) transactions n ≡ find_free left transactions (u32 (n + 1))
  unfolding find_free
  find_free-busy left n t e = rw (find_free, e)

  later_found :
      (left n : ℕ) (id : Option ℕ) (t : Transaction)
      → transactions (u16 n) ≡ some t
      → Searched left (u32 (n + 1)) id
      → Searched (suc left) n id
  later_found left n id t e (inl (k, less, busy, free, found)) = inl (
    suc k,
    omega arith,
    more-InFlight n k t e busy,
    ap transactions (sym (u16-u32 n k)) ∙ free,
    found ∙ ap some (u16-u32 n k),
  )
  later_found left n id t e (inr (busy, none_left)) = inr (more-InFlight n left t e busy, none_left)

  find_free-Searched : (left n : ℕ) → Searched left n (find_free left transactions n).1
  find_free-Searched zero n = inr ((λ j h. absurd (omega arith)), unfold find_free in refl)
  find_free-Searched (suc left) n =
      let later = find_free-Searched left (u32 (n + 1)) in
      elim (Option-cases (transactions (u16 n))) [
        | inl e ↦
            let here : u16 (n + 0) ≡ u16 n = omega arith in
            inl (
              0,
              omega arith,
              (λ j h. absurd (omega arith)),
              ap transactions here ∙ e,
              ap (λ x. x.1) (find_free-free left n e) ∙ ap some (sym here),
            )
        | inr (t, e) ↦
            later_found left n _ t e
              (subst (λ r. Searched left (u32 (n + 1)) r.1) (sym (find_free-busy left n t e)) later)
      ]

-- What `place` gives on a pool that is open: either a transaction with an ID that was free, which is
-- then in the pool beside what was there; or the error of a full pool, with nothing placed.
pub data Placed (pool : TransactionPool) (request : Request)
    : TransactionPool × Go Transaction → Type 0 where
  placed :
      (id next_id : ℕ)
      → IsU16 id
      → pool.transactions id ≡ none
      → Placed pool request (
        record pool {
          next_id = next_id;
          transactions = λ j.
              if j == id
              then some (new_transaction (set_transaction_id id request))
              else pool.transactions j;
        },
        ok (new_transaction (set_transaction_id id request)),
      )
  full :
      (next_id : ℕ)
      → InFlight pool.transactions pool.next_id 16
      → Placed pool request (record pool { next_id = next_id }, err pool_full)

add_transaction-Placed :
    (pool : TransactionPool) (request : Request) (next_id : ℕ) (id : Option ℕ)
    → Searched pool.transactions 16 pool.next_id id
    → Placed pool request (add_transaction pool request (next_id, id))
unfolding add_transaction
add_transaction-Placed pool request next_id none (inl (k, less, busy, free, found)) = cc
add_transaction-Placed pool request next_id none (inr (busy, _)) = full next_id busy
add_transaction-Placed pool request next_id (some id) (inl (k, less, busy, free, found)) =
    let same : id ≡ u16 (pool.next_id + k) = ground arith in
    placed id next_id (rw same (omega arith)) (rw same free)
add_transaction-Placed pool request next_id (some id) (inr (busy, none_left)) = cc

-- A request that is placed in an open pool gets a 16-bit ID that no transaction in flight has, the
-- transaction carries it, and the other entries stay; or the next 16 candidates are all in flight,
-- the pool is reported as full, and its entries stay.
pub place-Placed :
    (pool : TransactionPool) (request : Request)
    → pool.done ≡ false
    → Placed pool request (place pool request)
unfolding place
place-Placed pool request open_pool =
    let found = find_free-Searched pool.transactions 16 pool.next_id in
    simp open_pool (
      add_transaction-Placed pool request (find_free 16 pool.transactions pool.next_id).0
        (find_free 16 pool.transactions pool.next_id).1 found)

-- Each transaction in flight carries the ID under which it is found.
pub record IsKeyed (pool : TransactionPool) : Type 0 where
  pub keyed :
      (id : ℕ) (t : Transaction)
      → pool.transactions id ≡ some t
      → t.request.mbap.transaction_id ≡ id

Placed-IsKeyed :
    {pool : TransactionPool} {request : Request} {r : TransactionPool × Go Transaction}
    → IsKeyed pool
    → Placed pool request r
    → IsKeyed r.0
unfolding set_transaction_id
Placed-IsKeyed good (placed id next_id fits free) = record {
  keyed = λ j t e. ground (arith, good.keyed j t);
}
Placed-IsKeyed good (full next_id busy) = record { keyed = good.keyed }

-- That each transaction in flight carries its ID is kept by placing a request, whether that succeeds,
-- finds no free ID or finds the pool closed, and by releasing any ID.
pub place-release-IsKeyed :
    (pool : TransactionPool) (request : Request) (id : ℕ)
    → IsKeyed pool
    → IsKeyed (place pool request).0 × IsKeyed (release pool id).0
unfolding release
place-release-IsKeyed pool request id good = (
  elim (Bool-cases pool.done) [
    | inl closed ↦ unfold place in simp closed good
    | inr open_pool ↦ Placed-IsKeyed good (place-Placed pool request open_pool)
  ],
  record { keyed = λ j t e. ground (arith, good.keyed j t) },
)

released :
    {pool : TransactionPool} {request : Request} {r : TransactionPool × Go Transaction}
    (t : Transaction)
    → Placed pool request r
    → r.1 ≡ ok t
    → let id = t.request.mbap.transaction_id in
      let (after, found) = release r.0 id in
      (found ≡ some t) × ((j : ℕ) → after.transactions j ≡ pool.transactions j)
unfolding release set_transaction_id
released {request = request} t (placed id next_id fits free) e =
    let whole : new_transaction (set_transaction_id id request) ≡ t = cc in
    let same : id ≡ t.request.mbap.transaction_id = ap (λ x. x.request.mbap.transaction_id) whole in
    (ground arith, λ j. ground arith)
released t (full next_id busy) e = cc

-- Where `place` succeeds on an open pool, releasing the ID of its transaction gives the transaction
-- back and leaves the entries that the pool had before.
pub release-place :
    (pool : TransactionPool) (request : Request) (t : Transaction)
    → pool.done ≡ false
    → (place pool request).1 ≡ ok t
    → let id = t.request.mbap.transaction_id in
      let (after, found) = release (place pool request).0 id in
      (found ≡ some t) × ((j : ℕ) → after.transactions j ≡ pool.transactions j)
release-place pool request t open_pool e = released t (place-Placed pool request open_pool) e
