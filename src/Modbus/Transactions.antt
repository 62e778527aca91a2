-- ===== src/Modbus/Transactions.antt =====
-- protocol/modbus/transaction.go: placing a request in the pool of transactions, looking one up and
-- releasing it, and completing a transaction. A method holds the pool's mutex and is one step. Of a
-- transaction's context only its cancellation is kept. A round over all transactions gives those
-- that it cancels as a map, since Go walks a map in any order; which are too old is a parameter.
pub mod Place
use goindustrial.Base.{
  ℕ, zero, suc, ◌+◌, ◌%◌, ◌^◌, Bool, true, false, ◌==◌, ◌⊎◌, inl, inr, Option, none, some,
  if◌then◌else◌,
}
use goindustrial.Base.{
  Go, Error, ok, err, pool_closed, pool_full, transport_closing, transaction_timeout,
}
use goindustrial.Base.Bytes.{u16}
use goindustrial.Modbus.Frame.{Request, Response, set_transaction_id}

-- The channels have a buffer of one: what is in it, if anything.
pub record Transaction : Type 0 where
  pub request : Request
  pub response_ch : Option Response
  pub err_ch : Option Error
  pub cancelled : Bool

abbrev pub new_transaction : Request → Transaction
new_transaction request = record {
  request = request;
  response_ch = none;
  err_ch = none;
  cancelled = false;
}

-- A send that is given up when the buffer is full
unfoldable pub offer : {A : Type 0} → Option A → A → Option A
offer none a = some a
offer (some b) a = some b

-- `Complete`, with a response or an error
unfoldable pub complete : Transaction → Response ⊎ Error → Transaction
unfolding offer
complete t (inl response) = record t {
  response_ch = offer t.response_ch response;
  cancelled = true;
}
complete t (inr e) = record t { err_ch = offer t.err_ch e; cancelled = true }

unfoldable pub cancel : Transaction → Error → Transaction
unfolding complete
cancel t e = complete t (inr e)

pub record TransactionPool : Type 0 where
  pub transactions : ℕ → Option Transaction
  pub next_id : ℕ
  pub done : Bool

abbrev pub max_id_attempts : ℕ
max_id_attempts = 16

-- `nextID.Add(1)` on 32 bits
abbrev pub u32 : ℕ → ℕ
u32 n = n % 2 ^ 32

-- The loop that looks for a free ID, with the rounds left: `nextID` behind it, and the ID.
unfoldable pub find_free : ℕ → (ℕ → Option Transaction) → ℕ → ℕ × Option ℕ
find_free zero transactions next_id = (next_id, none)
find_free (suc left) transactions next_id =
    let later = find_free left transactions (u32 (next_id + 1)) in
    elim (transactions (u16 next_id)) [
      | none ↦ (u32 (next_id + 1), some (u16 next_id))
      | some _ ↦ later
    ]

unfoldable pub add_transaction :
    TransactionPool → Request → ℕ × Option ℕ → TransactionPool × Go Transaction
add_transaction pool request (next_id, none) = (record pool { next_id = next_id }, err pool_full)
add_transaction pool request (next_id, some id) =
    let placed : Transaction = new_transaction (set_transaction_id id request) in
    (
      record pool {
        next_id = next_id;
        transactions = λ j. if j == id then some placed else pool.transactions j;
      },
      ok placed,
    )

unfoldable pub place : TransactionPool → Request → TransactionPool × Go Transaction
unfolding find_free add_transaction
place pool request =
    if pool.done
    then (pool, err pool_closed)
    else add_transaction pool request (find_free max_id_attempts pool.transactions pool.next_id)

pub get : TransactionPool → ℕ → Option Transaction
get pool id = pool.transactions id

-- `Release`, with `unsafeRelease`
unfoldable pub release : TransactionPool → ℕ → TransactionPool × Option Transaction
release pool id = (
  record pool { transactions = λ j. if j == id then none else pool.transactions j },
  pool.transactions id,
)

-- Nothing in flight, and the first candidate is 0.
unfoldable pub new_transaction_pool : TransactionPool
new_transaction_pool = record { transactions = λ _. none; next_id = 0; done = false }

unfoldable pub cancelled_with : Error → Option Transaction → Option Transaction
unfolding cancel
cancelled_with e none = none
cancelled_with e (some t) = some (cancel t e)

-- `Close`: the pool, and the transactions that it cancelled. A second call does nothing.
unfoldable pub close : TransactionPool → TransactionPool × (ℕ → Option Transaction)
unfolding cancelled_with
close pool = if pool.done then (pool, λ _. none) else (
  record pool { done = true; transactions = λ _. none },
  λ j. cancelled_with transport_closing (pool.transactions j),
)

keep_young : (Transaction → Bool) → Option Transaction → Option Transaction
keep_young too_old none = none
keep_young too_old (some t) = if too_old t then none else some t

take_old : (Transaction → Bool) → Option Transaction → Option Transaction
unfolding cancel
take_old too_old none = none
take_old too_old (some t) = if too_old t then some (cancel t transaction_timeout) else none

-- `checkTimeouts`
unfoldable pub check_timeouts :
    (Transaction → Bool) → TransactionPool → TransactionPool × (ℕ → Option Transaction)
unfolding keep_young take_old
check_timeouts too_old pool = (
  record pool { transactions = λ j. keep_young too_old (pool.transactions j) },
  λ j. take_old too_old (pool.transactions j),
)

-- `unsafeReset`: the next candidate stays.
unfoldable pub unsafe_reset : TransactionPool → TransactionPool × (ℕ → Option Transaction)
unfolding cancelled_with
unsafe_reset pool = (
  record pool { transactions = λ _. none },
  λ j. cancelled_with transport_closing (pool.transactions j),
)
