-- ===== src/Modbus/Runs/Pool.antt =====
-- The pool of transactions on small inputs.
use goindustrial.Base.{false, ◌==◌, none, some, if◌then◌else◌, refl, arith}
use goindustrial.Modbus.Transactions.{Transaction, new_transaction, TransactionPool, place}
use goindustrial.Modbus.Transactions.Place.{Placed, place-Placed, IsKeyed}
use goindustrial.Modbus.Runs.{read_five}

-- ID 65535 is the next candidate, and in flight.
abbrev in_flight : Transaction
in_flight =
    new_transaction (record read_five { mbap = record read_five.mbap { transaction_id = 65535 } })

abbrev busy_pool : TransactionPool
busy_pool = record {
  transactions = λ j. if j == 65535 then some in_flight else none;
  next_id = 65535;
  done = false;
}

place-Placed_example : Placed busy_pool read_five (place busy_pool read_five)
place-Placed_example = place-Placed busy_pool read_five refl

busy_pool-IsKeyed : IsKeyed busy_pool
busy_pool-IsKeyed = record { keyed = λ id t e. ground arith }
