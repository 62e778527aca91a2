-- ===== src/Modbus/Runs/Links.antt =====
-- A client's connection on small inputs.
use goindustrial.Base.{
  ◌==◌, ◌≡◌, refl, List, [], ◌∷◌, none, some, take, drop, false, if◌then◌else◌, arith,
}
use goindustrial.Modbus.Frame.{set_transaction_id, encode_frame}
use goindustrial.Modbus.Store.{memory_store}
use goindustrial.Modbus.Store.Laws.{memory_store-IsLawful}
use goindustrial.Modbus.Connection.{setup_default_handlers}
use goindustrial.Modbus.Connection.Safety.{setup_default_handlers-Serves}
use goindustrial.Modbus.Transactions.{
  Transaction, new_transaction, TransactionPool, new_transaction_pool, place,
}
use goindustrial.Modbus.TcpConn.{Item, byte, pause, Reader, go_on, read_round, new_tcp_conn}
use goindustrial.Modbus.TcpConn.Reading.{on_wire, read_round_split}
use goindustrial.Modbus.TcpConn.Matching.{IsAwaiting}
use goindustrial.Modbus.TcpConn.Returns.{Stops, Finishes, read_loop_returns, close-read_loop}
use goindustrial.Modbus.TcpConn.Placing.{place_all}
use goindustrial.Modbus.TcpConn.Pipeline.{Exchanged, read_loop-handle_connection}
use goindustrial.Modbus.TcpConn.Lifecycle.{
  dialled, hung_up, loop_ended, run, IsConsistent, run-IsConsistent,
}
use goindustrial.Modbus.Runs.{opened, read_five, unknown_function}

-- The first two transactions of a new pool
abbrev first : Transaction
first = new_transaction (record read_five { mbap = record read_five.mbap { transaction_id = 0 } })

abbrev second : Transaction
second =
    new_transaction
      (record unknown_function { mbap = record read_five.mbap { transaction_id = 1 } })

abbrev both_placed : TransactionPool
both_placed = record {
  transactions = λ j. if j == 1 then some second else if j == 0 then some first else none;
  next_id = 2;
  done = false;
}

read_loop-handle_connection_example :
    Exchanged
      (setup_default_handlers memory_store)
      new_transaction_pool
      both_placed
      (first ∷ second ∷ [])
      opened
unfolding place_all place set_transaction_id new_transaction_pool
read_loop-handle_connection_example =
    read_loop-handle_connection (setup_default_handlers memory_store)
      (setup_default_handlers-Serves memory_store memory_store-IsLawful)
      (read_five ∷ unknown_function ∷ []) new_transaction_pool both_placed (first ∷ second ∷ [])
      opened refl
      (
        record { short = omega arith; modbus = refl },
        (record { short = omega arith; modbus = refl }, tt),
      )
      refl

both_placed-IsAwaiting : IsAwaiting both_placed
both_placed-IsAwaiting id t e = ground arith

-- A response to the second, a wait, and a part of a header
abbrev arrived : List Item
arrived =
    byte 0
    ∷ byte 1
    ∷ byte 0
    ∷ byte 0
    ∷ byte 0
    ∷ byte 3
    ∷ byte 1
    ∷ byte 213
    ∷ byte 1
    ∷ pause
    ∷ byte 0
    ∷ []

read_loop_returns_example : Stops both_placed arrived
read_loop_returns_example = read_loop_returns both_placed arrived both_placed-IsAwaiting

close-read_loop_example : Finishes both_placed arrived
close-read_loop_example = close-read_loop both_placed arrived both_placed-IsAwaiting refl

abbrev waiting : Reader
waiting = record { pool = both_placed; completed = [] }

-- Ten of the twelve bytes of a frame arrive before the deadline.
read_round_split_example :
    let frame = encode_frame first.request.mbap first.request.pdu in
    read_round waiting (on_wire (take 10 frame) (pause ∷ on_wire (drop 10 frame) []))
    ≡ go_on waiting (on_wire (drop 10 frame) [])
unfolding encode_frame
read_round_split_example =
    read_round_split waiting first.request.mbap first.request.pdu 10 []
      (record {
        transaction_fits = omega arith;
        protocol_fits = omega arith;
        payload_fits = omega arith;
      })
      refl (omega arith)

run-IsConsistent_example : IsConsistent (
    run
      (dialled 7 ∷ hung_up ∷ dialled 8 ∷ loop_ended 1 ∷ [])
      (record { tcp = new_tcp_conn; opened = []; closed = [] }))
run-IsConsistent_example = run-IsConsistent (dialled 7 ∷ hung_up ∷ dialled 8 ∷ loop_ended 1 ∷ [])
