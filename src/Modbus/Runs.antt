-- ===== src/Modbus/Runs.antt =====
-- Runs of the Modbus server and client on small inputs.
mod Server
mod Clients
mod Wire
mod Pool
mod Links
use goindustrial.Base.{ℕ, [], ◌∷◌, List, Bool, true, false, some, none, if◌then◌else◌, ◌==◌}
use goindustrial.Modbus.Frame.{Mbap, Pdu, Request}
use goindustrial.Modbus.Store.{MemoryStore, new_memory_store}
use goindustrial.Modbus.Connection.{ClientConn, Connection}
use goindustrial.Modbus.Client.{Client}

abbrev pub fresh_conn : ClientConn
fresh_conn = record { rx_count = 0; tx_count = 0; fc_count = λ _. 0 }

-- Register 5 holds 7; nothing else was written.
abbrev pub small_store : MemoryStore
small_store = record new_memory_store {
  holding_registers = λ j. if j == 5 then some 7 else none;
  input_registers = λ j. if j == 5 then some 9 else none;
}

abbrev pub opened : Connection MemoryStore
opened = record { store = small_store; client = fresh_conn; output = [] }

abbrev pub two_retries : Client
two_retries = record { unit_id = 1; retries = 2 }

-- Read one holding register from address 5.
abbrev pub read_five : Request
read_five = record {
  mbap = record { transaction_id = 258; protocol_id = 0; unit_id = 1 };
  pdu = record { function_code = 3; payload = 0 ∷ 5 ∷ 0 ∷ 1 ∷ [] };
}

-- The same with a function code that no handler has.
abbrev pub unknown_function : Request
unknown_function = record read_five { pdu = record { function_code = 0x55; payload = [] } }
