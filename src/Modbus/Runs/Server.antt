-- ===== src/Modbus/Runs/Server.antt =====
-- The server on small inputs.
use goindustrial.Base.{ℕ, suc, [], ◌∷◌, ◌++◌, ◌≡◌, refl, some, none, length, arith}
use goindustrial.Modbus.Frame.{new_request, Mbap, encode_frame}
use goindustrial.Modbus.Store.{MemoryStore, memory_store, AddressMap}
use goindustrial.Modbus.Store.Laws.{memory_store-IsLawful}
use goindustrial.Modbus.Connection.{
  setup_default_handlers, dispatch_request, run_handler, Connection, next, closed, handle_frame,
  handle_connection,
}
use goindustrial.Modbus.Connection.Rounds.{handle_frame_other_protocol}
use goindustrial.Modbus.Connection.Safety.{Serves, setup_default_handlers-Serves}
use goindustrial.Modbus.Connection.Loop.{
  IsModbusFrame, replies, requests_encode, responses_encode, handle_connection-replies,
}
use goindustrial.Modbus.Connection.Total.{setup_default_handlers-closes}
use goindustrial.Modbus.Client.{send}
use goindustrial.Modbus.Client.Exchange.Exceptions.{send-refused}
use goindustrial.Base.{err, modbus_error}
use goindustrial.Modbus.Client.Exchange.{loopback}
use goindustrial.Modbus.Runs.{small_store, opened, two_retries, read_five, unknown_function}

-- Three bytes that are no frame.
setup_default_handlers-closes_example :
    (c' : Connection MemoryStore) × (handle_connection
        (suc (length {A = ℕ} (1 ∷ 2 ∷ 3 ∷ [])))
        (setup_default_handlers memory_store)
        opened
        (1 ∷ 2 ∷ 3 ∷ [])
      ≡ some (closed c'))
setup_default_handlers-closes_example =
    setup_default_handlers-closes memory_store memory_store-IsLawful opened (1 ∷ 2 ∷ 3 ∷ [])

setup_default_handlers-Serves_example : Serves (setup_default_handlers memory_store)
setup_default_handlers-Serves_example =
    setup_default_handlers-Serves memory_store memory_store-IsLawful

read_five-IsModbusFrame : IsModbusFrame read_five
read_five-IsModbusFrame = record {
  fits = record {
    transaction_fits = omega arith;
    protocol_fits = omega arith;
    payload_fits = omega arith;
  };
  modbus = refl;
}

unknown_function-IsModbusFrame : IsModbusFrame unknown_function
unknown_function-IsModbusFrame = record {
  fits = record {
    transaction_fits = omega arith;
    protocol_fits = omega arith;
    payload_fits = omega arith;
  };
  modbus = refl;
}

handle_connection-replies_example :
    let handlers = setup_default_handlers memory_store in
    let requests = read_five ∷ unknown_function ∷ [] in
    (c' : Connection MemoryStore) × (handle_connection 3 handlers opened (requests_encode requests)
      ≡ some (closed c'))
    × (c'.store ≡ (replies handlers small_store requests).0)
    × (c'.output ≡ [] ++ responses_encode (replies handlers small_store requests).1)
handle_connection-replies_example =
    handle_connection-replies (setup_default_handlers memory_store)
      (setup_default_handlers-Serves memory_store memory_store-IsLawful) opened
      (read_five ∷ unknown_function ∷ [])
      (read_five-IsModbusFrame, (unknown_function-IsModbusFrame, tt))

abbrev foreign : Mbap
foreign = record { transaction_id = 258; protocol_id = 1; unit_id = 1 }

handle_frame_other_protocol_example :
    handle_frame
      (setup_default_handlers memory_store)
      opened
      (encode_frame foreign read_five.pdu ++ [])
    ≡ next opened (3 ∷ 0 ∷ 5 ∷ 0 ∷ 1 ∷ [])
handle_frame_other_protocol_example =
    handle_frame_other_protocol (setup_default_handlers memory_store) opened foreign read_five.pdu
      []
      (record {
        transaction_fits = omega arith;
        protocol_fits = omega arith;
        payload_fits = omega arith;
      })
      (omega arith)

abbrev no_values : AddressMap ℕ
no_values = λ _. none

-- Function code 0x55 has no handler.
send-refused_example :
    let (c', r) =
      send (loopback (setup_default_handlers memory_store)) two_retries 0x55 [] opened in
    (r ≡ err (modbus_error 0xD5 1)) × (c'.store ≡ small_store)
unfolding setup_default_handlers dispatch_request run_handler new_request
send-refused_example =
    send-refused (setup_default_handlers memory_store)
      (setup_default_handlers-Serves memory_store memory_store-IsLawful) two_retries opened 0x55 1
      [] (omega arith) (omega arith) refl
