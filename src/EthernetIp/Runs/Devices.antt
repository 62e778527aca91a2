-- ===== src/EthernetIp/Runs/Devices.antt =====
-- Devices with assemblies and connections, on small inputs.
use goindustrial.Base.{ℕ, ◌+◌, ◌≡◌, ◌≢◌, refl, [], ◌∷◌, some, arith}
use goindustrial.Base.{ok, err, cip_error}
use goindustrial.EthernetIp.Cip.Router.{new_message_router, plain_response, dispatch}
use goindustrial.EthernetIp.Objects.Assembly.{
  AssemblyInstance, AssemblyObject, new_assembly_object, register_assembly, store_instance,
}
use goindustrial.EthernetIp.Objects.Assembly.Exchange.{
  with_assemblies, data_request, dispatch-set_get,
}
use goindustrial.EthernetIp.Objects.ConnMgr.{
  ConnectionManager, Callbacks, new_connection_manager, call_on_open, call_on_close, triad_in_use,
  forward_open_response, forward_close_response, handle_forward_open, handle_forward_close,
}
use goindustrial.EthernetIp.Objects.ConnMgr.Requests.{
  ForwardOpenRequest, forward_open_encode, IsForwardOpen, ForwardCloseRequest, forward_close_encode,
  IsForwardClose,
}
use goindustrial.EthernetIp.Objects.ConnMgr.Table.{IsTable}
use goindustrial.EthernetIp.Objects.ConnMgr.Invariant.{serve_all, serve_all-IsTable}
use goindustrial.EthernetIp.Objects.ConnMgr.Opening.{with_connection, open_again_close}

abbrev device : AssemblyObject
device = register_assembly 100 (0 ∷ 0 ∷ []) (register_assembly 300 (1 ∷ []) new_assembly_object)

abbrev outputs : AssemblyInstance
outputs = record { id = 100; bytes = 0 ∷ 0 ∷ [] }

abbrev outputs_set : AssemblyObject
outputs_set = store_instance 100 (record outputs { bytes = 7 ∷ 9 ∷ [] }) device

dispatch-set_get_example :
    (dispatch (with_assemblies new_message_router) (data_request 16 100 (7 ∷ 9 ∷ [])) device
      ≡ (outputs_set, ok (plain_response 16 0 [])))
    × (dispatch (with_assemblies new_message_router) (data_request 14 100 []) outputs_set
        ≡ (outputs_set, ok (plain_response 14 0 (7 ∷ 9 ∷ []))))
    × ((j : ℕ) → j ≢ 100 → outputs_set.instances j ≡ device.instances j)
unfolding register_assembly
dispatch-set_get_example =
    dispatch-set_get new_message_router 100 (7 ∷ 9 ∷ []) device outputs (omega arith) refl refl

-- Callbacks that count the connections
abbrev counting : Callbacks ℕ
counting = record { on_open = some (λ c req n. n + 1); on_close = some (λ c n. n + 10) }

abbrev opening : ForwardOpenRequest
opening = record {
  priority_time_tick = 3;
  timeout_ticks = 250;
  ot_connection_id = 0;
  to_connection_id = 70000;
  connection_serial_number = 4660;
  vendor_id = 77;
  originator_serial_number = 305419896;
  connection_timeout_multiplier = 1;
  reserved = 0 ∷ 0 ∷ 0 ∷ [];
  ot_rpi = 10000;
  ot_network_connection_params = 18466;
  to_rpi = 10000;
  to_network_connection_params = 18466;
  transport_type_trigger = 1;
  connection_path_size = 1;
  connection_path = 44 ∷ 100 ∷ [];
}

abbrev closing : ForwardCloseRequest
closing = record {
  priority_time_tick = 3;
  timeout_ticks = 250;
  connection_serial_number = 4660;
  vendor_id = 77;
  originator_serial_number = 305419896;
  connection_path_size = 1;
  reserved = 0;
  connection_path = 44 ∷ 100 ∷ [];
}

opening-IsForwardOpen : IsForwardOpen opening
opening-IsForwardOpen = record {
  ot_connection_id_fits = omega arith;
  to_connection_id_fits = omega arith;
  connection_serial_number_fits = omega arith;
  vendor_id_fits = omega arith;
  originator_serial_number_fits = omega arith;
  reserved_fits = refl;
  ot_rpi_fits = omega arith;
  ot_params_fit = omega arith;
  to_rpi_fits = omega arith;
  to_params_fit = omega arith;
  path_fits = (omega arith, omega arith, λ e. cc, refl);
}

closing-IsForwardClose : IsForwardClose closing
closing-IsForwardClose = record {
  connection_serial_number_fits = omega arith;
  vendor_id_fits = omega arith;
  originator_serial_number_fits = omega arith;
  path_fits = (omega arith, omega arith, λ e. cc, refl);
}

serve_all-IsTable_example : IsTable (
    serve_all counting
      ((84, [], forward_open_encode opening)
        ∷ (84, [], forward_open_encode opening)
        ∷ (78, [], forward_close_encode closing)
        ∷ (1, [], [])
        ∷ [])
      (new_connection_manager counting 0))
serve_all-IsTable_example =
    serve_all-IsTable counting 0
      ((84, [], forward_open_encode opening)
        ∷ (84, [], forward_open_encode opening)
        ∷ (78, [], forward_close_encode closing)
        ∷ (1, [], [])
        ∷ [])
      (omega arith)

abbrev manager : ConnectionManager ℕ
manager = record { connections = []; next_conn_id = 2147483648; world = 0 }

open_again_close_example :
    (handle_forward_open counting (forward_open_encode opening) manager
      ≡ (with_connection counting opening manager, ok (forward_open_response opening 2147483649)))
    × (handle_forward_open counting
          (forward_open_encode opening)
          (with_connection counting opening manager)
        ≡ (with_connection counting opening manager, err (cip_error 1 (256 ∷ []))))
    × (handle_forward_close counting
          (forward_close_encode closing)
          (with_connection counting opening manager)
        ≡ (
          record { connections = []; next_conn_id = 2147483649; world = 11 },
          ok (forward_close_response closing),
        ))
unfolding call_on_open call_on_close triad_in_use
open_again_close_example =
    open_again_close counting opening closing manager opening-IsForwardOpen closing-IsForwardClose
      (refl, refl, refl) (record { apart = tt; issued = tt }) (omega arith, omega arith) refl
