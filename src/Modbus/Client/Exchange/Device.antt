-- ===== src/Modbus/Client/Exchange/Device.antt =====
-- What the client learns about the default server's identity.
use goindustrial.Base.{ℕ, ◌+◌, ◌≤◌, ◌<◌, ◌≡◌, refl, ap, [], ◌∷◌, length, arith}
use goindustrial.Base.{ok}
use goindustrial.Modbus.Types.{is_exception, func_read_device_identification}
use goindustrial.Modbus.Frame.{new_request}
use goindustrial.Modbus.Protocol.{generate_read_device_identification_request}
use goindustrial.Modbus.Server.Device.{device_identification}
use goindustrial.Modbus.Server.Device.Answer.{
  identification_bytes, handle_read_device_identification-eq, parse_response-identification_bytes,
  object_bytes-short,
}
use goindustrial.Modbus.Store.{DataStore}
use goindustrial.Modbus.Store.Laws.{IsLawful}
use goindustrial.Modbus.Connection.{setup_default_handlers, dispatch_request, Connection}
use goindustrial.Modbus.Connection.Safety.{setup_default_handlers-Serves}
use goindustrial.Modbus.Client.{Client, read_device_identification}
use goindustrial.Modbus.Client.Exchange.{loopback, EndsWith, call-loopback}

module _ {S : Type 0} (store : DataStore S) (lawful : IsLawful store) (client : Client)
    (c : Connection S) where
  -- Over a store that keeps the interface's promises, with one of the codes 1 to 4,
  -- `read_device_identification` returns the identification that the
  -- server has for the code and the object, and the store stays as it was.
  pub read_device_identification-loopback :
      (code object_id : ℕ)
      → 1 ≤ code
      → code ≤ 4
      → EndsWith c.store (device_identification code object_id) (
          read_device_identification
            (loopback (setup_default_handlers store))
            client
            code
            object_id
            c)
  unfolding read_device_identification
  read_device_identification-loopback code object_id low high =
      let generated : generate_read_device_identification_request code object_id
          ≡ ok (0x0E ∷ code ∷ object_id ∷ []) =
        unfold generate_read_device_identification_request in ground arith in
      let body = identification_bytes (device_identification code object_id) in
      let small : length body + 2 < 65536 = omega (arith, object_bytes-short code object_id) in
      call-loopback (setup_default_handlers store) (setup_default_handlers-Serves store lawful)
        client c func_read_device_identification _ _ (0x0E ∷ code ∷ object_id ∷ []) body
        (device_identification code object_id) generated (unfold is_exception in refl) (omega arith)
        small
        (unfold dispatch_request setup_default_handlers new_request in
          handle_read_device_identification-eq _ func_read_device_identification code object_id []
            c.store)
        (λ c'. ap (λ r. (c', r)) (parse_response-identification_bytes code object_id))
