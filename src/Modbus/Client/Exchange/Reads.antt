-- ===== src/Modbus/Client/Exchange/Reads.antt =====
-- What the client's read methods return from the default server: the values of its data store.
use goindustrial.Base.{
  ℕ, ◌+◌, ◌*◌, ◌≤◌, ◌<◌, ◌≡◌, refl, ◌∙◌, ap, List, [], ◌∷◌, Bool, false, ==_self, length,
  length-replicate, All, arith,
}
use mathlib.Core.Path.{subst}
use goindustrial.Base.{ok}
use goindustrial.Base.Bytes.{IsU16, be16, make_bytes}
use goindustrial.Base.Stateful.{lift}
use goindustrial.Modbus.Types.{
  is_exception, func_read_coils, func_read_discrete_inputs, func_read_holding_registers,
  func_read_input_registers,
}
use goindustrial.Modbus.Frame.{Request, new_request}
use goindustrial.Modbus.Packing.{ceil_div_eight}
use goindustrial.Modbus.Packing.Registers.{words, length-words}
use goindustrial.Modbus.Packing.Bits.{pack_all, length-pack_all}
use goindustrial.Modbus.Packing.Bits.ReadBack.{read_bits-pack_all}
use goindustrial.Modbus.Protocol.{
  generate_read_request, parse_bit_response, parse_register_response, generate_read_coils_request,
  parse_read_coils_response, generate_read_discrete_inputs_request,
  parse_read_discrete_inputs_response, generate_read_holding_registers_request,
  parse_read_holding_registers_response, generate_read_input_registers_request,
  parse_read_input_registers_response,
}
use goindustrial.Modbus.Protocol.Generate.{InLimits, generate_read_request-eq}
use goindustrial.Modbus.Protocol.Parse.{parse_bit_response-eq, parse_register_response-words}
use goindustrial.Modbus.Store.{DataStore}
use goindustrial.Modbus.Store.Laws.{IsLawful}
use goindustrial.Modbus.Server.{
  respond, handle_read_coils, handle_read_discrete_inputs, handle_read_holding_registers,
  handle_read_input_registers,
}
use goindustrial.Modbus.Server.Reads.{handle_read_bit_values-eq, handle_read_register_values-eq}
use goindustrial.Modbus.Connection.{Handlers, setup_default_handlers, dispatch_request, Connection}
use goindustrial.Modbus.Connection.Safety.{setup_default_handlers-Serves}
use goindustrial.Modbus.Client.{
  Client, read_coils, read_discrete_inputs, read_holding_registers, read_input_registers,
}
use goindustrial.Modbus.Client.Exchange.{loopback, EndsWith, call, call-loopback}

-- The response to a read of bits, parsed.
pub parse_bit_response-pack_all :
    (values : List Bool)
    → let n = ceil_div_eight (length values) in
      parse_bit_response (n ∷ pack_all 0 values (make_bytes n)) (length values) ≡ ok values
parse_bit_response-pack_all values =
    let n = ceil_div_eight (length values) in
    let body = pack_all 0 values (make_bytes n) in
    let size : length body ≡ n =
      length-pack_all 0 values (make_bytes n) ∙ length-replicate {A = ℕ} n 0 in
    let enough : length values ≤ n * 8 = unfold ceil_div_eight in omega arith in
    parse_bit_response-eq n (length values) body
    ∙ rw (size, ==_self n) (ap ok (read_bits-pack_all n values enough))

module _ {S : Type 0} (store : DataStore S) (lawful : IsLawful store) (client : Client)
    (c : Connection S) (address quantity : ℕ) where
  abbrev server : Handlers S
  server = setup_default_handlers store

  abbrev request_for : ℕ → Request
  request_for function_code =
      new_request client.unit_id function_code (be16 address (be16 quantity []))

  bits_call :
      (function_code : ℕ) (values : List Bool)
      → is_exception function_code ≡ false
      → InLimits quantity 2000
      → length values ≡ quantity
      → (let n = ceil_div_eight quantity in
          let req = request_for function_code in
          dispatch_request server req c.store
          ≡ (c.store, ok (respond req (n ∷ pack_all 0 values (make_bytes n)))))
      → EndsWith c.store values (
          call server client function_code
            (generate_read_request address quantity 2000)
            (λ body. lift (parse_bit_response body quantity))
            c)
  bits_call function_code values plain h count dispatched =
      let n = ceil_div_eight quantity in
      let body = n ∷ pack_all 0 values (make_bytes n) in
      let small : length body + 2 < 65536 =
        unfold ceil_div_eight in
        omega (arith, length-pack_all 0 values (make_bytes n), length-replicate {A = ℕ} n 0) in
      let parsed : parse_bit_response body quantity ≡ ok values =
        rw count at (parse_bit_response-pack_all values) in
      call-loopback server (setup_default_handlers-Serves store lawful) client c function_code _ _
        (be16 address (be16 quantity [])) body values
        (generate_read_request-eq address quantity 2000 h) plain (omega arith) small dispatched
        (λ c'. ap (λ r. (c', r)) parsed)

  registers_call :
      (function_code : ℕ) (values : List ℕ)
      → is_exception function_code ≡ false
      → InLimits quantity 125
      → length values ≡ quantity
      → All IsU16 values
      → (let req = request_for function_code in
          dispatch_request server req c.store
          ≡ (c.store, ok (respond req ((length values * 2) ∷ words values))))
      → EndsWith c.store values (
          call server client function_code
            (generate_read_request address quantity 125)
            (λ body. lift (parse_register_response body quantity))
            c)
  registers_call function_code values plain h count fits dispatched =
      let body = (length values * 2) ∷ words values in
      let small : length body + 2 < 65536 = omega (arith, length-words values) in
      let parsed : parse_register_response body quantity ≡ ok values =
        subst (λ q. parse_register_response body q ≡ ok values) count
          (parse_register_response-words values fits) in
      call-loopback server (setup_default_handlers-Serves store lawful) client c function_code _ _
        (be16 address (be16 quantity [])) body values
        (generate_read_request-eq address quantity 125 h) plain (omega arith) small dispatched
        (λ c'. ap (λ r. (c', r)) parsed)

  -- Over a store that keeps the interface's promises, `read_coils` of a quantity from 1 to 2000 returns the
  -- values that the store has there, and the store stays as it was.
  pub read_coils-loopback :
      (values : List Bool)
      → IsU16 address
      → InLimits quantity 2000
      → store.read_coils c.store address quantity ≡ ok values
      → length values ≡ quantity
      → EndsWith c.store values
          (read_coils (loopback (setup_default_handlers store)) client address quantity c)
  unfolding read_coils generate_read_coils_request parse_read_coils_response
  read_coils-loopback values ha h e count =
      bits_call func_read_coils values (unfold is_exception in refl) h count (
        unfold dispatch_request setup_default_handlers handle_read_coils new_request in
        handle_read_bit_values-eq _ func_read_coils address quantity 2000 c.store store.read_coils
          values ha h (omega arith) e count)

  -- Over a store that keeps the interface's promises, `read_discrete_inputs` of a quantity from 1 to 2000 returns the
  -- values that the store has there, and the store stays as it was.
  pub read_discrete_inputs-loopback :
      (values : List Bool)
      → IsU16 address
      → InLimits quantity 2000
      → store.read_discrete_inputs c.store address quantity ≡ ok values
      → length values ≡ quantity
      → EndsWith c.store values
          (read_discrete_inputs (loopback (setup_default_handlers store)) client address quantity c)
  unfolding read_discrete_inputs generate_read_discrete_inputs_request
      parse_read_discrete_inputs_response
  read_discrete_inputs-loopback values ha h e count =
      bits_call func_read_discrete_inputs values (unfold is_exception in refl) h count (
        unfold dispatch_request setup_default_handlers handle_read_discrete_inputs new_request in
        handle_read_bit_values-eq _ func_read_discrete_inputs address quantity 2000 c.store
          store.read_discrete_inputs values ha h (omega arith) e count)

  -- Over a store that keeps the interface's promises, `read_holding_registers` of a quantity from 1 to 125 returns the
  -- values that the store has there, where each is a 16-bit number, and the store stays as it was.
  pub read_holding_registers-loopback :
      (values : List ℕ)
      → IsU16 address
      → InLimits quantity 125
      → store.read_holding_registers c.store address quantity ≡ ok values
      → length values ≡ quantity
      → All IsU16 values
      → EndsWith c.store values (
          read_holding_registers
            (loopback (setup_default_handlers store))
            client
            address
            quantity
            c)
  unfolding read_holding_registers generate_read_holding_registers_request
      parse_read_holding_registers_response
  read_holding_registers-loopback values ha h e count fits =
      registers_call func_read_holding_registers values (unfold is_exception in refl) h count fits (
        unfold dispatch_request setup_default_handlers handle_read_holding_registers new_request in
        handle_read_register_values-eq _ func_read_holding_registers address quantity 125 c.store
          store.read_holding_registers values ha h (omega arith) e count)

  -- Over a store that keeps the interface's promises, `read_input_registers` of a quantity from 1 to 125 returns the
  -- values that the store has there, where each is a 16-bit number, and the store stays as it was.
  pub read_input_registers-loopback :
      (values : List ℕ)
      → IsU16 address
      → InLimits quantity 125
      → store.read_input_registers c.store address quantity ≡ ok values
      → length values ≡ quantity
      → All IsU16 values
      → EndsWith c.store values
          (read_input_registers (loopback (setup_default_handlers store)) client address quantity c)
  unfolding read_input_registers generate_read_input_registers_request
      parse_read_input_registers_response
  read_input_registers-loopback values ha h e count fits =
      registers_call func_read_input_registers values (unfold is_exception in refl) h count fits (
        unfold dispatch_request setup_default_handlers handle_read_input_registers new_request in
        handle_read_register_values-eq _ func_read_input_registers address quantity 125 c.store
          store.read_input_registers values ha h (omega arith) e count)
