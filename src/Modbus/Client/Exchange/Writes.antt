-- ===== src/Modbus/Client/Exchange/Writes.antt =====
-- What the client's write methods do to the data store of the default server.
use goindustrial.Base.{
  ℕ, ◌+◌, ◌*◌, ◌<◌, ◌≡◌, refl, ap, List, [], ◌∷◌, Bool, true, false, length, length-replicate, All,
  arith,
}
use mathlib.Core.Path.{subst}
use goindustrial.Base.{Go, ok}
use goindustrial.Base.Bytes.{IsU16, be16, make_bytes}
use goindustrial.Base.Stateful.{◌>>=◌, lift}
use goindustrial.Modbus.Types.{
  is_exception, func_write_single_coil, func_write_single_register, func_write_multiple_coils,
  func_write_multiple_registers, func_read_write_multiple_registers,
}
use goindustrial.Modbus.Frame.{new_request}
use goindustrial.Modbus.Packing.{ceil_div_eight}
use goindustrial.Modbus.Packing.Registers.{words, length-words}
use goindustrial.Modbus.Packing.Bits.{pack_all, length-pack_all}
use goindustrial.Modbus.Protocol.{
  parse_write_single_coil_response, parse_read_write_multiple_registers_response,
  parse_read_holding_registers_response, parse_register_response,
}
use goindustrial.Modbus.Protocol.Generate.{
  InLimits, coil_word, generate_write_single_coil_request-eq,
  generate_write_single_register_request-eq, generate_write_multiple_coils_request-eq,
  generate_write_multiple_registers_request-eq, generate_read_write_multiple_registers_request-eq,
}
use goindustrial.Modbus.Protocol.Parse.{
  parse_write_single_coil_response-be16, parse_write_single_register_response-be16,
  parse_write_multiple_coils_response-be16, parse_write_multiple_registers_response-be16,
  parse_register_response-words,
}
use goindustrial.Modbus.Store.{DataStore}
use goindustrial.Modbus.Store.Laws.{IsLawful}
use goindustrial.Modbus.Server.{
  handle_write_single_coil, handle_write_single_register, handle_write_multiple_coils,
  handle_write_multiple_registers, handle_read_write_multiple_registers,
}
use goindustrial.Modbus.Server.Writes.{
  handle_write_single_coil-eq, handle_write_single_register-eq, handle_write_multiple_coils-eq,
  handle_write_multiple_registers-eq, handle_read_write_multiple_registers-eq,
}
use goindustrial.Modbus.Connection.{Handlers, setup_default_handlers, dispatch_request, Connection}
use goindustrial.Modbus.Connection.Safety.{Serves, setup_default_handlers-Serves}
use goindustrial.Modbus.Client.{
  Client, write_single_coil, write_single_register, write_multiple_coils, write_multiple_registers,
  read_write_multiple_registers,
}
use goindustrial.Modbus.Client.Exchange.{loopback, EndsWith, call-loopback}

coil_word-IsU16 : (value : Bool) → IsU16 (coil_word value)
coil_word-IsU16 true = omega arith
coil_word-IsU16 false = omega arith

parse_write_single_coil_response-coil_word :
    (address : ℕ) (value : Bool)
    → IsU16 address
    → parse_write_single_coil_response (be16 address (be16 (coil_word value) []))
      ≡ ok (address, value)
parse_write_single_coil_response-coil_word address true ha =
    parse_write_single_coil_response-be16 address (coil_word true) ha (omega arith)
parse_write_single_coil_response-coil_word address false ha =
    parse_write_single_coil_response-be16 address (coil_word false) ha (omega arith)

-- A parse whose value is dropped.
parsed_away :
    {S A : Type 0} {r : Go A} {a : A} (c : S)
    → r ≡ ok a
    → (lift r >>= λ _. lift (ok tt)) c ≡ (c, ok tt)
parsed_away c e = rw e

module _ {S : Type 0} (store : DataStore S) (lawful : IsLawful store) (client : Client)
    (c : Connection S) (s' : S) (address : ℕ) where
  abbrev server : Handlers S
  server = setup_default_handlers store

  serves : Serves server
  serves = setup_default_handlers-Serves store lawful

  -- Over a store that keeps the interface's promises, `write_single_coil` to a 16-bit address
  -- succeeds and leaves the server's store as the store's own method leaves it, where that succeeds.
  pub write_single_coil-loopback :
      (value : Bool)
      → IsU16 address
      → store.write_single_coil c.store address value ≡ (s', ok tt)
      → EndsWith s' tt
          (write_single_coil (loopback (setup_default_handlers store)) client address value c)
  unfolding write_single_coil
  write_single_coil-loopback value ha e =
      call-loopback server serves client c func_write_single_coil _ _
        (be16 address (be16 (coil_word value) [])) (be16 address (be16 (coil_word value) [])) tt
        (generate_write_single_coil_request-eq address value) (unfold is_exception in refl)
        (omega arith) (omega arith)
        (unfold dispatch_request setup_default_handlers handle_write_single_coil new_request in
          handle_write_single_coil-eq store _ func_write_single_coil address c.store s' value ha e)
        (λ c'. parsed_away c' (parse_write_single_coil_response-coil_word address value ha))

  -- Over such a store, `write_single_register` of a 16-bit value to a 16-bit address succeeds and
  -- leaves the store as the store's own method leaves it, where that succeeds.
  pub write_single_register-loopback :
      (value : ℕ)
      → IsU16 address
      → IsU16 value
      → store.write_single_register c.store address value ≡ (s', ok tt)
      → EndsWith s' tt
          (write_single_register (loopback (setup_default_handlers store)) client address value c)
  unfolding write_single_register
  write_single_register-loopback value ha hv e =
      call-loopback server serves client c func_write_single_register _ _
        (be16 address (be16 value [])) (be16 address (be16 value [])) tt
        (generate_write_single_register_request-eq address value) (unfold is_exception in refl)
        (omega arith) (omega arith)
        (unfold dispatch_request setup_default_handlers handle_write_single_register new_request in
          handle_write_single_register-eq store _ func_write_single_register address c.store s'
            value ha hv e)
        (λ c'. parsed_away c' (parse_write_single_register_response-be16 address value ha hv))

  -- Over such a store, `write_multiple_coils` of 1 to 1968 values to a 16-bit address succeeds and
  -- leaves the store as the store's own method leaves it, where that succeeds.
  pub write_multiple_coils-loopback :
      (values : List Bool)
      → IsU16 address
      → InLimits (length values) 1968
      → store.write_multiple_coils c.store address values ≡ (s', ok tt)
      → EndsWith s' tt
          (write_multiple_coils (loopback (setup_default_handlers store)) client address values c)
  unfolding write_multiple_coils
  write_multiple_coils-loopback values ha h e =
      let count = length values in
      let n = ceil_div_eight count in
      let body = pack_all 0 values (make_bytes n) in
      let small : length (be16 address (be16 count (n ∷ body))) + 2 < 65536 =
        unfold ceil_div_eight in
        omega (arith, length-pack_all 0 values (make_bytes n), length-replicate {A = ℕ} n 0) in
      call-loopback server serves client c func_write_multiple_coils _ _
        (be16 address (be16 count (n ∷ body))) (be16 address (be16 count [])) tt
        (generate_write_multiple_coils_request-eq address values h) (unfold is_exception in refl)
        (small) (omega arith)
        (unfold dispatch_request setup_default_handlers handle_write_multiple_coils new_request in
          handle_write_multiple_coils-eq store _ func_write_multiple_coils address c.store s' values
            ha h e)
        (λ c'.
          parsed_away c' (parse_write_multiple_coils_response-be16 address count ha (omega arith)))

  -- Over such a store, `write_multiple_registers` of 1 to 123 values of 16 bits to a 16-bit address
  -- succeeds and leaves the store as the store's own method leaves it, where that succeeds.
  pub write_multiple_registers-loopback :
      (values : List ℕ)
      → IsU16 address
      → All IsU16 values
      → InLimits (length values) 123
      → store.write_multiple_registers c.store address values ≡ (s', ok tt)
      → EndsWith s' tt (
          write_multiple_registers
            (loopback (setup_default_handlers store))
            client
            address
            values
            c)
  unfolding write_multiple_registers
  write_multiple_registers-loopback values ha fits h e =
      let count = length values in
      call-loopback server serves client c func_write_multiple_registers _ _
        (be16 address (be16 count ((count * 2) ∷ words values))) (be16 address (be16 count [])) tt
        (generate_write_multiple_registers_request-eq address values h)
        (unfold is_exception in refl) (omega (arith, length-words values)) (omega arith)
        (unfold dispatch_request setup_default_handlers handle_write_multiple_registers
            new_request in
          handle_write_multiple_registers-eq store _ func_write_multiple_registers address c.store
            s' values ha fits h e)
        (λ c'.
          parsed_away c'
            (parse_write_multiple_registers_response-be16 address count ha (omega arith)))

  -- Over such a store, `read_write_multiple_registers` of quantities within the limits leaves the
  -- store as its write does, and returns what the store then has in the range that is read, where
  -- both of the store's methods succeed and all values and addresses are 16-bit numbers.
  pub read_write_multiple_registers-loopback :
      (read_address quantity : ℕ) (values read_values : List ℕ)
      → IsU16 address
      → IsU16 read_address
      → All IsU16 values
      → All IsU16 read_values
      → InLimits quantity 125
      → InLimits (length values) 121
      → store.write_multiple_registers c.store address values ≡ (s', ok tt)
      → store.read_holding_registers s' read_address quantity ≡ ok read_values
      → length read_values ≡ quantity
      → EndsWith s' read_values (
          read_write_multiple_registers
            (loopback (setup_default_handlers store))
            client
            read_address
            quantity
            address
            values
            c)
  unfolding read_write_multiple_registers parse_read_write_multiple_registers_response
      parse_read_holding_registers_response
  read_write_multiple_registers-loopback read_address quantity values read_values ha hr fits rfits
        hq h e r k =
      let count = length values in
      let body = (length read_values * 2) ∷ words read_values in
      let parsed : parse_register_response body quantity ≡ ok read_values =
        subst (λ q. parse_register_response body q ≡ ok read_values) k
          (parse_register_response-words read_values rfits) in
      call-loopback server serves client c func_read_write_multiple_registers _ _
        (be16 read_address (be16 quantity (be16 address (be16 count ((count * 2) ∷ words values)))))
        body read_values
        (generate_read_write_multiple_registers_request-eq read_address quantity address values hq
          h)
        (unfold is_exception in refl) (omega (arith, length-words values))
        (omega (arith, length-words read_values))
        (unfold dispatch_request setup_default_handlers handle_read_write_multiple_registers
            new_request in
          handle_read_write_multiple_registers-eq store _ func_read_write_multiple_registers address
            c.store s' read_address quantity values read_values ha hr fits hq h e r k)
        (λ c'. ap (λ r. (c', r)) parsed)
