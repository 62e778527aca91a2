-- ===== src/Modbus/Server/Answers.antt =====
-- Every handler answers every request, whatever its bytes: a response to it, or an exception.
pub mod Writes
use goindustrial.Base.{
  ℕ, zero, suc, ◌+◌, ◌*◌, ◌/◌, ◌%◌, ◌<◌, ◌≤◌, ◌≡◌, ◌⊎◌, inl, inr, refl, sym, ◌∙◌, ap, List, [], ◌∷◌,
  ◌++◌, Bool, true, false, not, ◌||◌, ltb, leb, ◌==◌, Bool-cases, length, length-replicate, get_or,
  if◌then◌else◌, arith,
}
use goindustrial.Base.{Go, Error, ok, err, panic, require, invalid_quantity, modbus_error}
use goindustrial.Base.Bytes.{u8, u16, be16, byte_at, store_at, u16_at, put_u16, make_bytes}
use goindustrial.Base.Bytes.Access.{byte_at-lt}
use goindustrial.Base.Stateful.{Exec, ◌>>=◌, ◌>>◌, lift, query}
use goindustrial.Modbus.Frame.{Mbap, Pdu, Request, Response, new_response}
use goindustrial.Modbus.Packing.{
  ceil_div_eight, pack_bits, unpack_bits, pack_registers, unpack_registers,
}
use goindustrial.Modbus.Packing.Registers.{
  words, length-words, pack_registers-words, unpack_registers_total,
}
use goindustrial.Modbus.Packing.Bits.{pack_all, length-pack_all, pack_bits-pack_all}
use goindustrial.Modbus.Store.{DataStore}
use goindustrial.Modbus.Store.Laws.{Returns, Completes, IsLawful}
use goindustrial.Modbus.Server.{
  Handler, respond, invalid_data, device_failure, quantity_error, translate, handle_read_bit_values,
  handle_read_register_values, handle_read_coils, handle_read_discrete_inputs,
  handle_read_holding_registers, handle_read_input_registers, handle_write_single_coil,
  handle_write_single_register, handle_write_multiple_coils, handle_write_multiple_registers,
  handle_read_write_multiple_registers,
}
use goindustrial.Modbus.Server.Reads.{make_bytes_suc}

-- A response to the request with at most 252 bytes of data, so that the PDU keeps the limit of 253,
-- or an exception for its function code.
pub data Answered (req : Request) : Go Response → Type 0 where
  answered : (payload : List ℕ) → length payload ≤ 252 → Answered req (ok (respond req payload))
  refused : (code : ℕ) → Answered req (err (modbus_error req.pdu.function_code code))

pub quantity_error-Answered :
    (req : Request) (e : Error) → Answered req (err (quantity_error req e))
unfolding quantity_error
quantity_error-Answered req invalid_quantity = refused 3
quantity_error-Answered req _ = refused 4

module _ {S : Type 0} (req : Request) (s : S) where
  pub require-Answered :
      (b : Bool) (k : Exec S Response)
      → (b ≡ true → Answered req (k s).1)
      → Answered req ((lift (require b (invalid_data req)) >> k) s).1
  require-Answered true k h = h refl
  require-Answered false k h = refused 3

  -- A word within the payload is read.
  pub word_Answered :
      (i : ℕ) (k : ℕ → Exec S Response)
      → i + 1 < length req.pdu.payload
      → ((v : ℕ) → Answered req (k v s).1)
      → Answered req ((lift (u16_at req.pdu.payload i) >>= k) s).1
  word_Answered i k inside h =
      rw (byte_at-lt req.pdu.payload i (omega arith), byte_at-lt req.pdu.payload (i + 1) inside)
        (h _)

  pub byte_Answered :
      (i : ℕ) (k : ℕ → Exec S Response)
      → i < length req.pdu.payload
      → ((v : ℕ) → Answered req (k v s).1)
      → Answered req ((lift (byte_at req.pdu.payload i) >>= k) s).1
  byte_Answered i k inside h = rw (byte_at-lt req.pdu.payload i inside) (h _)

  -- A store's read, with its error translated.
  pub query-Answered :
      {A : Type 0} (quantity : ℕ) (read : S → Go (List A)) (k : List A → Exec S Response)
      → Returns quantity (read s)
      → ((values : List A) → length values ≡ quantity → Answered req (k values s).1)
      → Answered req ((translate (quantity_error req) (query read) >>= k) s).1
  unfolding translate
  query-Answered quantity read k (inl (values, e, n)) h = rw e (h values n)
  query-Answered quantity read k (inr (x, e)) h = rw e (quantity_error-Answered req x)

  pub bits_Answered :
      (quantity : ℕ) (values : List Bool)
      → quantity ≤ 2000
      → length values ≡ quantity
      → Answered req
          ((lift (
                store_at
                  (make_bytes (1 + ceil_div_eight quantity))
                  0
                  (u8 (ceil_div_eight quantity)))
              >>= λ bytes.
                  lift (pack_bits 1 0 values bytes) >>= λ bytes. lift (ok (respond req bytes)))
            s).1
  bits_Answered quantity values small count =
      let n = ceil_div_eight quantity in
      let room : 0 + length values ≤ length (make_bytes n) * 8 =
        unfold ceil_div_eight in omega (arith, length-replicate {A = ℕ} n 0) in
      let bound : suc (length (pack_all 0 values (make_bytes n))) ≤ 252 =
        unfold ceil_div_eight in
        omega (arith, length-pack_all 0 values (make_bytes n), length-replicate {A = ℕ} n 0) in
      rw (make_bytes_suc n, pack_bits-pack_all (u8 n ∷ []) (make_bytes n) 1 0 values refl room)
        (answered (u8 n ∷ pack_all 0 values (make_bytes n)) bound)

  pub registers_Answered :
      (values : List ℕ)
      → length values ≤ 125
      → Answered req
          ((lift (store_at (make_bytes (1 + length values * 2)) 0 (u8 (length values * 2)))
              >>= λ bytes.
                  lift (pack_registers 1 0 values bytes) >>= λ bytes. lift (ok (respond req bytes)))
            s).1
  registers_Answered values small =
      rw
        (
          make_bytes_suc (length values * 2),
          pack_registers-words (u8 (length values * 2) ∷ []) values 1 0 refl,
        )
        (answered (u8 (length values * 2) ∷ words values) (omega (arith, length-words values)))

module _ {S : Type 0} (max_quantity : ℕ) (req : Request) (s : S) where
  pub handle_read_bit_values-Answered :
      (read : S → ℕ → ℕ → Go (List Bool))
      → ((a q : ℕ) → Returns q (read s a q))
      → max_quantity ≤ 2000
      → Answered req (handle_read_bit_values max_quantity read req s).1
  unfolding handle_read_bit_values
  handle_read_bit_values-Answered read lawful small =
      require-Answered req s (length req.pdu.payload == 4) _ λ four.
        word_Answered req s 0 _ (ground arith) λ address.
          word_Answered req s 2 _ (ground arith) λ quantity.
            require-Answered req s (not (quantity == 0 || ltb max_quantity quantity)) _ λ inside.
              query-Answered req s quantity (λ s. read s address quantity) _
                (lawful address quantity)
                λ values count. bits_Answered req s quantity values (ground arith) count

  pub handle_read_register_values-Answered :
      (read : S → ℕ → ℕ → Go (List ℕ))
      → ((a q : ℕ) → Returns q (read s a q))
      → max_quantity ≤ 125
      → Answered req (handle_read_register_values max_quantity read req s).1
  unfolding handle_read_register_values
  handle_read_register_values-Answered read lawful small =
      require-Answered req s (length req.pdu.payload == 4) _ λ four.
        word_Answered req s 0 _ (ground arith) λ address.
          word_Answered req s 2 _ (ground arith) λ quantity.
            require-Answered req s (not (quantity == 0 || ltb max_quantity quantity)) _ λ inside.
              query-Answered req s quantity (λ s. read s address quantity) _
                (lawful address quantity)
                λ values count. registers_Answered req s values (ground arith)

module _ {S : Type 0} (store : DataStore S) (lawful : IsLawful store) (req : Request) (s : S) where
  pub handle_read_coils-Answered : Answered req (handle_read_coils store req s).1
  unfolding handle_read_coils
  handle_read_coils-Answered =
      handle_read_bit_values-Answered 2000 req s store.read_coils (lawful.coils_return s)
        (omega arith)

  pub handle_read_discrete_inputs-Answered :
      Answered req (handle_read_discrete_inputs store req s).1
  unfolding handle_read_discrete_inputs
  handle_read_discrete_inputs-Answered =
      handle_read_bit_values-Answered 2000 req s store.read_discrete_inputs
        (lawful.discrete_inputs_return s) (omega arith)

  pub handle_read_holding_registers-Answered :
      Answered req (handle_read_holding_registers store req s).1
  unfolding handle_read_holding_registers
  handle_read_holding_registers-Answered =
      handle_read_register_values-Answered 125 req s store.read_holding_registers
        (lawful.holding_registers_return s) (omega arith)

  pub handle_read_input_registers-Answered :
      Answered req (handle_read_input_registers store req s).1
  unfolding handle_read_input_registers
  handle_read_input_registers-Answered =
      handle_read_register_values-Answered 125 req s store.read_input_registers
        (lawful.input_registers_return s) (omega arith)
