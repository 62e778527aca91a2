-- ===== src/Modbus/Server/Answers/Writes.antt =====
-- The handlers that write answer every request.
use goindustrial.Base.{
  ℕ, zero, suc, ◌+◌, ◌*◌, ◌≤◌, ◌≡◌, inl, inr, refl, sym, ◌∙◌, ap, List, [], ◌∷◌, ◌++◌, Bool, not,
  ◌||◌, ltb, leb, ◌==◌, length, length-append, take, drop, arith,
}
use mathlib.Core.Path.{subst}
use goindustrial.Base.{Error, ok, err}
use goindustrial.Base.Bytes.{u8, be16, store_at, put_u16, make_bytes}
use goindustrial.Base.Stateful.{Exec, ◌>>=◌, ◌>>◌, lift, query}
use goindustrial.Modbus.Frame.{Request, Response}
use goindustrial.Modbus.Packing.{ceil_div_eight, unpack_bits, pack_registers, unpack_registers}
use goindustrial.Modbus.Packing.Registers.{unpack_registers_total}
use goindustrial.Modbus.Packing.Bits.ReadBack.{read_bits, unpack_bits-read_bits}
use goindustrial.Modbus.Store.{DataStore}
use goindustrial.Modbus.Store.Laws.{Completes, IsLawful}
use goindustrial.Modbus.Server.{
  respond, device_failure, quantity_error, translate, handle_write_single_coil,
  handle_write_single_register, handle_write_multiple_coils, handle_write_multiple_registers,
  handle_read_write_multiple_registers,
}
use goindustrial.Modbus.Server.Answers.{
  Answered, answered, refused, quantity_error-Answered, require-Answered, word_Answered,
  byte_Answered, query-Answered, registers_Answered,
}

module _ {S : Type 0} (req : Request) (s : S) where
  -- A store's write, with its error translated.
  write_Answered :
      (f : Error → Error) (write : Exec S (Unit {0})) (k : Exec S Response)
      → ((e : Error) → Answered req (err (f e)))
      → Completes (write s).1
      → ((s' : S) → Answered req (k s').1)
      → Answered req ((translate f write >> k) s).1
  unfolding translate
  write_Answered f write k refuse (inl e) h = rw e (h _)
  write_Answered f write k refuse (inr (x, e)) h = rw e (refuse x)

  packed_registers_Answered :
      (base quantity : ℕ) (k : List ℕ → Exec S Response)
      → base + quantity * 2 ≤ length req.pdu.payload
      → ((values : List ℕ) → Answered req (k values s).1)
      → Answered req ((lift (unpack_registers base 0 quantity req.pdu.payload) >>= k) s).1
  packed_registers_Answered base quantity k inside h =
      let (values, e, n) = unpack_registers_total base 0 quantity req.pdu.payload (omega arith) in
      rw e (h values)

take-append-drop : (n : ℕ) (xs : List ℕ) → take n xs ++ drop n xs ≡ xs
take-append-drop zero xs = refl
take-append-drop (suc n) [] = refl
take-append-drop (suc n) (x ∷ xs) = rw (take-append-drop n xs)

length-take : (n : ℕ) (xs : List ℕ) → n ≤ length xs → length (take n xs) ≡ n
length-take zero xs h = refl
length-take (suc n) [] h = elim h [ ]
length-take (suc n) (x ∷ xs) h = ap suc (length-take n xs (omega arith))

module _ {S : Type 0} (req : Request) (s : S) where
  -- The payload is its first five bytes and the packed coils.
  packed_bits_Answered :
      (quantity : ℕ) (k : List Bool → Exec S Response)
      → (5 ≤ length req.pdu.payload) × (quantity + 40 ≤ length req.pdu.payload * 8)
      → ((values : List Bool) → Answered req (k values s).1)
      → Answered req ((lift (unpack_bits 5 0 quantity req.pdu.payload) >>= k) s).1
  packed_bits_Answered quantity k (five, room) h =
      let pre = take 5 req.pdu.payload in
      let body = drop 5 req.pdu.payload in
      let whole : pre ++ body ≡ req.pdu.payload = take-append-drop 5 req.pdu.payload in
      let front : length pre ≡ 5 = length-take 5 req.pdu.payload five in
      let sizes : length pre + length body ≡ length req.pdu.payload =
        sym (length-append pre body) ∙ ap length whole in
      let read =
        subst (λ l. unpack_bits 5 0 quantity l ≡ ok (read_bits 0 quantity body)) whole
          (unpack_bits-read_bits pre body 5 0 quantity (sym front) (omega arith)) in
      rw read (h (read_bits 0 quantity body))

-- What follows the write in the handlers.
abbrev confirm : {S : Type 0} → Request → ℕ → ℕ → Exec S Response
confirm req address quantity = do
  bytes ← lift (put_u16 (make_bytes 4) 0 address)
  bytes ← lift (put_u16 bytes 2 quantity)
  lift (ok (respond req bytes))

abbrev read_after : {S : Type 0} → DataStore S → Request → ℕ → ℕ → Exec S Response
read_after store req read_address read_quantity = do
  read_values ←
      translate (quantity_error req)
        (query (λ s. store.read_holding_registers s read_address read_quantity))
  bytes ← lift (store_at (make_bytes (1 + length read_values * 2)) 0 (u8 (length read_values * 2)))
  bytes ← lift (pack_registers 1 0 read_values bytes)
  lift (ok (respond req bytes))

module _ {S : Type 0} (store : DataStore S) (lawful : IsLawful store) (req : Request) (s : S) where
  pub handle_write_single_coil-Answered : Answered req (handle_write_single_coil store req s).1
  unfolding handle_write_single_coil
  handle_write_single_coil-Answered = require-Answered req s (length req.pdu.payload == 4) _ λ four.
      word_Answered req s 0 _ (ground arith) λ address.
        word_Answered req s 2 _ (ground arith) λ value.
          require-Answered req s (value == 0xFF00 || value == 0) _ λ right.
            write_Answered req s (λ _. device_failure req)
              (λ s. store.write_single_coil s address (value == 0xFF00))
              (lift (ok (respond req req.pdu.payload))) (λ e. refused 4)
              (lawful.single_coil_completes s address (value == 0xFF00))
              λ s'. answered req.pdu.payload (ground arith)

  pub handle_write_single_register-Answered :
      Answered req (handle_write_single_register store req s).1
  unfolding handle_write_single_register
  handle_write_single_register-Answered =
      require-Answered req s (length req.pdu.payload == 4) _ λ four.
        word_Answered req s 0 _ (ground arith) λ address.
          word_Answered req s 2 _ (ground arith) λ value.
            write_Answered req s (λ _. device_failure req)
              (λ s. store.write_single_register s address value)
              (lift (ok (respond req req.pdu.payload))) (λ e. refused 4)
              (lawful.single_register_completes s address value)
              λ s'. answered req.pdu.payload (ground arith)

  pub handle_write_multiple_registers-Answered :
      Answered req (handle_write_multiple_registers store req s).1
  unfolding handle_write_multiple_registers
  handle_write_multiple_registers-Answered =
      require-Answered req s (leb 5 (length req.pdu.payload)) _ λ long.
        word_Answered req s 0 _ (ground arith) λ address.
          word_Answered req s 2 _ (ground arith) λ quantity.
            byte_Answered req s 4 _ (ground arith) λ byte_count.
              require-Answered req s (length req.pdu.payload == 5 + byte_count) _ λ exact.
                require-Answered req s (not (quantity == 0 || ltb 123 quantity)) _ λ inside.
                  require-Answered req s (byte_count == quantity * 2) _ λ right.
                    packed_registers_Answered req s 5 quantity _ (ground arith) λ values.
                      write_Answered req s (quantity_error req)
                        (λ s. store.write_multiple_registers s address values)
                        (confirm req address quantity) (quantity_error-Answered req)
                        (lawful.multiple_registers_complete s address values)
                        λ s'. answered (be16 address (be16 quantity [])) (omega arith)

  pub handle_write_multiple_coils-Answered :
      Answered req (handle_write_multiple_coils store req s).1
  unfolding handle_write_multiple_coils
  handle_write_multiple_coils-Answered =
      require-Answered req s (leb 5 (length req.pdu.payload)) _ λ long.
        word_Answered req s 0 _ (ground arith) λ address.
          word_Answered req s 2 _ (ground arith) λ quantity.
            byte_Answered req s 4 _ (ground arith) λ byte_count.
              require-Answered req s (length req.pdu.payload == 5 + byte_count) _ λ exact.
                require-Answered req s (not (quantity == 0 || ltb 1968 quantity)) _ λ inside.
                  require-Answered req s (byte_count == ceil_div_eight quantity) _ λ right.
                    packed_bits_Answered req s quantity _ (unfold ceil_div_eight in ground arith)
                      λ values.
                        write_Answered req s (quantity_error req)
                          (λ s. store.write_multiple_coils s address values)
                          (confirm req address quantity) (quantity_error-Answered req)
                          (lawful.multiple_coils_complete s address values)
                          λ s'. answered (be16 address (be16 quantity [])) (omega arith)

  pub handle_read_write_multiple_registers-Answered :
      Answered req (handle_read_write_multiple_registers store req s).1
  unfolding handle_read_write_multiple_registers
  handle_read_write_multiple_registers-Answered =
      require-Answered req s (leb 9 (length req.pdu.payload)) _ λ long.
        word_Answered req s 0 _ (ground arith) λ read_address.
          word_Answered req s 2 _ (ground arith) λ read_quantity.
            word_Answered req s 4 _ (ground arith) λ write_address.
              word_Answered req s 6 _ (ground arith) λ write_quantity.
                byte_Answered req s 8 _ (ground arith) λ byte_count.
                  require-Answered req s (length req.pdu.payload == 9 + byte_count) _ λ exact.
                    require-Answered req s
                      (not (
                        read_quantity == 0
                        || (ltb 125 read_quantity
                            || (write_quantity == 0 || ltb 121 write_quantity))))
                      _
                      λ inside. require-Answered req s (byte_count == write_quantity * 2) _ λ right.
                        packed_registers_Answered req s 9 write_quantity _ (ground arith) λ values.
                          write_Answered req s (quantity_error req)
                            (λ s. store.write_multiple_registers s write_address values)
                            (read_after store req read_address read_quantity)
                            (quantity_error-Answered req)
                            (lawful.multiple_registers_complete s write_address values)
                            λ s'.
                              query-Answered req s' read_quantity
                                (λ s. store.read_holding_registers s read_address read_quantity) _
                                (lawful.holding_registers_return s' read_address read_quantity)
                                λ values count. registers_Answered req s' values (ground arith)
