-- ===== src/Modbus/Server/Writes.antt =====
-- The answers to well-formed write requests, and what they do to the store.
use goindustrial.Base.{
  ℕ, ◌+◌, ◌*◌, ◌/◌, ◌≤◌, ◌≡◌, refl, ◌∙◌, ap, List, [], ◌∷◌, Bool, true, false, not, ◌||◌, ltb, leb,
  ◌==◌, ==_self, length, length-replicate, All, append-nil, arith,
}
use goindustrial.Base.{ok}
use goindustrial.Base.Bytes.{IsU16, u8, be16, make_bytes}
use goindustrial.Modbus.Frame.{Mbap}
use goindustrial.Modbus.Frame.RoundTrip.{join_u16}
use goindustrial.Modbus.Packing.{ceil_div_eight}
use goindustrial.Modbus.Packing.Registers.{
  words, length-words, pack_registers-words, unpack_registers-words,
}
use goindustrial.Modbus.Packing.Bits.{pack_all, length-pack_all}
use goindustrial.Modbus.Packing.Bits.ReadBack.{unpack_bits-read_bits, read_bits-pack_all}
use goindustrial.Modbus.Protocol.Generate.{InLimits, coil_word}
use goindustrial.Modbus.Store.{DataStore}
use goindustrial.Modbus.Server.{
  respond, handle_write_single_coil, handle_write_single_register, handle_write_multiple_coils,
  handle_write_multiple_registers, handle_read_write_multiple_registers,
}
use goindustrial.Modbus.Server.Reads.{request, make_bytes_suc}

module _ {S : Type 0} (store : DataStore S) (m : Mbap) (function_code address : ℕ) (s s' : S) where
  open store use {
    write_single_coil, write_single_register, write_multiple_coils, write_multiple_registers,
  }

  pub handle_write_single_coil-eq :
      (value : Bool)
      → IsU16 address
      → write_single_coil s address value ≡ (s', ok tt)
      → let payload = be16 address (be16 (coil_word value) []) in
        let req = request m function_code payload in
        handle_write_single_coil store req s ≡ (s', ok (respond req payload))
  unfolding handle_write_single_coil
  handle_write_single_coil-eq true ha e = rw (join_u16 address ha, e)
  handle_write_single_coil-eq false ha e = rw (join_u16 address ha, e)

  pub handle_write_single_register-eq :
      (value : ℕ)
      → IsU16 address
      → IsU16 value
      → write_single_register s address value ≡ (s', ok tt)
      → let payload = be16 address (be16 value []) in
        let req = request m function_code payload in
        handle_write_single_register store req s ≡ (s', ok (respond req payload))
  unfolding handle_write_single_register
  handle_write_single_register-eq value ha hv e = rw (join_u16 address ha, join_u16 value hv, e)

  pub handle_write_multiple_registers-eq :
      (values : List ℕ)
      → IsU16 address
      → All IsU16 values
      → InLimits (length values) 123
      → write_multiple_registers s address values ≡ (s', ok tt)
      → let count = length values in
        let req =
          request m function_code (be16 address (be16 count ((count * 2) ∷ words values))) in
        handle_write_multiple_registers store req s
        ≡ (s', ok (respond req (be16 address (be16 count []))))
  unfolding handle_write_multiple_registers
  handle_write_multiple_registers-eq values ha fits h e =
      let count = length values in
      let header =
        u8 (address / 256) ∷ u8 address ∷ u8 (count / 256) ∷ u8 count ∷ (count * 2) ∷ [] in
      let read =
        rw (append-nil (words values)) at (unpack_registers-words header values [] 5 0 fits refl) in
      ground
        (arith, join_u16 address ha, join_u16 count (omega arith), length-words values, read, e)

  pub handle_write_multiple_coils-eq :
      (values : List Bool)
      → IsU16 address
      → InLimits (length values) 1968
      → write_multiple_coils s address values ≡ (s', ok tt)
      → let count = length values in
        let n = ceil_div_eight count in
        let body = pack_all 0 values (make_bytes n) in
        let req = request m function_code (be16 address (be16 count (n ∷ body))) in
        handle_write_multiple_coils store req s
        ≡ (s', ok (respond req (be16 address (be16 count []))))
  unfolding handle_write_multiple_coils
  handle_write_multiple_coils-eq values ha h e =
      let count = length values in
      let n = ceil_div_eight count in
      let body = pack_all 0 values (make_bytes n) in
      let header = u8 (address / 256) ∷ u8 address ∷ u8 (count / 256) ∷ u8 count ∷ n ∷ [] in
      let size : length body ≡ n =
        length-pack_all 0 values (make_bytes n) ∙ length-replicate {A = ℕ} n 0 in
      let enough : count ≤ n * 8 = unfold ceil_div_eight in omega arith in
      let read =
        unpack_bits-read_bits header body 5 0 count refl (omega (arith, size))
        ∙ ap ok (read_bits-pack_all n values enough) in
      ground (arith, join_u16 address ha, join_u16 count (omega arith), size, read, e)

  -- Read/Write Multiple Registers reads from the state that the write left.
  pub handle_read_write_multiple_registers-eq :
      (read_address quantity : ℕ) (values read_values : List ℕ)
      → IsU16 address
      → IsU16 read_address
      → All IsU16 values
      → InLimits quantity 125
      → InLimits (length values) 121
      → write_multiple_registers s address values ≡ (s', ok tt)
      → store.read_holding_registers s' read_address quantity ≡ ok read_values
      → length read_values ≡ quantity
      → let count = length values in
        let req = request m function_code (
          be16 read_address
            (be16 quantity (be16 address (be16 count ((count * 2) ∷ words values))))) in
        handle_read_write_multiple_registers store req s
        ≡ (s', ok (respond req ((length read_values * 2) ∷ words read_values)))
  unfolding handle_read_write_multiple_registers
  handle_read_write_multiple_registers-eq read_address quantity values read_values ha hr fits hq h e
        r k =
      let count = length values in
      let n = length read_values * 2 in
      let header =
        u8 (read_address / 256)
        ∷ u8 read_address
        ∷ u8 (quantity / 256)
        ∷ u8 quantity
        ∷ u8 (address / 256)
        ∷ u8 address
        ∷ u8 (count / 256)
        ∷ u8 count
        ∷ (count * 2)
        ∷ [] in
      let read =
        rw (append-nil (words values)) at (unpack_registers-words header values [] 9 0 fits refl) in
      let packed = pack_registers-words (n ∷ []) read_values 1 0 refl in
      let n_fits : u8 n ≡ n = omega arith in
      let payload =
        be16 read_address
          (be16 quantity (be16 address (be16 count ((count * 2) ∷ words values)))) in
      let long : leb 9 (length payload) ≡ true = ground (arith, length-words values) in
      let exact : (length payload == 9 + count * 2) ≡ true = ground (arith, length-words values) in
      let limits : not (quantity == 0 || (ltb 125 quantity || (count == 0 || ltb 121 count)))
          ≡ true =
        ground arith in
      rw (
        long,
        join_u16 address ha,
        join_u16 read_address hr,
        join_u16 count (omega arith),
        join_u16 quantity (omega arith),
        exact,
        limits,
        ==_self (count * 2),
        read,
        e,
        r,
        make_bytes_suc n,
        n_fits,
        packed,
      )
