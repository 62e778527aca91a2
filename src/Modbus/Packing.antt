-- ===== src/Modbus/Packing.antt =====
-- The packing of coils into bits and of registers into words, which protocol.go and
-- server_protocol.go write out in each function. `base` is the offset of the packed bytes.
pub mod Registers
pub mod RoundTrip
pub mod Bits
use goindustrial.Base.{
  ℕ, zero, suc, ◌+◌, ◌*◌, ◌/◌, ◌%◌, ◌^◌, List, [], ◌∷◌, Bool, true, false, ◌==◌, bit_and, bit_or,
}
use goindustrial.Base.{Go, ok, err, panic, ◌>>=◌}
use goindustrial.Base.Bytes.{byte_at, store_at, u16_at, put_u16}

-- `int(math.Ceil(float64(quantity) / 8.0))`: an eighth of an integer is exact in a float64.
unfoldable pub ceil_div_eight : ℕ → ℕ
ceil_div_eight quantity = (quantity + 7) / 8

-- `if value { data[base+i/8] |= 1 << (i%8) }`
pack_bit : ℕ → ℕ → Bool → List ℕ → Go (List ℕ)
pack_bit base i false bytes = ok bytes
pack_bit base i true bytes = do
  old ← byte_at bytes (base + i / 8)
  store_at bytes (base + i / 8) (bit_or old (2 ^ (i % 8)))

-- `for i, value := range values`, from round i on
pub pack_bits : ℕ → ℕ → List Bool → List ℕ → Go (List ℕ)
unfolding pack_bit
pack_bits base i [] bytes = ok bytes
pack_bits base i (v ∷ values) bytes = pack_bit base i v bytes >>= pack_bits base (i + 1) values

-- `(data[base+i/8] >> (i%8)) & 0x01 == 1`, in the server `!= 0`
unfoldable pub bit_of : ℕ → ℕ → Bool
bit_of byte bit_index = bit_and (byte / 2 ^ bit_index) 0x01 == 1

-- `for i := 0; i < quantity; i++`, with the rounds left, from round i on
pub unpack_bits : ℕ → ℕ → ℕ → List ℕ → Go (List Bool)
unfolding bit_of
unpack_bits base i zero bytes = ok []
unpack_bits base i (suc n) bytes = do
  byte ← byte_at bytes (base + i / 8)
  values ← unpack_bits base (i + 1) n bytes
  ok (bit_of byte (i % 8) ∷ values)

-- `binary.BigEndian.PutUint16(data[base+i*2:base+i*2+2], value)` for each value
pub pack_registers : ℕ → ℕ → List ℕ → List ℕ → Go (List ℕ)
pack_registers base i [] bytes = ok bytes
pack_registers base i (v ∷ values) bytes = do
  bytes ← put_u16 bytes (base + i * 2) v
  pack_registers base (i + 1) values bytes

-- `values[i] = binary.BigEndian.Uint16(data[base+i*2 : base+i*2+2])`, with the rounds left
pub unpack_registers : ℕ → ℕ → ℕ → List ℕ → Go (List ℕ)
unpack_registers base i zero bytes = ok []
unpack_registers base i (suc n) bytes = do
  value ← u16_at bytes (base + i * 2)
  values ← unpack_registers base (i + 1) n bytes
  ok (value ∷ values)
