-- ===== src/Base/Bytes.antt =====
-- Byte slices as lists of numbers: indexing, and encoding/binary's big-endian 16-bit words.
pub mod Access
pub mod Reader
use Prim.Native.Nat.{ℕ, ◌+◌, ◌*◌, ◌/◌, ◌%◌, ◌<◌}
use mathlib.Core.List.{List, ◌∷◌}
use goindustrial.Base.Lists.{get_elem?, set_elem?, replicate}
use goindustrial.Base.Outcome.{Go, ok, index_or_panic, ◌>>=◌}

abbrev pub IsByte : ℕ → Type 0
IsByte b = b < 256

abbrev pub IsU16 : ℕ → Type 0
IsU16 n = n < 65536

abbrev pub u8 : ℕ → ℕ
u8 n = n % 256

abbrev pub u16 : ℕ → ℕ
u16 n = n % 65536

-- `data[i]` and `data[i] = v`
abbrev pub byte_at : List ℕ → ℕ → Go ℕ
byte_at bytes i = index_or_panic (get_elem? bytes i)

abbrev pub store_at : List ℕ → ℕ → ℕ → Go (List ℕ)
store_at bytes i v = index_or_panic (set_elem? bytes i v)

-- `binary.BigEndian.Uint16(data[i:i+2])`
abbrev pub u16_at : List ℕ → ℕ → Go ℕ
u16_at bytes i = do hi ← byte_at bytes i; lo ← byte_at bytes (i + 1); ok (hi * 256 + lo)

-- `binary.BigEndian.PutUint16(data[i:i+2], v)`
abbrev pub put_u16 : List ℕ → ℕ → ℕ → Go (List ℕ)
put_u16 bytes i v = do bytes ← store_at bytes i (u8 (v / 256)); store_at bytes (i + 1) (u8 v)

-- The two bytes of a word.
abbrev pub be16 : ℕ → List ℕ → List ℕ
be16 v rest = u8 (v / 256) ∷ u8 v ∷ rest

-- `make([]byte, n)`
abbrev pub make_bytes : ℕ → List ℕ
make_bytes n = replicate n 0
