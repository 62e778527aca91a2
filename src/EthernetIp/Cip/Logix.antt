-- ===== src/EthernetIp/Cip/Logix.antt =====
-- cip/timer.go and cip/counter.go: the timers and counters of Logix controllers. An int32 is its
-- two's complement, a number below 2 ^ 32; a status bit is read by division. `UnmarshalCIP` is the
-- decoding, as the receiver is set where that succeeds.
pub mod Layouts
use goindustrial.Base.{
  ℕ, ◌+◌, ◌*◌, ◌/◌, ◌%◌, ◌^◌, ◌==◌, leb, not, if◌then◌else◌, List, [], ◌∷◌, Bool, true, false,
  length, bit_or,
}
use goindustrial.Base.Bytes.{byte_at}
use goindustrial.Base.Bytes.Reader.{le32}
use goindustrial.Base.{Go, Error, ok, err, ◌>>=◌, insufficient_timer, insufficient_counter}

pub record Timer : Type 0 where
  pub pre : ℕ
  pub acc : ℕ
  pub enable : Bool
  pub timing : Bool
  pub done : Bool

pub record Counter : Type 0 where
  pub pre : ℕ
  pub acc : ℕ
  pub count_up : Bool
  pub count_down : Bool
  pub done : Bool
  pub overflow : Bool
  pub underflow : Bool

-- `binary.LittleEndian.Uint32(data[i:i+4])`
unfoldable pub u32_at : List ℕ → ℕ → Go ℕ
u32_at bytes i = do
  a ← byte_at bytes i
  b ← byte_at bytes (i + 1)
  c ← byte_at bytes (i + 2)
  d ← byte_at bytes (i + 3)
  ok (a + b * 256 + c * 65536 + d * 16777216)

-- `statusU & (1 << bit) != 0`
unfoldable pub has_bit : ℕ → ℕ → Bool
has_bit status bit = not (status / 2 ^ bit % 2 == 0)

-- `if flag { status |= 1 << bit }`
unfoldable pub with_bit : Bool → ℕ → ℕ → ℕ
with_bit flag bit status = if flag then bit_or status (2 ^ bit) else status

-- The offset of the status; PRE and ACC are 4 and 8 bytes behind it.
unfoldable pub status_offset : Error → List ℕ → Go ℕ
status_offset short bytes =
    if leb 14 (length bytes) then ok 2 else if leb 12 (length bytes) then ok 0 else err short

unfoldable pub timer_of : ℕ → ℕ → ℕ → Timer
unfolding has_bit
timer_of status pre acc = record {
  pre = pre;
  acc = acc;
  enable = has_bit status 31;
  timing = has_bit status 30;
  done = has_bit status 29;
}

unfoldable pub decode_timer : List ℕ → Go Timer
unfolding status_offset u32_at timer_of
decode_timer bytes = do
  offset ← status_offset (insufficient_timer (length bytes)) bytes
  status ← u32_at bytes offset
  pre ← u32_at bytes (offset + 4)
  acc ← u32_at bytes (offset + 8)
  ok (timer_of status pre acc)

-- The status word, from the flags EN, TT and DN
unfoldable pub timer_status : Bool → Bool → Bool → ℕ
unfolding with_bit
timer_status en timing dn = with_bit dn 29 (with_bit timing 30 (with_bit en 31 0))

unfoldable pub marshal_timer : Timer → List ℕ
unfolding timer_status
marshal_timer t = 0 ∷ 0 ∷ le32 (timer_status t.enable t.timing t.done) (le32 t.pre (le32 t.acc []))

unfoldable pub counter_of : ℕ → ℕ → ℕ → Counter
unfolding has_bit
counter_of status pre acc = record {
  pre = pre;
  acc = acc;
  count_up = has_bit status 31;
  count_down = has_bit status 30;
  done = has_bit status 29;
  overflow = has_bit status 28;
  underflow = has_bit status 27;
}

unfoldable pub decode_counter : List ℕ → Go Counter
unfolding status_offset u32_at counter_of
decode_counter bytes = do
  offset ← status_offset (insufficient_counter (length bytes)) bytes
  status ← u32_at bytes offset
  pre ← u32_at bytes (offset + 4)
  acc ← u32_at bytes (offset + 8)
  ok (counter_of status pre acc)

-- The status word, from the flags CU, CD, DN, OV and UN
unfoldable pub counter_status : Bool → Bool → Bool → Bool → Bool → ℕ
unfolding with_bit
counter_status cu cd dn ov un =
    with_bit un 27 (with_bit ov 28 (with_bit dn 29 (with_bit cd 30 (with_bit cu 31 0))))

unfoldable pub marshal_counter : Counter → List ℕ
unfolding counter_status
marshal_counter c =
    0
    ∷ 0
    ∷ le32 (counter_status c.count_up c.count_down c.done c.overflow c.underflow)
        (le32 c.pre (le32 c.acc []))
