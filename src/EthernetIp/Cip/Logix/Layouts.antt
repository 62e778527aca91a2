-- ===== src/EthernetIp/Cip/Logix/Layouts.antt =====
-- cip/timer.go and cip/counter.go: what is encoded is decoded in both layouts, of 14 and 12 bytes.
use goindustrial.Base.{
  ℕ, ◌<◌, ◌≤◌, ◌≡◌, refl, sym, ap, List, [], ◌++◌, Bool, true, false, ◌&&◌, ltb, ltb→lt, length,
  arith,
}
use goindustrial.Base.Bytes.Reader.{le32, join_le32}
use goindustrial.Base.{Error, ok}
use goindustrial.EthernetIp.Cip.Logix.{
  Timer, Counter, u32_at, has_bit, with_bit, status_offset, timer_of, decode_timer, timer_status,
  marshal_timer, counter_of, decode_counter, counter_status, marshal_counter,
}

same : Bool → Bool → Bool
same true b = b
same false true = false
same false false = true

same-eq : (a b : Bool) → same a b ≡ true → a ≡ b
unfolding same
same-eq true b h = sym h
same-eq false true h = cc
same-eq false false h = refl

-- A test of flags that passes for both values passes.
both : (Bool → Bool) → Bool
both f = f true && f false

both_lem : (f : Bool → Bool) → both f ≡ true → (b : Bool) → f b ≡ true
unfolding both
both_lem f h true = ground arith
both_lem f h false = ground arith

u32_at-le32_first : (v : ℕ) (rest : List ℕ) → v < 4294967296 → u32_at (le32 v rest) 0 ≡ ok v
unfolding u32_at
u32_at-le32_first v rest h = ap ok (join_le32 v h)

timer_test : Bool → Bool → Bool → Bool
timer_test a b c =
    let s = timer_status a b c in
    ltb s 4294967296 && (same (has_bit s 31) a && (same (has_bit s 30) b && same (has_bit s 29) c))

timer_test_all : both (λ a. both (λ b. both (λ c. timer_test a b c))) ≡ true
unfolding both timer_test timer_status with_bit has_bit same
timer_test_all = refl

timer_test_lem : (a b c : Bool) → timer_test a b c ≡ true
timer_test_lem a b c = both_lem _ (both_lem _ (both_lem _ timer_test_all a) b) c

and_true : (a b : Bool) → (a && b) ≡ true → (a ≡ true) × (b ≡ true)
and_true a b h = ground arith

timer_flags :
    (a b c : Bool)
    → (timer_status a b c < 4294967296)
      × (has_bit (timer_status a b c) 31 ≡ a)
      × (has_bit (timer_status a b c) 30 ≡ b)
      × (has_bit (timer_status a b c) 29 ≡ c)
unfolding timer_test
timer_flags a b c =
    let (small, more) = and_true _ _ (timer_test_lem a b c) in
    let (x, yz) = and_true _ _ more in
    let (y, z) = and_true _ _ yz in
    (ltb→lt (timer_status a b c) 4294967296 small, same-eq _ a x, same-eq _ b y, same-eq _ c z)

timer_of-timer_status :
    (a b c : Bool) (pre acc : ℕ)
    → timer_of (timer_status a b c) pre acc
      ≡ record { pre = pre; acc = acc; enable = a; timing = b; done = c }
unfolding timer_of
timer_of-timer_status a b c pre acc = let (_, x, y, z) = timer_flags a b c in rw x (rw y (rw z))

layout14 : (bytes : List ℕ) (e : Error) → 14 ≤ length bytes → status_offset e bytes ≡ ok 2
unfolding status_offset
layout14 bytes e h = ground arith

-- A timer whose preset and time are int32 values is decoded from its encoding, whatever bytes
-- follow.
pub decode_timer-marshal_timer :
    (t : Timer) (rest : List ℕ)
    → t.pre < 4294967296
    → t.acc < 4294967296
    → decode_timer (marshal_timer t ++ rest) ≡ ok t
unfolding decode_timer marshal_timer u32_at
decode_timer-marshal_timer t rest h k =
    let (s, _, _, _) = timer_flags t.enable t.timing t.done in
    rw (layout14 (marshal_timer t ++ rest) _ (ground arith)) (
      rw (join_le32 (timer_status t.enable t.timing t.done) s) (
        rw (join_le32 t.pre h) (
          rw (join_le32 t.acc k)
            (ap ok (timer_of-timer_status t.enable t.timing t.done t.pre t.acc)))))

-- The layout of 12 bytes, without the reserved ones in front, is decoded to the same timer.
pub decode_timer-short :
    (t : Timer)
    → t.pre < 4294967296
    → t.acc < 4294967296
    → decode_timer (le32 (timer_status t.enable t.timing t.done) (le32 t.pre (le32 t.acc [])))
      ≡ ok t
unfolding decode_timer u32_at status_offset
decode_timer-short t h k =
    let (s, _, _, _) = timer_flags t.enable t.timing t.done in
    rw (join_le32 (timer_status t.enable t.timing t.done) s) (
      rw (join_le32 t.pre h) (
        rw (join_le32 t.acc k)
          (ap ok (timer_of-timer_status t.enable t.timing t.done t.pre t.acc))))

counter_test : Bool → Bool → Bool → Bool → Bool → Bool
counter_test a b c d e =
    let s = counter_status a b c d e in
    ltb s 4294967296
    && (same (has_bit s 31) a
        && (same (has_bit s 30) b
            && (same (has_bit s 29) c && (same (has_bit s 28) d && same (has_bit s 27) e))))

counter_test_all :
    both (λ a. both (λ b. both (λ c. both (λ d. both (λ e. counter_test a b c d e))))) ≡ true
unfolding both counter_test counter_status with_bit has_bit same
counter_test_all = refl

counter_test_lem : (a b c d e : Bool) → counter_test a b c d e ≡ true
counter_test_lem a b c d e =
    both_lem _ (both_lem _ (both_lem _ (both_lem _ (both_lem _ counter_test_all a) b) c) d) e

counter_flags :
    (a b c d e : Bool)
    → (counter_status a b c d e < 4294967296)
      × (has_bit (counter_status a b c d e) 31 ≡ a)
      × (has_bit (counter_status a b c d e) 30 ≡ b)
      × (has_bit (counter_status a b c d e) 29 ≡ c)
      × (has_bit (counter_status a b c d e) 28 ≡ d)
      × (has_bit (counter_status a b c d e) 27 ≡ e)
unfolding counter_test
counter_flags a b c d e =
    let (small, more) = and_true _ _ (counter_test_lem a b c d e) in
    let (v, vs) = and_true _ _ more in
    let (w, ws) = and_true _ _ vs in
    let (x, xs) = and_true _ _ ws in
    let (y, z) = and_true _ _ xs in
    (
      ltb→lt (counter_status a b c d e) 4294967296 small,
      same-eq _ a v,
      same-eq _ b w,
      same-eq _ c x,
      same-eq _ d y,
      same-eq _ e z,
    )

counter_of-counter_status :
    (a b c d e : Bool) (pre acc : ℕ)
    → counter_of (counter_status a b c d e) pre acc ≡ record {
      pre = pre;
      acc = acc;
      count_up = a;
      count_down = b;
      done = c;
      overflow = d;
      underflow = e;
    }
unfolding counter_of
counter_of-counter_status a b c d e pre acc =
    let (_, v, w, x, y, z) = counter_flags a b c d e in rw v (rw w (rw x (rw y (rw z))))

-- The status of a counter.
abbrev pub status_of : Counter → ℕ
status_of c = counter_status c.count_up c.count_down c.done c.overflow c.underflow

status_of_lt : (c : Counter) → status_of c < 4294967296
status_of_lt c =
    let (s, _, _, _, _, _) = counter_flags c.count_up c.count_down c.done c.overflow c.underflow in
    s

-- A counter whose preset and count are int32 values is decoded from its encoding, whatever bytes
-- follow, with each of its five flags.
pub decode_counter-marshal_counter :
    (c : Counter) (rest : List ℕ)
    → c.pre < 4294967296
    → c.acc < 4294967296
    → decode_counter (marshal_counter c ++ rest) ≡ ok c
unfolding decode_counter marshal_counter u32_at
decode_counter-marshal_counter c rest h k =
    rw (layout14 (marshal_counter c ++ rest) _ (ground arith)) (
      rw (join_le32 (status_of c) (status_of_lt c)) (
        rw (join_le32 c.pre h) (
          rw (join_le32 c.acc k) (
            ap ok (
              counter_of-counter_status c.count_up c.count_down c.done c.overflow c.underflow c.pre
                c.acc)))))

-- The layout of 12 bytes, without the reserved ones in front, is decoded to the same counter.
pub decode_counter-short :
    (c : Counter)
    → c.pre < 4294967296
    → c.acc < 4294967296
    → decode_counter (le32 (status_of c) (le32 c.pre (le32 c.acc []))) ≡ ok c
unfolding decode_counter u32_at status_offset
decode_counter-short c h k = rw (join_le32 (status_of c) (status_of_lt c)) (
    rw (join_le32 c.pre h) (
      rw (join_le32 c.acc k) (
        ap ok (
          counter_of-counter_status c.count_up c.count_down c.done c.overflow c.underflow c.pre
            c.acc))))
