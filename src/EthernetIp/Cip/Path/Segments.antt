-- ===== src/EthernetIp/Cip/Path/Segments.antt =====
-- The segments of a path: a reader of the EPATH format, and what the `Add` methods write for it.
use goindustrial.Base.{
  ℕ, zero, suc, ◌+◌, ◌*◌, ◌/◌, ◌%◌, ◌<◌, ◌==◌, leb, ltb, ◌≡◌, refl, sym, ap, ◌∙◌, inl, inr,
  if◌then◌else◌, Bool-cases, true, false, List, [], ◌∷◌, ◌++◌, append_assoc, append-nil, map, All,
  Option, none, some, length, take, drop, length-append, take_prefix, drop_prefix, arith,
}
use goindustrial.Base.Bytes.{u8}
use goindustrial.Base.Bytes.Reader.{le16, le32, join_le16, join_le32}
use goindustrial.EthernetIp.Cip.Path.{
  logical_byte, add_logical, add_logical32, add_class, add_instance, add_attribute,
  add_connection_point, add_member, add_instance32, add_member32, pad_byte, add_symbolic_segment,
}

-- A logical segment has its kind, 0 for a class up to 4 for an attribute, and its value.
pub data Segment : Type 0 where
  logical : ℕ → ℕ → Segment
  symbolic : List ℕ → Segment

-- The value of a logical segment, by its format
abbrev read_value : ℕ → ℕ → List ℕ → Option (Segment × List ℕ)
read_value kind zero (v ∷ rest) = some (logical kind v, rest)
read_value kind (suc zero) (pad ∷ a ∷ b ∷ rest) = some (logical kind (a + b * 256), rest)
read_value kind (suc (suc zero)) (pad ∷ a ∷ b ∷ c ∷ d ∷ rest) =
    some (logical kind (a + b * 256 + c * 65536 + d * 16777216), rest)
read_value _ _ _ = none

abbrev read_symbol : List ℕ → Option (Segment × List ℕ)
read_symbol [] = none
read_symbol (n ∷ rest) =
    if ltb (length rest) (n + n % 2)
    then none
    else some (symbolic (take n rest), drop (n % 2) (drop n rest))

-- The first segment of a path, and the rest
abbrev read_segment : List ℕ → Option (Segment × List ℕ)
read_segment [] = none
read_segment (first ∷ rest) =
    if first == 145
    then read_symbol rest
    else if first / 32 == 1
    then read_value (first / 4 % 8) (first % 4) rest
    else none

abbrev with_segment : Segment → Option (List Segment) → Option (List Segment)
with_segment segment none = none
with_segment segment (some segments) = some (segment ∷ segments)

abbrev then_segments :
    Option (Segment × List ℕ) → (List ℕ → Option (List Segment)) → Option (List Segment)
then_segments none more = none
then_segments (some (segment, rest)) more = with_segment segment (more rest)

-- So many segments, and nothing behind them
unfoldable pub read_segments : ℕ → List ℕ → Option (List Segment)
read_segments zero [] = some []
read_segments zero (b ∷ bytes) = none
read_segments (suc n) bytes = then_segments (read_segment bytes) (λ rest. read_segments n rest)

-- The calls that build a path, with their arguments
pub data Call : Type 0 where
  class_call : ℕ → Call
  instance_call : ℕ → Call
  instance32_call : ℕ → Call
  attribute_call : ℕ → Call
  connection_point_call : ℕ → Call
  member_call : ℕ → Call
  member32_call : ℕ → Call
  symbolic_call : List ℕ → Call

abbrev pub add_call : List ℕ → Call → List ℕ
add_call path (class_call v) = add_class path v
add_call path (instance_call v) = add_instance path v
add_call path (instance32_call v) = add_instance32 path v
add_call path (attribute_call v) = add_attribute path v
add_call path (connection_point_call v) = add_connection_point path v
add_call path (member_call v) = add_member path v
add_call path (member32_call v) = add_member32 path v
add_call path (symbolic_call name) = add_symbolic_segment path name

abbrev pub add_calls : List ℕ → List Call → List ℕ
add_calls path [] = path
add_calls path (call ∷ calls) = add_calls (add_call path call) calls

-- The arguments fit their types; a symbol's length fits a byte.
abbrev pub Fits : Call → Type 0
Fits (instance32_call v) = v < 4294967296
Fits (member32_call v) = v < 4294967296
Fits (symbolic_call name) = length name < 256
Fits (class_call v) = v < 65536
Fits (instance_call v) = v < 65536
Fits (attribute_call v) = v < 65536
Fits (connection_point_call v) = v < 65536
Fits (member_call v) = v < 65536

abbrev pub segment_of : Call → Segment
segment_of (class_call v) = logical 0 v
segment_of (instance_call v) = logical 1 v
segment_of (instance32_call v) = logical 1 v
segment_of (member_call v) = logical 2 v
segment_of (member32_call v) = logical 2 v
segment_of (connection_point_call v) = logical 3 v
segment_of (attribute_call v) = logical 4 v
segment_of (symbolic_call name) = symbolic name

-- What a call appends.
abbrev piece : Call → List ℕ
piece call = add_call [] call

add_logical-append :
    (t : ℕ) (path : List ℕ) (v : ℕ) → add_logical t path v ≡ path ++ add_logical t [] v
unfolding add_logical
add_logical-append t path v = elim (Bool-cases (leb v 255)) [
  | inl e ↦ rw (add_logical, e) refl
  | inr e ↦ rw (add_logical, e) refl
]

add_logical32-append :
    (t : ℕ) (path : List ℕ) (v : ℕ) → add_logical32 t path v ≡ path ++ add_logical32 t [] v
unfolding add_logical32
add_logical32-append t path v = elim (Bool-cases (leb v 255)) [
  | inl e ↦ rw (add_logical32, e) refl
  | inr e ↦ elim (Bool-cases (leb v 65535)) [
    | inl k ↦ rw (add_logical32, e, k) refl
    | inr k ↦ rw (add_logical32, e, k) refl
  ]
]

add_call-append : (path : List ℕ) (call : Call) → add_call path call ≡ path ++ piece call
unfolding add_class add_instance add_instance32 add_attribute add_connection_point add_member
    add_member32 add_symbolic_segment
add_call-append path (class_call v) = add_logical-append _ path v
add_call-append path (instance_call v) = add_logical-append _ path v
add_call-append path (instance32_call v) = add_logical32-append _ path v
add_call-append path (attribute_call v) = add_logical-append _ path v
add_call-append path (connection_point_call v) = add_logical-append _ path v
add_call-append path (member_call v) = add_logical-append _ path v
add_call-append path (member32_call v) = add_logical32-append _ path v
add_call-append path (symbolic_call name) = refl

-- A kind's bits stand above those of the format.
read_segment_logical :
    (kind format : ℕ) (rest : List ℕ)
    → kind < 8
    → format < 4
    → read_segment (logical_byte (4 * kind) format ∷ rest) ≡ read_value kind format rest
read_segment_logical kind format rest k f =
    let first = 32 + 4 * kind + format in
    let not_symbol : (first == 145) ≡ false = ground arith in
    let is_logical : (first / 32 == 1) ≡ true = ground arith in
    let kind_of : first / 4 % 8 ≡ kind = omega arith in
    let format_of : first % 4 ≡ format = omega arith in
    rw (not_symbol, is_logical, kind_of, format_of) refl

read_segment-add_logical :
    (kind v : ℕ) (rest : List ℕ)
    → kind < 8
    → v < 65536
    → read_segment (add_logical (4 * kind) [] v ++ rest) ≡ some (logical kind v, rest)
unfolding add_logical
read_segment-add_logical kind v rest k h = elim (Bool-cases (leb v 255)) [
  | inl e ↦
      let byte : u8 v ≡ v = ground arith in
      rw (add_logical, e)
        (read_segment_logical kind 0 (u8 v ∷ rest) k (omega arith)
          ∙ ap (λ n. some (logical kind n, rest)) byte)
  | inr e ↦
      rw (add_logical, e)
        (read_segment_logical kind 1 (0 ∷ le16 v rest) k (omega arith)
          ∙ ap (λ n. some (logical kind n, rest)) (join_le16 v h))
]

read_segment-add_logical32 :
    (kind v : ℕ) (rest : List ℕ)
    → kind < 8
    → v < 4294967296
    → read_segment (add_logical32 (4 * kind) [] v ++ rest) ≡ some (logical kind v, rest)
unfolding add_logical32
read_segment-add_logical32 kind v rest k h = elim (Bool-cases (leb v 255)) [
  | inl e ↦
      let byte : u8 v ≡ v = ground arith in
      rw (add_logical32, e)
        (read_segment_logical kind 0 (u8 v ∷ rest) k (omega arith)
          ∙ ap (λ n. some (logical kind n, rest)) byte)
  | inr e ↦ elim (Bool-cases (leb v 65535)) [
    | inl l ↦
        rw (add_logical32, e, l)
          (read_segment_logical kind 1 (0 ∷ le16 v rest) k (omega arith)
            ∙ ap (λ n. some (logical kind n, rest)) (join_le16 v (ground arith)))
    | inr l ↦
        rw (add_logical32, e, l)
          (read_segment_logical kind 2 (0 ∷ le32 v rest) k (omega arith)
            ∙ ap (λ n. some (logical kind n, rest)) (join_le32 v h))
  ]
]

length-pad_byte : (n : ℕ) → length (pad_byte n) ≡ n % 2
length-pad_byte n = ground arith

read_segment-add_symbolic_segment :
    (name rest : List ℕ)
    → length name < 256
    → read_segment (add_symbolic_segment [] name ++ rest) ≡ some (symbolic name, rest)
unfolding add_symbolic_segment
read_segment-add_symbolic_segment name rest h =
    let n : u8 (length name) ≡ length name = omega arith in
    let whole = append_assoc name (pad_byte (length name)) rest in
    let enough : ltb (length (name ++ (pad_byte (length name) ++ rest)))
          (length name + length name % 2)
        ≡ false =
      ground (
        arith,
        length-append name (pad_byte (length name) ++ rest),
        length-append (pad_byte (length name)) rest,
        length-pad_byte (length name),
      ) in
    rw
      (
        n,
        whole,
        enough,
        take_prefix name (pad_byte (length name) ++ rest) (length name) refl,
        drop_prefix name (pad_byte (length name) ++ rest) (length name) refl,
        drop_prefix (pad_byte (length name)) rest (length name % 2)
            (sym (length-pad_byte (length name))),
      )
      refl

read_segment-piece :
    (call : Call) (rest : List ℕ)
    → Fits call
    → read_segment (piece call ++ rest) ≡ some (segment_of call, rest)
unfolding add_class add_instance add_instance32 add_attribute add_connection_point add_member
    add_member32
read_segment-piece (class_call v) rest h = read_segment-add_logical 0 v rest (omega arith) h
read_segment-piece (instance_call v) rest h = read_segment-add_logical 1 v rest (omega arith) h
read_segment-piece (instance32_call v) rest h = read_segment-add_logical32 1 v rest (omega arith) h
read_segment-piece (member_call v) rest h = read_segment-add_logical 2 v rest (omega arith) h
read_segment-piece (member32_call v) rest h = read_segment-add_logical32 2 v rest (omega arith) h
read_segment-piece (connection_point_call v) rest h =
    read_segment-add_logical 3 v rest (omega arith) h
read_segment-piece (attribute_call v) rest h = read_segment-add_logical 4 v rest (omega arith) h
read_segment-piece (symbolic_call name) rest h = read_segment-add_symbolic_segment name rest h

pub add_calls-append :
    (path : List ℕ) (calls : List Call) → add_calls path calls ≡ path ++ add_calls [] calls
add_calls-append path [] = sym (append-nil path)
add_calls-append path (call ∷ calls) =
    add_calls-append (add_call path call) calls
    ∙ ap (λ t. t ++ add_calls [] calls) (add_call-append path call)
    ∙ append_assoc path (piece call) (add_calls [] calls)
    ∙ ap (λ t. path ++ t) (sym (add_calls-append (piece call) calls))

-- A path built by any sequence of the methods for logical and symbolic segments, with values that
-- fit and symbols of at most 255 bytes, is read by the format's rules as exactly these segments.
pub read_segments-add_calls :
    (calls : List Call)
    → All Fits calls
    → read_segments (length calls) (add_calls [] calls) ≡ some (map segment_of calls)
unfolding read_segments
read_segments-add_calls [] fits = refl
read_segments-add_calls (call ∷ calls) (fit, fits) =
    rw
      (
        add_calls-append (piece call) calls,
        read_segment-piece call (add_calls [] calls) fit,
        read_segments-add_calls calls fits,
      )
      refl
