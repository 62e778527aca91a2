-- ===== src/EthernetIp/Cip/Tag.antt =====
-- cip/tag.go: paths of tags that are written with dots and brackets. A string is its bytes. Of the
-- errors only the kind is kept; `strings.TrimSpace` is that of ASCII spaces.
pub mod Split
pub mod Indices
pub mod Notation
use goindustrial.Base.{
  ℕ, zero, suc, ◌+◌, ◌-◌, ◌*◌, ◌==◌, leb, ltb, not, ◌&&◌, ◌||◌, if◌then◌else◌, List, [], ◌∷◌, ◌++◌,
  Bool, true, false, Option, none, some,
}
use goindustrial.Base.{
  Go, Error, ok, err, ◌>>=◌, empty_tag_path, unmatched_open_bracket, unmatched_close_bracket,
  bracket_not_closed, empty_index, empty_index_value, invalid_index, empty_segment,
  invalid_numeric_member,
}
use goindustrial.EthernetIp.Cip.Path.{add_member32, add_symbolic_segment}

abbrev pub open_bracket : ℕ
open_bracket = 91

abbrev pub close_bracket : ℕ
close_bracket = 93

abbrev pub dot : ℕ
dot = 46

abbrev pub comma : ℕ
comma = 44

-- The loop of `splitTagSegments`: the depth, the segment so far, and the bytes that are left
unfoldable pub split_loop : ℕ → List ℕ → List ℕ → Go (List (List ℕ))
split_loop depth current [] = elim (depth == 0) [
  | true ↦ ok (current ∷ [])
  | false ↦ err unmatched_open_bracket
]
split_loop depth current (c ∷ cs) = elim (c == open_bracket) [
  | true ↦ split_loop (depth + 1) (current ++ c ∷ []) cs
  | false ↦ elim (c == close_bracket) [
    | true ↦ elim (depth == 0) [
      | true ↦ err unmatched_close_bracket
      | false ↦ split_loop (depth - 1) (current ++ c ∷ []) cs
    ]
    | false ↦ elim ((c == dot) && (depth == 0)) [
      | true ↦ split_loop depth [] cs >>= λ parts. ok (current ∷ parts)
      | false ↦ split_loop depth (current ++ c ∷ []) cs
    ]
  ]
]

unfoldable pub split_tag_segments : List ℕ → Go (List (List ℕ))
unfolding split_loop
split_tag_segments tag = split_loop 0 [] tag

abbrev pub is_digit : ℕ → Bool
is_digit c = leb 48 c && leb c 57

unfoldable pub all_digits : List ℕ → Bool
all_digits [] = true
all_digits (c ∷ cs) = is_digit c && all_digits cs

-- `isAllDigits`
unfoldable pub is_all_digits : List ℕ → Bool
unfolding all_digits
is_all_digits [] = false
is_all_digits (c ∷ cs) = all_digits (c ∷ cs)

abbrev pub digits_value : ℕ → List ℕ → ℕ
digits_value n [] = n
digits_value n (c ∷ cs) = digits_value (n * 10 + (c - 48)) cs

-- `strconv.ParseUint(s, 10, 32)`
unfoldable pub parse_uint : List ℕ → Option ℕ
unfolding is_all_digits
parse_uint s =
    if is_all_digits s && ltb (digits_value 0 s) 4294967296 then some (digits_value 0 s) else none

abbrev pub is_space : ℕ → Bool
is_space c = (c == 32) || (leb 9 c && leb c 13)

unfoldable pub trim_left : List ℕ → List ℕ
trim_left [] = []
trim_left (c ∷ cs) = if is_space c then trim_left cs else c ∷ cs

-- A byte in front of what is trimmed on the right
unfoldable pub before_trimmed : ℕ → List ℕ → List ℕ
before_trimmed c [] = if is_space c then [] else c ∷ []
before_trimmed c (d ∷ ds) = c ∷ d ∷ ds

unfoldable pub trim_right : List ℕ → List ℕ
unfolding before_trimmed
trim_right [] = []
trim_right (c ∷ cs) = before_trimmed c (trim_right cs)

unfoldable pub trim_space : List ℕ → List ℕ
unfolding trim_left trim_right
trim_space s = trim_right (trim_left s)

-- `strings.SplitSeq(s, ",")`, with the part so far
unfoldable pub split_commas : List ℕ → List ℕ → List (List ℕ)
split_commas current [] = current ∷ []
split_commas current (c ∷ cs) = elim (c == comma) [
  | true ↦ current ∷ split_commas [] cs
  | false ↦ split_commas (current ++ c ∷ []) cs
]

unfoldable pub prepend_to_name : ℕ → Option (List ℕ × List ℕ) → Option (List ℕ × List ℕ)
prepend_to_name c none = none
prepend_to_name c (some (name, after)) = some (c ∷ name, after)

-- What stands before and after the first opening bracket
unfoldable pub break_at_bracket : List ℕ → Option (List ℕ × List ℕ)
unfolding prepend_to_name
break_at_bracket [] = none
break_at_bracket (c ∷ cs) = elim (c == open_bracket) [
  | true ↦ some ([], cs)
  | false ↦ prepend_to_name c (break_at_bracket cs)
]

unfoldable pub prepend_to_inner : ℕ → Option (List ℕ) → Option (List ℕ)
prepend_to_inner c none = none
prepend_to_inner c (some inner) = some (c ∷ inner)

-- What stands before a closing bracket at the end
unfoldable pub before_closing : List ℕ → Option (List ℕ)
unfolding prepend_to_inner
before_closing [] = none
before_closing (c ∷ []) = if c == close_bracket then some [] else none
before_closing (c ∷ d ∷ cs) = prepend_to_inner c (before_closing (d ∷ cs))

unfoldable pub index_result : Option ℕ → Go ℕ
index_result none = err invalid_index
index_result (some n) = ok n

unfoldable pub parse_trimmed : List ℕ → Go ℕ
unfolding index_result parse_uint
parse_trimmed [] = err empty_index_value
parse_trimmed (c ∷ cs) = index_result (parse_uint (c ∷ cs))

-- The loop over the indices
unfoldable pub parse_indices : List (List ℕ) → Go (List ℕ)
unfolding parse_trimmed trim_space
parse_indices [] = ok []
parse_indices (part ∷ parts) = do
  n ← parse_trimmed (trim_space part)
  ns ← parse_indices parts
  ok (n ∷ ns)

unfoldable pub parse_inner : List ℕ → Option (List ℕ) → Go (List ℕ × List ℕ)
unfolding parse_indices split_commas
parse_inner name none = err bracket_not_closed
parse_inner name (some []) = err empty_index
parse_inner name (some (c ∷ cs)) = do
  indices ← parse_indices (split_commas [] (c ∷ cs))
  ok (name, indices)

unfoldable pub parse_broken : List ℕ → Option (List ℕ × List ℕ) → Go (List ℕ × List ℕ)
unfolding parse_inner before_closing
parse_broken seg none = ok (seg, [])
parse_broken seg (some (name, after)) = parse_inner name (before_closing after)

unfoldable pub parse_tag_segment : List ℕ → Go (List ℕ × List ℕ)
unfolding parse_broken break_at_bracket
parse_tag_segment seg = parse_broken seg (break_at_bracket seg)

unfoldable pub add_bit_member : List ℕ → Option ℕ → Go (List ℕ)
add_bit_member path none = err invalid_numeric_member
add_bit_member path (some n) = ok (add_member32 path n)

-- The name of a segment; the first one is never a number
unfoldable pub add_name : Bool → List ℕ → List ℕ → Go (List ℕ)
unfolding add_bit_member is_all_digits parse_uint
add_name is_first path [] = ok path
add_name is_first path (c ∷ name) =
    if not is_first && is_all_digits (c ∷ name)
    then add_bit_member path (parse_uint (c ∷ name))
    else ok (add_symbolic_segment path (c ∷ name))

unfoldable pub add_indices : List ℕ → List ℕ → List ℕ
add_indices path [] = path
add_indices path (n ∷ ns) = add_indices (add_member32 path n) ns

unfoldable pub add_segment : Bool → List ℕ → List ℕ × List ℕ → Go (List ℕ)
unfolding add_name add_indices
add_segment is_first path ([], []) = err empty_segment
add_segment is_first path (name, indices) = do
  path ← add_name is_first path name
  ok (add_indices path indices)

-- The loop over the segments
unfoldable pub add_parts : Bool → List ℕ → List (List ℕ) → Go (List ℕ)
unfolding add_segment parse_tag_segment
add_parts is_first path [] = ok path
add_parts is_first path (part ∷ parts) = do
  segment ← parse_tag_segment part
  path ← add_segment is_first path segment
  add_parts false path parts

unfoldable pub parse_tag_path : List ℕ → Go (List ℕ)
unfolding add_parts split_tag_segments
parse_tag_path [] = err empty_tag_path
parse_tag_path (c ∷ tag) = do parts ← split_tag_segments (c ∷ tag); add_parts true [] parts
