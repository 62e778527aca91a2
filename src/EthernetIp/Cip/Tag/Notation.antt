-- ===== src/EthernetIp/Cip/Tag/Notation.antt =====
-- `ParseTagPath` on written tags.
use mathlib.Core.Bool.{false≢true}
use goindustrial.Base.{
  ℕ, ◌≡◌, ◌≢◌, refl, sym, ap, ◌∙◌, inl, inr, List, [], ◌∷◌, ◌++◌, All, Bool, Bool-cases, not, ◌&&◌,
  map, true, false, leb, ltb, if◌then◌else◌, arith,
}
use goindustrial.Base.{ok, ◌>>=◌}
use goindustrial.EthernetIp.Cip.Path.{add_member32}
use goindustrial.EthernetIp.Cip.Path.Segments.{Call, symbolic_call, member32_call, add_calls}
use goindustrial.EthernetIp.Cip.Tag.{
  dot, all_digits, is_all_digits, digits_value, add_bit_member, add_name, add_indices, add_segment,
  add_parts, split_tag_segments, parse_tag_path,
}
use goindustrial.EthernetIp.Cip.Tag.Split.{
  Part, IsWritten, brackets, written, with_dots, split_tag_segments-with_dots,
}
use goindustrial.EthernetIp.Cip.Tag.Indices.{Small, parse_uint_number, parse_tag_segment-written}

-- A name is tested for digits without the code's own test.
abbrev pub only_digits : List ℕ → Bool
only_digits [] = true
only_digits (c ∷ cs) = (ltb 47 c && ltb c 58) && only_digits cs

-- The segments of a tag's path: a name is a symbol, but a number behind a dot is a bit; each index is
-- a member.
abbrev pub name_call : Bool → List ℕ → Call
name_call is_first name =
    if not is_first && only_digits name
    then member32_call (digits_value 0 name)
    else symbolic_call name

abbrev pub index_calls : List (List ℕ) → List Call
index_calls [] = []
index_calls (digits ∷ indices) = member32_call (digits_value 0 digits) ∷ index_calls indices

abbrev pub part_calls : Bool → List Part → List Call
part_calls is_first [] = []
part_calls is_first (part ∷ parts) =
    name_call is_first part.name ∷ (index_calls part.indices ++ part_calls false parts)

-- The numbers of a part behind a dot fit 32 bits: its indices, and its name where that is a number.
abbrev pub IsSmall : Part → Type 0
IsSmall part = All Small part.indices × (only_digits part.name ≡ true → Small part.name)

add_calls-join :
    (path : List ℕ) (xs ys : List Call)
    → add_calls path (xs ++ ys) ≡ add_calls (add_calls path xs) ys
add_calls-join path [] ys = refl
add_calls-join path (x ∷ xs) ys = add_calls-join (add_calls path (x ∷ [])) xs ys

add_indices-index_calls :
    (path : List ℕ) (indices : List (List ℕ))
    → add_indices path (map (digits_value 0) indices) ≡ add_calls path (index_calls indices)
unfolding add_indices
add_indices-index_calls path [] = refl
add_indices-index_calls path (digits ∷ indices) =
    add_indices-index_calls (add_member32 path (digits_value 0 digits)) indices

and_right : (a b : Bool) → (a && b) ≡ true → b ≡ true
and_right a b h = ground arith

all_digits-only_digits : (name : List ℕ) → all_digits name ≡ only_digits name
unfolding all_digits
all_digits-only_digits [] = refl
all_digits-only_digits (c ∷ cs) =
    let below : leb 48 c ≡ ltb 47 c = ground arith in
    let above : leb c 57 ≡ ltb c 58 = ground arith in
    rw (below, above, all_digits-only_digits cs) refl

is_all_digits_some : (c : ℕ) (name : List ℕ) → is_all_digits (c ∷ name) ≡ only_digits (c ∷ name)
unfolding is_all_digits
is_all_digits_some c name = all_digits-only_digits (c ∷ name)

add_name-name_call :
    (is_first : Bool) (path name : List ℕ)
    → name ≢ []
    → ((not is_first && only_digits name) ≡ true → Small name)
    → add_name is_first path name ≡ ok (add_calls path (name_call is_first name ∷ []))
unfolding add_name add_bit_member
add_name-name_call is_first path [] some_ small = absurd (some_ refl)
add_name-name_call is_first path (c ∷ name) some_ small =
    let same : (not is_first && only_digits (c ∷ name))
        ≡ (not is_first && is_all_digits (c ∷ name)) =
      ap (λ d. not is_first && d) (sym (is_all_digits_some c name)) in
    elim (Bool-cases (not is_first && is_all_digits (c ∷ name))) [
      | inl e ↦
          let as_number = same ∙ e in
          let number : is_all_digits (c ∷ name) ≡ true =
            and_right (not is_first) (is_all_digits (c ∷ name)) e in
          rw (add_name, e, as_number, parse_uint_number (c ∷ name) number (small as_number)) refl
      | inr e ↦ let as_symbol = same ∙ e in rw (add_name, e, as_symbol) refl
    ]

add_segment_step :
    (is_first : Bool) (path : List ℕ) (c : ℕ) (name numbers : List ℕ)
    → add_segment is_first path (c ∷ name, numbers)
      ≡ (add_name is_first path (c ∷ name) >>= λ path'. ok (add_indices path' numbers))
unfolding add_segment
add_segment_step is_first path c name numbers = refl

add_segment_calls :
    (is_first : Bool) (path name : List ℕ) (indices : List (List ℕ))
    → name ≢ []
    → ((not is_first && only_digits name) ≡ true → Small name)
    → add_segment is_first path (name, map (digits_value 0) indices)
      ≡ ok (add_calls path (name_call is_first name ∷ index_calls indices))
add_segment_calls is_first path [] indices some_ small = absurd (some_ refl)
add_segment_calls is_first path (c ∷ name) indices some_ small =
    add_segment_step is_first path c name (map (digits_value 0) indices)
    ∙ rw
        (
          add_name-name_call is_first path (c ∷ name) some_ small,
          add_indices-index_calls (add_calls path (name_call is_first (c ∷ name) ∷ [])) indices,
        )
        refl

add_parts_step :
    (is_first : Bool) (path : List ℕ) (part : Part) (parts : List Part)
    → IsWritten part
    → All Small part.indices
    → ((not is_first && only_digits part.name) ≡ true → Small part.name)
    → add_parts is_first path (map written (part ∷ parts))
      ≡ add_parts false
          (add_calls path (name_call is_first part.name ∷ index_calls part.indices))
          (map written parts)
unfolding add_parts
add_parts_step is_first path part parts h indices_small name_small =
    rw
      (
        parse_tag_segment-written part h indices_small,
        add_segment_calls is_first path part.name part.indices h.1 name_small,
      )
      refl

add_parts-written :
    (path : List ℕ) (parts : List Part)
    → All IsWritten parts
    → All IsSmall parts
    → add_parts false path (map written parts) ≡ ok (add_calls path (part_calls false parts))
unfolding add_parts
add_parts-written path [] h small = refl
add_parts-written path (part ∷ parts) (h, hs) (k, ks) =
    add_parts_step false path part parts h k.0 k.1
    ∙ add_parts-written (add_calls path (name_call false part.name ∷ index_calls part.indices))
        parts hs ks
    ∙ ap ok (
        sym (
          add_calls-join path (name_call false part.name ∷ index_calls part.indices)
            (part_calls false parts)))

parse_tag_path_some :
    (tag : List ℕ) (parts : List (List ℕ))
    → tag ≢ []
    → split_tag_segments tag ≡ ok parts
    → parse_tag_path tag ≡ add_parts true [] parts
unfolding parse_tag_path
parse_tag_path_some [] parts some_ e = absurd (some_ refl)
parse_tag_path_some (c ∷ tag) parts some_ e = rw e refl

append-ne-nil : (xs ys : List ℕ) → xs ≢ [] → (xs ++ ys) ≢ []
append-ne-nil [] ys h = absurd (h refl)
append-ne-nil (x ∷ xs) ys h = λ e. cc

with_dots-ne-nil : (first : Part) (more : List Part) → first.name ≢ [] → with_dots first more ≢ []
with_dots-ne-nil first [] h = append-ne-nil first.name (brackets first.indices) h
with_dots-ne-nil first (next ∷ more) h =
    append-ne-nil (written first) (dot ∷ with_dots next more)
      (append-ne-nil first.name (brackets first.indices) h)

first_name : (b : Bool) (A : Type 0) → (not true && b) ≡ true → A
first_name b A h = absurd (false≢true h)

-- A tag of parts joined by dots, each a name without brackets and dots and perhaps indices of
-- digits in brackets, where the indices fit 32 bits, and so does a name behind a dot that has
-- digits only, is parsed into the path of its segments in order: a symbol for each name, or a
-- member for a name of digits only behind a dot, and then a member for each index.
pub parse_tag_path-with_dots :
    (first : Part) (more : List Part)
    → All IsWritten (first ∷ more)
    → All Small first.indices
    → All IsSmall more
    → parse_tag_path (with_dots first more) ≡ ok (add_calls [] (part_calls true (first ∷ more)))
parse_tag_path-with_dots first more (h, hs) indices_small small =
    parse_tag_path_some (with_dots first more) _ (with_dots-ne-nil first more h.1)
      (split_tag_segments-with_dots first more h hs)
    ∙ add_parts_step true [] first more h indices_small
        (first_name (only_digits first.name) (Small first.name))
    ∙ add_parts-written (add_calls [] (name_call true first.name ∷ index_calls first.indices)) more
        hs small
    ∙ ap ok (
        sym (
          add_calls-join [] (name_call true first.name ∷ index_calls first.indices)
            (part_calls false more)))
