-- ===== src/EthernetIp/Cip/Tag/Indices.antt =====
-- The name and the indices of a written segment.
use goindustrial.Base.{
  ℕ, ◌<◌, ◌==◌, ltb, ◌≡◌, ◌≢◌, refl, sym, ap, ◌∙◌, List, [], ◌∷◌, ◌++◌, All, map, append_assoc,
  append-nil, true, false, none, some, arith,
}
use goindustrial.Base.{ok}
use goindustrial.EthernetIp.Cip.Tag.{
  open_bracket, close_bracket, comma, is_digit, all_digits, is_all_digits, digits_value, parse_uint,
  is_space, trim_left, before_trimmed, trim_right, trim_space, split_commas, prepend_to_name,
  break_at_bracket, prepend_to_inner, before_closing, index_result, parse_trimmed, parse_indices,
  parse_inner, parse_broken, parse_tag_segment,
}
use goindustrial.EthernetIp.Cip.Tag.Split.{
  Plain, IsDigit, IsDigits, Part, with_commas, brackets, written, IsWritten,
}

break_at_bracket-Plain :
    (xs after : List ℕ)
    → All Plain xs
    → break_at_bracket (xs ++ open_bracket ∷ after) ≡ some (xs, after)
unfolding break_at_bracket prepend_to_name
break_at_bracket-Plain [] after h = refl
break_at_bracket-Plain (x ∷ xs) after ((a, _, _), hs) =
    let not_open : (x == open_bracket) ≡ false = ground arith in
    rw (break_at_bracket, not_open, break_at_bracket-Plain xs after hs) refl

break_at_bracket-none : (xs : List ℕ) → All Plain xs → break_at_bracket xs ≡ none
unfolding break_at_bracket prepend_to_name
break_at_bracket-none [] h = refl
break_at_bracket-none (x ∷ xs) ((a, _, _), hs) =
    let not_open : (x == open_bracket) ≡ false = ground arith in
    rw (break_at_bracket, not_open, break_at_bracket-none xs hs) refl

before_closing-append : (xs : List ℕ) → before_closing (xs ++ close_bracket ∷ []) ≡ some xs
unfolding before_closing prepend_to_inner
before_closing-append [] = refl
before_closing-append (x ∷ []) = refl
before_closing-append (x ∷ y ∷ xs) = rw (before_closing-append (y ∷ xs)) refl

split_commas-digits :
    (current xs rest : List ℕ)
    → All IsDigit xs
    → split_commas current (xs ++ rest) ≡ split_commas (current ++ xs) rest
unfolding split_commas
split_commas-digits current [] rest h = ap (λ t. split_commas t rest) (sym (append-nil current))
split_commas-digits current (x ∷ xs) rest ((lo, hi), hs) =
    let not_comma : (x == comma) ≡ false = ground arith in
    rw (split_commas, not_comma)
      (split_commas-digits (current ++ x ∷ []) xs rest hs
        ∙ ap (λ t. split_commas t rest) (append_assoc current (x ∷ []) xs))

split_commas-with_commas :
    (first : List ℕ) (more : List (List ℕ))
    → IsDigits first
    → All IsDigits more
    → split_commas [] (with_commas first more) ≡ first ∷ more
unfolding split_commas
split_commas-with_commas first [] h hs =
    ap (split_commas []) (sym (append-nil first)) ∙ split_commas-digits [] first [] h.0
split_commas-with_commas first (next ∷ more) h (k, hs) =
    split_commas-digits [] first (comma ∷ with_commas next more) h.0
    ∙ ap (λ t. first ∷ t) (split_commas-with_commas next more k hs)

trim_right-digits : (xs : List ℕ) → All IsDigit xs → trim_right xs ≡ xs
unfolding trim_right before_trimmed
trim_right-digits [] h = refl
trim_right-digits (x ∷ []) ((lo, hi), hs) =
    let not_space : is_space x ≡ false = ground arith in rw not_space refl
trim_right-digits (x ∷ y ∷ xs) (h, hs) = rw (trim_right-digits (y ∷ xs) hs) refl

trim_space-digits : (xs : List ℕ) → All IsDigit xs → trim_space xs ≡ xs
unfolding trim_space trim_left
trim_space-digits [] h = trim_right-digits [] tt
trim_space-digits (x ∷ xs) ((lo, hi), hs) =
    let not_space : is_space x ≡ false = ground arith in
    rw not_space (trim_right-digits (x ∷ xs) ((lo, hi), hs))

all_digits-digits : (xs : List ℕ) → All IsDigit xs → all_digits xs ≡ true
unfolding all_digits
all_digits-digits [] h = refl
all_digits-digits (x ∷ xs) ((lo, hi), hs) =
    let digit : is_digit x ≡ true = ground arith in rw (digit, all_digits-digits xs hs) refl

is_all_digits-digits : (xs : List ℕ) → IsDigits xs → is_all_digits xs ≡ true
unfolding is_all_digits
is_all_digits-digits [] (h, some_) = absurd (some_ refl)
is_all_digits-digits (x ∷ xs) (h, some_) = all_digits-digits (x ∷ xs) h

abbrev pub Small : List ℕ → Type 0
Small digits = digits_value 0 digits < 4294967296

pub parse_uint_number :
    (xs : List ℕ) → is_all_digits xs ≡ true → Small xs → parse_uint xs ≡ some (digits_value 0 xs)
unfolding parse_uint
parse_uint_number xs h small =
    let fits : ltb (digits_value 0 xs) 4294967296 ≡ true = ground arith in rw (h, fits) refl

parse_trimmed-digits :
    (xs : List ℕ) → IsDigits xs → Small xs → parse_trimmed (trim_space xs) ≡ ok (digits_value 0 xs)
unfolding parse_trimmed index_result
parse_trimmed-digits [] h small = absurd (h.1 refl)
parse_trimmed-digits (x ∷ xs) h small =
    rw
      (
        trim_space-digits (x ∷ xs) h.0,
        parse_uint_number (x ∷ xs) (is_all_digits-digits (x ∷ xs) h) small,
      )
      refl

parse_indices-digits :
    (indices : List (List ℕ))
    → All IsDigits indices
    → All Small indices
    → parse_indices indices ≡ ok (map (digits_value 0) indices)
unfolding parse_indices
parse_indices-digits [] h k = refl
parse_indices-digits (xs ∷ indices) (h, hs) (k, ks) =
    rw (parse_trimmed-digits xs h k, parse_indices-digits indices hs ks) refl

parse_inner-some :
    (name xs indices : List ℕ)
    → xs ≢ []
    → parse_indices (split_commas [] xs) ≡ ok indices
    → parse_inner name (some xs) ≡ ok (name, indices)
unfolding parse_inner
parse_inner-some name [] indices some_ h = absurd (some_ refl)
parse_inner-some name (x ∷ xs) indices some_ h = rw h refl

with_commas-ne-nil :
    (first : List ℕ) (more : List (List ℕ)) → first ≢ [] → with_commas first more ≢ []
with_commas-ne-nil [] more h = absurd (h refl)
with_commas-ne-nil (x ∷ first) [] h = h
with_commas-ne-nil (x ∷ first) (next ∷ more) h = λ e. cc

parse_inner-with_commas :
    (name first : List ℕ) (more : List (List ℕ))
    → All IsDigits (first ∷ more)
    → All Small (first ∷ more)
    → parse_inner name (some (with_commas first more))
      ≡ ok (name, map (digits_value 0) (first ∷ more))
parse_inner-with_commas name first more (h, hs) small =
    parse_inner-some name (with_commas first more) _ (with_commas-ne-nil first more h.1) (
      ap parse_indices (split_commas-with_commas first more h hs)
      ∙ parse_indices-digits (first ∷ more) (h, hs) small)

parse_tag_segment_parts :
    (name : List ℕ) (indices : List (List ℕ))
    → All Plain name
    → All IsDigits indices
    → All Small indices
    → parse_tag_segment (name ++ brackets indices) ≡ ok (name, map (digits_value 0) indices)
unfolding parse_tag_segment parse_broken
parse_tag_segment_parts name [] plain h small =
    rw (append-nil name, break_at_bracket-none name plain) refl
parse_tag_segment_parts name (first ∷ more) plain h small =
    rw
      (
        break_at_bracket-Plain name (with_commas first more ++ close_bracket ∷ []) plain,
        before_closing-append (with_commas first more),
      )
      (parse_inner-with_commas name first more h small)

-- A written part has its name and the values of its indices.
pub parse_tag_segment-written :
    (part : Part)
    → IsWritten part
    → All Small part.indices
    → parse_tag_segment (written part) ≡ ok (part.name, map (digits_value 0) part.indices)
parse_tag_segment-written part (plain, _, digits) small =
    parse_tag_segment_parts part.name part.indices plain digits small
