-- ===== src/EthernetIp/Cip/Tag/Split.antt =====
-- Written tags, and how they fall into segments.
use goindustrial.Base.{
  ℕ, ◌+◌, ◌≤◌, ◌==◌, ◌≡◌, ◌≢◌, refl, sym, ap, ◌∙◌, List, [], ◌∷◌, ◌++◌, All, map, append_assoc,
  append-nil, false, arith,
}
use goindustrial.Base.{ok, ◌>>=◌}
use goindustrial.EthernetIp.Cip.Tag.{
  open_bracket, close_bracket, dot, comma, split_loop, split_tag_segments,
}

-- A byte of a name
abbrev pub Plain : ℕ → Type 0
Plain c = (c ≢ open_bracket) × (c ≢ close_bracket) × (c ≢ dot)

abbrev pub IsDigit : ℕ → Type 0
IsDigit c = (48 ≤ c) × (c ≤ 57)

-- A segment: its name, and the digits of each index
pub record Part : Type 0 where
  pub name : List ℕ
  pub indices : List (List ℕ)

abbrev pub with_commas : List ℕ → List (List ℕ) → List ℕ
with_commas first [] = first
with_commas first (next ∷ more) = first ++ comma ∷ with_commas next more

abbrev pub brackets : List (List ℕ) → List ℕ
brackets [] = []
brackets (first ∷ more) = open_bracket ∷ (with_commas first more ++ close_bracket ∷ [])

abbrev pub written : Part → List ℕ
written part = part.name ++ brackets part.indices

abbrev pub with_dots : Part → List Part → List ℕ
with_dots first [] = written first
with_dots first (next ∷ more) = written first ++ dot ∷ with_dots next more

abbrev pub IsDigits : List ℕ → Type 0
IsDigits digits = All IsDigit digits × (digits ≢ [])

-- A part with a name, of bytes other than brackets and dots, and indices of digits
abbrev pub IsWritten : Part → Type 0
IsWritten part = All Plain part.name × (part.name ≢ []) × All IsDigits part.indices

pub digits-Plain : (xs : List ℕ) → All IsDigit xs → All Plain xs
digits-Plain [] h = tt
digits-Plain (x ∷ xs) ((lo, hi), hs) = (
  (λ e. absurd (omega arith), λ e. absurd (omega arith), λ e. absurd (omega arith)),
  digits-Plain xs hs,
)

Plain-append : (xs ys : List ℕ) → All Plain xs → All Plain ys → All Plain (xs ++ ys)
Plain-append [] ys h k = k
Plain-append (x ∷ xs) ys (h, hs) k = (h, Plain-append xs ys hs k)

comma-Plain : Plain comma
comma-Plain = (λ e. absurd (omega arith), λ e. absurd (omega arith), λ e. absurd (omega arith))

with_commas-Plain :
    (first : List ℕ) (more : List (List ℕ))
    → IsDigits first
    → All IsDigits more
    → All Plain (with_commas first more)
with_commas-Plain first [] h hs = digits-Plain first h.0
with_commas-Plain first (next ∷ more) h (k, hs) =
    Plain-append first (comma ∷ with_commas next more) (digits-Plain first h.0)
      (comma-Plain, with_commas-Plain next more k hs)

split_loop_step :
    (depth c : ℕ) (current cs : List ℕ)
    → Plain c
    → split_loop depth current (c ∷ cs) ≡ split_loop depth (current ++ c ∷ []) cs
unfolding split_loop
split_loop_step depth c current cs (a, b, d) =
    let not_open : (c == open_bracket) ≡ false = ground arith in
    let not_close : (c == close_bracket) ≡ false = ground arith in
    let not_dot : (c == dot) ≡ false = ground arith in
    rw (split_loop, not_open, not_close, not_dot) refl

split_loop-Plain :
    (depth : ℕ) (current xs rest : List ℕ)
    → All Plain xs
    → split_loop depth current (xs ++ rest) ≡ split_loop depth (current ++ xs) rest
split_loop-Plain depth current [] rest h =
    ap (λ t. split_loop depth t rest) (sym (append-nil current))
split_loop-Plain depth current (x ∷ xs) rest (h, hs) =
    split_loop_step depth x current (xs ++ rest) h
    ∙ split_loop-Plain depth (current ++ x ∷ []) xs rest hs
    ∙ ap (λ t. split_loop depth t rest) (append_assoc current (x ∷ []) xs)

split_loop_open :
    (depth : ℕ) (current cs : List ℕ)
    → split_loop depth current (open_bracket ∷ cs)
      ≡ split_loop (depth + 1) (current ++ open_bracket ∷ []) cs
unfolding split_loop
split_loop_open depth current cs = refl

split_loop_close :
    (current cs : List ℕ)
    → split_loop 1 current (close_bracket ∷ cs) ≡ split_loop 0 (current ++ close_bracket ∷ []) cs
unfolding split_loop
split_loop_close current cs = refl

split_loop-dot :
    (current cs : List ℕ)
    → split_loop 0 current (dot ∷ cs) ≡ (split_loop 0 [] cs >>= λ parts. ok (current ∷ parts))
unfolding split_loop
split_loop-dot current cs = refl

split_loop-brackets :
    (current : List ℕ) (indices : List (List ℕ)) (rest : List ℕ)
    → All IsDigits indices
    → split_loop 0 current (brackets indices ++ rest)
      ≡ split_loop 0 (current ++ brackets indices) rest
split_loop-brackets current [] rest h = ap (λ t. split_loop 0 t rest) (sym (append-nil current))
split_loop-brackets current (first ∷ more) rest (h, hs) =
    let inner = with_commas first more in
    split_loop_open 0 current ((inner ++ close_bracket ∷ []) ++ rest)
    ∙ ap (split_loop 1 (current ++ open_bracket ∷ []))
        (append_assoc inner (close_bracket ∷ []) rest)
    ∙ split_loop-Plain 1 (current ++ open_bracket ∷ []) inner (close_bracket ∷ rest)
        (with_commas-Plain first more h hs)
    ∙ split_loop_close _ rest
    ∙ ap (λ t. split_loop 0 t rest)
        (append_assoc (current ++ open_bracket ∷ []) inner (close_bracket ∷ [])
          ∙ append_assoc current (open_bracket ∷ []) (inner ++ close_bracket ∷ []))

split_loop-written :
    (part : Part) (rest : List ℕ)
    → IsWritten part
    → split_loop 0 [] (written part ++ rest) ≡ split_loop 0 (written part) rest
split_loop-written part rest (plain, _, digits) =
    ap (split_loop 0 []) (append_assoc part.name (brackets part.indices) rest)
    ∙ split_loop-Plain 0 [] part.name (brackets part.indices ++ rest) plain
    ∙ split_loop-brackets part.name part.indices rest digits

split_end : (current : List ℕ) → split_loop 0 current [] ≡ ok (current ∷ [])
unfolding split_loop
split_end current = refl

-- A written tag falls into its written parts.
pub split_tag_segments-with_dots :
    (first : Part) (more : List Part)
    → IsWritten first
    → All IsWritten more
    → split_tag_segments (with_dots first more) ≡ ok (map written (first ∷ more))
unfolding split_tag_segments
split_tag_segments-with_dots first [] h hs =
    ap (split_loop 0 []) (sym (append-nil (written first)))
    ∙ split_loop-written first [] h
    ∙ split_end (written first)
split_tag_segments-with_dots first (next ∷ more) h (k, hs) =
    split_loop-written first (dot ∷ with_dots next more) h
    ∙ split_loop-dot (written first) (with_dots next more)
    ∙ rw (split_tag_segments-with_dots next more k hs) refl
