-- ===== src/Monitor/Plan/Any.antt =====
-- Some element of a list.
use goindustrial.Base.{◌≡◌, ◌⊎◌, inl, inr, List, [], ◌∷◌, ◌++◌, All}
use mathlib.Core.Path.{subst}
use mathlib.Core.List.{Permᴰ}

module _ {A : Type 0} where
  abbrev pub Any : (A → Type 0) → List A → Type 0
  Any P [] = ⊥
  Any P (x ∷ xs) = P x ⊎ Any P xs

  pub Any-append_left : (P : A → Type 0) (xs ys : List A) → Any P xs → Any P (xs ++ ys)
  Any-append_left P [] ys h = elim h [ ]
  Any-append_left P (x ∷ xs) ys (inl h) = inl h
  Any-append_left P (x ∷ xs) ys (inr h) = inr (Any-append_left P xs ys h)

  pub Any-append_right : (P : A → Type 0) (xs ys : List A) → Any P ys → Any P (xs ++ ys)
  Any-append_right P [] ys h = h
  Any-append_right P (x ∷ xs) ys h = inr (Any-append_right P xs ys h)

  pub Any-perm : (P : A → Type 0) {xs ys : List A} → Permᴰ xs ys → Any P xs → Any P ys
  Any-perm P Permᴰ.nil h = h
  Any-perm P (Permᴰ.cons e p) (inl h) = inl (subst P e h)
  Any-perm P (Permᴰ.cons e p) (inr h) = inr (Any-perm P p h)
  Any-perm P (Permᴰ.swap e f) (inl h) = inr (inl (subst P e h))
  Any-perm P (Permᴰ.swap e f) (inr (inl h)) = inl (subst P f h)
  Any-perm P (Permᴰ.swap e f) (inr (inr h)) = inr (inr h)
  Any-perm P (Permᴰ.trans p q) h = Any-perm P q (Any-perm P p h)

  pub All-perm : (P : A → Type 0) {xs ys : List A} → Permᴰ xs ys → All P xs → All P ys
  All-perm P Permᴰ.nil h = h
  All-perm P (Permᴰ.cons e p) (h, hs) = (subst P e h, All-perm P p hs)
  All-perm P (Permᴰ.swap e f) (h, (k, hs)) = (subst P f k, (subst P e h, hs))
  All-perm P (Permᴰ.trans p q) h = All-perm P q (All-perm P p h)

  pub All-append : (P : A → Type 0) (xs ys : List A) → All P xs → All P ys → All P (xs ++ ys)
  All-append P [] ys h k = k
  All-append P (x ∷ xs) ys (h, hs) k = (h, All-append P xs ys hs k)

  pub Any-append_split : (P : A → Type 0) (xs ys : List A) → Any P (xs ++ ys) → Any P xs ⊎ Any P ys
  Any-append_split P [] ys h = inr h
  Any-append_split P (x ∷ xs) ys (inl h) = inl (inl h)
  Any-append_split P (x ∷ xs) ys (inr h) = elim (Any-append_split P xs ys h) [
    | inl k ↦ inl (inr k)
    | inr k ↦ inr k
  ]

  -- What all elements have, one of them has.
  pub All-at : (P : A → Type 0) (q : A) (xs : List A) → All P xs → Any (λ x. x ≡ q) xs → P q
  All-at P q [] h k = elim k [ ]
  All-at P q (x ∷ xs) (h, hs) (inl e) = subst P e h
  All-at P q (x ∷ xs) (h, hs) (inr k) = All-at P q xs hs k

  pub All-map : (P Q : A → Type 0) (f : (x : A) → P x → Q x) (xs : List A) → All P xs → All Q xs
  All-map P Q f [] h = tt
  All-map P Q f (x ∷ xs) (h, hs) = (f x h, All-map P Q f xs hs)

  pub Any-map : (P Q : A → Type 0) (f : (x : A) → P x → Q x) (xs : List A) → Any P xs → Any Q xs
  Any-map P Q f [] h = h
  Any-map P Q f (x ∷ xs) (inl h) = inl (f x h)
  Any-map P Q f (x ∷ xs) (inr h) = inr (Any-map P Q f xs h)
