-- ===== src/Base/Bytes/Access.antt =====
-- Reads and writes at the place where two parts of a byte slice meet, and reads within bounds.
use Prim.Native.Nat.{ℕ, zero, suc, ◌+◌, ◌/◌, ◌<◌}
use mathlib.Core.Path.{◌≡◌, refl, ap, ◌∙◌, subst, subst₂}
use mathlib.Core.List.{List, [], ◌∷◌, ◌++◌, append_assoc}
use mathlib.Core.Option.{some}
use native.Mathlib.Omega.{arith}
use goindustrial.Base.Lists.{
  length, length-append, get_elem?, get_or, get_elem?-get_or, set, set_elem?-set,
}
use goindustrial.Base.Outcome.{ok, index_or_panic}
use goindustrial.Base.Bytes.{IsU16, u8, byte_at, store_at, u16_at, put_u16, be16}

get_elem?-append :
    (pre zs : List ℕ) (x i : ℕ) → i ≡ length pre → get_elem? (pre ++ x ∷ zs) i ≡ some x
get_elem?-append [] zs x zero h = refl
get_elem?-append [] zs x (suc i) h = absurd (omega arith)
get_elem?-append (y ∷ pre) zs x zero h = absurd (omega arith)
get_elem?-append (y ∷ pre) zs x (suc i) h = get_elem?-append pre zs x i (omega arith)

set-append :
    (pre zs : List ℕ) (x v i : ℕ) → i ≡ length pre → set (pre ++ x ∷ zs) i v ≡ pre ++ v ∷ zs
set-append [] zs x v zero h = refl
set-append [] zs x v (suc i) h = absurd (omega arith)
set-append (y ∷ pre) zs x v zero h = absurd (omega arith)
set-append (y ∷ pre) zs x v (suc i) h = ap (λ t. y ∷ t) (set-append pre zs x v i (omega arith))

pub byte_at-append : (pre zs : List ℕ) (x i : ℕ) → i ≡ length pre → byte_at (pre ++ x ∷ zs) i ≡ ok x
byte_at-append pre zs x i h = rw (get_elem?-append pre zs x i h)

pub store_at-append :
    (pre zs : List ℕ) (x v i : ℕ)
    → i ≡ length pre
    → store_at (pre ++ x ∷ zs) i v ≡ ok (pre ++ v ∷ zs)
store_at-append pre zs x v i h =
    let inside : i < length (pre ++ x ∷ zs) = omega (arith, length-append pre (x ∷ zs)) in
    rw (set_elem?-set _ i v inside, set-append pre zs x v i h)

-- In bounds an index expression does not panic.
pub byte_at-lt :
    (bytes : List ℕ) (i : ℕ) → i < length bytes → byte_at bytes i ≡ ok (get_or bytes i 0)
byte_at-lt bytes i h = rw (get_elem?-get_or bytes i 0 h)

pub store_at-lt :
    (bytes : List ℕ) (i v : ℕ) → i < length bytes → store_at bytes i v ≡ ok (set bytes i v)
store_at-lt bytes i v h = rw (set_elem?-set bytes i v h)

pub byte_at-append_second :
    (pre zs : List ℕ) (x y i : ℕ) → i ≡ length pre + 1 → byte_at (pre ++ x ∷ y ∷ zs) i ≡ ok y
byte_at-append_second pre zs x y i h =
    subst (λ l. byte_at l i ≡ ok y) (append_assoc pre (x ∷ []) (y ∷ zs))
      (byte_at-append (pre ++ x ∷ []) zs y i (omega (arith, length-append pre (x ∷ []))))

pub store_at-append_second :
    (pre zs : List ℕ) (x y v i : ℕ)
    → i ≡ length pre + 1
    → store_at (pre ++ x ∷ y ∷ zs) i v ≡ ok (pre ++ x ∷ v ∷ zs)
store_at-append_second pre zs x y v i h =
    subst₂ (λ l m. store_at l i v ≡ ok m) (append_assoc pre (x ∷ []) (y ∷ zs))
      (append_assoc pre (x ∷ []) (v ∷ zs))
      (store_at-append (pre ++ x ∷ []) zs y v i (omega (arith, length-append pre (x ∷ []))))

-- A word that was put is read back.
pub u16_at-append :
    (pre zs : List ℕ) (v i : ℕ) → IsU16 v → i ≡ length pre → u16_at (pre ++ be16 v zs) i ≡ ok v
u16_at-append pre zs v i fits h = rw (byte_at-append pre (u8 v ∷ zs) (u8 (v / 256)) i h) (
    rw (byte_at-append_second pre zs (u8 (v / 256)) (u8 v) (i + 1) (omega arith))
      (ap ok (omega arith)))

pub put_u16-append :
    (pre zs : List ℕ) (a b v i : ℕ)
    → i ≡ length pre
    → put_u16 (pre ++ a ∷ b ∷ zs) i v ≡ ok (pre ++ be16 v zs)
put_u16-append pre zs a b v i h =
    rw (store_at-append pre (b ∷ zs) a (u8 (v / 256)) i h)
      (store_at-append_second pre zs (u8 (v / 256)) b (u8 v) (i + 1) (omega arith))

get_elem?-append_right :
    (pre body : List ℕ) (j k : ℕ)
    → j ≡ length pre + k
    → get_elem? (pre ++ body) j ≡ get_elem? body k
get_elem?-append_right [] body j k h = ap (get_elem? body) (omega arith)
get_elem?-append_right (x ∷ pre) body zero k h = absurd (omega arith)
get_elem?-append_right (x ∷ pre) body (suc j) k h =
    get_elem?-append_right pre body j k (omega arith)

set-append_right :
    (pre body : List ℕ) (j k v : ℕ)
    → j ≡ length pre + k
    → set (pre ++ body) j v ≡ pre ++ set body k v
set-append_right [] body j k v h = ap (λ t. set body t v) (omega arith)
set-append_right (x ∷ pre) body zero k v h = absurd (omega arith)
set-append_right (x ∷ pre) body (suc j) k v h =
    ap (λ t. x ∷ t) (set-append_right pre body j k v (omega arith))

-- Behind a prefix, reads and writes are those of the rest.
pub byte_at-append_right :
    (pre body : List ℕ) (j k : ℕ) → j ≡ length pre + k → byte_at (pre ++ body) j ≡ byte_at body k
byte_at-append_right pre body j k h = ap index_or_panic (get_elem?-append_right pre body j k h)

pub store_at-append_right :
    (pre body : List ℕ) (j k v : ℕ)
    → j ≡ length pre + k
    → k < length body
    → store_at (pre ++ body) j v ≡ ok (pre ++ set body k v)
store_at-append_right pre body j k v h inside =
    store_at-lt (pre ++ body) j v (omega (arith, length-append pre body))
    ∙ ap ok (set-append_right pre body j k v h)
