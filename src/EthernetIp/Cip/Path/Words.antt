-- ===== src/EthernetIp/Cip/Path/Words.antt =====
-- Paths in words of 16 bits.
use goindustrial.Base.{
  ℕ, ◌*◌, ◌%◌, ◌<◌, ◌≤◌, leb, ◌≡◌, refl, ◌∙◌, inl, inr, Bool-cases, List, [], ◌∷◌, ◌++◌, length,
  length-append, arith,
}
use goindustrial.Base.Bytes.{u8}
use goindustrial.EthernetIp.Cip.Path.{
  add_logical, add_logical32, add_class, add_instance, add_attribute, add_connection_point,
  add_member, add_instance32, add_member32, pad_byte, add_symbolic_segment, port_segment,
  add_port_segment, len_words,
}
use goindustrial.EthernetIp.Cip.Path.Segments.{
  Call, class_call, instance_call, instance32_call, attribute_call, connection_point_call,
  member_call, member32_call, symbolic_call, add_call,
}

-- A call of an `Add` method, `AddPortSegment` among them
pub data Step : Type 0 where
  segment_step : Call → Step
  port_step : ℕ → List ℕ → Step

abbrev pub add_step : List ℕ → Step → List ℕ
add_step path (segment_step call) = add_call path call
add_step path (port_step port link_address) = add_port_segment path port link_address

abbrev pub add_steps : List ℕ → List Step → List ℕ
add_steps path [] = path
add_steps path (step ∷ steps) = add_steps (add_step path step) steps

add_logical-even :
    (t : ℕ) (path : List ℕ) (v : ℕ) → length (add_logical t path v) % 2 ≡ length path % 2
unfolding add_logical
add_logical-even t path v = elim (Bool-cases (leb v 255)) [
  | inl e ↦ rw (add_logical, e) (omega (arith, length-append path (_ ∷ _ ∷ [])))
  | inr e ↦ rw (add_logical, e) (omega (arith, length-append path (_ ∷ _ ∷ _ ∷ _ ∷ [])))
]

add_logical32-even :
    (t : ℕ) (path : List ℕ) (v : ℕ) → length (add_logical32 t path v) % 2 ≡ length path % 2
unfolding add_logical32
add_logical32-even t path v = elim (Bool-cases (leb v 255)) [
  | inl e ↦ rw (add_logical32, e) (rw (length-append path _) (omega arith))
  | inr e ↦ elim (Bool-cases (leb v 65535)) [
    | inl k ↦ rw (add_logical32, e, k) (rw (length-append path _) (omega arith))
    | inr k ↦ rw (add_logical32, e, k) (rw (length-append path _) (omega arith))
  ]
]

length-pad_byte : (n : ℕ) → length (pad_byte n) ≡ n % 2
length-pad_byte n = ground arith

padded_even :
    (path segment : List ℕ)
    → length (path ++ (segment ++ pad_byte (length segment))) % 2 ≡ length path % 2
padded_even path segment = omega (
  arith,
  length-append path (segment ++ pad_byte (length segment)),
  length-append segment (pad_byte (length segment)),
  length-pad_byte (length segment),
)

add_step-even : (path : List ℕ) (step : Step) → length (add_step path step) % 2 ≡ length path % 2
unfolding add_class add_instance add_instance32 add_attribute add_connection_point add_member
    add_member32 add_symbolic_segment add_port_segment
add_step-even path (segment_step (class_call v)) = add_logical-even _ path v
add_step-even path (segment_step (instance_call v)) = add_logical-even _ path v
add_step-even path (segment_step (instance32_call v)) = add_logical32-even _ path v
add_step-even path (segment_step (attribute_call v)) = add_logical-even _ path v
add_step-even path (segment_step (connection_point_call v)) = add_logical-even _ path v
add_step-even path (segment_step (member_call v)) = add_logical-even _ path v
add_step-even path (segment_step (member32_call v)) = add_logical32-even _ path v
add_step-even path (segment_step (symbolic_call name)) = omega (
  arith,
  length-append path (145 ∷ u8 (length name) ∷ (name ++ pad_byte (length name))),
  length-append name (pad_byte (length name)),
  length-pad_byte (length name),
)
add_step-even path (port_step port link_address) = padded_even path (port_segment port link_address)

pub add_steps-even :
    (path : List ℕ) (steps : List Step) → length (add_steps path steps) % 2 ≡ length path % 2
add_steps-even path [] = refl
add_steps-even path (step ∷ steps) =
    add_steps-even (add_step path step) steps ∙ add_step-even path step

-- A path of at most 510 bytes, built by any sequence of the `Add` methods, has twice as many bytes
-- as `len_words` counts words, and the count fits a byte.
pub len_words-add_steps :
    (steps : List Step)
    → length (add_steps [] steps) ≤ 510
    → (len_words (add_steps [] steps) * 2 ≡ length (add_steps [] steps))
      × (len_words (add_steps [] steps) < 256)
unfolding len_words
len_words-add_steps steps h = (omega (arith, add_steps-even [] steps), omega arith)
