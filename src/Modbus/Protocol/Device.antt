-- ===== src/Modbus/Protocol/Device.antt =====
-- Reading an identification response whose objects stand one after the other.
use goindustrial.Base.{
  ℕ, ◌+◌, ◌≡◌, refl, sym, ◌∙◌, ap, List, [], ◌∷◌, ◌++◌, true, leb, length, length-append, take,
  drop, take-append, drop-append, append_assoc, All, arith,
}
use mathlib.Core.Path.{subst}
use goindustrial.Base.{ok}
use goindustrial.Base.Bytes.Access.{byte_at-append, byte_at-append_second}
use goindustrial.Modbus.Protocol.{
  DeviceIdObject, DeviceIdentification, parse_objects, parse_read_device_identification_response,
}

-- The bytes of the objects.
abbrev pub object_bytes : List DeviceIdObject → List ℕ
object_bytes [] = []
object_bytes (o ∷ objects) = o.id ∷ o.size ∷ (o.value ++ object_bytes objects)

-- The length byte is the length.
abbrev pub Sized : DeviceIdObject → Type 0
Sized o = o.size ≡ length o.value

object_value :
    (pre value tail : List ℕ) (id size offset : ℕ)
    → size ≡ length value
    → offset ≡ length pre
    → take size (drop (offset + 2) (pre ++ id ∷ size ∷ (value ++ tail))) ≡ value
object_value pre value tail id size offset sized h =
    let front = pre ++ id ∷ size ∷ [] in
    let place : offset + 2 ≡ length front = omega (arith, length-append pre (id ∷ size ∷ [])) in
    let dropped : drop (offset + 2) (pre ++ id ∷ size ∷ (value ++ tail)) ≡ value ++ tail =
      ap (λ n. drop n (pre ++ id ∷ size ∷ (value ++ tail))) place
      ∙ ap (drop (length front)) (sym (append_assoc pre (id ∷ size ∷ []) (value ++ tail)))
      ∙ drop-append front (value ++ tail) in
    rw dropped (ap (λ n. take n (value ++ tail)) sized ∙ take-append value tail)

parse_objects-object_bytes :
    (pre : List ℕ) (objects : List DeviceIdObject) (offset : ℕ)
    → All Sized objects
    → offset ≡ length pre
    → parse_objects (pre ++ object_bytes objects) offset (length objects) ≡ ok objects
unfolding parse_objects
parse_objects-object_bytes pre [] offset sized h = refl
parse_objects-object_bytes pre (o ∷ objects) offset (sized, more) h =
    let tail = object_bytes objects in
    let bytes = pre ++ o.id ∷ o.size ∷ (o.value ++ tail) in
    let all : length bytes ≡ length pre + 2 + o.size + length tail =
      omega (
        arith,
        length-append pre (o.id ∷ o.size ∷ (o.value ++ tail)),
        length-append o.value tail,
      ) in
    let first : leb (offset + 2) (length bytes) ≡ true = ground arith in
    let second : leb (offset + 2 + o.size) (length bytes) ≡ true = ground arith in
    let others =
      subst (λ l. parse_objects l (offset + 2 + o.size) (length objects) ≡ ok objects)
        (append_assoc pre (o.id ∷ o.size ∷ o.value) tail)
        (parse_objects-object_bytes (pre ++ o.id ∷ o.size ∷ o.value) objects (offset + 2 + o.size)
          more (omega (arith, length-append pre (o.id ∷ o.size ∷ o.value)))) in
    rw (
      first,
      byte_at-append pre (o.size ∷ (o.value ++ tail)) o.id offset h,
      byte_at-append_second pre (o.value ++ tail) o.id o.size (offset + 1) (omega arith),
      second,
      others,
      object_value pre o.value tail o.id o.size offset sized h,
    )

-- The whole response.
pub parse_response-object_bytes :
    (d : DeviceIdentification)
    → All Sized d.objects
    → d.number_of_objects ≡ length d.objects
    → parse_read_device_identification_response (
        0x0E
        ∷ d.read_device_id_code
        ∷ d.conformity_level
        ∷ d.more_follows
        ∷ d.next_object_id
        ∷ d.number_of_objects
        ∷ object_bytes d.objects)
      ≡ ok d
unfolding parse_read_device_identification_response
parse_response-object_bytes d sized count =
    let header =
      0x0E ∷ d.read_device_id_code ∷ d.conformity_level ∷ d.more_follows ∷ d.next_object_id
      ∷ d.number_of_objects ∷ [] in
    let read =
      subst (λ n. parse_objects (header ++ object_bytes d.objects) 6 n ≡ ok d.objects) (sym count)
        (parse_objects-object_bytes header d.objects 6 sized refl) in
    let long : leb 6 (length (header ++ object_bytes d.objects)) ≡ true = ground arith in
    rw (long, read)
