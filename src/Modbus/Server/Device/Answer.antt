-- ===== src/Modbus/Server/Device/Answer.antt =====
-- The client reads back the identification that the server wrote.
use goindustrial.Base.{
  ℕ, zero, suc, ◌+◌, ◌≤◌, ◌≡◌, refl, sym, ◌∙◌, ap, List, [], ◌∷◌, ◌++◌, true, leb, ◌==◌, Bool-cases,
  inl, inr, length, length-append, append_assoc, Option, none, some, arith, All,
}
use mathlib.Core.Path.{subst₂}
use goindustrial.Base.{ok, ◌>>=◌}
use goindustrial.Base.Bytes.{make_bytes}
use goindustrial.Base.Bytes.Access.{store_at-append, store_at-append_second}
use goindustrial.Modbus.Protocol.{
  DeviceIdObject, DeviceIdentification, parse_read_device_identification_response,
}
use goindustrial.Modbus.Protocol.Device.{Sized, object_bytes, parse_response-object_bytes}
use goindustrial.Modbus.Server.Answers.{Answered, answered, refused}
use goindustrial.Modbus.Frame.{Mbap, Request}
use goindustrial.Modbus.Server.{respond}
use goindustrial.Modbus.Server.Reads.{request}
use goindustrial.Modbus.Server.Device.{
  device_identification, add_object, object_values, collect_objects, objects_to_include,
  objects_size, copy_at, write_objects, encode_device_identification, identification_payload,
  handle_read_device_identification,
}

replicate_add : (m n : ℕ) → make_bytes (m + n) ≡ make_bytes m ++ make_bytes n
replicate_add zero n = ap make_bytes (omega arith)
replicate_add (suc m) n =
    ap make_bytes {x = suc m + n} {y = suc (m + n)} (omega arith)
    ∙ ap (λ t. 0 ∷ t) (replicate_add m n)

copy_at-fresh :
    (pre value rest : List ℕ) (offset : ℕ)
    → offset ≡ length pre
    → copy_at (pre ++ (make_bytes (length value) ++ rest)) offset value
      ≡ ok (pre ++ (value ++ rest))
unfolding copy_at
copy_at-fresh pre [] rest offset h = refl
copy_at-fresh pre (b ∷ value) rest offset h =
    rw (store_at-append pre (make_bytes (length value) ++ rest) 0 b offset h) (
      subst₂ (λ l m. copy_at l (offset + 1) value ≡ ok m)
        (append_assoc pre (b ∷ []) (make_bytes (length value) ++ rest))
        (append_assoc pre (b ∷ []) (value ++ rest))
        (copy_at-fresh (pre ++ b ∷ []) value rest (offset + 1)
          (omega (arith, length-append pre (b ∷ [])))))

fresh_object :
    (o : DeviceIdObject) (objects : List DeviceIdObject)
    → Sized o
    → make_bytes (objects_size (o ∷ objects))
      ≡ 0 ∷ 0 ∷ (make_bytes (length o.value) ++ make_bytes (objects_size objects))
unfolding objects_size
fresh_object o objects sized =
    ap make_bytes {x = 2 + o.size + objects_size objects}
      {y = suc (suc (length o.value + objects_size objects))} (omega arith)
    ∙ ap (λ t. 0 ∷ 0 ∷ t) (replicate_add (length o.value) (objects_size objects))

-- One object, behind what has been written.
write_object :
    (pre rest : List ℕ) (o : DeviceIdObject) (objects : List DeviceIdObject) (offset : ℕ)
    → offset ≡ length pre
    → write_objects (pre ++ 0 ∷ 0 ∷ (make_bytes (length o.value) ++ rest)) offset (o ∷ objects)
      ≡ write_objects ((pre ++ o.id ∷ o.size ∷ o.value) ++ rest) (offset + 2 + o.size) objects
unfolding write_objects
write_object pre rest o objects offset h =
    let zeros = make_bytes (length o.value) in
    let copied =
      subst₂ (λ l m. copy_at l (offset + 2) o.value ≡ ok m)
        (append_assoc pre (o.id ∷ o.size ∷ []) (zeros ++ rest))
        (append_assoc pre (o.id ∷ o.size ∷ []) (o.value ++ rest)
          ∙ sym (append_assoc pre (o.id ∷ o.size ∷ o.value) rest))
        (copy_at-fresh (pre ++ o.id ∷ o.size ∷ []) o.value rest (offset + 2)
          (omega (arith, length-append pre (o.id ∷ o.size ∷ [])))) in
    rw (
      store_at-append pre (0 ∷ (zeros ++ rest)) 0 o.id offset h,
      store_at-append_second pre (zeros ++ rest) o.id 0 o.size (offset + 1) (omega arith),
      copied,
    )

write_objects-fresh :
    (pre : List ℕ) (objects : List DeviceIdObject) (offset : ℕ)
    → All Sized objects
    → offset ≡ length pre
    → write_objects (pre ++ make_bytes (objects_size objects)) offset objects
      ≡ ok (pre ++ object_bytes objects)
write_objects-fresh pre [] offset sized h = unfold write_objects objects_size in refl
write_objects-fresh pre (o ∷ objects) offset (sized, more) h =
    let written = pre ++ o.id ∷ o.size ∷ o.value in
    rw (fresh_object o objects sized) (
      write_object pre (make_bytes (objects_size objects)) o objects offset h
      ∙ write_objects-fresh written objects (offset + 2 + o.size) more
          (omega (arith, length-append pre (o.id ∷ o.size ∷ o.value)))
      ∙ ap ok (append_assoc pre (o.id ∷ o.size ∷ o.value) (object_bytes objects)))

add_object-Sized :
    (id : ℕ) (objects : List DeviceIdObject)
    → All Sized objects
    → All Sized (add_object id (object_values id) objects)
unfolding add_object object_values
add_object-Sized id objects h = ground arith

collect_objects-Sized : (ids : List ℕ) → All Sized (collect_objects ids)
unfolding collect_objects
collect_objects-Sized [] = tt
collect_objects-Sized (id ∷ ids) =
    add_object-Sized id (collect_objects ids) (collect_objects-Sized ids)

length-add_object :
    (id : ℕ) (value : Option (List ℕ)) (objects : List DeviceIdObject)
    → length (add_object id value objects) ≤ length objects + 1
unfolding add_object
length-add_object id none objects = omega arith
length-add_object id (some value) objects = omega arith

length-collect_objects : (ids : List ℕ) → length (collect_objects ids) ≤ length ids
unfolding collect_objects
length-collect_objects [] = omega arith
length-collect_objects (id ∷ ids) = omega (
  arith,
  length-add_object id (object_values id) (collect_objects ids),
  length-collect_objects ids,
)

length-objects_to_include : (code object_id : ℕ) → length (objects_to_include code object_id) ≤ 8
unfolding objects_to_include
length-objects_to_include code object_id = ground arith

device_identification-Sized :
    (code object_id : ℕ) → All Sized (device_identification code object_id).objects
unfolding device_identification
device_identification-Sized code object_id =
    collect_objects-Sized (objects_to_include code object_id)

number_of_objects :
    (code object_id : ℕ)
    → (device_identification code object_id).number_of_objects
      ≡ length (device_identification code object_id).objects
unfolding device_identification
number_of_objects code object_id = omega (
  arith,
  length-collect_objects (objects_to_include code object_id),
  length-objects_to_include code object_id,
)

encode_device_identification-eq :
    (d : DeviceIdentification)
    → All Sized d.objects
    → encode_device_identification d
      ≡ ok (
          0x0E
          ∷ d.read_device_id_code
          ∷ d.conformity_level
          ∷ d.more_follows
          ∷ d.next_object_id
          ∷ d.number_of_objects
          ∷ object_bytes d.objects)
unfolding encode_device_identification
encode_device_identification-eq d sized =
    let header =
      0x0E ∷ d.read_device_id_code ∷ d.conformity_level ∷ d.more_follows ∷ d.next_object_id
      ∷ d.number_of_objects ∷ [] in
    rw (replicate_add 6 (objects_size d.objects), write_objects-fresh header d.objects 6 sized refl)

-- The bytes of the answer.
abbrev pub identification_bytes : DeviceIdentification → List ℕ
identification_bytes d =
    0x0E
    ∷ d.read_device_id_code
    ∷ d.conformity_level
    ∷ d.more_follows
    ∷ d.next_object_id
    ∷ d.number_of_objects
    ∷ object_bytes d.objects

module _ {S : Type 0} (m : Mbap) (function_code code object_id : ℕ) (tail : List ℕ) (s : S) where
  pub handle_read_device_identification-eq :
      let req = request m function_code (0x0E ∷ code ∷ object_id ∷ tail) in
      handle_read_device_identification req s
      ≡ (s, ok (respond req (identification_bytes (device_identification code object_id))))
  unfolding handle_read_device_identification
  handle_read_device_identification-eq =
      let long : leb 3 (suc (suc (suc (length tail)))) ≡ true = ground arith in
      rw (
        long,
        encode_device_identification-eq (device_identification code object_id)
            (device_identification-Sized code object_id),
      )

-- The client's parser gives back the identification that the server has for the codes.
pub parse_response-identification_bytes :
    (code object_id : ℕ)
    → parse_read_device_identification_response
        (identification_bytes (device_identification code object_id))
      ≡ ok (device_identification code object_id)
parse_response-identification_bytes code object_id =
    parse_response-object_bytes (device_identification code object_id)
      (device_identification-Sized code object_id) (number_of_objects code object_id)

length-add_object_bytes :
    (id : ℕ) (objects : List DeviceIdObject)
    → length (object_bytes (add_object id (object_values id) objects))
      ≤ 42 + length (object_bytes objects)
unfolding add_object object_values
length-add_object_bytes id objects = ground arith

-- The lists that name no object of the request.
stream_bytes :
    (length (object_bytes (collect_objects (0 ∷ 1 ∷ 2 ∷ []))) ≤ 246)
    × (length (object_bytes (collect_objects (0 ∷ 1 ∷ 2 ∷ 3 ∷ 4 ∷ 5 ∷ 6 ∷ []))) ≤ 246)
    × (length (object_bytes (collect_objects (0 ∷ 1 ∷ 2 ∷ 3 ∷ 4 ∷ 5 ∷ 6 ∷ 0x80 ∷ []))) ≤ 246)
unfolding collect_objects
stream_bytes = omega arith

single_bytes : (id : ℕ) → length (object_bytes (collect_objects (id ∷ []))) ≤ 246
unfolding collect_objects
single_bytes id = omega (arith, length-add_object_bytes id [])

pub object_bytes-short :
    (code object_id : ℕ)
    → length (object_bytes (device_identification code object_id).objects) ≤ 246
unfolding device_identification objects_to_include
object_bytes-short code object_id = ground (arith, stream_bytes, single_bytes object_id)

payload-Answered :
    (req : Request) (payload : List ℕ)
    → payload ≡ req.pdu.payload
    → Answered req (identification_payload req >>= λ bytes. ok (respond req bytes))
unfolding identification_payload
payload-Answered req [] e = rw (← e) (refused 3)
payload-Answered req (a ∷ []) e = rw (← e) (refused 3)
payload-Answered req (a ∷ b ∷ []) e = rw (← e) (refused 3)
payload-Answered req (mei ∷ code ∷ object_id ∷ tail) e =
    let d = device_identification code object_id in
    let long : leb 3 (suc (suc (suc (length tail)))) ≡ true = ground arith in
    elim (Bool-cases (mei == 0x0E)) [
      | inl right ↦
          rw
            (
              ← e,
              long,
              right,
              encode_device_identification-eq d (device_identification-Sized code object_id),
            )
            (answered (identification_bytes d) (omega (arith, object_bytes-short code object_id)))
      | inr wrong ↦ rw (← e, long, wrong) (refused 3)
    ]

-- The handler answers every request.
pub handle_read_device_identification-Answered :
    {S : Type 0} (req : Request) (s : S) → Answered req (handle_read_device_identification req s).1
unfolding handle_read_device_identification
handle_read_device_identification-Answered req s = payload-Answered req req.pdu.payload refl
