-- ===== src/EthernetIp/Objects/Assembly.antt =====
-- objects/assembly/assembly.go: assemblies of bytes, read and written through their attribute 3. A
-- method holds the lock throughout and is one step. The buffer of an instance is a value here; the
-- source keeps the caller's slice and writes to it in place.
pub mod Exchange
use goindustrial.Base.{
  ℕ, ◌+◌, ◌*◌, ◌==◌, not, if◌then◌else◌, List, [], ◌∷◌, Option, none, some, length,
}
use goindustrial.Base.{Go, Error, ok, err, panic, cip_error}
use goindustrial.Base.Stateful.{Exec}
use goindustrial.EthernetIp.Cip.Message.{
  status_path_segment_error, status_service_not_supported, status_object_does_not_exist,
}

abbrev pub status_attribute_not_supported : ℕ
status_attribute_not_supported = 20

abbrev pub status_invalid_attribute_value : ℕ
status_invalid_attribute_value = 9

abbrev pub service_get_attribute_single : ℕ
service_get_attribute_single = 14

abbrev pub service_set_attribute_single : ℕ
service_set_attribute_single = 16

pub record AssemblyInstance : Type 0 where
  pub id : ℕ
  pub bytes : List ℕ

pub record AssemblyObject : Type 0 where
  pub instances : ℕ → Option AssemblyInstance

unfoldable pub new_assembly_object : AssemblyObject
new_assembly_object = record { instances = λ i. none }

unfoldable pub get_instance : ℕ → AssemblyObject → Option AssemblyInstance
get_instance instance_id ao = ao.instances instance_id

-- `instances[id] = …`
unfoldable pub store_instance : ℕ → AssemblyInstance → AssemblyObject → AssemblyObject
store_instance instance_id instance_ ao = record {
  instances = λ i. if i == instance_id then some instance_ else ao.instances i;
}

unfoldable pub register_assembly : ℕ → List ℕ → AssemblyObject → AssemblyObject
unfolding store_instance
register_assembly instance_id bytes ao =
    store_instance instance_id (record { id = instance_id; bytes = bytes }) ao

unfoldable pub get_attribute : Option AssemblyInstance → ℕ → Go (List ℕ)
get_attribute none attr_id = err (cip_error status_object_does_not_exist [])
get_attribute (some instance_) attr_id =
    if attr_id == 3 then ok instance_.bytes else err (cip_error status_attribute_not_supported [])

unfoldable pub get_attribute_single : ℕ → ℕ → AssemblyObject → Go (List ℕ)
unfolding get_attribute
get_attribute_single instance_id attr_id ao = get_attribute (ao.instances instance_id) attr_id

unfoldable pub set_attribute :
    ℕ → Option AssemblyInstance → ℕ → List ℕ → Exec AssemblyObject (Unit {0})
unfolding store_instance
set_attribute instance_id none attr_id bytes ao =
    (ao, err (cip_error status_object_does_not_exist []))
set_attribute instance_id (some instance_) attr_id bytes ao =
    if attr_id == 3
    then (if length bytes == length instance_.bytes
        then (store_instance instance_id (record instance_ { bytes = bytes }) ao, ok tt)
        else (ao, err (cip_error status_invalid_attribute_value [])))
    else (ao, err (cip_error status_attribute_not_supported []))

unfoldable pub set_attribute_single : ℕ → ℕ → List ℕ → Exec AssemblyObject (Unit {0})
unfolding set_attribute
set_attribute_single instance_id attr_id bytes ao =
    set_attribute instance_id (ao.instances instance_id) attr_id bytes ao

-- The instance segment at the front of the path, and the rest
unfoldable pub read_instance : List ℕ → Option (ℕ × List ℕ)
read_instance [] = none
read_instance (seg_type ∷ path) =
    if seg_type == 36
    then elim path [ [] ↦ none | id ∷ rest ↦ some (id, rest) ]
    else if seg_type == 37
    then elim path [ pad ∷ lo ∷ hi ∷ rest ↦ some (lo + hi * 256, rest) | _ ↦ none ]
    else none

-- The attribute, or 0 where no attribute segment follows
unfoldable pub read_attribute : List ℕ → Option ℕ
read_attribute [] = some 0
read_attribute (seg_type ∷ path) =
    if seg_type == 48
    then elim path [ [] ↦ none | id ∷ rest ↦ some id ]
    else if seg_type == 49
    then elim path [ pad ∷ lo ∷ hi ∷ rest ↦ some (lo + hi * 256) | _ ↦ none ]
    else some 0

-- A method that gives no data back
unfoldable pub without_data : AssemblyObject × Go (Unit {0}) → AssemblyObject × Go (List ℕ)
without_data (ao, ok done) = (ao, ok [])
without_data (ao, err e) = (ao, err e)
without_data (ao, panic) = (ao, panic)

-- The switch on the service
unfoldable pub serve_attribute : ℕ → ℕ → ℕ → List ℕ → Exec AssemblyObject (List ℕ)
unfolding get_attribute_single set_attribute_single without_data
serve_attribute service instance_id attr_id bytes ao =
    if service == service_get_attribute_single
    then (if attr_id == 0
        then (ao, err (cip_error status_path_segment_error []))
        else (ao, get_attribute_single instance_id attr_id ao))
    else if service == service_set_attribute_single
    then (if attr_id == 0
        then (ao, err (cip_error status_path_segment_error []))
        else without_data (set_attribute_single instance_id attr_id bytes ao))
    else (ao, err (cip_error status_service_not_supported []))

unfoldable pub serve_instance : ℕ → ℕ → Option ℕ → List ℕ → Exec AssemblyObject (List ℕ)
unfolding serve_attribute
serve_instance service instance_id none bytes ao =
    (ao, err (cip_error status_path_segment_error []))
serve_instance service instance_id (some attr_id) bytes ao =
    serve_attribute service instance_id attr_id bytes ao

unfoldable pub serve_path : ℕ → Option (ℕ × List ℕ) → List ℕ → Exec AssemblyObject (List ℕ)
unfolding serve_instance read_attribute
serve_path service none bytes ao = (ao, err (cip_error status_path_segment_error []))
serve_path service (some (instance_id, path)) bytes ao =
    serve_instance service instance_id (read_attribute path) bytes ao

-- `HandleRequest`
unfoldable pub handle_request : ℕ → List ℕ → List ℕ → Exec AssemblyObject (List ℕ)
unfolding serve_path read_instance
handle_request service path bytes ao = serve_path service (read_instance path) bytes ao
