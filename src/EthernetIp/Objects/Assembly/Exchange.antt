-- ===== src/EthernetIp/Objects/Assembly/Exchange.antt =====
-- Reads and writes of an assembly through the router.
use goindustrial.Base.{
  ℕ, ◌<◌, ◌==◌, ==_self, leb, ◌≡◌, ◌≢◌, refl, ap, ◌∙◌, inl, inr, Bool-cases, List, [], ◌∷◌, ◌++◌,
  true, false, some, length, arith,
}
use goindustrial.Base.{ok}
use goindustrial.Base.Bytes.{u8}
use goindustrial.Base.Bytes.Reader.{join_le16}
use goindustrial.EthernetIp.Cip.Path.{add_logical, add_instance, add_attribute, build_path}
use goindustrial.EthernetIp.Cip.Path.Segments.{class_call, instance_call, attribute_call, add_calls}
use goindustrial.EthernetIp.Cip.Message.{MessageRouterRequest}
use goindustrial.EthernetIp.Cip.Router.{
  MessageRouter, plain_response, register_object, after_handler, dispatch,
}
use goindustrial.EthernetIp.Cip.Router.Dispatch.{dispatch-register_object}
use goindustrial.EthernetIp.Objects.Assembly.{
  AssemblyInstance, AssemblyObject, store_instance, get_attribute, get_attribute_single,
  set_attribute, set_attribute_single, read_instance, read_attribute, without_data, serve_attribute,
  serve_instance, serve_path, handle_request,
}

-- The router of a device with assemblies, and a request for the data of one
abbrev pub with_assemblies : MessageRouter AssemblyObject → MessageRouter AssemblyObject
with_assemblies mr = register_object 4 handle_request mr

abbrev pub data_request : ℕ → ℕ → List ℕ → MessageRouterRequest
data_request service instance_id bytes = record {
  service = service;
  request_path = build_path 4 instance_id 3;
  request_data = bytes;
}

abbrev data_calls : ℕ → List ℕ
data_calls i = add_calls [] (instance_call i ∷ attribute_call 3 ∷ [])

build_path-data :
    (i : ℕ)
    → build_path 4 i 3 ≡ add_calls [] (class_call 4 ∷ instance_call i ∷ attribute_call 3 ∷ [])
unfolding build_path
build_path-data i = refl

read_instance-add_instance :
    (i : ℕ) (rest : List ℕ) → i < 65536 → read_instance (add_instance [] i ++ rest) ≡ some (i, rest)
unfolding read_instance add_instance add_logical
read_instance-add_instance i rest h = elim (Bool-cases (leb i 255)) [
  | inl e ↦ let byte : u8 i ≡ i = ground arith in rw (add_logical, e, byte) refl
  | inr e ↦ rw (add_logical, e, join_le16 i h) refl
]

serve_path-data_calls :
    (service i : ℕ) (bytes : List ℕ) (ao : AssemblyObject)
    → i < 65536
    → handle_request service (data_calls i) bytes ao ≡ serve_attribute service i 3 bytes ao
unfolding handle_request serve_path serve_instance read_attribute add_attribute add_logical
serve_path-data_calls service i bytes ao h = rw (read_instance-add_instance i (48 ∷ 3 ∷ []) h) refl

dispatch-data_request :
    (mr : MessageRouter AssemblyObject) (service i : ℕ) (bytes : List ℕ) (ao : AssemblyObject)
    → i < 65536
    → dispatch (with_assemblies mr) (data_request service i bytes) ao
      ≡ after_handler service (serve_attribute service i 3 bytes ao)
dispatch-data_request mr service i bytes ao h =
    ap
      (λ path.
        dispatch (with_assemblies mr)
          (record { service = service; request_path = path; request_data = bytes }) ao)
      (build_path-data i)
    ∙ dispatch-register_object mr handle_request 4 service (instance_call i ∷ attribute_call 3 ∷ [])
        bytes ao (omega arith)
    ∙ ap (after_handler service) (serve_path-data_calls service i bytes ao h)

serve_set :
    (i : ℕ) (bytes : List ℕ) (ao : AssemblyObject) (instance_ : AssemblyInstance)
    → ao.instances i ≡ some instance_
    → length bytes ≡ length instance_.bytes
    → serve_attribute 16 i 3 bytes ao
      ≡ (store_instance i (record instance_ { bytes = bytes }) ao, ok [])
unfolding serve_attribute set_attribute_single set_attribute without_data
serve_set i bytes ao instance_ found fits =
    let same : (length bytes == length instance_.bytes) ≡ true = ground arith in
    rw (found, same) refl

serve_get :
    (i : ℕ) (ao : AssemblyObject) (instance_ : AssemblyInstance)
    → ao.instances i ≡ some instance_
    → serve_attribute 14 i 3 [] ao ≡ (ao, ok instance_.bytes)
unfolding serve_attribute get_attribute_single get_attribute
serve_get i ao instance_ found = rw found refl

stored :
    (i : ℕ) (instance_ : AssemblyInstance) (ao : AssemblyObject)
    → (store_instance i instance_ ao).instances i ≡ some instance_
unfolding store_instance
stored i instance_ ao = rw (==_self i) refl

others_kept :
    (i : ℕ) (instance_ : AssemblyInstance) (ao : AssemblyObject) (j : ℕ)
    → j ≢ i
    → (store_instance i instance_ ao).instances j ≡ ao.instances j
unfolding store_instance
others_kept i instance_ ao j d = let other : (j == i) ≡ false = ground arith in rw other refl

-- Through a router with assemblies, with paths built for a 16-bit instance: setting the data of a
-- registered instance to bytes of its size succeeds, getting it then returns these bytes, and the
-- other instances stay.
pub dispatch-set_get :
    (mr : MessageRouter AssemblyObject) (i : ℕ) (bytes : List ℕ) (ao : AssemblyObject)
    (instance_ : AssemblyInstance)
    → i < 65536
    → ao.instances i ≡ some instance_
    → length bytes ≡ length instance_.bytes
    → let ao' = store_instance i (record instance_ { bytes = bytes }) ao in
      (dispatch (with_assemblies mr) (data_request 16 i bytes) ao
        ≡ (ao', ok (plain_response 16 0 [])))
      × (dispatch (with_assemblies mr) (data_request 14 i []) ao'
          ≡ (ao', ok (plain_response 14 0 bytes)))
      × ((j : ℕ) → j ≢ i → ao'.instances j ≡ ao.instances j)
unfolding after_handler
dispatch-set_get mr i bytes ao instance_ h found fits =
    let changed = record instance_ { bytes = bytes } in
    let ao' = store_instance i changed ao in
    (
      dispatch-data_request mr 16 i bytes ao h
          ∙ ap (after_handler 16) (serve_set i bytes ao instance_ found fits),
      dispatch-data_request mr 14 i [] ao' h
          ∙ ap (after_handler 14) (serve_get i ao' changed (stored i changed ao)),
      others_kept i changed ao,
    )
