-- ===== src/EthernetIp/Cip/Router/Dispatch.antt =====
-- Where a request goes, and what comes back.
use goindustrial.Base.{
  ℕ, ◌+◌, ◌*◌, ◌<◌, ◌==◌, leb, ==_self, ◌≡◌, ◌≢◌, refl, ap, ◌∙◌, inl, inr, Bool-cases, List, [],
  ◌∷◌, ◌++◌, Option, none, some, length, bit_or, arith,
}
use goindustrial.Base.{Go, Error, ok, err, panic, cip_error}
use goindustrial.Base.Bytes.{u8}
use goindustrial.Base.Bytes.Reader.{join_le16}
use goindustrial.EthernetIp.Cip.Path.{add_logical, add_class}
use goindustrial.EthernetIp.Cip.Path.Segments.{Call, class_call, add_calls, add_calls-append}
use goindustrial.EthernetIp.Cip.Message.{
  MessageRouterRequest, MessageRouterResponse, status_path_segment_error,
}
use goindustrial.EthernetIp.Cip.Router.{
  Object, MessageRouter, plain_response, error_response, register_object, after_handler,
  dispatch_class, dispatch_symbolic, dispatch_8_bit, dispatch_16_bit, dispatch_path, dispatch,
}

module _ {W : Type 0} (mr : MessageRouter W) where
  dispatch_path-add_class :
      (class_id service : ℕ) (path request_data : List ℕ) (w : W)
      → class_id < 65536
      → dispatch_path mr (add_class [] class_id ++ path) service request_data w
        ≡ dispatch_class (mr.objects class_id) service path request_data w
  unfolding add_class add_logical dispatch_path dispatch_8_bit dispatch_16_bit
  dispatch_path-add_class class_id service path request_data w h =
      elim (Bool-cases (leb class_id 255)) [
        | inl e ↦ let byte : u8 class_id ≡ class_id = ground arith in rw (add_logical, e, byte) refl
        | inr e ↦ rw (add_logical, e, join_le16 class_id h) refl
      ]

module _ {W : Type 0} where
  -- A request whose path starts with the segment of a 16-bit class goes to the object that was
  -- registered last for that class, with the rest of the path and the data, and is answered by what
  -- the object gives back.
  pub dispatch-register_object :
      (mr : MessageRouter W) (obj : Object W) (class_id service : ℕ) (calls : List Call)
      (request_data : List ℕ) (w : W)
      → class_id < 65536
      → dispatch
          (register_object class_id obj mr)
          (record {
            service = service;
            request_path = add_calls [] (class_call class_id ∷ calls);
            request_data = request_data;
          })
          w
        ≡ after_handler service (obj service (add_calls [] calls) request_data w)
  unfolding dispatch register_object dispatch_class
  dispatch-register_object mr obj class_id service calls request_data w h =
      ap (λ path. dispatch_path (register_object class_id obj mr) path service request_data w)
        (add_calls-append (add_class [] class_id) calls)
      ∙ dispatch_path-add_class (register_object class_id obj mr) class_id service _ request_data w
          h
      ∙ rw (==_self class_id) refl

  -- An answer to a request of this service: a response with the reply bit whose size of the extended
  -- status is right, or the error of a path that leads nowhere, without any effect.
  abbrev pub IsAnswer : ℕ → W → W × Go MessageRouterResponse → Type 0
  IsAnswer service w (w', ok r) =
      (r.service ≡ bit_or service 128)
      × (r.reserved ≡ 0)
      × (r.ext_status_size ≡ u8 (length r.ext_status))
  IsAnswer service w (w', err e) = (e ≡ cip_error status_path_segment_error []) × (w' ≡ w)
  IsAnswer service w (w', panic) = ⊥

  abbrev pub IsCalm : Object W → Type 0
  IsCalm obj =
      (service : ℕ) (path request_data : List ℕ) (w : W)
      → (obj service path request_data w).1 ≢ panic

  -- The objects of the router do not panic.
  pub record IsCalmRouter (mr : MessageRouter W) : Type 0 where
    pub objects_calm : (c : ℕ) (obj : Object W) → mr.objects c ≡ some obj → IsCalm obj
    pub symbolic_calm : (obj : Object W) → mr.symbolic_handler ≡ some obj → IsCalm obj

  error_response-reply :
      (service : ℕ) (w w' : W) (e : Error) → IsAnswer service w (w', ok (error_response service e))
  unfolding error_response plain_response
  error_response-reply service w w' (cip_error status ext_status) = (refl, refl, refl)
  error_response-reply service w w' e = (refl, refl, refl)

  after_handler-IsAnswer :
      (service : ℕ) (w w' : W) (r : Go (List ℕ))
      → r ≢ panic
      → IsAnswer service w (after_handler service (w', r))
  unfolding after_handler plain_response
  after_handler-IsAnswer service w w' (ok response_data) calm = (refl, refl, refl)
  after_handler-IsAnswer service w w' (err e) calm = error_response-reply service w w' e
  after_handler-IsAnswer service w w' panic calm = absurd (calm refl)

  dispatch_class-IsAnswer :
      (found : Option (Object W)) (service : ℕ) (path request_data : List ℕ) (w : W)
      → ((obj : Object W) → found ≡ some obj → IsCalm obj)
      → IsAnswer service w (dispatch_class found service path request_data w)
  unfolding dispatch_class plain_response
  dispatch_class-IsAnswer none service path request_data w calm = (refl, refl, refl)
  dispatch_class-IsAnswer (some obj) service path request_data w calm =
      after_handler-IsAnswer service w _ _ (calm obj refl service path request_data w)

  dispatch_symbolic-IsAnswer :
      (found : Option (Object W)) (service : ℕ) (path request_data : List ℕ) (w : W)
      → ((obj : Object W) → found ≡ some obj → IsCalm obj)
      → IsAnswer service w (dispatch_symbolic found service path request_data w)
  unfolding dispatch_symbolic
  dispatch_symbolic-IsAnswer none service path request_data w calm = (refl, refl)
  dispatch_symbolic-IsAnswer (some obj) service path request_data w calm =
      after_handler-IsAnswer service w _ _ (calm obj refl service path request_data w)

  dispatch_8_bit-IsAnswer :
      (mr : MessageRouter W) (path : List ℕ) (service : ℕ) (request_data : List ℕ) (w : W)
      → IsCalmRouter mr
      → IsAnswer service w (dispatch_8_bit mr path service request_data w)
  unfolding dispatch_8_bit
  dispatch_8_bit-IsAnswer mr [] service request_data w calm = (refl, refl)
  dispatch_8_bit-IsAnswer mr (c ∷ path) service request_data w calm =
      dispatch_class-IsAnswer (mr.objects c) service path request_data w (calm.objects_calm c)

  dispatch_16_bit-IsAnswer :
      (mr : MessageRouter W) (path : List ℕ) (service : ℕ) (request_data : List ℕ) (w : W)
      → IsCalmRouter mr
      → IsAnswer service w (dispatch_16_bit mr path service request_data w)
  unfolding dispatch_16_bit
  dispatch_16_bit-IsAnswer mr [] service request_data w calm = (refl, refl)
  dispatch_16_bit-IsAnswer mr (a ∷ []) service request_data w calm = (refl, refl)
  dispatch_16_bit-IsAnswer mr (a ∷ b ∷ []) service request_data w calm = (refl, refl)
  dispatch_16_bit-IsAnswer mr (pad ∷ lo ∷ hi ∷ path) service request_data w calm =
      dispatch_class-IsAnswer (mr.objects (lo + hi * 256)) service path request_data w
        (calm.objects_calm (lo + hi * 256))

  dispatch_path-IsAnswer :
      (mr : MessageRouter W) (path : List ℕ) (service : ℕ) (request_data : List ℕ) (w : W)
      → IsCalmRouter mr
      → IsAnswer service w (dispatch_path mr path service request_data w)
  unfolding dispatch_path
  dispatch_path-IsAnswer mr [] service request_data w calm = (refl, refl)
  dispatch_path-IsAnswer mr (first ∷ path) service request_data w calm =
      elim (Bool-cases (first == 32)) [
        | inl a ↦
            rw (dispatch_path, a) (dispatch_8_bit-IsAnswer mr path service request_data w calm)
        | inr a ↦ elim (Bool-cases (first == 33)) [
          | inl b ↦
              rw (dispatch_path, a, b)
                (dispatch_16_bit-IsAnswer mr path service request_data w calm)
          | inr b ↦ elim (Bool-cases (first == 145)) [
            | inl c ↦
                rw (dispatch_path, a, b, c)
                  (dispatch_symbolic-IsAnswer mr.symbolic_handler service (first ∷ path)
                    request_data w calm.symbolic_calm)
            | inr c ↦ rw (dispatch_path, a, b, c) (refl, refl)
          ]
        ]
      ]

  -- When the objects of a router do not panic, every request is answered by a response with the
  -- reply bit whose size of the extended status is the length of that status as a byte, or by a
  -- path segment error that leaves the state as it was.
  pub dispatch-IsAnswer :
      (mr : MessageRouter W) (request : MessageRouterRequest) (w : W)
      → IsCalmRouter mr
      → IsAnswer request.service w (dispatch mr request w)
  unfolding dispatch
  dispatch-IsAnswer mr request w calm =
      dispatch_path-IsAnswer mr request.request_path request.service request.request_data w calm
