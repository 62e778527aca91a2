-- ===== src/EthernetIp/Cip/Router.antt =====
-- cip/router.go: the Message Router. An object is its `HandleRequest`, which changes the state W; the
-- registry is a function of the class. The locks only guard the registry.
pub mod Dispatch
use goindustrial.Base.{
  ℕ, ◌+◌, ◌*◌, ◌==◌, if◌then◌else◌, List, [], ◌∷◌, Option, none, some, length, bit_or,
}
use goindustrial.Base.{Go, Error, ok, err, panic, cip_error}
use goindustrial.Base.Bytes.{u8}
use goindustrial.Base.Stateful.{Exec}
use goindustrial.EthernetIp.Cip.Message.{
  MessageRouterRequest, MessageRouterResponse, status_success, status_path_segment_error,
  status_service_not_supported, status_object_does_not_exist,
}

-- `Object`: service, path, data
abbrev pub Object : Type 0 → Type 0
Object W = ℕ → List ℕ → List ℕ → Exec W (List ℕ)

pub record MessageRouter (W : Type 0) : Type 0 where
  pub objects : ℕ → Option (Object W)
  pub symbolic_handler : Option (Object W)

-- A response without an extended status
unfoldable pub plain_response : ℕ → ℕ → List ℕ → MessageRouterResponse
plain_response service general_status response_data = record {
  service = bit_or service 128;
  reserved = 0;
  general_status = general_status;
  ext_status_size = 0;
  ext_status = [];
  response_data = response_data;
}

-- The response to an error of a handler, which may be a `cip.Error`
unfoldable pub error_response : ℕ → Error → MessageRouterResponse
unfolding plain_response
error_response service (cip_error status ext_status) = record {
  service = bit_or service 128;
  reserved = 0;
  general_status = status;
  ext_status_size = u8 (length ext_status);
  ext_status = ext_status;
  response_data = [];
}
error_response service _ = plain_response service status_service_not_supported []

module _ {W : Type 0} where
  unfoldable pub new_message_router : MessageRouter W
  new_message_router = record { objects = λ c. none; symbolic_handler = none }

  unfoldable pub register_object : ℕ → Object W → MessageRouter W → MessageRouter W
  register_object class_id obj mr = record mr {
    objects = λ c. if c == class_id then some obj else mr.objects c;
  }

  unfoldable pub register_symbolic_handler : Object W → MessageRouter W → MessageRouter W
  register_symbolic_handler obj mr = record mr { symbolic_handler = some obj }

  -- What `Dispatch` makes of a handler's result
  unfoldable pub after_handler : ℕ → W × Go (List ℕ) → W × Go MessageRouterResponse
  unfolding error_response
  after_handler service (w, ok response_data) =
      (w, ok (plain_response service status_success response_data))
  after_handler service (w, err e) = (w, ok (error_response service e))
  after_handler service (w, panic) = (w, panic)

  abbrev pub path_segment_error : Exec W MessageRouterResponse
  path_segment_error w = (w, err (cip_error status_path_segment_error []))

  -- The end of `Dispatch`, with the class and the rest of the path
  unfoldable pub dispatch_class :
      Option (Object W) → ℕ → List ℕ → List ℕ → Exec W MessageRouterResponse
  unfolding after_handler
  dispatch_class none service path request_data w =
      (w, ok (plain_response service status_object_does_not_exist []))
  dispatch_class (some obj) service path request_data w =
      after_handler service (obj service path request_data w)

  -- The case of a symbolic segment, which keeps the whole path
  unfoldable pub dispatch_symbolic :
      Option (Object W) → ℕ → List ℕ → List ℕ → Exec W MessageRouterResponse
  unfolding after_handler
  dispatch_symbolic none service path request_data w = path_segment_error w
  dispatch_symbolic (some handler) service path request_data w =
      after_handler service (handler service path request_data w)

  unfoldable pub dispatch_8_bit :
      MessageRouter W → List ℕ → ℕ → List ℕ → Exec W MessageRouterResponse
  unfolding dispatch_class
  dispatch_8_bit mr (class_id ∷ path) service request_data w =
      dispatch_class (mr.objects class_id) service path request_data w
  dispatch_8_bit mr [] service request_data w = path_segment_error w

  unfoldable pub dispatch_16_bit :
      MessageRouter W → List ℕ → ℕ → List ℕ → Exec W MessageRouterResponse
  unfolding dispatch_class
  dispatch_16_bit mr (pad ∷ lo ∷ hi ∷ path) service request_data w =
      dispatch_class (mr.objects (lo + hi * 256)) service path request_data w
  dispatch_16_bit mr _ service request_data w = path_segment_error w

  -- The switch on the first byte of the path
  unfoldable pub dispatch_path :
      MessageRouter W → List ℕ → ℕ → List ℕ → Exec W MessageRouterResponse
  unfolding dispatch_symbolic dispatch_8_bit dispatch_16_bit
  dispatch_path mr [] service request_data w = path_segment_error w
  dispatch_path mr (first ∷ path) service request_data w =
      if first == 32
      then dispatch_8_bit mr path service request_data w
      else if first == 33
      then dispatch_16_bit mr path service request_data w
      else if first == 145
      then dispatch_symbolic mr.symbolic_handler service (first ∷ path) request_data w
      else path_segment_error w

  unfoldable pub dispatch : MessageRouter W → MessageRouterRequest → Exec W MessageRouterResponse
  unfolding dispatch_path
  dispatch mr request w =
      dispatch_path mr request.request_path request.service request.request_data w
