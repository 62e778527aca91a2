-- ===== src/EthernetIp/Cip/Message.antt =====
-- cip/message.go: requests and responses of the Message Router. A reader is the bytes that are left;
-- `Read` of a `bytes.Reader` is an `io.EOF` at the end of the input, and else fills as much of the
-- slice as there is. Writes to a buffer do not fail.
pub mod Codec
use goindustrial.Base.{
  ℕ, zero, suc, ◌+◌, ◌-◌, ◌*◌, ◌==◌, if◌then◌else◌, List, [], ◌∷◌, ◌++◌, Bool, Option, none, some,
  length, take, drop,
}
use goindustrial.Base.{Go, Error, ok, err, io_eof, cip_error, ◌>>=◌}
use goindustrial.Base.Bytes.{make_bytes}
use goindustrial.Base.Bytes.Reader.{Read, read_u8, read_le16, le16}
use goindustrial.EthernetIp.Cip.Path.{len_words}

abbrev pub status_success : ℕ
status_success = 0

abbrev pub status_connection_failure : ℕ
status_connection_failure = 1

abbrev pub status_path_segment_error : ℕ
status_path_segment_error = 4

abbrev pub status_service_not_supported : ℕ
status_service_not_supported = 8

abbrev pub status_object_does_not_exist : ℕ
status_object_does_not_exist = 22

pub record MessageRouterRequest : Type 0 where
  pub service : ℕ
  pub request_path : List ℕ
  pub request_data : List ℕ

unfoldable pub request_encode : MessageRouterRequest → List ℕ
request_encode r = r.service ∷ len_words r.request_path ∷ (r.request_path ++ r.request_data)

-- `buf.Read` into a new slice of n bytes
unfoldable pub read_some : ℕ → List ℕ → Read (List ℕ)
read_some n [] = err io_eof
read_some n (b ∷ bytes) =
    let found = take n (b ∷ bytes) in
    ok (found ++ make_bytes (n - length found), drop n (b ∷ bytes))

-- `DecodeMessageRouterRequest`
unfoldable pub decode_message_router_request : List ℕ → Go MessageRouterRequest
unfolding read_some
decode_message_router_request bytes = do
  (service, bytes) ← read_u8 bytes
  (path_size_words, bytes) ← read_u8 bytes
  (path, bytes) ← read_some (path_size_words * 2) bytes
  ok (record { service = service; request_path = path; request_data = bytes })

pub record MessageRouterResponse : Type 0 where
  pub service : ℕ
  pub reserved : ℕ
  pub general_status : ℕ
  pub ext_status_size : ℕ
  pub ext_status : List ℕ
  pub response_data : List ℕ

-- The loop over the extended status
unfoldable pub encode_words : List ℕ → List ℕ → List ℕ
encode_words [] rest = rest
encode_words (v ∷ vs) rest = le16 v (encode_words vs rest)

unfoldable pub response_encode : MessageRouterResponse → List ℕ
unfolding encode_words
response_encode r =
    r.service
    ∷ r.reserved
    ∷ r.general_status
    ∷ r.ext_status_size
    ∷ encode_words r.ext_status r.response_data

unfoldable pub read_words : ℕ → List ℕ → Read (List ℕ)
read_words zero bytes = ok ([], bytes)
read_words (suc n) bytes = do
  (v, bytes) ← read_le16 bytes
  (vs, bytes) ← read_words n bytes
  ok (v ∷ vs, bytes)

-- `DecodeMessageRouterResponse`
unfoldable pub decode_message_router_response : List ℕ → Go MessageRouterResponse
unfolding read_words
decode_message_router_response bytes = do
  (service, bytes) ← read_u8 bytes
  (reserved, bytes) ← read_u8 bytes
  (general_status, bytes) ← read_u8 bytes
  (ext_status_size, bytes) ← read_u8 bytes
  (ext_status, bytes) ← read_words ext_status_size bytes
  ok (record {
    service = service;
    reserved = reserved;
    general_status = general_status;
    ext_status_size = ext_status_size;
    ext_status = ext_status;
    response_data = bytes;
  })

unfoldable pub is_success : MessageRouterResponse → Bool
is_success r = r.general_status == status_success

-- `Error`, of a response
unfoldable pub response_error : MessageRouterResponse → Option Error
unfolding is_success
response_error r = if is_success r then none else some (cip_error r.general_status r.ext_status)
