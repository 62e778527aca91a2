-- ===== src/Modbus/Frame.antt =====
-- protocol/modbus/mbap.go, pdu.go, request.go and response.go: a Modbus TCP frame is the MBAP header,
-- the function code and the data, big endian. `Request` and `Response` embed the header; the
-- request's creation time is left out. Writes to a `bytes.Buffer` do not fail.
pub mod RoundTrip
use goindustrial.Base.{
  ℕ, suc, zero, ◌+◌, ◌*◌, ◌-◌, ◌<◌, ◌≤◌, List, [], ◌∷◌, ◌++◌, Bool, ◌&&◌, ltb, leb, not, length,
  if◌then◌else◌, Option, none, some,
}
use goindustrial.Base.{Go, Error, ok, err, panic, ◌>>=◌, ◌>>◌, require}
use goindustrial.Base.{
  io_eof, io_unexpected_eof, invalid_request_length, invalid_response_length, modbus_error,
}
use goindustrial.Base.Bytes.{u16, be16, byte_at}
use goindustrial.Base.Bytes.Reader.{read_full, read_u8, read_be16}
use goindustrial.Modbus.Types.{tcp_header_length, tcp_protocol_identifier, is_exception}

pub record Mbap : Type 0 where
  pub transaction_id : ℕ
  pub protocol_id : ℕ
  pub unit_id : ℕ

pub record Pdu : Type 0 where
  pub function_code : ℕ
  pub payload : List ℕ

pub record Request : Type 0 where
  pub mbap : Mbap
  pub pdu : Pdu

pub record Response : Type 0 where
  pub mbap : Mbap
  pub pdu : Pdu

unfoldable pub new_request : ℕ → ℕ → List ℕ → Request
new_request unit_id function_code payload = record {
  mbap = record { transaction_id = 0; protocol_id = tcp_protocol_identifier; unit_id = unit_id };
  pdu = record { function_code = function_code; payload = payload };
}

unfoldable pub set_transaction_id : ℕ → Request → Request
set_transaction_id id r = record r { mbap = record r.mbap { transaction_id = id } }

unfoldable pub new_response : ℕ → ℕ → ℕ → List ℕ → Response
new_response transaction_id unit_id function_code payload = record {
  mbap = record {
    transaction_id = transaction_id;
    protocol_id = tcp_protocol_identifier;
    unit_id = unit_id;
  };
  pdu = record { function_code = function_code; payload = payload };
}

-- `binary.Write` of a 16-bit value to the end of the buffer
write_u16 : List ℕ → ℕ → List ℕ
write_u16 buf v = buf ++ be16 v []

-- `MBAP.Encode`: the length field counts the unit ID and the PDU, in 16 bits
mbap_encode : Mbap → List ℕ → ℕ → List ℕ
unfolding write_u16
mbap_encode m buf pdu_length =
    let buf = write_u16 buf m.transaction_id in
    let buf = write_u16 buf m.protocol_id in
    let buf = write_u16 buf (u16 (1 + pdu_length)) in buf ++ m.unit_id ∷ []

-- `MBAP.Decode` returns the header and the length field
mbap_decode : List ℕ → Go ((Mbap × ℕ) × List ℕ)
unfolding read_u8 read_be16
mbap_decode input = do
  (transaction_id, input) ← read_be16 input
  (protocol_id, input) ← read_be16 input
  (field, input) ← read_be16 input
  (unit_id, input) ← read_u8 input
  ok (
    (
      record { transaction_id = transaction_id; protocol_id = protocol_id; unit_id = unit_id },
      field,
    ),
    input,
  )

unfoldable pub encode_frame : Mbap → Pdu → List ℕ
unfolding mbap_encode
encode_frame m p = (mbap_encode m [] (1 + length p.payload) ++ p.function_code ∷ []) ++ p.payload

unfoldable pub request_encode : Request → List ℕ
unfolding encode_frame
request_encode r = encode_frame r.mbap r.pdu

unfoldable pub response_encode : Response → List ℕ
unfolding encode_frame
response_encode r = encode_frame r.mbap r.pdu

-- The part of `Decode` behind the header: function code, check of the length field, data.
decode_body : Error → Mbap → ℕ → List ℕ → Go (Mbap × Pdu)
unfolding read_u8
decode_body short header field input = do
  (function_code, input) ← read_u8 input
  require (leb 2 field) short
  (payload, input) ← read_full (field - 2) input
  ok (header, record { function_code = function_code; payload = payload })

-- `Request.Decode` and `Response.Decode` differ in the error on a short length field.
unfoldable pub decode_frame : Error → List ℕ → Go (Mbap × Pdu)
unfolding mbap_decode decode_body
decode_frame short bytes = do
  require (leb tcp_header_length (length bytes)) invalid_response_length
  ((header, field), input) ← mbap_decode bytes
  decode_body short header field input

unfoldable pub request_decode : List ℕ → Go Request
request_decode bytes = do
  (header, body) ← decode_frame invalid_request_length bytes
  ok (record { mbap = header; pdu = body })

unfoldable pub response_decode : List ℕ → Go Response
response_decode bytes = do
  (header, body) ← decode_frame invalid_response_length bytes
  ok (record { mbap = header; pdu = body })

-- The first byte, where the length test has passed.
first_byte : List ℕ → ℕ
first_byte [] = 0
first_byte (b ∷ _) = b

-- `Response.GetException` and `Response.ToError`
unfoldable pub get_exception : Response → ℕ
unfolding first_byte
get_exception r =
    if is_exception r.pdu.function_code && ltb 0 (length r.pdu.payload)
    then first_byte r.pdu.payload
    else 0

unfoldable pub to_error : Response → Option Error
unfolding get_exception
to_error r =
    if is_exception r.pdu.function_code
    then some (modbus_error r.pdu.function_code (get_exception r))
    else none
