-- ===== src/Modbus/Frame/RoundTrip.antt =====
-- Encoding and decoding of request.go and response.go are inverse to each other.
use goindustrial.Base.{
  ℕ, ◌+◌, ◌*◌, ◌/◌, ◌-◌, ◌<◌, ◌≡◌, refl, List, ◌∷◌, ◌++◌, length, leb, All, arith,
}
use goindustrial.Base.{Error, invalid_request_length, ok, require, >>=-eq-ok}
use goindustrial.Base.Bytes.{IsByte, IsU16, u8}
use goindustrial.Base.Bytes.Reader.{read_full, read_full-append, read_full-eq-ok}
use goindustrial.Modbus.Frame.{
  Mbap, Pdu, Request, Response, encode_frame, decode_body, decode_frame, request_encode,
  request_decode, response_encode, response_decode,
}

-- The values are those of their Go types, and the PDU fits the 16-bit length field.
pub record FitsFrame (m : Mbap) (p : Pdu) : Type 0 where
  pub transaction_fits : IsU16 m.transaction_id
  pub protocol_fits : IsU16 m.protocol_id
  pub payload_fits : length p.payload + 2 < 65536

pub join_u16 : (v : ℕ) → IsU16 v → u8 (v / 256) * 256 + u8 v ≡ v
join_u16 v h = omega arith

-- The header's bytes read back, whatever they are.
decode_frame_bytes :
    (short : Error) (m : Mbap) (p : Pdu) (a b c d e f : ℕ) (input rest : List ℕ)
    → a * 256 + b ≡ m.transaction_id
    → c * 256 + d ≡ m.protocol_id
    → e * 256 + f ≡ length p.payload + 2
    → input ≡ p.payload ++ rest
    → decode_frame short (a ∷ b ∷ c ∷ d ∷ e ∷ f ∷ m.unit_id ∷ p.function_code ∷ input) ≡ ok (m, p)
unfolding decode_frame
decode_frame_bytes short m p a b c d e f input rest hm hp hl hi =
    ground (arith, read_full-append p.payload rest (e * 256 + f - 2))

decode_frame-encode_frame :
    (short : Error) (m : Mbap) (p : Pdu) (rest : List ℕ)
    → FitsFrame m p
    → decode_frame short (encode_frame m p ++ rest) ≡ ok (m, p)
unfolding encode_frame
decode_frame-encode_frame short m p rest h =
    decode_frame_bytes short m p _ _ _ _ _ _ (p.payload ++ rest) rest
      (join_u16 _ h.transaction_fits) (join_u16 _ h.protocol_fits) (omega (arith, h.payload_fits))
      refl

-- A request whose header fields fit 16 bits and whose payload fits the length field is decoded from
-- its encoding, whatever bytes follow.
pub request_decode-request_encode :
    (r : Request) (rest : List ℕ)
    → FitsFrame r.mbap r.pdu
    → request_decode (request_encode r ++ rest) ≡ ok r
unfolding request_decode request_encode
request_decode-request_encode r rest h = rw (decode_frame-encode_frame _ r.mbap r.pdu rest h)

-- A response with the widths of `FitsFrame` is decoded from its encoding, whatever bytes follow.
pub response_decode-response_encode :
    (r : Response) (rest : List ℕ)
    → FitsFrame r.mbap r.pdu
    → response_decode (response_encode r ++ rest) ≡ ok r
unfolding response_decode response_encode
response_decode-response_encode r rest h = rw (decode_frame-encode_frame _ r.mbap r.pdu rest h)

decode_body-eq-ok :
    (short : Error) (header m : Mbap) (field k : ℕ) (input : List ℕ) (p : Pdu)
    → decode_body short header field (k ∷ input) ≡ ok (m, p)
    → (m ≡ header)
      × (p.function_code ≡ k)
      × (length p.payload + 2 ≡ field)
      × ((rest : List ℕ) × (input ≡ p.payload ++ rest))
unfolding decode_body
decode_body-eq-ok short header m field k input p h =
    let (_, passed, body) = >>=-eq-ok (require (leb 2 field) short) _ h in
    let ((payload, rest), read, done) = >>=-eq-ok (read_full (field - 2) input) _ body in
    let (split, count) = read_full-eq-ok (field - 2) input payload rest read in
    (ground arith, ground arith, ground arith, (rest, ground arith))

be16_split : (a b v : ℕ) → IsByte a → IsByte b → a * 256 + b ≡ v → (u8 (v / 256) ≡ a) × (u8 v ≡ b)
be16_split a b v ha hb h = omega arith

-- A frame that decodes is the encoding of the result, up to what follows it.
pub decode_frame-eq-ok :
    (short : Error) (bytes : List ℕ) (m : Mbap) (p : Pdu)
    → All IsByte bytes
    → decode_frame short bytes ≡ ok (m, p)
    → FitsFrame m p × ((rest : List ℕ) × (bytes ≡ encode_frame m p ++ rest))
unfolding decode_frame encode_frame
decode_frame-eq-ok short (a ∷ b ∷ c ∷ d ∷ e ∷ f ∷ g ∷ k ∷ input) m p bound h =
    let header : Mbap = record {
      transaction_id = a * 256 + b;
      protocol_id = c * 256 + d;
      unit_id = g;
    } in
    let (hm, hk, hl, (rest, hi)) =
      decode_body-eq-ok short header m (e * 256 + f) k input p (ground arith) in
    (
      ground arith,
      (
        rest,
        ground (
          arith,
          be16_split a b m.transaction_id,
          be16_split c d m.protocol_id,
          be16_split e f (length p.payload + 2),
        ),
      ),
    )
decode_frame-eq-ok short _ m p bound h = unfold decode_body in ground arith

-- Where `request_decode` succeeds on bytes, the request fits a frame and the bytes start with its
-- encoding: the decoder accepts nothing else.
pub request_decode-eq-ok :
    (bytes : List ℕ) (r : Request)
    → All IsByte bytes
    → request_decode bytes ≡ ok r
    → FitsFrame r.mbap r.pdu × ((rest : List ℕ) × (bytes ≡ request_encode r ++ rest))
unfolding request_decode request_encode
request_decode-eq-ok bytes r bound h =
    let ((m, p), read, done) = >>=-eq-ok (decode_frame invalid_request_length bytes) _ h in
    decode_frame-eq-ok invalid_request_length bytes r.mbap r.pdu bound (ground arith)
