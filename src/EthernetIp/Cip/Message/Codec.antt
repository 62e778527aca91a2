-- ===== src/EthernetIp/Cip/Message/Codec.antt =====
-- Round trips of requests and responses, and requests that are cut short.
use goindustrial.Base.{
  ℕ, zero, suc, ◌-◌, ◌*◌, ◌%◌, ◌<◌, ◌≤◌, ◌≡◌, ◌≢◌, refl, List, [], ◌∷◌, ◌++◌, All, append-nil,
  length, take_prefix, drop_prefix, take_all, drop_all, arith,
}
use goindustrial.Base.{ok, err, io_eof}
use goindustrial.Base.Bytes.{make_bytes}
use goindustrial.Base.Bytes.Reader.{read_u8, read_le16, join_le16}
use goindustrial.EthernetIp.Cip.Path.{len_words}
use goindustrial.EthernetIp.Cip.Message.{
  MessageRouterRequest, request_encode, read_some, decode_message_router_request,
  MessageRouterResponse, encode_words, response_encode, read_words, decode_message_router_response,
}

-- A path of whole words, that its length byte can count
abbrev pub IsPath : List ℕ → Type 0
IsPath path = (length path % 2 ≡ 0) × (length path ≤ 510)

pub read_some-append :
    (xs ys : List ℕ) (n : ℕ)
    → n ≡ length xs
    → (xs ++ ys) ≢ []
    → read_some n (xs ++ ys) ≡ ok (xs, ys)
unfolding read_some
read_some-append [] [] n h some_ = absurd (some_ refl)
read_some-append [] (y ∷ ys) zero h some_ = refl
read_some-append [] (y ∷ ys) (suc n) h some_ = absurd (omega arith)
read_some-append (x ∷ xs) ys n h some_ =
    let none_left : n - length (x ∷ xs) ≡ 0 = omega arith in
    rw (take_prefix (x ∷ xs) ys n h, drop_prefix (x ∷ xs) ys n h, none_left, append-nil (x ∷ xs))
      refl

-- A request whose path has an even number of bytes, at most 510, and that has a path or data, is
-- decoded from its encoding.
pub decode_message_router_request-request_encode :
    (r : MessageRouterRequest)
    → IsPath r.request_path
    → (r.request_path ++ r.request_data) ≢ []
    → decode_message_router_request (request_encode r) ≡ ok r
unfolding decode_message_router_request request_encode read_u8 len_words
decode_message_router_request-request_encode r (even, short) some_ =
    let words : len_words r.request_path * 2 ≡ length r.request_path = omega arith in
    simp (read_some-append r.request_path r.request_data (len_words r.request_path * 2) words some_)
      refl

-- A request that announces a path and has no more bytes ends with `io.EOF`, also where the path is
-- empty.
pub decode_message_router_request_empty :
    (service words : ℕ) → decode_message_router_request (service ∷ words ∷ []) ≡ err io_eof
unfolding decode_message_router_request read_u8 read_some
decode_message_router_request_empty service words = refl

-- A request that ends within its path, or with it, is decoded without an error: the path is filled
-- up with zero bytes to the length that was announced, and there is no data.
pub decode_message_router_request_short :
    (service words b : ℕ) (bytes : List ℕ)
    → length (b ∷ bytes) ≤ words * 2
    → decode_message_router_request (service ∷ words ∷ b ∷ bytes)
      ≡ ok (record {
        service = service;
        request_path = b ∷ (bytes ++ make_bytes (words * 2 - length (b ∷ bytes)));
        request_data = [];
      })
unfolding decode_message_router_request read_u8 read_some
decode_message_router_request_short service words b bytes h =
    simp (take_all (b ∷ bytes) (words * 2) h, drop_all (b ∷ bytes) (words * 2) h) refl

read_words-encode_words :
    (vs rest : List ℕ)
    → All (λ v. v < 65536) vs
    → read_words (length vs) (encode_words vs rest) ≡ ok (vs, rest)
unfolding read_words encode_words read_le16
read_words-encode_words [] rest h = refl
read_words-encode_words (v ∷ vs) rest (h, hs) =
    rw (join_le16 v h, read_words-encode_words vs rest hs) refl

-- A response whose size of the extended status is the length of that status, of 16-bit words, is
-- decoded from its encoding.
pub decode_message_router_response-response_encode :
    (r : MessageRouterResponse)
    → r.ext_status_size ≡ length r.ext_status
    → All (λ v. v < 65536) r.ext_status
    → decode_message_router_response (response_encode r) ≡ ok r
unfolding decode_message_router_response response_encode read_u8
decode_message_router_response-response_encode r size fits =
    rw (size, read_words-encode_words r.ext_status r.response_data fits) refl
