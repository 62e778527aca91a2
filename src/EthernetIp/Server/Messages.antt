-- ===== src/EthernetIp/Server/Messages.antt =====
-- The envelopes of SendRRData and SendUnitData, and what is done with the messages inside.
use goindustrial.Base.{
  ℕ, ◌+◌, ◌<◌, ◌≤◌, ◌≡◌, refl, sym, ◌∙◌, ap, false, ltb, ◌==◌, if◌then◌else◌, Bool, true, ◌≢◌, List,
  [], ◌∷◌, ◌++◌, length, length-append, append-nil, arith,
}
use goindustrial.Base.{ok}
use goindustrial.Base.Bytes.{u16}
use goindustrial.Base.Stateful.{lift, ◌>>=◌}
use goindustrial.EthernetIp.Eip.{
  new_cpf_item, new_common_packet_format, cpf_encode, decode_common_packet_format, encode_items,
  item_encode, find_item, find_item_by_type,
}
use goindustrial.EthernetIp.Eip.Framing.{IsItem, decode_common_packet_format-cpf_encode}
use goindustrial.EthernetIp.Cip.Message.{
  MessageRouterRequest, request_encode, MessageRouterResponse, response_encode,
}
use goindustrial.EthernetIp.Cip.Message.Codec.{IsPath, decode_message_router_request-request_encode}
use goindustrial.EthernetIp.Cip.Router.{MessageRouter, dispatch}
use goindustrial.EthernetIp.Server.{
  wrap_unconnected_response, item_data, serve_message, handle_send_rr_data, with_interface,
}

pub new_cpf_item-IsItem :
    (type_id : ℕ) (payload : List ℕ)
    → type_id < 65536
    → length payload < 65536
    → IsItem (new_cpf_item type_id payload)
unfolding new_cpf_item
new_cpf_item-IsItem type_id payload h k = record {
  type_fits = h;
  length_fits = omega arith;
  length_counts = omega arith;
}

-- Two items behind the interface handle and the timeout
abbrev pub envelope : ℕ → List ℕ → ℕ → List ℕ → List ℕ
envelope s a t b =
    with_interface
      (cpf_encode (new_common_packet_format (new_cpf_item s a ∷ new_cpf_item t b ∷ [])))

pub decode-envelope :
    (s : ℕ) (a : List ℕ) (t : ℕ) (b : List ℕ)
    → s < 65536
    → length a < 65536
    → t < 65536
    → length b < 65536
    → decode_common_packet_format
        (cpf_encode (new_common_packet_format (new_cpf_item s a ∷ new_cpf_item t b ∷ [])))
      ≡ ok (new_common_packet_format (new_cpf_item s a ∷ new_cpf_item t b ∷ []))
decode-envelope s a t b hs ha ht hb =
    let items = new_cpf_item s a ∷ new_cpf_item t b ∷ [] in
    ap decode_common_packet_format (sym (append-nil (cpf_encode (new_common_packet_format items))))
    ∙ decode_common_packet_format-cpf_encode items [] (omega arith)
        (new_cpf_item-IsItem s a hs ha, (new_cpf_item-IsItem t b ht hb, tt))

at_least : (n m : ℕ) → n ≤ m → ltb m n ≡ false
at_least n m h = ground arith

long_enough : (bytes : List ℕ) → ltb (length (with_interface bytes)) 6 ≡ false
long_enough bytes = ground arith

pub envelope_long : (message : List ℕ) → ltb (length (wrap_unconnected_response message)) 6 ≡ false
unfolding wrap_unconnected_response
envelope_long message =
    long_enough
      (cpf_encode (new_common_packet_format (new_cpf_item 0 [] ∷ new_cpf_item 178 message ∷ [])))

module _ {W : Type 0} (mr : MessageRouter W) where
  -- An unconnected message is served, and its answer is wrapped.
  pub handle_send_rr_data-wrap :
      (message : List ℕ) (w : W)
      → length message < 65536
      → handle_send_rr_data mr (wrap_unconnected_response message) w
        ≡ (serve_message mr message >>= λ response. lift (ok (wrap_unconnected_response response)))
            w
  unfolding handle_send_rr_data wrap_unconnected_response item_data find_item_by_type find_item
      new_cpf_item new_common_packet_format
  handle_send_rr_data-wrap message w h =
      rw
        (
          envelope_long message,
          decode-envelope 0 [] 178 message (omega arith) (omega arith) (omega arith) h,
          at_least 0 (length message) (omega arith),
        )
        refl

short_item : (b : Bool) (payload : List ℕ) → length (if b then [] else payload) ≤ length payload
short_item true payload = omega arith
short_item false payload = omega arith

-- The envelope of a message adds 16 bytes at most.
pub length-wrap_unconnected_response :
    (message : List ℕ) → length (wrap_unconnected_response message) ≤ 16 + length message
unfolding wrap_unconnected_response cpf_encode encode_items item_encode new_common_packet_format
    new_cpf_item
length-wrap_unconnected_response message =
    let item = if u16 (length message) == 0 then [] else message in
    omega (arith, short_item (u16 (length message) == 0) message, length-append item [])

module _ {W : Type 0} (mr : MessageRouter W) where
  -- A request that reaches the router is answered by the encoding of its response.
  pub serve_message-request_encode :
      (q : MessageRouterRequest) (w w' : W) (r : MessageRouterResponse)
      → IsPath q.request_path
      → (q.request_path ++ q.request_data) ≢ []
      → dispatch mr q w ≡ (w', ok r)
      → serve_message mr (request_encode q) w ≡ (w', ok (response_encode r))
  unfolding serve_message
  serve_message-request_encode q w w' r path some_ e =
      rw (decode_message_router_request-request_encode q path some_, e) refl
