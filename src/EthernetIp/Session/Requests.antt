-- ===== src/EthernetIp/Session/Requests.antt =====
-- session.go with server.go: a registration, and a request, through the wire.
use goindustrial.Base.{
  ℕ, ◌+◌, ◌<◌, ◌≤◌, ◌≡◌, ◌≢◌, ◌==◌, ==_self, refl, ◌∙◌, ap, false, ◌%◌, ◌^◌, List, [], ◌∷◌, ◌++◌,
  All, length, arith,
}
use goindustrial.Base.{Go, ok}
use goindustrial.EthernetIp.Eip.{
  find_item, find_item_by_type, new_cpf_item, new_common_packet_format,
}
use goindustrial.EthernetIp.Eip.Commands.{register_session_data}
use goindustrial.EthernetIp.Cip.Message.{
  MessageRouterRequest, request_encode, MessageRouterResponse, response_encode,
}
use goindustrial.EthernetIp.Cip.Message.Codec.{
  IsPath, decode_message_router_response-response_encode,
}
use goindustrial.EthernetIp.Cip.Router.{dispatch}
use goindustrial.EthernetIp.Server.{serve_message, handle_send_rr_data, wrap_unconnected_response}
use goindustrial.EthernetIp.Server.Conn.{
  Server, LoopState, reply, register_session, with_status, in_session, serve_command, data_reply,
}
use goindustrial.EthernetIp.Server.Messages.{
  decode-envelope, envelope_long, handle_send_rr_data-wrap, length-wrap_unconnected_response,
  serve_message-request_encode,
}
use goindustrial.EthernetIp.Session.{
  packet_header, rr_data, decoded_cpf, message_of, set_handle, register, send_rr_data,
  send_cip_request,
}
use goindustrial.EthernetIp.Session.Link.{quiet, link, session, ask-link}

-- A request and a response as they fit into a packet: the server takes 4096 bytes, and lengths have
-- 16 bits.
pub record IsRequest (q : MessageRouterRequest) : Type 0 where
  pub path : IsPath q.request_path
  pub some_bytes : (q.request_path ++ q.request_data) ≢ []
  pub short : length (request_encode q) ≤ 4080

pub record IsResponse (r : MessageRouterResponse) : Type 0 where
  pub size : r.ext_status_size ≡ length r.ext_status
  pub words : All (λ v. v < 65536) r.ext_status
  pub short : length (response_encode r) < 65520

module _ {W : Type 0} where
  -- The server's side after a registration
  abbrev pub registered : LoopState W → LoopState W
  registered c =
      let handle = (c.next_session + 1) % 2 ^ 32 in
      record {
        world = c.world;
        next_session = handle;
        session_handle = handle;
        state_handle = handle;
        output = [];
      }

  pub register-link :
      (s : Server W) (c : LoopState W) (k : ℕ)
      → register (link s) (session c k)
        ≡ (session (registered c) (registered c).session_handle, ok tt)
  unfolding register set_handle register_session_data serve_command register_session
  register-link s c k =
      let handle = (registered c).session_handle in
      rw
        (ask-link s c (registered c) 101 0 k register_session_data
          (record { session = handle; status = 0; response_data = 1 ∷ 0 ∷ 0 ∷ 0 ∷ [] })
          (omega arith) (omega arith) (omega arith) refl refl refl (omega arith) (omega arith))
        refl

  in_session-open :
      (c : LoopState W) (handle : Unit {0} → W × Go (List ℕ))
      → c.session_handle ≢ 0
      → in_session c c.session_handle handle ≡ with_status c c.session_handle (handle tt)
  unfolding in_session
  in_session-open c handle some_ =
      let live : (c.session_handle == 0) ≡ false = ground (arith, some_) in
      rw (==_self c.session_handle, live) refl

  serve-rr_data :
      (s : Server W) (c : LoopState W) (message response : List ℕ) (w' : W)
      → c.session_handle ≢ 0
      → length message < 65536
      → serve_message s.router message c.world ≡ (w', ok response)
      → serve_command s
          (packet_header 111 (rr_data message) c.session_handle)
          (rr_data message)
          (quiet c)
        ≡ reply
            (quiet (record c { world = w' }))
            (data_reply c.session_handle (wrap_unconnected_response response))
  unfolding serve_command with_status rr_data wrap_unconnected_response
  serve-rr_data s c message response w' some_ short e =
      let handled : handle_send_rr_data s.router (wrap_unconnected_response message) c.world
          ≡ (w', ok (wrap_unconnected_response response)) =
        handle_send_rr_data-wrap s.router message c.world short ∙ rw e refl in
      in_session-open (quiet c)
        (λ _. handle_send_rr_data s.router (wrap_unconnected_response message) c.world) some_
      ∙ ap (with_status (quiet c) c.session_handle) handled

  -- A message that the server's router answers
  pub send_rr_data-link :
      (s : Server W) (c : LoopState W) (message response : List ℕ) (w' : W)
      → c.session_handle ≢ 0
      → c.session_handle < 4294967296
      → length message ≤ 4080
      → length response < 65520
      → serve_message s.router message c.world ≡ (w', ok response)
      → send_rr_data (link s) message (session c c.session_handle)
        ≡ (session (quiet (record c { world = w' })) c.session_handle, ok response)
  unfolding send_rr_data rr_data wrap_unconnected_response find_item_by_type find_item new_cpf_item
      new_common_packet_format message_of decoded_cpf
  send_rr_data-link s c message response w' some_ fits short small e =
      rw
        (
          ask-link s c (quiet (record c { world = w' })) 111 c.session_handle c.session_handle
              (rr_data message) (data_reply c.session_handle (wrap_unconnected_response response))
              (omega arith) fits (omega (arith, length-wrap_unconnected_response message))
              (serve-rr_data s c message response w' some_ (omega arith) e) refl refl fits
              (omega (arith, length-wrap_unconnected_response response)),
          envelope_long response,
          decode-envelope 0 [] 178 response (omega arith) (omega arith) (omega arith) (omega arith),
        )
        refl

  -- A request through the session is what the router makes of it.
  pub send_cip_request-link :
      (s : Server W) (c : LoopState W) (q : MessageRouterRequest) (r : MessageRouterResponse)
      (w' : W)
      → c.session_handle ≢ 0
      → c.session_handle < 4294967296
      → IsRequest q
      → IsResponse r
      → dispatch s.router q c.world ≡ (w', ok r)
      → send_cip_request (link s) q (session c c.session_handle)
        ≡ (session (quiet (record c { world = w' })) c.session_handle, ok r)
  unfolding send_cip_request
  send_cip_request-link s c q r w' some_ fits ask_fits reply_fits e =
      rw
        (
          send_rr_data-link s c (request_encode q) (response_encode r) w' some_ fits ask_fits.short
              reply_fits.short
              (serve_message-request_encode s.router q c.world w' r ask_fits.path
                ask_fits.some_bytes e),
          decode_message_router_response-response_encode r reply_fits.size reply_fits.words,
        )
        refl
