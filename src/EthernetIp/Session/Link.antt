-- ===== src/EthernetIp/Session/Link.antt =====
-- session.go with server.go: the connection of a session to a server, and one command through it.
use goindustrial.Base.{
  ℕ, ◌<◌, ◌≤◌, ◌≡◌, refl, sym, ◌∙◌, ap, List, [], ◌++◌, length, append-nil, arith,
}
use goindustrial.Base.{ok}
use goindustrial.Base.Bytes.{u16}
use goindustrial.Base.Bytes.Reader.{read_full, read_full-append}
use goindustrial.EthernetIp.Eip.{EncapsulationHeader, header_encode}
use goindustrial.EthernetIp.Eip.Framing.{IsHeader, header_decode-header_encode}
use goindustrial.EthernetIp.Server.Conn.{
  Server, LoopState, CommandReply, reply, Round, next, closed, crashed, serve_command, reply_encode,
  write_reply, conn_round,
}
use goindustrial.EthernetIp.Server.Packets.{
  Packet, IsPacket, packet_encode, conn_round-packet_encode,
}
use goindustrial.EthernetIp.Session.{Session, packet_header, receive, conn_send, ask}

module _ {W : Type 0} where
  abbrev pub quiet : LoopState W → LoopState W
  quiet c = record c { output = [] }

  delivered : LoopState W → Round W → LoopState W × List ℕ
  delivered c (next c' rest) = (quiet c', c'.output)
  delivered c (closed c') = (c', [])
  delivered c crashed = (c, [])

  -- A connection to a server's loop: a packet that is written is read by one round, and what the
  -- round writes arrives.
  unfoldable pub link : Server W → List ℕ → LoopState W → LoopState W × List ℕ
  unfolding delivered
  link s bytes c = delivered c (conn_round s (quiet c) bytes)

  link-reply :
      (s : Server W) (c c' : LoopState W) (p : Packet) (r : CommandReply)
      → IsPacket p
      → serve_command s p.header p.bytes (quiet c) ≡ reply c' r
      → c'.output ≡ []
      → link s (packet_encode p) c ≡ (quiet c', reply_encode p.header r)
  unfolding link write_reply
  link-reply s c c' p r h e q =
      let whole : conn_round s (quiet c) (packet_encode p) ≡ write_reply p.header [] (reply c' r) =
        ap (conn_round s (quiet c)) (sym (append-nil (packet_encode p)))
        ∙ conn_round-packet_encode s (quiet c) p [] h
        ∙ ap (write_reply p.header []) e in
      ap (delivered c) whole ∙ ap (λ l. (quiet c', l ++ reply_encode p.header r)) q

receive_whole :
    {P : Type 0} (peer : P) (k : ℕ) (h : EncapsulationHeader) (bytes : List ℕ)
    → IsHeader h
    → length bytes ≡ h.data_length
    → receive (record { peer = peer; handle = k; unread = header_encode h ++ bytes })
      ≡ (record { peer = peer; handle = k; unread = [] }, ok (h, bytes))
unfolding receive
receive_whole peer k h bytes fits counts =
    let all_bytes : read_full h.data_length bytes ≡ ok (bytes, []) =
      ap (read_full h.data_length) (sym (append-nil bytes))
      ∙ read_full-append bytes [] h.data_length (sym counts) in
    rw (header_decode-header_encode h bytes fits, all_bytes) refl

-- The header of an answer
abbrev reply_header : EncapsulationHeader → CommandReply → EncapsulationHeader
reply_header h r = record {
  command = h.command;
  data_length = u16 (length r.response_data);
  session_handle = r.session;
  status = r.status;
  sender_context = h.sender_context;
  options = 0;
}

reply_encode-header :
    (command handle : ℕ) (bytes : List ℕ) (r : CommandReply)
    → reply_encode (packet_header command bytes handle) r
      ≡ header_encode (reply_header (packet_header command bytes handle) r) ++ r.response_data
unfolding reply_encode header_encode
reply_encode-header command handle bytes r = refl

module _ {W : Type 0} where
  abbrev pub session : LoopState W → ℕ → Session (LoopState W)
  session c handle = record { peer = c; handle = handle; unread = [] }

  -- A command that the server answers with success gives the data of the answer.
  pub ask-link :
      (s : Server W) (c c' : LoopState W) (command handle k : ℕ) (bytes : List ℕ) (r : CommandReply)
      → command < 65536
      → handle < 4294967296
      → length bytes ≤ 4096
      → serve_command s (packet_header command bytes handle) bytes (quiet c) ≡ reply c' r
      → c'.output ≡ []
      → r.status ≡ 0
      → r.session < 4294967296
      → length r.response_data < 65536
      → ask (link s) command bytes handle (session c k) ≡ (
        session (quiet c') k,
        ok (reply_header (packet_header command bytes handle) r, r.response_data),
      )
  unfolding ask conn_send
  ask-link s c c' command handle k bytes r fits handle_fits short e q success session_fits small =
      let h = packet_header command bytes handle in
      let p : Packet = record { header = h; bytes = bytes } in
      let good : IsPacket p = record {
        header_fits = record {
          command_fits = fits;
          length_fits = omega arith;
          session_fits = handle_fits;
          status_fits = omega arith;
          context_fits = refl;
          options_fits = omega arith;
        };
        counts = omega arith;
        short = omega arith;
      } in
      let back : IsHeader (reply_header h r) = record {
        command_fits = fits;
        length_fits = omega arith;
        session_fits = session_fits;
        status_fits = omega arith;
        context_fits = refl;
        options_fits = omega arith;
      } in
      rw
        (
          link-reply s c c' p r good e q,
          reply_encode-header command handle bytes r,
          receive_whole (quiet c') k (reply_header h r) r.response_data back (omega arith),
          success,
        )
        refl
