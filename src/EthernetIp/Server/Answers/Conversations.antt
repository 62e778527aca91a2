-- ===== src/EthernetIp/Server/Answers/Conversations.antt =====
-- The loop of a client on whole packets, as a conversation: each packet and its answer.
use mathlib.Core.Path.{subst}
use goindustrial.Base.{
  suc, ◌≡◌, refl, sym, ◌∙◌, ap, List, [], ◌∷◌, ◌++◌, All, some, length, append-nil, append_assoc,
}
use goindustrial.Base.Bytes.Reader.{le32}
use goindustrial.EthernetIp.Eip.{header_encode}
use goindustrial.EthernetIp.Server.Conn.{
  Server, LoopState, CommandReply, Served, reply, hang_up, burst, Round, next, closed, crashed,
  serve_command, reply_encode, handle_conn,
}
use goindustrial.EthernetIp.Server.Packets.{
  Packet, IsPacket, packet_encode, packets_encode, serve_packets, handle_conn-serve_packets,
}
use goindustrial.EthernetIp.Server.Answers.{
  answer, Answered, new_handle, identity_listed, services_listed, no_session, handled, failed,
  unknown, Panics, Effect, serve_command-Effect,
}

reply_encode-answer :
    (p : Packet) (r : CommandReply)
    → packet_encode (answer p r.session r.status r.response_data) ≡ reply_encode p.header r
unfolding reply_encode header_encode
reply_encode-answer p r = rw (append_assoc p.header.sender_context (le32 0 []) r.response_data) refl

module _ {W : Type 0} (s : Server W) where
  -- The packets of a client, the answers to them in order, and how the loop ends: at the end of the
  -- input, at the packet that ends the session, or in a panic of a handler.
  pub data Conversation : List Packet → LoopState W → List Packet → Round W → Type 0 where
    finished : {c : LoopState W} → Conversation [] c [] (closed c)
    left :
        {p : Packet} {ps : List Packet} {c : LoopState W}
        → p.header.command ≡ 102
        → Conversation (p ∷ ps) c [] (closed c)
    panicked :
        {p : Packet} {ps : List Packet} {c : LoopState W}
        → Panics s p c
        → Conversation (p ∷ ps) c [] crashed
    next_answer :
        {p a : Packet} {ps answers : List Packet} {c c' : LoopState W} {r : Round W}
        → Answered s p c c' a
        → Conversation ps (record c' { output = c'.output ++ packet_encode a }) answers r
        → Conversation (p ∷ ps) c (a ∷ answers) r

  -- All answers stand behind what was written before.
  abbrev pub Written : LoopState W → List Packet → Round W → Type 0
  Written c answers (closed c') = c'.output ≡ c.output ++ packets_encode answers
  Written c answers r = Unit {0}

  Answered-output : {p a : Packet} {c c' : LoopState W} → Answered s p c c' a → c'.output ≡ c.output
  Answered-output (new_handle handle e k) = refl
  Answered-output (identity_listed e) = refl
  Answered-output (services_listed e) = refl
  Answered-output (no_session h out) = refl
  Answered-output (handled h inside) = refl
  Answered-output (failed h inside) = refl
  Answered-output (unknown h) = refl

  Written-cons :
      (c c' : LoopState W) (a : Packet) (answers : List Packet) (r : Round W)
      → c'.output ≡ c.output
      → Written (record c' { output = c'.output ++ packet_encode a }) answers r
      → Written c (a ∷ answers) r
  Written-cons c c' a answers (closed d) same h =
      h
      ∙ ap (λ l. (l ++ packet_encode a) ++ packets_encode answers) same
      ∙ append_assoc c.output (packet_encode a) (packets_encode answers)
  Written-cons c c' a answers (next d rest) same h = tt
  Written-cons c c' a answers crashed same h = tt

  Conversation-Written :
      {ps answers : List Packet} {c : LoopState W} {r : Round W}
      → Conversation ps c answers r
      → Written c answers r
  Conversation-Written (finished {c = c}) = sym (append-nil c.output)
  Conversation-Written (left {c = c} e) = sym (append-nil c.output)
  Conversation-Written (panicked h) = tt
  Conversation-Written (next_answer {a = a} {answers = answers} {c = c} {c' = c'} {r = r} h more) =
      Written-cons c c' a answers r (Answered-output h) (Conversation-Written more)

  converse_step :
      (p : Packet) (ps : List Packet) (c : LoopState W) (out : Served W)
      → Effect s p c out
      → ((c' : LoopState W)
          → (answers : List Packet) × Conversation ps c' answers (serve_packets s ps c'))
      → (answers : List Packet) × Conversation (p ∷ ps) c answers (elim out [
        | reply c' r ↦
            serve_packets s ps (record c' { output = c'.output ++ reply_encode p.header r })
        | hang_up c' ↦ closed c'
        | burst ↦ crashed
      ])
  unfolding Effect
  converse_step p ps c (reply c' r) h more =
      let a = answer p r.session r.status r.response_data in
      let (answers, rest) = more (record c' { output = c'.output ++ packet_encode a }) in
      (
        a ∷ answers,
        subst
            (λ l.
              Conversation (p ∷ ps) c (a ∷ answers)
                (serve_packets s ps (record c' { output = c'.output ++ l })))
            (reply_encode-answer p r) (next_answer h rest),
      )
  converse_step p ps c (hang_up c') (e, same) more =
      ([], subst (λ x. Conversation (p ∷ ps) c [] (closed x)) (sym same) (left e))
  converse_step p ps c burst h more = ([], panicked h)

  converse :
      (ps : List Packet) (c : LoopState W)
      → (answers : List Packet) × Conversation ps c answers (serve_packets s ps c)
  unfolding serve_packets
  converse [] c = ([], finished)
  converse (p ∷ ps) c =
      converse_step p ps c (serve_command s p.header p.bytes c) (serve_command-Effect s p c)
        (converse ps)

  -- On packets with at most 4096 bytes of data that arrive back to back, the loop of a client
  -- returns, with one unit of fuel more than there are packets, and each packet has an answer, up
  -- to one that ends the session or in whose handler a panic ends the process; where the loop
  -- closes, it wrote the encoded answers in order behind the earlier output. An answer has the
  -- command and the context of its packet; a registration gets the next handle, with protocol
  -- version 1, which is the session from then on; the lists are those of the server; a message on
  -- the connection's own session gets the data of its handler, or an invalid command without data
  -- where that fails; a message on another session, or without one, is refused and reaches no
  -- object; and an unknown command is an invalid command.
  pub handle_conn-answers :
      (c : LoopState W) (ps : List Packet)
      → All IsPacket ps
      → (answers : List Packet) × (r : Round W) × (handle_conn
            (suc (length ps))
            s
            c
            (packets_encode ps)
          ≡ some r)
        × Conversation ps c answers r
        × Written c answers r
  handle_conn-answers c ps good =
      let (answers, conversation) = converse ps c in
      (
        answers,
        serve_packets s ps c,
        handle_conn-serve_packets s c ps good,
        conversation,
        Conversation-Written conversation,
      )
