-- ===== src/EthernetIp/Server/Answers.antt =====
-- What the loop of a client answers to each command, described without the loop's code.
pub mod Conversations
use mathlib.Core.Path.{subst}
use goindustrial.Base.{
  ℕ, suc, ◌+◌, ◌%◌, ◌^◌, ◌==◌, ==_iff, ◌≡◌, ◌≢◌, refl, sym, ◌∙◌, ap, ◌⊎◌, inl, inr, Bool,
  Bool-cases, true, false, not, ◌||◌, if◌then◌else◌, List, [], ◌∷◌, ◌++◌, All, some, length,
  append-nil, append_assoc, arith,
}
use goindustrial.Base.{Go, Error, ok, err, panic}
use goindustrial.Base.Bytes.{u16}
use goindustrial.Base.Bytes.Reader.{le32}
use goindustrial.EthernetIp.Eip.{EncapsulationHeader, header_encode}
use goindustrial.EthernetIp.Eip.Discovery.{
  encode_list_identity_response, encode_list_services_response,
}
use goindustrial.EthernetIp.Server.{handle_send_rr_data, handle_send_unit_data}
use goindustrial.EthernetIp.Server.Conn.{
  Server, LoopState, CommandReply, Served, reply, hang_up, burst, Round, next, closed, crashed,
  communications, with_status, register_session, in_session, serve_command, reply_encode,
  handle_conn,
}
use goindustrial.EthernetIp.Server.Packets.{
  Packet, IsPacket, packet_encode, packets_encode, serve_packets, handle_conn-serve_packets,
}

-- The answer to a packet: its command and its context, with a session, a status and data
abbrev pub answer : Packet → ℕ → ℕ → List ℕ → Packet
answer p session status bytes = record {
  header = record {
    command = p.header.command;
    data_length = u16 (length bytes);
    session_handle = session;
    status = status;
    sender_context = p.header.sender_context;
    options = 0;
  };
  bytes = bytes;
}

module _ {W : Type 0} (s : Server W) where
  -- What the handler of a message command gives for a packet.
  pub data Handled (p : Packet) (w : W) : W × Go (List ℕ) → Type 0 where
    unconnected : p.header.command ≡ 111 → Handled p w (handle_send_rr_data s.router p.bytes w)
    connected : p.header.command ≡ 112 → Handled p w (handle_send_unit_data s.router p.bytes w)

  -- The packet carries the session of the connection, which has one.
  abbrev pub InSession : Packet → LoopState W → Type 0
  InSession p c = (p.header.session_handle ≡ c.session_handle) × (c.session_handle ≢ 0)

  abbrev pub OutOfSession : Packet → LoopState W → Type 0
  OutOfSession p c = (p.header.session_handle ≢ c.session_handle) ⊎ (c.session_handle ≡ 0)

  abbrev pub IsUnknown : ℕ → Type 0
  IsUnknown command =
      (command ≢ 101)
      × (command ≢ 102)
      × (command ≢ 99)
      × (command ≢ 4)
      × (command ≢ 111)
      × (command ≢ 112)

  -- The state after a packet, and its answer
  pub data Answered (p : Packet) (c : LoopState W) : LoopState W → Packet → Type 0 where
    new_handle :
        (handle : ℕ)
        → p.header.command ≡ 101
        → handle ≡ (c.next_session + 1) % 2 ^ 32
        → Answered p c
            (record c { next_session = handle; session_handle = handle; state_handle = handle })
            (answer p handle 0 (1 ∷ 0 ∷ 0 ∷ 0 ∷ []))
    identity_listed :
        p.header.command ≡ 99
        → Answered p c c
            (answer p p.header.session_handle 0 (encode_list_identity_response (s.identity ∷ [])))
    services_listed :
        p.header.command ≡ 4
        → Answered p c c (
            answer p p.header.session_handle 0
              (encode_list_services_response (communications ∷ [])))
    no_session :
        {r : W × Go (List ℕ)}
        → Handled p c.world r
        → OutOfSession p c
        → Answered p c c (answer p p.header.session_handle 100 [])
    handled :
        {w : W} {bytes : List ℕ}
        → Handled p c.world (w, ok bytes)
        → InSession p c
        → Answered p c (record c { world = w }) (answer p p.header.session_handle 0 bytes)
    failed :
        {w : W} {e : Error}
        → Handled p c.world (w, err e)
        → InSession p c
        → Answered p c (record c { world = w }) (answer p p.header.session_handle 1 [])
    unknown : IsUnknown p.header.command → Answered p c c (answer p p.header.session_handle 1 [])

  abbrev pub Panics : Packet → LoopState W → Type 0
  Panics p c = (w : W) × Handled p c.world (w, panic) × InSession p c

  -- What a command comes to.
  pub Effect : Packet → LoopState W → Served W → Type 0
  Effect p c (reply c' r) = Answered p c c' (answer p r.session r.status r.response_data)
  Effect p c (hang_up c') = (p.header.command ≡ 102) × (c' ≡ c)
  Effect p c burst = Panics p c

  with_status-Effect :
      (p : Packet) (c : LoopState W) (r : W × Go (List ℕ))
      → Handled p c.world r
      → InSession p c
      → Effect p c (with_status c p.header.session_handle r)
  unfolding with_status Effect
  with_status-Effect p c (w, ok bytes) h inside = handled h inside
  with_status-Effect p c (w, err e) h inside = failed h inside
  with_status-Effect p c (w, panic) h inside = (w, h, inside)

  in_session-Effect :
      (p : Packet) (c : LoopState W) (f : Unit {0} → W × Go (List ℕ))
      → Handled p c.world (f tt)
      → Effect p c (in_session c p.header.session_handle f)
  unfolding in_session Effect
  in_session-Effect p c f h = elim (Bool-cases (p.header.session_handle == c.session_handle)) [
    | inr e ↦
        let other : p.header.session_handle ≢ c.session_handle = λ q. ground arith in
        rw e (no_session h (inl other))
    | inl e ↦ elim (Bool-cases (c.session_handle == 0)) [
      | inl z ↦
          let none_yet : c.session_handle ≡ 0 = ground arith in
          rw (e, z) (no_session h (inr none_yet))
      | inr z ↦
          let same : p.header.session_handle ≡ c.session_handle = ground arith in
          let some_ : c.session_handle ≢ 0 = λ q. ground arith in
          rw (e, z) (with_status-Effect p c (f tt) h (same, some_))
    ]
  ]

  is_ : (a b : ℕ) → (a == b) ≡ true → a ≡ b
  is_ a b e = (==_iff a b).0 e

  is_not : (a b : ℕ) → (a == b) ≡ false → a ≢ b
  is_not a b e = λ p. ground arith

  pub serve_command-Effect :
      (p : Packet) (c : LoopState W) → Effect p c (serve_command s p.header p.bytes c)
  unfolding serve_command register_session Effect
  serve_command-Effect p c =
      let command = p.header.command in
      elim (Bool-cases (command == 101)) [
        | inl e ↦ rw e (new_handle ((c.next_session + 1) % 2 ^ 32) (is_ command 101 e) refl)
        | inr a ↦ elim (Bool-cases (command == 102)) [
          | inl e ↦ rw (a, e) (is_ command 102 e, refl)
          | inr b ↦ elim (Bool-cases (command == 99)) [
            | inl e ↦ rw (a, b, e) (identity_listed (is_ command 99 e))
            | inr d ↦ elim (Bool-cases (command == 4)) [
              | inl e ↦ rw (a, b, d, e) (services_listed (is_ command 4 e))
              | inr f ↦ elim (Bool-cases (command == 111)) [
                | inl e ↦
                    rw (a, b, d, f, e)
                      (in_session-Effect p c (λ _. handle_send_rr_data s.router p.bytes c.world)
                        (unconnected (is_ command 111 e)))
                | inr g ↦ elim (Bool-cases (command == 112)) [
                  | inl e ↦
                      rw (a, b, d, f, g, e)
                        (in_session-Effect p c (λ _. handle_send_unit_data s.router p.bytes c.world)
                          (connected (is_ command 112 e)))
                  | inr k ↦
                      rw (a, b, d, f, g, k)
                        (unknown (
                          is_not command 101 a,
                          is_not command 102 b,
                          is_not command 99 d,
                          is_not command 4 f,
                          is_not command 111 g,
                          is_not command 112 k,
                        ))
                ]
              ]
            ]
          ]
        ]
      ]
