-- ===== src/EthernetIp/Server/Sessions.antt =====
-- What a client can reach without its session.
use mathlib.Core.Path.{subst}
use goindustrial.Base.{
  ℕ, suc, ◌≡◌, ◌≢◌, refl, sym, ◌⊎◌, inl, inr, Bool, Bool-cases, true, false, ◌==◌, if◌then◌else◌,
  List, [], ◌∷◌, ◌++◌, All, some, length, arith,
}
use goindustrial.Base.{Go}
use goindustrial.EthernetIp.Eip.{EncapsulationHeader}
use goindustrial.EthernetIp.Eip.Commands.{eip_status_invalid_session_handle}
use goindustrial.EthernetIp.Server.Conn.{
  Server, LoopState, Served, reply, hang_up, burst, Round, closed, crashed, status_reply,
  in_session, serve_command, reply_encode, handle_conn,
}
use goindustrial.EthernetIp.Server.Packets.{
  Packet, IsPacket, packets_encode, serve_packets, handle_conn-serve_packets,
}

-- A header that does not register, and whose session is not the connection's; where that has no
-- session yet, any session.
abbrev pub IsForeign : ℕ → EncapsulationHeader → Type 0
IsForeign session_handle h =
    (h.command ≢ 101) × ((h.session_handle ≢ session_handle) ⊎ (session_handle ≡ 0))

module _ {W : Type 0} where
  in_session-refused :
      (c : LoopState W) (session : ℕ) (handle : Unit {0} → W × Go (List ℕ))
      → (session ≢ c.session_handle) ⊎ (c.session_handle ≡ 0)
      → in_session c session handle
        ≡ reply c (status_reply session eip_status_invalid_session_handle)
  unfolding in_session
  in_session-refused c session handle (inl other) =
      let different : (session == c.session_handle) ≡ false = ground (arith, other) in
      rw different refl
  in_session-refused c session handle (inr e) =
      let none_yet : (c.session_handle == 0) ≡ true = ground (arith, e) in
      elim (Bool-cases (session == c.session_handle)) [
        | inl same ↦ rw (same, none_yet) refl
        | inr different ↦ rw different refl
      ]

  -- The client's state stays as it is.
  Unmoved : LoopState W → Served W → Type 0
  Unmoved c (reply c' r) = c' ≡ c
  Unmoved c (hang_up c') = c' ≡ c
  Unmoved c burst = ⊥

  either_Unmoved :
      (b : Bool) (c : LoopState W) (x y : Served W)
      → Unmoved c x
      → Unmoved c y
      → Unmoved c (if b then x else y)
  either_Unmoved true c x y p q = p
  either_Unmoved false c x y p q = q

  serve_command-Unmoved :
      (s : Server W) (h : EncapsulationHeader) (bytes : List ℕ) (c : LoopState W)
      → IsForeign c.session_handle h
      → Unmoved c (serve_command s h bytes c)
  unfolding serve_command Unmoved
  serve_command-Unmoved s h bytes c (other, outside) =
      let kept : (h.command == 101) ≡ false = ground (arith, other) in
      rw
        (
          kept,
          in_session-refused c h.session_handle _ outside,
          in_session-refused c h.session_handle _ outside,
        )
        (search either_Unmoved)

  -- The loop ended, with the objects, the counter and the session as they were.
  abbrev pub Untouched : LoopState W → Round W → Type 0
  Untouched c r =
      (c' : LoopState W) × (r ≡ closed c')
      × (c'.world ≡ c.world)
      × (c'.next_session ≡ c.next_session)
      × (c'.session_handle ≡ c.session_handle)

  served-Untouched :
      (s : Server W) (h : EncapsulationHeader) (ps : List Packet) (c : LoopState W) (out : Served W)
      → Unmoved c out
      → ((output : List ℕ) → Untouched c (serve_packets s ps (record c { output = output })))
      → Untouched c (elim out [
        | reply c' r ↦ serve_packets s ps (record c' { output = c'.output ++ reply_encode h r })
        | hang_up c' ↦ closed c'
        | burst ↦ crashed
      ])
  unfolding Unmoved
  served-Untouched s h ps c (reply c' r) same more =
      subst
        (λ x.
          Untouched c (serve_packets s ps (record x { output = c'.output ++ reply_encode h r })))
        (sym same) (more (c'.output ++ reply_encode h r))
  served-Untouched s h ps c (hang_up c') same more =
      subst (λ x. Untouched c (closed x)) (sym same) (c, refl, refl, refl, refl)
  served-Untouched s h ps c burst same more = absurd same

  serve_packets-Untouched :
      (s : Server W) (ps : List Packet) (c : LoopState W)
      → All (λ p. IsForeign c.session_handle p.header) ps
      → Untouched c (serve_packets s ps c)
  unfolding serve_packets
  serve_packets-Untouched s [] c h = (c, refl, refl, refl, refl)
  serve_packets-Untouched s (p ∷ ps) c (h, hs) =
      served-Untouched s p.header ps c (serve_command s p.header p.bytes c)
        (serve_command-Unmoved s p.header p.bytes c h)
        (λ output. serve_packets-Untouched s ps (record c { output = output }) hs)

  -- Whatever whole packets arrive that do not register and do not carry the connection's own
  -- session, or any at all where it has none, the loop ends without a panic, and the state of the
  -- objects, the counter of sessions and the session are as before.
  pub handle_conn-foreign :
      (s : Server W) (c : LoopState W) (ps : List Packet)
      → All IsPacket ps
      → All (λ p. IsForeign c.session_handle p.header) ps
      → (r : Round W) × (handle_conn (suc (length ps)) s c (packets_encode ps) ≡ some r)
        × Untouched c r
  handle_conn-foreign s c ps good foreign = (
    serve_packets s ps c,
    handle_conn-serve_packets s c ps good,
    serve_packets-Untouched s ps c foreign,
  )
