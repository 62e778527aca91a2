-- ===== src/EthernetIp/Server/Packets.antt =====
-- The loop of a client on whole packets, and on any input.
use goindustrial.Base.{
  ℕ, zero, suc, ◌<◌, ◌≤◌, ◌≡◌, refl, sym, ◌∙◌, ap, false, true, ltb, if◌then◌else◌, Bool, List, [],
  ◌∷◌, ◌++◌, All, some, length, append_assoc, length-append, arith,
}
use goindustrial.Base.{ok, err, panic, >>=-eq-ok}
use goindustrial.Base.Bytes.Reader.{Read, read_full, read_full-append, read_full-eq-ok}
use goindustrial.EthernetIp.Eip.{EncapsulationHeader, header_encode, header_decode, header_fields}
use goindustrial.EthernetIp.Eip.Framing.{IsHeader, header_decode-header_encode}
use goindustrial.EthernetIp.Server.Conn.{
  Server, LoopState, Served, reply, hang_up, burst, Round, next, closed, crashed, serve_command,
  reply_encode, write_reply, on_packet, on_packet_header, conn_round, handle_conn,
}

-- A packet as a client writes it, no longer than the server takes
pub record Packet : Type 0 where
  pub header : EncapsulationHeader
  pub bytes : List ℕ

pub record IsPacket (p : Packet) : Type 0 where
  pub header_fits : IsHeader p.header
  pub counts : length p.bytes ≡ p.header.data_length
  pub short : p.header.data_length ≤ 4096

abbrev pub packet_encode : Packet → List ℕ
packet_encode p = header_encode p.header ++ p.bytes

abbrev pub packets_encode : List Packet → List ℕ
packets_encode [] = []
packets_encode (p ∷ ps) = packet_encode p ++ packets_encode ps

header_decode-eq-ok :
    (input rest : List ℕ) (h : EncapsulationHeader)
    → header_decode input ≡ ok (h, rest)
    → length rest < length input
unfolding header_decode
header_decode-eq-ok input rest h e =
    let (p, read, more) = >>=-eq-ok (read_full 24 input) _ e in
    let (q, _, last) = >>=-eq-ok (header_fields p.0) _ more in
    let (whole, count) = read_full-eq-ok 24 input p.0 p.1 read in
    let same : p.1 ≡ rest = ground arith in
    omega (arith, ap length whole, length-append p.0 p.1, ap length same)

module _ {W : Type 0} where
  -- The commands of the packets one after the other.
  unfoldable pub serve_packets : Server W → List Packet → LoopState W → Round W
  serve_packets s [] c = closed c
  serve_packets s (p ∷ ps) c = elim (serve_command s p.header p.bytes c) [
    | reply c' r ↦ serve_packets s ps (record c' { output = c'.output ++ reply_encode p.header r })
    | hang_up c' ↦ closed c'
    | burst ↦ crashed
  ]

  -- A round reads one packet, and leaves what follows.
  pub conn_round-packet_encode :
      (s : Server W) (c : LoopState W) (p : Packet) (rest : List ℕ)
      → IsPacket p
      → conn_round s c (packet_encode p ++ rest)
        ≡ write_reply p.header rest (serve_command s p.header p.bytes c)
  unfolding conn_round on_packet_header on_packet
  conn_round-packet_encode s c p rest h =
      let fine : ltb 4096 p.header.data_length ≡ false = ground (arith, h.short) in
      rw
        (
          append_assoc (header_encode p.header) p.bytes rest,
          header_decode-header_encode p.header (p.bytes ++ rest) h.header_fits,
          fine,
          read_full-append p.bytes rest p.header.data_length (sym h.counts),
        )
        refl

  conn_round_end : (s : Server W) (c : LoopState W) → conn_round s c [] ≡ closed c
  unfolding conn_round on_packet_header header_decode read_full
  conn_round_end s c = refl

  handle_conn-next :
      (fuel : ℕ) (s : Server W) (c : LoopState W) (input : List ℕ) {r : Round W}
      → conn_round s c input ≡ r
      → handle_conn (suc fuel) s c input ≡ elim r [
        | next c' rest ↦ handle_conn fuel s c' rest
        | closed c' ↦ some (closed c')
        | crashed ↦ some crashed
      ]
  unfolding handle_conn
  handle_conn-next fuel s c input e = rw (handle_conn, e) refl

  served-next :
      (fuel : ℕ) (s : Server W) (h : EncapsulationHeader) (ps : List Packet) (out : Served W)
      → ((c : LoopState W) → handle_conn fuel s c (packets_encode ps) ≡ some (serve_packets s ps c))
      → elim (write_reply h (packets_encode ps) out) [
        | next c' rest ↦ handle_conn fuel s c' rest
        | closed c' ↦ some (closed c')
        | crashed ↦ some crashed
      ]
        ≡ some (elim out [
          | reply c' r ↦ serve_packets s ps (record c' { output = c'.output ++ reply_encode h r })
          | hang_up c' ↦ closed c'
          | burst ↦ crashed
        ])
  unfolding write_reply
  served-next fuel s h ps (reply c r) more = more _
  served-next fuel s h ps (hang_up c) more = refl
  served-next fuel s h ps burst more = refl

  -- The loop of a client on whole packets ends as its commands, served in order, do.
  pub handle_conn-serve_packets :
      (s : Server W) (c : LoopState W) (ps : List Packet)
      → All IsPacket ps
      → handle_conn (suc (length ps)) s c (packets_encode ps) ≡ some (serve_packets s ps c)
  unfolding serve_packets
  handle_conn-serve_packets s c [] h = handle_conn-next zero s c [] (conn_round_end s c)
  handle_conn-serve_packets s c (p ∷ ps) (h, hs) =
      handle_conn-next (suc (length ps)) s c (packets_encode (p ∷ ps))
        (conn_round-packet_encode s c p (packets_encode ps) h)
      ∙ served-next (suc (length ps)) s p.header ps (serve_command s p.header p.bytes c)
          (λ c'. handle_conn-serve_packets s c' ps hs)

  write_reply-next :
      (h : EncapsulationHeader) (input : List ℕ) (out : Served W) {c' : LoopState W} {rest : List ℕ}
      → write_reply h input out ≡ next c' rest
      → input ≡ rest
  unfolding write_reply
  write_reply-next h input (reply c r) e = ground arith
  write_reply-next h input (hang_up c) e = cc
  write_reply-next h input burst e = cc

  on_packet-next :
      (s : Server W) (c : LoopState W) (h : EncapsulationHeader) (r : Read (List ℕ))
      {c' : LoopState W} {rest : List ℕ}
      → on_packet s c h r ≡ next c' rest
      → (bytes : List ℕ) × (r ≡ ok (bytes, rest))
  unfolding on_packet
  on_packet-next s c h (ok (bytes, input)) e =
      (bytes, ap (λ l. ok (bytes, l)) (write_reply-next h input (serve_command s h bytes c) e))
  on_packet-next s c h (err x) e = cc
  on_packet-next s c h panic e = cc

  within_limit :
      (big : Bool) (c : LoopState W) (r : Round W) {c' : LoopState W} {rest : List ℕ}
      → (if big then closed c else r) ≡ next c' rest
      → r ≡ next c' rest
  within_limit true c r e = cc
  within_limit false c r e = e

  on_packet_header-next :
      (s : Server W) (c : LoopState W) (r : Read EncapsulationHeader) {c' : LoopState W}
      {rest : List ℕ}
      → on_packet_header s c r ≡ next c' rest
      → (h : EncapsulationHeader) × (input : List ℕ) × (r ≡ ok (h, input))
        × (length rest ≤ length input)
  unfolding on_packet_header
  on_packet_header-next s c (ok (h, input)) {c'} {rest} e =
      let step =
        within_limit (ltb 4096 h.data_length) c (on_packet s c h (read_full h.data_length input))
          e in
      let (bytes, read) = on_packet-next s c h (read_full h.data_length input) step in
      let (whole, _) = read_full-eq-ok h.data_length input bytes rest read in
      (h, input, refl, omega (arith, ap length whole, length-append bytes rest))
  on_packet_header-next s c (err x) e = cc
  on_packet_header-next s c panic e = cc

  conn_round-next :
      (s : Server W) (c : LoopState W) (input : List ℕ) {c' : LoopState W} {rest : List ℕ}
      → conn_round s c input ≡ next c' rest
      → length rest < length input
  unfolding conn_round
  conn_round-next s c input e =
      let (h, behind, decoded, shorter) = on_packet_header-next s c (header_decode input) e in
      omega (arith, shorter, header_decode-eq-ok input behind h decoded)

  after_round :
      (s : Server W) (fuel : ℕ) (r : Round W)
      → ((c' : LoopState W) (rest : List ℕ)
          → r ≡ next c' rest
          → (r' : Round W) × (handle_conn fuel s c' rest ≡ some r'))
      → (r' : Round W) × (elim r [
        | next c' rest ↦ handle_conn fuel s c' rest
        | closed c' ↦ some (closed c')
        | crashed ↦ some crashed
      ]
          ≡ some r')
  after_round s fuel (next c' rest) more = more c' rest refl
  after_round s fuel (closed c') more = (closed c', refl)
  after_round s fuel crashed more = (crashed, refl)

  -- On any input the loop of a client returns, with any fuel above the number of the bytes.
  pub handle_conn_returns :
      (s : Server W) (fuel : ℕ) (c : LoopState W) (input : List ℕ)
      → length input < fuel
      → (r : Round W) × (handle_conn fuel s c input ≡ some r)
  unfolding handle_conn
  handle_conn_returns s zero c input h = absurd (omega arith)
  handle_conn_returns s (suc fuel) c input h =
      after_round s fuel (conn_round s c input) (λ c' rest e.
        handle_conn_returns s fuel c' rest (omega (arith, h, conn_round-next s c input e)))
