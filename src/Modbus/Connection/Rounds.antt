-- ===== src/Modbus/Connection/Rounds.antt =====
-- One round of the server's loop on a whole frame, and the loop's end.
use goindustrial.Base.Bytes.Reader.{read_full, read_full-append}
use goindustrial.Base.{
  ℕ, ◌+◌, ◌-◌, ◌<◌, ◌≡◌, ◌≢◌, refl, sym, ◌∙◌, List, ◌∷◌, ◌++◌, false, not, leb, ◌==◌, length, arith,
}
use goindustrial.Base.{ok}
use goindustrial.Base.Bytes.{u16}
use goindustrial.Modbus.Frame.{Mbap, Pdu, encode_frame, set_transaction_id, new_request}
use goindustrial.Modbus.Frame.RoundTrip.{FitsFrame, join_u16}
use goindustrial.Modbus.Connection.{
  Handlers, Connection, next, serve_request, on_header, handle_frame,
}

rebuilt :
    (m : Mbap) (p : Pdu)
    → m.protocol_id ≡ 0
    → set_transaction_id m.transaction_id (new_request m.unit_id p.function_code p.payload)
      ≡ record { mbap = m; pdu = p }
unfolding set_transaction_id new_request
rebuilt m p e i = record {
  mbap = record { transaction_id = m.transaction_id; protocol_id = sym e i; unit_id = m.unit_id };
  pdu = p;
}

on_header_served :
    {S : Type 0} (handlers : Handlers S) (c : Connection S) (m : Mbap) (p : Pdu) (rest : List ℕ)
    → length p.payload + 2 < 65536
    → m.protocol_id ≡ 0
    → on_header handlers c (p.function_code ∷ (p.payload ++ rest)) (ok (m, length p.payload + 2))
      ≡ serve_request handlers c rest (record { mbap = m; pdu = p })
on_header_served handlers c m p rest fits modbus =
    let read =
      read_full-append (p.function_code ∷ p.payload) rest (length p.payload + 2 - 1)
        (omega arith) in
    let longer : leb (length p.payload + 2) 1 ≡ false = ground arith in
    let is_modbus : not (m.protocol_id == 0) ≡ false = ground arith in
    unfold on_header in rw (is_modbus, longer, read, rebuilt m p modbus)

module _ {S : Type 0} (handlers : Handlers S) (c : Connection S) (m : Mbap) (p : Pdu)
    (rest : List ℕ) where
  -- The header is parsed, whatever follows.
  handle_frame_header :
      FitsFrame m p
      → handle_frame handlers c (encode_frame m p ++ rest)
        ≡ on_header handlers c
            (p.function_code ∷ (p.payload ++ rest))
            (ok (m, length p.payload + 2))
  unfolding handle_frame encode_frame read_full
  handle_frame_header h =
      let size : u16 (1 + (1 + length p.payload)) ≡ length p.payload + 2 =
        omega (arith, h.payload_fits) in
      rw
        (
          join_u16 m.transaction_id h.transaction_fits,
          join_u16 m.protocol_id h.protocol_fits,
          size,
          join_u16 (length p.payload + 2) h.payload_fits,
        )
        refl

  -- Of a frame that fits, with a protocol identifier other than 0, only the header is consumed: the
  -- next round starts at the frame's own PDU.
  pub handle_frame_other_protocol :
      FitsFrame m p
      → m.protocol_id ≢ 0
      → handle_frame handlers c (encode_frame m p ++ rest)
        ≡ next c (p.function_code ∷ (p.payload ++ rest))
  handle_frame_other_protocol h other = handle_frame_header h ∙ unfold on_header in ground arith

  -- A frame of the Modbus protocol is served, and the next round starts behind it.
  pub handle_frame-encode_frame :
      FitsFrame m p
      → m.protocol_id ≡ 0
      → handle_frame handlers c (encode_frame m p ++ rest)
        ≡ serve_request handlers c rest (record { mbap = m; pdu = p })
  handle_frame-encode_frame h modbus =
      handle_frame_header h ∙ on_header_served handlers c m p rest h.payload_fits modbus
