-- ===== src/Modbus/TcpConn/Reading.antt =====
-- conn.go: one round of the read loop on a whole frame, and on a frame that a pause interrupts.
use mathlib.Core.Path.{subst}
use goindustrial.Base.{
  ℕ, zero, suc, ◌+◌, ◌-◌, ◌<◌, ◌≤◌, ltb, ltb→lt, Bool-cases, inl, inr, ◌≡◌, refl, sym, List, [],
  ◌∷◌, ◌++◌, false, not, leb, ◌==◌, length, take, drop, arith,
}
use goindustrial.Base.{ok}
use goindustrial.Base.Bytes.{u16}
use goindustrial.Modbus.Frame.{Mbap, Pdu, encode_frame, new_response}
use goindustrial.Modbus.Frame.RoundTrip.{FitsFrame, join_u16}
use goindustrial.Modbus.Connection.{parse_header}
use goindustrial.Modbus.TcpConn.{
  Item, byte, pause, full, timed_out, read_items, Reader, go_on, deliver, on_response_header,
  read_round,
}

-- Bytes that arrive without a pause, and what follows them.
unfoldable pub on_wire : List ℕ → List Item → List Item
on_wire [] rest = rest
on_wire (b ∷ bytes) rest = byte b ∷ on_wire bytes rest

pub on_wire-append :
    (xs ys : List ℕ) (rest : List Item) → on_wire (xs ++ ys) rest ≡ on_wire xs (on_wire ys rest)
unfolding on_wire
on_wire-append [] ys rest = refl
on_wire-append (x ∷ xs) ys rest = rw (on_wire-append xs ys rest)

read_items-on_wire :
    (xs : List ℕ) (rest : List Item) (n : ℕ)
    → n ≡ length xs
    → read_items n (on_wire xs rest) ≡ full xs rest
unfolding read_items on_wire
read_items-on_wire [] rest zero h = refl
read_items-on_wire [] rest (suc n) h = absurd (omega arith)
read_items-on_wire (x ∷ xs) rest zero h = absurd (omega arith)
read_items-on_wire (x ∷ xs) rest (suc n) h = rw (read_items-on_wire xs rest n (omega arith))

length-take_le : (xs : List ℕ) (k : ℕ) → length (take k xs) ≤ k
length-take_le [] zero = omega arith
length-take_le [] (suc k) = omega arith
length-take_le (x ∷ xs) zero = omega arith
length-take_le (x ∷ xs) (suc k) = omega (arith, length-take_le xs k)

read_items-pause :
    (xs : List ℕ) (rest : List Item) (n : ℕ)
    → length xs < n
    → read_items n (on_wire xs (pause ∷ rest)) ≡ timed_out rest
unfolding read_items on_wire
read_items-pause [] rest zero h = absurd (omega arith)
read_items-pause [] rest (suc n) h = refl
read_items-pause (x ∷ xs) rest zero h = absurd (omega arith)
read_items-pause (x ∷ xs) rest (suc n) h = rw (read_items-pause xs rest n (omega arith))

module _ (m : Mbap) (p : Pdu) where
  parse_header-encode_frame :
      FitsFrame m p → parse_header (take 7 (encode_frame m p)) ≡ ok (m, length p.payload + 2)
  unfolding encode_frame parse_header
  parse_header-encode_frame h =
      let size : u16 (1 + (1 + length p.payload)) ≡ length p.payload + 2 =
        omega (arith, h.payload_fits) in
      rw
        (
          join_u16 m.transaction_id h.transaction_fits,
          join_u16 m.protocol_id h.protocol_fits,
          size,
          join_u16 (length p.payload + 2) h.payload_fits,
        )
        refl

  header_read :
      (body : List Item)
      → read_items 7 (on_wire (take 7 (encode_frame m p)) body)
        ≡ full (take 7 (encode_frame m p)) body
  unfolding encode_frame read_items on_wire
  header_read body = refl

  frame_split :
      (rest : List Item)
      → on_wire (encode_frame m p) rest
        ≡ on_wire (take 7 (encode_frame m p)) (on_wire (p.function_code ∷ p.payload) rest)
  unfolding encode_frame on_wire
  frame_split rest = refl

  frame_take :
      (j : ℕ) (rest : List Item)
      → on_wire (take (suc (suc (suc (suc (suc (suc (suc j))))))) (encode_frame m p)) rest
        ≡ on_wire (take 7 (encode_frame m p)) (on_wire (take j (p.function_code ∷ p.payload)) rest)
  unfolding encode_frame on_wire
  frame_take j rest = refl

  length-encode_frame : length (encode_frame m p) ≡ length p.payload + 8
  unfolding encode_frame
  length-encode_frame = omega arith

  rebuilt :
      m.protocol_id ≡ 0
      → new_response m.transaction_id m.unit_id p.function_code p.payload
        ≡ record { mbap = m; pdu = p }
  unfolding new_response
  rebuilt e i = record {
    mbap = record { transaction_id = m.transaction_id; protocol_id = sym e i; unit_id = m.unit_id };
    pdu = p;
  }

module _ (r : Reader) (m : Mbap) (p : Pdu) where
  -- The header of a frame that fits, whatever follows.
  read_round_header :
      (body : List Item)
      → FitsFrame m p
      → read_round r (on_wire (take 7 (encode_frame m p)) body)
        ≡ on_response_header r body (ok (m, length p.payload + 2))
  unfolding read_round
  read_round_header body h = rw (header_read m p body) (rw (parse_header-encode_frame m p h))

  -- A frame of the Modbus protocol is delivered, and the next round starts behind it.
  pub read_round-encode_frame :
      (rest : List Item)
      → FitsFrame m p
      → m.protocol_id ≡ 0
      → read_round r (on_wire (encode_frame m p) rest)
        ≡ go_on (deliver r (record { mbap = m; pdu = p })) rest
  read_round-encode_frame rest h modbus =
      let read =
        read_items-on_wire (p.function_code ∷ p.payload) rest (length p.payload + 2 - 1)
          (omega arith) in
      let longer : leb (length p.payload + 2) 1 ≡ false = ground arith in
      let is_modbus : not (m.protocol_id == 0) ≡ false = ground arith in
      rw (frame_split m p rest) (
        rw (read_round_header (on_wire (p.function_code ∷ p.payload) rest) h)
          (unfold on_response_header in rw (is_modbus, longer, read, rebuilt m p modbus)))

  -- A pause within the header
  split_header :
      (k : ℕ) (rest : List Item)
      → k < 7
      → read_round r (on_wire (take k (encode_frame m p)) (pause ∷ rest)) ≡ go_on r rest
  unfolding read_round
  split_header k rest short = rw (
      read_items-pause (take k (encode_frame m p)) rest 7
        (omega (arith, length-take_le (encode_frame m p) k)))

  -- A pause within the body
  split_body :
      (j : ℕ) (rest : List Item)
      → FitsFrame m p
      → m.protocol_id ≡ 0
      → j < length p.payload + 1
      → read_round r (
          on_wire
            (take (suc (suc (suc (suc (suc (suc (suc j))))))) (encode_frame m p))
            (pause ∷ rest))
        ≡ go_on r rest
  split_body j rest h modbus inside =
      let read =
        read_items-pause (take j (p.function_code ∷ p.payload)) rest (length p.payload + 2 - 1)
          (omega (arith, length-take_le (p.function_code ∷ p.payload) j)) in
      let longer : leb (length p.payload + 2) 1 ≡ false = ground arith in
      let is_modbus : not (m.protocol_id == 0) ≡ false = ground arith in
      rw (frame_take m p j (pause ∷ rest)) (
        rw (read_round_header (on_wire (take j (p.function_code ∷ p.payload)) (pause ∷ rest)) h)
          (unfold on_response_header in rw (is_modbus, longer, read)))

  -- Of a Modbus frame that fits, when the wait for its bytes passes the deadline after any number
  -- of them, fewer than all, the read loop drops the bytes that came before, without completing a
  -- transaction, and reads the others as the start of a frame.
  pub read_round_split :
      (k : ℕ) (rest : List Item)
      → FitsFrame m p
      → m.protocol_id ≡ 0
      → k < length (encode_frame m p)
      → read_round r
          (on_wire (take k (encode_frame m p)) (pause ∷ on_wire (drop k (encode_frame m p)) rest))
        ≡ go_on r (on_wire (drop k (encode_frame m p)) rest)
  read_round_split k rest h modbus inside = elim (Bool-cases (ltb k 7)) [
    | inl short ↦ split_header k (on_wire (drop k (encode_frame m p)) rest) (ltb→lt k 7 short)
    | inr long ↦
        let e : suc (suc (suc (suc (suc (suc (suc (k - 7))))))) ≡ k = ground arith in
        subst
          (λ n.
            read_round r (
              on_wire (take n (encode_frame m p))
                (pause ∷ on_wire (drop k (encode_frame m p)) rest))
            ≡ go_on r (on_wire (drop k (encode_frame m p)) rest))
          e
          (split_body (k - 7) (on_wire (drop k (encode_frame m p)) rest) h modbus
            (ground (arith, length-encode_frame m p)))
  ]
