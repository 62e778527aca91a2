-- ===== src/EthernetIp/Pccc/Client/Device.antt =====
-- Reads and writes of a client whose executor is a device that follows the formats of pccc/frame.go.
use goindustrial.Base.{
  ℕ, suc, ◌+◌, ◌%◌, ◌<◌, ◌≤◌, ◌≡◌, ◌≢◌, ◌⊎◌, ◌==◌, refl, ap, sym, ◌∙◌, List, [], Option, none, some,
  Bool-cases, true, false, inl, inr, length, arith,
}
use goindustrial.Base.{Go, Error, ok, err, other_error, pccc_error}
use goindustrial.Base.Stateful.{Exec}
use goindustrial.EthernetIp.Pccc.{ℤ, pos, negsuc, within}
use goindustrial.EthernetIp.Pccc.Frames.{
  Command, typed_read, typed_write, parse_command, IsAddress, Outcome, success, failure, extended,
  IsOutcome, reply_frame, result_of, encode_typed_read-parse_command,
  encode_typed_write-parse_command, decode_reply-reply_frame,
}
use goindustrial.EthernetIp.Pccc.Client.{
  Address, PcccClient, tns_loop, next_counter, next_tns, run_executor, decoded_data, reply_data,
  raw_read, write_bytes,
}

number_of : Command → ℕ
number_of (typed_read tns _ _ _ _ _) = tns
number_of (typed_write tns _ _ _ _ _) = tns

answered : {W : Type 0} → Option Command → (Command → W → W × Outcome) → Exec W (List ℕ)
unfolding number_of
answered none device w = (w, err (other_error 0))
answered (some c) device w =
    let (w', outcome) = device c w in (w', ok (reply_frame 15 (number_of c) outcome []))

-- The executor of a device that carries out commands: it answers the transaction of the command.
unfoldable pub serve : {W : Type 0} → (Command → W → W × Outcome) → List ℕ → Exec W (List ℕ)
unfolding answered
serve device frame = answered (parse_command frame) device

-- What the client reports of an outcome.
unfoldable pub data_of : Outcome → Go (List ℕ)
data_of (success bytes) = ok bytes
data_of (failure sts) = err (pccc_error sts 0)
data_of (extended x) = err (pccc_error 240 x)

unfoldable pub done_of : Outcome → Go (Unit {0})
done_of (success bytes) = ok tt
done_of (failure sts) = err (pccc_error sts 0)
done_of (extended x) = err (pccc_error 240 x)

abbrev pub IsPlace : Address → Type 0
IsPlace a = IsAddress a.file_number a.file_type a.element a.sub_element

decoded_data-reply_frame :
    (tns : ℕ) (outcome : Outcome)
    → tns < 65536
    → IsOutcome outcome
    → decoded_data (reply_frame 15 tns outcome []) ≡ data_of outcome
unfolding decoded_data data_of reply_data result_of
decoded_data-reply_frame tns (success bytes) h k =
    ap reply_data (decode_reply-reply_frame 15 tns (success bytes) [] (omega arith) h k)
decoded_data-reply_frame tns (failure sts) h k =
    ap reply_data (decode_reply-reply_frame 15 tns (failure sts) [] (omega arith) h k)
decoded_data-reply_frame tns (extended x) h k =
    ap reply_data (decode_reply-reply_frame 15 tns (extended x) [] (omega arith) h k)

after_zero : (n : ℕ) → (n % 65536 == 0) ≡ true → ((n + 1) % 4294967296 % 65536 == 0) ≡ false
after_zero n h = ground arith

tns_loop_first :
    (fuel counter : ℕ)
    → ((counter + 1) % 4294967296 % 65536 == 0) ≡ false
    → tns_loop (suc fuel) counter ≡ (counter + 1) % 4294967296
unfolding tns_loop
tns_loop_first fuel counter e = rw e

tns_loop_again :
    (fuel counter : ℕ)
    → ((counter + 1) % 4294967296 % 65536 == 0) ≡ true
    → tns_loop (suc fuel) counter ≡ tns_loop fuel ((counter + 1) % 4294967296)
unfolding tns_loop
tns_loop_again fuel counter e = rw e

-- Within two rounds the loop of `nextTNS` finds a number that is not zero.
tns_loop_ends :
    (fuel counter : ℕ)
    → (n : ℕ) × ((n % 65536 == 0) ≡ false)
      × (tns_loop (suc (suc fuel)) counter ≡ n)
      × (tns_loop 2 counter ≡ n)
tns_loop_ends fuel counter = elim (Bool-cases ((counter + 1) % 4294967296 % 65536 == 0)) [
  | inr e ↦ (_, e, tns_loop_first (suc fuel) counter e, tns_loop_first 1 counter e)
  | inl e ↦
      let second = after_zero ((counter + 1) % 4294967296) e in
      (
        _,
        second,
        tns_loop_again (suc fuel) counter e
            ∙ tns_loop_first fuel ((counter + 1) % 4294967296) second,
        tns_loop_again 1 counter e ∙ tns_loop_first 0 ((counter + 1) % 4294967296) second,
      )
]

done_cases :
    (outcome : Outcome)
    → ((bytes : List ℕ) × (data_of outcome ≡ ok bytes) × (done_of outcome ≡ ok tt))
      ⊎ ((e : Error) × (data_of outcome ≡ err e) × (done_of outcome ≡ err e))
unfolding data_of done_of
done_cases (success bytes) = inl (bytes, refl, refl)
done_cases (failure sts) = inr (pccc_error sts 0, refl, refl)
done_cases (extended x) = inr (pccc_error 240 x, refl, refl)

-- Two rounds of the loop of `nextTNS` are enough: the number they find is not zero in its low 16
-- bits, and more fuel changes nothing.
pub next_counter-tns_loop :
    (fuel counter : ℕ)
    → (next_counter counter % 65536 ≢ 0)
      × (tns_loop (suc (suc fuel)) counter ≡ next_counter counter)
unfolding next_counter
next_counter-tns_loop fuel counter =
    let (n, found, more, two) = tns_loop_ends fuel counter in
    (rw two (λ p. ground arith), more ∙ sym two)

within_read : (i : ℤ) → within 1 240 i ≡ true → within 1 255 i ≡ true
unfolding within
within_read (pos n) h = ground arith
within_read (negsuc n) h = cc

module _ {W : Type 0} (device : Command → W → W × Outcome) where
  -- A read of 1 to 240 bytes at an address that is valid, through an executor that carries out
  -- commands by their format, runs just the typed read of these bytes there, under the next
  -- transaction number, and gives the data, or the status of a failure or its extended status as an
  -- error.
  pub raw_read-serve :
      (a : Address) (byte_size : ℤ) (c : PcccClient W) (w : W) (outcome : Outcome)
      → IsPlace a
      → within 1 240 byte_size ≡ true
      → device
          (typed_read
            (next_counter c.tns % 65536)
            byte_size
            a.file_number
            a.file_type
            a.element
            a.sub_element)
          c.world
        ≡ (w, outcome)
      → IsOutcome outcome
      → raw_read (serve device) a byte_size c
        ≡ (record { tns = next_counter c.tns; world = w }, data_of outcome)
  unfolding raw_read next_tns run_executor serve answered
  raw_read-serve a byte_size c w outcome place sized run proper =
      elim (encode_typed_read-parse_command (next_counter c.tns % 65536) a.file_type byte_size
        a.file_number a.element a.sub_element (omega arith)) [
          | inl (frame, _, _, encoded, parsed) ↦ rw sized (
              rw encoded (
                rw parsed (
                  rw run (
                    rw (
                      decoded_data-reply_frame (next_counter c.tns % 65536) outcome (omega arith)
                        proper)))))
          | inr (e, _, refused) ↦ absurd (refused (place, within_read byte_size sized))
        ]

  -- A write of 1 to 240 bytes at an address that is valid, through an executor that carries out
  -- commands by their format, runs just the typed write of these bytes there, under the next
  -- transaction number, and succeeds, or fails with the status of a failure or its extended status.
  pub write_bytes-serve :
      (a : Address) (bytes : List ℕ) (c : PcccClient W) (w : W) (outcome : Outcome)
      → IsPlace a
      → 1 ≤ length bytes
      → length bytes ≤ 240
      → device
          (typed_write
            (next_counter c.tns % 65536)
            a.file_number
            a.file_type
            a.element
            a.sub_element
            bytes)
          c.world
        ≡ (w, outcome)
      → IsOutcome outcome
      → write_bytes (serve device) a bytes c
        ≡ (record { tns = next_counter c.tns; world = w }, done_of outcome)
  unfolding write_bytes next_tns run_executor serve answered
  write_bytes-serve a bytes c w outcome place some_ short run proper =
      elim (encode_typed_write-parse_command (next_counter c.tns % 65536) a.file_type a.file_number
        a.element a.sub_element bytes (omega arith)) [
          | inl (frame, _, _, _, encoded, parsed) ↦ rw encoded (
              rw parsed (
                rw run (
                  rw
                    (decoded_data-reply_frame (next_counter c.tns % 65536) outcome (omega arith)
                      proper)
                    (elim (done_cases outcome) [
                      | inl (_, p, q) ↦ rw p (rw q)
                      | inr (_, p, q) ↦ rw p (rw q)
                    ]))))
          | inr (e, _, refused) ↦ absurd (refused (place, some_, short))
        ]
