-- ===== src/Modbus/Connection/Total.antt =====
-- The loop on an arbitrary input: it ends, and without a panic.
use goindustrial.Base.Bytes.Reader.{read_full, read_full_cases}
use goindustrial.Base.{
  ℕ, zero, suc, ◌-◌, ◌<◌, ◌≡◌, ◌⊎◌, inl, inr, refl, ◌∙◌, List, [], ◌∷◌, not, leb, ◌==◌, Bool-cases,
  length, some, arith,
}
use goindustrial.Base.{ok}
use goindustrial.Base.Bytes.Access.{byte_at-lt}
use goindustrial.Modbus.Frame.{Mbap}
use goindustrial.Modbus.Connection.{
  Handlers, setup_default_handlers, Connection, Round, next, closed, on_data, after_data, on_header,
  parse_header, after_header, handle_frame, handle_connection,
}
use goindustrial.Modbus.Connection.Loop.{
  serve_request-answer, handle_connection-next, handle_connection-closed,
}
use goindustrial.Modbus.Store.{DataStore}
use goindustrial.Modbus.Store.Laws.{IsLawful}
use goindustrial.Modbus.Connection.Safety.{Serves, setup_default_handlers-Serves}

module _ {S : Type 0} (handlers : Handlers S) (serves : Serves handlers) where
  -- A round that goes on has consumed input; no round panics.
  abbrev Progresses : List ℕ → Round S → Type 0
  Progresses input r =
      ((c : Connection S) × (r ≡ closed c))
      ⊎ ((c : Connection S) × (rest : List ℕ) × (r ≡ next c rest) × (length rest < length input))

  after_data-Progresses :
      (c : Connection S) (header : Mbap) (n : ℕ) (input rest : List ℕ)
      → length rest < length input
      → Progresses input (after_data handlers c header (read_full (suc n) rest))
  unfolding after_data on_data
  after_data-Progresses c header n input rest shorter = elim (read_full_cases (suc n) rest) [
    | inl (bytes, left, e, count, whole) ↦ rw e (served bytes left count (omega arith))
    | inr (x, e) ↦ inl (c, rw e)
  ]
    where
      served :
          (bytes left : List ℕ)
          → length bytes ≡ suc n
          → length left < length input
          → Progresses input (on_data handlers c header left bytes)
      served [] left count less = absurd (omega arith)
      served (function_code ∷ payload) left count less =
          inr (_, left, serve_request-answer handlers serves c left _, less)

  after_data_counted :
      (c : Connection S) (header : Mbap) (n : ℕ) (input rest : List ℕ)
      → 0 < n
      → length rest < length input
      → Progresses input (after_data handlers c header (read_full n rest))
  after_data_counted c header zero input rest some_bytes shorter = absurd (omega arith)
  after_data_counted c header (suc n) input rest some_bytes shorter =
      after_data-Progresses c header n input rest shorter

  parse_header-ok :
      (header : List ℕ)
      → length header ≡ 7
      → (m : Mbap) × (field : ℕ) × (parse_header header ≡ ok (m, field))
  unfolding parse_header
  parse_header-ok header count =
      rw
        (
          byte_at-lt header 0 (omega arith),
          byte_at-lt header 1 (omega arith),
          byte_at-lt header 2 (omega arith),
          byte_at-lt header 3 (omega arith),
          byte_at-lt header 4 (omega arith),
          byte_at-lt header 5 (omega arith),
          byte_at-lt header 6 (omega arith),
        )
        (_, _, refl)

  on_header-Progresses :
      (c : Connection S) (m : Mbap) (field : ℕ) (input rest : List ℕ)
      → length rest < length input
      → Progresses input (on_header handlers c rest (ok (m, field)))
  unfolding on_header
  on_header-Progresses c m field input rest shorter = elim (Bool-cases (not (m.protocol_id == 0))) [
    | inl other ↦ rw other (inr (c, rest, refl, shorter))
    | inr modbus ↦ elim (Bool-cases (leb field 1)) [
      | inl short ↦ rw (modbus, short) (inr (c, rest, refl, shorter))
      | inr long ↦
          rw (modbus, long) (after_data_counted c m (field - 1) input rest (ground arith) shorter)
    ]
  ]

  handle_frame-Progresses :
      (c : Connection S) (input : List ℕ) → Progresses input (handle_frame handlers c input)
  unfolding handle_frame after_header
  handle_frame-Progresses c input = elim (read_full_cases 7 input) [
    | inl (header, rest, e, count, whole) ↦
        let (m, field, parsed) = parse_header-ok header count in
        rw (e, parsed) (on_header-Progresses c m field input rest (omega arith))
    | inr (x, e) ↦ inl (c, rw e)
  ]

  -- fuel
  handle_connection_closes :
      (fuel : ℕ) (c : Connection S) (input : List ℕ)
      → length input < fuel
      → (c' : Connection S) × (handle_connection fuel handlers c input ≡ some (closed c'))
  handle_connection_closes zero c input enough = absurd (omega arith)
  handle_connection_closes (suc fuel) c input enough = elim (handle_frame-Progresses c input) [
    | inl (c', e) ↦ (c', handle_connection-closed handlers serves fuel c input e)
    | inr (c', rest, e, less) ↦
        let (c'', closes) = handle_connection_closes fuel c' rest (omega arith) in
        (c'', handle_connection-next handlers serves fuel c input e ∙ closes)
  ]

-- The default server over a store that keeps the interface's promises: whatever bytes arrive before
-- the client closes its side, the loop ends with the connection closed, within one round more than
-- the input has bytes, and without a panic.
pub setup_default_handlers-closes :
    {S : Type 0} (store : DataStore S)
    → IsLawful store
    → (c : Connection S) (input : List ℕ)
    → (c' : Connection S) × (handle_connection
          (suc (length input))
          (setup_default_handlers store)
          c
          input
        ≡ some (closed c'))
setup_default_handlers-closes store lawful c input =
    handle_connection_closes (setup_default_handlers store)
      (setup_default_handlers-Serves store lawful) (suc (length input)) c input (omega arith)
