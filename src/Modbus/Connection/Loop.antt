-- ===== src/Modbus/Connection/Loop.antt =====
-- The loop on a run of whole frames: it answers them in order.
use goindustrial.Base.Bytes.Reader.{read_full}
use goindustrial.Base.{
  ℕ, suc, ◌≡◌, refl, sym, ◌∙◌, List, [], ◌∷◌, ◌++◌, length, All, some, append-nil, append_assoc,
}
use goindustrial.Base.{Go, ok, err, panic, modbus_error}
use goindustrial.Modbus.Frame.{Request, Response, request_encode, response_encode}
use goindustrial.Modbus.Frame.RoundTrip.{FitsFrame}
use goindustrial.Modbus.Server.Answers.{Answered, answered, refused}
use goindustrial.Modbus.Connection.{
  Handlers, dispatch_request, count_received, Connection, next, closed, send_response,
  exception_response, finish, serve_request, handle_frame, handle_connection,
}
use goindustrial.Modbus.Connection.Rounds.{handle_frame-encode_frame}
use goindustrial.Modbus.Connection.Safety.{Serves}

-- The response that a handler's result becomes on the wire; a panic or another error has none.
abbrev pub wire_response : Request → Go Response → Response
wire_response req (ok response) = response
wire_response req (err (modbus_error _ code)) = exception_response req code
wire_response req (err _) = exception_response req 0
wire_response req panic = exception_response req 0

-- A connection after a request has been answered.
pub answer : {S : Type 0} → Handlers S → Connection S → Request → Connection S
unfolding send_response count_received
answer handlers c req =
    let (s, r) = dispatch_request handlers req c.store in
    let counted = record c { store = s; client = count_received req.pdu.function_code c.client } in
    send_response counted (wire_response req r)

pub answer-store :
    {S : Type 0} (handlers : Handlers S) (c : Connection S) (req : Request)
    → (answer handlers c req).store ≡ (dispatch_request handlers req c.store).0
unfolding answer send_response
answer-store handlers c req = refl

pub answer-output :
    {S : Type 0} (handlers : Handlers S) (c : Connection S) (req : Request)
    → (answer handlers c req).output
      ≡ c.output ++ response_encode (wire_response req (dispatch_request handlers req c.store).1)
unfolding answer send_response
answer-output handlers c req = refl

finish-Answered :
    {S : Type 0} (c : Connection S) (req : Request) (input : List ℕ) {r : Go Response}
    → Answered req r
    → finish c req input r ≡ next (send_response c (wire_response req r)) input
unfolding finish
finish-Answered c req input (answered payload h) = refl
finish-Answered c req input (refused code) = refl

unfoldable pub requests_encode : List Request → List ℕ
requests_encode [] = []
requests_encode (r ∷ rs) = request_encode r ++ requests_encode rs

unfoldable pub responses_encode : List Response → List ℕ
responses_encode [] = []
responses_encode (r ∷ rs) = response_encode r ++ responses_encode rs

-- A frame as a client writes it: the fields have their widths, and the protocol is Modbus.
pub record IsModbusFrame (req : Request) : Type 0 where
  pub fits : FitsFrame req.mbap req.pdu
  pub modbus : req.mbap.protocol_id ≡ 0

-- The requests one after the other, on the store alone: the specification of a connection.
unfoldable pub replies : {S : Type 0} → Handlers S → S → List Request → S × List Response
replies handlers s [] = (s, [])
replies handlers s (req ∷ reqs) =
    let (s', r) = dispatch_request handlers req s in
    let (s'', more) = replies handlers s' reqs in (s'', wire_response req r ∷ more)

module _ {S : Type 0} (handlers : Handlers S) (serves : Serves handlers) where
  pub serve_request-answer :
      (c : Connection S) (input : List ℕ) (req : Request)
      → serve_request handlers c input req ≡ next (answer handlers c req) input
  unfolding serve_request answer
  serve_request-answer c input req = finish-Answered _ req input (serves req c.store)

  -- A frame of the protocol is answered, with the rest of the input left.
  pub handle_frame-answer :
      (c : Connection S) (req : Request) (rest : List ℕ)
      → FitsFrame req.mbap req.pdu
      → req.mbap.protocol_id ≡ 0
      → handle_frame handlers c (request_encode req ++ rest) ≡ next (answer handlers c req) rest
  unfolding request_encode
  handle_frame-answer c req rest h e =
      handle_frame-encode_frame handlers c req.mbap req.pdu rest h e
      ∙ serve_request-answer c rest req

  pub handle_connection-next :
      (fuel : ℕ) (c : Connection S) (input : List ℕ) {c' : Connection S} {rest : List ℕ}
      → handle_frame handlers c input ≡ next c' rest
      → handle_connection (suc fuel) handlers c input ≡ handle_connection fuel handlers c' rest
  unfolding handle_connection
  handle_connection-next fuel c input e = rw (handle_connection, e)

  pub handle_connection-closed :
      (fuel : ℕ) (c : Connection S) (input : List ℕ) {c' : Connection S}
      → handle_frame handlers c input ≡ closed c'
      → handle_connection (suc fuel) handlers c input ≡ some (closed c')
  unfolding handle_connection
  handle_connection-closed fuel c input e = rw (handle_connection, e)

  -- With handlers that answer every request, a connection on which whole Modbus frames arrive back
  -- to back is closed at the end of the input, with the store and the responses of the requests
  -- taken one after the other.
  pub handle_connection-replies :
      (c : Connection S) (reqs : List Request)
      → All IsModbusFrame reqs
      → (c' : Connection S) × (handle_connection
            (suc (length reqs))
            handlers
            c
            (requests_encode reqs)
          ≡ some (closed c'))
        × (c'.store ≡ (replies handlers c.store reqs).0)
        × (c'.output ≡ c.output ++ responses_encode (replies handlers c.store reqs).1)
  unfolding replies requests_encode responses_encode answer send_response
  handle_connection-replies c [] good =
      (c, unfold handle_connection handle_frame read_full in refl, refl, sym (append-nil c.output))
  handle_connection-replies c (req ∷ reqs) (good, more) =
      let (c', e, store, output) = handle_connection-replies (answer handlers c req) reqs more in
      (
        c',
        handle_connection-next _ c _
              (handle_frame-answer c req (requests_encode reqs) good.fits good.modbus)
            ∙ e,
        store,
        output
            ∙ append_assoc c.output
                (response_encode (wire_response req (dispatch_request handlers req c.store).1)) _,
      )
