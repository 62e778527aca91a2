-- ===== src/Modbus/Client/Retries.antt =====
-- How often `send` tries, and which error it ends with.
use goindustrial.Base.{
  ℕ, zero, suc, ◌+◌, ◌≤◌, ◌-◌, ◌≡◌, refl, ◌∙◌, ap, false, if◌then◌else◌, List, arith,
}
use goindustrial.Base.{Go, Error, ok, err, modbus_error, attempts_failed, nil_error}
use goindustrial.Modbus.Types.{is_exception}
use goindustrial.Modbus.Frame.{Request, Response, new_request, get_exception, to_error}
use goindustrial.Modbus.Client.{
  Transport, Client, is_modbus_error, without_exception, after_send, send_attempts, send,
}

module _ {W H : Type 0} (t : Transport W H) (request : Request) where
  -- One attempt that fails in a way that `send` retries, with the error and the state it leaves: no
  -- connection, or a send that fails with an error that is not a `*ModbusError`.
  pub data FailedAttempt : W → Error → W → Type 0 where
    no_connection : {w w' : W} (e : Error) → t.conn w ≡ (w', err e) → FailedAttempt w e w'
    no_answer :
        {w w' w'' : W} (handle : H) (e : Error)
        → t.conn w ≡ (w', ok handle)
        → t.conn_send handle request w' ≡ (w'', err e)
        → is_modbus_error e ≡ false
        → FailedAttempt w e (t.reset handle w'')

  -- Attempts that fail one after the other: how many, the last error (or the one before them), and
  -- the states around them.
  pub data Failures : ℕ → W → Error → W → Error → Type 0 where
    no_failure : {w : W} {e : Error} → Failures 0 w e w e
    failure :
        {n : ℕ} {w w' w'' : W} {e e' e'' : Error}
        → FailedAttempt w e' w'
        → Failures n w' e' w'' e''
        → Failures (suc n) w e w'' e''

  send_attempts-FailedAttempt :
      (left attempts : ℕ) (last_err : Error) {w w' : W} {e : Error}
      → FailedAttempt w e w'
      → send_attempts t (suc left) attempts request last_err w
        ≡ send_attempts t left attempts request e w'
  unfolding send_attempts
  send_attempts-FailedAttempt left attempts last_err (no_connection e c) = rw c
  send_attempts-FailedAttempt left attempts last_err (no_answer handle e c s plain) =
      rw (c, s, plain)

  send_attempts-Failures :
      (n left m attempts : ℕ) {w w' : W} {e e' : Error}
      → m ≡ n + left
      → Failures n w e w' e'
      → send_attempts t m attempts request e w ≡ send_attempts t left attempts request e' w'
  send_attempts-Failures zero left m attempts {w = w} {e = e} h no_failure =
      ap (λ k. send_attempts t k attempts request e w) {x = m} {y = left} (omega arith)
  send_attempts-Failures (suc n) left zero attempts h (failure f fs) = absurd (omega arith)
  send_attempts-Failures (suc n) left (suc m) attempts {e = e} h (failure f fs) =
      send_attempts-FailedAttempt m attempts e f
      ∙ send_attempts-Failures n left m attempts (omega arith) fs

  pub send_attempts-answered :
      (left attempts : ℕ) (last_err : Error) {w w' w'' : W} (handle : H) (r : Go Response)
      → t.conn w ≡ (w', ok handle)
      → t.conn_send handle request w' ≡ (w'', r)
      → send_attempts t (suc left) attempts request last_err w
        ≡ after_send t handle (λ e. send_attempts t left attempts request e) w'' r
  unfolding send_attempts
  send_attempts-answered left attempts last_err handle r connected answered =
      rw (connected, answered)

module _ {W H : Type 0} (t : Transport W H) (c : Client) (function_code : ℕ)
    (payload : List ℕ) where
  abbrev pub sent : Request
  sent = new_request c.unit_id function_code payload

  -- When each of the 1 + retries attempts fails, for want of a connection or with an error that is
  -- not a `*ModbusError`, `send` reports the number of attempts and the last error, in the state
  -- that the last attempt left.
  pub send-Failures :
      {w w' : W} {e : Error}
      → Failures t sent (suc c.retries) w nil_error w' e
      → send t c function_code payload w ≡ (w', err (attempts_failed (suc c.retries) e))
  unfolding send
  send-Failures fs =
      send_attempts-Failures t sent (suc c.retries) 0 (suc c.retries) (suc c.retries) (omega arith)
        fs
      ∙ unfold send_attempts in refl

  -- When, after at most `retries` failures, a connection is there and its send returns a response,
  -- `send` returns the response, or an exception response as its `*ModbusError`, and makes no
  -- further attempt.
  pub send-answered :
      {n : ℕ} {w w' w1 w2 : W} {e : Error} (handle : H) (response : Response)
      → Failures t sent n w nil_error w' e
      → n ≤ c.retries
      → t.conn w' ≡ (w1, ok handle)
      → t.conn_send handle sent w1 ≡ (w2, ok response)
      → send t c function_code payload w ≡ (
        w2,
        if is_exception response.pdu.function_code
            then err (modbus_error response.pdu.function_code (get_exception response))
            else ok response,
      )
  unfolding send
  send-answered {n = n} {e = e} handle response fs few connected answered =
      send_attempts-Failures t sent n (suc (c.retries - n)) (suc c.retries) (suc c.retries)
        (omega arith) fs
      ∙ send_attempts-answered t sent (c.retries - n) (suc c.retries) e handle (ok response)
          connected answered
      ∙ unfold after_send to_error without_exception in ground arith

  -- When, after at most `retries` failures, a connection is there and its send ends with a
  -- `*ModbusError`, `send` returns that error and makes no further attempt.
  pub send-modbus_error :
      {n : ℕ} {w w' w1 w2 : W} {e : Error} (handle : H) (fc code : ℕ)
      → Failures t sent n w nil_error w' e
      → n ≤ c.retries
      → t.conn w' ≡ (w1, ok handle)
      → t.conn_send handle sent w1 ≡ (w2, err (modbus_error fc code))
      → send t c function_code payload w ≡ (w2, err (modbus_error fc code))
  unfolding send
  send-modbus_error {n = n} {e = e} handle fc code fs few connected answered =
      send_attempts-Failures t sent n (suc (c.retries - n)) (suc c.retries) (suc c.retries)
        (omega arith) fs
      ∙ send_attempts-answered t sent (c.retries - n) (suc c.retries) e handle
          (err (modbus_error fc code)) connected answered
      ∙ unfold after_send in refl
