-- ===== src/EthernetIp/Session/Exchange.antt =====
-- session.go with server.go: a client's session with a server is its router, over the wire.
use mathlib.Core.Path.{subst}
use goindustrial.Base.{ℕ, ◌<◌, ◌≡◌, ◌≢◌, refl, ◌∙◌, ap, List, [], ◌∷◌, All, arith}
use goindustrial.Base.{ok}
use goindustrial.Base.Stateful.{Exec, lift, ◌>>=◌, ◌>>◌, >>=-eq-ok}
use goindustrial.EthernetIp.Cip.Message.{MessageRouterRequest, MessageRouterResponse}
use goindustrial.EthernetIp.Cip.Router.{MessageRouter, dispatch}
use goindustrial.EthernetIp.Server.Conn.{Server, LoopState}
use goindustrial.EthernetIp.Session.{Session, new_session, register, send_cip_request}
use goindustrial.EthernetIp.Session.Link.{quiet, link, session}
use goindustrial.EthernetIp.Session.Requests.{
  IsRequest, IsResponse, registered, register-link, send_cip_request-link,
}

-- The requests one after the other through a session, and through a router alone: the first error
-- ends it.
unfoldable pub send_all :
    {P : Type 0}
    → (List ℕ → P → P × List ℕ)
    → List MessageRouterRequest
    → Exec (Session P) (List MessageRouterResponse)
send_all wire [] = lift (ok [])
send_all wire (q ∷ qs) = do r ← send_cip_request wire q; rs ← send_all wire qs; lift (ok (r ∷ rs))

unfoldable pub dispatch_all :
    {W : Type 0} → MessageRouter W → List MessageRouterRequest → Exec W (List MessageRouterResponse)
dispatch_all mr [] = lift (ok [])
dispatch_all mr (q ∷ qs) = do r ← dispatch mr q; rs ← dispatch_all mr qs; lift (ok (r ∷ rs))

module _ {W : Type 0} where
  -- What a chain of requests that all succeed consists of
  dispatch_all-cons :
      (mr : MessageRouter W) (q : MessageRouterRequest) (qs : List MessageRouterRequest) (w w'' : W)
      (all_rs : List MessageRouterResponse)
      → dispatch_all mr (q ∷ qs) w ≡ (w'', ok all_rs)
      → (r : MessageRouterResponse) × (rs : List MessageRouterResponse) × (w' : W) × (dispatch mr q
            w
          ≡ (w', ok r))
        × (dispatch_all mr qs w' ≡ (w'', ok rs))
        × (all_rs ≡ r ∷ rs)
  unfolding dispatch_all
  dispatch_all-cons mr q qs w w'' all_rs e =
      let (r, first, more) =
        >>=-eq-ok (dispatch mr q) (λ r. dispatch_all mr qs >>= λ rs. lift (ok (r ∷ rs))) w e in
      let (rs, others, last) =
        >>=-eq-ok (dispatch_all mr qs) (λ rs. lift (ok (r ∷ rs))) (dispatch mr q w).0 more in
      (
        r,
        rs,
        (dispatch mr q w).0,
        ground (arith, first),
        ground (arith, others, last),
        ground (arith, last),
      )

  send_all-dispatch_all :
      (s : Server W) (c : LoopState W) (qs : List MessageRouterRequest)
      (rs : List MessageRouterResponse) (w' : W)
      → c.session_handle ≢ 0
      → c.session_handle < 4294967296
      → All IsRequest qs
      → All IsResponse rs
      → dispatch_all s.router qs c.world ≡ (w', ok rs)
      → send_all (link s) qs (session (quiet c) c.session_handle)
        ≡ (session (quiet (record c { world = w' })) c.session_handle, ok rs)
  unfolding send_all dispatch_all
  send_all-dispatch_all s c [] rs w' some_ fits qfits rfits e =
      let same : c.world ≡ w' = ap (λ x. x.0) e in
      let nothing : [] ≡ rs = ground arith in
      ap (λ w. (session (quiet (record c { world = w })) c.session_handle, ok [])) same
      ∙ ap (λ l. (session (quiet (record c { world = w' })) c.session_handle, ok l)) nothing
  send_all-dispatch_all s c (q ∷ qs) rs w' some_ fits (qfit, qfits) rfits e =
      let (r, more, mid, first, others, whole) = dispatch_all-cons s.router q qs c.world w' rs e in
      let (rfit, rfits') = subst (All IsResponse) whole rfits in
      rw
        (
          send_cip_request-link s (quiet c) q r mid some_ fits qfit rfit first,
          send_all-dispatch_all s (record c { world = mid }) qs more w' some_ fits qfits rfits'
              others,
          whole,
        )
        refl

  -- Where the server's counter gives a handle that is not zero, a new session on a connection to
  -- the server's loop registers and sends requests, whose paths and sizes are in their limits: when
  -- the router alone answers them one after the other with responses that fit a packet, the session
  -- returns these responses, with the objects in the state that the router leaves, and holds that
  -- handle.
  pub register-send_all :
      (s : Server W) (c : LoopState W) (qs : List MessageRouterRequest)
      (rs : List MessageRouterResponse) (w' : W)
      → (registered c).session_handle ≢ 0
      → All IsRequest qs
      → All IsResponse rs
      → dispatch_all s.router qs c.world ≡ (w', ok rs)
      → (register (link s) >> send_all (link s) qs) (new_session c)
        ≡ (session (record (registered c) { world = w' }) (registered c).session_handle, ok rs)
  register-send_all s c qs rs w' some_ qfits rfits e =
      rw
        (
          register-link s c 0,
          send_all-dispatch_all s (registered c) qs rs w' some_ (omega arith) qfits rfits e,
        )
        refl
