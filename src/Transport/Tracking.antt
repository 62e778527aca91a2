-- ===== src/Transport/Tracking.antt =====
-- The connections that are open, as the connector and the closer leave them.
use goindustrial.Base.{◌≡◌, refl, ◌∙◌, List, [], ◌∷◌, All, false, Option}
use goindustrial.Base.{Error, ok, err, panic}
use goindustrial.Transport.{
  Comparable, Dialer, Config, call_each, call_each_with, fire_on_connect, fire_on_disconnect,
}

-- A view of the open connections that the connector adds to, where it succeeds, with a connection
-- that is not the zero value; that the closer takes the newest from; and that the callbacks leave
-- alone.
pub record Tracks {W C : Type 0} (comparable : Comparable C) (dialer : Dialer W C) (cfg : Config W)
    (open_conns : W → List C) : Type 0 where
  pub connect_adds :
      (w w' : W) (c : C)
      → dialer.connect w ≡ (w', ok c)
      → (open_conns w' ≡ c ∷ open_conns w) × (comparable.same c comparable.zero_value ≡ false)
  pub connect_fails :
      (w w' : W) (e : Error) → dialer.connect w ≡ (w', err e) → open_conns w' ≡ open_conns w
  pub connect_panics : (w w' : W) → dialer.connect w ≡ (w', panic) → open_conns w' ≡ open_conns w
  pub shut_removes :
      (w : W) (c : C) (cs : List C) → open_conns w ≡ c ∷ cs → open_conns (dialer.shut c w).0 ≡ cs
  pub on_connect_keeps : All (λ f. (w : W) → open_conns (f w) ≡ open_conns w) cfg.on_connect
  pub on_disconnect_keeps :
      All (λ f. (e : Option Error) (w : W) → open_conns (f e w) ≡ open_conns w) cfg.on_disconnect

module _ {W C : Type 0} (open_conns : W → List C) where
  call_each_keeps :
      (fs : List (W → W)) (w : W)
      → All (λ f. (w : W) → open_conns (f w) ≡ open_conns w) fs
      → open_conns (call_each fs w) ≡ open_conns w
  unfolding call_each
  call_each_keeps [] w h = refl
  call_each_keeps (f ∷ fs) w (h, hs) = call_each_keeps fs (f w) hs ∙ h w

  call_each_with_keeps :
      (fs : List (Option Error → W → W)) (e : Option Error) (w : W)
      → All (λ f. (e : Option Error) (w : W) → open_conns (f e w) ≡ open_conns w) fs
      → open_conns (call_each_with fs e w) ≡ open_conns w
  unfolding call_each_with
  call_each_with_keeps [] e w h = refl
  call_each_with_keeps (f ∷ fs) e w (h, hs) = call_each_with_keeps fs e (f e w) hs ∙ h e w

module _ {W C : Type 0} {comparable : Comparable C} {dialer : Dialer W C} {cfg : Config W}
    {open_conns : W → List C} (tracks : Tracks comparable dialer cfg open_conns) where
  pub fire_on_connect_keeps : (w : W) → open_conns (fire_on_connect cfg w) ≡ open_conns w
  unfolding fire_on_connect
  fire_on_connect_keeps w = call_each_keeps open_conns cfg.on_connect w tracks.on_connect_keeps

  pub fire_on_disconnect_keeps :
      (e : Option Error) (w : W) → open_conns (fire_on_disconnect cfg e w) ≡ open_conns w
  unfolding fire_on_disconnect
  fire_on_disconnect_keeps e w =
      call_each_with_keeps open_conns cfg.on_disconnect e w tracks.on_disconnect_keeps
