-- ===== src/Transport.antt =====
-- transport: the life of a protocol's connection. transport.go has the interfaces that a protocol
-- fills, options.go the callbacks. A connection is of a type C that Go can compare; W is the state of
-- everything that the connector, the closer and the callbacks reach. These are parameters, which
-- return; contexts are left out.
pub mod Tracking
pub mod Reconnecting
pub mod Direct
pub mod Callbacks
mod Runs
use goindustrial.Base.{◌≡◌, ◌↔◌, List, [], ◌∷◌, ◌++◌, Bool, true, Option}
use goindustrial.Base.{Error}
use goindustrial.Base.Stateful.{Exec}

-- `comparable`, with the zero value
pub record Comparable (C : Type 0) : Type 0 where
  pub zero_value : C
  pub same : C → C → Bool
  pub same_iff : (a b : C) → (same a b ≡ true) ↔ (a ≡ b)

-- `Connector[C]` and `Closer[C]`
pub record Dialer (W C : Type 0) : Type 0 where
  pub connect : Exec W C
  pub shut : C → W → W × Option Error

pub record Config (W : Type 0) : Type 0 where
  pub on_connect : List (W → W)
  pub on_disconnect : List (Option Error → W → W)

module _ {W : Type 0} where
  unfoldable pub with_on_connect : (W → W) → Config W → Config W
  with_on_connect f cfg = record cfg { on_connect = cfg.on_connect ++ f ∷ [] }

  unfoldable pub with_on_disconnect : (Option Error → W → W) → Config W → Config W
  with_on_disconnect f cfg = record cfg { on_disconnect = cfg.on_disconnect ++ f ∷ [] }

  -- The loop of `applyOptions`
  unfoldable pub apply_each : List (Config W → Config W) → Config W → Config W
  apply_each [] cfg = cfg
  apply_each (opt ∷ opts) cfg = apply_each opts (opt cfg)

  unfoldable pub apply_options : List (Config W → Config W) → Config W
  unfolding apply_each
  apply_options opts = apply_each opts (record { on_connect = []; on_disconnect = [] })

  unfoldable pub call_each : List (W → W) → W → W
  call_each [] w = w
  call_each (f ∷ fs) w = call_each fs (f w)

  unfoldable pub call_each_with : List (Option Error → W → W) → Option Error → W → W
  call_each_with [] e w = w
  call_each_with (f ∷ fs) e w = call_each_with fs e (f e w)

  unfoldable pub fire_on_connect : Config W → W → W
  unfolding call_each
  fire_on_connect cfg w = call_each cfg.on_connect w

  unfoldable pub fire_on_disconnect : Config W → Option Error → W → W
  unfolding call_each_with
  fire_on_disconnect cfg e w = call_each_with cfg.on_disconnect e w
