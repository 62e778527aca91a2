-- ===== src/Transport/Callbacks.antt =====
-- options.go: which callbacks run, and in which order.
use goindustrial.Base.{◌≡◌, sym, ◌∙◌, ap, List, [], ◌∷◌, ◌++◌, Option, append-nil, append_assoc}
use goindustrial.Base.{Error}
use goindustrial.Transport.{
  Config, with_on_connect, with_on_disconnect, apply_each, apply_options, call_each, call_each_with,
  fire_on_connect, fire_on_disconnect,
}

-- The options that the package offers.
pub data Setting (W : Type 0) : Type 0 where
  connect_hook : (W → W) → Setting W
  disconnect_hook : (Option Error → W → W) → Setting W

module _ {W : Type 0} where
  abbrev pub option_of : Setting W → Config W → Config W
  option_of (connect_hook f) = with_on_connect f
  option_of (disconnect_hook f) = with_on_disconnect f

  abbrev pub options_of : List (Setting W) → List (Config W → Config W)
  options_of [] = []
  options_of (s ∷ ss) = option_of s ∷ options_of ss

  -- The hooks of one kind, in the order of the options.
  abbrev pub connect_hooks : List (Setting W) → List (W → W)
  connect_hooks [] = []
  connect_hooks (connect_hook f ∷ ss) = f ∷ connect_hooks ss
  connect_hooks (disconnect_hook f ∷ ss) = connect_hooks ss

  abbrev pub disconnect_hooks : List (Setting W) → List (Option Error → W → W)
  disconnect_hooks [] = []
  disconnect_hooks (connect_hook f ∷ ss) = disconnect_hooks ss
  disconnect_hooks (disconnect_hook f ∷ ss) = f ∷ disconnect_hooks ss

  apply_each-options_of :
      (ss : List (Setting W)) (cfg : Config W)
      → ((apply_each (options_of ss) cfg).on_connect ≡ cfg.on_connect ++ connect_hooks ss)
        × ((apply_each (options_of ss) cfg).on_disconnect
            ≡ cfg.on_disconnect ++ disconnect_hooks ss)
  unfolding apply_each with_on_connect with_on_disconnect
  apply_each-options_of [] cfg =
      (sym (append-nil cfg.on_connect), sym (append-nil cfg.on_disconnect))
  apply_each-options_of (connect_hook f ∷ ss) cfg =
      let (p, q) = apply_each-options_of ss (with_on_connect f cfg) in
      (p ∙ append_assoc cfg.on_connect (f ∷ []) (connect_hooks ss), q)
  apply_each-options_of (disconnect_hook f ∷ ss) cfg =
      let (p, q) = apply_each-options_of ss (with_on_disconnect f cfg) in
      (p, q ∙ append_assoc cfg.on_disconnect (f ∷ []) (disconnect_hooks ss))

  -- Whatever options of the two kinds a transport is given, the callbacks of each kind run in the
  -- order of the options.
  pub apply_options-fires :
      (ss : List (Setting W)) (e : Option Error) (w : W)
      → (fire_on_connect (apply_options (options_of ss)) w ≡ call_each (connect_hooks ss) w)
        × (fire_on_disconnect (apply_options (options_of ss)) e w
            ≡ call_each_with (disconnect_hooks ss) e w)
  unfolding apply_options fire_on_connect fire_on_disconnect
  apply_options-fires ss e w =
      let (p, q) = apply_each-options_of ss (record { on_connect = []; on_disconnect = [] }) in
      (ap (λ fs. call_each fs w) p, ap (λ fs. call_each_with fs e w) q)
