-- ===== src/Endpoint/Proxy/Coordination/Invariant.antt =====
-- mihomo.go: the invariant of `CoordinatedExecutor` between two operations, and its primitives.
use soha_app.Base.{
  String, true, false, ◌&&◌, ◌≡◌, ◌⊎◌, Option, none, some, List, [], ◌∷◌, arith, refl, inl, inr,
  is_some, Bool-cases,
}
use soha_app.Base.Errors.{Error, ok, failed, is_ok}
use soha_app.Endpoint.Protocol.{MihomoConfiguration}
use soha_app.Endpoint.Manager.State.{Answer, got, refused}
use soha_app.Endpoint.Proxy.State.{
  ConfigurationExecutor, ExecutorLaws, CoordinatedExecutor, Exchange, MihomoAppliedState,
  MihomoAppState, MihomoAppStatus, MihomoReadback, MihomoRuntime, mihomo_readback_eq, proxy_applied,
  proxy_disabled, proxy_subscribed, tunnel_applied, tunnel_disabled, valid_app_status,
}
use soha_app.Endpoint.Proxy.Coordination.{
  apply_app_state, bind_vpn, bind_by, expected_readback, keep_app_state, quiesce, recover_mihomo,
  save_app_state, stop_active, subscribe, subscribe_with,
}

-- Since the proxy was last given a policy, if it ever was, it was disabled.
abbrev pub IsQuiet : List Exchange → Type 0
IsQuiet [] = Unit
IsQuiet (proxy_disabled ok ∷ xs) = Unit
IsQuiet (proxy_applied c answer ∷ xs) = ⊥
IsQuiet (proxy_subscribed c answer ∷ xs) = ⊥
IsQuiet (_ ∷ xs) = IsQuiet xs

-- The tunnel was applied and disabled only while the proxy was quiet.
abbrev pub IsOrdered : List Exchange → Type 0
IsOrdered [] = Unit
IsOrdered (tunnel_applied desired outcome ∷ xs) = IsQuiet xs × IsOrdered xs
IsOrdered (tunnel_disabled err ∷ xs) = IsQuiet xs × IsOrdered xs
IsOrdered (_ ∷ xs) = IsOrdered xs

-- The last call was an attempt to disable the proxy that failed.
abbrev pub EndsStuck : List Exchange → Type 0
EndsStuck (proxy_disabled (failed messages) ∷ xs) = Unit
EndsStuck _ = ⊥

-- The proxy is quiet, or the last call was a failed attempt to make it so.
abbrev pub IsShut : List Exchange → Type 0
IsShut xs = IsQuiet xs ⊎ EndsStuck xs

module _ (r : MihomoRuntime) {W : Type 0} (tunnel : ConfigurationExecutor W)
    (laws : ExecutorLaws tunnel) where
  abbrev Confirms : MihomoAppliedState → Answer MihomoReadback → Type 0
  Confirms p (refused reason) = ⊥
  Confirms p (got readback) =
      mihomo_readback_eq readback (expected_readback r tunnel p.configuration) ≡ true

  -- The policy that the proxy was last given is the remembered one, it was confirmed, and no disable has
  -- succeeded since.
  abbrev pub Gave : MihomoAppliedState → List Exchange → Type 0
  Gave p [] = ⊥
  Gave p (proxy_disabled ok ∷ xs) = ⊥
  Gave p (proxy_applied c answer ∷ xs) = (c ≡ p.configuration) × Confirms p answer
  Gave p (proxy_subscribed c answer ∷ xs) =
      (c ≡ p.configuration)
      × (answer ≡ got p.app_status)
      × (valid_app_status p.app_status p.configuration ≡ true)
  Gave p (_ ∷ xs) = Gave p xs

  abbrev pub Remembers : Option MihomoAppliedState → List Exchange → Type 0
  Remembers none xs = Unit
  Remembers (some p) xs = Gave p xs

  pub record IsCoordinated (e : CoordinatedExecutor W) : Type 0 where
    pub ordered : IsOrdered e.exchanges
    pub active : e.mihomo_active ≡ is_some e.previous
    pub remembered : Remembers e.previous e.exchanges
    pub alone : r.has_mihomo ≡ false → IsQuiet e.exchanges
    pub holds : laws.Holds e.wireguard

  pub quiesce-IsCoordinated :
      (e : CoordinatedExecutor W) → IsCoordinated e → IsCoordinated (quiesce r tunnel e).1
  unfolding quiesce
  quiesce-IsCoordinated e c = ground arith

  pub quiesce-IsQuiet :
      (e : CoordinatedExecutor W)
      → IsCoordinated e
      → is_ok (quiesce r tunnel e).0 ≡ true
      → IsQuiet (quiesce r tunnel e).1.exchanges × ((quiesce r tunnel e).1.previous ≡ none)
  unfolding quiesce
  quiesce-IsQuiet e c good = ground arith

  -- The proxy is quiet, nothing of it is remembered, and the invariant holds.
  pub record IsAtRest (e : CoordinatedExecutor W) : Type 0 where
    pub sound : IsCoordinated e
    pub quiet : IsQuiet e.exchanges
    pub forgotten : e.previous ≡ none

  pub recover_mihomo-IsCoordinated :
      (reason : String) (e : CoordinatedExecutor W)
      → IsCoordinated e
      → IsCoordinated (recover_mihomo r tunnel reason e).1
  unfolding recover_mihomo
  recover_mihomo-IsCoordinated reason e c =
      let k = quiesce-IsCoordinated e c in
      record {
        ordered = k.ordered;
        active = k.active;
        remembered = k.remembered;
        alone = k.alone;
        holds = k.holds;
      }

  pub recover_mihomo-IsShut :
      (reason : String) (e : CoordinatedExecutor W)
      → IsCoordinated e
      → IsShut (recover_mihomo r tunnel reason e).1.exchanges
  unfolding recover_mihomo quiesce
  recover_mihomo-IsShut reason e c = ground arith

  bind_by-holds :
      (binding : Option (W → Option (String × List String) × W)) (e : CoordinatedExecutor W)
      → tunnel.vpn_binding ≡ binding
      → laws.Holds e.wireguard
      → laws.Holds (bind_by r tunnel binding e).1.wireguard
  unfolding bind_by
  bind_by-holds none e same h = h
  bind_by-holds (some binding) e same h = laws.binding_keeps binding same e.wireguard h

  bind_vpn-holds :
      (c : MihomoConfiguration) (e : CoordinatedExecutor W)
      → laws.Holds e.wireguard
      → laws.Holds (bind_vpn r tunnel c e).1.wireguard
  unfolding bind_vpn
  bind_vpn-holds c e h = ground (arith, bind_by-holds tunnel.vpn_binding e refl h)

  pub bind_vpn-IsCoordinated :
      (c : MihomoConfiguration) (e : CoordinatedExecutor W)
      → IsCoordinated e
      → IsCoordinated (bind_vpn r tunnel c e).1
  unfolding bind_vpn
  bind_vpn-IsCoordinated c e k = ground (arith, bind_vpn-holds c e k.holds)

  pub bind_vpn-IsAtRest :
      (c : MihomoConfiguration) (e : CoordinatedExecutor W)
      → IsAtRest e
      → IsAtRest (bind_vpn r tunnel c e).1
  unfolding bind_vpn
  bind_vpn-IsAtRest c e k = ground (arith, bind_vpn-holds c e k.sound.holds)

  pub stop_active-IsCoordinated :
      (e : CoordinatedExecutor W) → IsCoordinated e → IsCoordinated (stop_active r tunnel e).1
  unfolding stop_active
  stop_active-IsCoordinated e c = ground arith

  pub save_app_state-IsCoordinated :
      (state : MihomoAppState) (e : CoordinatedExecutor W)
      → IsCoordinated e
      → IsCoordinated (save_app_state r tunnel state e).1
  unfolding save_app_state
  save_app_state-IsCoordinated state e c = ground arith

  save_app_state-Gave :
      (c : MihomoConfiguration) (state : MihomoAppState) (status : MihomoAppStatus)
      (e : CoordinatedExecutor W)
      → Gave (record { configuration = c; app_state = some state; app_status = status }) e.exchanges
      → Gave
          (record { configuration = c; app_state = some state; app_status = status })
          (save_app_state r tunnel state e).1.exchanges
  unfolding save_app_state
  save_app_state-Gave c state status e g = ground arith

  -- What an operation on the app's subscription leaves: the invariant, and with an error a proxy that
  -- is shut.
  abbrev pub Settled : Error × CoordinatedExecutor W → Type 0
  Settled (err, e) = IsCoordinated e × ((is_ok err ≡ true) ⊎ IsShut e.exchanges)

  keep_app_state-Settled :
      (c : MihomoConfiguration) (state : MihomoAppState) (status : MihomoAppStatus)
      (e : CoordinatedExecutor W)
      → r.has_mihomo ≡ true
      → IsCoordinated e
      → Gave
          (record {
            configuration = c;
            app_state = some (record state { selected_proxy = status.selected_proxy });
            app_status = status;
          })
          e.exchanges
      → Settled (keep_app_state r tunnel c state status e)
  unfolding keep_app_state
  keep_app_state-Settled c state status e m k given =
      let state1 = record state { selected_proxy = status.selected_proxy } in
      let saved = save_app_state r tunnel state1 e in
      let k1 = save_app_state-IsCoordinated state1 e k in
      let given1 = save_app_state-Gave c state1 status e given in
      elim (Bool-cases (is_ok saved.0)) [
        | inl good ↦
            rw (good, keep_app_state)
              (
                record {
                  ordered = k1.ordered;
                  active = refl;
                  remembered = given1;
                  alone = λ no. absurd (ground (arith, m, no));
                  holds = k1.holds;
                },
                inl refl,
              )
        | inr bad ↦
            rw (bad, keep_app_state)
              (
                recover_mihomo-IsCoordinated "mihomo_state_save_failed" saved.1 k1,
                inr (recover_mihomo-IsShut "mihomo_state_save_failed" saved.1 k1),
              )
      ]

  subscribed-IsCoordinated :
      (c : MihomoConfiguration) (answer : Answer MihomoAppStatus) (e : CoordinatedExecutor W)
      → r.has_mihomo ≡ true
      → IsAtRest e
      → IsCoordinated (record e { exchanges = proxy_subscribed c answer ∷ e.exchanges })
  subscribed-IsCoordinated c answer e m k = ground arith

  subscribe_with-Settled :
      (c : MihomoConfiguration) (state : MihomoAppState) (answer : Answer MihomoAppStatus)
      (e : CoordinatedExecutor W)
      → r.has_mihomo ≡ true
      → IsAtRest e
      → Settled (
          subscribe_with r tunnel c state answer
            (record e { exchanges = proxy_subscribed c answer ∷ e.exchanges }))
  unfolding subscribe_with
  subscribe_with-Settled c state (refused reason) e m k =
      let e1 : CoordinatedExecutor W = record e {
        exchanges = proxy_subscribed c (refused reason) ∷ e.exchanges;
      } in
      let k1 = subscribed-IsCoordinated c (refused reason) e m k in
      (
        recover_mihomo-IsCoordinated "mihomo_apply_failed" e1 k1,
        inr (recover_mihomo-IsShut "mihomo_apply_failed" e1 k1),
      )
  subscribe_with-Settled c state (got status) e m k =
      let e1 : CoordinatedExecutor W = record e {
        exchanges = proxy_subscribed c (got status) ∷ e.exchanges;
      } in
      let k1 = subscribed-IsCoordinated c (got status) e m k in
      elim (Bool-cases (valid_app_status status c)) [
        | inl good ↦
            rw (good, subscribe_with)
              (keep_app_state-Settled c state status e1 m k1 (refl, refl, good))
        | inr bad ↦
            rw (bad, subscribe_with)
              (
                recover_mihomo-IsCoordinated "mihomo_apply_failed" e1 k1,
                inr (recover_mihomo-IsShut "mihomo_apply_failed" e1 k1),
              )
      ]

  subscribe-Settled :
      (c : Option MihomoConfiguration) (state : MihomoAppState) (e : CoordinatedExecutor W)
      → r.has_mihomo ≡ true
      → IsAtRest e
      → Settled (subscribe r tunnel c state e)
  unfolding subscribe
  subscribe-Settled none state e m k = (
    recover_mihomo-IsCoordinated "mihomo_vpn_binding_unavailable" e k.sound,
    inr (recover_mihomo-IsShut "mihomo_vpn_binding_unavailable" e k.sound),
  )
  subscribe-Settled (some c) state e m k =
      subscribe_with-Settled c state
        (r.apply_subscription e.exchanges c state.subscription_url state.selected_proxy) e m k

  pub quiesce-IsAtRest :
      (e : CoordinatedExecutor W)
      → IsCoordinated e
      → is_ok (quiesce r tunnel e).0 ≡ true
      → IsAtRest (quiesce r tunnel e).1
  quiesce-IsAtRest e c good =
      let (quiet, forgotten) = quiesce-IsQuiet e c good in
      record { sound = quiesce-IsCoordinated e c; quiet = quiet; forgotten = forgotten }

  pub quiesce-IsShut :
      (e : CoordinatedExecutor W) → IsCoordinated e → IsShut (quiesce r tunnel e).1.exchanges
  unfolding quiesce
  quiesce-IsShut e c = ground arith

  apply_app_state-runs :
      (c : MihomoConfiguration) (state : MihomoAppState) (e : CoordinatedExecutor W)
      → (r.has_mihomo && r.has_app) ≡ true
      → IsCoordinated e
      → Settled (apply_app_state r tunnel c state e)
  unfolding apply_app_state
  apply_app_state-runs c state e m k =
      let e1 = (quiesce r tunnel e).1 in
      let bound = bind_vpn r tunnel c e1 in
      elim (Bool-cases (is_ok (quiesce r tunnel e).0)) [
        | inl good ↦
            rw (m, good, apply_app_state)
              (subscribe-Settled bound.0 state bound.1 (ground arith)
                (bind_vpn-IsAtRest c e1 (quiesce-IsAtRest e k good)))
        | inr bad ↦
            rw (m, bad, apply_app_state) (quiesce-IsCoordinated e k, inr (quiesce-IsShut e k))
      ]

  pub apply_app_state-IsCoordinated :
      (c : MihomoConfiguration) (state : MihomoAppState) (e : CoordinatedExecutor W)
      → IsCoordinated e
      → IsCoordinated (apply_app_state r tunnel c state e).1
  unfolding apply_app_state
  apply_app_state-IsCoordinated c state e k = elim (Bool-cases (r.has_mihomo && r.has_app)) [
    | inl m ↦ (apply_app_state-runs c state e m k).0
    | inr m ↦ rw (m, apply_app_state) k
  ]

  pub apply_app_state-Settled :
      (c : MihomoConfiguration) (state : MihomoAppState) (e : CoordinatedExecutor W)
      → IsAtRest e
      → Settled (apply_app_state r tunnel c state e)
  unfolding apply_app_state
  apply_app_state-Settled c state e k = elim (Bool-cases (r.has_mihomo && r.has_app)) [
    | inl m ↦ apply_app_state-runs c state e m k.sound
    | inr m ↦ rw (m, apply_app_state) (k.sound, inr (inl k.quiet))
  ]
