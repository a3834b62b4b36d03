-- ===== src/Endpoint/Proxy/Operations/Order.antt =====
-- mihomo.go: Apply, Verify and Disable, the invariant and what an outcome means for the proxy.
use soha_app.Base.{
  String, true, ◌≡◌, ◌⊎◌, Option, none, some, ◌∷◌, arith, refl, inl, inr, Bool-cases, str_eq,
  str_eq_iff,
}
use soha_app.Base.Errors.{is_ok}
use soha_app.Endpoint.Protocol.{
  ApplyOutcome, ConfigurationDesired, MihomoConfiguration, Time, WireGuardConfiguration,
}
use soha_app.Endpoint.Manager.State.{Answer, got, refused}
use soha_app.Endpoint.Manager.Leases.{fallback}
use soha_app.Endpoint.Proxy.State.{
  AppFile, ConfigurationExecutor, ExecutorLaws, CoordinatedExecutor, MihomoAppState, MihomoReadback,
  MihomoRuntime, missing, stored, unreadable, mihomo_readback_eq, MihomoAppliedState, proxy_applied,
  proxy_verified, tunnel_verified,
}
use soha_app.Endpoint.Proxy.Coordination.{
  bind_vpn, expected_readback, forget_app, quiesce, recover_mihomo, stop_active,
}
use soha_app.Endpoint.Proxy.Coordination.Invariant.{
  IsAtRest, IsCoordinated, IsShut, apply_app_state-Settled, bind_vpn-IsAtRest,
  bind_vpn-IsCoordinated, quiesce-IsAtRest, quiesce-IsCoordinated, quiesce-IsShut,
  recover_mihomo-IsCoordinated, recover_mihomo-IsShut,
}
use soha_app.Endpoint.Proxy.Operations.{
  apply_app_file, apply_beside, apply_coordinated, apply_managed, apply_mihomo, apply_prepared,
  apply_quiet, apply_stored_app, apply_tunnel_first, beside_tunnel, conclude_managed,
  disable_coordinated, load_app_state, prepare_mihomo, reject_app_state, restore_app_state,
  stand_down, stop_mihomo, verify_alone, verify_beside, verify_by, verify_coordinated,
  verify_readbacks, verify_rebound, verify_remembered,
}

module _ (r : MihomoRuntime) {W : Type 0} (tunnel : ConfigurationExecutor W)
    (laws : ExecutorLaws tunnel) where
  -- What an operation leaves: the invariant, and either the outcome "applied" or a proxy that is shut.
  abbrev pub Reported : ApplyOutcome × CoordinatedExecutor W → Type 0
  Reported (o, e) = IsCoordinated r tunnel laws e × ((o.status ≡ "applied") ⊎ IsShut e.exchanges)

  recover-Reported :
      (reason : String) (e : CoordinatedExecutor W)
      → IsCoordinated r tunnel laws e
      → Reported (recover_mihomo r tunnel reason e)
  recover-Reported reason e k = (
    recover_mihomo-IsCoordinated r tunnel laws reason e k,
    inr (recover_mihomo-IsShut r tunnel laws reason e k),
  )

  stop_active-IsAtRest :
      (e : CoordinatedExecutor W)
      → IsAtRest r tunnel laws e
      → IsAtRest r tunnel laws (stop_active r tunnel e).1
  unfolding stop_active
  stop_active-IsAtRest e k = ground arith

  stand_down-Reported :
      (c : MihomoConfiguration) (e : CoordinatedExecutor W)
      → IsAtRest r tunnel laws e
      → Reported (stand_down r tunnel c e)
  unfolding stand_down
  stand_down-Reported c e k =
      let e1 = (stop_active r tunnel e).1 in
      ground (arith, stop_active-IsAtRest e k, recover-Reported "mihomo_disable_failed" e1)

  reject_app_state-Reported :
      (c : MihomoConfiguration) (e : CoordinatedExecutor W)
      → IsAtRest r tunnel laws e
      → Reported (reject_app_state r tunnel c e)
  unfolding reject_app_state
  reject_app_state-Reported c e k =
      let e1 = (stop_active r tunnel e).1 in
      ground (arith, stop_active-IsAtRest e k, recover-Reported "mihomo_state_invalid" e1)

  restore_app_state-Reported :
      (c : MihomoConfiguration) (state : MihomoAppState) (e : CoordinatedExecutor W)
      → IsAtRest r tunnel laws e
      → Reported (restore_app_state r tunnel c state e)
  unfolding restore_app_state
  restore_app_state-Reported c state e k =
      ground (arith, apply_app_state-Settled r tunnel laws c state e k)

  apply_app_file-Reported :
      (c : MihomoConfiguration) (file : AppFile) (e : CoordinatedExecutor W)
      → IsAtRest r tunnel laws e
      → Reported (apply_app_file r tunnel c file e)
  unfolding apply_app_file
  apply_app_file-Reported c missing e k = stand_down-Reported c e k
  apply_app_file-Reported c (unreadable reason) e k =
      ground (arith, stand_down-Reported c e k, reject_app_state-Reported c e k)
  apply_app_file-Reported c (stored state) e k =
      ground (arith, stand_down-Reported c e k, restore_app_state-Reported c state e k)

  load_app_state-IsAtRest :
      (e : CoordinatedExecutor W)
      → IsAtRest r tunnel laws e
      → IsAtRest r tunnel laws (load_app_state r tunnel e).1
  unfolding load_app_state
  load_app_state-IsAtRest e k = ground arith

  apply_stored_app-Reported :
      (c : MihomoConfiguration) (e : CoordinatedExecutor W)
      → IsAtRest r tunnel laws e
      → Reported (apply_stored_app r tunnel c e)
  unfolding apply_stored_app
  apply_stored_app-Reported c e k =
      let (file, e1) = load_app_state r tunnel e in
      ground (
        arith,
        stand_down-Reported c e k,
        apply_app_file-Reported c file e1 (load_app_state-IsAtRest e k),
      )

  conclude_managed-Reported :
      (c : MihomoConfiguration) (answer : Answer MihomoReadback) (e : CoordinatedExecutor W)
      → r.has_mihomo ≡ true
      → IsAtRest r tunnel laws e
      → Reported (
          conclude_managed r tunnel c answer
            (record (forget_app r tunnel e) { exchanges = proxy_applied c answer ∷ e.exchanges }))
  unfolding conclude_managed
  conclude_managed-Reported c (refused reason) e m k =
      recover-Reported "mihomo_apply_failed"
        (record (forget_app r tunnel e) {
          exchanges = proxy_applied c (refused reason) ∷ e.exchanges;
        })
        (ground arith)
  conclude_managed-Reported c (got readback) e m k =
      elim (Bool-cases (mihomo_readback_eq readback (expected_readback r tunnel c))) [
        | inl same ↦
            rw (same, conclude_managed)
              (
                record {
                  ordered = k.sound.ordered;
                  active = refl;
                  remembered = (refl, same);
                  alone = λ no. absurd (ground (arith, m, no));
                  holds = k.sound.holds;
                },
                inl refl,
              )
        | inr differs ↦
            rw (differs, conclude_managed)
              (recover-Reported "mihomo_apply_failed"
                (record (forget_app r tunnel e) {
                  exchanges = proxy_applied c (got readback) ∷ e.exchanges;
                })
                (ground arith))
      ]

  stop_mihomo-Reported :
      (e : CoordinatedExecutor W) → IsAtRest r tunnel laws e → Reported (stop_mihomo r tunnel e)
  unfolding stop_mihomo
  stop_mihomo-Reported e k =
      let e1 = (stop_active r tunnel e).1 in
      ground (arith, stop_active-IsAtRest e k, recover-Reported "mihomo_disable_failed" e1)

  apply_mihomo-Reported :
      (wg : Option WireGuardConfiguration) (c : Option MihomoConfiguration)
      (e : CoordinatedExecutor W)
      → IsAtRest r tunnel laws e
      → Reported (apply_mihomo r tunnel wg c e)
  unfolding apply_mihomo apply_managed
  apply_mihomo-Reported wg none e k = stop_mihomo-Reported e k
  apply_mihomo-Reported wg (some c) e k = ground (
    arith,
    recover-Reported "unsafe_mihomo_configuration" e k.sound,
    apply_stored_app-Reported c (record e { app_desired = some c }),
    conclude_managed-Reported c (r.apply e.exchanges c) e,
  )

  apply_prepared-Reported :
      (desired : ConfigurationDesired) (wireguard : ApplyOutcome) (c : Option MihomoConfiguration)
      (e : CoordinatedExecutor W)
      → IsAtRest r tunnel laws e
      → Reported (apply_prepared r tunnel desired wireguard c e)
  unfolding apply_prepared
  apply_prepared-Reported desired wireguard none e k = (k.sound, inr (inl k.quiet))
  apply_prepared-Reported desired wireguard (some c) e k = ground (
    arith,
    apply_mihomo-Reported desired.wireguard (some c) e k,
    recover-Reported "mihomo_policy_version_mismatch" e k.sound,
  )

  prepare_mihomo-IsAtRest :
      (desired : ConfigurationDesired) (wg : Option WireGuardConfiguration)
      (c : MihomoConfiguration) (e : CoordinatedExecutor W)
      → IsAtRest r tunnel laws e
      → IsAtRest r tunnel laws (prepare_mihomo r tunnel desired wg c e).1
  unfolding prepare_mihomo
  prepare_mihomo-IsAtRest desired none c e k = k
  prepare_mihomo-IsAtRest desired (some wg) c e k =
      bind_vpn-IsAtRest r tunnel laws (beside_tunnel r tunnel desired wg c) e k

  apply_beside-Reported :
      (desired : ConfigurationDesired) (wireguard : ApplyOutcome) (c : Option MihomoConfiguration)
      (e : CoordinatedExecutor W)
      → IsAtRest r tunnel laws e
      → Reported (apply_beside r tunnel desired wireguard c e)
  unfolding apply_beside
  apply_beside-Reported desired wireguard none e k =
      apply_mihomo-Reported desired.wireguard none e k
  apply_beside-Reported desired wireguard (some c) e k =
      let prepared = prepare_mihomo r tunnel desired desired.wireguard c e in
      apply_prepared-Reported desired wireguard prepared.0 prepared.1
        (prepare_mihomo-IsAtRest desired desired.wireguard c e k)

  tunnel_first-IsAtRest :
      (desired : ConfigurationDesired) (now : Time) (e : CoordinatedExecutor W)
      → IsAtRest r tunnel laws e
      → IsAtRest r tunnel laws (apply_tunnel_first r tunnel desired now (forget_app r tunnel e)).1
  unfolding apply_tunnel_first
  tunnel_first-IsAtRest desired now e k =
      ground (arith, laws.apply_keeps desired now e.wireguard k.sound.holds)

  apply_quiet-Reported :
      (desired : ConfigurationDesired) (now : Time) (e : CoordinatedExecutor W)
      → IsAtRest r tunnel laws e
      → Reported (apply_quiet r tunnel desired now e)
  unfolding apply_quiet
  apply_quiet-Reported desired now e k =
      let applied = apply_tunnel_first r tunnel desired now (forget_app r tunnel e) in
      let k1 = tunnel_first-IsAtRest desired now e k in
      ground (arith, k1, apply_beside-Reported desired applied.0 desired.mihomo applied.1 k1)

  -- Fail closed, and in order. Whatever the tunnel's executor, the proxy and the file answer, Apply keeps
  -- the invariant, by which the tunnel is only ever changed while no policy is in force at the proxy; and
  -- unless the outcome is "applied", the proxy was disabled since it was last given a policy, or the last
  -- call was an attempt to disable it that failed.
  pub apply_coordinated-Reported :
      (desired : ConfigurationDesired) (now : Time) (e : CoordinatedExecutor W)
      → IsCoordinated r tunnel laws e
      → Reported (apply_coordinated r tunnel desired now e)
  unfolding apply_coordinated
  apply_coordinated-Reported desired now e k =
      let e1 = (quiesce r tunnel e).1 in
      elim (Bool-cases (is_ok (quiesce r tunnel e).0)) [
        | inl good ↦
            rw (good, apply_coordinated)
              (apply_quiet-Reported desired now e1 (quiesce-IsAtRest r tunnel laws e k good))
        | inr bad ↦
            rw (bad, apply_coordinated)
              (quiesce-IsCoordinated r tunnel laws e k, inr (quiesce-IsShut r tunnel laws e k))
      ]

  pub disable_coordinated-IsCoordinated :
      (e : CoordinatedExecutor W)
      → IsCoordinated r tunnel laws e
      → IsCoordinated r tunnel laws (disable_coordinated r tunnel e).1
  unfolding disable_coordinated
  disable_coordinated-IsCoordinated e k =
      let e1 = (quiesce r tunnel e).1 in
      ground (
        arith,
        quiesce-IsCoordinated r tunnel laws e k,
        quiesce-IsAtRest r tunnel laws e k,
        laws.disable_keeps e1.wireguard,
      )

  verify_readbacks-Reported :
      (wireguard : ApplyOutcome) (c : Option MihomoConfiguration) (e : CoordinatedExecutor W)
      → IsCoordinated r tunnel laws e
      → Reported (verify_readbacks r tunnel wireguard c e)
  unfolding verify_readbacks
  verify_readbacks-Reported wireguard c e k =
      let err = r.verify e.exchanges c in
      let e1 : CoordinatedExecutor W = record e {
        exchanges = proxy_verified c err ∷ e.exchanges;
      } in
      let k1 : IsCoordinated r tunnel laws e1 = ground arith in
      ground (arith, k1, recover-Reported "mihomo_readback_mismatch" e1 k1)

  verify_rebound-Reported :
      (wireguard : ApplyOutcome) (c : Option MihomoConfiguration) (e : CoordinatedExecutor W)
      → IsCoordinated r tunnel laws e
      → Reported (verify_rebound r tunnel wireguard c e)
  unfolding verify_rebound
  verify_rebound-Reported wireguard none e k = recover-Reported "mihomo_vpn_binding_unavailable" e k
  verify_rebound-Reported wireguard (some c) e k = verify_readbacks-Reported wireguard (some c) e k

  verify_remembered-Reported :
      (wireguard : ApplyOutcome) (p : Option MihomoAppliedState) (e : CoordinatedExecutor W)
      → IsCoordinated r tunnel laws e
      → Reported (verify_remembered r tunnel wireguard p e)
  unfolding verify_remembered
  verify_remembered-Reported wireguard none e k = verify_readbacks-Reported wireguard none e k
  verify_remembered-Reported wireguard (some p) e k =
      let bound = bind_vpn r tunnel p.configuration e in
      verify_rebound-Reported wireguard bound.0 bound.1
        (bind_vpn-IsCoordinated r tunnel laws p.configuration e k)

  verify_alone-Reported :
      (wireguard : ApplyOutcome) (c : Option MihomoConfiguration) (e : CoordinatedExecutor W)
      → str_eq wireguard.status "applied" ≡ true
      → IsCoordinated r tunnel laws e
      → Reported (verify_alone r tunnel wireguard c e)
  unfolding verify_alone
  verify_alone-Reported wireguard none e a k =
      (k, inl ((str_eq_iff wireguard.status "applied").0 a))
  verify_alone-Reported wireguard (some c) e a k = recover-Reported "mihomo_runtime_unavailable" e k

  verify_beside-Reported :
      (desired : ConfigurationDesired) (wireguard : ApplyOutcome) (e : CoordinatedExecutor W)
      → IsCoordinated r tunnel laws e
      → Reported (verify_beside r tunnel desired wireguard e)
  unfolding verify_beside
  verify_beside-Reported desired wireguard e k = ground (
    arith,
    recover-Reported (fallback wireguard.reason_code "endpoint_readback_mismatch") e k,
    verify_alone-Reported wireguard desired.mihomo e,
    recover-Reported "mihomo_readback_unavailable" e k,
    verify_remembered-Reported wireguard e.previous e k,
  )

  verify_by-Reported :
      (verifier : Option (ConfigurationDesired → Time → W → ApplyOutcome × W))
      (desired : ConfigurationDesired) (now : Time) (e : CoordinatedExecutor W)
      → tunnel.verify ≡ verifier
      → IsCoordinated r tunnel laws e
      → Reported (verify_by r tunnel verifier desired now e)
  unfolding verify_by
  verify_by-Reported none desired now e same k =
      recover-Reported "endpoint_readback_unavailable" e k
  verify_by-Reported (some verifier) desired now e same k =
      let verified = verifier desired now e.wireguard in
      verify_beside-Reported desired verified.0
        (record e { wireguard = verified.1; exchanges = tunnel_verified verified.0 ∷ e.exchanges })
        (ground (arith, laws.verify_keeps verifier same desired now e.wireguard k.holds))

  -- A failed verification fails closed too. Verify keeps the invariant; and unless its outcome is
  -- "applied", the proxy was disabled since it was last given a policy, or the last call was an attempt to
  -- disable it that failed.
  pub verify_coordinated-Reported :
      (desired : ConfigurationDesired) (now : Time) (e : CoordinatedExecutor W)
      → IsCoordinated r tunnel laws e
      → Reported (verify_coordinated r tunnel desired now e)
  unfolding verify_coordinated
  verify_coordinated-Reported desired now e k =
      verify_by-Reported tunnel.verify desired now e refl k
