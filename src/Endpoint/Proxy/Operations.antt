-- ===== src/Endpoint/Proxy/Operations.antt =====
-- mihomo.go: Apply, Verify and Disable of `CoordinatedExecutor`.
pub mod Order
use soha_app.Base.{
  String, Bool, true, false, not, ◌&&◌, ◌||◌, Option, none, some, List, [], ◌∷◌, ◌==◌,
  if◌then◌else◌, blank, str_eq, is_empty,
}
use soha_app.Base.Errors.{Error, ok, fail, failed, is_ok, join}
use soha_app.Endpoint.Protocol.{
  ApplyOutcome, ConfigurationDesired, MihomoConfiguration, MihomoProtection, Time,
  WireGuardConfiguration,
}
use soha_app.Endpoint.Manager.State.{Answer, got, refused}
use soha_app.Endpoint.Manager.Leases.{fallback}
use soha_app.Endpoint.Proxy.Names.{valid_mihomo_name, valid_subscription_url}
use soha_app.Endpoint.Proxy.Validation.{valid_mihomo_configuration}
use soha_app.Endpoint.Proxy.State.{
  AppFile, ConfigurationExecutor, CoordinatedExecutor, Exchange, MihomoAppState, MihomoAppStatus,
  MihomoAppliedState, MihomoReadback, MihomoRuntime, Removal, absent, kept, mihomo_readback_eq,
  missing, no_app_status, no_readback, proxy_applied, proxy_disabled, proxy_subscribed,
  proxy_verified, removed, state_loaded, state_removed, state_saved, stored, tunnel_applied,
  tunnel_bound, tunnel_disabled, tunnel_verified, unconfigured_status, unreadable, valid_app_state,
  valid_app_status,
}
use soha_app.Endpoint.Proxy.Coordination.{
  apply_app_state, bind_vpn, current_hash, disable_proxy, expected_readback, forget_app,
  forget_proxy, outcome, quiesce, recover_mihomo, save_app_state, stop_active,
}

module _ (r : MihomoRuntime) {W : Type 0} (tunnel : ConfigurationExecutor W) where
  checked_file : AppFile → AppFile
  checked_file missing = missing
  checked_file (unreadable reason) = unreadable reason
  checked_file (stored state) =
      if valid_app_state r.parse_url state
      then stored state
      else unreadable "stored mihomo app subscription is invalid"

  -- loadMihomoAppState
  unfoldable pub load_app_state : CoordinatedExecutor W → AppFile × CoordinatedExecutor W
  unfolding checked_file
  load_app_state e =
      let file = r.load_state e.exchanges in
      (checked_file file, record e { exchanges = state_loaded file ∷ e.exchanges })

  -- A stored state that is not the one of this configuration.
  unfoldable pub other_app_state : MihomoConfiguration → MihomoAppState → Bool
  other_app_state c state =
      state.cleared
      || not (str_eq state.profile_id c.profile_id)
      || not (state.profile_revision == c.profile_revision)

  -- The app's proxy stands down until a subscription is configured.
  unfoldable pub stand_down :
      MihomoConfiguration → CoordinatedExecutor W → ApplyOutcome × CoordinatedExecutor W
  unfolding stop_active
  stand_down c e =
      let (err, e1) = stop_active r tunnel e in
      if is_ok err
      then (
        outcome r tunnel "applied" (r.mihomo_hash (expected_readback r tunnel c)) "",
        record e1 { app_status = unconfigured_status c },
      )
      else recover_mihomo r tunnel "mihomo_disable_failed" e1

  -- A state file that cannot be read.
  unfoldable pub reject_app_state :
      MihomoConfiguration → CoordinatedExecutor W → ApplyOutcome × CoordinatedExecutor W
  unfolding stop_active
  reject_app_state c e =
      let (err, e1) = stop_active r tunnel e in
      if is_ok err
      then (
        outcome r tunnel "rejected" (r.mihomo_hash no_readback) "mihomo_state_invalid",
        record e1 { app_status = unconfigured_status c },
      )
      else recover_mihomo r tunnel "mihomo_state_invalid" e1

  unfoldable pub restore_app_state :
      MihomoConfiguration
      → MihomoAppState
      → CoordinatedExecutor W
      → ApplyOutcome × CoordinatedExecutor W
  restore_app_state c state e =
      let (err, e1) = apply_app_state r tunnel c state e in
      if is_ok err
      then (
        outcome r tunnel "applied"
            (r.mihomo_hash (record (expected_readback r tunnel c) {
              selected_proxy = e1.app_status.selected_proxy;
            }))
            "",
        e1,
      )
      else (outcome r tunnel "rejected" (r.mihomo_hash no_readback) "mihomo_apply_failed", e1)

  unfoldable pub apply_app_file :
      MihomoConfiguration → AppFile → CoordinatedExecutor W → ApplyOutcome × CoordinatedExecutor W
  apply_app_file c missing e = stand_down c e
  apply_app_file c (unreadable reason) e =
      if e.app_clear_pending then stand_down c e else reject_app_state c e
  apply_app_file c (stored state) e =
      if e.app_clear_pending || other_app_state c state
      then stand_down c e
      else restore_app_state c state e

  -- applyStoredMihomoApp
  unfoldable pub apply_stored_app :
      MihomoConfiguration → CoordinatedExecutor W → ApplyOutcome × CoordinatedExecutor W
  unfolding load_app_state
  apply_stored_app c e =
      let (file, e1) = load_app_state e in
      if blank r.app_state_path then stand_down c e else apply_app_file c file e1

  -- rememberManagedMihomo
  unfoldable pub remember_managed :
      MihomoConfiguration → CoordinatedExecutor W → CoordinatedExecutor W
  remember_managed c e = record e {
    mihomo_active = true;
    previous = some (record { configuration = c; app_state = none; app_status = no_app_status });
    app_desired = none;
    app_status = no_app_status;
  }

  conclude_managed :
      MihomoConfiguration
      → Answer MihomoReadback
      → CoordinatedExecutor W
      → ApplyOutcome × CoordinatedExecutor W
  unfolding remember_managed
  conclude_managed c (refused reason) e = recover_mihomo r tunnel "mihomo_apply_failed" e
  conclude_managed c (got readback) e =
      if mihomo_readback_eq readback (expected_readback r tunnel c)
      then (outcome r tunnel "applied" (r.mihomo_hash readback) "", remember_managed c e)
      else recover_mihomo r tunnel "mihomo_apply_failed" e

  -- applyMihomo in the mode "managed_follow"
  unfoldable pub apply_managed :
      MihomoConfiguration → CoordinatedExecutor W → ApplyOutcome × CoordinatedExecutor W
  unfolding conclude_managed
  apply_managed c e =
      let answer = r.apply e.exchanges c in
      conclude_managed c answer
        (record (forget_app r tunnel e) { exchanges = proxy_applied c answer ∷ e.exchanges })

  -- applyMihomo without a proxy
  unfoldable pub stop_mihomo : CoordinatedExecutor W → ApplyOutcome × CoordinatedExecutor W
  unfolding stop_active
  stop_mihomo e =
      let (err, e1) = stop_active r tunnel e in
      if is_ok err
      then (outcome r tunnel "applied" (r.mihomo_hash no_readback) "", forget_app r tunnel e1)
      else recover_mihomo r tunnel "mihomo_disable_failed" e1

  -- applyMihomo
  unfoldable pub apply_mihomo :
      Option WireGuardConfiguration
      → Option MihomoConfiguration
      → CoordinatedExecutor W
      → ApplyOutcome × CoordinatedExecutor W
  apply_mihomo wg none e = stop_mihomo e
  apply_mihomo wg (some c) e =
      if not (valid_mihomo_configuration r.parse_url c wg (str_eq c.mode "managed_follow"))
      then recover_mihomo r tunnel "unsafe_mihomo_configuration" e
      else if not r.has_mihomo
      then (outcome r tunnel "rejected" (current_hash r tunnel e) "mihomo_runtime_unavailable", e)
      else if str_eq c.mode "app_subscription"
      then apply_stored_app c (record e { app_desired = some c })
      else apply_managed c e

  -- What the configuration takes over from the tunnel's, before it is bound.
  abbrev pub beside_tunnel :
      ConfigurationDesired → WireGuardConfiguration → MihomoConfiguration → MihomoConfiguration
  beside_tunnel desired wg c = record c {
    enforcement_until = desired.valid_until;
    dns_records = wg.dns_records;
    vpn_routes = wg.routes;
  }

  -- `none` where the tunnel cannot be bound
  unfoldable pub prepare_mihomo :
      ConfigurationDesired
      → Option WireGuardConfiguration
      → MihomoConfiguration
      → CoordinatedExecutor W
      → Option MihomoConfiguration × CoordinatedExecutor W
  prepare_mihomo desired none c e = (some (record c { enforcement_until = desired.valid_until }), e)
  prepare_mihomo desired (some wg) c e = bind_vpn r tunnel (beside_tunnel desired wg c) e

  unfoldable pub follows_policy : ConfigurationDesired → Option MihomoProtection → Bool
  follows_policy desired none = false
  follows_policy desired (some p) = p.policy_version == desired.policy_version

  combine :
      ApplyOutcome → ApplyOutcome × CoordinatedExecutor W → ApplyOutcome × CoordinatedExecutor W
  combine wireguard (mihomo, e) = (
    record mihomo { readback_hash = r.combined_hash wireguard.readback_hash mihomo.readback_hash },
    e,
  )

  -- Apply behind the binding
  unfoldable pub apply_prepared :
      ConfigurationDesired
      → ApplyOutcome
      → Option MihomoConfiguration
      → CoordinatedExecutor W
      → ApplyOutcome × CoordinatedExecutor W
  unfolding combine
  apply_prepared desired wireguard none e = (
    outcome r tunnel "rejected"
        (r.combined_hash wireguard.readback_hash (r.mihomo_hash no_readback))
        "mihomo_vpn_binding_unavailable",
    e,
  )
  apply_prepared desired wireguard (some c) e =
      if follows_policy desired c.protection
      then combine wireguard (apply_mihomo desired.wireguard (some c) e)
      else recover_mihomo r tunnel "mihomo_policy_version_mismatch" e

  -- Apply behind the tunnel
  unfoldable pub apply_beside :
      ConfigurationDesired
      → ApplyOutcome
      → Option MihomoConfiguration
      → CoordinatedExecutor W
      → ApplyOutcome × CoordinatedExecutor W
  unfolding prepare_mihomo combine
  apply_beside desired wireguard none e = combine wireguard (apply_mihomo desired.wireguard none e)
  apply_beside desired wireguard (some c) e =
      let (prepared, e1) = prepare_mihomo desired desired.wireguard c e in
      apply_prepared desired wireguard prepared e1

  -- executor.wireGuard.Apply
  unfoldable pub apply_tunnel_first :
      ConfigurationDesired → Time → CoordinatedExecutor W → ApplyOutcome × CoordinatedExecutor W
  apply_tunnel_first desired now e =
      let (wireguard, w) = tunnel.apply desired now e.wireguard in
      (
        wireguard,
        record e { wireguard = w; exchanges = tunnel_applied desired wireguard ∷ e.exchanges },
      )

  -- Apply behind the quiescence of the proxy
  unfoldable pub apply_quiet :
      ConfigurationDesired → Time → CoordinatedExecutor W → ApplyOutcome × CoordinatedExecutor W
  unfolding apply_tunnel_first
  apply_quiet desired now e =
      let (wireguard, e1) = apply_tunnel_first desired now (forget_app r tunnel e) in
      if str_eq wireguard.status "applied"
      then apply_beside desired wireguard desired.mihomo e1
      else (
        outcome r tunnel "rejected"
            (r.combined_hash wireguard.readback_hash (r.mihomo_hash no_readback))
            (fallback wireguard.reason_code "wireguard_apply_failed"),
        e1,
      )

  -- CoordinatedExecutor.Apply
  unfoldable pub apply_coordinated :
      ConfigurationDesired → Time → CoordinatedExecutor W → ApplyOutcome × CoordinatedExecutor W
  apply_coordinated desired now e =
      let (err, e1) = quiesce r tunnel e in
      if is_ok err
      then apply_quiet desired now e1
      else (outcome r tunnel "rejected" (current_hash r tunnel e1) "mihomo_disable_failed", e1)

  -- CoordinatedExecutor.Disable
  unfoldable pub disable_coordinated : CoordinatedExecutor W → Error × CoordinatedExecutor W
  disable_coordinated e =
      let (err, e1) = quiesce r tunnel e in
      let (disabled, w) = tunnel.disable e1.wireguard in
      if is_ok err
      then (
        disabled,
        record (forget_app r tunnel e1) {
          wireguard = w;
          exchanges = tunnel_disabled disabled ∷ e1.exchanges;
        },
      )
      else (err, e1)

  -- The end of Verify: the proxy's own readback.
  unfoldable pub verify_readbacks :
      ApplyOutcome
      → Option MihomoConfiguration
      → CoordinatedExecutor W
      → ApplyOutcome × CoordinatedExecutor W
  verify_readbacks wireguard configuration e =
      let err = r.verify e.exchanges configuration in
      let e1 = record e { exchanges = proxy_verified configuration err ∷ e.exchanges } in
      if is_ok err
      then (
        outcome r tunnel "applied"
            (r.combined_hash wireguard.readback_hash (current_hash r tunnel e1)) "",
        e1,
      )
      else recover_mihomo r tunnel "mihomo_readback_mismatch" e1

  verify_rebound :
      ApplyOutcome
      → Option MihomoConfiguration
      → CoordinatedExecutor W
      → ApplyOutcome × CoordinatedExecutor W
  verify_rebound wireguard none e = recover_mihomo r tunnel "mihomo_vpn_binding_unavailable" e
  verify_rebound wireguard (some current) e = verify_readbacks wireguard (some current) e

  verify_remembered :
      ApplyOutcome
      → Option MihomoAppliedState
      → CoordinatedExecutor W
      → ApplyOutcome × CoordinatedExecutor W
  unfolding verify_rebound
  verify_remembered wireguard none e = verify_readbacks wireguard none e
  verify_remembered wireguard (some p) e =
      let (current, e1) = bind_vpn r tunnel p.configuration e in verify_rebound wireguard current e1

  -- Verify without a proxy's runtime
  verify_alone :
      ApplyOutcome
      → Option MihomoConfiguration
      → CoordinatedExecutor W
      → ApplyOutcome × CoordinatedExecutor W
  verify_alone wireguard none e = (wireguard, e)
  verify_alone wireguard (some c) e = recover_mihomo r tunnel "mihomo_runtime_unavailable" e

  -- Verify behind the tunnel
  unfoldable pub verify_beside :
      ConfigurationDesired
      → ApplyOutcome
      → CoordinatedExecutor W
      → ApplyOutcome × CoordinatedExecutor W
  unfolding verify_remembered verify_alone
  verify_beside desired wireguard e =
      if not (str_eq wireguard.status "applied")
      then recover_mihomo r tunnel (fallback wireguard.reason_code "endpoint_readback_mismatch") e
      else if not r.has_mihomo
      then verify_alone wireguard desired.mihomo e
      else if not r.has_verify
      then recover_mihomo r tunnel "mihomo_readback_unavailable" e
      else verify_remembered wireguard e.previous e

  verify_by :
      Option (ConfigurationDesired → Time → W → ApplyOutcome × W)
      → ConfigurationDesired
      → Time
      → CoordinatedExecutor W
      → ApplyOutcome × CoordinatedExecutor W
  verify_by none desired now e = recover_mihomo r tunnel "endpoint_readback_unavailable" e
  verify_by (some verifier) desired now e =
      let (wireguard, w) = verifier desired now e.wireguard in
      verify_beside desired wireguard
        (record e { wireguard = w; exchanges = tunnel_verified wireguard ∷ e.exchanges })

  -- CoordinatedExecutor.Verify
  unfoldable pub verify_coordinated :
      ConfigurationDesired → Time → CoordinatedExecutor W → ApplyOutcome × CoordinatedExecutor W
  unfolding verify_by
  verify_coordinated desired now e = verify_by tunnel.verify desired now e
