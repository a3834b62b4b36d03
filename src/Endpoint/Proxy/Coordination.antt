-- ===== src/Endpoint/Proxy/Coordination.antt =====
-- mihomo.go: Apply, Verify and Disable of `CoordinatedExecutor`.
pub mod Invariant
use soha_app.Base.{
  String, Bool, true, false, not, ◌&&◌, ◌||◌, Option, none, some, List, [], ◌∷◌, ◌==◌,
  if◌then◌else◌, blank, str_eq, is_empty,
}
use soha_app.Base.Errors.{Error, ok, fail, is_ok}
use soha_app.Endpoint.Protocol.{
  ApplyOutcome, ConfigurationDesired, MihomoConfiguration, MihomoProtection, Time,
  WireGuardConfiguration,
}
use soha_app.Endpoint.Manager.State.{Answer, got, refused}
use soha_app.Endpoint.Manager.Leases.{fallback}
use soha_app.Endpoint.Executor.Tunnel.{strings_eq}
use soha_app.Endpoint.Proxy.Validation.{valid_mihomo_configuration}
use soha_app.Endpoint.Proxy.State.{
  AppFile, ConfigurationExecutor, CoordinatedExecutor, Exchange, MihomoAppState, MihomoAppStatus,
  MihomoAppliedState, MihomoReadback, MihomoRuntime, mihomo_readback_eq, missing, no_app_status,
  no_readback, proxy_applied, proxy_disabled, proxy_subscribed, proxy_verified, state_loaded,
  state_saved, stored, tunnel_applied, tunnel_bound, tunnel_disabled, tunnel_verified,
  unconfigured_status, unreadable, valid_app_state, valid_app_status,
}

module _ (r : MihomoRuntime) {W : Type 0} (tunnel : ConfigurationExecutor W) where
  -- expectedMihomoReadback
  unfoldable pub expected_readback : MihomoConfiguration → MihomoReadback
  expected_readback c = record {
    mode = c.mode;
    profile_id = c.profile_id;
    profile_revision = c.profile_revision;
    mixed_port = c.mixed_port;
    controller_port = c.controller_port;
    dns_mode = c.dns_mode;
    selected_proxy = if str_eq c.source_type "manual_node" then "soha-manual" else c.selected_proxy;
    protection_hash = r.protection_hash (
        if str_eq c.source_type "manual_node"
        then record c { selected_proxy = "soha-manual" }
        else c);
  }

  remembered_readback : MihomoAppliedState → Option MihomoAppState → MihomoReadback
  unfolding expected_readback
  remembered_readback p none = expected_readback p.configuration
  remembered_readback p (some state) = record (expected_readback p.configuration) {
    selected_proxy = p.app_status.selected_proxy;
  }

  hash_of_previous : Option MihomoAppliedState → String
  unfolding remembered_readback
  hash_of_previous none = r.mihomo_hash no_readback
  hash_of_previous (some p) = r.mihomo_hash (remembered_readback p p.app_state)

  -- currentMihomoReadbackHash
  unfoldable pub current_hash : CoordinatedExecutor W → String
  unfolding hash_of_previous
  current_hash e = hash_of_previous e.previous

  abbrev pub outcome : String → String → String → ApplyOutcome
  outcome status hash reason = record {
    status = status;
    readback_hash = hash;
    reason_code = reason;
  }

  abbrev pub forget_proxy : CoordinatedExecutor W → CoordinatedExecutor W
  forget_proxy e = record e { mihomo_active = false; previous = none }

  abbrev pub forget_app : CoordinatedExecutor W → CoordinatedExecutor W
  forget_app e = record e { app_desired = none; app_status = no_app_status }

  -- executor.mihomo.Disable
  unfoldable pub disable_proxy : CoordinatedExecutor W → Error × CoordinatedExecutor W
  disable_proxy e =
      let err = r.disable e.exchanges in
      (err, record e { exchanges = proxy_disabled err ∷ e.exchanges })

  -- quiesceMihomo
  unfoldable pub quiesce : CoordinatedExecutor W → Error × CoordinatedExecutor W
  unfolding disable_proxy
  quiesce e =
      let (err, e1) = disable_proxy e in
      if not r.has_mihomo
      then (ok, forget_proxy e)
      else if is_ok err
      then (ok, forget_proxy e1)
      else (err, e1)

  -- recoverMihomo
  unfoldable pub recover_mihomo :
      String → CoordinatedExecutor W → ApplyOutcome × CoordinatedExecutor W
  recover_mihomo reason e =
      let (err, e1) = quiesce e in
      let e2 = forget_app e1 in
      (
        outcome "rejected" (current_hash e2)
            (if is_ok err then reason else "mihomo_disable_failed"),
        e2,
      )

  bind_by :
      Option (W → Option (String × List String) × W)
      → CoordinatedExecutor W
      → Option (String × List String) × CoordinatedExecutor W
  bind_by none e = (none, e)
  bind_by (some binding) e =
      let (bound, w) = binding e.wireguard in
      (bound, record e { wireguard = w; exchanges = tunnel_bound bound ∷ e.exchanges })

  with_interface : MihomoConfiguration → Option (String × List String) → Option MihomoConfiguration
  with_interface c none = none
  with_interface c (some (name, routes)) =
      if strings_eq routes c.vpn_routes then some (record c { vpn_interface = name }) else none

  -- bindMihomoVPN: the configuration with the interface, or `none` for an error
  unfoldable pub bind_vpn :
      MihomoConfiguration
      → CoordinatedExecutor W
      → Option MihomoConfiguration × CoordinatedExecutor W
  unfolding bind_by with_interface
  bind_vpn c e =
      let (bound, e1) = bind_by tunnel.vpn_binding e in
      if is_empty c.vpn_routes
      then (if blank c.vpn_interface then some c else none, e)
      else (with_interface c bound, e1)

  -- `if executor.mihomoActive && executor.mihomo != nil { … Disable … }`, with the two fields forgotten
  -- where no error came back
  unfoldable pub stop_active : CoordinatedExecutor W → Error × CoordinatedExecutor W
  unfolding disable_proxy
  stop_active e =
      let (err, e1) = disable_proxy e in
      if not (e.mihomo_active && r.has_mihomo)
      then (ok, forget_proxy e)
      else if is_ok err
      then (ok, forget_proxy e1)
      else (err, e1)

  -- rememberAppMihomo
  unfoldable pub remember_app :
      MihomoConfiguration
      → MihomoAppState
      → MihomoAppStatus
      → CoordinatedExecutor W
      → CoordinatedExecutor W
  remember_app c state status e = record e {
    mihomo_active = true;
    previous = some (record { configuration = c; app_state = some state; app_status = status });
    app_desired = some c;
    app_status = status;
  }

  -- saveMihomoAppState
  unfoldable pub save_app_state :
      MihomoAppState → CoordinatedExecutor W → Error × CoordinatedExecutor W
  save_app_state state e =
      let err = r.save_state e.exchanges state in
      if blank r.app_state_path || not (valid_app_state r.parse_url state)
      then (fail "mihomo app subscription state is invalid", e)
      else (err, record e { exchanges = state_saved state err ∷ e.exchanges })

  -- The end of applyMihomoAppState: the status is kept only once it is saved.
  keep_app_state :
      MihomoConfiguration
      → MihomoAppState
      → MihomoAppStatus
      → CoordinatedExecutor W
      → Error × CoordinatedExecutor W
  unfolding save_app_state remember_app
  keep_app_state c state status e =
      let state1 = record state { selected_proxy = status.selected_proxy } in
      let (err, e1) = save_app_state state1 e in
      if is_ok err
      then (ok, record (remember_app c state1 status e1) { app_clear_pending = false })
      else (err, (recover_mihomo "mihomo_state_save_failed" e1).1)

  subscribe_with :
      MihomoConfiguration
      → MihomoAppState
      → Answer MihomoAppStatus
      → CoordinatedExecutor W
      → Error × CoordinatedExecutor W
  unfolding keep_app_state
  subscribe_with c state (refused reason) e =
      (fail "mihomo app subscription apply failed", (recover_mihomo "mihomo_apply_failed" e).1)
  subscribe_with c state (got status) e =
      if valid_app_status status c
      then keep_app_state c state status e
      else (fail "mihomo app subscription apply failed", (recover_mihomo "mihomo_apply_failed" e).1)

  subscribe :
      Option MihomoConfiguration
      → MihomoAppState
      → CoordinatedExecutor W
      → Error × CoordinatedExecutor W
  unfolding subscribe_with
  subscribe none state e = (
    fail "VPN binding does not match authorized routes",
    (recover_mihomo "mihomo_vpn_binding_unavailable" e).1,
  )
  subscribe (some c) state e =
      let answer = r.apply_subscription e.exchanges c state.subscription_url state.selected_proxy in
      subscribe_with c state answer
        (record e { exchanges = proxy_subscribed c answer ∷ e.exchanges })

  -- applyMihomoAppState; the status that it returns with the error is the one of the new state.
  unfoldable pub apply_app_state :
      MihomoConfiguration → MihomoAppState → CoordinatedExecutor W → Error × CoordinatedExecutor W
  unfolding quiesce bind_vpn subscribe
  apply_app_state c state e =
      let (err, e1) = quiesce e in
      let (bound, e2) = bind_vpn c e1 in
      if not (r.has_mihomo && r.has_app)
      then (fail "mihomo app subscription runtime is unavailable", e)
      else if not (is_ok err)
      then (err, e1)
      else subscribe bound state e2
