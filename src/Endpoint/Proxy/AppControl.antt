-- ===== src/Endpoint/Proxy/AppControl.antt =====
-- mihomo.go: the operations of the app on its own subscription.
pub mod Runs
use soha_app.Base.{
  String, Bool, true, false, not, ◌&&◌, ◌||◌, Option, none, some, List, [], ◌∷◌, ◌==◌,
  if◌then◌else◌, blank, str_eq, is_empty,
}
use soha_app.Base.Errors.{Error, ok, fail, failed, is_ok, join}
use soha_app.Endpoint.Protocol.{
  ApplyOutcome, ConfigurationDesired, MihomoConfiguration, MihomoProtection, Time,
  WireGuardConfiguration,
}
use soha_app.Endpoint.Manager.State.{Answer, got, refused}
use soha_app.Endpoint.Manager.Leases.{fallback}
use soha_app.Endpoint.Proxy.Names.{valid_mihomo_name, valid_subscription_url}
use soha_app.Endpoint.Proxy.Validation.{valid_mihomo_configuration}
use soha_app.Endpoint.Proxy.State.{
  AppFile, ConfigurationExecutor, CoordinatedExecutor, Exchange, MihomoAppState, MihomoAppStatus,
  MihomoAppliedState, MihomoReadback, MihomoRuntime, Removal, absent, kept, mihomo_readback_eq,
  missing, no_app_status, no_readback, proxy_applied, proxy_disabled, proxy_subscribed,
  proxy_verified, removed, state_loaded, state_removed, state_saved, stored, tunnel_applied,
  tunnel_bound, tunnel_disabled, tunnel_verified, unconfigured_status, unreadable, valid_app_state,
  valid_app_status,
}
use soha_app.Endpoint.Proxy.Coordination.{
  apply_app_state, bind_vpn, current_hash, disable_proxy, expected_readback, forget_app,
  forget_proxy, outcome, quiesce, recover_mihomo, save_app_state, stop_active,
}
use soha_app.Endpoint.Proxy.Operations.{load_app_state, other_app_state}

module _ (r : MihomoRuntime) {W : Type 0} (tunnel : ConfigurationExecutor W) where
  app_mode : Option MihomoConfiguration → Option MihomoConfiguration
  app_mode none = none
  app_mode (some c) =
      if str_eq c.mode "app_subscription"
        && not (blank r.app_state_path)
        && r.has_mihomo
        && r.has_app
      then some c
      else none

  -- mihomoAppConfiguration; `none` is its error.
  unfoldable pub app_configuration : CoordinatedExecutor W → Option MihomoConfiguration
  unfolding app_mode
  app_configuration e = app_mode e.app_desired

  configure_with :
      String → Option MihomoConfiguration → CoordinatedExecutor W → Error × CoordinatedExecutor W
  configure_with url none e = (fail "mihomo app subscription is invalid or unavailable", e)
  configure_with url (some c) e =
      if valid_subscription_url r.parse_url url
      then apply_app_state r tunnel c
          (record {
            cleared = false;
            version = 1;
            profile_id = c.profile_id;
            profile_revision = c.profile_revision;
            subscription_url = url;
            selected_proxy = "";
          })
          e
      else (fail "mihomo app subscription is invalid or unavailable", e)

  -- ConfigureMihomoApp
  unfoldable pub configure_app : String → CoordinatedExecutor W → Error × CoordinatedExecutor W
  unfolding configure_with
  configure_app url e = configure_with url (app_configuration e) e

  current_state :
      MihomoConfiguration → Bool → AppFile → Option (MihomoConfiguration × MihomoAppState)
  current_state c pending (stored state) =
      if pending || other_app_state r tunnel c state then none else some (c, state)
  current_state c pending _ = none

  -- loadedMihomoAppState
  loaded_state :
      Option MihomoConfiguration
      → CoordinatedExecutor W
      → Option (MihomoConfiguration × MihomoAppState) × CoordinatedExecutor W
  unfolding current_state
  loaded_state none e = (none, e)
  loaded_state (some c) e =
      let (file, e1) = load_app_state r tunnel e in (current_state c e.app_clear_pending file, e1)

  select_with :
      String
      → Option (MihomoConfiguration × MihomoAppState)
      → CoordinatedExecutor W
      → Error × CoordinatedExecutor W
  select_with proxy none e = (fail "mihomo app subscription is not configured", e)
  select_with proxy (some (c, state)) e =
      if valid_mihomo_name proxy
      then apply_app_state r tunnel c (record state { selected_proxy = proxy }) e
      else (fail "mihomo app subscription is not configured", e)

  -- SelectMihomoApp
  unfoldable pub select_app : String → CoordinatedExecutor W → Error × CoordinatedExecutor W
  unfolding loaded_state select_with
  select_app proxy e =
      let (loaded, e1) = loaded_state (app_configuration e) e in select_with proxy loaded e1

  refresh_with :
      Option (MihomoConfiguration × MihomoAppState)
      → CoordinatedExecutor W
      → Error × CoordinatedExecutor W
  refresh_with none e = (fail "mihomo app subscription is not configured", e)
  refresh_with (some (c, state)) e = apply_app_state r tunnel c state e

  -- RefreshMihomoApp
  unfoldable pub refresh_app : CoordinatedExecutor W → Error × CoordinatedExecutor W
  unfolding loaded_state refresh_with
  refresh_app e = let (loaded, e1) = loaded_state (app_configuration e) e in refresh_with loaded e1

  file_removal_error : Removal → Error
  file_removal_error removed = ok
  file_removal_error absent = ok
  file_removal_error (kept reason) = fail reason

  -- executor.mihomo.Disable, and what is forgotten where it succeeds
  unfoldable pub drop_app :
      MihomoConfiguration → CoordinatedExecutor W → Error × CoordinatedExecutor W
  unfolding disable_proxy
  drop_app c e =
      let (err, e1) = disable_proxy r tunnel e in
      if is_ok err
      then (ok, record (forget_proxy r tunnel e1) { app_status = unconfigured_status c })
      else (err, e1)

  -- ClearMihomoApp where the cleared state is not saved
  clear_unsaved :
      MihomoConfiguration → Error → CoordinatedExecutor W → Error × CoordinatedExecutor W
  unfolding drop_app file_removal_error
  clear_unsaved c err e =
      let removal = r.remove_state e.exchanges in
      let (disable_err, e1) =
        drop_app c (record e { exchanges = state_removed removal ∷ e.exchanges }) in
      (join err (join (file_removal_error removal) disable_err), e1)

  clear_with : Option MihomoConfiguration → CoordinatedExecutor W → Error × CoordinatedExecutor W
  unfolding save_app_state drop_app clear_unsaved
  clear_with none e = (fail "mihomo app subscription is unavailable", e)
  clear_with (some c) e =
      let cleared : MihomoAppState = record {
        cleared = true;
        version = 1;
        profile_id = c.profile_id;
        profile_revision = c.profile_revision;
        subscription_url = "";
        selected_proxy = "";
      } in
      let (err, e1) = save_app_state r tunnel cleared (record e { app_clear_pending = true }) in
      if is_ok err then drop_app c e1 else clear_unsaved c err e1

  -- ClearMihomoApp
  unfoldable pub clear_app : CoordinatedExecutor W → Error × CoordinatedExecutor W
  unfolding clear_with
  clear_app e = clear_with (app_configuration e) e
