-- ===== src/Endpoint/Manager/Sync.antt =====
-- manager.go: syncConfiguration, from the poll to the applied configuration.
mod Display
unfoldable pub use Display.*
use soha_app.Base.{
  ℕ, ◌+◌, ◌*◌, String, Bool, true, false, not, ◌&&◌, ◌||◌, Option, none, some, [], ◌∷◌, ltb, leb,
  ◌==◌, if◌then◌else◌, is_some, str_eq, blank,
}
use soha_app.Base.Errors.{Error, ok, fail, is_ok, join}
use soha_app.Endpoint.Protocol.{
  Time, ApplyOutcome, ConfigurationApplied, ConfigurationDesired, MihomoConfiguration, MihomoSource,
  RuntimeIntervals, RuntimeMessage, WireGuardConfiguration,
}
use soha_app.Endpoint.Manager.State.{
  ConnectionState, Event, Manager, Status, Surroundings, degrade, degraded, got, refused,
}
use soha_app.Endpoint.Manager.Floor.{
  begin_vpn_cleanup, enforcement_digest, finish_vpn_cleanup, remember_configuration,
}
use soha_app.Endpoint.Manager.Leases.{fallback, lease_ids}
use soha_app.Endpoint.Manager.Disconnect.{read_now, reject_configuration, revoke_leases}

module _ (env : Surroundings) where
  -- manager.control.Report
  unfoldable pub report_outcome : ConfigurationDesired → ApplyOutcome → Manager → Error × Manager
  unfolding applied_report
  report_outcome desired outcome m =
      let request = applied_report desired outcome in
      (env.report m.history request, record m { history = Event.reported request ∷ m.history })

  -- manager.executor.Apply
  unfoldable pub apply_configuration :
      ConfigurationDesired → Time → Manager → ApplyOutcome × Manager
  apply_configuration desired now m =
      let outcome = env.apply m.history desired now in
      (outcome, record m { history = Event.applied_configuration desired outcome ∷ m.history })

  -- A version that is already applied is read back.
  unfoldable pub verify_applied : ConfigurationDesired → Time → Manager → Error × Manager
  verify_applied desired now m =
      if not env.supports_verify
      then (ok, record m { status = apply_desired_status desired m.status })
      else let outcome = env.verify m.history desired now in
        let m1 = record m { history = Event.verified_configuration desired outcome ∷ m.history } in
        if str_eq outcome.status "applied"
        then (ok, record m1 { status = apply_desired_status desired m.status })
        else let m2 =
            degrade (fallback outcome.reason_code "endpoint_readback_mismatch")
              (record m1 { applied_version = 0 }) in
          let (report_err, m3) = report_outcome desired outcome m2 in
          let (reject_err, m4) = reject_configuration env "endpoint_readback_mismatch" m3 in
          (join (fail "endpoint configuration drifted") (join report_err reject_err), m4)

  -- The revocation that follows the application of a revoked authorization.
  unfoldable pub revoke_authorization : Bool → Manager → Error × Manager
  revoke_authorization revoked m =
      if not revoked
      then (ok, m)
      else let (revoke_err, m1) =
          revoke_leases env m.status.session_id m.lease_ids "authorization_revoked" m in
        if is_ok revoke_err then finish_vpn_cleanup env m1 else (revoke_err, m1)

  -- What follows Apply and its report.
  unfoldable pub conclude_apply :
      ConfigurationDesired → String → Bool → ApplyOutcome → Error → Manager → Error × Manager
  conclude_apply desired hash revoked outcome report_err m =
      if not (str_eq outcome.status "applied")
      then (let (reject_err, m1) =
            reject_configuration env "endpoint_apply_failed"
              (degrade (fallback outcome.reason_code "endpoint_apply_failed") m) in
          (join (fail "endpoint configuration was not applied") (join report_err reject_err), m1))
      else let (revoke_err, m1) = revoke_authorization revoked m in
        let m2 = settle_applied desired hash revoked revoke_err m1 in
        (
          join report_err revoke_err,
          if is_ok report_err then m2 else degrade "configuration_report_failed" m2,
        )

  unfoldable pub apply_and_report :
      ConfigurationDesired → String → Bool → Time → Manager → Error × Manager
  apply_and_report desired hash revoked now m =
      let (outcome, m1) = apply_configuration desired now m in
      let (report_err, m2) = report_outcome desired outcome m1 in
      conclude_apply desired hash revoked outcome report_err m2

  -- A revoked authorization is recorded as a pending cleanup before it is applied.
  unfoldable pub revoke_and_apply : ConfigurationDesired → String → Time → Manager → Error × Manager
  revoke_and_apply desired hash now m =
      let (begin_err, m1) =
        begin_vpn_cleanup env m.status.session_id m.lease_ids "authorization_revoked" m in
      if is_ok begin_err
      then apply_and_report desired hash true now m1
      else let (reject_err, m2) = reject_configuration env "authorization_revoked" m1 in
        (join begin_err reject_err, m2)

  unfoldable pub apply_newer :
      ConfigurationDesired → String → Bool → Time → Manager → Error × Manager
  apply_newer desired hash revoked now m =
      if revoked
      then revoke_and_apply desired hash now m
      else apply_and_report desired hash false now m

  -- From the comparison of versions on.
  unfoldable pub settle_version :
      ConfigurationDesired → String → Bool → Time → Manager → Error × Manager
  settle_version desired hash revoked now m =
      if ltb desired.configuration_version m.status.configuration_version
      then (
        fail "network control returned a stale endpoint configuration",
        degrade "stale_configuration" m,
      )
      else if desired.configuration_version == m.status.configuration_version
          && not (blank m.applied_hash)
          && not (str_eq hash m.applied_hash)
      then reject_configuration env "configuration_version_reused" m
      else if desired.configuration_version == m.applied_version
      then verify_applied desired now m
      else apply_newer desired hash revoked now m

  -- The intervals and the content hash, once the mihomo source is known.
  unfoldable pub sync_checked : ConfigurationDesired → Bool → Time → Manager → Error × Manager
  sync_checked desired revoked now m =
      let m1 = apply_runtime_intervals desired.runtime_intervals m in
      elim (enforcement_digest env desired) [
        | none ↦ reject_configuration env "invalid_configuration_payload" m1
        | some hash ↦ settle_version desired hash revoked now m1
      ]

  -- manager.control.MihomoSource
  unfoldable pub fetch_source :
      ConfigurationDesired → MihomoConfiguration → Bool → Time → Manager → Error × Manager
  unfolding with_source
  fetch_source desired mihomo revoked now m =
      let m1 = record m { history = Event.fetched_source mihomo.profile_id ∷ m.history } in
      let unavailable : Error × Manager = (
        fail "network control returned an invalid mihomo source",
        degrade "mihomo_source_unavailable" m1,
      ) in
      elim (env.mihomo_source m.history mihomo.profile_id) [
        | refused reason ↦ unavailable
        | got source ↦
            if source_matches mihomo source
            then sync_checked (record desired { mihomo = some (with_source mihomo source) }) revoked
                now m1
            else unavailable
      ]

  unfoldable pub check_mihomo :
      ConfigurationDesired → Option MihomoConfiguration → Bool → Time → Manager → Error × Manager
  unfolding same_policy
  check_mihomo desired none revoked now m = sync_checked desired revoked now m
  check_mihomo desired (some mihomo) revoked now m =
      if not (is_some mihomo.protection && env.valid_mihomo mihomo desired.wireguard)
      then reject_configuration env "unsafe_mihomo_configuration" m
      else if not (same_policy desired mihomo)
      then reject_configuration env "mihomo_policy_version_mismatch" m
      else if str_eq mihomo.mode "managed_follow"
      then fetch_source desired mihomo revoked now m
      else sync_checked desired revoked now m

  -- The admission manager sees every configuration; its error is only logged.
  unfoldable pub observe_admission : ConfigurationDesired → Manager → Manager
  observe_admission desired m =
      if env.options.has_admission
      then record m { history = Event.observed_admission desired.admission ∷ m.history }
      else m

  -- From the decoded payload on.
  unfoldable pub sync_desired : ConfigurationDesired → Time → Manager → Error × Manager
  unfolding observe_admission
  sync_desired desired now m =
      let (err, m1) = remember_configuration env desired m in
      if is_ok err
      then check_mihomo desired desired.mihomo (managed_configuration_revoked desired m1) now
          (observe_admission desired m1)
      else let (reject_err, m2) = reject_configuration env "configuration_floor_unavailable" m1 in
        (join err reject_err, m2)

  unfoldable pub valid_message : RuntimeMessage → Time → Bool
  valid_message message now =
      str_eq message.schema_version "network-runtime/v1alpha1"
      && str_eq message.message_type "configuration.desired"
      && str_eq message.producer_id "network-control"
      && str_eq message.runtime_id env.options.runtime_id
      && str_eq message.runtime_kind "endpoint"
      && leb message.occurred_at (now + env.options.max_clock_skew)
      && ltb now message.expires_at
      && ltb message.occurred_at message.expires_at

  unfoldable pub receive_message : RuntimeMessage → Manager → Error × Manager
  receive_message message m =
      let (now, m1) = read_now env m in
      let invalid_payload : Error × Manager = (
        fail "network control returned an invalid endpoint configuration payload",
        degrade "invalid_configuration_payload" m1,
      ) in
      if not (valid_message message now)
      then (
        fail "network control returned an invalid endpoint configuration message",
        degrade "invalid_configuration_message" m1,
      )
      else elim (env.decode_configuration message.payload) [
        | none ↦ invalid_payload
        | some desired ↦
            if message.expires_at == desired.valid_until
            then sync_desired desired now m1
            else invalid_payload
      ]

  unfoldable pub sync_configuration : Manager → Error × Manager
  sync_configuration m =
      let m1 = record m { history = Event.polled ∷ m.history } in
      elim (env.configuration m.history) [
        | refused reason ↦ (fail "poll endpoint configuration", degrade "control_unavailable" m1)
        | got message ↦ receive_message message m1
      ]
