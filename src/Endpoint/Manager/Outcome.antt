-- ===== src/Endpoint/Manager/Outcome.antt =====
-- manager.go: what syncConfiguration leaves behind, with and without an error.
use soha_app.Base.{
  String, Bool, true, false, ◌≡◌, Option, none, some, ◌∷◌, arith, Bool-cases, Option-cases, inl,
  inr,
}
use soha_app.Base.Errors.{Error, is_ok}
use soha_app.Endpoint.Protocol.{
  ApplyOutcome, ConfigurationDesired, MihomoConfiguration, RuntimeMessage, Time,
}
use soha_app.Endpoint.Manager.State.{Answer-cases, Event, Manager, Surroundings, degrade, degraded}
use soha_app.Endpoint.Manager.Floor.{
  begin_vpn_cleanup, enforcement_digest, finish_vpn_cleanup, remember_configuration,
}
use soha_app.Endpoint.Manager.Leases.{fallback}
use soha_app.Endpoint.Manager.Disconnect.{read_now, reject_configuration, revoke_leases}
use soha_app.Endpoint.Manager.Sync.{
  apply_and_report, apply_configuration, apply_newer, apply_runtime_intervals, apply_desired_status,
  check_mihomo, conclude_apply, fetch_source, managed_configuration_revoked, observe_admission,
  receive_message, report_outcome, revoke_and_apply, revoke_authorization, settle_applied,
  settle_version, sync_checked, sync_configuration, sync_desired, verify_applied, with_source,
}
use soha_app.Endpoint.Manager.Invariant.{remember_configuration-ok}

-- Without an error the version that is applied is the one that the status shows and the floor has;
-- with one the status is degraded.
pub record IsSettled (r : Error × Manager) : Type 0 where
  pub in_step :
      is_ok r.0 ≡ true
      → (r.1.applied_version ≡ r.1.floor.configuration_version)
        × (r.1.status.configuration_version ≡ r.1.floor.configuration_version)
  pub failed_degraded : is_ok r.0 ≡ false → r.1.status.state ≡ degraded

module _ (env : Surroundings) where
  abbrev AtFloor : ConfigurationDesired → Manager → Type 0
  AtFloor desired m = desired.configuration_version ≡ m.floor.configuration_version

  reject_configuration-IsSettled :
      (reason : String) (m : Manager)
      → (is_ok (reject_configuration env reason m).0 ≡ false)
        × ((reject_configuration env reason m).1.status.state ≡ degraded)
  unfolding reject_configuration degrade
  reject_configuration-IsSettled reason m = ground arith

  verify_applied-IsSettled :
      (desired : ConfigurationDesired) (now : Time) (m : Manager)
      → AtFloor desired m
      → m.applied_version ≡ desired.configuration_version
      → IsSettled (verify_applied env desired now m)
  unfolding verify_applied report_outcome apply_desired_status
  verify_applied-IsSettled desired now m f a =
      let outcome = env.verify m.history desired now in
      let m1 : Manager = record m {
        history = Event.verified_configuration desired outcome ∷ m.history;
        applied_version = 0;
      } in
      let m2 = degrade (fallback outcome.reason_code "endpoint_readback_mismatch") m1 in
      let m3 = (report_outcome env desired outcome m2).1 in
      ground (arith, reject_configuration-IsSettled "endpoint_readback_mismatch" m3)

  revoke_authorization-floor :
      (revoked : Bool) (m : Manager)
      → (revoke_authorization env revoked m).1.floor.configuration_version
        ≡ m.floor.configuration_version
  unfolding revoke_authorization revoke_leases read_now finish_vpn_cleanup
  revoke_authorization-floor revoked m = ground arith

  conclude_apply-IsSettled :
      (desired : ConfigurationDesired) (hash : String) (revoked : Bool) (outcome : ApplyOutcome)
      (report_err : Error) (m : Manager)
      → AtFloor desired m
      → IsSettled (conclude_apply env desired hash revoked outcome report_err m)
  unfolding conclude_apply settle_applied apply_desired_status degrade
  conclude_apply-IsSettled desired hash revoked outcome report_err m f =
      let m1 = degrade (fallback outcome.reason_code "endpoint_apply_failed") m in
      ground (
        arith,
        revoke_authorization-floor revoked m,
        reject_configuration-IsSettled "endpoint_apply_failed" m1,
      )

  apply_and_report-IsSettled :
      (desired : ConfigurationDesired) (hash : String) (revoked : Bool) (now : Time) (m : Manager)
      → AtFloor desired m
      → IsSettled (apply_and_report env desired hash revoked now m)
  unfolding apply_and_report apply_configuration report_outcome
  apply_and_report-IsSettled desired hash revoked now m f =
      let (outcome, m1) = apply_configuration env desired now m in
      let (report_err, m2) = report_outcome env desired outcome m1 in
      conclude_apply-IsSettled desired hash revoked outcome report_err m2 f

  apply_newer-IsSettled :
      (desired : ConfigurationDesired) (hash : String) (revoked : Bool) (now : Time) (m : Manager)
      → AtFloor desired m
      → IsSettled (apply_newer env desired hash revoked now m)
  unfolding apply_newer revoke_and_apply begin_vpn_cleanup
  apply_newer-IsSettled desired hash revoked now m f =
      let started =
        (begin_vpn_cleanup env m.status.session_id m.lease_ids "authorization_revoked" m).1 in
      ground (
        arith,
        reject_configuration-IsSettled "authorization_revoked" started,
        apply_and_report-IsSettled desired hash true now started,
        apply_and_report-IsSettled desired hash false now m f,
      )

  settle_version-IsSettled :
      (desired : ConfigurationDesired) (hash : String) (revoked : Bool) (now : Time) (m : Manager)
      → AtFloor desired m
      → IsSettled (settle_version env desired hash revoked now m)
  unfolding settle_version degrade
  settle_version-IsSettled desired hash revoked now m f = ground (
    arith,
    reject_configuration-IsSettled "configuration_version_reused" m,
    verify_applied-IsSettled desired now m f,
    apply_newer-IsSettled desired hash revoked now m f,
  )

  sync_checked-IsSettled :
      (desired : ConfigurationDesired) (revoked : Bool) (now : Time) (m : Manager)
      → AtFloor desired m
      → IsSettled (sync_checked env desired revoked now m)
  unfolding sync_checked apply_runtime_intervals
  sync_checked-IsSettled desired revoked now m f =
      let m1 = apply_runtime_intervals desired.runtime_intervals m in
      let same : AtFloor desired m1 = ground arith in
      elim (Option-cases (enforcement_digest env desired)) [
        | inl e ↦
            ground (arith, e, reject_configuration-IsSettled "invalid_configuration_payload" m1)
        | inr (hash, e) ↦
            ground (arith, e, settle_version-IsSettled desired hash revoked now m1 same)
      ]

  fetch_source-IsSettled :
      (desired : ConfigurationDesired) (mihomo : MihomoConfiguration) (revoked : Bool) (now : Time)
      (m : Manager)
      → AtFloor desired m
      → IsSettled (fetch_source env desired mihomo revoked now m)
  unfolding fetch_source degrade
  fetch_source-IsSettled desired mihomo revoked now m f =
      let m1 = record m { history = Event.fetched_source mihomo.profile_id ∷ m.history } in
      elim (Answer-cases (env.mihomo_source m.history mihomo.profile_id)) [
        | inl (reason, e) ↦ ground (arith, e)
        | inr (source, e) ↦ ground (
          arith,
          e,
          sync_checked-IsSettled (record desired { mihomo = some (with_source mihomo source) })
              revoked now m1 f,
        )
      ]

  check_mihomo-IsSettled :
      (desired : ConfigurationDesired) (mihomo : Option MihomoConfiguration) (revoked : Bool)
      (now : Time) (m : Manager)
      → AtFloor desired m
      → IsSettled (check_mihomo env desired mihomo revoked now m)
  unfolding check_mihomo
  check_mihomo-IsSettled desired none revoked now m f =
      sync_checked-IsSettled desired revoked now m f
  check_mihomo-IsSettled desired (some mihomo) revoked now m f = ground (
    arith,
    reject_configuration-IsSettled "unsafe_mihomo_configuration" m,
    reject_configuration-IsSettled "mihomo_policy_version_mismatch" m,
    fetch_source-IsSettled desired mihomo revoked now m f,
    sync_checked-IsSettled desired revoked now m f,
  )

  sync_desired-IsSettled :
      (desired : ConfigurationDesired) (now : Time) (m : Manager)
      → IsSettled (sync_desired env desired now m)
  unfolding sync_desired observe_admission
  sync_desired-IsSettled desired now m =
      let (err, m1) = remember_configuration env desired m in
      elim (Bool-cases (is_ok err)) [
        | inl e ↦
            let version = (remember_configuration-ok env desired m e).0 in
            let m2 = observe_admission env desired m1 in
            let same : AtFloor desired m2 = ground (arith, version) in
            ground (
              arith,
              e,
              check_mihomo-IsSettled desired desired.mihomo
                  (managed_configuration_revoked desired m1) now m2 same,
            )
        | inr e ↦
            ground (arith, e, reject_configuration-IsSettled "configuration_floor_unavailable" m1)
      ]

  receive_message-IsSettled :
      (message : RuntimeMessage) (m : Manager) → IsSettled (receive_message env message m)
  unfolding receive_message read_now degrade
  receive_message-IsSettled message m =
      let (now, m1) = read_now env m in
      elim (Option-cases (env.decode_configuration message.payload)) [
        | inl e ↦ ground (arith, e)
        | inr (desired, e) ↦ ground (arith, e, sync_desired-IsSettled desired now m1)
      ]

  -- A poll of the configuration ends in one of two ways, whatever the surroundings answer. Without
  -- an error the version in force, the version shown and the version of the floor are the same. With
  -- an error the endpoint counts as degraded.
  pub sync_configuration-IsSettled : (m : Manager) → IsSettled (sync_configuration env m)
  unfolding sync_configuration degrade
  sync_configuration-IsSettled m =
      let m1 = record m { history = Event.polled ∷ m.history } in
      elim (Answer-cases (env.configuration m.history)) [
        | inl (reason, e) ↦ ground (arith, e)
        | inr (message, e) ↦ ground (arith, e, receive_message-IsSettled message m1)
      ]
