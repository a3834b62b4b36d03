-- ===== src/Endpoint/Manager/Preservation/Applied.antt =====
-- manager.go: the second half of syncConfiguration and the invariant, from the order of the versions on.
use soha_app.Base.{
  String, Bool, true, false, ◌≡◌, none, arith, blank, ltb, not, str_eq, ◌==◌, ◌&&◌, if◌then◌else◌,
  refl, ◌∷◌,
}
use soha_app.Base.Errors.{Error, fail}
use soha_app.Endpoint.Protocol.{ApplyOutcome, ConfigurationDesired, Time}
use soha_app.Endpoint.Manager.State.{Manager, Status, Surroundings, degrade, verified_configuration}
use soha_app.Endpoint.Manager.Floor.{begin_vpn_cleanup, finish_vpn_cleanup}
use soha_app.Endpoint.Manager.Leases.{fallback}
use soha_app.Endpoint.Manager.Disconnect.{read_now, reject_configuration, revoke_leases}
use soha_app.Endpoint.Manager.Sync.{
  apply_and_report, apply_newer, apply_desired_status, apply_configuration, conclude_apply,
  report_outcome, revoke_authorization, settle_applied, revoke_and_apply, settle_version,
  verify_applied,
}
use soha_app.Endpoint.Manager.Invariant.{
  IsGuarded, IsSound, Keeps, Owes, reject_configuration-Keeps,
}

pub apply_desired_status-session_id :
    (desired : ConfigurationDesired) (s : Status)
    → (apply_desired_status desired s).session_id ≡ s.session_id
unfolding apply_desired_status
apply_desired_status-session_id desired s = ground arith

module _ (env : Surroundings) where
  -- Where the version that is being applied stands at the floor.
  abbrev AtFloor : ConfigurationDesired → Manager → Type 0
  AtFloor desired m = desired.configuration_version ≡ m.floor.configuration_version

  verify_applied-Keeps :
      (desired : ConfigurationDesired) (now : Time) (m : Manager)
      → IsSound env m
      → Keeps env m (verify_applied env desired now m).1
  unfolding verify_applied report_outcome degrade
  verify_applied-Keeps desired now m s =
      let outcome = env.verify m.history desired now in
      let m1 : Manager = record m {
        history = verified_configuration desired outcome ∷ m.history;
        applied_version = 0;
      } in
      let m2 = degrade (fallback outcome.reason_code "endpoint_readback_mismatch") m1 in
      let m3 = (report_outcome env desired outcome m2).1 in
      ground (
        arith,
        apply_desired_status-session_id desired m.status,
        reject_configuration-Keeps env "endpoint_readback_mismatch" m.cleanup_reason m3
            (unfold blank in refl),
      )

  revoke_authorization-IsGuarded :
      (revoked : Bool) (m : Manager)
      → IsGuarded env m
      → IsGuarded env (revoke_authorization env revoked m).1
  unfolding revoke_authorization revoke_leases read_now finish_vpn_cleanup
  revoke_authorization-IsGuarded revoked m g = ground arith

  conclude_apply-Keeps :
      (desired : ConfigurationDesired) (hash : String) (revoked : Bool) (outcome : ApplyOutcome)
      (report_err : Error) (m : Manager)
      → IsGuarded env m
      → AtFloor desired m
      → Owes m "authorization_revoked" m.floor.pending_cleanup
      → blank m.cleanup_reason ≡ true
      → (revoked ≡ false → m.floor.pending_cleanup ≡ none)
      → Keeps env m (conclude_apply env desired hash revoked outcome report_err m).1
  unfolding conclude_apply degrade revoke_authorization revoke_leases read_now finish_vpn_cleanup
      settle_applied
  conclude_apply-Keeps desired hash revoked outcome report_err m g f o c p =
      let m1 = degrade (fallback outcome.reason_code "endpoint_apply_failed") m in
      ground (
        arith,
        apply_desired_status-session_id desired m.status,
        reject_configuration-Keeps env "endpoint_apply_failed" "authorization_revoked" m1
            (unfold blank in refl),
      )

  apply_and_report-Keeps :
      (desired : ConfigurationDesired) (hash : String) (revoked : Bool) (now : Time) (m : Manager)
      → IsGuarded env m
      → AtFloor desired m
      → Owes m "authorization_revoked" m.floor.pending_cleanup
      → blank m.cleanup_reason ≡ true
      → (revoked ≡ false → m.floor.pending_cleanup ≡ none)
      → Keeps env m (apply_and_report env desired hash revoked now m).1
  unfolding apply_and_report apply_configuration report_outcome
  apply_and_report-Keeps desired hash revoked now m g f o c p =
      let (outcome, m1) = apply_configuration env desired now m in
      let (report_err, m2) = report_outcome env desired outcome m1 in
      let kept = conclude_apply-Keeps desired hash revoked outcome report_err m2 in
      ground (arith, kept)

  -- A manager that has passed the floor with `desired`, and owes no cleanup.
  pub record IsReady (desired : ConfigurationDesired) (m : Manager) : Type 0 where
    pub guarded : IsGuarded env m
    pub at_floor : AtFloor desired m
    pub no_reason : blank m.cleanup_reason ≡ true
    pub no_cleanup : m.floor.pending_cleanup ≡ none

  revoke_and_apply-Keeps :
      (desired : ConfigurationDesired) (hash : String) (now : Time) (m : Manager)
      → IsReady desired m
      → Keeps env m (revoke_and_apply env desired hash now m).1
  unfolding revoke_and_apply begin_vpn_cleanup
  revoke_and_apply-Keeps desired hash now m r =
      let started =
        (begin_vpn_cleanup env m.status.session_id m.lease_ids "authorization_revoked" m).1 in
      let nonblank : blank "authorization_revoked" ≡ false = unfold blank in refl in
      ground (
        arith,
        nonblank,
        reject_configuration-Keeps env "authorization_revoked" "authorization_revoked" started
            nonblank,
        apply_and_report-Keeps desired hash true now started,
      )

  pub degrade-Keeps :
      (reason : String) (m : Manager) → IsSound env m → Keeps env m (degrade reason m)
  unfolding degrade
  degrade-Keeps reason m s = ground arith

  IsReady-sound :
      (owed_for : String) (desired : ConfigurationDesired) (m : Manager)
      → IsReady desired m
      → Owes m owed_for m.floor.pending_cleanup
  IsReady-sound owed_for desired m r = rw r.no_cleanup tt

  IsReady-IsSound :
      {desired : ConfigurationDesired} {m : Manager} → IsReady desired m → IsSound env m
  IsReady-IsSound {desired} {m} r = record {
    guarded = r.guarded;
    owed = IsReady-sound m.cleanup_reason desired m r;
  }

  apply_newer-Keeps :
      (desired : ConfigurationDesired) (hash : String) (revoked : Bool) (now : Time) (m : Manager)
      → IsReady desired m
      → Keeps env m (apply_newer env desired hash revoked now m).1
  unfolding apply_newer
  apply_newer-Keeps desired hash true now m r = revoke_and_apply-Keeps desired hash now m r
  apply_newer-Keeps desired hash false now m r =
      apply_and_report-Keeps desired hash false now m r.guarded r.at_floor
        (IsReady-sound _ desired m r) r.no_reason (λ _. r.no_cleanup)

  pub settle_version-Keeps :
      (desired : ConfigurationDesired) (hash : String) (revoked : Bool) (now : Time) (m : Manager)
      → IsReady desired m
      → Keeps env m (settle_version env desired hash revoked now m).1
  unfolding settle_version
  settle_version-Keeps desired hash revoked now m r =
      let sound = IsReady-IsSound r in
      let stale = degrade-Keeps "stale_configuration" m sound in
      let reused =
        reject_configuration-Keeps env "configuration_version_reused" m.cleanup_reason m
          (unfold blank in refl) r.guarded sound.owed in
      let verified = verify_applied-Keeps desired now m sound in
      let applied = apply_newer-Keeps desired hash revoked now m r in
      settle (ltb desired.configuration_version m.status.configuration_version)
        (desired.configuration_version == m.status.configuration_version
          && not (blank m.applied_hash)
          && not (str_eq hash m.applied_hash))
        (desired.configuration_version == m.applied_version) stale reused verified applied
    where
      settle :
          (a b c : Bool)
          → Keeps env m (degrade "stale_configuration" m)
          → Keeps env m (reject_configuration env "configuration_version_reused" m).1
          → Keeps env m (verify_applied env desired now m).1
          → Keeps env m (apply_newer env desired hash revoked now m).1
          → Keeps env m
              (if a
                then (
                  fail "network control returned a stale endpoint configuration",
                  degrade "stale_configuration" m,
                )
                else if b
                then reject_configuration env "configuration_version_reused" m
                else if c
                then verify_applied env desired now m
                else apply_newer env desired hash revoked now m).1
      settle true b c k1 k2 k3 k4 = k1
      settle false true c k1 k2 k3 k4 = k2
      settle false false true k1 k2 k3 k4 = k3
      settle false false false k1 k2 k3 k4 = k4
