-- ===== src/Endpoint/Manager/Preservation.antt =====
-- manager.go: syncConfiguration and the invariant, on every branch.
pub mod Applied
use soha_app.Base.{
  String, Bool, true, false, ◌≡◌, Option, none, some, arith, blank, sym, Bool-cases, ltb, not,
  str_eq, ◌==◌, ◌&&◌, if◌then◌else◌, Option-cases, inl, inr, refl, ◌∷◌,
}
use soha_app.Base.Errors.{Error, fail, is_ok}
use soha_app.Endpoint.Protocol.{
  ApplyOutcome, ConfigurationDesired, MihomoConfiguration, MihomoSource, Time, RuntimeMessage,
}
use soha_app.Endpoint.Manager.State.{
  Manager, Answer-cases, Status, Surroundings, degrade, fetched_source, verified_configuration,
  polled,
}
use soha_app.Endpoint.Manager.Floor.{
  begin_vpn_cleanup, enforcement_digest, remember_configuration, finish_vpn_cleanup,
}
use soha_app.Endpoint.Manager.Leases.{fallback}
use soha_app.Endpoint.Manager.Sync.{
  receive_message, sync_configuration, apply_and_report, apply_newer, apply_desired_status,
  apply_configuration, apply_runtime_intervals, check_mihomo, conclude_apply, fetch_source,
  report_outcome, revoke_authorization, settle_applied, revoke_and_apply, settle_version,
  sync_checked, sync_desired, verify_applied, with_source, observe_admission,
  managed_configuration_revoked,
}
use soha_app.Endpoint.Manager.Disconnect.{read_now, reject_configuration, revoke_leases}
use soha_app.Endpoint.Manager.Invariant.{
  IsGuarded, IsSound, Keeps, Owes, reject_configuration-Keeps, remember_configuration-Keeps,
  remember_configuration-ok,
}
use soha_app.Endpoint.Manager.Preservation.Applied.{IsReady, settle_version-Keeps}

module _ (env : Surroundings) where
  sync_checked-Keeps :
      (desired : ConfigurationDesired) (revoked : Bool) (now : Time) (m : Manager)
      → IsReady env desired m
      → Keeps env m (sync_checked env desired revoked now m).1
  unfolding sync_checked apply_runtime_intervals
  sync_checked-Keeps desired revoked now m r =
      let m1 = apply_runtime_intervals desired.runtime_intervals m in
      elim (Option-cases (enforcement_digest env desired)) [
        | inl no_digest ↦ ground (
          arith,
          no_digest,
          reject_configuration-Keeps env "invalid_configuration_payload" "" m1
              (unfold blank in refl),
        )
        | inr (hash, digest) ↦
            ground (arith, digest, settle_version-Keeps env desired hash revoked now m1)
      ]

  fetch_source-Keeps :
      (desired : ConfigurationDesired) (mihomo : MihomoConfiguration) (revoked : Bool) (now : Time)
      (m : Manager)
      → IsReady env desired m
      → Keeps env m (fetch_source env desired mihomo revoked now m).1
  unfolding fetch_source degrade
  fetch_source-Keeps desired mihomo revoked now m r =
      let m1 : Manager = record m { history = fetched_source mihomo.profile_id ∷ m.history } in
      let kept = λ (source : MihomoSource).
        sync_checked-Keeps (record desired { mihomo = some (with_source mihomo source) }) revoked
          now m1 in
      elim (Answer-cases (env.mihomo_source m.history mihomo.profile_id)) [
        | inl (reason, e) ↦ ground (arith, e)
        | inr (source, e) ↦ ground (arith, e, kept source)
      ]

  check_mihomo-Keeps :
      (desired : ConfigurationDesired) (mihomo : Option MihomoConfiguration) (revoked : Bool)
      (now : Time) (m : Manager)
      → IsReady env desired m
      → Keeps env m (check_mihomo env desired mihomo revoked now m).1
  unfolding check_mihomo
  check_mihomo-Keeps desired none revoked now m r = sync_checked-Keeps desired revoked now m r
  check_mihomo-Keeps desired (some mihomo) revoked now m r = ground (
    arith,
    reject_configuration-Keeps env "unsafe_mihomo_configuration" "" m (unfold blank in refl),
    reject_configuration-Keeps env "mihomo_policy_version_mismatch" "" m (unfold blank in refl),
    fetch_source-Keeps desired mihomo revoked now m r,
    sync_checked-Keeps desired revoked now m r,
  )

  pub Keeps-trans : {m n o : Manager} → Keeps env m n → Keeps env n o → Keeps env m o
  Keeps-trans k l = record {
    sound = l.sound;
    raises_version = omega (arith, k.raises_version, l.raises_version);
    raises_policy = omega (arith, k.raises_policy, l.raises_policy);
  }

  check_observed-Keeps :
      (desired : ConfigurationDesired) (now : Time) (m : Manager)
      → IsReady env desired m
      → Keeps env m
          (check_mihomo env desired desired.mihomo
            (managed_configuration_revoked desired m)
            now
            (observe_admission env desired m)).1
  unfolding observe_admission
  check_observed-Keeps desired now m r =
      let m1 = observe_admission env desired m in
      ground (
        arith,
        check_mihomo-Keeps desired desired.mihomo (managed_configuration_revoked desired m) now m1,
      )

  sync_desired-Keeps :
      (desired : ConfigurationDesired) (now : Time) (m : Manager)
      → IsSound env m
      → blank m.cleanup_reason ≡ true
      → Keeps env m (sync_desired env desired now m).1
  unfolding sync_desired
  sync_desired-Keeps desired now m s c =
      let m1 = (remember_configuration env desired m).1 in
      let kept = remember_configuration-Keeps env desired m s in
      elim (Bool-cases (is_ok (remember_configuration env desired m).0)) [
        | inl good ↦
            let passed = remember_configuration-ok env desired m good in
            rw (good, sync_desired)
              (Keeps-trans kept (
                check_observed-Keeps desired now m1 (record {
                  guarded = kept.sound.guarded;
                  at_floor = sym passed.0;
                  no_reason = rw (passed.7) c;
                  no_cleanup = passed.1;
                })))
        | inr bad ↦
            rw (bad, sync_desired)
              (Keeps-trans kept (
                reject_configuration-Keeps env "configuration_floor_unavailable" m1.cleanup_reason
                  m1 (unfold blank in refl) kept.sound.guarded kept.sound.owed))
      ]

  receive_message-Keeps :
      (message : RuntimeMessage) (m : Manager)
      → IsSound env m
      → blank m.cleanup_reason ≡ true
      → Keeps env m (receive_message env message m).1
  unfolding receive_message read_now degrade
  receive_message-Keeps message m s c =
      let (now, m1) = read_now env m in
      elim (Option-cases (env.decode_configuration message.payload)) [
        | inl no_payload ↦ ground (arith, no_payload)
        | inr (desired, decoded) ↦ ground (arith, decoded, sync_desired-Keeps desired now m1)
      ]

  pub sync_configuration-Keeps :
      (m : Manager)
      → IsSound env m
      → blank m.cleanup_reason ≡ true
      → Keeps env m (sync_configuration env m).1
  unfolding sync_configuration degrade
  sync_configuration-Keeps m s c =
      let m1 : Manager = record m { history = polled ∷ m.history } in
      elim (Answer-cases (env.configuration m.history)) [
        | inl (reason, e) ↦ ground (arith, e)
        | inr (message, e) ↦ ground (arith, e, receive_message-Keeps message m1)
      ]
