-- ===== src/Endpoint/Manager/Tests.antt =====
-- manager.go on a concrete endpoint: its service answers a connection with one network lease and
-- its control plane then hands out configuration 7, which the executor applies.
mod Sample
use soha_app.Base.{
  ◌<◌, contains, ◌&&◌, ◌+◌, ◌-◌, ◌*◌, ◌/◌, ◌≤◌, ℕ, String, true, false, ◌≡◌, ◌⊎◌, some, [], ◌∷◌,
  arith, blank, is_empty, refl, Ever, inl, inr, str_eq,
}
use soha_app.Endpoint.Manager.Leases.{
  all_ids, renewal_time, valid_connect_scope, sort, valid_lease_shape, lease_ids, fallback,
}
use soha_app.Endpoint.Manager.Leases.Ids.{is_increasing, lease_ids-contains}
use soha_app.Endpoint.Manager.Floor.{
  floor_identity, matches_digest, restore_configuration_floor, begin_vpn_cleanup, new_manager,
  pending_floor, valid_configuration_floor, remember_configuration, enforcement_digest,
}
use soha_app.Endpoint.Manager.State.{degrade, PendingVpnCleanup, Manager, Surroundings, degraded}
use soha_app.Endpoint.Manager.Disconnect.{
  cleanup_failed_vpn, reject_configuration, disconnect, disable_endpoint, disconnect_locked,
  read_now, revoke_session,
}
use soha_app.Base.Errors.{ok, is_ok}
use soha_app.Endpoint.Manager.Cycle.{cycle, enforce_expiry}
use soha_app.Endpoint.Manager.Connect.{
  connect, occupied, connect_scope, accept_vpn_connection, random_id, valid_scope,
  connecting_status, allowed, distinct_leases, start_session,
}
use soha_app.Endpoint.Manager.Sync.{
  sync_configuration, receive_message, sync_desired, check_mihomo, sync_checked, settle_version,
  apply_newer, apply_and_report, conclude_apply, revoke_authorization, valid_message,
  apply_runtime_intervals, managed_configuration_revoked, apply_configuration, report_outcome,
  settle_applied, apply_desired_status,
}
use soha_app.Endpoint.Manager.Obligation.{
  IsDisabling, IsForgotten, IsKept, IsResumed, IsRevocation, begin_vpn_cleanup-new_manager,
  disconnect_locked-revokes, disconnect_locked-settles,
}
use soha_app.Endpoint.Manager.Invariant.{Descends, IsSound}
use soha_app.Endpoint.Manager.Run.{
  Run, Run-Descends, Run-cleanup_first, connects, cycles, disconnects, restarts, starts, then,
}
use soha_app.Endpoint.Manager.Expiry.{
  IsInForce, IsOwed, cycle-expiry, enforce_expiry-closes, renewal_time-bounds,
}
use soha_app.Endpoint.Manager.Outcome.{IsSettled, sync_configuration-IsSettled}
use soha_app.Endpoint.Manager.Admission.{IsClosed, connect-IsClosed}
use soha_app.Endpoint.Manager.Tests.Sample.{lease, broken, input, installed, office, stuck}
use soha_app.Endpoint.Identifier.{matches_identifier, all_identifiers}

-- The endpoint with its session
abbrev connected : Manager
connected = (connect office input installed).1

installed-IsSound : (env : Surroundings) → IsSound env installed
installed-IsSound env = record {
  guarded = record { recorded = λ configured. (refl, refl); ordered = tt };
  owed = tt;
}

connect_works :
    (is_ok (connect office input installed).0 ≡ true)
    × (connected.status.session_id ≡ "session-1")
    × (connected.lease_ids ≡ "lease-1" ∷ [])
    × (connected.applied_version ≡ 7)
    × (connected.session_until ≡ 2000)
    × (connected.next_renew_at ≡ 1900)
unfolding connect connect_scope accept_vpn_connection sync_configuration receive_message
    sync_desired check_mihomo sync_checked settle_version apply_newer apply_and_report
    conclude_apply revoke_authorization remember_configuration enforcement_digest read_now random_id
    valid_scope matches_identifier valid_connect_scope occupied connecting_status sort allowed
    valid_lease_shape distinct_leases lease_ids start_session renewal_time fallback blank str_eq
    valid_message apply_runtime_intervals managed_configuration_revoked apply_configuration
    report_outcome settle_applied apply_desired_status all_identifiers
connect_works = (refl, refl, refl, refl, refl, refl)

-- The session is left and the service starts again.
abbrev left : Manager
left = (disconnect_locked office "user_disconnected" connected).1

abbrev reopened : Manager
reopened = (new_manager office left.disk left.history).1

visits : Run office installed reopened
unfolding connect connect_scope accept_vpn_connection sync_configuration receive_message
    sync_desired check_mihomo sync_checked settle_version apply_newer apply_and_report
    conclude_apply revoke_authorization remember_configuration enforcement_digest read_now random_id
    valid_scope matches_identifier valid_connect_scope occupied connecting_status sort allowed
    valid_lease_shape distinct_leases lease_ids start_session renewal_time fallback blank str_eq
    valid_message apply_runtime_intervals managed_configuration_revoked apply_configuration
    report_outcome settle_applied apply_desired_status all_identifiers disconnect disconnect_locked
    new_manager restore_configuration_floor valid_configuration_floor matches_digest floor_identity
visits = then (then (then starts (connects input)) disconnects) (restarts refl refl)

Run-Descends_example :
    (0 ≤ reopened.floor.configuration_version)
    × (0 ≤ reopened.floor.policy_version)
    × Descends reopened.floor.configuration_version reopened.history
Run-Descends_example = Run-Descends office (installed-IsSound office) visits

-- The executor failed, and the control plane took no revocation.
abbrev stranded : Manager
stranded = (connect stuck input installed).1

abbrev owing : PendingVpnCleanup
owing = record { session_id = "session-1"; lease_ids = "lease-1" ∷ []; reason = "connect_failed" }

stranded_owes : stranded.floor.pending_cleanup ≡ some owing
unfolding connect connect_scope accept_vpn_connection sync_configuration receive_message
    sync_desired check_mihomo sync_checked settle_version apply_newer apply_and_report
    conclude_apply revoke_authorization remember_configuration enforcement_digest read_now random_id
    valid_scope matches_identifier valid_connect_scope occupied connecting_status sort allowed
    valid_lease_shape distinct_leases lease_ids start_session renewal_time fallback blank str_eq
    valid_message apply_runtime_intervals managed_configuration_revoked apply_configuration
    report_outcome settle_applied apply_desired_status all_identifiers disconnect_locked
    reject_configuration cleanup_failed_vpn degrade
stranded_owes = refl

Run-cleanup_first_example :
    ("session-1" ≡ stranded.status.session_id)
    × ("lease-1" ∷ [] ≡ stranded.lease_ids)
    × (cycle stuck stranded ≡ disconnect_locked stuck "connect_failed" (read_now stuck stranded).1)
    × (is_ok (connect stuck input stranded).0 ≡ false)
    × ((connect stuck input stranded).1.status ≡ stranded.status)
Run-cleanup_first_example =
    Run-cleanup_first stuck owing input (installed-IsSound stuck) (then starts (connects input))
      stranded_owes

broken_fails : is_ok (connect broken input installed).0 ≡ false
unfolding connect connect_scope accept_vpn_connection sync_configuration receive_message
    sync_desired check_mihomo sync_checked settle_version apply_newer apply_and_report
    conclude_apply revoke_authorization remember_configuration enforcement_digest read_now random_id
    valid_scope matches_identifier valid_connect_scope occupied connecting_status sort allowed
    valid_lease_shape distinct_leases lease_ids start_session renewal_time fallback blank str_eq
    valid_message apply_runtime_intervals managed_configuration_revoked apply_configuration
    report_outcome settle_applied apply_desired_status all_identifiers disconnect_locked
    reject_configuration cleanup_failed_vpn degrade
broken_fails = refl

connect-IsClosed_example : IsClosed (connect broken input installed).1
unfolding occupied blank
connect-IsClosed_example = connect-IsClosed broken input installed refl broken_fails

sync_configuration-IsSettled_example : IsSettled (sync_configuration office connected)
sync_configuration-IsSettled_example = sync_configuration-IsSettled office connected

abbrev expired : Manager
expired = record connected { session_until = 900 }

cycle-expiry_example : IsInForce 1000 (cycle office expired).1 ⊎ IsOwed (cycle office expired).1
cycle-expiry_example = cycle-expiry office expired (λ history. omega arith)

enforce_expiry-closes_example :
    IsInForce 1000 (enforce_expiry office expired) ⊎ IsOwed (enforce_expiry office expired)
enforce_expiry-closes_example = enforce_expiry-closes office expired

renewal_time-bounds_example :
    (1000 ≤ renewal_time 1000 2000 100)
    × (renewal_time 1000 2000 100 ≤ 2000)
    × (2000 ≤ renewal_time 1000 2000 100 + 100)
    × (2 * (2000 - 1000) ≤ 3 * (renewal_time 1000 2000 100 - 1000))
    × ((renewal_time 1000 2000 100 + 100 ≡ 2000)
        ⊎ (renewal_time 1000 2000 100 + (2000 - 1000) / 3 ≡ 2000))
    × ((◌≡◌ {A = ℕ} 100 0) ⊎ (2000 - 1000 < 3) ⊎ (renewal_time 1000 2000 100 < 2000))
renewal_time-bounds_example = renewal_time-bounds 1000 2000 100 (omega arith)

begin_vpn_cleanup-new_manager_example :
    let reason : String = "user_disconnected" in
    let m1 = (begin_vpn_cleanup office "session-1" ("lease-1" ∷ []) reason connected).1 in
    let m2 = (disable_endpoint office m1).1 in
    let m3 = (revoke_session office "session-1" ("lease-1" ∷ []) reason m2).1 in
    IsResumed office reason connected (new_manager office m1.disk [])
    × IsResumed office reason connected (new_manager office m2.disk [])
    × IsResumed office reason connected (new_manager office m3.disk [])
    × ((is_ok (disconnect_locked office reason connected).0 ≡ true)
        ⊎ IsResumed office reason connected
            (new_manager office (disconnect_locked office reason connected).1.disk []))
unfolding connect connect_scope accept_vpn_connection sync_configuration receive_message
    sync_desired check_mihomo sync_checked settle_version apply_newer apply_and_report
    conclude_apply revoke_authorization remember_configuration enforcement_digest read_now random_id
    valid_scope matches_identifier valid_connect_scope occupied connecting_status sort allowed
    valid_lease_shape distinct_leases lease_ids start_session renewal_time fallback blank str_eq
    valid_message apply_runtime_intervals managed_configuration_revoked apply_configuration
    report_outcome settle_applied apply_desired_status all_identifiers begin_vpn_cleanup
    pending_floor valid_configuration_floor matches_digest floor_identity
begin_vpn_cleanup-new_manager_example =
    begin_vpn_cleanup-new_manager office "user_disconnected" connected [] refl refl refl refl refl
      refl refl

disconnect_locked-revokes_example :
    let history = (disconnect_locked office "user_disconnected" connected).1.history in
    Ever (IsRevocation connected.status.session_id connected.lease_ids "user_disconnected") history
    × Ever IsDisabling history
unfolding connect connect_scope accept_vpn_connection sync_configuration receive_message
    sync_desired check_mihomo sync_checked settle_version apply_newer apply_and_report
    conclude_apply revoke_authorization remember_configuration enforcement_digest read_now random_id
    valid_scope matches_identifier valid_connect_scope occupied connecting_status sort allowed
    valid_lease_shape distinct_leases lease_ids start_session renewal_time fallback blank str_eq
    valid_message apply_runtime_intervals managed_configuration_revoked apply_configuration
    report_outcome settle_applied apply_desired_status all_identifiers disconnect_locked
disconnect_locked-revokes_example =
    disconnect_locked-revokes office "user_disconnected" connected refl refl refl

disconnect_locked-settles_example :
    let (err, m) = disconnect_locked stuck "user_disconnected" connected in
    ((is_ok err ≡ true) × IsForgotten stuck m)
    ⊎ ((is_ok err ≡ false) × IsKept stuck "user_disconnected" connected m)
disconnect_locked-settles_example = disconnect_locked-settles stuck "user_disconnected" connected

lease_ids-contains_example :
    (contains (lease_ids (lease ∷ lease ∷ []) []) "lease-1"
      ≡ (contains (all_ids (lease ∷ lease ∷ []) []) "lease-1" && matches_identifier "lease-1"))
    × (is_increasing (lease_ids (lease ∷ lease ∷ []) []) ≡ true)
lease_ids-contains_example = lease_ids-contains "lease-1" (lease ∷ lease ∷ []) []
