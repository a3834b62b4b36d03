-- ===== src/Endpoint/Manager/Cycle.antt =====
-- manager.go: the poll cycle, the expiry of what is enforced and the renewal of leases;
-- lifecycle.go: the watchdog on the uplink.
use soha_app.Base.{
  ℕ, ◌+◌, String, Bool, true, not, ◌&&◌, ◌||◌, Option, none, some, ◌∷◌, ltb, leb, ◌==◌,
  if◌then◌else◌, length, is_empty, str_eq, blank,
}
use soha_app.Base.Errors.{Error, ok, fail, is_ok, join}
use soha_app.Endpoint.Protocol.{Time, LeaseRenewRequest, LeaseRenewResult}
use soha_app.Endpoint.Manager.State.{Event, Manager, Surroundings, degrade, got, refused}
use soha_app.Endpoint.Manager.Leases.{intersects, lease_ids, renewal_time}
use soha_app.Endpoint.Manager.Disconnect.{disconnect_locked, read_now, reject_configuration}
use soha_app.Endpoint.Manager.Sync.{sync_configuration}

-- `!t.IsZero() && !t.After(now)`
unfoldable pub passed : Time → Time → Bool
passed t now = not (t == 0) && leb t now

unfoldable pub session_expired : Time → Manager → Bool
session_expired now m = not (blank m.status.session_id) && passed m.session_until now

unfoldable pub renewal_due : Time → Manager → Bool
renewal_due now m = not (blank m.status.session_id) && passed m.next_renew_at now

unfoldable pub renewal_refused : LeaseRenewRequest → LeaseRenewResult → Time → Bool
renewal_refused request result now =
    ltb result.policy_version 1
    || leb result.valid_until now
    || intersects request.lease_ids result.revoked_lease_ids
    || not (
        length (lease_ids result.network_leases result.resource_leases)
        == length result.network_leases + length result.resource_leases)
    || is_empty (lease_ids result.network_leases result.resource_leases)

module _ (env : Surroundings) where
  unfoldable pub accept_renewal :
      LeaseRenewRequest → LeaseRenewResult → Time → Manager → Error × Manager
  unfolding renewal_refused
  accept_renewal request result now m =
      if renewal_refused request result now
      then (let (err, m1) = reject_configuration env "lease_revoked" m in
          (join (fail "endpoint network lease was revoked") err, m1))
      else (
        ok,
        record m {
          session_until = result.valid_until;
          next_renew_at = renewal_time now result.valid_until env.options.renew_before;
          lease_ids = lease_ids result.network_leases result.resource_leases;
          status = record (m.status) { policy_version = result.policy_version };
        },
      )

  unfoldable pub renew : Time → Manager → Error × Manager
  unfolding accept_renewal
  renew now m =
      let request : LeaseRenewRequest = record {
        session_id = m.status.session_id;
        lease_ids = m.lease_ids;
        observed_configuration_version = m.status.configuration_version;
      } in
      let m1 = record m { history = Event.renewed request ∷ m.history } in
      if blank m.status.session_id || ltb m.status.configuration_version 1 || is_empty m.lease_ids
      then (fail "endpoint session cannot be renewed before a configuration is applied", m)
      else elim (env.renew m.history request) [
        | refused reason ↦ (fail "renew endpoint leases", m1)
        | got result ↦ accept_renewal request result now m1
      ]

  -- enforceExpiry
  unfoldable pub enforce_expiry : Manager → Manager
  enforce_expiry m =
      let (now, m1) = read_now env m in
      if session_expired now m1
      then (disconnect_locked env "lease_expired" m1).1
      else if not m1.disabled && passed m1.status.valid_until now
      then (disconnect_locked env "configuration_expired" m1).1
      else m1

  -- The end of Cycle: the tunnel's health, while a session is active.
  unfoldable pub check_tunnel : Manager → Error × Manager
  check_tunnel m =
      if blank m.status.session_id || not env.options.has_health_check
      then (ok, m)
      else let err = env.check_health m.history in
        let m1 = record m { history = Event.checked_health ∷ m.history } in
        if is_ok err
        then (ok, m1)
        else let (reject_err, m2) = reject_configuration env "vpn_tunnel_unhealthy" m1 in
          (join err reject_err, m2)

  unfoldable pub sync_and_check : Manager → Error × Manager
  sync_and_check m =
      let (err, m1) = sync_configuration env m in if is_ok err then check_tunnel m1 else (err, m1)

  -- Cycle between its expiry checks.
  unfoldable pub cycle_body : Bool → Time → Manager → Error × Manager
  cycle_body due now m =
      if due
      then (let (err, m1) = renew now m in
          if is_ok err then sync_and_check m1 else (err, degrade "lease_renewal_failed" m1))
      else sync_and_check m

  unfoldable pub cycle : Manager → Error × Manager
  cycle m =
      let (now, m1) = read_now env m in
      if not (blank m1.cleanup_reason)
      then disconnect_locked env m1.cleanup_reason m1
      else if session_expired now m1
      then disconnect_locked env "lease_expired" m1
      else if (not (blank m1.status.session_id) || not m1.disabled)
          && passed m1.status.valid_until now
      then disconnect_locked env "configuration_expired" m1
      else let (err, m2) = cycle_body (renewal_due now m1) now m1 in (err, enforce_expiry m2)

-- One round of watchNetworkLifecycle: what it has seen of the session and of the uplink.
pub record Watch : Type 0 where
  pub session : String
  pub previous : String

-- What a tick reads: the time since the last one in nanoseconds (`none` if the clock went back),
-- the uplink's fingerprint (`none` for an error), and whether the operation lock was free.
pub record Tick : Type 0 where
  pub gap : Option ℕ
  pub fingerprint : Option String
  pub lock_free : Bool

long_gap : Option ℕ → Bool
long_gap none = true
long_gap (some gap) = ltb 10_000_000_000 gap

unfoldable pub watch_reason : Watch → Tick → String
unfolding long_gap
watch_reason watch tick = elim tick.fingerprint [
  | none ↦ "network_state_unavailable"
  | some fingerprint ↦
      if long_gap tick.gap
      then "system_resume_requires_reconnect"
      else if not (str_eq fingerprint watch.previous)
      then "network_changed_requires_reconnect"
      else ""
]

module _ (env : Surroundings) where
  -- The health check of a tick that found no other reason.
  unfoldable pub watch_health : String → Manager → String × Manager
  watch_health reason m =
      if not (blank reason) || not env.options.has_health_check then (reason, m) else (
        if is_ok (env.check_health m.history) then "" else "vpn_health_changed",
        record m { history = Event.checked_health ∷ m.history },
      )

  -- The part of a tick behind the operation lock.
  unfoldable pub watch_locked : Watch → Tick → Manager → Manager
  watch_locked watch tick m =
      if not (str_eq m.status.session_id watch.session)
      then m
      else let (reason, m1) = watch_health (watch_reason watch tick) m in
        if blank reason then m1 else (disconnect_locked env reason m1).1

  -- One tick of watchNetworkLifecycle.
  unfoldable pub watch_tick : Watch → Tick → Manager → Watch × Manager
  watch_tick watch tick m =
      if blank m.status.session_id
      then (record { session = ""; previous = "" }, m)
      else let checked = if tick.lock_free then watch_locked watch tick m else m in
        elim tick.fingerprint [
          | none ↦ (watch, checked)
          | some fingerprint ↦
              if str_eq watch.session m.status.session_id
              then (watch, checked)
              else (record { session = m.status.session_id; previous = fingerprint }, m)
        ]
