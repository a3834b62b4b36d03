-- ===== src/Endpoint/Manager/Expiry.antt =====
-- manager.go: enforceExpiry and renewalTime.
use soha_app.Base.{
  ℕ, ◌+◌, ◌*◌, ◌-◌, ◌/◌, ◌≤◌, ◌<◌, String, true, false, ◌≡◌, ◌⊎◌, arith, blank, refl,
}
use soha_app.Endpoint.Protocol.{Time}
use soha_app.Endpoint.Manager.State.{History, Manager, Surroundings}
use soha_app.Endpoint.Manager.Leases.{renewal_time}
use soha_app.Endpoint.Manager.Disconnect.{disconnect_locked, read_now}
use soha_app.Endpoint.Manager.Cycle.{
  cycle, cycle_body, enforce_expiry, passed, renewal_due, session_expired,
}
use soha_app.Endpoint.Manager.Obligation.{disconnect_locked-settles}

-- Neither the session nor, while the endpoint is enabled, the configuration has expired by `now`.
abbrev pub IsInForce : Time → Manager → Type 0
IsInForce now m =
    (session_expired now m ≡ false)
    × ((m.disabled ≡ true) ⊎ (passed m.status.valid_until now ≡ false))

-- Or the cleanup is owed, and the endpoint counts as degraded.
abbrev pub IsOwed : Manager → Type 0
IsOwed m = blank m.cleanup_reason ≡ false

module _ (env : Surroundings) where
  disconnect_locked-expiry :
      (reason : String) (now : Time) (m : Manager)
      → blank reason ≡ false
      → let m' = (disconnect_locked env reason m).1 in IsInForce now m' ⊎ IsOwed m'
  unfolding session_expired
  disconnect_locked-expiry reason now m b =
      let empty : blank "" ≡ true = unfold blank in refl in
      ground (arith, empty, disconnect_locked-settles env reason m)

  -- After enforceExpiry nothing that the clock it read shows as expired is in force, unless its
  -- cleanup failed and is owed.
  pub enforce_expiry-closes :
      (m : Manager)
      → let now = env.now m.history in let m' = enforce_expiry env m in IsInForce now m' ⊎ IsOwed m'
  unfolding enforce_expiry read_now session_expired
  enforce_expiry-closes m =
      let (now, m1) = read_now env m in
      let empty : blank "" ≡ true = unfold blank in refl in
      ground (
        arith,
        disconnect_locked-expiry "lease_expired" now m1 (unfold blank in refl),
        disconnect_locked-expiry "configuration_expired" now m1 (unfold blank in refl),
      )

  IsInForce-mono :
      (early late : Time) (m : Manager) → early ≤ late → IsInForce late m → IsInForce early m
  unfolding session_expired passed
  IsInForce-mono early late m l f = ground arith

  -- Fail closed on expiry. Over a clock that is never read earlier than at the start of the cycle,
  -- no session and no enabled configuration that had expired when the cycle began outlives it,
  -- whatever the control plane and the executor answer, unless its cleanup failed and is owed.
  pub cycle-expiry :
      (m : Manager)
      → ((h : History) → env.now m.history ≤ env.now h)
      → let m' = (cycle env m).1 in IsInForce (env.now m.history) m' ⊎ IsOwed m'
  unfolding cycle read_now
  cycle-expiry m clock =
      let (now, m1) = read_now env m in
      let body = cycle_body env (renewal_due now m1) now m1 in
      ground (
        arith,
        clock body.1.history,
        disconnect_locked-expiry m1.cleanup_reason now m1,
        disconnect_locked-expiry "lease_expired" now m1 (unfold blank in refl),
        disconnect_locked-expiry "configuration_expired" now m1 (unfold blank in refl),
        enforce_expiry-closes body.1,
        IsInForce-mono now (env.now body.1.history) (enforce_expiry env body.1),
      )

-- A renewal leads the end of the leases by the option or by a third of what remains, rounded down,
-- whichever is less: it is due between now and that end, at most the option and a third of what remains
-- in front of it, and by one of the two exactly. With an option and at least three units of time left it
-- is due before the end.
pub renewal_time-bounds :
    (now valid_until : Time) (before : ℕ)
    → now < valid_until
    → (now ≤ renewal_time now valid_until before)
      × (renewal_time now valid_until before ≤ valid_until)
      × (valid_until ≤ renewal_time now valid_until before + before)
      × (2 * (valid_until - now) ≤ 3 * (renewal_time now valid_until before - now))
      × ((renewal_time now valid_until before + before ≡ valid_until)
          ⊎ (renewal_time now valid_until before + (valid_until - now) / 3 ≡ valid_until))
      × ((before ≡ 0)
          ⊎ (valid_until - now < 3)
          ⊎ (renewal_time now valid_until before < valid_until))
unfolding renewal_time
renewal_time-bounds now valid_until before h = ground arith
