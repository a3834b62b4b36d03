-- ===== src/Endpoint/Manager/Invariant.antt =====
-- manager.go and configuration_floor.go: the invariant of a manager between two operations, and the
-- steps of the rollback floor.
use soha_app.Base.{
  ℕ, ◌≤◌, ◌<◌, String, true, false, ◌≡◌, ◌⊎◌, str_eq, str_eq_iff, inl, inr, Bool-cases, ap, Option,
  none, some, [], ◌∷◌, arith, is_empty, blank,
}
use soha_app.Base.Errors.{is_ok}
use soha_app.Endpoint.Protocol.{ConfigurationDesired}
use soha_app.Endpoint.Manager.State.{
  ConfigurationFloor, History, Manager, PendingVpnCleanup, Surroundings, degrade,
  applied_configuration,
}
use soha_app.Endpoint.Manager.Floor.{
  enforcement_digest, remember_configuration, remember_digest, remember_found,
}
use soha_app.Endpoint.Manager.Disconnect.{disconnect_locked, reject_configuration}

-- The versions handed to the executor, from the newest back, are at most `v` and never grow.
abbrev pub Descends : ℕ → History → Type 0
Descends v [] = Unit
Descends v (applied_configuration desired outcome ∷ h) =
    (desired.configuration_version ≤ v) × Descends desired.configuration_version h
Descends v (_ ∷ h) = Descends v h

pub Descends-le : (v w : ℕ) (h : History) → v ≤ w → Descends v h → Descends w h
Descends-le v w [] l d = tt
Descends-le v w (applied_configuration desired outcome ∷ h) l d = (omega arith, d.1)
Descends-le v w (_ ∷ h) l d = Descends-le v w h l d

abbrev stored_version : Option ConfigurationFloor → ℕ
stored_version none = 0
stored_version (some floor) = floor.configuration_version

abbrev stored_policy : Option ConfigurationFloor → ℕ
stored_policy none = 0
stored_policy (some floor) = floor.policy_version

-- A recorded cleanup names the session and the leases of the status, and is owed for `reason`.
abbrev pub Owes : Manager → String → Option PendingVpnCleanup → Type 0
Owes m reason none = Unit
Owes m reason (some p) =
    (p.session_id ≡ m.status.session_id)
    × (p.lease_ids ≡ m.lease_ids)
    × (p.reason ≡ reason)
    × (blank p.session_id ≡ false)
    × (is_empty p.lease_ids ≡ false)
    × (blank p.reason ≡ false)

-- The part of the invariant that holds inside an operation too.
pub record IsGuarded (env : Surroundings) (m : Manager) : Type 0 where
  pub recorded :
      blank env.options.configuration_state_path ≡ false
      → (stored_version m.disk ≡ m.floor.configuration_version)
        × (stored_policy m.disk ≡ m.floor.policy_version)
  pub ordered : Descends m.floor.configuration_version m.history

-- The invariant.
pub record IsSound (env : Surroundings) (m : Manager) : Type 0 where
  pub guarded : IsGuarded env m
  pub owed : Owes m m.cleanup_reason m.floor.pending_cleanup

-- An operation led to a sound manager whose floor is not below the old one.
pub record Keeps (env : Surroundings) (m m' : Manager) : Type 0 where
  pub sound : IsSound env m'
  pub raises_version : m.floor.configuration_version ≤ m'.floor.configuration_version
  pub raises_policy : m.floor.policy_version ≤ m'.floor.policy_version

module _ (env : Surroundings) where
  pub disconnect_locked-Keeps :
      (reason owed_for : String) (m : Manager)
      → blank reason ≡ false
      → IsGuarded env m
      → Owes m owed_for m.floor.pending_cleanup
      → Keeps env m (disconnect_locked env reason m).1
  unfolding disconnect_locked
  disconnect_locked-Keeps reason owed_for m r g o = ground arith

  pub reject_configuration-Keeps :
      (reason owed_for : String) (m : Manager)
      → blank reason ≡ false
      → IsGuarded env m
      → Owes m owed_for m.floor.pending_cleanup
      → Keeps env m (reject_configuration env reason m).1
  unfolding reject_configuration degrade
  reject_configuration-Keeps reason owed_for m r g o =
      ground (arith, disconnect_locked-Keeps reason owed_for m r g o)

  pub remember_configuration-Keeps :
      (desired : ConfigurationDesired) (m : Manager)
      → IsSound env m
      → Keeps env m (remember_configuration env desired m).1
  unfolding remember_configuration
  remember_configuration-Keeps desired m s =
      ground
        (arith, Descends-le m.floor.configuration_version desired.configuration_version m.history)

  remember_digest-digest :
      (desired : ConfigurationDesired) (digest : String) (m : Manager)
      → is_ok (remember_digest env desired digest m).0 ≡ true
      → digest ≡ (remember_digest env desired digest m).1.floor.digest
  unfolding remember_digest
  remember_digest-digest desired digest m h = elim (Bool-cases (str_eq digest m.floor.digest)) [
    | inl same ↦ ground (arith, same, (str_eq_iff digest m.floor.digest).0 same)
    | inr other ↦ ground (arith, other)
  ]

  -- rememberConfiguration, by the digest that the configuration has
  digest_from :
      (desired : ConfigurationDesired) (found : Option String) (m : Manager)
      → is_ok (remember_found env desired found m).0 ≡ true
      → found ≡ some (remember_found env desired found m).1.floor.digest
  unfolding remember_found
  digest_from desired none m h = absurd (ground arith)
  digest_from desired (some digest) m h = ap some (remember_digest-digest desired digest m h)

  remember_configuration-floor :
      (desired : ConfigurationDesired) (m : Manager)
      → is_ok (remember_configuration env desired m).0 ≡ true
      → let m' = (remember_configuration env desired m).1 in
        (m'.floor.configuration_version ≡ desired.configuration_version)
        × (m'.floor.pending_cleanup ≡ none)
        × (0 < desired.configuration_version)
        × (m.floor.configuration_version ≤ desired.configuration_version)
        × (m.floor.policy_version ≤ desired.policy_version)
        × (m'.status ≡ m.status)
        × (m'.lease_ids ≡ m.lease_ids)
        × (m'.cleanup_reason ≡ m.cleanup_reason)
  unfolding remember_configuration
  remember_configuration-floor desired m h = ground arith

  remember_configuration-guards :
      (desired : ConfigurationDesired) (m : Manager)
      → is_ok (remember_configuration env desired m).0 ≡ true
      → let m' = (remember_configuration env desired m).1 in
        (m.floor.pending_cleanup ≡ none)
        × ((m.floor.configuration_version < desired.configuration_version) ⊎ (m'.floor ≡ m.floor))
        × (0 < desired.policy_version)
  unfolding remember_configuration
  remember_configuration-guards desired m h = ground arith

  remember_configuration-digest :
      (desired : ConfigurationDesired) (m : Manager)
      → is_ok (remember_configuration env desired m).0 ≡ true
      → enforcement_digest env desired ≡ some (remember_configuration env desired m).1.floor.digest
  unfolding remember_configuration
  remember_configuration-digest desired m h =
      digest_from desired (enforcement_digest env desired) m h

  pub remember_configuration-ok :
      (desired : ConfigurationDesired) (m : Manager)
      → is_ok (remember_configuration env desired m).0 ≡ true
      → let m' = (remember_configuration env desired m).1 in
        (m'.floor.configuration_version ≡ desired.configuration_version)
        × (m'.floor.pending_cleanup ≡ none)
        × (0 < desired.configuration_version)
        × (m.floor.configuration_version ≤ desired.configuration_version)
        × (m.floor.policy_version ≤ desired.policy_version)
        × (m'.status ≡ m.status)
        × (m'.lease_ids ≡ m.lease_ids)
        × (m'.cleanup_reason ≡ m.cleanup_reason)
        × (m.floor.pending_cleanup ≡ none)
        × (enforcement_digest env desired ≡ some m'.floor.digest)
        × ((m.floor.configuration_version < desired.configuration_version) ⊎ (m'.floor ≡ m.floor))
        × (0 < desired.policy_version)
  remember_configuration-ok desired m h =
      let (version, settled, positive, configurations, policies, status, leases, reason) =
        remember_configuration-floor desired m h in
      let (clear, newer, policy) = remember_configuration-guards desired m h in
      (
        version,
        settled,
        positive,
        configurations,
        policies,
        status,
        leases,
        reason,
        clear,
        remember_configuration-digest desired m h,
        newer,
        policy,
      )
