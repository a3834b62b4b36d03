-- ===== src/Endpoint/Manager/Run.antt =====
-- Runs of the endpoint service: any operations in any order, ticks of the watchdog and restarts
-- between them, over any surroundings.
use soha_app.Base.{◌≤◌, true, false, ◌≡◌, some, arith, blank, refl, Option-cases, inl, inr}
use soha_app.Base.Errors.{is_ok}
use soha_app.Endpoint.Identifier.{matches_identifier-nonblank}
use soha_app.Endpoint.Manager.State.{Manager, PendingVpnCleanup, Surroundings}
use soha_app.Endpoint.Manager.Floor.{
  new_manager, restore_configuration_floor, valid_configuration_floor,
}
use soha_app.Endpoint.Manager.Disconnect.{disconnect, disconnect_locked, read_now}
use soha_app.Endpoint.Manager.Cycle.{Tick, Watch, cycle, watch_tick}
use soha_app.Endpoint.Manager.Connect.{
  ConnectInput, connect, connect_managed, connect_scope, managed_request, occupied, random_id,
}
use soha_app.Endpoint.Manager.Invariant.{Descends, IsSound, Keeps, Owes}
use soha_app.Endpoint.Manager.Reach.{connect-Keeps, cycle-Keeps, disconnect-Keeps, watch_tick-Keeps}

module _ (env : Surroundings) where
  -- A restart needs a state file, and a floor in it that is this endpoint's.
  pub data Step (m : Manager) : Manager → Type 0 where
    connects : (input : ConnectInput) → Step m (connect env input m).1
    disconnects : Step m (disconnect env m).1
    cycles : Step m (cycle env m).1
    watches : (watch : Watch) (tick : Tick) → Step m (watch_tick env watch tick m).1
    restarts :
        blank env.options.configuration_state_path ≡ false
        → is_ok (new_manager env m.disk m.history).0 ≡ true
        → Step m (new_manager env m.disk m.history).1

  pub data Run (m : Manager) : Manager → Type 0 where
    starts : Run m m
    then : {n o : Manager} → Run m n → Step n o → Run m o

  new_manager-Keeps :
      (m : Manager)
      → IsSound env m
      → blank env.options.configuration_state_path ≡ false
      → is_ok (new_manager env m.disk m.history).0 ≡ true
      → Keeps env m (new_manager env m.disk m.history).1
  unfolding new_manager restore_configuration_floor valid_configuration_floor
  new_manager-Keeps m s p h = elim (Option-cases m.disk) [
    | inl no_file ↦ ground (arith, no_file)
    | inr (floor, file) ↦ elim (Option-cases floor.pending_cleanup) [
      | inl no_cleanup ↦ ground (arith, file, no_cleanup)
      | inr (pending, owed) ↦ ground (
        arith,
        file,
        owed,
        matches_identifier-nonblank pending.session_id,
        matches_identifier-nonblank pending.reason,
      )
    ]
  ]

  Step-Keeps : {m n : Manager} → Step m n → IsSound env m → Keeps env m n
  Step-Keeps {m} (connects input) s = connect-Keeps env input m s
  Step-Keeps {m} disconnects s = disconnect-Keeps env m s
  Step-Keeps {m} cycles s = cycle-Keeps env m s
  Step-Keeps {m} (watches watch tick) s = watch_tick-Keeps env watch tick m s
  Step-Keeps {m} (restarts p h) s = new_manager-Keeps m s p h

  Run-IsSound : {m n : Manager} → Run m n → IsSound env m → IsSound env n
  Run-IsSound starts s = s
  Run-IsSound (then r st) s = (Step-Keeps st (Run-IsSound r s)).sound

  Run-Raises :
      {m n : Manager}
      → Run m n
      → IsSound env m
      → (m.floor.configuration_version ≤ n.floor.configuration_version)
        × (m.floor.policy_version ≤ n.floor.policy_version)
  Run-Raises {m} starts s = omega arith
  Run-Raises {m} (then r st) s =
      let kept = Step-Keeps st (Run-IsSound r s) in
      omega (arith, Run-Raises r s, kept.raises_version, kept.raises_policy)

  -- No rollback, restarts included. Whatever the control plane, the executor, the clock and the
  -- disk answer, no run from a sound manager lowers the floor's configuration or policy version,
  -- and the versions handed to the executor never decrease and end at most at the floor.
  pub Run-Descends :
      {m n : Manager}
      → IsSound env m
      → Run m n
      → (m.floor.configuration_version ≤ n.floor.configuration_version)
        × (m.floor.policy_version ≤ n.floor.policy_version)
        × Descends n.floor.configuration_version n.history
  Run-Descends s r =
      let (version, policy) = Run-Raises r s in (version, policy, (Run-IsSound r s).guarded.ordered)

  cycle-owed :
      (n : Manager)
      → blank n.cleanup_reason ≡ false
      → cycle env n ≡ disconnect_locked env n.cleanup_reason (read_now env n).1
  unfolding cycle read_now
  cycle-owed n b = rw (b, cycle) refl

  connect-owed :
      (input : ConnectInput) (n : Manager)
      → blank n.cleanup_reason ≡ false
      → (is_ok (connect env input n).0 ≡ false) × ((connect env input n).1.status ≡ n.status)
  unfolding connect connect_scope connect_managed managed_request random_id occupied
  connect-owed input n b = ground arith

  -- What is owed is done first. In every manager that a run reaches, a recorded cleanup names the
  -- session and the leases that the status still shows; the next cycle is the attempt to disconnect
  -- them for the recorded reason; and until then no connection is accepted, nor is the status
  -- changed by asking for one.
  pub Run-cleanup_first :
      {m n : Manager} (p : PendingVpnCleanup) (input : ConnectInput)
      → IsSound env m
      → Run m n
      → n.floor.pending_cleanup ≡ some p
      → (p.session_id ≡ n.status.session_id)
        × (p.lease_ids ≡ n.lease_ids)
        × (cycle env n ≡ disconnect_locked env p.reason (read_now env n).1)
        × (is_ok (connect env input n).0 ≡ false)
        × ((connect env input n).1.status ≡ n.status)
  Run-cleanup_first {n} p input s r e =
      let owed : Owes n n.cleanup_reason (some p) = rw e at ((Run-IsSound r s).owed) in
      let nonblank : blank n.cleanup_reason ≡ false = rw (owed.2) at (owed.5) in
      let (fails, unchanged) = connect-owed input n nonblank in
      (owed.0, owed.1, rw (owed.2) (cycle-owed n nonblank), fails, unchanged)
