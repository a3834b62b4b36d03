-- ===== src/Endpoint/Executor/Recovery.antt =====
-- executor.go: outcomes of the executor, and the plan it remembers.
use soha_app.Endpoint.Executor.Apply.{
  apply_tunnel, apply_plan, system_remove, Call, Executor, System, apply, confirms, disable,
  install_plan, installed, read_back, recover, recover_to, rejected, remove_tunnel, removal_error,
  removed, roll_back, system_install, system_readback,
}
use soha_app.Base.Errors.{fail, is_ok-join, join, failed, Error, ok, is_ok}
use soha_app.Base.{
  String, true, ◌≡◌, ◌⊎◌, Option, none, some, List, [], ◌∷◌, arith, Bool-cases, inl, inr, refl, ap,
}
use soha_app.Endpoint.Protocol.{ApplyOutcome, ConfigurationDesired, Time, WireGuardConfiguration}
use soha_app.Endpoint.Manager.State.{Answer, got, refused}
use soha_app.Endpoint.Executor.Tunnel.{
  TunnelPlan, TunnelReadback, empty_readback, readback_eq→≡, readback_of,
}
use soha_app.Endpoint.Executor.Plan.{Keys, build_tunnel_plan}

pub confirms→≡ :
    (answer : Answer TunnelReadback) (expected : TunnelReadback)
    → confirms answer expected ≡ true
    → answer ≡ got expected
unfolding confirms
confirms→≡ (refused reason) expected h = ground arith
confirms→≡ (got readback) expected h = ap got (readback_eq→≡ readback expected h)

is_ok→ok : (err : Error) → is_ok err ≡ true → err ≡ ok
is_ok→ok ok h = refl
is_ok→ok (failed messages) h = ground arith

-- disable without an error: the tunnel was removed, and none was read back.
disable-ok :
    (err : Error) (answer : Answer TunnelReadback)
    → is_ok (join err (removal_error answer)) ≡ true
    → (err ≡ ok) × (answer ≡ got empty_readback)
unfolding removal_error
disable-ok err (refused reason) h = ground (arith, is_ok-join err (fail reason))
disable-ok err (got readback) h = ground (
  arith,
  is_ok-join err (removal_error (got readback)),
  is_ok→ok err,
  readback_eq→≡ readback empty_readback,
)

-- Since the system was last changed, the plan was read back.
abbrev pub Confirmed : TunnelPlan → List Call → Type 0
Confirmed plan [] = ⊥
Confirmed plan (read_back answer ∷ calls) = (answer ≡ got (readback_of plan)) ⊎ Confirmed plan calls
Confirmed plan (_ ∷ calls) = ⊥

abbrev pub Remembers : Option TunnelPlan → List Call → Type 0
Remembers none calls = Unit
Remembers (some plan) calls = Confirmed plan calls

-- What the executor remembers was confirmed.
abbrev pub IsHonest : Executor → Type 0
IsHonest e = Remembers e.previous e.calls

-- The last two calls asked to remove the tunnel and to read the system back, whatever came of them.
abbrev pub EndsRemoved : List Call → Type 0
EndsRemoved (read_back answer ∷ removed err ∷ calls) = Unit
EndsRemoved _ = ⊥

module _ (keys : Keys) (system : System) where
  -- The configuration is in force: the last two calls installed its plan and read it back, or
  -- removed the tunnel and found none.
  abbrev pub InForce :
      ConfigurationDesired → Option WireGuardConfiguration → Time → Executor → Executor → Type 0
  InForce desired none now e e' =
      (e'.previous ≡ none) × (e'.calls ≡ read_back (got empty_readback) ∷ removed ok ∷ e.calls)
  InForce desired (some wg) now e e' =
      (plan : TunnelPlan) × (build_tunnel_plan desired wg keys now ≡ some plan)
      × (e'.previous ≡ some plan)
      × (e'.calls ≡ read_back (got (readback_of plan)) ∷ installed plan ok ∷ e.calls)

  -- The last two calls installed the old plan again and read it back.
  abbrev pub RolledBack : Executor → Executor → Type 0
  RolledBack e e' =
      (plan : TunnelPlan) × (e.previous ≡ some plan)
      × (e'.previous ≡ some plan)
      × Confirmed plan e'.calls
      × ((before : List Call) × (e'.calls
            ≡ read_back (got (readback_of plan)) ∷ installed plan ok ∷ before))

  -- Nothing was done, or the plan was forgotten and the last two calls asked to remove the tunnel and read
  -- the system back, whatever came of them.
  abbrev pub Closed : Executor → Executor → Type 0
  Closed e e' = (e' ≡ e) ⊎ ((e'.previous ≡ none) × EndsRemoved e'.calls)

  rejected-Closed :
      (reason : String) (e : Executor)
      → let (o, e') = rejected keys system reason e in
        (o.status ≡ "rejected") × (e'.previous ≡ none) × EndsRemoved e'.calls
  unfolding rejected disable
  rejected-Closed reason e = (refl, refl, tt)

  abbrev Recovered : Executor → ApplyOutcome × Executor → Type 0
  Recovered e (o, e') =
      ((o.status ≡ "rolled-back") × RolledBack e e')
      ⊎ ((o.status ≡ "rejected") × (e'.previous ≡ none) × EndsRemoved e'.calls)

  roll_back-Recovered :
      (plan : TunnelPlan) (reason : String) (e : Executor)
      → e.previous ≡ some plan
      → Recovered e (roll_back keys system plan reason e)
  unfolding roll_back
  roll_back-Recovered plan reason e p =
      let (err, e1) = system_install keys system plan e in
      let (answer, e2) = system_readback keys system e1 in
      elim (Bool-cases (is_ok err)) [
        | inr fails ↦ ground (arith, fails, rejected-Closed "endpoint_rollback_failed" e1)
        | inl worked ↦ elim (Bool-cases (confirms answer (readback_of plan))) [
          | inr differs ↦
              ground (arith, worked, differs, rejected-Closed "endpoint_rollback_failed" e2)
          | inl same ↦ inl (
            ground (arith, worked, same),
            (
              plan,
              p,
              ground (arith, worked, same, p),
              ground (arith, worked, same, confirms→≡ answer (readback_of plan) same),
              (
                e.calls,
                ground
                    (arith, worked, same, is_ok→ok err, confirms→≡ answer (readback_of plan) same),
              ),
            ),
          )
        ]
      ]

  recover_to-Recovered :
      (previous : Option TunnelPlan) (reason : String) (e : Executor)
      → e.previous ≡ previous
      → Recovered e (recover_to keys system previous reason e)
  unfolding recover_to
  recover_to-Recovered none reason e p = inr (rejected-Closed reason e)
  recover_to-Recovered (some plan) reason e p = roll_back-Recovered plan reason e p

  recover-Recovered : (reason : String) (e : Executor) → Recovered e (recover keys system reason e)
  unfolding recover
  recover-Recovered reason e = recover_to-Recovered e.previous reason e refl

  -- What an outcome of a configuration with this tunnel means.
  abbrev pub Reported :
      ConfigurationDesired
      → Option WireGuardConfiguration
      → Time
      → Executor
      → ApplyOutcome × Executor
      → Type 0
  Reported desired wg now e (o, e') =
      ((o.status ≡ "applied") × InForce desired wg now e e')
      ⊎ ((o.status ≡ "rolled-back") × RolledBack e e')
      ⊎ ((o.status ≡ "rejected") × Closed e e')

  Recovered→Reported :
      (desired : ConfigurationDesired) (wg : Option WireGuardConfiguration) (now : Time)
      (e : Executor) (r : ApplyOutcome × Executor)
      → Recovered e r
      → Reported desired wg now e r
  Recovered→Reported desired wg now e r (inl back) = inr (inl back)
  Recovered→Reported desired wg now e r (inr (status, forgotten, ends)) =
      inr (inr (status, inr (forgotten, ends)))

  Installed : TunnelPlan → Executor → ApplyOutcome × Executor → Type 0
  Installed plan e (o, e') =
      (o.status ≡ "applied")
      × (e'.previous ≡ some plan)
      × (e'.calls ≡ read_back (got (readback_of plan)) ∷ installed plan ok ∷ e.calls)

  install_plan-Installed :
      (plan : TunnelPlan) (e : Executor)
      → let r = install_plan keys system plan e in Installed plan e r ⊎ Recovered e r
  unfolding install_plan Installed
  install_plan-Installed plan e =
      let (err, e1) = system_install keys system plan e in
      let (answer, e2) = system_readback keys system e1 in
      elim (Bool-cases (is_ok err)) [
        | inr fails ↦
            let same_as : install_plan keys system plan e
                ≡ recover keys system "endpoint_apply_failed" e1 =
              ground (arith, fails) in
            inr (rw same_as (recover-Recovered "endpoint_apply_failed" e1))
        | inl worked ↦ elim (Bool-cases (confirms answer (readback_of plan))) [
          | inr differs ↦
              let same_as : install_plan keys system plan e
                  ≡ recover keys system "endpoint_readback_mismatch" e2 =
                ground (arith, worked, differs) in
              inr (rw same_as (recover-Recovered "endpoint_readback_mismatch" e2))
          | inl same ↦ inl (ground (arith, worked, same, confirms→≡ answer (readback_of plan) same))
        ]
      ]

  remove_tunnel-Reported :
      (desired : ConfigurationDesired) (now : Time) (e : Executor)
      → Reported desired none now e (remove_tunnel keys system e)
  unfolding remove_tunnel disable
  remove_tunnel-Reported desired now e =
      let (err, e1) = system_remove keys system e in
      let (answer, e2) = system_readback keys system e1 in
      elim (Bool-cases (is_ok (join err (removal_error answer)))) [
        | inl worked ↦
            let (removed_ok, found_none) = disable-ok err answer worked in
            inl (ground (arith, worked), (refl, rw (found_none, removed_ok) refl))
        | inr fails ↦ inr (inr (ground (arith, fails), inr (refl, tt)))
      ]

  apply_plan-Reported :
      (desired : ConfigurationDesired) (wg : WireGuardConfiguration) (now : Time)
      (plan : Option TunnelPlan) (e : Executor)
      → build_tunnel_plan desired wg keys now ≡ plan
      → Reported desired (some wg) now e (apply_plan keys system plan e)
  unfolding apply_plan Installed
  apply_plan-Reported desired wg now none e b = inr (inr (refl, inl refl))
  apply_plan-Reported desired wg now (some plan) e b = elim (install_plan-Installed plan e) [
    | inl (status, remembers, calls) ↦ inl (status, (plan, b, remembers, calls))
    | inr recovered ↦
        Recovered→Reported desired (some wg) now e (install_plan keys system plan e) recovered
  ]

  apply_tunnel-Reported :
      (desired : ConfigurationDesired) (wg : Option WireGuardConfiguration) (now : Time)
      (e : Executor)
      → Reported desired wg now e (apply_tunnel keys system desired wg now e)
  unfolding apply_tunnel
  apply_tunnel-Reported desired none now e = remove_tunnel-Reported desired now e
  apply_tunnel-Reported desired (some wg) now e =
      apply_plan-Reported desired wg now (build_tunnel_plan desired wg keys now) e refl

  -- An outcome means what it says. "applied": the last two calls installed the plan of this
  -- configuration and read exactly it back, or removed the tunnel and found none. "rolled-back": the
  -- plan that was remembered before was installed again by the last call but one, without an error, and
  -- read back by the last. "rejected": nothing was done, or the last two calls asked to remove the tunnel
  -- and read the system back, whatever came of them, and no plan is remembered. There is no other outcome.
  pub apply-Reported :
      (desired : ConfigurationDesired) (now : Time) (e : Executor)
      → Reported desired desired.wireguard now e (apply keys system desired now e)
  unfolding apply
  apply-Reported desired now e = apply_tunnel-Reported desired desired.wireguard now e
