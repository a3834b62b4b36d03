-- ===== src/Endpoint/Proxy/Composition.antt =====
-- executor.go behind the interface that mihomo.go has of it.
use soha_app.Base.{some, ◌≡◌, Option, String, List}
use soha_app.Endpoint.Protocol.{ApplyOutcome, ConfigurationDesired, Time}
use soha_app.Endpoint.Executor.Plan.{Keys}
use soha_app.Endpoint.Executor.Apply.{Executor, System, apply, disable, verify, vpn_binding}
use soha_app.Endpoint.Executor.Recovery.{IsHonest}
use soha_app.Endpoint.Executor.Runs.{Step-IsHonest, applies, binds, disables, verifies}
use soha_app.Endpoint.Proxy.State.{ConfigurationExecutor, ExecutorLaws}

module _ (keys : Keys) (system : System) where
  abbrev pub executor_interface : ConfigurationExecutor Executor
  executor_interface = record {
    apply = apply keys system;
    verify = some (verify keys system);
    disable = disable keys system;
    vpn_binding = some (vpn_binding keys system);
  }

  pub verify_keeps :
      (verifier : ConfigurationDesired → Time → Executor → ApplyOutcome × Executor)
      → some (verify keys system) ≡ some verifier
      → (desired : ConfigurationDesired) (now : Time) (e : Executor) → IsHonest e
      → IsHonest (verifier desired now e).1
  verify_keeps verifier same desired now e h =
      let verifies_so : verify keys system ≡ verifier = cc in
      rw (← verifies_so) (Step-IsHonest keys system (verifies desired now) h)

  pub binding_keeps :
      (binding : Executor → Option (String × List String) × Executor)
      → some (vpn_binding keys system) ≡ some binding
      → (e : Executor) → IsHonest e
      → IsHonest (binding e).1
  binding_keeps binding same e h =
      let binds_so : vpn_binding keys system ≡ binding = cc in
      rw (← binds_so) (Step-IsHonest keys system binds h)

  -- What the executor remembers was read back since the system was last changed.
  abbrev pub executor_laws : ExecutorLaws executor_interface
  executor_laws = record {
    Holds = IsHonest;
    apply_keeps = λ desired now e h. Step-IsHonest keys system (applies desired now) h;
    verify_keeps = verify_keeps;
    disable_keeps = λ e h. Step-IsHonest keys system disables h;
    binding_keeps = binding_keeps;
  }
