-- ===== src/Endpoint/Executor/Runs.antt =====
-- executor.go: runs of the executor, its operations in any order.
use mathlib.Core.Path.{subst⁻¹}
use soha_app.Base.{
  String, true, ◌≡◌, Option, none, some, List, ◌∷◌, arith, inl, inr, refl, Bool-cases,
}
use soha_app.Endpoint.Protocol.{ConfigurationDesired, Time, WireGuardConfiguration}
use soha_app.Endpoint.Manager.State.{Answer, got}
use soha_app.Endpoint.Executor.Tunnel.{TunnelPlan, TunnelReadback, readback_of}
use soha_app.Endpoint.Executor.Plan.{Keys, build_tunnel_plan}
use soha_app.Endpoint.Executor.Apply.{
  Call, Executor, System, apply, bind_native, bind_tunnel, bound_interface, confirms, disable,
  new_executor, read_back, system_readback, valid_vpn_interface_name, verify, verify_plan,
  verify_readback, verify_tunnel, vpn_binding,
}
use soha_app.Endpoint.Executor.Recovery.{
  Closed, InForce, IsHonest, Remembers, apply-Reported, confirms→≡,
}

module _ (keys : Keys) (system : System) where
  pub data Step (e : Executor) : Executor → Type 0 where
    applies :
        (desired : ConfigurationDesired) (now : Time) → Step e (apply keys system desired now e).1
    verifies :
        (desired : ConfigurationDesired) (now : Time) → Step e (verify keys system desired now e).1
    disables : Step e (disable keys system e).1
    binds : Step e (vpn_binding keys system e).1

  pub data Run (e : Executor) : Executor → Type 0 where
    starts : Run e e
    then : {f g : Executor} → Run e f → Step f g → Run e g

  Remembers-read :
      (plan : Option TunnelPlan) (answer : Answer TunnelReadback) (calls : List Call)
      → Remembers plan calls
      → Remembers plan (read_back answer ∷ calls)
  Remembers-read none answer calls r = tt
  Remembers-read (some plan) answer calls r = inr r

  Remembers-≡ :
      {p q : Option TunnelPlan} {calls calls' : List Call}
      → p ≡ q
      → calls ≡ calls'
      → Remembers q calls'
      → Remembers p calls
  Remembers-≡ {q} {calls} same_plan same_calls r =
      subst⁻¹ (λ p. Remembers p calls) same_plan (subst⁻¹ (Remembers q) same_calls r)

  InForce-IsHonest :
      (desired : ConfigurationDesired) (wg : Option WireGuardConfiguration) (now : Time)
      (e e' : Executor)
      → InForce keys system desired wg now e e'
      → IsHonest e'
  InForce-IsHonest desired none now e e' (forgotten, calls) = Remembers-≡ forgotten refl tt
  InForce-IsHonest desired (some wg) now e e' (plan, b, remembers, calls) =
      Remembers-≡ remembers calls (inl refl)

  Closed-IsHonest : (e e' : Executor) → IsHonest e → Closed keys system e e' → IsHonest e'
  Closed-IsHonest e e' h (inl same) = subst⁻¹ IsHonest same h
  Closed-IsHonest e e' h (inr (forgotten, ends)) = Remembers-≡ forgotten refl tt

  apply-IsHonest :
      (desired : ConfigurationDesired) (now : Time) (e : Executor)
      → IsHonest e
      → IsHonest (apply keys system desired now e).1
  apply-IsHonest desired now e h =
      let e' = (apply keys system desired now e).1 in
      elim (apply-Reported keys system desired now e) [
        | inl (status, in_force) ↦ InForce-IsHonest desired desired.wireguard now e e' in_force
        | inr (inl (status, (plan, old, remembers, confirmed, before))) ↦
            Remembers-≡ remembers refl confirmed
        | inr (inr (status, closed)) ↦ Closed-IsHonest e e' h closed
      ]

  read-IsHonest : (e : Executor) → IsHonest e → IsHonest (system_readback keys system e).1
  unfolding system_readback
  read-IsHonest e h = Remembers-read e.previous (system.readback e.calls) e.calls h

  verify_tunnel-IsHonest :
      (desired : ConfigurationDesired) (wg : Option WireGuardConfiguration) (now : Time)
      (e : Executor)
      → IsHonest e
      → IsHonest (verify_tunnel keys system desired wg now e).1
  unfolding verify_tunnel verify_plan verify_readback
  verify_tunnel-IsHonest desired none now e h = read-IsHonest e h
  verify_tunnel-IsHonest desired (some wg) now e h =
      elim (build_tunnel_plan desired wg keys now)
        as (λ plan. IsHonest (verify_plan keys system plan e).1) [
          | none ↦ h
          | some plan ↦ read-IsHonest e h
        ]

  bind_tunnel-IsHonest :
      (native : Answer String) (plan : Option TunnelPlan) (e : Executor)
      → IsHonest e
      → IsHonest (bind_tunnel keys system native plan e).1
  unfolding bind_tunnel
  bind_tunnel-IsHonest native none e h = h
  bind_tunnel-IsHonest native (some plan) e h = read-IsHonest e h

  bind_native-IsHonest :
      (native : Option (Answer String)) (e : Executor)
      → IsHonest e
      → IsHonest (bind_native keys system native e).1
  unfolding bind_native
  bind_native-IsHonest none e h = h
  bind_native-IsHonest (some native) e h = bind_tunnel-IsHonest native e.previous e h

  pub Step-IsHonest : {e f : Executor} → Step e f → IsHonest e → IsHonest f
  unfolding verify disable vpn_binding
  Step-IsHonest {e} (applies desired now) h = apply-IsHonest desired now e h
  Step-IsHonest {e} (verifies desired now) h =
      verify_tunnel-IsHonest desired desired.wireguard now e h
  Step-IsHonest {e} disables h = tt
  Step-IsHonest {e} binds h = bind_native-IsHonest system.tunnel_interface e h

  -- In every executor that a run from a new one reaches, the plan it remembers, if any, was read
  -- back since the system was last changed.
  pub Run-IsHonest : {e : Executor} → Run new_executor e → IsHonest e
  Run-IsHonest starts = tt
  Run-IsHonest (then r st) = Step-IsHonest st (Run-IsHonest r)

  -- What a bound interface rests on.
  abbrev pub Bound : String → List String → Executor → Executor → Type 0
  Bound name routes e e' =
      (plan : TunnelPlan) × (e.previous ≡ some plan)
      × (routes ≡ plan.routes)
      × (valid_vpn_interface_name name ≡ true)
      × (e'.calls ≡ read_back (got (readback_of plan)) ∷ e.calls)

  bound_interface-some :
      (plan : TunnelPlan) (native : Answer String) (name : String) (routes : List String)
      → bound_interface keys system plan native ≡ some (name, routes)
      → (valid_vpn_interface_name name ≡ true) × (routes ≡ plan.routes)
  unfolding bound_interface
  bound_interface-some plan native name routes h = ground arith

  bind_tunnel-Bound :
      (native : Answer String) (plan : Option TunnelPlan) (e : Executor) (name : String)
      (routes : List String)
      → e.previous ≡ plan
      → (bind_tunnel keys system native plan e).0 ≡ some (name, routes)
      → Bound name routes e (bind_tunnel keys system native plan e).1
  unfolding bind_tunnel
  bind_tunnel-Bound native none e name routes p h = ground arith
  bind_tunnel-Bound native (some plan) e name routes p h =
      let answer = (system_readback keys system e).0 in
      elim (Bool-cases (confirms answer (readback_of plan))) [
        | inl same ↦
            let bound : bound_interface keys system plan native ≡ some (name, routes) =
              ground (arith, same) in
            let (valid, same_routes) = bound_interface-some plan native name routes bound in
            (plan, p, same_routes, valid, rw (confirms→≡ answer (readback_of plan) same) refl)
        | inr differs ↦ ground (arith, differs)
      ]

  bind_native-Bound :
      (native : Option (Answer String)) (e : Executor) (name : String) (routes : List String)
      → (bind_native keys system native e).0 ≡ some (name, routes)
      → Bound name routes e (bind_native keys system native e).1
  unfolding bind_native
  bind_native-Bound none e name routes h = ground arith
  bind_native-Bound (some native) e name routes h =
      bind_tunnel-Bound native e.previous e name routes refl h

  -- A proxy is bound only to the tunnel of the plan that the executor remembers, with its routes and
  -- a valid name, and only after this plan was read back by the same call.
  pub vpn_binding-Bound :
      (e : Executor) (name : String) (routes : List String)
      → (vpn_binding keys system e).0 ≡ some (name, routes)
      → Bound name routes e (vpn_binding keys system e).1
  unfolding vpn_binding
  vpn_binding-Bound e name routes h = bind_native-Bound system.tunnel_interface e name routes h
