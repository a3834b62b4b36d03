-- ===== src/Endpoint/Executor/Apply.antt =====
-- executor.go: Executor, which installs a plan, reads it back, and rolls back what it cannot
-- confirm.
use soha_app.Base.{
  ℕ, String, Bool, false, not, ◌&&◌, ◌||◌, Option, none, some, List, [], ◌∷◌, leb, if◌then◌else◌,
  all, codes, length, ◌==◌,
}
use soha_app.Base.Errors.{Error, ok, fail, is_ok, join}
use soha_app.Endpoint.Protocol.{ApplyOutcome, ConfigurationDesired, Time, WireGuardConfiguration}
use soha_app.Endpoint.Identifier.{is_alphanumeric}
use soha_app.Endpoint.Manager.State.{Answer, got, refused}
use soha_app.Endpoint.Executor.Tunnel.{
  TunnelPlan, TunnelReadback, empty_readback, readback_eq, readback_of,
}
use soha_app.Endpoint.Executor.Plan.{Keys, build_tunnel_plan}

-- What the executor asked of the system, and the answer; the newest stands first.
pub data Call : Type 0 where
  installed : TunnelPlan → Error → Call
  read_back : Answer TunnelReadback → Call
  removed : Error → Call

-- The system's answers, whatever they depend on, and the digest of a readback.
pub record System : Type 0 where
  pub install : List Call → TunnelPlan → Error
  pub readback : List Call → Answer TunnelReadback
  pub remove : List Call → Error
  -- TunnelInterface, `none` where the system has no such method
  pub tunnel_interface : Option (Answer String)
  pub hash : TunnelReadback → String

-- Executor, without the keys and the system, and with the calls it made.
pub record Executor : Type 0 where
  pub previous : Option TunnelPlan
  pub calls : List Call

-- NewExecutor
abbrev pub new_executor : Executor
new_executor = record { previous = none; calls = [] }

-- len(name) in 1..64 of [A-Za-z0-9_-]
interface_code : ℕ → Bool
interface_code c = is_alphanumeric c || c == b'_' || c == b'-'

unfoldable pub valid_vpn_interface_name : String → Bool
unfolding interface_code
valid_vpn_interface_name name =
    leb 1 (length (codes name)) && leb (length (codes name)) 64 && all interface_code (codes name)

-- `err == nil && reflect.DeepEqual(readback, expected)`; where it holds, the digest of one is that of the
-- other.
unfoldable pub confirms : Answer TunnelReadback → TunnelReadback → Bool
confirms (refused reason) expected = false
confirms (got readback) expected = readback_eq readback expected

-- The readback of disable: an error, or a tunnel that is still there.
unfoldable pub removal_error : Answer TunnelReadback → Error
removal_error (refused reason) = fail reason
removal_error (got readback) =
    if readback_eq readback empty_readback
    then ok
    else fail "endpoint tunnel still exists after disable"

module _ (keys : Keys) (system : System) where
  unfoldable pub system_install : TunnelPlan → Executor → Error × Executor
  system_install plan e =
      let err = system.install e.calls plan in
      (err, record e { calls = installed plan err ∷ e.calls })

  unfoldable pub system_readback : Executor → Answer TunnelReadback × Executor
  system_readback e =
      let answer = system.readback e.calls in
      (answer, record e { calls = read_back answer ∷ e.calls })

  unfoldable pub system_remove : Executor → Error × Executor
  system_remove e =
      let err = system.remove e.calls in (err, record e { calls = removed err ∷ e.calls })

  -- disable
  unfoldable pub disable : Executor → Error × Executor
  unfolding system_remove system_readback
  disable e =
      let (err, e1) = system_remove e in
      let (answer, e2) = system_readback e1 in
      (join err (removal_error answer), record e2 { previous = none })

  abbrev pub outcome : String → TunnelReadback → String → ApplyOutcome
  outcome status readback reason = record {
    status = status;
    readback_hash = system.hash readback;
    reason_code = reason;
  }

  unfoldable pub rejected : String → Executor → ApplyOutcome × Executor
  rejected reason e = (outcome "rejected" empty_readback reason, (disable e).1)

  -- recover, with the plan to go back to
  unfoldable pub roll_back : TunnelPlan → String → Executor → ApplyOutcome × Executor
  unfolding rejected system_install system_readback
  roll_back previous reason e =
      let (err, e1) = system_install previous e in
      let (answer, e2) = system_readback e1 in
      if not (is_ok err)
      then rejected "endpoint_rollback_failed" e1
      else if confirms answer (readback_of previous)
      then (outcome "rolled-back" (readback_of previous) reason, e2)
      else rejected "endpoint_rollback_failed" e2

  unfoldable pub recover_to : Option TunnelPlan → String → Executor → ApplyOutcome × Executor
  recover_to none reason e = rejected reason e
  recover_to (some previous) reason e = roll_back previous reason e

  -- recover
  unfoldable pub recover : String → Executor → ApplyOutcome × Executor
  unfolding recover_to
  recover reason e = recover_to e.previous reason e

  -- Apply of a plan that was built
  unfoldable pub install_plan : TunnelPlan → Executor → ApplyOutcome × Executor
  unfolding system_install system_readback
  install_plan plan e =
      let (err, e1) = system_install plan e in
      let (answer, e2) = system_readback e1 in
      if not (is_ok err)
      then recover "endpoint_apply_failed" e1
      else if confirms answer (readback_of plan)
      then (outcome "applied" (readback_of plan) "", record e2 { previous = some plan })
      else recover "endpoint_readback_mismatch" e2

  -- Apply of a configuration without a tunnel
  unfoldable pub remove_tunnel : Executor → ApplyOutcome × Executor
  remove_tunnel e =
      let (err, e1) = disable e in
      (
        if is_ok err
            then outcome "applied" empty_readback ""
            else outcome "rejected" empty_readback "endpoint_disable_failed",
        e1,
      )

  unfoldable pub apply_plan : Option TunnelPlan → Executor → ApplyOutcome × Executor
  apply_plan none e = (outcome "rejected" empty_readback "unsafe_endpoint_configuration", e)
  apply_plan (some plan) e = install_plan plan e

  unfoldable pub apply_tunnel :
      ConfigurationDesired
      → Option WireGuardConfiguration
      → Time
      → Executor
      → ApplyOutcome × Executor
  apply_tunnel desired none now e = remove_tunnel e
  apply_tunnel desired (some wg) now e = apply_plan (build_tunnel_plan desired wg keys now) e

  -- Apply
  unfoldable pub apply : ConfigurationDesired → Time → Executor → ApplyOutcome × Executor
  apply desired now e = apply_tunnel desired desired.wireguard now e

  unfoldable pub verify_readback : TunnelReadback → Executor → ApplyOutcome × Executor
  unfolding system_readback
  verify_readback expected e =
      let (answer, e1) = system_readback e in
      (
        if confirms answer expected
            then outcome "applied" expected ""
            else outcome "rejected" empty_readback "endpoint_readback_mismatch",
        e1,
      )

  unfoldable pub verify_plan : Option TunnelPlan → Executor → ApplyOutcome × Executor
  verify_plan none e = (outcome "rejected" empty_readback "unsafe_endpoint_configuration", e)
  verify_plan (some plan) e = verify_readback (readback_of plan) e

  unfoldable pub verify_tunnel :
      ConfigurationDesired
      → Option WireGuardConfiguration
      → Time
      → Executor
      → ApplyOutcome × Executor
  verify_tunnel desired none now e = verify_readback empty_readback e
  verify_tunnel desired (some wg) now e = verify_plan (build_tunnel_plan desired wg keys now) e

  -- Verify
  unfoldable pub verify : ConfigurationDesired → Time → Executor → ApplyOutcome × Executor
  verify desired now e = verify_tunnel desired desired.wireguard now e

  -- The end of VPNBinding: the interface of the tunnel that was read back.
  unfoldable pub bound_interface : TunnelPlan → Answer String → Option (String × List String)
  bound_interface plan (refused reason) = none
  bound_interface plan (got name) =
      if valid_vpn_interface_name name then some (name, plan.routes) else none

  unfoldable pub bind_tunnel :
      Answer String → Option TunnelPlan → Executor → Option (String × List String) × Executor
  unfolding system_readback
  bind_tunnel native none e = (none, e)
  bind_tunnel native (some plan) e =
      let (answer, e1) = system_readback e in
      (if confirms answer (readback_of plan) then bound_interface plan native else none, e1)

  unfoldable pub bind_native :
      Option (Answer String) → Executor → Option (String × List String) × Executor
  bind_native none e = (none, e)
  bind_native (some native) e = bind_tunnel native e.previous e

  -- VPNBinding; `none` is its error.
  unfoldable pub vpn_binding : Executor → Option (String × List String) × Executor
  vpn_binding e = bind_native system.tunnel_interface e
