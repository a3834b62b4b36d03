-- ===== src/Endpoint/Manager/Disconnect.antt =====
-- manager.go: leaving the VPN session, on request, on refusal and on failure.
use soha_app.Base.{String, Bool, true, ◌&&◌, ◌||◌, List, [], ◌∷◌, if◌then◌else◌, is_empty, blank}
use soha_app.Base.Errors.{Error, ok, fail, is_ok, join}
use soha_app.Endpoint.Protocol.{Time, LeaseRevoke}
use soha_app.Endpoint.Manager.State.{
  Manager, Surroundings, degrade, degraded, disabled_endpoint, fresh_status, read_clock, revoked,
}
use soha_app.Endpoint.Manager.Floor.{begin_vpn_cleanup, finish_vpn_cleanup}

module _ (env : Surroundings) where
  -- manager.now().UTC()
  unfoldable pub read_now : Manager → Time × Manager
  read_now m = (env.now m.history, record m { history = read_clock ∷ m.history })

  -- manager.executor.Disable
  unfoldable pub disable_endpoint : Manager → Error × Manager
  disable_endpoint m =
      let err = env.disable m.history in
      (err, record m { history = disabled_endpoint err ∷ m.history })

  -- manager.control.Revoke of the leases, as of now
  unfoldable pub revoke_leases : String → List String → String → Manager → Error × Manager
  unfolding read_now
  revoke_leases session_id lease_ids reason m =
      let (now, m') = read_now m in
      let request : LeaseRevoke = record {
        session_id = session_id;
        lease_ids = lease_ids;
        reason_code = reason;
        effective_at = now;
      } in
      let err = env.revoke m'.history request in
      (err, record m' { history = revoked request err ∷ m'.history })

  -- The remote half of disconnectLocked: no session or no lease, nothing to revoke.
  unfoldable pub revoke_session : String → List String → String → Manager → Error × Manager
  unfolding revoke_leases
  revoke_session session_id lease_ids reason m =
      if blank session_id || is_empty lease_ids
      then (ok, m)
      else revoke_leases session_id lease_ids reason m

  unfoldable pub finish_if : Bool → Manager → Error × Manager
  unfolding finish_vpn_cleanup
  finish_if done m = if done then finish_vpn_cleanup env m else (ok, m)

  -- The last lock of disconnectLocked: the session is forgotten only if nothing failed.
  unfoldable pub settle_disconnect : String → Error → Error → Error → Manager → Manager
  settle_disconnect reason local_err remote_err state_err m =
      if is_ok local_err && is_ok remote_err && is_ok state_err
      then record m {
        disabled = true;
        cleanup_reason = "";
        lease_ids = [];
        session_until = 0;
        next_renew_at = 0;
        applied_version = 0;
        status = fresh_status;
      }
      else record m {
        disabled = is_ok local_err;
        status = record (m.status) { state = degraded; diagnostic = "disconnect_incomplete" };
        cleanup_reason = reason;
      }

  unfoldable pub disconnect_locked : String → Manager → Error × Manager
  unfolding begin_vpn_cleanup finish_vpn_cleanup disable_endpoint revoke_session finish_if
      settle_disconnect
  disconnect_locked reason m =
      let session_id = m.status.session_id in
      let lease_ids = m.lease_ids in
      let (begin_err, m1) = begin_vpn_cleanup env session_id lease_ids reason m in
      let (local_err, m2) = disable_endpoint m1 in
      let (remote_err, m3) = revoke_session session_id lease_ids reason m2 in
      let (finish_err, m4) = finish_if (is_ok local_err && is_ok remote_err) m3 in
      let state_err = join begin_err finish_err in
      (
        join local_err (join remote_err state_err),
        settle_disconnect reason local_err remote_err state_err m4,
      )

  -- Disconnect
  unfoldable pub disconnect : Manager → Error × Manager
  disconnect m = disconnect_locked "user_disconnected" m

  unfoldable pub reject_configuration : String → Manager → Error × Manager
  reject_configuration reason m =
      let (err, m') = disconnect_locked reason m in (join (fail reason) err, degrade reason m')

  -- cleanupFailedVPN
  unfoldable pub cleanup_failed_vpn : Manager → Error × Manager
  cleanup_failed_vpn m = disconnect_locked "connect_failed" m
