-- ===== src/Endpoint/Manager/Floor.antt =====
-- configuration_floor.go: the rollback floor, and the record of a cleanup that a restart resumes.
use Prim.Native.String
use soha_app.Base.{
  ℕ, String, Bool, true, false, not, ◌&&◌, ◌||◌, Option, none, some, List, [], ◌∷◌, ◌-◌, ltb, leb,
  ◌==◌, if◌then◌else◌, length, is_empty, str_eq, blank, codes,
}
use soha_app.Base.Errors.{Error, ok, fail, is_ok}
use soha_app.Endpoint.Identifier.{matches_identifier, all_identifiers}
use soha_app.Endpoint.Protocol.{ConfigurationDesired}
use soha_app.Endpoint.Manager.State.{
  ConfigurationFloor, History, Manager, PendingVpnCleanup, Surroundings, degraded, empty_floor,
  fresh_status, saved_floor,
}

-- [0-9a-f]
is_hex : ℕ → Bool
is_hex c = (leb b'0' c && leb c b'9') || (leb b'a' c && leb c b'f')

hex_run : ℕ → List ℕ → Bool
unfolding is_hex
hex_run n [] = n == 0
hex_run n (c ∷ cs) = ltb 0 n && is_hex c && hex_run (n - 1) cs

-- configurationDigestPattern.MatchString: "sha256:" and 64 hexadecimal digits
digest_codes : List ℕ → List ℕ → Bool
unfolding hex_run
digest_codes [] cs = hex_run 64 cs
digest_codes (p ∷ ps) [] = false
digest_codes (p ∷ ps) (c ∷ cs) = c == p && digest_codes ps cs

unfoldable pub matches_digest : String → Bool
unfolding digest_codes
matches_digest s = digest_codes (codes "sha256:") (codes s)

valid_pending_cleanup : Option PendingVpnCleanup → Bool
valid_pending_cleanup none = true
valid_pending_cleanup (some pending) =
    matches_identifier pending.session_id
    && matches_identifier pending.reason
    && not (is_empty pending.lease_ids)
    && leb (length pending.lease_ids) 768
    && all_identifiers pending.lease_ids

unfoldable pub valid_configuration_floor : ConfigurationFloor → String → Bool
unfolding valid_pending_cleanup
valid_configuration_floor floor identity =
    floor.version == 1
    && str_eq floor.identity identity
    && valid_pending_cleanup floor.pending_cleanup
    && ((floor.configuration_version == 0 && floor.policy_version == 0 && blank floor.digest)
        || (ltb 0 floor.configuration_version
            && ltb 0 floor.policy_version
            && matches_digest floor.digest))

module _ (env : Surroundings) where
  unfoldable pub floor_identity : String
  floor_identity = env.sha256_text (
      String.◌++◌ env.options.control_url (
        String.◌++◌ "\0"
          (String.◌++◌ env.options.runtime_id (String.◌++◌ "\0" env.options.device_id))))

  -- A failed commit leaves the file as it was: `saveProtectedState` renames last.
  unfoldable pub save_configuration_floor : ConfigurationFloor → Manager → Error × Manager
  save_configuration_floor floor m =
      if blank env.options.configuration_state_path
      then (ok, m)
      else let err = env.save m.history floor in
        (
          err,
          record m {
            disk = if is_ok err then some floor else m.disk;
            history = saved_floor floor err ∷ m.history;
          },
        )

  -- endpointEnforcementPayload and its digest
  unfoldable pub enforcement_digest : ConfigurationDesired → Option String
  enforcement_digest desired =
      env.configuration_digest (record desired { admission = none; runtime_intervals = none })

  -- What the restored floor puts into a new manager.
  resume_cleanup : Option PendingVpnCleanup → Manager → Manager
  resume_cleanup none m = m
  resume_cleanup (some pending) m = record m {
    status = record (m.status) {
      session_id = pending.session_id;
      state = degraded;
      diagnostic = "cleanup_pending";
    };
    lease_ids = pending.lease_ids;
    cleanup_reason = pending.reason;
  }

  -- restoreConfigurationFloor on what the state file holds: the path, its permissions and its
  -- encryption are the file system's.
  unfoldable pub restore_configuration_floor : Option ConfigurationFloor → Manager → Error × Manager
  unfolding resume_cleanup
  restore_configuration_floor stored m =
      if blank env.options.configuration_state_path
      then (ok, m)
      else if not env.options.has_absolute_path || blank env.options.control_url
      then (fail "endpoint configuration floor path or control identity is invalid", m)
      else elim stored [
        | none ↦ (ok, m)
        | some floor ↦
            if valid_configuration_floor floor floor_identity
            then (ok, resume_cleanup floor.pending_cleanup (record m { floor = floor }))
            else (fail "endpoint configuration floor identity or version is invalid", m)
      ]

  -- The refusals of rememberConfiguration behind the pending cleanup.
  unfoldable pub regressed : ConfigurationDesired → String → ConfigurationFloor → Bool
  regressed desired digest floor =
      ltb desired.configuration_version 1
      || ltb desired.policy_version 1
      || ltb desired.configuration_version floor.configuration_version
      || ltb desired.policy_version floor.policy_version
      || (desired.configuration_version == floor.configuration_version
          && not (str_eq digest floor.digest))

  unfoldable pub next_floor : ConfigurationDesired → String → ConfigurationFloor
  next_floor desired digest = record {
    pending_cleanup = none;
    version = 1;
    identity = floor_identity;
    configuration_version = desired.configuration_version;
    policy_version = desired.policy_version;
    digest = digest;
  }

  -- rememberConfiguration once the digest is there
  unfoldable pub remember_digest : ConfigurationDesired → String → Manager → Error × Manager
  unfolding regressed save_configuration_floor next_floor
  remember_digest desired digest m = elim m.floor.pending_cleanup [
    | some pending ↦ (fail "endpoint session cleanup is pending", m)
    | none ↦
        if regressed desired digest m.floor
        then (fail "endpoint configuration regressed or changed without a version", m)
        else if desired.configuration_version == m.floor.configuration_version
        then (ok, m)
        else let (err, m') = save_configuration_floor (next_floor desired digest) m in
          (err, if is_ok err then record m' { floor = next_floor desired digest } else m')
  ]

  unfoldable pub remember_found : ConfigurationDesired → Option String → Manager → Error × Manager
  unfolding remember_digest
  remember_found desired none m = (fail "marshal endpoint configuration", m)
  remember_found desired (some digest) m = remember_digest desired digest m

  unfoldable pub remember_configuration : ConfigurationDesired → Manager → Error × Manager
  unfolding remember_found
  remember_configuration desired m = remember_found desired (enforcement_digest desired) m

  -- The floor that records a cleanup as pending.
  unfoldable pub pending_floor :
      String → List String → String → ConfigurationFloor → ConfigurationFloor
  pending_floor session_id lease_ids reason floor = record floor {
    version = 1;
    identity = floor_identity;
    pending_cleanup =
        some (record { session_id = session_id; lease_ids = lease_ids; reason = reason });
  }

  unfoldable pub begin_vpn_cleanup : String → List String → String → Manager → Error × Manager
  unfolding save_configuration_floor pending_floor
  begin_vpn_cleanup session_id lease_ids reason m =
      if blank session_id || is_empty lease_ids
      then (ok, m)
      else let floor = pending_floor session_id lease_ids reason m.floor in
        save_configuration_floor floor (record m { floor = floor })

  unfoldable pub finish_vpn_cleanup : Manager → Error × Manager
  unfolding save_configuration_floor
  finish_vpn_cleanup m = elim m.floor.pending_cleanup [
    | none ↦ (ok, m)
    | some pending ↦
        let floor = record (m.floor) { pending_cleanup = none } in
        let (err, m') = save_configuration_floor floor m in
        (err, if is_ok err then record m' { floor = floor } else m')
  ]

  -- NewManager, on what the state file holds
  unfoldable pub new_manager : Option ConfigurationFloor → History → Error × Manager
  new_manager stored history = restore_configuration_floor stored (record {
    poll_interval = env.options.poll_interval;
    heartbeat_interval = env.options.heartbeat_interval;
    status = fresh_status;
    lease_ids = [];
    session_until = 0;
    next_renew_at = 0;
    applied_version = 0;
    applied_hash = "";
    disabled = true;
    cleanup_reason = "";
    floor = empty_floor;
    disk = stored;
    history = history;
  })
