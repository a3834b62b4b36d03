-- ===== src/Lib.antt =====
-- soha-app: the desktop client of OpenSoha and its privileged endpoint service, in Go.
--
-- The endpoint service (internal/endpointservice) holds the device's VPN session: its manager polls the
-- control plane for a signed configuration, hands it to an executor that installs the tunnel, renews and
-- revokes the session's leases, and records in a protected file what must survive a crash. Beside it an
-- admission manager keeps the device's certificate for 802.1X networks. The desktop client (the repository's
-- root) proxies a Soha server, keeps the session's refresh token in the system's keyring, updates itself from
-- a signed manifest, and writes a rotating log.
--
-- What stands where:
--   Endpoint/Protocol, Endpoint/Identifier: the wire records of internal/endpointservice/protocol.go and
--   eap_protocol.go, and the syntax of identifiers, SIDs and tokens (executor.go, config.go, manager.go).
--   Endpoint/Manager: manager.go, vpn_manager.go, configuration_floor.go and lifecycle.go. State has the
--   records `Manager` and `Status`; Floor the rollback floor and the pending cleanup
--   (rememberConfiguration, beginVPNCleanup, finishVPNCleanup, restoreConfigurationFloor); Leases the checks
--   on leases and scopes; Disconnect disconnectLocked and rejectConfiguration; Sync syncConfiguration; Cycle
--   Cycle, renew, enforceExpiry and one tick of watchNetworkLifecycle; Connect Connect and connectManaged.
--   Obligation, Invariant, Preservation, Reach, Run, Expiry,
--   Outcome and Admission hold proofs.
--   Endpoint/Executor: executor.go. Tunnel has the plan and its readback; Routes canonicalPrefixes and
--   routesCoveredByLeases; Firewall validFirewallRules; Host validEndpointHost; Plan buildTunnelPlan; Apply
--   Apply, Verify, Disable, recover and VPNBinding. Authorized, Order, Split and Dns
--   are about the plans that are built, Recovery and Runs about the executor over time.
--   Endpoint/Proxy: mihomo.go, mihomo_policy.go and mihomo_app.go. Names and Validation have
--   validateMihomoConfiguration; Policy mihomoRules; State CoordinatedExecutor and the interfaces of the
--   tunnel's executor and of the proxy's runtime; Coordination quiesceMihomo, recoverMihomo, bindMihomoVPN
--   and applyMihomoAppState; Operations Apply, Verify and Disable; AppControl the operations of the app on
--   its subscription. Composition puts the executor of Endpoint/Executor behind the interface.
--   Endpoint/Admission: eap_manager.go, eap_cleanup.go and eap_validation.go. State has `AdmissionManager` and
--   what it asks; Validation the checks of certificates and profiles; Store save, queueCleanup, detachSelection
--   and cleanup; Identity ensureIdentity and stage; Opening NewAdmissionManager; Observation, Preparation,
--   Checking, Removal and Connection the operations of these names. Keys, in each of them, follows the keys of
--   the system through the code.
--   Netip: the part of Go's net/netip and net that executor.go uses, on numbers and on the codes of a text.
--   Session: session_credentials.go and the session of proxy.go: the stored token, the block of a session,
--   what a proxied response does to it, and the switch to another server.
--   Logging: the rotating writer of logging.go.
--   Update: update_provider.go. Manifest has validateManifest and what an asset is called; Patch the header of
--   a delta; Provider fetch, verifiedAsset and downloadVerifiedAsset; Check and Download the two operations.
--   Base: shared names, tests, lists and errors.
--
-- How code becomes definitions: an operation takes the state to its result and the new state. The manager
-- holds its operation lock for the whole of Connect, Disconnect and Cycle, so that these are one step each;
-- the watchdog takes the same lock, and a tick of it is a step between them. The surroundings (clock, control
-- plane, executor, keyring, file system) are records of functions that answer as they like, the manager's
-- from the whole history of what it asked; no theorem assumes more of them than it says. An error is the list
-- of messages that errors.Join puts together. A time is a count of nanoseconds, 0 the zero time; an int that
-- the code refuses below 1 is a natural number, 0 standing for all that is refused. A failed save of the
-- floor leaves the file as it was, since the rename is its last step.
--
-- Fuel: an IPv6 text is read on fuel for eight groups, a ninth being an error; an octet, a prefix length, a
-- group and a port are printed on fuel for three, three, four and five digits, which all their values fit.
-- Every other function recurses on its lists.
--
-- Not modelled: the JSON and the encryption of what is stored, SHA-256 and the digests, which are arguments;
-- contexts and their deadlines; the option checks of NewManager, the copies that Status makes, the Run loop
-- with its timers, presence and heartbeats; the controller that speaks to the mihomo proxy and the text of its
-- configuration; the status of the EAP admission; the channel controls, the platforms' system calls,
-- enrollment, inventory, the HTTP client of the updates and the front end. The semantic versions, the
-- signature, the JSON and the patches of an update are arguments, as are the parsed certificates of the
-- admission. The part of validateMihomoConfiguration behind the presence of a protection is an argument of the
-- manager.
pub mod Base
pub mod Endpoint
pub mod Logging
pub mod Netip
pub mod Session
pub mod Update
