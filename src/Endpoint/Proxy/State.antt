-- ===== src/Endpoint/Proxy/State.antt =====
-- mihomo.go and mihomo_app.go: the state of `CoordinatedExecutor`, the tunnel's executor behind its
-- interface, and the proxy's runtime.
use soha_app.Base.{
  ℕ, String, Bool, true, false, not, ◌&&◌, ◌≡◌, Option, none, some, List, [], ◌∷◌, leb, ◌==◌,
  if◌then◌else◌, blank, str_eq, contains, length,
}
use soha_app.Base.Errors.{Error}
use soha_app.Endpoint.Identifier.{matches_identifier}
use soha_app.Endpoint.Protocol.{ApplyOutcome, ConfigurationDesired, MihomoConfiguration, Time}
use soha_app.Endpoint.Manager.State.{Answer}
use soha_app.Endpoint.Proxy.Names.{Url, valid_mihomo_name, valid_subscription_url}

pub record MihomoReadback : Type 0 where
  pub mode : String
  pub profile_id : String
  pub profile_revision : ℕ
  pub mixed_port : ℕ
  pub controller_port : ℕ
  pub dns_mode : String
  pub selected_proxy : String
  pub protection_hash : String

-- MihomoReadback{}
abbrev pub no_readback : MihomoReadback
no_readback = record {
  mode = "";
  profile_id = "";
  profile_revision = 0;
  mixed_port = 0;
  controller_port = 0;
  dns_mode = "";
  selected_proxy = "";
  protection_hash = "";
}

-- reflect.DeepEqual
unfoldable pub mihomo_readback_eq : MihomoReadback → MihomoReadback → Bool
mihomo_readback_eq a b =
    str_eq a.mode b.mode
    && str_eq a.profile_id b.profile_id
    && a.profile_revision == b.profile_revision
    && a.mixed_port == b.mixed_port
    && a.controller_port == b.controller_port
    && str_eq a.dns_mode b.dns_mode
    && str_eq a.selected_proxy b.selected_proxy
    && str_eq a.protection_hash b.protection_hash

pub record MihomoAppStatus : Type 0 where
  pub mode : String
  pub profile_id : String
  pub profile_revision : ℕ
  pub configured : Bool
  pub selected_proxy : String
  pub proxies : List String

-- MihomoAppStatus{}
abbrev pub no_app_status : MihomoAppStatus
no_app_status = record {
  mode = "";
  profile_id = "";
  profile_revision = 0;
  configured = false;
  selected_proxy = "";
  proxies = [];
}

-- mihomoAppStatus(configuration, false, "", nil)
abbrev pub unconfigured_status : MihomoConfiguration → MihomoAppStatus
unconfigured_status c = record no_app_status {
  mode = c.mode;
  profile_id = c.profile_id;
  profile_revision = c.profile_revision;
}

-- The loop of validMihomoAppStatus: valid names, none twice.
distinct_names : List String → List String → Bool
distinct_names seen [] = true
distinct_names seen (name ∷ names) =
    valid_mihomo_name name && not (contains seen name) && distinct_names (name ∷ seen) names

-- validMihomoAppStatus
unfoldable pub valid_app_status : MihomoAppStatus → MihomoConfiguration → Bool
unfolding distinct_names
valid_app_status status c =
    str_eq status.mode "app_subscription"
    && str_eq status.profile_id c.profile_id
    && status.profile_revision == c.profile_revision
    && status.configured
    && valid_mihomo_name status.selected_proxy
    && leb 1 (length status.proxies)
    && leb (length status.proxies) 2048
    && contains status.proxies status.selected_proxy
    && distinct_names [] status.proxies

-- mihomoAppState
pub record MihomoAppState : Type 0 where
  pub cleared : Bool
  pub version : ℕ
  pub profile_id : String
  pub profile_revision : ℕ
  pub subscription_url : String
  pub selected_proxy : String

-- validMihomoAppState
unfoldable pub valid_app_state : (String → Option Url) → MihomoAppState → Bool
valid_app_state parse_url state =
    state.version == 1
    && matches_identifier state.profile_id
    && leb 1 state.profile_revision
    && (if state.cleared
        then blank state.subscription_url && blank state.selected_proxy
        else valid_subscription_url parse_url state.subscription_url
          && valid_mihomo_name state.selected_proxy)

-- mihomoAppliedState
pub record MihomoAppliedState : Type 0 where
  pub configuration : MihomoConfiguration
  pub app_state : Option MihomoAppState
  pub app_status : MihomoAppStatus

-- What stands in the file of the app's subscription: nothing, what cannot be read or decoded, or a state.
pub data AppFile : Type 0 where
  missing : AppFile
  unreadable : String → AppFile
  stored : MihomoAppState → AppFile

-- What os.Remove did.
pub data Removal : Type 0 where
  removed absent : Removal
  kept : String → Removal

-- What was asked of the tunnel's executor, of the proxy and of the state file, with the answer; the newest
-- stands first.
pub data Exchange : Type 0 where
  tunnel_applied : ConfigurationDesired → ApplyOutcome → Exchange
  tunnel_verified : ApplyOutcome → Exchange
  tunnel_disabled : Error → Exchange
  tunnel_bound : Option (String × List String) → Exchange
  proxy_applied : MihomoConfiguration → Answer MihomoReadback → Exchange
  proxy_subscribed : MihomoConfiguration → Answer MihomoAppStatus → Exchange
  proxy_verified : Option MihomoConfiguration → Error → Exchange
  proxy_disabled : Error → Exchange
  state_loaded : AppFile → Exchange
  state_saved : MihomoAppState → Error → Exchange
  state_removed : Removal → Exchange

-- ConfigurationExecutor, with the methods that the code asks for by a type assertion; `none` where there is
-- no such method.
pub record ConfigurationExecutor (W : Type 0) : Type 0 where
  pub apply : ConfigurationDesired → Time → W → ApplyOutcome × W
  pub verify : Option (ConfigurationDesired → Time → W → ApplyOutcome × W)
  pub disable : W → Error × W
  -- `none` is its error.
  pub vpn_binding : Option (W → Option (String × List String) × W)

-- What holds of the executor's own state between its calls, and is kept by each of them.
pub record ExecutorLaws {W : Type 0} (tunnel : ConfigurationExecutor W) : Type 1 where
  pub Holds : W → Type 0
  pub apply_keeps :
      (desired : ConfigurationDesired) (now : Time) (w : W)
      → Holds w
      → Holds (tunnel.apply desired now w).1
  pub verify_keeps :
      (verifier : ConfigurationDesired → Time → W → ApplyOutcome × W)
      → tunnel.verify ≡ some verifier
      → (desired : ConfigurationDesired) (now : Time) (w : W) → Holds w
      → Holds (verifier desired now w).1
  pub disable_keeps : (w : W) → Holds w → Holds (tunnel.disable w).1
  pub binding_keeps :
      (binding : W → Option (String × List String) × W)
      → tunnel.vpn_binding ≡ some binding
      → (w : W) → Holds w
      → Holds (binding w).1

-- The proxy's runtime, the state file and the digests. Each answer may depend on all that was asked.
pub record MihomoRuntime : Type 0 where
  -- `executor.mihomo != nil`, and the methods that the code asks for by a type assertion
  pub has_mihomo : Bool
  pub has_verify : Bool
  pub has_app : Bool
  -- "" where there is none
  pub app_state_path : String
  pub apply : List Exchange → MihomoConfiguration → Answer MihomoReadback
  pub apply_subscription :
      List Exchange → MihomoConfiguration → String → String → Answer MihomoAppStatus
  pub verify : List Exchange → Option MihomoConfiguration → Error
  pub disable : List Exchange → Error
  pub load_state : List Exchange → AppFile
  pub save_state : List Exchange → MihomoAppState → Error
  pub remove_state : List Exchange → Removal
  pub parse_url : String → Option Url
  pub combined_hash : String → String → String
  pub mihomo_hash : MihomoReadback → String
  pub protection_hash : MihomoConfiguration → String

-- CoordinatedExecutor, over the state of the tunnel's executor.
pub record CoordinatedExecutor (W : Type 0) : Type 0 where
  pub wireguard : W
  pub mihomo_active : Bool
  pub previous : Option MihomoAppliedState
  pub app_clear_pending : Bool
  pub app_desired : Option MihomoConfiguration
  pub app_status : MihomoAppStatus
  pub exchanges : List Exchange

-- NewCoordinatedExecutor
abbrev pub new_coordinated : {W : Type 0} → W → CoordinatedExecutor W
new_coordinated w = record {
  wireguard = w;
  mihomo_active = false;
  previous = none;
  app_clear_pending = false;
  app_desired = none;
  app_status = no_app_status;
  exchanges = [];
}
