-- ===== src/Update/Manifest.antt =====
-- update_provider.go: the manifest of an update, and what its assets must be.
use Prim.Native.Char.{code}
use Prim.Native.String
use soha_app.Base.{
  ℕ, ◌+◌, ◌-◌, ◌*◌, String, Bool, true, false, not, ◌&&◌, ◌||◌, ℤ, pos, negsuc, Option, none, some,
  List, [], ◌∷◌, leb, ◌==◌, if◌then◌else◌, any, codes, blank, str_eq, contains, length,
}
use soha_app.Endpoint.Protocol.{Time}
use soha_app.Endpoint.Proxy.Names.{byte_length}

-- updateBuildMode, less the disabled one, for which there is no provider.
pub data UpdateMode : Type 0 where
  test production : UpdateMode

pub record UpdateAsset : Type 0 where
  pub name : String
  pub size : ℤ
  pub sha256 : String

pub record UpdateDelta : Type 0 where
  pub from_version : String
  pub from_sha256 : String
  pub name : String
  pub size : ℤ
  pub sha256 : String

pub record UpdateTarget : Type 0 where
  pub install_mode : String
  pub full : UpdateAsset
  pub deltas : List UpdateDelta

-- updateManifest; a lookup for the map of the targets.
pub record UpdateManifest : Type 0 where
  pub schema_version : ℤ
  pub channel : String
  pub version : String
  pub published_at : Time
  pub notes : String
  pub target : String → Option UpdateTarget

-- verifiedUpdateAsset
pub record VerifiedAsset : Type 0 where
  pub name : String
  pub size : ℕ
  pub digest : List ℕ
  pub url : String

-- updater.CheckRequest
pub record CheckRequest : Type 0 where
  pub current_version : String
  pub platform : String
  pub arch : String

-- golang.org/x/mod/semver, on versions with their "v". `compare` tells below, equal and above.
pub data Comparison : Type 0 where
  below equal above : Comparison

pub record Semver : Type 0 where
  pub is_valid : String → Bool
  pub prerelease : String → String
  pub compare : String → String → Comparison

infixr 66 ◌<>◌
abbrev pub ◌<>◌ : String → String → String
s <> t = String.◌++◌ s t

starts_with_v : List ℕ → Bool
starts_with_v [] = false
starts_with_v (c ∷ cs) = c == b'v'

-- strings.TrimPrefix(version, "v")
unfoldable pub trim_v : String → String
trim_v String.[] = ""
trim_v (String.◌∷◌ c rest) = if code c == b'v' then rest else String.◌∷◌ c rest

lower_hex : ℕ → Option ℕ
lower_hex c =
    if leb b'0' c && leb c b'9'
    then some (c - 48)
    else if leb b'a' c && leb c b'f'
    then some (c - 87)
    else none

join_digits : Option ℕ → Option ℕ → Option (List ℕ) → Option (List ℕ)
join_digits (some high) (some low) (some rest) = some ((high * 16 + low) ∷ rest)
join_digits _ _ _ = none

hex_bytes : List ℕ → Option (List ℕ)
unfolding lower_hex join_digits
hex_bytes [] = some []
hex_bytes (c ∷ []) = none
hex_bytes (c ∷ d ∷ cs) = join_digits (lower_hex c) (lower_hex d) (hex_bytes cs)

-- decodeSHA256
unfoldable pub decode_sha256 : String → Option (List ℕ)
unfolding hex_bytes
decode_sha256 encoded = if length (codes encoded) == 64 then hex_bytes (codes encoded) else none

is_separator : ℕ → Bool
is_separator c = c == b'/' || c == 92

-- safeUpdateAssetName; the base of a name without a separator is the name.
unfoldable pub safe_asset_name : String → Bool
unfolding is_separator
safe_asset_name name =
    not (blank name)
    && leb (byte_length (codes name)) 255
    && not (any is_separator (codes name))
    && not (str_eq name ".")
    && not (str_eq name "..")

extension : String → String
extension platform =
    if str_eq platform "windows"
    then ".exe"
    else if str_eq platform "darwin"
    then ".zip"
    else if str_eq platform "linux"
    then ".deb"
    else ""

-- expectedUpdateAssetName
unfoldable pub expected_asset_name : String → String → String → String
unfolding extension
expected_asset_name version platform arch =
    "soha-app-v" <> version <> "-" <> platform <> "-" <> arch <> extension platform

unfoldable pub expected_delta_name : String → String → String → String → String
expected_delta_name from_version version platform arch =
    "soha-app-v" <> from_version <> "-to-v" <> version <> "-" <> platform <> "-" <> arch
    <> ".bsdiff"

unfoldable pub is_zero_time : Time → Bool
is_zero_time t = t == 0

unfoldable pub is_one : ℤ → Bool
is_one (pos n) = n == 1
is_one (negsuc n) = false

unfoldable pub mode_channel : UpdateMode → String
mode_channel test = "test"
mode_channel production = "stable"

unfoldable pub is_production : UpdateMode → Bool
is_production test = false
is_production production = true

unfoldable pub is_below : Comparison → Bool
is_below below = true
is_below _ = false

-- validateManifest
unfoldable pub valid_manifest : Semver → UpdateMode → UpdateManifest → CheckRequest → Bool
unfolding is_zero_time is_one mode_channel is_production is_below starts_with_v
valid_manifest semver mode manifest request =
    let version = "v" <> manifest.version in
    let current = "v" <> trim_v request.current_version in
    is_one manifest.schema_version
    && str_eq manifest.channel (mode_channel mode)
    && not (starts_with_v (codes manifest.version))
    && semver.is_valid version
    && semver.is_valid current
    && not (is_production mode && not (blank (semver.prerelease version)))
    && not (is_below (semver.compare version current))
    && not (is_zero_time manifest.published_at)
    && contains ("windows-amd64" ∷ "darwin-arm64" ∷ "linux-amd64" ∷ [])
        (request.platform <> "-" <> request.arch)
