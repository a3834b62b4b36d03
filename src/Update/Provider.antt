-- ===== src/Update/Provider.antt =====
-- update_provider.go: `signedManifestProvider`, its downloads and the files it reads.
use soha_app.Base.{
  ℕ, String, Bool, false, not, ◌&&◌, ◌||◌, ℤ, pos, negsuc, Option, none, some, List, ◌∷◌, ltb, leb,
  ◌==◌, if◌then◌else◌, blank, str_eq, length,
}
use soha_app.Netip.Print.{codes_eq}
use soha_app.Update.Manifest.{
  Semver, UpdateAsset, UpdateManifest, UpdateMode, VerifiedAsset, ◌<>◌, decode_sha256,
  expected_asset_name, expected_delta_name, production, safe_asset_name, test,
}

-- What client.Do returned: an error, or a response, whose body is `none` where reading it fails.
pub data Reply : Type 0 where
  unreachable : Reply
  replied : ℕ → ℤ → Option (List ℕ) → Reply

-- What the provider did, the newest first.
pub data Request : Type 0 where
  fetched : String → Request
  read_executable probed_directory : Request

-- A *url.URL as String prints it: its path, what stands before it, and its query and fragment behind it.
pub record ManifestUrl : Type 0 where
  pub front : String
  pub path : String
  pub back : String

-- manifestURL.String()
abbrev pub url_text : ManifestUrl → String
url_text url = url.front <> url.path <> url.back

-- signatureURL.Path += ".sig"
abbrev pub signature_url : ManifestUrl → ManifestUrl
signature_url url = record url { path = url.path <> ".sig" }

-- The network, the executable's file, and the code that the provider calls and does not hold.
pub record Platform : Type 0 where
  pub mode : UpdateMode
  pub manifest_url : ManifestUrl
  pub executable_path : String
  pub public_key : List ℕ
  pub reply : List Request → String → Reply
  pub executable : List Request → Option (List ℕ)
  -- The probe file in the directory of the executable was made, closed and removed.
  pub probe : List Request → Bool
  pub sha256 : List ℕ → List ℕ
  pub decode_signature : List ℕ → Option (List ℕ)
  pub verify_signature : List ℕ → List ℕ → List ℕ → Bool
  pub decode_manifest : List ℕ → Option UpdateManifest
  pub semver : Semver
  -- manifestURL.ResolveReference of a path, as a text
  pub resolve : String → String
  -- github.com/totallygamerjet/bsdiff
  pub patch : List ℕ → List ℕ → Option (List ℕ)

abbrev pub manifest_limit : ℕ
manifest_limit = 1048576

abbrev pub signature_limit : ℕ
signature_limit = 4096

abbrev pub asset_limit : ℕ
asset_limit = 134217728

exceeds : ℤ → ℕ → Bool
exceeds (pos n) limit = ltb limit n
exceeds (negsuc n) limit = false

-- io.ReadAll(io.LimitReader(…, limit+1)), and the test on what came
within_limit : ℕ → Option (List ℕ) → Option (List ℕ)
within_limit limit none = none
within_limit limit (some bytes) = if leb (length bytes) limit then some bytes else none

receive : ℕ → Reply → Option (List ℕ)
unfolding exceeds within_limit
receive limit unreachable = none
receive limit (replied status content_length body) =
    if not (status == 200) || exceeds content_length limit then none else within_limit limit body

module _ (p : Platform) where
  -- fetch
  unfoldable pub fetch : String → ℕ → List Request → Option (List ℕ) × List Request
  unfolding receive
  fetch url limit xs = (receive limit (p.reply xs url), fetched url ∷ xs)

  -- readFileLimited of the executable
  unfoldable pub read_executable_limited : List Request → Option (List ℕ) × List Request
  unfolding within_limit
  read_executable_limited xs = (within_limit asset_limit (p.executable xs), read_executable ∷ xs)

  -- canReplaceExecutable
  unfoldable pub can_replace_executable : List Request → Bool × List Request
  can_replace_executable xs =
      if blank p.executable_path then (false, xs) else (p.probe xs, probed_directory ∷ xs)

  asset_url_in : UpdateMode → String → String → String
  asset_url_in production version name =
      "https://github.com/opensoha/soha-app/releases/download/v" <> version <> "/" <> name
  asset_url_in test version name = p.resolve name

  -- assetURL
  unfoldable pub asset_url : String → String → String
  unfolding asset_url_in
  asset_url version name = asset_url_in p.mode version name

  valid_size : ℤ → Option ℕ
  valid_size (pos n) = if ltb 0 n && leb n asset_limit then some n else none
  valid_size (negsuc n) = none

  with_digest : String → String → Option ℕ → Option (List ℕ) → Option VerifiedAsset
  unfolding asset_url
  with_digest version name (some size) (some digest) =
      some (record { name = name; size = size; digest = digest; url = asset_url version name })
  with_digest version name _ _ = none

  -- verifiedAsset
  unfoldable pub verified_asset :
      String → String → String → UpdateAsset → String → Option VerifiedAsset
  unfolding valid_size with_digest
  verified_asset version platform arch asset from_version =
      let expected =
        if blank from_version
        then expected_asset_name version platform arch
        else expected_delta_name from_version version platform arch in
      if safe_asset_name asset.name && str_eq asset.name expected
      then with_digest version asset.name (valid_size asset.size) (decode_sha256 asset.sha256)
      else none

  -- verifyAssetBytes
  unfoldable pub verify_asset_bytes : VerifiedAsset → List ℕ → Bool
  verify_asset_bytes asset payload =
      length payload == asset.size && codes_eq (p.sha256 payload) asset.digest

  checked_bytes : VerifiedAsset → Option (List ℕ) → Option (List ℕ)
  checked_bytes asset none = none
  checked_bytes asset (some payload) =
      if verify_asset_bytes asset payload then some payload else none

  -- downloadVerifiedAsset
  unfoldable pub download_verified_asset :
      VerifiedAsset → List Request → Option (List ℕ) × List Request
  unfolding fetch checked_bytes
  download_verified_asset asset xs =
      let (payload, xs1) = fetch asset.url asset_limit xs in (checked_bytes asset payload, xs1)
