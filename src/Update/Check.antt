-- ===== src/Update/Check.antt =====
-- update_provider.go: Check.
pub mod Authentic
pub mod Deltas
use Prim.Native.String
use soha_app.Base.{
  ℕ, zero, suc, ◌+◌, ◌-◌, ◌*◌, ◌%◌, String, Bool, true, false, not, ◌&&◌, ◌||◌, ℤ, pos, negsuc,
  Option, none, some, List, [], ◌∷◌, ltb, leb, ◌==◌, if◌then◌else◌, blank, str_eq, length,
}
use soha_app.Netip.Print.{codes_eq}
use soha_app.Update.Manifest.{
  CheckRequest, Comparison, Semver, UpdateAsset, UpdateDelta, UpdateManifest, UpdateTarget,
  VerifiedAsset, ◌<>◌, above, below, decode_sha256, equal, trim_v, valid_manifest,
}
use soha_app.Update.Provider.{
  Platform, Request, asset_limit, can_replace_executable, fetch, manifest_limit,
  read_executable_limited, signature_limit, signature_url, url_text, verified_asset,
}

-- updateDownloadCandidate
pub record DownloadCandidate : Type 0 where
  pub full : VerifiedAsset
  pub delta : Option VerifiedAsset

-- updater.Release, as far as the provider decides it.
pub record Release : Type 0 where
  pub version : String
  pub channel : String
  pub notes : String
  pub install_mode : String
  pub candidate : DownloadCandidate

-- The answer of Check: an error, no update, or a release.
pub data Checked : Type 0 where
  check_failed up_to_date : Checked
  available : Release → Checked

-- An int64 with the bits of a number, from its remainder.
to_int64 : ℕ → ℤ
to_int64 v = if ltb v 9223372036854775808 then pos v else negsuc (18446744073709551615 - v)

-- `size * 100`, with int64's wrap-around
unfoldable pub hundredfold : ℤ → ℤ
unfolding to_int64
hundredfold (pos n) = to_int64 (n * 100 % 18446744073709551616)
hundredfold (negsuc n) =
    to_int64 ((18446744073709551616 - suc n * 100 % 18446744073709551616) % 18446744073709551616)

unfoldable pub at_least : ℤ → ℕ → Bool
at_least (pos n) m = leb m n
at_least (negsuc n) m = false

-- What the loop over the deltas found: none that fits, one, or one that breaks the check.
pub data Pick : Type 0 where
  no_delta broken_delta : Pick
  picked : VerifiedAsset → Pick

unfoldable pub is_equal : Comparison → Bool
is_equal equal = true
is_equal _ = false

module _ (p : Platform) where
  -- A delta from another version, or one that saves less than a fifth.
  unfoldable pub skips_delta : CheckRequest → ℕ → UpdateDelta → Bool
  unfolding hundredfold at_least
  skips_delta request full_size delta =
      not (str_eq delta.from_version request.current_version)
      || at_least (hundredfold delta.size) (full_size * 80)

  unfoldable pub same_executable : Option (List ℕ) → List ℕ → Bool
  same_executable none digest = false
  same_executable (some bytes) digest = codes_eq (p.sha256 bytes) digest

  pick_verified : Option VerifiedAsset → Pick
  pick_verified none = broken_delta
  pick_verified (some asset) = picked asset

  unfoldable pub delta_asset : UpdateManifest → CheckRequest → UpdateDelta → Option VerifiedAsset
  delta_asset manifest request delta =
      verified_asset p manifest.version request.platform request.arch
        (record { name = delta.name; size = delta.size; sha256 = delta.sha256 }) delta.from_version

  -- The loop over the deltas, on the digest that the delta begins from
  pick_from :
      (List Request → Pick × List Request)
      → UpdateManifest
      → CheckRequest
      → UpdateDelta
      → Option (List ℕ)
      → List Request
      → Pick × List Request
  unfolding pick_verified delta_asset same_executable
  pick_from rest manifest request delta none xs = (broken_delta, xs)
  pick_from rest manifest request delta (some from) xs =
      let (bytes, xs1) = read_executable_limited p xs in
      if same_executable bytes from
      then (pick_verified (delta_asset manifest request delta), xs1)
      else rest xs1

  unfoldable pub pick_delta :
      UpdateManifest → CheckRequest → ℕ → List UpdateDelta → List Request → Pick × List Request
  unfolding pick_from
  pick_delta manifest request full_size [] xs = (no_delta, xs)
  pick_delta manifest request full_size (delta ∷ deltas) xs =
      let rest = pick_delta manifest request full_size deltas in
      if skips_delta request full_size delta
      then rest xs
      else pick_from rest manifest request delta (decode_sha256 delta.from_sha256) xs

  release : UpdateManifest → String → VerifiedAsset → Pick → Checked
  release manifest install_mode full broken_delta = check_failed
  release manifest install_mode full no_delta = available (record {
    version = manifest.version;
    channel = manifest.channel;
    notes = manifest.notes;
    install_mode = install_mode;
    candidate = record { full = full; delta = none };
  })
  release manifest install_mode full (picked delta) = available (record {
    version = manifest.version;
    channel = manifest.channel;
    notes = manifest.notes;
    install_mode = install_mode;
    candidate = record { full = full; delta = some delta };
  })

  -- The install mode of this platform
  unfoldable pub choose_mode : CheckRequest → String → List Request → String × List Request
  choose_mode request mode xs =
      let (can, xs1) = can_replace_executable p xs in
      if str_eq request.platform "linux"
      then ("external", xs)
      else if str_eq mode "self"
      then (if can then "self" else "external", xs1)
      else (mode, xs)

  unfoldable pub takes_deltas : CheckRequest → String → Bool
  takes_deltas request mode =
      str_eq mode "self" && str_eq request.platform "windows" && str_eq request.arch "amd64"

  -- Check behind the full asset
  check_full :
      UpdateManifest
      → CheckRequest
      → UpdateTarget
      → Option VerifiedAsset
      → List Request
      → Checked × List Request
  unfolding choose_mode takes_deltas release
  check_full manifest request target none xs = (check_failed, xs)
  check_full manifest request target (some full) xs =
      let (mode, xs1) = choose_mode request target.install_mode xs in
      let (pick, xs2) = pick_delta manifest request full.size target.deltas xs1 in
      if not (str_eq target.install_mode "self" || str_eq target.install_mode "external")
      then (check_failed, xs)
      else if takes_deltas request mode
      then (release manifest mode full pick, xs2)
      else (release manifest mode full no_delta, xs1)

  check_target :
      UpdateManifest → CheckRequest → Option UpdateTarget → List Request → Checked × List Request
  unfolding check_full
  check_target manifest request none xs = (check_failed, xs)
  check_target manifest request (some target) xs =
      check_full manifest request target
        (verified_asset p manifest.version request.platform request.arch target.full "") xs

  -- Check behind the signature
  check_manifest : CheckRequest → Option UpdateManifest → List Request → Checked × List Request
  unfolding check_target is_equal
  check_manifest request none xs = (check_failed, xs)
  check_manifest request (some manifest) xs =
      if not (valid_manifest p.semver p.mode manifest request)
      then (check_failed, xs)
      else if is_equal
          (p.semver.compare ("v" <> manifest.version) ("v" <> trim_v request.current_version))
      then (up_to_date, xs)
      else check_target manifest request (manifest.target (request.platform <> "-" <> request.arch))
          xs

  -- The signature is one of these bytes, of 64 bytes.
  signed_by : List ℕ → Option (List ℕ) → Bool
  signed_by bytes none = false
  signed_by bytes (some signature) =
      length signature == 64 && p.verify_signature p.public_key bytes signature

  check_signature : CheckRequest → List ℕ → Option (List ℕ) → List Request → Checked × List Request
  unfolding check_manifest signed_by
  check_signature request bytes none xs = (check_failed, xs)
  check_signature request bytes (some text) xs =
      if signed_by bytes (p.decode_signature text)
      then check_manifest request (p.decode_manifest bytes) xs
      else (check_failed, xs)

  check_bytes : CheckRequest → Option (List ℕ) → List Request → Checked × List Request
  unfolding check_signature
  check_bytes request none xs = (check_failed, xs)
  check_bytes request (some bytes) xs =
      let (text, xs1) = fetch p (url_text (signature_url p.manifest_url)) signature_limit xs in
      check_signature request bytes text xs1

  -- Check
  unfoldable pub check : CheckRequest → List Request → Checked × List Request
  unfolding check_bytes
  check request xs =
      let (bytes, xs1) = fetch p (url_text p.manifest_url) manifest_limit xs in
      check_bytes request bytes xs1
