-- ===== src/Update/Download.antt =====
-- update_provider.go: Download, with a delta where there is one, and else whole.
pub mod Verified
use soha_app.Base.{Bool, ℕ, true, false, ◌&&◌, Option, none, some, List, if◌then◌else◌}
use soha_app.Update.Manifest.{VerifiedAsset}
use soha_app.Update.Patch.{valid_bsdiff_target_size}
use soha_app.Update.Provider.{
  Platform, Request, download_verified_asset, read_executable_limited, verify_asset_bytes,
}
use soha_app.Update.Check.{DownloadCandidate}

module _ (p : Platform) where
  verified_target : VerifiedAsset → Option (List ℕ) → Option (List ℕ)
  verified_target full none = none
  verified_target full (some target) =
      if verify_asset_bytes p full target then some target else none

  patch_old : VerifiedAsset → List ℕ → Option (List ℕ) → Option (List ℕ)
  unfolding verified_target
  patch_old full patch none = none
  patch_old full patch (some old) = verified_target full (p.patch old patch)

  patch_with : VerifiedAsset → Option (List ℕ) → List Request → Option (List ℕ) × List Request
  unfolding patch_old
  patch_with full none xs = (none, xs)
  patch_with full (some patch) xs =
      let (old, xs1) = read_executable_limited p xs in
      if valid_bsdiff_target_size patch full.size
      then (patch_old full patch old, xs1)
      else (none, xs)

  -- applyDelta
  unfoldable pub apply_delta :
      VerifiedAsset → VerifiedAsset → List Request → Option (List ℕ) × List Request
  unfolding patch_with
  apply_delta full delta xs =
      let (patch, xs1) = download_verified_asset p delta xs in patch_with full patch xs1

  or_full : VerifiedAsset → Option (List ℕ) → List Request → Option (List ℕ) × List Request
  or_full full (some target) xs = (some target, xs)
  or_full full none xs = download_verified_asset p full xs

  download_by : VerifiedAsset → Option VerifiedAsset → List Request → Option (List ℕ) × List Request
  unfolding or_full
  download_by full none xs = download_verified_asset p full xs
  download_by full (some delta) xs =
      let (target, xs1) = apply_delta full delta xs in or_full full target xs1

  -- Download: the bytes that go to the destination, or `none` for an error
  unfoldable pub download : DownloadCandidate → List Request → Option (List ℕ) × List Request
  unfolding download_by
  download c xs = download_by c.full c.delta xs
