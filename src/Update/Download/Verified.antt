-- ===== src/Update/Download/Verified.antt =====
-- update_provider.go: what Download may write.
use soha_app.Base.{
  ℕ, true, ◌≡◌, Option, none, some, List, [], ◌∷◌, arith, refl, length, Option-cases, Bool-cases,
  inl, inr,
}
use soha_app.Netip.Print.{codes_eq}
use soha_app.Update.Manifest.{VerifiedAsset}
use soha_app.Update.Patch.{valid_bsdiff_target_size}
use soha_app.Update.Provider.{
  Platform, Request, download_verified_asset, fetch, read_executable_limited, verify_asset_bytes,
  asset_limit,
}
use soha_app.Update.Check.{DownloadCandidate}
use soha_app.Update.Download.{
  apply_delta, download, download_by, or_full, patch_old, patch_with, verified_target,
}

pub codes_eq→≡ : (xs ys : List ℕ) → codes_eq xs ys ≡ true → xs ≡ ys
unfolding codes_eq
codes_eq→≡ [] [] h = refl
codes_eq→≡ [] (y ∷ ys) h = ground arith
codes_eq→≡ (x ∷ xs) [] h = ground arith
codes_eq→≡ (x ∷ xs) (y ∷ ys) h = ground (arith, codes_eq→≡ xs ys)

module _ (p : Platform) where
  -- The bytes are those that the asset names.
  abbrev pub Matches : VerifiedAsset → Option (List ℕ) → Type 0
  Matches asset payload =
      (bytes : List ℕ)
      → payload ≡ some bytes
      → (length bytes ≡ asset.size) × (p.sha256 bytes ≡ asset.digest)

  verify_asset_bytes-Matches :
      (asset : VerifiedAsset) (bytes : List ℕ)
      → verify_asset_bytes p asset bytes ≡ true
      → (length bytes ≡ asset.size) × (p.sha256 bytes ≡ asset.digest)
  unfolding verify_asset_bytes
  verify_asset_bytes-Matches asset bytes h =
      (ground arith, codes_eq→≡ (p.sha256 bytes) asset.digest (ground arith))

  download_verified_asset-Matches :
      (asset : VerifiedAsset) (xs : List Request)
      → Matches asset (download_verified_asset p asset xs).0
  unfolding download_verified_asset
  download_verified_asset-Matches asset xs bytes h =
      elim (Option-cases (fetch p asset.url asset_limit xs).0) [
        | inl e ↦ absurd (ground (arith, e))
        | inr (payload, e) ↦ elim (Bool-cases (verify_asset_bytes p asset payload)) [
          | inl good ↦
              let same : payload ≡ bytes = ground (arith, e, good) in
              verify_asset_bytes-Matches asset bytes (rw (← same) good)
          | inr bad ↦ absurd (ground (arith, e, bad))
        ]
      ]

  verified_target-Matches :
      (full : VerifiedAsset) (target : Option (List ℕ))
      → Matches full (verified_target p full target)
  unfolding verified_target
  verified_target-Matches full none bytes h = absurd (ground arith)
  verified_target-Matches full (some target) bytes h =
      elim (Bool-cases (verify_asset_bytes p full target)) [
        | inl good ↦
            let same : target ≡ bytes = ground (arith, good) in
            verify_asset_bytes-Matches full bytes (rw (← same) good)
        | inr bad ↦ absurd (ground (arith, bad))
      ]

  patch_old-Matches :
      (full : VerifiedAsset) (patch : List ℕ) (old : Option (List ℕ))
      → Matches full (patch_old p full patch old)
  unfolding patch_old
  patch_old-Matches full patch none bytes h = absurd (ground arith)
  patch_old-Matches full patch (some old) bytes h =
      verified_target-Matches full (p.patch old patch) bytes h

  patch_with-Matches :
      (full : VerifiedAsset) (patch : Option (List ℕ)) (xs : List Request)
      → Matches full (patch_with p full patch xs).0
  unfolding patch_with
  patch_with-Matches full none xs bytes h = absurd (ground arith)
  patch_with-Matches full (some patch) xs bytes h =
      elim (Bool-cases (valid_bsdiff_target_size patch full.size)) [
        | inl good ↦
            patch_old-Matches full patch (read_executable_limited p xs).0 bytes
              (ground (arith, good))
        | inr bad ↦ absurd (ground (arith, bad))
      ]

  or_full-Matches :
      (full : VerifiedAsset) (target : Option (List ℕ)) (xs : List Request)
      → Matches full target
      → Matches full (or_full p full target xs).0
  unfolding or_full
  or_full-Matches full none xs m = download_verified_asset-Matches full xs
  or_full-Matches full (some target) xs m = m

  download_by-Matches :
      (full : VerifiedAsset) (delta : Option VerifiedAsset) (xs : List Request)
      → Matches full (download_by p full delta xs).0
  unfolding download_by apply_delta
  download_by-Matches full none xs = download_verified_asset-Matches full xs
  download_by-Matches full (some delta) xs =
      let patch = download_verified_asset p delta xs in
      or_full-Matches full (apply_delta p full delta xs).0 (apply_delta p full delta xs).1
        (patch_with-Matches full patch.0 patch.1)

  or_full-falls_back :
      (full : VerifiedAsset) (target : Option (List ℕ)) (xs : List Request) (bytes : List ℕ)
      → (download_verified_asset p full xs).0 ≡ some bytes
      → (found : List ℕ) × ((or_full p full target xs).0 ≡ some found)
  unfolding or_full
  or_full-falls_back full none xs bytes h = (bytes, h)
  or_full-falls_back full (some target) xs bytes h = (target, refl)

  -- An update is what the signed manifest says, by whatever way it came. All that Download writes has the
  -- size and the digest of the full asset, a patched executable too. And a delta never stands in the way: if
  -- the full asset can be downloaded after the delta was tried, Download writes something.
  pub download-Matches :
      (c : DownloadCandidate) (xs : List Request)
      → Matches c.full (download p c xs).0
        × ((delta : VerifiedAsset)
            → c.delta ≡ some delta
            → (bytes : List ℕ)
            → (download_verified_asset p c.full (apply_delta p c.full delta xs).1).0 ≡ some bytes
            → (found : List ℕ) × ((download p c xs).0 ≡ some found))
  unfolding download
  download-Matches c xs = (
    download_by-Matches c.full c.delta xs,
    λ delta e bytes h.
        let (found, f) =
          or_full-falls_back c.full (apply_delta p c.full delta xs).0
            (apply_delta p c.full delta xs).1 bytes h in
        (found, rw (e, download_by) f),
  )
