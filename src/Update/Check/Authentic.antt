-- ===== src/Update/Check/Authentic.antt =====
-- update_provider.go: what a release that Check offers rests on.
use soha_app.Base.{
  ℕ, String, true, false, ◌≡◌, Option, none, some, List, arith, refl, length, Option-cases,
  Bool-cases, inl, inr, Ever, ◌≢◌, ◌⊎◌, pos, str_eq_iff, blank_iff,
}
use soha_app.Update.Manifest.{
  CheckRequest, UpdateManifest, UpdateTarget, VerifiedAsset, ◌<>◌, Comparison, above, is_below,
  is_one, is_production, is_zero_time, mode_channel, test, trim_v, valid_manifest,
}
use soha_app.Update.Provider.{
  Platform, Request, fetch, manifest_limit, signature_limit, signature_url, url_text,
  verified_asset,
}
use soha_app.Update.Check.{
  Pick, Release, available, broken_delta, check, check_bytes, check_full, check_manifest,
  check_signature, check_target, choose_mode, is_equal, no_delta, pick_delta, picked, release,
  signed_by, takes_deltas,
}
use soha_app.Update.Check.Deltas.{Begins, pick_delta-Begins}

module _ (p : Platform) (request : CheckRequest) where
  -- What the manifest says of a release of this target.
  abbrev pub OfTarget : UpdateManifest → UpdateTarget → Release → Type 0
  OfTarget manifest target r =
      (r.version ≡ manifest.version)
      × (verified_asset p manifest.version request.platform request.arch target.full ""
          ≡ some r.candidate.full)
      × ((delta : VerifiedAsset)
          → r.candidate.delta ≡ some delta
          → (takes_deltas p request r.install_mode ≡ true)
            × Ever (Begins p request manifest r.candidate.full.size delta) target.deltas)

  release-OfTarget :
      (manifest : UpdateManifest) (target : UpdateTarget) (mode : String) (full : VerifiedAsset)
      (pick : Pick) (r : Release)
      → verified_asset p manifest.version request.platform request.arch target.full "" ≡ some full
      → ((delta : VerifiedAsset)
          → pick ≡ picked delta
          → (takes_deltas p request mode ≡ true)
            × Ever (Begins p request manifest full.size delta) target.deltas)
      → release p manifest mode full pick ≡ available r
      → OfTarget manifest target r
  unfolding release
  release-OfTarget manifest target mode full broken_delta r v d h = absurd (ground arith)
  release-OfTarget manifest target mode full no_delta r v d h =
      let same : full ≡ r.candidate.full = ground arith in
      (ground arith, rw (← same) v, λ delta e. absurd (ground arith))
  release-OfTarget manifest target mode full (picked asset) r v d h =
      let same : full ≡ r.candidate.full = ground arith in
      let same_mode : mode ≡ r.install_mode = ground arith in
      (
        ground arith,
        rw (← same) v,
        λ delta e.
            let chosen : asset ≡ delta = ground arith in
            rw (← same, ← same_mode) (d delta (rw chosen refl)),
      )

  check_full-OfTarget :
      (manifest : UpdateManifest) (target : UpdateTarget) (full : Option VerifiedAsset)
      (xs : List Request) (r : Release)
      → verified_asset p manifest.version request.platform request.arch target.full "" ≡ full
      → (check_full p manifest request target full xs).0 ≡ available r
      → OfTarget manifest target r
  unfolding check_full
  check_full-OfTarget manifest target none xs r v h = absurd (ground arith)
  check_full-OfTarget manifest target (some full) xs r v h =
      let mode = choose_mode p request target.install_mode xs in
      let pick = (pick_delta p manifest request full.size target.deltas mode.1).0 in
      elim (Bool-cases (takes_deltas p request mode.0)) [
        | inl takes ↦
            release-OfTarget manifest target mode.0 full pick r v
              (λ delta e. (
                takes,
                pick_delta-Begins p request manifest full.size target.deltas mode.1 delta e,
              ))
              (ground (arith, takes))
        | inr whole ↦
            release-OfTarget manifest target mode.0 full no_delta r v
              (λ delta e. absurd (ground arith)) (ground (arith, whole))
      ]

  -- A manifest of schema 1 and of the channel of this build, with a publication time; its version and
  -- the one that runs are valid, it is above the one that runs, and for production no prerelease.
  abbrev pub IsNewer : UpdateManifest → Type 0
  IsNewer manifest =
      let version = "v" <> manifest.version in
      let current = "v" <> trim_v request.current_version in
      (manifest.schema_version ≡ pos 1)
      × (manifest.channel ≡ mode_channel p.mode)
      × (manifest.published_at ≢ 0)
      × (p.semver.is_valid version ≡ true)
      × (p.semver.is_valid current ≡ true)
      × (p.semver.compare version current ≡ above)
      × ((p.mode ≡ test) ⊎ (p.semver.prerelease version ≡ ""))

  above_of : (c : Comparison) → is_below c ≡ false → is_equal c ≡ false → c ≡ above
  unfolding is_below is_equal
  above_of c b e = ground arith

  valid_manifest-IsNewer :
      (manifest : UpdateManifest)
      → valid_manifest p.semver p.mode manifest request ≡ true
      → is_equal
          (p.semver.compare ("v" <> manifest.version) ("v" <> trim_v request.current_version))
        ≡ false
      → IsNewer manifest
  unfolding valid_manifest is_one is_zero_time is_production
  valid_manifest-IsNewer manifest v e =
      let version = "v" <> manifest.version in
      let current = "v" <> trim_v request.current_version in
      (
        ground (arith, v),
        (str_eq_iff manifest.channel (mode_channel p.mode)).0 (ground (arith, v)),
        ground (arith, v),
        ground (arith, v),
        ground (arith, v),
        above_of (p.semver.compare version current) (ground (arith, v)) e,
        ground (arith, v, (blank_iff (p.semver.prerelease version)).0),
      )

  -- What a manifest must be for a release to be offered.
  abbrev pub OfManifest : List ℕ → Release → Type 0
  OfManifest bytes r =
      (manifest : UpdateManifest) × (target : UpdateTarget) × (p.decode_manifest bytes
        ≡ some manifest)
      × IsNewer manifest
      × (manifest.target (request.platform <> "-" <> request.arch) ≡ some target)
      × OfTarget manifest target r

  check_manifest-OfManifest :
      (bytes : List ℕ) (manifest : Option UpdateManifest) (xs : List Request) (r : Release)
      → p.decode_manifest bytes ≡ manifest
      → (check_manifest p request manifest xs).0 ≡ available r
      → OfManifest bytes r
  unfolding check_manifest check_target
  check_manifest-OfManifest bytes none xs r d h = absurd (ground arith)
  check_manifest-OfManifest bytes (some manifest) xs r d h =
      let name = request.platform <> "-" <> request.arch in
      elim (Option-cases (manifest.target name)) [
        | inl e ↦ absurd (ground (arith, e))
        | inr (target, e) ↦ (
          manifest,
          target,
          d,
          valid_manifest-IsNewer manifest (ground (arith, e)) (ground (arith, e)),
          e,
          check_full-OfTarget manifest target
              (verified_asset p manifest.version request.platform request.arch target.full "") xs r
              refl (ground (arith, e)),
        )
      ]

  check_signature-OfManifest :
      (bytes text : List ℕ) (xs : List Request) (r : Release)
      → (check_signature p request bytes (some text) xs).0 ≡ available r
      → (signature : List ℕ) × (p.decode_signature text ≡ some signature)
        × (length signature ≡ 64)
        × (p.verify_signature p.public_key bytes signature ≡ true)
        × OfManifest bytes r
  unfolding check_signature signed_by
  check_signature-OfManifest bytes text xs r h = elim (Option-cases (p.decode_signature text)) [
    | inl e ↦ absurd (ground (arith, e))
    | inr (signature, e) ↦ (
      signature,
      e,
      ground (arith, e),
      ground (arith, e),
      check_manifest-OfManifest bytes (p.decode_manifest bytes) xs r refl (ground (arith, e)),
    )
  ]

  check_text-OfManifest :
      (bytes : List ℕ) (text : Option (List ℕ)) (xs : List Request) (r : Release)
      → (check_signature p request bytes text xs).0 ≡ available r
      → (found signature : List ℕ) × (text ≡ some found)
        × (p.decode_signature found ≡ some signature)
        × (length signature ≡ 64)
        × (p.verify_signature p.public_key bytes signature ≡ true)
        × OfManifest bytes r
  unfolding check_signature
  check_text-OfManifest bytes none xs r h = absurd (ground arith)
  check_text-OfManifest bytes (some text) xs r h =
      let (signature, s, l, v, m) = check_signature-OfManifest bytes text xs r h in
      (text, signature, refl, s, l, v, m)

  check_bytes-Authentic :
      (bytes : Option (List ℕ)) (xs : List Request) (r : Release)
      → (check_bytes p request bytes xs).0 ≡ available r
      → (manifest text signature : List ℕ) × (bytes ≡ some manifest)
        × ((fetch p (url_text (signature_url p.manifest_url)) signature_limit xs).0 ≡ some text)
        × (p.decode_signature text ≡ some signature)
        × (length signature ≡ 64)
        × (p.verify_signature p.public_key manifest signature ≡ true)
        × OfManifest manifest r
  unfolding check_bytes
  check_bytes-Authentic none xs r h = absurd (ground arith)
  check_bytes-Authentic (some bytes) xs r h =
      let reply = fetch p (url_text (signature_url p.manifest_url)) signature_limit xs in
      let (text, signature, e, s, l, v, m) = check_text-OfManifest bytes reply.0 reply.1 r h in
      (bytes, text, signature, refl, e, s, l, v, m)

  -- No update without a signature. A release that Check offers is the one of a manifest that was fetched
  -- and carries a signature of 64 bytes that the public key verifies. That manifest decodes, is of schema 1,
  -- of the channel of this build and with a publication time, and semver finds its version above the one
  -- that runs, both being valid, and no prerelease for production. The full asset is the one that
  -- verifiedAsset makes of the target's; and a delta is offered only where takes_deltas says so, and only one
  -- of the target's that begins from the version that runs and from the digest of bytes that a read of the
  -- executable returned, and of which a hundred times the size, as an int64, is less than eighty times that
  -- of the full asset.
  pub check-Authentic :
      (xs : List Request) (r : Release)
      → (check p request xs).0 ≡ available r
      → (manifest text signature : List ℕ) × (ys : List Request) × ((fetch p
            (url_text p.manifest_url)
            manifest_limit
            xs).0
          ≡ some manifest)
        × ((fetch p (url_text (signature_url p.manifest_url)) signature_limit ys).0 ≡ some text)
        × (p.decode_signature text ≡ some signature)
        × (length signature ≡ 64)
        × (p.verify_signature p.public_key manifest signature ≡ true)
        × OfManifest manifest r
  unfolding check
  check-Authentic xs r h =
      let reply = fetch p (url_text p.manifest_url) manifest_limit xs in
      let (manifest, text, signature, e, t, s, l, v, m) =
        check_bytes-Authentic reply.0 reply.1 r h in
      (manifest, text, signature, reply.1, e, t, s, l, v, m)
