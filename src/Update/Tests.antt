-- ===== src/Update/Tests.antt =====
-- update_provider.go on a concrete release 1.2.0 for Windows, with a delta from 1.1.0.
use soha_app.Update.Provider.{
  verify_asset_bytes, verified_asset, can_replace_executable, read_executable_limited, Platform,
  Request, download_verified_asset, fetch, manifest_limit, replied, signature_limit, signature_url,
  url_text,
}
use soha_app.Update.Manifest.{
  valid_manifest, trim_v, safe_asset_name, expected_asset_name, decode_sha256, expected_delta_name,
  CheckRequest, Semver, UpdateManifest, UpdateTarget, VerifiedAsset, above, equal, production,
}
use soha_app.Base.{
  blank, ℕ, zero, suc, String, true, ◌≡◌, none, some, List, [], ◌∷◌, refl, pos, negsuc, length,
  if◌then◌else◌, str_eq,
}
use soha_app.Endpoint.Proxy.Names.{byte_length}
use soha_app.Update.Check.{pick_delta, skips_delta, Release, available, check}
use soha_app.Netip.Print.{codes_eq}
use soha_app.Update.Patch.{valid_bsdiff_target_size}
use soha_app.Update.Check.Authentic.{OfManifest, check-Authentic}
use soha_app.Update.Download.{apply_delta, download}
use soha_app.Update.Download.Verified.{Matches, download-Matches}

-- A size of 258 is read from bytes 24 to 31.
patch_size :
    valid_bsdiff_target_size
      (66 ∷ 83 ∷ 68 ∷ 73 ∷ 70 ∷ 70 ∷ 52 ∷ 48 ∷ 0 ∷ 0 ∷ 0 ∷ 0 ∷ 0 ∷ 0 ∷ 0 ∷ 0 ∷ 0 ∷ 0 ∷ 0 ∷ 0 ∷ 0 ∷ 0
        ∷ 0 ∷ 0 ∷ 2 ∷ 1 ∷ 0 ∷ 0 ∷ 0 ∷ 0 ∷ 0 ∷ 0 ∷ [])
      258
    ≡ true
unfolding valid_bsdiff_target_size codes_eq
patch_size = refl

abbrev zeros : ℕ → List ℕ
zeros zero = []
zeros (suc n) = 0 ∷ zeros n

abbrev zero_digest : String
zero_digest = "0000000000000000000000000000000000000000000000000000000000000000"

abbrev target : UpdateTarget
target = record {
  install_mode = "self";
  full = record { name = "soha-app-v1.2.0-windows-amd64.exe"; size = pos 4; sha256 = zero_digest };
  deltas =
      record {
        from_version = "1.1.0";
        from_sha256 = zero_digest;
        name = "soha-app-v1.1.0-to-v1.2.0-windows-amd64.bsdiff";
        size = pos 2;
        sha256 = zero_digest;
      }
      ∷ [];
}

abbrev manifest : UpdateManifest
manifest = record {
  schema_version = pos 1;
  channel = "stable";
  version = "1.2.0";
  published_at = 7;
  notes = "";
  target = λ name. if str_eq name "windows-amd64" then some target else none;
}

abbrev semver : Semver
semver = record {
  is_valid = λ version. true;
  prerelease = λ version. "";
  compare = λ version current. if str_eq version current then equal else above;
}

-- Every download is four bytes, every digest zero, every signature good.
abbrev platform : Platform
platform = record {
  mode = production;
  manifest_url = record {
    front = "https://updates.example";
    path = "/manifest";
    back = "?channel=stable";
  };
  executable_path = "C:\\soha.exe";
  public_key = [];
  reply = λ xs url. replied 200 (negsuc 0) (some (1 ∷ 2 ∷ 3 ∷ 4 ∷ []));
  executable = λ xs. some (9 ∷ []);
  probe = λ xs. true;
  sha256 = λ bytes. zeros 32;
  decode_signature = λ text. some (zeros 64);
  verify_signature = λ key bytes signature. true;
  decode_manifest = λ bytes. some manifest;
  semver = semver;
  resolve = λ path. path;
  patch = λ old patch. some (1 ∷ 2 ∷ 3 ∷ 4 ∷ []);
}

abbrev request : CheckRequest
request = record { current_version = "1.1.0"; platform = "windows"; arch = "amd64" }

abbrev full : VerifiedAsset
full = record {
  name = "soha-app-v1.2.0-windows-amd64.exe";
  size = 4;
  digest = zeros 32;
  url =
      "https://github.com/opensoha/soha-app/releases/download/v1.2.0/soha-app-v1.2.0-windows-amd64.exe";
}

abbrev delta : VerifiedAsset
delta = record {
  name = "soha-app-v1.1.0-to-v1.2.0-windows-amd64.bsdiff";
  size = 2;
  digest = zeros 32;
  url =
      "https://github.com/opensoha/soha-app/releases/download/v1.2.0/soha-app-v1.1.0-to-v1.2.0-windows-amd64.bsdiff";
}

abbrev offered : Release
offered = record {
  version = "1.2.0";
  channel = "stable";
  notes = "";
  install_mode = "self";
  candidate = record { full = full; delta = some delta };
}

check_offers : (check platform request []).0 ≡ available offered
unfolding check fetch valid_manifest str_eq blank trim_v verified_asset safe_asset_name byte_length
    expected_asset_name decode_sha256 can_replace_executable pick_delta skips_delta
    read_executable_limited codes_eq expected_delta_name
check_offers = refl

check-Authentic_example :
    (bytes text signature : List ℕ) × (ys : List Request) × ((fetch platform
        (url_text platform.manifest_url)
        manifest_limit
        []).0
      ≡ some bytes)
    × ((fetch platform (url_text (signature_url platform.manifest_url)) signature_limit ys).0
        ≡ some text)
    × (platform.decode_signature text ≡ some signature)
    × (length signature ≡ 64)
    × (platform.verify_signature platform.public_key bytes signature ≡ true)
    × OfManifest platform request bytes offered
check-Authentic_example = check-Authentic platform request [] offered check_offers

-- The delta that comes is not two bytes, and the full asset is downloaded.
download-Matches_example :
    Matches platform full (download platform offered.candidate []).0
    × ((d : VerifiedAsset)
        → offered.candidate.delta ≡ some d
        → (bytes : List ℕ)
        → (download_verified_asset platform full (apply_delta platform full d []).1).0 ≡ some bytes
        → (found : List ℕ) × ((download platform offered.candidate []).0 ≡ some found))
download-Matches_example = download-Matches platform offered.candidate []

falls_back : (download platform offered.candidate []).0 ≡ some (1 ∷ 2 ∷ 3 ∷ 4 ∷ [])
unfolding download apply_delta download_verified_asset verify_asset_bytes codes_eq
falls_back = refl
