-- ===== src/Update/Patch.antt =====
-- update_provider.go: the header of a bsdiff patch.
pub mod Sizes
use soha_app.Base.{
  ℕ, zero, suc, ◌+◌, ◌-◌, ◌*◌, ◌/◌, ◌%◌, ℤ, pos, negsuc, Bool, true, false, not, ◌&&◌, List, [],
  ◌∷◌, ltb, leb, ◌==◌, if◌then◌else◌, codes,
}
use soha_app.Netip.Print.{codes_eq}

-- The loop of decodeBSDiffInt64, from the byte of index 6 down to that of index 0.
unfoldable pub fold_bytes : ℕ → List ℕ → ℕ
fold_bytes value [] = value
fold_bytes value (b ∷ bs) = fold_bytes (value * 256 + b) bs

-- `-value` is 0 for a value of 0.
unfoldable pub signed : Bool → ℕ → ℤ
signed negative value =
    if negative then (if value == 0 then pos 0 else negsuc (value - 1)) else pos value

-- decodeBSDiffInt64 of the eight bytes; the value has 63 bits, and does not overflow.
unfoldable pub decode_bsdiff_int64 : ℕ → ℕ → ℕ → ℕ → ℕ → ℕ → ℕ → ℕ → ℤ
unfolding fold_bytes signed
decode_bsdiff_int64 b0 b1 b2 b3 b4 b5 b6 b7 =
    signed (leb 128 b7) (fold_bytes (b7 % 128) (b6 ∷ b5 ∷ b4 ∷ b3 ∷ b2 ∷ b1 ∷ b0 ∷ []))

-- A size that is not negative, at most maxUpdateAssetSize, and the expected one.
unfoldable pub is_expected_size : ℤ → ℕ → Bool
is_expected_size (pos n) expected = leb n 134217728 && n == expected
is_expected_size (negsuc n) expected = false

target_size : List ℕ → ℕ → Bool
unfolding decode_bsdiff_int64 is_expected_size
target_size (b0 ∷ b1 ∷ b2 ∷ b3 ∷ b4 ∷ b5 ∷ b6 ∷ b7 ∷ rest) expected =
    is_expected_size (decode_bsdiff_int64 b0 b1 b2 b3 b4 b5 b6 b7) expected
target_size _ expected = false

abbrev skip : ℕ → List ℕ → List ℕ
skip zero bs = bs
skip (suc n) [] = []
skip (suc n) (b ∷ bs) = skip n bs

abbrev first : ℕ → List ℕ → List ℕ
first zero bs = []
first (suc n) [] = []
first (suc n) (b ∷ bs) = b ∷ first n bs

-- validateBSDiffTargetSize: the magic, and the size of the target in the bytes 24 to 31
unfoldable pub valid_bsdiff_target_size : List ℕ → ℕ → Bool
unfolding target_size
valid_bsdiff_target_size patch expected =
    codes_eq (first 8 patch) (codes "BSDIFF40") && target_size (skip 24 patch) expected
