-- ===== src/Update/Patch/Sizes.antt =====
-- update_provider.go: the sign and the magnitude of a size in a patch.
use soha_app.Base.{
  ℕ, ◌+◌, ◌/◌, ◌%◌, ◌<◌, Bool, true, false, ◌≡◌, arith, refl, if◌then◌else◌, leb, [], ◌∷◌,
}
use soha_app.Update.Patch.{decode_bsdiff_int64, fold_bytes, signed}

-- Byte `k` of a number, the lowest first.
abbrev pub byte : ℕ → ℕ → ℕ
byte value unit = value / unit % 256

-- The format of the patch: the magnitude in 63 bits, the lowest byte first, and the sign in the highest bit.
abbrev pub sign_bit : Bool → ℕ
sign_bit negative = if negative then 128 else 0

fold_lem :
    (m : ℕ)
    → m < 9223372036854775808
    → fold_bytes (m / 72057594037927936) (
        byte m 281474976710656
        ∷ byte m 1099511627776
        ∷ byte m 4294967296
        ∷ byte m 16777216
        ∷ byte m 65536
        ∷ byte m 256
        ∷ byte m 1
        ∷ [])
      ≡ m
unfolding fold_bytes
fold_lem m h = omega arith

-- A size survives its encoding. For every magnitude of 63 bits and either sign, decodeBSDiffInt64 of
-- the eight bytes that the format writes is that number, and 0 for both signs of 0.
pub decode_bsdiff_int64-bytes :
    (negative : Bool) (m : ℕ)
    → m < 9223372036854775808
    → decode_bsdiff_int64
        (byte m 1)
        (byte m 256)
        (byte m 65536)
        (byte m 16777216)
        (byte m 4294967296)
        (byte m 1099511627776)
        (byte m 281474976710656)
        (m / 72057594037927936 + sign_bit negative)
      ≡ signed negative m
unfolding decode_bsdiff_int64
decode_bsdiff_int64-bytes true m h =
    let top : (m / 72057594037927936 + 128) % 128 ≡ m / 72057594037927936 = omega arith in
    let bit : leb 128 (m / 72057594037927936 + 128) ≡ true = ground arith in
    rw (top, bit, fold_lem m h) refl
decode_bsdiff_int64-bytes false m h =
    let top : (m / 72057594037927936 + 0) % 128 ≡ m / 72057594037927936 = omega arith in
    let bit : leb 128 (m / 72057594037927936 + 0) ≡ false = ground arith in
    rw (top, bit, fold_lem m h) refl
