-- ===== src/Endpoint/Identifier.antt =====
-- internal/endpointservice: the syntax of identifiers (executor.go), SIDs (config.go) and of the
-- base64 grant tokens (manager.go).
use soha_app.Base.{
  ℕ, suc, ◌*◌, ◌/◌, ◌%◌, String, Bool, true, false, not, ◌&&◌, ◌||◌, List, [], ◌∷◌, Option, none,
  some, leb, ◌==◌, if◌then◌else◌, length, all, codes, ap, inl, inr, blank, blank_iff, Bool-cases,
  ◌≡◌,
}

-- [A-Za-z0-9]
unfoldable pub is_alphanumeric : ℕ → Bool
is_alphanumeric c =
    (leb b'A' c && leb c b'Z') || (leb b'a' c && leb c b'z') || (leb b'0' c && leb c b'9')

-- [A-Za-z0-9._:-]
unfoldable pub is_identifier_tail : ℕ → Bool
unfolding is_alphanumeric
is_identifier_tail c = is_alphanumeric c || c == b'.' || c == b'_' || c == b':' || c == b'-'

unfoldable pub matches_identifier_codes : List ℕ → Bool
unfolding is_identifier_tail is_alphanumeric
matches_identifier_codes [] = false
matches_identifier_codes (c ∷ cs) =
    is_alphanumeric c && leb (length cs) 127 && all is_identifier_tail cs

-- identifierPattern.MatchString
unfoldable pub matches_identifier : String → Bool
unfolding matches_identifier_codes
matches_identifier s = matches_identifier_codes (codes s)

-- allIdentifiers
unfoldable pub all_identifiers : List String → Bool
all_identifiers [] = true
all_identifiers (s ∷ ss) = matches_identifier s && all_identifiers ss

-- The loop of `validSID` over the text behind "S-": digits and single dashes, none of them last.
sid_tail : ℕ → List ℕ → Bool
sid_tail before [] = not (before == b'-')
sid_tail before (c ∷ cs) =
    ((leb b'0' c && leb c b'9') || (c == b'-' && not (before == b'-'))) && sid_tail c cs

starts_sid : List ℕ → Bool
unfolding sid_tail
starts_sid (a ∷ b ∷ cs) = a == b'S' && b == b'-' && sid_tail b'-' cs
starts_sid _ = false

pub valid_sid : String → Bool
unfolding starts_sid
valid_sid s = leb 7 (length (codes s)) && leb (length (codes s)) 184 && starts_sid (codes s)

-- A letter of the URL-safe base64 alphabet.
is_base64_url : ℕ → Bool
unfolding is_alphanumeric
is_base64_url c = is_alphanumeric c || c == b'-' || c == b'_'

-- The letters of a text without the line breaks, which Go's decoder skips; `none` on any other.
base64_letters : List ℕ → Option ℕ
unfolding is_base64_url
base64_letters [] = some 0
base64_letters (c ∷ cs) = elim (base64_letters cs) [
  | none ↦ none
  | some n ↦ if c == 10 || c == 13 then some n else if is_base64_url c then some (suc n) else none
]

-- base64.RawURLEncoding.DecodeString: the length of what it decodes, `none` for its error. A group
-- of four letters gives three bytes, a last group of two or three one or two, one letter an error.
unfoldable pub raw_url_decoded_length : String → Option ℕ
unfolding base64_letters
raw_url_decoded_length s = elim (base64_letters (codes s)) [
  | none ↦ none
  | some n ↦ if n % 4 == 1 then none else some (n * 3 / 4)
]

pub matches_identifier-nonblank : (s : String) → matches_identifier s ≡ true → blank s ≡ false
unfolding matches_identifier
matches_identifier-nonblank s h = elim (Bool-cases (blank s)) [
  | inl empty ↦ cc (ap matches_identifier ((blank_iff s).0 empty))
  | inr e ↦ e
]
