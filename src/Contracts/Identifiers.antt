-- ===== src/Contracts/Identifiers.antt =====
-- contracts.go: the patterns and the two identifier checks, and `readyEventID`.
use Prim.Native.String.{String}
use gas_city.Prelude.{
  ℕ, Bool, false, ◌&&◌, ◌||◌, not, List, [], ◌∷◌, ◌++◌, leb, if◌then◌else◌, length, take, all, Str,
  ◌==◌, nat_eq, text, contains_any, is_trimmed, decimal, hex, sha256, ℤ, pos,
}
use gas_city.Errors.{Check, require, unstable_identifier, unstable_workflow_identifier}

abbrev pub current_contract_version : ℤ
current_contract_version = pos 1

abbrev pub is_lower_letter : ℕ → Bool
is_lower_letter c = leb b'a' c && leb c b'z'

abbrev pub is_digit : ℕ → Bool
is_digit c = leb b'0' c && leb c b'9'

-- [A-Za-z0-9]
abbrev pub is_alphanumeric : ℕ → Bool
is_alphanumeric c = leb b'A' c && leb c b'Z' || (is_lower_letter c || is_digit c)

-- [A-Za-z0-9._-]
abbrev pub is_segment_byte : ℕ → Bool
is_segment_byte c = is_alphanumeric c || (c == b'.' || (c == b'_' || c == b'-'))

-- segmentPattern, ^[A-Za-z0-9][A-Za-z0-9._-]{0,127}$
unfoldable pub segment_pattern : Str → Bool
segment_pattern [] = false
segment_pattern (c ∷ s) = is_alphanumeric c && (all is_segment_byte s && leb (length s) 127)

-- sha256Pattern, ^[a-f0-9]{64}$
unfoldable pub sha256_pattern : Str → Bool
sha256_pattern s = all (λ c. leb b'a' c && leb c b'f' || is_digit c) s && length s == 64

-- \s
abbrev is_pattern_space : ℕ → Bool
is_pattern_space c = c == 9 || (c == 10 || (c == 12 || (c == 13 || c == 32)))

-- What follows the scheme's first letter: [a-z0-9+.-]*:[^\s]+$
uri_rest : Str → Bool
uri_rest [] = false
uri_rest (c ∷ s) =
    let more = uri_rest s in
    if c == b':'
    then all (λ d. not (is_pattern_space d)) s && not (length s == 0)
    else (is_lower_letter c || (is_digit c || (c == b'+' || (c == b'.' || c == b'-')))) && more

-- uriPattern, ^[a-z][a-z0-9+.-]*:[^\s]+$
unfoldable pub uri_pattern : Str → Bool
unfolding uri_rest
uri_pattern [] = false
uri_pattern (c ∷ s) = is_lower_letter c && uri_rest s

unfoldable pub validate_segment : String → Str → Check
validate_segment label value =
    require (is_trimmed value && segment_pattern value) (unstable_identifier label)

unfoldable pub validate_workflow_id : String → Str → Check
validate_workflow_id label value =
    require
      (is_trimmed value
        && (leb (length value) 255
            && (not (length value == 0) && not (contains_any value (0 ∷ 10 ∷ 13 ∷ 9 ∷ [])))))
      (unstable_workflow_identifier label)

-- A NUL byte between the parts.
abbrev pub joined : List Str → Str
joined [] = []
joined (s ∷ []) = s
joined (s ∷ ss) = s ++ (0 ∷ joined ss)

unfoldable pub ready_event_id : Str → Str → Str → ℤ → Str
ready_event_id city_id run_id bead_id generation =
    text "evt-"
    ++ hex (
        take 16 (
          sha256 (
            joined (
              decimal current_contract_version
              ∷ city_id
              ∷ run_id
              ∷ bead_id
              ∷ decimal generation
              ∷ []))))
