-- ===== src/Prelude/Json.antt =====
-- How `json.Marshal` writes a text, and what `utf8.ValidString` accepts.
use Prim.Native.Nat.{ℕ, zero, suc, ◌/◌, ◌%◌}
use mathlib.Core.Bool.{Bool, true, false, ◌&&◌, ◌||◌}
use mathlib.Core.List.{[], ◌∷◌, ◌++◌}
use gas_city.Prelude.Tests.{ltb, leb, if◌then◌else◌}
use gas_city.Prelude.Equality.{Str, ◌==◌, nat_eq, text_eq}
use gas_city.Prelude.Text.{text, hex_digit}

abbrev between : ℕ → ℕ → ℕ → Bool
between low high b = leb low b && leb b high

abbrev is_continuation : ℕ → Bool
is_continuation b = between 0x80 0xBF b

-- The bounds of the second byte, which the first one sets.
abbrev second_low : ℕ → ℕ
second_low b = if b == 0xE0 then 0xA0 else if b == 0xF0 then 0x90 else 0x80

abbrev second_high : ℕ → ℕ
second_high b = if b == 0xED then 0x9F else if b == 0xF4 then 0x8F else 0xBF

abbrev is_second : ℕ → ℕ → Bool
is_second first b = between (second_low first) (second_high first) b

-- How many bytes follow in the encoding that starts here; an ill-formed one is `none_valid`.
pub data Width : Type 0 where
  valid : ℕ → Width
  none_valid : Width

width_two : ℕ → Str → Width
width_two b [] = none_valid
width_two b (c ∷ _) = if is_second b c then valid 1 else none_valid

width_three : ℕ → Str → Width
width_three b (c ∷ d ∷ _) = if is_second b c && is_continuation d then valid 2 else none_valid
width_three b _ = none_valid

width_four : ℕ → Str → Width
width_four b (c ∷ d ∷ e ∷ _) =
    if is_second b c && (is_continuation d && is_continuation e) then valid 3 else none_valid
width_four b _ = none_valid

unfoldable pub width : ℕ → Str → Width
unfolding width_two width_three width_four
width b s =
    if ltb b 0x80
    then valid 0
    else if between 0xC2 0xDF b
    then width_two b s
    else if between 0xE0 0xEF b
    then width_three b s
    else if between 0xF0 0xF4 b
    then width_four b s
    else none_valid

-- utf8.ValidString, with the bytes of the present encoding that are left.
utf8_from : ℕ → Str → Bool
unfolding width
utf8_from n [] = true
utf8_from (suc n) (b ∷ s) = utf8_from n s
utf8_from zero (b ∷ s) = elim (width b s) [ valid n ↦ utf8_from n s | none_valid ↦ false ]

unfoldable pub valid_utf8 : Str → Bool
unfolding utf8_from
valid_utf8 s = utf8_from 0 s

-- One byte below 0x80, as `encoding/json` writes it; it escapes HTML.
abbrev ascii : ℕ → Str
ascii b =
    if b == b'"' || b == b'\\'
    then b'\\' ∷ b ∷ []
    else if b == 0x08
    then text "\\b"
    else if b == 0x0C
    then text "\\f"
    else if b == 0x0A
    then text "\\n"
    else if b == 0x0D
    then text "\\r"
    else if b == 0x09
    then text "\\t"
    else if ltb b 0x20 || (b == b'<' || (b == b'>' || b == b'&'))
    then text "\\u00" ++ (hex_digit (b / 16) ∷ hex_digit (b % 16) ∷ [])
    else b ∷ []

abbrev prefix_of : ℕ → Str → Str
prefix_of zero s = []
prefix_of (suc n) [] = []
prefix_of (suc n) (b ∷ s) = b ∷ prefix_of n s

-- U+2028 and U+2029 are escaped; their last byte tells them apart.
abbrev longer : ℕ → ℕ → Str → Str
longer n b s =
    if b == 0xE2 && (prefix_of 2 s == (0x80 ∷ 0xA8 ∷ []))
    then text "\\u2028"
    else if b == 0xE2 && (prefix_of 2 s == (0x80 ∷ 0xA9 ∷ []))
    then text "\\u2029"
    else b ∷ prefix_of n s

abbrev escaped : Width → ℕ → Str → Str
escaped none_valid b s = text "\\ufffd"
escaped (valid zero) b s = ascii b
escaped (valid (suc n)) b s = longer (suc n) b s

abbrev pub rest_of : Width → ℕ
rest_of none_valid = 0
rest_of (valid n) = n

quote_from : ℕ → Str → Str
unfolding width
quote_from n [] = []
quote_from (suc n) (b ∷ s) = quote_from n s
quote_from zero (b ∷ s) = escaped (width b s) b s ++ quote_from (rest_of (width b s)) s

-- A Go text in JSON, with its quotes.
unfoldable pub json_text : Str → Str
unfolding quote_from
json_text s = b'"' ∷ (quote_from 0 s ++ (b'"' ∷ []))
