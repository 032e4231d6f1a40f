-- ===== src/Prelude/Text.antt =====
-- The functions on Go strings that the code uses, on bytes: `strings.TrimSpace`, `ContainsAny`,
-- `Cut`, decimal printing and hexadecimal encoding.
use Prim.Native.Char.{code}
use Prim.Native.String.{String}
use Prim.Native.Nat.{ℕ, zero, suc, ◌+◌, ◌-◌, ◌/◌, ◌%◌}
use mathlib.Core.Path.{◌≡◌, refl}
use mathlib.Core.Bool.{Bool, true, false, ◌&&◌, ◌||◌, not}
use mathlib.Core.List.{List, [], ◌∷◌, reverse}
use native.Mathlib.Decide.{ℕ_discrete}
use gas_city.Prelude.Tests.{ltb, if◌then◌else◌}
use gas_city.Prelude.Equality.{Str, ◌==◌, nat_eq, Str-discrete}
use gas_city.Prelude.Int.{ℤ, pos, negsuc}

-- The bytes of a literal, which is ASCII everywhere in the code.
abbrev pub text : String → Str
text String.[] = []
text (String.◌∷◌ c s) = code c ∷ text s

abbrev pub contains : List ℕ → ℕ → Bool
contains [] c = false
contains (x ∷ xs) c = x == c || contains xs c

abbrev pub contains_any : Str → List ℕ → Bool
contains_any [] cs = false
contains_any (b ∷ s) cs = contains cs b || contains_any s cs

abbrev pub has_prefix : Str → Str → Bool
has_prefix [] s = true
has_prefix (p ∷ ps) [] = false
has_prefix (p ∷ ps) (b ∷ s) = p == b && has_prefix ps s

abbrev pub any_prefix : List Str → Str → Bool
any_prefix [] s = false
any_prefix (p ∷ ps) s = has_prefix p s || any_prefix ps s

-- The UTF-8 encodings of the runes of `unicode.IsSpace`.
abbrev pub spaces : List Str
spaces =
    (9 ∷ [])
    ∷ (10 ∷ [])
    ∷ (11 ∷ [])
    ∷ (12 ∷ [])
    ∷ (13 ∷ [])
    ∷ (32 ∷ [])
    ∷ (0xc2 ∷ 0x85 ∷ [])
    ∷ (0xc2 ∷ 0xa0 ∷ [])
    ∷ (0xe1 ∷ 0x9a ∷ 0x80 ∷ [])
    ∷ (0xe2 ∷ 0x80 ∷ 0x80 ∷ [])
    ∷ (0xe2 ∷ 0x80 ∷ 0x81 ∷ [])
    ∷ (0xe2 ∷ 0x80 ∷ 0x82 ∷ [])
    ∷ (0xe2 ∷ 0x80 ∷ 0x83 ∷ [])
    ∷ (0xe2 ∷ 0x80 ∷ 0x84 ∷ [])
    ∷ (0xe2 ∷ 0x80 ∷ 0x85 ∷ [])
    ∷ (0xe2 ∷ 0x80 ∷ 0x86 ∷ [])
    ∷ (0xe2 ∷ 0x80 ∷ 0x87 ∷ [])
    ∷ (0xe2 ∷ 0x80 ∷ 0x88 ∷ [])
    ∷ (0xe2 ∷ 0x80 ∷ 0x89 ∷ [])
    ∷ (0xe2 ∷ 0x80 ∷ 0x8a ∷ [])
    ∷ (0xe2 ∷ 0x80 ∷ 0xa8 ∷ [])
    ∷ (0xe2 ∷ 0x80 ∷ 0xa9 ∷ [])
    ∷ (0xe2 ∷ 0x80 ∷ 0xaf ∷ [])
    ∷ (0xe2 ∷ 0x81 ∷ 0x9f ∷ [])
    ∷ (0xe3 ∷ 0x80 ∷ 0x80 ∷ [])
    ∷ []

abbrev pub reversed : List Str → List Str
reversed [] = []
reversed (s ∷ ss) = reverse s ∷ reversed ss

-- `strings.TrimSpace(s) == s`: no space rune at either end.
unfoldable pub is_trimmed : Str → Bool
unfolding Str-discrete
is_trimmed s = not (any_prefix spaces s) && not (any_prefix (reversed spaces) (reverse s))

-- The part before the first occurrence of a byte, all of it if there is none (`strings.Cut`).
abbrev pub before : ℕ → Str → Str
before c [] = []
before c (b ∷ s) = let rest = before c s in if b == c then [] else b ∷ rest

-- `%d` of a natural number. Each round drops a digit, so as many rounds as the number suffice.
digits_from : ℕ → ℕ → Str → Str
digits_from zero n acc = acc
digits_from (suc fuel) n acc =
    let digit = b'0' + n % 10 in
    let rest = digits_from fuel (n / 10) (digit ∷ acc) in if ltb n 10 then digit ∷ acc else rest

unfoldable pub decimal_ℕ : ℕ → Str
unfolding digits_from
decimal_ℕ n = digits_from (suc n) n []

unfoldable pub decimal : ℤ → Str
unfolding decimal_ℕ
decimal (pos n) = decimal_ℕ n
decimal (negsuc n) = b'-' ∷ decimal_ℕ (suc n)

abbrev pub hex_digit : ℕ → ℕ
hex_digit d = if ltb d 10 then b'0' + d else b'a' + (d - 10)

-- `hex.EncodeToString`.
abbrev pub hex : List ℕ → Str
hex [] = []
hex (b ∷ bs) = hex_digit (b / 16) ∷ hex_digit (b % 16) ∷ hex bs

decimal_test : decimal (negsuc 1204) ≡ text "-1205"
unfolding decimal ℕ_discrete
decimal_test = refl

trim_test : is_trimmed (text "a b") && not (is_trimmed (text "a ")) ≡ true
unfolding is_trimmed ℕ_discrete
trim_test = refl
