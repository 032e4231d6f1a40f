-- ===== src/Legacy/Text.antt =====
-- The functions on Go strings that legacy_outcome_reconciler.go uses, on bytes: `strings.TrimSpace`,
-- `EqualFold`, `ToLower` as far as a comparison with an ASCII text goes, and `strconv.ParseInt`.
use gas_city.Prelude.{
  ltb, leb, if◌then◌else◌, length, ◌==◌, nat_eq, Str, Str-discrete, text_eq, int_eq, ℤ, text,
  has_prefix, spaces, reversed, pos, negsuc, ℕ, zero, suc, ◌+◌, ◌-◌, ◌*◌, ◌≡◌, refl, Bool, true,
  ◌&&◌, not, Option, none, some, List, [], ◌∷◌, reverse, ℕ_discrete,
}

-- The length of the first of the texts that the bytes begin with.
abbrev prefix_length : List Str → Str → ℕ
prefix_length [] s = 0
prefix_length (p ∷ ps) s = if has_prefix p s then length p else prefix_length ps s

-- The bytes less the texts that they begin with; `skip` bytes of the present text are left.
drop_prefixes : List Str → ℕ → Str → Str
drop_prefixes ps skip [] = []
drop_prefixes ps (suc skip) (b ∷ s) = drop_prefixes ps skip s
drop_prefixes ps zero (b ∷ s) = elim (prefix_length ps (b ∷ s)) [
  | zero ↦ b ∷ s
  | suc skip ↦ drop_prefixes ps skip s
]

-- strings.TrimSpace
unfoldable pub trim_space : Str → Str
unfolding drop_prefixes
trim_space s = reverse (drop_prefixes (reversed spaces) 0 (reverse (drop_prefixes spaces 0 s)))

abbrev lower_byte : ℕ → ℕ
lower_byte b = if leb b'A' b && leb b b'Z' then b + 32 else b

-- A text with its upper case ASCII letters, and the other runes that stand for an ASCII letter, in
-- lower case; `runes` are the encodings of these with their letters.
lower_with : List (Str × ℕ) → ℕ → Str → Str
lower_with runes skip [] = []
lower_with runes (suc skip) (b ∷ s) = lower_with runes skip s
lower_with runes zero (b ∷ s) = elim (rune_at runes (b ∷ s)) [
  | none ↦ lower_byte b ∷ lower_with runes 0 s
  | some (skip, letter) ↦ letter ∷ lower_with runes skip s
]
  where
    rune_at : List (Str × ℕ) → Str → Option (ℕ × ℕ)
    rune_at [] t = none
    rune_at ((p, letter) ∷ rs) t =
        if has_prefix p t then some (length p - 1, letter) else rune_at rs t

-- K (Kelvin), ſ (long s), İ
abbrev kelvin : Str × ℕ
kelvin = (0xe2 ∷ 0x84 ∷ 0xaa ∷ [], b'k')

abbrev long_s : Str × ℕ
long_s = (0xc5 ∷ 0xbf ∷ [], b's')

abbrev dotted_i : Str × ℕ
dotted_i = (0xc4 ∷ 0xb0 ∷ [], b'i')

-- `strings.EqualFold(s, t)` for a `t` in lower case ASCII.
unfoldable pub equal_fold : Str → Str → Bool
unfolding lower_with
equal_fold s t = lower_with (kelvin ∷ long_s ∷ []) 0 s == t

-- `strings.ToLower(s) == t` for a `t` in lower case ASCII.
unfoldable pub lowers_to : Str → Str → Bool
unfolding lower_with
lowers_to s t = lower_with (kelvin ∷ dotted_i ∷ []) 0 s == t

abbrev digit_of : ℕ → Option ℕ
digit_of b = if leb b'0' b && leb b b'9' then some (b - b'0') else none

digits_value : ℕ → Str → Option ℕ
digits_value n [] = some n
digits_value n (b ∷ s) = elim (digit_of b) [ none ↦ none | some d ↦ digits_value (10 * n + d) s ]

abbrev digits : Str → Option ℕ
digits [] = none
digits (b ∷ s) = digits_value 0 (b ∷ s)

abbrev below : ℕ → (ℕ → ℤ) → Option ℕ → Option ℤ
below bound sign none = none
below bound sign (some n) = if ltb n bound then some (sign n) else none

abbrev minus : ℕ → ℤ
minus zero = pos 0
minus (suc n) = negsuc n

-- `strconv.ParseInt(s, 10, 64)`; none where it fails.
unfoldable pub parse_int : Str → Option ℤ
unfolding digits_value
parse_int [] = none
parse_int (b ∷ s) =
    if b == b'+'
    then below (9223372036854775808) pos (digits s)
    else if b == b'-'
    then below (9223372036854775809) minus (digits s)
    else below (9223372036854775808) pos (digits (b ∷ s))

trim_test : trim_space (text " \t a b  ") ≡ text "a b"
unfolding trim_space ℕ_discrete
trim_test = refl

fold_test :
    equal_fold (b'P' ∷ b'a' ∷ 0xc5 ∷ 0xbf ∷ b'S' ∷ []) (text "pass")
      && not (lowers_to (b'P' ∷ b'a' ∷ 0xc5 ∷ 0xbf ∷ b'S' ∷ []) (text "pass"))
    ≡ true
unfolding equal_fold lowers_to Str-discrete ℕ_discrete
fold_test = refl

parse_test : parse_int (text "-12") ≡ some (negsuc 11)
unfolding parse_int ℕ_discrete
parse_test = refl
