-- ===== src/Prelude/Equality.antt =====
-- Go's `==` on a comparable type, as an interface: a decision procedure of the type.
use mathlib.Core.Path.{◌≡◌}
use mathlib.Core.Bool.{Bool, true, false}
use mathlib.Core.List.{List}
use native.Mathlib.Omega.{arith}
use native.Mathlib.Decide.{ℕ_discrete}
use Prim.Native.Nat.{ℕ}

pub record Eq {ℓ} (A : Type ℓ) : Type ℓ where
  pub dec : Discrete A

infix 50 ◌==◌ ◌!=◌
abbrev pub ◌==◌ {ℓ} : {A : Type ℓ} ⦃e : Eq A⦄ → A → A → Bool
◌==◌ ⦃e⦄ x y = elim (e.dec x y) [ yes _ ↦ true | no _ ↦ false ]

abbrev pub ◌!=◌ {ℓ} : {A : Type ℓ} ⦃e : Eq A⦄ → A → A → Bool
◌!=◌ ⦃e⦄ x y = elim (e.dec x y) [ yes _ ↦ false | no _ ↦ true ]

instance abbrev pub nat_eq : Eq ℕ
nat_eq = record { dec = ℕ_discrete }

-- A Go string is its bytes.
abbrev pub Str : Type 0
Str = List ℕ

unfoldable pub Str-discrete : Discrete Str
unfolding ℕ_discrete
Str-discrete = hlevel ℕ_discrete

instance abbrev pub text_eq : Eq Str
text_eq = record { dec = Str-discrete }

pub ==-refl {ℓ} : {A : Type ℓ} ⦃e : Eq A⦄ (x : A) → (x == x) ≡ true
==-refl ⦃e⦄ x = ground arith

pub ==→≡ {ℓ} : {A : Type ℓ} ⦃e : Eq A⦄ (x y : A) → (x == y) ≡ true → x ≡ y
==→≡ ⦃e⦄ x y h = ground arith
