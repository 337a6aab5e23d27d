-- ===== src/Prelude/Tests.antt =====
-- Boolean tests on numbers and texts, the conditional, and case splits that keep the equation.
use Prim.Native.Nat.{ℕ, compare, Ordering}
use Prim.Native.String.{String}
use Prim.Native.String
use mathlib.Core.Path.{◌≡◌, refl}
use mathlib.Core.Logic.{◌↔◌, ◌≢◌, ◌⊎◌, inl, inr}
use mathlib.Core.Bool.{Bool, true, false}
use mathlib.Core.Option.{Option, none, some}
use native.Mathlib.Omega.{arith}
use text.Mathlib.Text.{◌==◌ as native_text_eq}
use text.Mathlib.TextEquality.{eq_iff}

abbrev pub ltb : ℕ → ℕ → Bool
ltb a b = elim (compare a b) [ Ordering.lt ↦ true | _ ↦ false ]

abbrev pub leb : ℕ → ℕ → Bool
leb a b = elim (compare a b) [ Ordering.gt ↦ false | _ ↦ true ]

infix 50 ◌==◌
abbrev pub ◌==◌ : ℕ → ℕ → Bool
a == b = elim (compare a b) [ Ordering.eq ↦ true | _ ↦ false ]

infix 1 if◌then◌else◌
abbrev pub if◌then◌else◌ {ℓ} : {A : Type ℓ} → Bool → A → A → A
if true then x else y = x
if false then x else y = y

pub if-elim {ℓ κ} :
    {A : Type ℓ} (P : A → Type κ) (b : Bool) {t f : A} → P t → P f → P (if b then t else f)
if-elim P true p q = p
if-elim P false p q = q

-- Equality of texts, shut so that the tactics take a comparison for one Boolean.
unfoldable pub text_eq : String → String → Bool
text_eq s t = native_text_eq s t

pub text_eq_iff : (s t : String) → (text_eq s t ≡ true) ↔ (s ≡ t)
unfolding text_eq
text_eq_iff s t = eq_iff s t

pub text_eq_self : (s : String) → text_eq s s ≡ true
text_eq_self s = (text_eq_iff s s).1 refl

pub text_eq_ne : (s t : String) → s ≢ t → text_eq s t ≡ false
text_eq_ne s t h = ground (arith, text_eq_iff s t)

pub Bool-cases : (b : Bool) → (b ≡ true) ⊎ (b ≡ false)
Bool-cases true = inl refl
Bool-cases false = inr refl

pub Option-cases {ℓ} : {A : Type ℓ} (o : Option A) → (o ≡ none) ⊎ ((a : A) × (o ≡ some a))
Option-cases none = inl refl
Option-cases (some a) = inr (a, refl)

module _ {ℓ} {A : Type ℓ} where
  abbrev pub is_some : Option A → Bool
  is_some none = false
  is_some (some a) = true

-- A chain of fallible steps.
infixl 5 ◌>>=◌
abbrev pub ◌>>=◌ {ℓ κ} : {A : Type ℓ} {B : Type κ} → Option A → (A → Option B) → Option B
none >>= f = none
some a >>= f = f a

abbrev pub is_lt : Ordering → Bool
is_lt Ordering.lt = true
is_lt _ = false

abbrev pub is_le : Ordering → Bool
is_le Ordering.gt = false
is_le _ = true

-- The lexicographic order of two comparisons.
abbrev pub order_then : Ordering → Ordering → Ordering
order_then Ordering.eq o = o
order_then o _ = o

-- The order of texts by code points, which is that of their UTF-8 bytes.
unfoldable pub text_compare : String → String → Ordering
text_compare s t = String.compare s t

unfoldable pub text_lt : String → String → Bool
text_lt s t = is_lt (text_compare s t)

unfoldable pub text_le : String → String → Bool
text_le s t = is_le (text_compare s t)

abbrev pub implies : Bool → Bool → Bool
implies true b = b
implies false b = true
