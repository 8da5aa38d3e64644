-- ===== src/Base/Keys.antt =====
-- Types whose values the source compares by `===`, and membership in lists and sets of them.
use Prim.Native.Nat.{ℕ}
use Prim.Native.String.{String}
use mathlib.Core.Path.{◌≡◌, refl, sym, ap, ◌∙◌}
use mathlib.Core.Bool.{Bool, true, false, ◌||◌}
use mathlib.Core.Option.{Option, none, some}
use mathlib.Core.List.{List, [], ◌∷◌}
use text.Mathlib.Text.{◌==◌ as str_eq}
use text.Mathlib.TextEquality.{eq_iff}
use stormbox.Base.Tests.{nat_beq, nat_beq_iff}
use stormbox.Base.Lists.{get_elem?}

-- `same` is `===` of the source on values of the type.
pub record Eq {ℓ} (A : Type ℓ) : Type ℓ where
  pub same : A → A → Bool
  pub same_self : (a : A) → same a a ≡ true
  pub same_only : (a b : A) → same a b ≡ true → a ≡ b

infix 50 ◌==◌
abbrev pub ◌==◌ {ℓ} : {Value : Type ℓ} ⦃values : Eq Value⦄ (a b : Value) → Bool
◌==◌ ⦃values⦄ a b = values.same a b

pub some_inj {ℓ} : {A : Type ℓ} (a b : A) → some a ≡ some b → a ≡ b
some_inj a b h = cc

-- Labels compared by their position in a list of all labels.
module _ {ℓ} {A : Type ℓ} (code : A → ℕ) (labels : List A) where
  abbrev pub code_beq : A → A → Bool
  code_beq a b = nat_beq (code a) (code b)

  module _ (at_code : (a : A) → get_elem? labels (code a) ≡ some a) where
    pub code_beq-only : (a b : A) → code_beq a b ≡ true → a ≡ b
    code_beq-only a b h =
        some_inj a b (
          sym (at_code a) ∙ ap (get_elem? labels) ((nat_beq_iff (code a) (code b)).0 h) ∙ at_code b)

    abbrev pub of_codes : Eq A
    of_codes = record {
      same = code_beq;
      same_self = λ a. (nat_beq_iff (code a) (code a)).1 refl;
      same_only = code_beq-only;
    }

instance abbrev pub nat_eq : Eq ℕ
nat_eq = record {
  same = nat_beq;
  same_self = λ n. (nat_beq_iff n n).1 refl;
  same_only = λ m n. (nat_beq_iff m n).0;
}

instance abbrev pub string_eq : Eq String
string_eq = record {
  same = str_eq;
  same_self = λ s. (eq_iff s s).1 refl;
  same_only = λ s t. (eq_iff s t).0;
}

module _ {ℓ} {A : Type ℓ} ⦃e : Eq A⦄ where
  pub beq_refl : (a : A) → (a == a) ≡ true
  beq_refl = e.same_self

  pub beq_true : (a b : A) → (a == b) ≡ true → a ≡ b
  beq_true = e.same_only

  -- `array.includes(a)` and `set.has(a)`.
  abbrev pub contains : List A → A → Bool
  contains [] a = false
  contains (x ∷ xs) a = x == a || contains xs a

  -- `set.has(a)` where `a` may be undefined, and the set holds no undefined.
  abbrev pub has : List A → Option A → Bool
  has xs none = false
  has xs (some a) = contains xs a
