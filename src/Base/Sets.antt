-- ===== src/Base/Sets.antt =====
-- Sets of keys as lists in the order of insertion.
use mathlib.Core.Path.{◌≡◌, refl, sym, ap, subst, ◌∙◌}
use mathlib.Core.Logic.{inl, inr}
use mathlib.Core.Bool.{Bool, true, false, not, ◌&&◌, ◌||◌}
use mathlib.Core.List.{List, [], ◌∷◌, ◌++◌}
use native.Mathlib.Omega.{arith}
use stormbox.Base.Tests.{Bool-cases}
use stormbox.Base.Lists.{delete_where, filter}
use stormbox.Base.Keys.{Eq, ◌==◌, contains, beq_refl, beq_true}

module _ {ℓ} {A : Type ℓ} ⦃e : Eq A⦄ where
  -- No key stands twice.
  abbrev pub Distinct : List A → Type 0
  Distinct [] = Unit
  Distinct (x ∷ xs) = (contains xs x ≡ false) × Distinct xs

  pub contains-append :
      (xs ys : List A) (a : A) → contains (xs ++ ys) a ≡ contains xs a || contains ys a
  contains-append [] ys a = refl
  contains-append (x ∷ xs) ys a = ground (arith, contains-append xs ys a)

  pub contains_self : (xs : List A) (a : A) → contains (xs ++ a ∷ []) a ≡ true
  contains_self xs a = ground (arith, contains-append xs (a ∷ []) a, beq_refl a)

  pub eq_sym : (a b : A) → (a == b) ≡ (b == a)
  eq_sym a b = elim (Bool-cases (a == b)) [
    | inl h ↦ elim (Bool-cases (b == a)) [
      | inl k ↦ h ∙ sym k
      | inr k ↦ absurd (cc (subst (λ x. (x == a) ≡ false) (sym (beq_true a b h)) k, beq_refl a))
    ]
    | inr h ↦ elim (Bool-cases (b == a)) [
      | inl k ↦ absurd (cc (subst (λ x. (a == x) ≡ false) (beq_true b a k) h, beq_refl a))
      | inr k ↦ h ∙ sym k
    ]
  ]

  pub contains-delete_where :
      (p : A → Bool) (xs : List A) (a : A)
      → ((x : A) → (x == a) ≡ true → p x ≡ p a)
      → contains (delete_where p xs) a ≡ contains xs a && not (p a)
  contains-delete_where p [] a same = refl
  contains-delete_where p (x ∷ xs) a same =
      ground (arith, same x, contains-delete_where p xs a same)

  pub contains-filter :
      (p : A → Bool) (xs : List A) (a : A)
      → ((x : A) → (x == a) ≡ true → p x ≡ p a)
      → contains (filter p xs) a ≡ contains xs a && p a
  contains-filter p [] a same = refl
  contains-filter p (x ∷ xs) a same = ground (arith, same x, contains-filter p xs a same)

  pub same_under : (p : A → Bool) (x a : A) → (x == a) ≡ true → p x ≡ p a
  same_under p x a h = ap p (beq_true x a h)

  pub contains-delete :
      (k : A) (xs : List A) (a : A)
      → contains (delete_where (λ x. x == k) xs) a ≡ contains xs a && not (a == k)
  contains-delete k xs a =
      contains-delete_where (λ x. x == k) xs a (λ x. same_under (λ y. y == k) x a)

  pub Distinct-append :
      (xs : List A) (a : A) → contains xs a ≡ false → Distinct xs → Distinct (xs ++ a ∷ [])
  Distinct-append [] a h d = (refl, tt)
  Distinct-append (x ∷ xs) a h d = (
    ground (arith, contains-append xs (a ∷ []) x, eq_sym a x, h, d.0),
    Distinct-append xs a (ground (arith, h)) d.1,
  )

  pub Distinct-delete_where :
      (p : A → Bool) (xs : List A) → Distinct xs → Distinct (delete_where p xs)
  Distinct-delete_where p [] d = tt
  Distinct-delete_where p (x ∷ xs) d =
      ground (
        arith,
        contains-delete_where p xs x (λ y. same_under p y x),
        Distinct-delete_where p xs d.1,
      )

  pub Distinct-filter : (p : A → Bool) (xs : List A) → Distinct xs → Distinct (filter p xs)
  Distinct-filter p [] d = tt
  Distinct-filter p (x ∷ xs) d =
      ground (arith, contains-filter p xs x (λ y. same_under p y x), Distinct-filter p xs d.1)
