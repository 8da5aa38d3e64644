-- ===== src/Views/Counting.antt =====
-- Counting distinct removed positions.
use stormbox.Base.{
  ℕ, zero, suc, ◌+◌, ◌-◌, ◌≤◌, ◌<◌, false, not, ◌&&◌, List, [], ◌∷◌, ◌==◌, nat_eq, if◌then◌else◌,
  contains, ◌≡◌, arith, refl, inl, inr, Bool-cases, beq_refl, beq_true, subst, sym, ap, if_false,
  if_true, true, ◌∙◌,
}
use stormbox.Base.Sets.{Distinct, eq_sym}
use stormbox.Views.{removed_before, removed_inside, unique_from}

-- One more position counts one more if it was removed.
removed_before-suc :
    (removed : List ℕ) (n : ℕ)
    → Distinct removed
    → removed_before removed (n + 1)
      ≡ removed_before removed n + (if contains removed n then 1 else 0)
unfolding removed_before
removed_before-suc [] n d = ground arith
removed_before-suc (p ∷ ps) n d = elim (Bool-cases (p == n)) [
  | inl here ↦
      let same : p ≡ n = beq_true p n here in
      let absent : contains ps n ≡ false = subst (λ x. contains ps x ≡ false) same d.0 in
      ground (arith, same, here, absent, removed_before-suc ps n d.1)
  | inr other ↦ ground (arith, other, removed_before-suc ps n d.1)
]

zero_right : (m : ℕ) → m + zero ≡ m
zero_right m = omega arith

suc_right : (m k : ℕ) → m + suc k ≡ m + k + 1
suc_right m k = omega arith

-- Between two positions at most as many were removed as lie between them.
removed_before-grows :
    (removed : List ℕ) (m k : ℕ)
    → Distinct removed
    → (removed_before removed m ≤ removed_before removed (m + k))
      × (removed_before removed (m + k) ≤ removed_before removed m + k)
removed_before-grows removed m zero d = omega (arith, ap (removed_before removed) (zero_right m))
removed_before-grows removed m (suc k) d = ground (
  arith,
  removed_before-grows removed m k d,
  removed_before-suc removed (m + k) d,
  ap (removed_before removed) (suc_right m k),
)

removed_before-strict :
    (removed : List ℕ) (m k : ℕ)
    → Distinct removed
    → contains removed m ≡ false
    → removed_before removed (m + 1 + k) ≤ removed_before removed m + k
removed_before-strict removed m k d h =
    ground (arith, h, removed_before-suc removed m d, removed_before-grows removed (m + 1) k d)

pub removed_before-between :
    (removed : List ℕ) (m n : ℕ)
    → Distinct removed
    → m ≤ n
    → (removed_before removed m ≤ removed_before removed n)
      × (removed_before removed n + m ≤ removed_before removed m + n)
removed_before-between removed m n d h =
    let reach : m + (n - m) ≡ n = omega arith in
    omega (arith, removed_before-grows removed m (n - m) d, ap (removed_before removed) reach)

-- A position that stays takes its own place among those that stay.
pub removed_before-beyond :
    (removed : List ℕ) (m n : ℕ)
    → Distinct removed
    → contains removed m ≡ false
    → m < n
    → removed_before removed n + m < removed_before removed m + n
removed_before-beyond removed m n d h less =
    let reach : m + 1 + (n - m - 1) ≡ n = omega arith in
    omega
      (arith, removed_before-strict removed m (n - m - 1) d h, ap (removed_before removed) reach)

removed_before_zero : (removed : List ℕ) → removed_before removed 0 ≡ 0
unfolding removed_before
removed_before_zero [] = refl
removed_before_zero (p ∷ ps) = ground (arith, removed_before_zero ps)

pub removed_before-le : (removed : List ℕ) (n : ℕ) → Distinct removed → removed_before removed n ≤ n
removed_before-le removed n d =
    omega (arith, removed_before-between removed 0 n d, removed_before_zero removed)

pub removed_inside_lem :
    (removed : List ℕ) (a b : ℕ)
    → a ≤ b
    → removed_before removed a + removed_inside removed a b ≡ removed_before removed b
unfolding removed_before removed_inside
removed_inside_lem [] a b h = ground arith
removed_inside_lem (p ∷ ps) a b h = ground (arith, h, removed_inside_lem ps a b h)

pub contains-unique_from :
    (seen xs : List ℕ) (a : ℕ)
    → contains (unique_from seen xs) a ≡ contains xs a && not (contains seen a)
unfolding unique_from
contains-unique_from seen [] a = refl
contains-unique_from seen (x ∷ xs) a = ground (
  arith,
  contains-unique_from seen xs a,
  contains-unique_from (x ∷ seen) xs a,
  eq_sym x a,
  beq_true x a,
)

pub unique_from-Distinct : (seen xs : List ℕ) → Distinct (unique_from seen xs)
unfolding unique_from
unique_from-Distinct seen [] = tt
unique_from-Distinct seen (x ∷ xs) = elim (Bool-cases (contains seen x)) [
  | inl old ↦ subst Distinct (sym (if_true _ _ old)) (unique_from-Distinct seen xs)
  | inr new ↦ subst Distinct (sym (if_false _ _ new)) (
    ground (arith, contains-unique_from (x ∷ seen) xs x, beq_refl x),
    unique_from-Distinct (x ∷ seen) xs,
  )
]

-- What is distinct already is kept.
unique_from-same :
    (seen xs : List ℕ)
    → Distinct xs
    → ((a : ℕ) → contains xs a ≡ true → contains seen a ≡ false)
    → unique_from seen xs ≡ xs
unfolding unique_from
unique_from-same seen [] d new = refl
unique_from-same seen (x ∷ xs) d new =
    if_false _ _ (new x (ground (arith, beq_refl x)))
    ∙ ap (λ ys. x ∷ ys) (unique_from-same (x ∷ seen) xs d.1 later)
  where
    later : (a : ℕ) → contains xs a ≡ true → contains (x ∷ seen) a ≡ false
    later a k = elim (Bool-cases (x == a)) [
      | inl same ↦
          absurd
            (ground (arith, d.0, k, subst (λ y. contains xs y ≡ true) (sym (beq_true x a same)) k))
      | inr other ↦ ground (arith, other, new a, k)
    ]

pub unique_from-twice :
    (positions : List ℕ) → unique_from [] (unique_from [] positions) ≡ unique_from [] positions
unique_from-twice positions =
    unique_from-same [] (unique_from [] positions) (unique_from-Distinct [] positions) (λ a k. refl)
