-- ===== src/Base/Lists.antt =====
-- Lists measured by native numbers, predicates on lists, and SQL-like updates.
use Prim.Native.Nat.{ℕ, zero, suc, ◌+◌, ◌≤◌}
use mathlib.Core.Path.{◌≡◌, refl}
use mathlib.Core.Logic.{inl, inr}
use mathlib.Core.Bool.{Bool, true, false, ◌&&◌, ◌||◌}
use mathlib.Core.List.{List, [], ◌∷◌, ◌++◌, map}
use mathlib.Core.Option.{Option, none, some}
use native.Mathlib.Omega.{arith}
use stormbox.Base.Tests.{if◌then◌else◌, Bool-cases}

module _ {ℓ} {A : Type ℓ} where
  abbrev pub length : List A → ℕ
  length [] = 0
  length (x ∷ xs) = suc (length xs)

  abbrev pub get_elem? : List A → ℕ → Option A
  get_elem? [] i = none
  get_elem? (x ∷ xs) zero = some x
  get_elem? (x ∷ xs) (suc i) = get_elem? xs i

  abbrev pub take : ℕ → List A → List A
  take zero xs = []
  take (suc n) [] = []
  take (suc n) (x ∷ xs) = x ∷ take n xs

  pub length-append : (xs ys : List A) → length (xs ++ ys) ≡ length xs + length ys
  length-append [] ys = omega arith
  length-append (x ∷ xs) ys = omega (arith, length-append xs ys)

  -- `array.filter(p)`, `some`, `every`, `find`.
  abbrev pub filter : (A → Bool) → List A → List A
  filter p [] = []
  filter p (x ∷ xs) = let rest = filter p xs in if p x then x ∷ rest else rest

  abbrev pub any : (A → Bool) → List A → Bool
  any p [] = false
  any p (x ∷ xs) = p x || any p xs

  abbrev pub all : (A → Bool) → List A → Bool
  all p [] = true
  all p (x ∷ xs) = p x && all p xs

  abbrev pub find : (A → Bool) → List A → Option A
  find p [] = none
  find p (x ∷ xs) = if p x then some x else find p xs

  pub filter-append :
      (p : A → Bool) (xs ys : List A) → filter p (xs ++ ys) ≡ filter p xs ++ filter p ys
  filter-append p [] ys = refl
  filter-append p (x ∷ xs) ys = ground (arith, filter-append p xs ys)

  pub length-filter-le : (p : A → Bool) (xs : List A) → length (filter p xs) ≤ length xs
  length-filter-le p [] = omega arith
  length-filter-le p (x ∷ xs) = ground (arith, length-filter-le p xs)

  -- `UPDATE … SET f WHERE p`, `DELETE … WHERE p`, and the number of rows that `p` selects.
  abbrev pub update_where : (A → Bool) → (A → A) → List A → List A
  update_where p f = map (λ x. if p x then f x else x)

  abbrev pub delete_where : (A → Bool) → List A → List A
  delete_where p [] = []
  delete_where p (x ∷ xs) = let rest = delete_where p xs in if p x then rest else x ∷ rest

  abbrev pub count_where : (A → Bool) → List A → ℕ
  count_where p [] = 0
  count_where p (x ∷ xs) = let rest = count_where p xs in if p x then suc rest else rest

module _ {ℓ κ} {A : Type ℓ} (P : A → Type κ) where
  abbrev pub All : List A → Type κ
  All [] = Unit
  All (x ∷ xs) = P x × All xs

  pub All-append : (xs ys : List A) → All xs → All ys → All (xs ++ ys)
  All-append [] ys hx hy = hy
  All-append (x ∷ xs) ys hx hy = (hx.0, All-append xs ys hx.1 hy)

  pub All-intro : (xs : List A) → ((x : A) → P x) → All xs
  All-intro [] h = tt
  All-intro (x ∷ xs) h = (h x, All-intro xs h)

  pub All-update_where :
      (p : A → Bool) (f : A → A) (xs : List A)
      → ((x : A) → p x ≡ true → P (f x))
      → ((x : A) → p x ≡ false → P x)
      → All (update_where p f xs)
  All-update_where p f [] h k = tt
  All-update_where p f (x ∷ xs) h k = (
    elim (Bool-cases (p x)) [
      | inl e ↦ let y : P (if true then f x else x) = h x e in rw e y
      | inr e ↦ let y : P (if false then f x else x) = k x e in rw e y
    ],
    All-update_where p f xs h k,
  )

  pub All-delete_where :
      (p : A → Bool) (xs : List A) → ((x : A) → p x ≡ false → P x) → All (delete_where p xs)
  All-delete_where p [] k = tt
  All-delete_where p (x ∷ xs) k = elim (Bool-cases (p x)) [
    | inl e ↦ rw (e, if◌then◌else◌) (All-delete_where p xs k)
    | inr e ↦ rw (e, if◌then◌else◌) (k x e, All-delete_where p xs k)
  ]

-- An update that keeps a field keeps its list, and a removal by a field removes it there.
pub map-update_where {ℓ κ} :
    {A : Type ℓ} {B : Type κ} (g : A → B) (p : A → Bool) (f : A → A)
    → ((x : A) → g (f x) ≡ g x)
    → (xs : List A) → map g (update_where p f xs) ≡ map g xs
map-update_where g p f h [] = refl
map-update_where g p f h (x ∷ xs) = elim (Bool-cases (p x)) [
  | inl e ↦ rw (e, if◌then◌else◌, h x, map-update_where g p f h xs)
  | inr e ↦ rw (e, if◌then◌else◌, map-update_where g p f h xs)
]

pub map-delete_where {ℓ κ} :
    {A : Type ℓ} {B : Type κ} (g : A → B) (p : B → Bool) (xs : List A)
    → map g (delete_where (λ x. p (g x)) xs) ≡ delete_where p (map g xs)
map-delete_where g p [] = refl
map-delete_where g p (x ∷ xs) = elim (Bool-cases (p (g x))) [
  | inl e ↦ rw (e, if◌then◌else◌, map-delete_where g p xs)
  | inr e ↦ rw (e, if◌then◌else◌, map-delete_where g p xs)
]

pub All-map {ℓ κ μ} :
    {A : Type ℓ} (P : A → Type κ) (Q : A → Type μ) (xs : List A)
    → ((x : A) → P x → Q x)
    → All P xs
    → All Q xs
All-map P Q [] h a = tt
All-map P Q (x ∷ xs) h a = (h x a.0, All-map P Q xs h a.1)

abbrev pub flat_map {ℓ κ} : {A : Type ℓ} {B : Type κ} → (A → List B) → List A → List B
flat_map f [] = []
flat_map f (x ∷ xs) = f x ++ flat_map f xs
