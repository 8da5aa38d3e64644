-- ===== src/Views/Prefix.antt =====
-- The length of the fetched prefix of a view.
use stormbox.Base.{
  ℕ, ◌≤◌, ◌<◌, max, true, false, List, [], ◌∷◌, nat_eq, ltb, All, ◌≡◌, arith, refl, inl, inr,
  Bool-cases, sym, ap, ◌∙◌, if_false, if_true, if_intro, subst,
}
use stormbox.Views.{
  ViewRange, before, insert_range, read_view_ranges, prefix_from, fetched_prefix_end,
}
use stormbox.Views.Coverage.{covered, read_view_ranges-covered}

-- Every later range starts at `n` or after.
abbrev AllFrom : ℕ → List ViewRange → Type 0
AllFrom n rs = All (λ r. n ≤ r.start_position) rs

abbrev Sorted : List ViewRange → Type 0
Sorted [] = Unit
Sorted (r ∷ rs) = AllFrom r.start_position rs × Sorted rs

AllFrom-weaken : (m n : ℕ) (rs : List ViewRange) → m ≤ n → AllFrom n rs → AllFrom m rs
AllFrom-weaken m n [] h a = tt
AllFrom-weaken m n (r ∷ rs) h a = (omega (arith, a.0), AllFrom-weaken m n rs h a.1)

insert_range-AllFrom :
    (n : ℕ) (r : ViewRange) (rs : List ViewRange)
    → n ≤ r.start_position
    → AllFrom n rs
    → AllFrom n (insert_range r rs)
unfolding insert_range
insert_range-AllFrom n r [] h a = (h, tt)
insert_range-AllFrom n r (x ∷ xs) h a =
    if_intro (AllFrom n) (before r x) (r ∷ x ∷ xs) (x ∷ insert_range r xs) (h, a)
      (a.0, insert_range-AllFrom n r xs h a.1)

insert_range-Sorted : (r : ViewRange) (rs : List ViewRange) → Sorted rs → Sorted (insert_range r rs)
unfolding insert_range
insert_range-Sorted r [] s = (tt, tt)
insert_range-Sorted r (x ∷ xs) s = elim (Bool-cases (before r x)) [
  | inl h ↦ subst Sorted (sym (if_true (r ∷ x ∷ xs) (x ∷ insert_range r xs) h)) (
    (
      ground (arith, h),
      AllFrom-weaken r.start_position x.start_position xs (ground (arith, h)) s.0,
    ),
    s,
  )
  | inr h ↦ subst Sorted (sym (if_false (r ∷ x ∷ xs) (x ∷ insert_range r xs) h)) (
    insert_range-AllFrom x.start_position r xs (ground (arith, h)) s.0,
    insert_range-Sorted r xs s.1,
  )
]

read_view_ranges-Sorted : (rs : List ViewRange) → Sorted (read_view_ranges rs)
unfolding read_view_ranges
read_view_ranges-Sorted [] = tt
read_view_ranges-Sorted (r ∷ rs) =
    insert_range-Sorted r (read_view_ranges rs) (read_view_ranges-Sorted rs)

prefix_from-le : (reached : ℕ) (rs : List ViewRange) → reached ≤ prefix_from reached rs
unfolding prefix_from
prefix_from-le reached [] = omega arith
prefix_from-le reached (r ∷ rs) = ground (arith, prefix_from-le (max reached r.end_position) rs)

prefix_from-covered :
    (reached : ℕ) (rs : List ViewRange) (p : ℕ)
    → reached ≤ p
    → p < prefix_from reached rs
    → covered rs p ≡ true
unfolding prefix_from
prefix_from-covered reached [] p h k = absurd (omega arith)
prefix_from-covered reached (r ∷ rs) p h k =
    ground (arith, h, k, prefix_from-covered (max reached r.end_position) rs p)

AllFrom-covered :
    (n : ℕ) (rs : List ViewRange) (p : ℕ) → p < n → AllFrom n rs → covered rs p ≡ false
AllFrom-covered n [] p h a = refl
AllFrom-covered n (r ∷ rs) p h a = ground (arith, h, a.0, AllFrom-covered n rs p h a.1)

prefix_from-open :
    (reached : ℕ) (rs : List ViewRange) → Sorted rs → covered rs (prefix_from reached rs) ≡ false
unfolding prefix_from
prefix_from-open reached [] s = refl
prefix_from-open reached (r ∷ rs) s = elim (Bool-cases (ltb reached r.start_position)) [
  | inl h ↦
      ap (covered (r ∷ rs)) (if_true reached (prefix_from (max reached r.end_position) rs) h)
      ∙ AllFrom-covered r.start_position (r ∷ rs) reached (ground (arith, h)) (omega arith, s.0)
  | inr h ↦
      let further = max reached r.end_position in
      ap (covered (r ∷ rs)) (if_false reached (prefix_from further rs) h)
      ∙ ground (arith, prefix_from-le further rs, prefix_from-open further rs s.1)
]

-- The fetched prefix is as long as can be: every position before its end is fetched, and the end
-- itself is not.
pub fetched_prefix_end-longest :
    (stored : List ViewRange)
    → ((p : ℕ) → p < fetched_prefix_end stored → covered stored p ≡ true)
      × (covered stored (fetched_prefix_end stored) ≡ false)
unfolding fetched_prefix_end
fetched_prefix_end-longest stored =
    let ranges = read_view_ranges stored in
    (
      (λ p h.
          sym (read_view_ranges-covered stored p) ∙ prefix_from-covered 0 ranges p (omega arith) h),
      sym (read_view_ranges-covered stored (prefix_from 0 ranges))
          ∙ prefix_from-open 0 ranges (read_view_ranges-Sorted stored),
    )
