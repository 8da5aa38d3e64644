-- ===== src/Views/Coverage.antt =====
-- Which positions of a view count as fetched, before and after its items move.
use stormbox.Base.{
  ℕ, suc, ◌+◌, ◌-◌, Bool, true, false, ◌&&◌, ◌||◌, List, [], ◌∷◌, ◌++◌, map, ◌==◌, nat_eq, leb, ltb,
  if◌then◌else◌, length, contains, any, ◌≡◌, arith, refl, inl, inr, Bool-cases, ap, ◌∙◌, if_false,
  if_true,
}
use stormbox.Base.Sets.{Distinct}
use stormbox.Views.{
  ViewRange, insert_range, read_view_ranges, same_key, write_from, write_view_ranges, holds, grown,
  shift_view_ranges_for_insert, removed_before, shrunk, unique_from, shift_view_ranges_for_removals,
}
use stormbox.Views.Counting.{
  removed_before-le, removed_before-between, removed_before-beyond, removed_inside_lem,
  unique_from-Distinct, contains-unique_from,
}

-- The position lies in the range: the end is not included.
abbrev lies_in : ℕ → ViewRange → Bool
lies_in p r = leb r.start_position p && ltb p r.end_position

abbrev pub covered : List ViewRange → ℕ → Bool
covered rs p = any (lies_in p) rs

-- Reading sorts, and writing drops only what covers nothing more.
insert_range-covered :
    (r : ViewRange) (rs : List ViewRange) (p : ℕ)
    → covered (insert_range r rs) p ≡ lies_in p r || covered rs p
unfolding insert_range
insert_range-covered r [] p = refl
insert_range-covered r (x ∷ xs) p = ground (arith, insert_range-covered r xs p)

pub read_view_ranges-covered :
    (rs : List ViewRange) (p : ℕ) → covered (read_view_ranges rs) p ≡ covered rs p
unfolding read_view_ranges
read_view_ranges-covered [] p = refl
read_view_ranges-covered (r ∷ rs) p =
    insert_range-covered r (read_view_ranges rs) p
    ∙ ap (λ b. lies_in p r || b) (read_view_ranges-covered rs p)

same_key-covered :
    (r : ViewRange) (seen : List ViewRange) (p : ℕ)
    → any (same_key r) seen ≡ true
    → lies_in p r ≡ true
    → covered seen p ≡ true
same_key-covered r [] p h k = absurd (cc h)
same_key-covered r (x ∷ seen) p h k = ground (arith, h, k, same_key-covered r seen p)

write_from-covered :
    (seen rs : List ViewRange) (p : ℕ)
    → covered seen p || covered (write_from seen rs) p ≡ covered seen p || covered rs p
unfolding write_from
write_from-covered seen [] p = refl
write_from-covered seen (r ∷ rs) p = ground (
  arith,
  write_from-covered seen rs p,
  write_from-covered (r ∷ seen) rs p,
  same_key-covered r seen p,
)

write_view_ranges-covered :
    (rs : List ViewRange) (p : ℕ) → covered (write_view_ranges rs) p ≡ covered rs p
unfolding write_view_ranges
write_view_ranges-covered rs p = write_from-covered [] rs p

-- The position of the inserted item, and those after and before it.
abbrev pub after_insert : ℕ → (ℕ → Bool) → ℕ → Bool
after_insert position old p =
    if ltb p position then old p else if p == position then true else old (p - 1)

lies_in-grown :
    (position ts p : ℕ) (r : ViewRange)
    → lies_in p (grown position ts r) ≡ (
        if ltb p position
        then lies_in p r
        else if p == position
        then holds position r
        else lies_in (p - 1) r)
lies_in-grown position ts p r = ground arith

map-grown-covered :
    (position ts p : ℕ) (rs : List ViewRange)
    → covered (map (grown position ts) rs) p ≡ (
        if ltb p position
        then covered rs p
        else if p == position
        then any (holds position) rs
        else covered rs (p - 1))
map-grown-covered position ts p [] = ground arith
map-grown-covered position ts p (r ∷ rs) =
    ground (arith, lies_in-grown position ts p r, map-grown-covered position ts p rs)

covered-append :
    (rs : List ViewRange) (r : ViewRange) (p : ℕ)
    → covered (rs ++ r ∷ []) p ≡ covered rs p || lies_in p r
covered-append [] r p = ground arith
covered-append (x ∷ rs) r p = ground (arith, covered-append rs r p)

-- After an insertion a position is fetched if it is the inserted one, or if its item was fetched
-- where it stood before.
pub shift_view_ranges_for_insert-covered :
    (position ts : ℕ) (stored : List ViewRange) (p : ℕ)
    → covered (shift_view_ranges_for_insert position ts stored) p
      ≡ after_insert position (covered stored) p
unfolding shift_view_ranges_for_insert
shift_view_ranges_for_insert-covered position ts stored p =
    let ranges = read_view_ranges stored in
    let own : ViewRange = record {
      start_position = position;
      end_position = position + 1;
      fetched_at = ts;
    } in
    let next = map (grown position ts) ranges in
    write_view_ranges-covered (if any (holds position) ranges then next else next ++ own ∷ []) p
    ∙ (elim (Bool-cases (any (holds position) ranges)) [
      | inl h ↦
          ap (λ t. covered t p) (if_true next (next ++ own ∷ []) h)
          ∙ ground (
            arith,
            h,
            map-grown-covered position ts p ranges,
            read_view_ranges-covered stored p,
            read_view_ranges-covered stored (p - 1),
          )
      | inr h ↦
          ap (λ t. covered t p) (if_false next (next ++ own ∷ []) h)
          ∙ ground (
            arith,
            h,
            covered-append next own p,
            map-grown-covered position ts p ranges,
            read_view_ranges-covered stored p,
            read_view_ranges-covered stored (p - 1),
          )
    ])

lies_in-shrunk :
    (removed : List ℕ) (r : ViewRange) (p : ℕ)
    → Distinct removed
    → contains removed p ≡ false
    → lies_in (p - removed_before removed p) (shrunk removed r) ≡ lies_in p r
lies_in-shrunk removed r p d h = ground (
  arith,
  removed_before-le removed p d,
  removed_before-le removed r.start_position d,
  removed_before-between removed r.start_position p d,
  removed_before-between removed r.start_position r.end_position d,
  removed_before-between removed r.end_position p d,
  removed_before-beyond removed p r.start_position d h,
  removed_before-beyond removed p r.end_position d h,
  removed_inside_lem removed r.start_position r.end_position,
)

map-shrunk-covered :
    (removed : List ℕ) (rs : List ViewRange) (p : ℕ)
    → Distinct removed
    → contains removed p ≡ false
    → covered (map (shrunk removed) rs) (p - removed_before removed p) ≡ covered rs p
map-shrunk-covered removed [] p d h = refl
map-shrunk-covered removed (r ∷ rs) p d h =
    λ i. lies_in-shrunk removed r p d h i || map-shrunk-covered removed rs p d h i

removals_covered :
    (removed : List ℕ) (stored : List ViewRange) (p : ℕ)
    → Distinct removed
    → contains removed p ≡ false
    → covered
        (write_view_ranges (map (shrunk removed) (read_view_ranges stored)))
        (p - removed_before removed p)
      ≡ covered stored p
removals_covered removed stored p d h =
    write_view_ranges-covered (map (shrunk removed) (read_view_ranges stored))
      (p - removed_before removed p)
    ∙ map-shrunk-covered removed (read_view_ranges stored) p d h
    ∙ read_view_ranges-covered stored p

less_none : (p : ℕ) → p - 0 ≡ p
less_none p = omega arith

not_none : (n : ℕ) → leb (suc n) 0 ≡ false
not_none n = ground arith

-- After removals an item that stays is fetched at its new position exactly if it was at its old
-- one. Its new position is the old one less the distinct removed positions before it.
pub shift_view_ranges_for_removals-covered :
    (positions : List ℕ) (stored : List ViewRange) (p : ℕ)
    → contains positions p ≡ false
    → covered
        (shift_view_ranges_for_removals positions stored)
        (p - removed_before (unique_from [] positions) p)
      ≡ covered stored p
unfolding shift_view_ranges_for_removals
shift_view_ranges_for_removals-covered positions stored p h =
    by_removed (unique_from [] positions) (unique_from-Distinct [] positions)
      (ground (arith, h, contains-unique_from [] positions p))
  where
    by_removed :
        (removed : List ℕ)
        → Distinct removed
        → contains removed p ≡ false
        → covered
            (if leb (length removed) 0
              then stored
              else write_view_ranges (map (shrunk removed) (read_view_ranges stored)))
            (p - removed_before removed p)
          ≡ covered stored p
    by_removed [] d k = ap (covered stored) (less_none p)
    by_removed (x ∷ removed) d k =
        ap (λ t. covered t (p - removed_before (x ∷ removed) p))
          (if_false stored
            (write_view_ranges (map (shrunk (x ∷ removed)) (read_view_ranges stored)))
            (not_none (length removed)))
        ∙ removals_covered (x ∷ removed) stored p d k
