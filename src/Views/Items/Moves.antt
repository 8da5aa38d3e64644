-- ===== src/Views/Items/Moves.antt =====
-- Where the items of a compacted view stand, and that they stay fetched.
use stormbox.Base.{
  ℕ, ◌+◌, ◌-◌, ◌≤◌, min, Bool, true, false, List, [], ◌∷◌, ltb, map, contains, nat_eq, ◌≡◌, arith,
  refl, All, ap, ◌∙◌, Bool-cases, inl, inr, if_true, if_false, subst, All-map,
}
use stormbox.Views.{ViewRange, removed_before, unique_from, shift_view_ranges_for_removals}
use stormbox.Views.Counting.{contains-unique_from, unique_from-twice}
use stormbox.Views.Coverage.{covered, shift_view_ranges_for_removals-covered}
use stormbox.Views.Items.{
  ViewItem, position_offset, least_from, settled, moved_out, moved_back, compact_items, View,
  compact_view_after_deleting_positions,
}

least_from-le : (m : ℕ) (xs : List ℕ) → least_from m xs ≤ m
unfolding least_from
least_from-le m [] = omega arith
least_from-le m (x ∷ xs) = omega (arith, least_from-le (min m x) xs)

-- No removed position lies before the least.
removed_before-least_from : (m n : ℕ) (xs : List ℕ) → n ≤ least_from m xs → removed_before xs n ≡ 0
unfolding least_from removed_before
removed_before-least_from m n [] h = refl
removed_before-least_from m n (x ∷ xs) h =
    ground (arith, h, least_from-le (min m x) xs, removed_before-least_from (min m x) n xs h)

abbrev pub closed_up : List ℕ → ViewItem → ViewItem
closed_up removed i = record i { position = i.position - removed_before removed i.position }

-- An item that stays, at a position that the offset clears.
abbrev Stays : List ℕ → ViewItem → Type 0
Stays removed i = (contains removed i.position ≡ false) × (i.position ≤ position_offset)

back_again : (p : ℕ) → p + position_offset - position_offset ≡ p
back_again p = omega arith

moved_far :
    (removed : List ℕ) (least : ℕ) (i : ViewItem)
    → ltb least i.position ≡ true
    → moved_back removed least (moved_out least i) ≡ closed_up removed i
moved_far removed least i h =
    let out = record i { position = i.position + position_offset } in
    ap (moved_back removed least) (if_true out i h)
    ∙ if_true (settled removed out) out (ground (arith, h))
    ∙ ap (λ p. record i { position = p - removed_before removed p }) (back_again i.position)

moved_not :
    (removed : List ℕ) (least : ℕ) (i : ViewItem)
    → ltb least i.position ≡ false
    → i.position ≤ position_offset
    → removed_before removed i.position ≡ 0
    → moved_back removed least (moved_out least i) ≡ closed_up removed i
moved_not removed least i h k none_before =
    let out = record i { position = i.position + position_offset } in
    ap (moved_back removed least) (if_false out i h)
    ∙ if_false (settled removed i) i (ground (arith, h, k))
    ∙ ap (λ p. record i { position = p }) (omega (arith, none_before))

none_removed : (x : ℕ) (xs : List ℕ) (n : ℕ) → n ≤ least_from x xs → removed_before (x ∷ xs) n ≡ 0
unfolding removed_before
none_removed x xs n h = ground (arith, h, least_from-le x xs, removed_before-least_from x n xs h)

less_none : (p : ℕ) → p ≡ p - 0
less_none p = omega arith

moved_item :
    (x : ℕ) (xs : List ℕ) (i : ViewItem)
    → Stays (x ∷ xs) i
    → moved_back (x ∷ xs) (least_from x xs) (moved_out (least_from x xs) i) ≡ closed_up (x ∷ xs) i
moved_item x xs i s = elim (Bool-cases (ltb (least_from x xs) i.position)) [
  | inl h ↦ moved_far (x ∷ xs) (least_from x xs) i h
  | inr h ↦
      moved_not (x ∷ xs) (least_from x xs) i h s.1
        (none_removed x xs i.position (ground (arith, h)))
]

kept_item : (i : ViewItem) → i ≡ closed_up [] i
unfolding removed_before
kept_item i = ap (λ p. record i { position = p }) (less_none i.position)

kept_items : (items : List ViewItem) → items ≡ map (closed_up []) items
unfolding removed_before
kept_items [] = refl
kept_items (i ∷ items) = λ t. kept_item i t ∷ kept_items items t

moved_items :
    (x : ℕ) (xs : List ℕ) (items : List ViewItem)
    → All (Stays (x ∷ xs)) items
    → map (moved_back (x ∷ xs) (least_from x xs)) (map (moved_out (least_from x xs)) items)
      ≡ map (closed_up (x ∷ xs)) items
moved_items x xs [] a = refl
moved_items x xs (i ∷ items) a = λ t. moved_item x xs i a.0 t ∷ moved_items x xs items a.1 t

compact_items-moves :
    (removed : List ℕ) (items : List ViewItem)
    → All (Stays removed) items
    → compact_items removed items ≡ map (closed_up removed) items
unfolding compact_items
compact_items-moves [] items a = kept_items items
compact_items-moves (x ∷ xs) items a = moved_items x xs items a

-- The item is fetched: its position is covered.
abbrev pub fetched : List ViewRange → ViewItem → Bool
fetched ranges i = covered ranges i.position

still_fetched :
    (removed : List ℕ) (ranges : List ViewRange) (items : List ViewItem)
    → unique_from [] removed ≡ removed
    → All (Stays removed) items
    → map (fetched (shift_view_ranges_for_removals removed ranges)) (map (closed_up removed) items)
      ≡ map (fetched ranges) items
still_fetched removed ranges [] e a = refl
still_fetched removed ranges (i ∷ items) e a =
    λ t. fetched_item t ∷ still_fetched removed ranges items e a.1 t
  where
    fetched_item :
        fetched (shift_view_ranges_for_removals removed ranges) (closed_up removed i)
        ≡ fetched ranges i
    fetched_item =
        subst
          (λ u.
            covered (shift_view_ranges_for_removals removed ranges)
              (i.position - removed_before u i.position)
            ≡ covered ranges i.position)
          e (shift_view_ranges_for_removals-covered removed ranges i.position a.0.0)

stay_unique :
    (positions : List ℕ) (items : List ViewItem)
    → All (Stays positions) items
    → All (Stays (unique_from [] positions)) items
stay_unique positions items =
    All-map (Stays positions) (Stays (unique_from [] positions)) items
      (λ i s. (ground (arith, s.0, contains-unique_from [] positions i.position), s.1))

-- Compaction keeps the items that stay in their order, each at its old position less the distinct
-- removed positions before it, and each is fetched exactly if it was before, provided that none of
-- them stood at a removed position or beyond the offset that the compaction works with.
pub compact_view_after_deleting_positions-moves :
    (positions : List ℕ) (update_total : Bool) (v : View)
    → All (Stays positions) v.items
    → ((compact_view_after_deleting_positions positions update_total v).0.items
        ≡ map (closed_up (unique_from [] positions)) v.items)
      × (map
            (fetched (compact_view_after_deleting_positions positions update_total v).0.ranges)
            (compact_view_after_deleting_positions positions update_total v).0.items
          ≡ map (fetched v.ranges) v.items)
unfolding compact_view_after_deleting_positions
compact_view_after_deleting_positions-moves positions update_total v a =
    let removed = unique_from [] positions in
    let stay = stay_unique positions v.items a in
    let moved = compact_items-moves removed v.items stay in
    (
      moved,
      ap (map (fetched (shift_view_ranges_for_removals removed v.ranges))) moved
          ∙ still_fetched removed v.ranges v.items (unique_from-twice positions) stay,
    )
