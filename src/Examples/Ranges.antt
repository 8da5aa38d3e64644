-- ===== src/Examples/Ranges.antt =====
-- The fetched ranges of a view at concrete positions.
use stormbox.Base.{map, none, ℕ, ◌-◌, ◌<◌, true, false, List, [], ◌∷◌, ◌≡◌, refl, nat_eq, arith}
use stormbox.Views.{
  ViewRange, shift_view_ranges_for_insert, shift_view_ranges_for_removals, fetched_prefix_end,
  removed_before, unique_from, read_view_ranges, write_view_ranges, write_from, insert_range,
  prefix_from, removed_inside,
}
use stormbox.Views.Items.{
  ViewItem, View, compact_view_after_deleting_positions, compact_items, least_from,
}
use stormbox.Views.Items.Moves.{closed_up, fetched, compact_view_after_deleting_positions-moves}
use stormbox.Views.Coverage.{
  covered, after_insert, shift_view_ranges_for_insert-covered,
  shift_view_ranges_for_removals-covered,
}
use stormbox.Views.Prefix.{fetched_prefix_end-longest}

abbrev range : ℕ → ℕ → ViewRange
range a b = record { start_position = a; end_position = b; fetched_at = 5 }

abbrev stored : List ViewRange
stored = range 20 30 ∷ range 0 10 ∷ range 8 12 ∷ []

prefix_is_twelve : fetched_prefix_end stored ≡ 12
unfolding fetched_prefix_end read_view_ranges insert_range prefix_from
prefix_is_twelve = refl

-- Two removals before position 25 move its item to 23.
removals_shrink :
    shift_view_ranges_for_removals (3 ∷ 21 ∷ 3 ∷ []) stored
    ≡ range 0 9 ∷ range 7 11 ∷ range 19 28 ∷ []
unfolding shift_view_ranges_for_removals read_view_ranges insert_range write_view_ranges write_from
    unique_from removed_before removed_inside
removals_shrink = refl

shift_view_ranges_for_insert-covered_example :
    covered (shift_view_ranges_for_insert 12 9 stored) 13 ≡ after_insert 12 (covered stored) 13
shift_view_ranges_for_insert-covered_example = shift_view_ranges_for_insert-covered 12 9 stored 13

shift_view_ranges_for_removals-covered_example :
    covered
      (shift_view_ranges_for_removals (3 ∷ 21 ∷ 3 ∷ []) stored)
      (25 - removed_before (unique_from [] (3 ∷ 21 ∷ 3 ∷ [])) 25)
    ≡ covered stored 25
shift_view_ranges_for_removals-covered_example =
    shift_view_ranges_for_removals-covered (3 ∷ 21 ∷ 3 ∷ []) stored 25 refl

fetched_prefix_end-longest_example :
    ((p : ℕ) → p < fetched_prefix_end stored → covered stored p ≡ true)
    × (covered stored (fetched_prefix_end stored) ≡ false)
fetched_prefix_end-longest_example = fetched_prefix_end-longest stored

abbrev item : ℕ → ViewItem
item p = record { position = p; message_id = none; remote_id = "m" }

-- The items at 3 and 21 are gone.
abbrev view : View
view = record { items = item 0 ∷ item 8 ∷ item 22 ∷ item 40 ∷ []; ranges = stored; total = 41 }

items_close_up :
    (compact_view_after_deleting_positions (3 ∷ 21 ∷ []) true view).0.items
    ≡ item 0 ∷ item 7 ∷ item 20 ∷ item 38 ∷ []
unfolding compact_view_after_deleting_positions compact_items least_from unique_from removed_before
items_close_up = refl

compact_view_after_deleting_positions-moves_example :
    ((compact_view_after_deleting_positions (3 ∷ 21 ∷ []) true view).0.items
      ≡ map (closed_up (unique_from [] (3 ∷ 21 ∷ []))) view.items)
    × (map
          (fetched (compact_view_after_deleting_positions (3 ∷ 21 ∷ []) true view).0.ranges)
          (compact_view_after_deleting_positions (3 ∷ 21 ∷ []) true view).0.items
        ≡ map (fetched stored) view.items)
compact_view_after_deleting_positions-moves_example =
    compact_view_after_deleting_positions-moves (3 ∷ 21 ∷ []) true view
      ((refl, omega arith), ((refl, omega arith), ((refl, omega arith), ((refl, omega arith), tt))))
