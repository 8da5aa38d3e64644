-- ===== src/Views/Items.antt =====
-- `compactViewAfterDeletingPositions` of src/db/batch-helpers.ts: the items that stay close the
-- gaps that removed ones left. The rows of one view are a list of items.
pub mod Moves
use stormbox.Base.{
  ℕ, zero, suc, ◌+◌, ◌-◌, min, String, Bool, true, false, List, [], ◌∷◌, Option, none, some, ltb,
  if◌then◌else◌, map, update_where, length,
}
use stormbox.Views.{ViewRange, removed_before, unique_from, shift_view_ranges_for_removals}

pub record ViewItem : Type 0 where
  pub position : ℕ
  pub message_id : Option ℕ
  pub remote_id : String

abbrev pub position_offset : ℕ
position_offset = 1000000000

-- The first of the sorted positions.
unfoldable pub least_from : ℕ → List ℕ → ℕ
least_from m [] = m
least_from m (x ∷ xs) = least_from (min m x) xs

-- The first UPDATE: out of the range of the positions in use.
abbrev pub moved_out : ℕ → ViewItem → ViewItem
moved_out least i =
    if ltb least i.position then record i { position = i.position + position_offset } else i

-- The second: back, less the removed positions before the item.
abbrev pub settled : List ℕ → ViewItem → ViewItem
settled removed i = record i {
  position = i.position - position_offset - removed_before removed (i.position - position_offset);
}

abbrev pub moved_back : List ℕ → ℕ → ViewItem → ViewItem
moved_back removed least i =
    if ltb (least + position_offset) i.position then settled removed i else i

unfoldable pub compact_items : List ℕ → List ViewItem → List ViewItem
unfolding removed_before least_from
compact_items [] items = items
compact_items (x ∷ xs) items =
    map (moved_back (x ∷ xs) (least_from x xs)) (map (moved_out (least_from x xs)) items)

-- A view's items, ranges and total.
pub record View : Type 0 where
  pub items : List ViewItem
  pub ranges : List ViewRange
  pub total : ℕ

-- `update_total` is the option of the same name.
unfoldable pub compact_view_after_deleting_positions : List ℕ → Bool → View → View × ℕ
unfolding compact_items unique_from shift_view_ranges_for_removals
compact_view_after_deleting_positions positions update_total v =
    let removed = unique_from [] positions in
    (
      record {
        items = compact_items removed v.items;
        ranges = shift_view_ranges_for_removals removed v.ranges;
        total = if update_total then v.total - length removed else v.total;
      },
      length removed,
    )
