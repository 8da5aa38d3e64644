-- ===== src/Views.antt =====
-- src/db/batch-helpers.ts: the fetched ranges of a cached query view.
-- The table `query_view_ranges` of one view is a list of ranges, in the order in which they were
-- written. Positions are natural numbers, as the view gives them; a subtraction of the source stays
-- at or above 0, since a range is moved up by no more positions than lie before it.
pub mod Counting
pub mod Coverage
pub mod Prefix
pub mod Items
use stormbox.Base.{
  ℕ, zero, suc, ◌+◌, ◌-◌, max, Bool, true, false, not, ◌&&◌, ◌||◌, List, [], ◌∷◌, ◌++◌, map, ◌==◌,
  nat_eq, leb, ltb, if◌then◌else◌, filter, length, contains, any,
}

pub record ViewRange : Type 0 where
  pub start_position : ℕ
  pub end_position : ℕ
  pub fetched_at : ℕ

-- `ORDER BY start_position, end_position`.
abbrev pub before : ViewRange → ViewRange → Bool
before a b =
    ltb a.start_position b.start_position
    || ((a.start_position == b.start_position) && leb a.end_position b.end_position)

unfoldable pub insert_range : ViewRange → List ViewRange → List ViewRange
insert_range r [] = r ∷ []
insert_range r (x ∷ xs) =
    let rest = insert_range r xs in if before r x then r ∷ x ∷ xs else x ∷ rest

unfoldable pub read_view_ranges : List ViewRange → List ViewRange
read_view_ranges [] = []
read_view_ranges (r ∷ rs) = insert_range r (read_view_ranges rs)

-- Two ranges have the same key if they have the same ends.
abbrev pub same_key : ViewRange → ViewRange → Bool
same_key a b = (a.start_position == b.start_position) && (a.end_position == b.end_position)

-- The loop of `writeViewRanges`, after the rows `seen`.
unfoldable pub write_from : List ViewRange → List ViewRange → List ViewRange
write_from seen [] = []
write_from seen (r ∷ rs) =
    let skipped = write_from seen rs in
    let written = r ∷ write_from (r ∷ seen) rs in
    if leb r.end_position r.start_position
    then skipped
    else if any (same_key r) seen
    then skipped
    else written

unfoldable pub write_view_ranges : List ViewRange → List ViewRange
unfolding write_from
write_view_ranges ranges = write_from [] ranges

abbrev pub holds : ℕ → ViewRange → Bool
holds position r = leb r.start_position position && leb position r.end_position

abbrev pub grown : ℕ → ℕ → ViewRange → ViewRange
grown position ts r =
    if holds position r
    then record r { end_position = r.end_position + 1; fetched_at = ts }
    else if ltb position r.start_position
    then record r { start_position = r.start_position + 1; end_position = r.end_position + 1 }
    else r

pub shift_view_ranges_for_insert : ℕ → ℕ → List ViewRange → List ViewRange
unfolding read_view_ranges write_view_ranges
shift_view_ranges_for_insert position ts stored =
    let ranges = read_view_ranges stored in
    let own : ViewRange = record {
      start_position = position;
      end_position = position + 1;
      fetched_at = ts;
    } in
    let next = map (grown position ts) ranges in
    write_view_ranges (if any (holds position) ranges then next else next ++ own ∷ [])

-- `numericUnique`: a value that stands twice is kept where it stands first.
unfoldable pub unique_from : List ℕ → List ℕ → List ℕ
unique_from seen [] = []
unique_from seen (x ∷ xs) =
    let skipped = unique_from seen xs in
    let kept = x ∷ unique_from (x ∷ seen) xs in if contains seen x then skipped else kept

-- How many of the removed positions lie before `n`, and between `a` and `b`.
unfoldable pub removed_before : List ℕ → ℕ → ℕ
removed_before removed n = length (filter (λ p. ltb p n) removed)

unfoldable pub removed_inside : List ℕ → ℕ → ℕ → ℕ
removed_inside removed a b = length (filter (λ p. leb a p && ltb p b) removed)

abbrev pub shrunk : List ℕ → ViewRange → ViewRange
shrunk removed r =
    let shift = removed_before removed r.start_position in
    let inside = removed_inside removed r.start_position r.end_position in
    record r {
      start_position = r.start_position - shift;
      end_position = r.end_position - shift - inside;
    }

-- The counts do not depend on the order, so that the source's sort of the positions is left out.
unfoldable pub shift_view_ranges_for_removals : List ℕ → List ViewRange → List ViewRange
unfolding read_view_ranges write_view_ranges unique_from removed_before removed_inside
shift_view_ranges_for_removals positions stored =
    let removed = unique_from [] positions in
    if leb (length removed) 0
    then stored
    else write_view_ranges (map (shrunk removed) (read_view_ranges stored))

-- The loop of `fetchedPrefixEnd`.
unfoldable pub prefix_from : ℕ → List ViewRange → ℕ
prefix_from reached [] = reached
prefix_from reached (r ∷ rs) =
    let further = prefix_from (max reached r.end_position) rs in
    if ltb reached r.start_position then reached else further

unfoldable pub fetched_prefix_end : List ViewRange → ℕ
unfolding read_view_ranges prefix_from
fetched_prefix_end stored = prefix_from 0 (read_view_ranges stored)
