-- ===== src/Examples/Lists.antt =====
-- The list selection at concrete rows.
use stormbox.Base.{
  ℕ, true, List, [], ◌∷◌, Option, none, some, ◌≡◌, ◌↔◌, refl, nat_eq, ◌+◌, arith, contains, min,
  max, length,
}
use stormbox.Selection.{Selection, extend_range, collect, id_at}
use stormbox.Selection.Range.{Within, extend_range-selects}

-- The third row is not loaded.
abbrev rows : List (Option ℕ)
rows = some 10 ∷ some 11 ∷ none ∷ some 13 ∷ some 14 ∷ []

abbrev anchored : Selection ℕ
anchored = record { selected_ids = 14 ∷ []; focused_id = some 11; anchor_index = some 1 }

range_selected : (extend_range rows 3 0 anchored).selected_ids ≡ 11 ∷ 13 ∷ []
unfolding extend_range collect id_at
range_selected = refl

extend_range-selects_example :
    ((contains (extend_range rows 3 0 anchored).selected_ids 13 ≡ true)
      ↔ Within rows (min 3 1) (min (length rows) (max 3 1 + 1)) 13)
    × ((extend_range rows 3 0 anchored).anchor_index ≡ some 1)
extend_range-selects_example = extend_range-selects rows 3 0 anchored 13 (omega arith)

abbrev three_selected : Selection ℕ
three_selected = record {
  selected_ids = 10 ∷ 11 ∷ 13 ∷ [];
  focused_id = none;
  anchor_index = some 0;
}
