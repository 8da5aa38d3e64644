-- ===== src/Selection.antt =====
-- src/composables/useListSelection.ts: the anchored multi-selection of a list.
-- `rows` gives the key of each loaded row; `none` is a row that is not loaded or has no key. An
-- index is a natural number: the source refuses a negative one as it refuses one past the end. A
-- set of keys is the list of its members in the order of their insertion.
pub mod Range
pub mod Sets
use stormbox.Base.{
  ℕ, zero, suc, ◌+◌, ◌-◌, min, max, String, Bool, true, false, not, ◌&&◌, ◌||◌, List, [], ◌∷◌, ◌++◌,
  Option, none, some, ◌==◌, nat_eq, Eq, contains, leb, ltb, if◌then◌else◌, length, get_elem?,
  delete_where, or_else, filter,
}

-- `anchor_index` is `none` for the -1 of the source.
pub record Selection {ℓ} (Key : Type ℓ) : Type ℓ where
  pub selected_ids : List Key
  pub focused_id : Option Key
  pub anchor_index : Option ℕ

pub data KeyEvent : Type 0 where
  select_all_key escape space arrow_down arrow_up other : KeyEvent

-- What `handleKeyDown` reports.
pub record KeyResult {ℓ} (Key : Type ℓ) : Type ℓ where
  pub consumed : Bool
  pub focus_changed : Bool
  pub focused : Option Key

-- `total.value || rows.value.length`.
abbrev pub total_or : ℕ → ℕ → ℕ
total_or zero n = n
total_or (suc t) n = suc t

-- The row that an arrow moves to, from the focus, the anchor or the edge of the list.
abbrev pub arrow_target : ℕ → Bool → Option ℕ → ℕ
arrow_target len down none = if down then 0 else len - 1
arrow_target len true (some from) = min (len - 1) (from + 1)
arrow_target len false (some from) = min (len - 1) (from - 1)

module _ {ℓ} {Key : Type ℓ} ⦃e : Eq Key⦄ where
  -- `Set.add` and `Set.delete`.
  abbrev pub add : Key → List Key → List Key
  add k s = if contains s k then s else s ++ k ∷ []

  abbrev pub add_some : Option Key → List Key → List Key
  add_some none s = s
  add_some (some k) s = add k s

  abbrev pub delete : Key → List Key → List Key
  delete k = delete_where (λ x. x == k)

  -- `_idAt`; an index past the end gives no row.
  unfoldable pub id_at : List (Option Key) → ℕ → Option Key
  id_at [] i = none
  id_at (r ∷ rows) zero = r
  id_at (r ∷ rows) (suc i) = id_at rows i

  -- `findIndex` of the row with this key.
  abbrev index_of_from : ℕ → List (Option Key) → Key → Option ℕ
  index_of_from i [] k = none
  index_of_from i (none ∷ rows) k = index_of_from (suc i) rows k
  index_of_from i (some x ∷ rows) k =
      let later = index_of_from (suc i) rows k in if x == k then some i else later

  pub focused_index : List (Option Key) → Selection Key → Option ℕ
  focused_index rows s = elim s.focused_id [ none ↦ none | some k ↦ index_of_from 0 rows k ]

  unfoldable pub set_focused : List (Option Key) → ℕ → Selection Key → Selection Key × Option Key
  unfolding id_at
  set_focused rows index s =
      if leb (length rows) index
      then (s, none)
      else (record s { focused_id = id_at rows index }, id_at rows index)

  pub toggle_at : List (Option Key) → ℕ → Selection Key → Selection Key
  toggle_at rows index s = elim (id_at rows index) [
    | none ↦ s
    | some k ↦ record s {
      selected_ids =
          if contains s.selected_ids k then delete k s.selected_ids else s.selected_ids ++ k ∷ [];
      anchor_index = some index;
    }
  ]

  -- The loop of `extendRange`: `count` rows from `i` on.
  unfoldable pub collect : List (Option Key) → ℕ → ℕ → List Key → List Key
  collect rows i zero next = next
  collect rows i (suc count) next = collect rows (suc i) count (add_some (id_at rows i) next)

  abbrev pub anchor_for : List (Option Key) → ℕ → Option ℕ → ℕ
  anchor_for rows fallback none = min (length rows - 1) fallback
  anchor_for rows fallback (some a) = a

  unfoldable pub extend_range : List (Option Key) → ℕ → ℕ → Selection Key → Selection Key
  unfolding collect
  extend_range rows index fallback s =
      let anchor = anchor_for rows fallback s.anchor_index in
      let lo = min index anchor in
      let upper = min (length rows) (max index anchor + 1) in
      if leb (length rows) index
      then s
      else record s { selected_ids = collect rows lo (upper - lo) []; anchor_index = some anchor }

  unfoldable pub handle_checkbox_click :
      List (Option Key) → ℕ → Bool → ℕ → Selection Key → Selection Key
  unfolding extend_range toggle_at
  handle_checkbox_click rows index shift fallback s =
      if shift then extend_range rows index fallback s else toggle_at rows index s

  pub select_all_loaded : List (Option Key) → ℕ → Selection Key → Selection Key
  unfolding collect
  select_all_loaded rows total s =
      let upper = min (length rows) (total_or total (length rows)) in
      record s {
        selected_ids = collect rows 0 upper s.selected_ids;
        anchor_index = if ltb 0 upper then some 0 else s.anchor_index;
      }

  pub select_none : Selection Key → Selection Key
  select_none s = record s { selected_ids = []; anchor_index = none }

  -- The new selection, and how many keys it lost.
  pub prune_removed : List Key → Selection Key → Selection Key × ℕ
  prune_removed [] s = (s, 0)
  prune_removed (k ∷ removed) s =
      let rest = prune_removed removed (record s { selected_ids = delete k s.selected_ids }) in
      (rest.0, if contains s.selected_ids k then suc rest.1 else rest.1)

  pub retain_only : List Key → Selection Key → Selection Key × ℕ
  retain_only allowed s =
      let kept = filter (contains allowed) s.selected_ids in
      (record s { selected_ids = kept }, length s.selected_ids - length kept)

  abbrev pub ignored : KeyResult Key
  ignored = record { consumed = false; focus_changed = false; focused = none }

  abbrev pub used : KeyResult Key
  used = record { consumed = true; focus_changed = false; focused = none }

  abbrev pub is_nil : List Key → Bool
  is_nil [] = true
  is_nil (k ∷ ks) = false

  pub move_focus : List (Option Key) → Bool → Bool → Selection Key → Selection Key × KeyResult Key
  unfolding extend_range focused_index
  move_focus rows down shift s =
      let next = arrow_target (length rows) down (or_else (focused_index rows s) s.anchor_index) in
      let extended = if shift then extend_range rows next next s else s in
      if leb (length rows) 0 then (s, ignored) else (
        record extended { focused_id = id_at rows next },
        record { consumed = true; focus_changed = true; focused = id_at rows next },
      )

  -- A key with its modifiers: Ctrl or Cmd with A is `select_all_key`.
  pub handle_key_down :
      List (Option Key) → ℕ → KeyEvent → Bool → Selection Key → Selection Key × KeyResult Key
  unfolding move_focus select_all_loaded select_none toggle_at
  handle_key_down rows total select_all_key shift s = (select_all_loaded rows total s, used)
  handle_key_down rows total escape shift s =
      if is_nil s.selected_ids then (s, ignored) else (select_none s, used)
  handle_key_down rows total space shift s = elim (focused_index rows s) [
    | none ↦ (s, ignored)
    | some i ↦ (toggle_at rows i s, used)
  ]
  handle_key_down rows total arrow_down shift s = move_focus rows true shift s
  handle_key_down rows total arrow_up shift s = move_focus rows false shift s
  handle_key_down rows total other shift s = (s, ignored)
