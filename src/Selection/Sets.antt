-- ===== src/Selection/Sets.antt =====
-- What the list's operations do to the selected keys as a set: membership, and no key twice.
use stormbox.Base.{
  or_else, max, ℕ, zero, suc, ◌+◌, ◌-◌, min, Bool, true, false, not, ◌&&◌, List, [], ◌∷◌, ◌++◌,
  Option, none, some, ◌==◌, Eq, contains, leb, if◌then◌else◌, length, ◌≡◌, inl, inr, arith, refl,
  ap, sym, subst, Bool-cases, beq_true, if_intro,
}
use stormbox.Base.Sets.{
  eq_sym, contains-filter, contains-delete, Distinct, Distinct-append, Distinct-delete_where,
  same_under,
}
use stormbox.Selection.{
  Selection, KeyEvent, KeyResult, add, add_some, delete, id_at, toggle_at, collect, extend_range,
  prune_removed, anchor_for, retain_only, select_all_loaded, total_or, ignored, used, is_nil,
  arrow_target, focused_index, select_none, handle_key_down, move_focus,
}

module _ {ℓ} {Key : Type ℓ} ⦃e : Eq Key⦄ where
  abbrev Unique : Selection Key → Type 0
  Unique s = Distinct s.selected_ids

  add-Distinct : (k : Key) (xs : List Key) → Distinct xs → Distinct (add k xs)
  add-Distinct k xs d = elim (Bool-cases (contains xs k)) [
    | inl h ↦ subst Distinct (sym (ap (λ b. if b then xs else xs ++ k ∷ []) h)) d
    | inr h ↦
        subst Distinct (sym (ap (λ b. if b then xs else xs ++ k ∷ []) h)) (Distinct-append xs k h d)
  ]

  add_some-Distinct : (o : Option Key) (xs : List Key) → Distinct xs → Distinct (add_some o xs)
  add_some-Distinct none xs d = d
  add_some-Distinct (some k) xs d = add-Distinct k xs d

  collect-Distinct :
      (rows : List (Option Key)) (i n : ℕ) (xs : List Key)
      → Distinct xs
      → Distinct (collect rows i n xs)
  unfolding collect
  collect-Distinct rows i zero xs d = d
  collect-Distinct rows i (suc n) xs d =
      collect-Distinct rows (suc i) n (add_some (id_at rows i) xs)
        (add_some-Distinct (id_at rows i) xs d)

  toggle-Distinct :
      (k : Key) (xs : List Key)
      → Distinct xs
      → Distinct (if contains xs k then delete k xs else xs ++ k ∷ [])
  toggle-Distinct k xs d = elim (Bool-cases (contains xs k)) [
    | inl h ↦
        subst Distinct (sym (ap (λ b. if b then delete k xs else xs ++ k ∷ []) h))
          (Distinct-delete_where (λ x. x == k) xs d)
    | inr h ↦
        subst Distinct (sym (ap (λ b. if b then delete k xs else xs ++ k ∷ []) h))
          (Distinct-append xs k h d)
  ]

  toggle_at-Unique :
      (rows : List (Option Key)) (i : ℕ) (s : Selection Key)
      → Unique s
      → Unique (toggle_at rows i s)
  unfolding toggle_at
  toggle_at-Unique rows i s d =
      elim (id_at rows i)
        as (λ o. Unique (elim o [
          | none ↦ s
          | some k ↦ record s {
            selected_ids =
                if contains s.selected_ids k
                then delete k s.selected_ids
                else s.selected_ids ++ k ∷ [];
            anchor_index = some i;
          }
        ])) [ none ↦ d | some k ↦ toggle-Distinct k s.selected_ids d ]

  extend_range-Unique :
      (rows : List (Option Key)) (i f : ℕ) (s : Selection Key)
      → Unique s
      → Unique (extend_range rows i f s)
  unfolding extend_range
  extend_range-Unique rows i f s d =
      let anchor = anchor_for rows f s.anchor_index in
      let lo = min i anchor in
      let upper = min (length rows) (max i anchor + 1) in
      if_intro Unique (leb (length rows) i) s _ d (collect-Distinct rows lo (upper - lo) [] tt)

  select_all_loaded-Unique :
      (rows : List (Option Key)) (n : ℕ) (s : Selection Key)
      → Unique s
      → Unique (select_all_loaded rows n s)
  unfolding select_all_loaded
  select_all_loaded-Unique rows n s d =
      collect-Distinct rows 0 (min (length rows) (total_or n (length rows))) s.selected_ids d

  move_focus-Unique :
      (rows : List (Option Key)) (down shift : Bool) (s : Selection Key)
      → Unique s
      → Unique (move_focus rows down shift s).0
  unfolding move_focus
  move_focus-Unique rows down shift s d =
      let next = arrow_target (length rows) down (or_else (focused_index rows s) s.anchor_index) in
      if_intro (λ (r : Selection Key × KeyResult Key). Unique r.0) (leb (length rows) 0)
        (s, ignored) _ d
        (if_intro Unique shift (extend_range rows next next s) s
          (extend_range-Unique rows next next s d) d)

  space-Unique :
      (rows : List (Option Key)) (o : Option ℕ) (s : Selection Key)
      → Unique s
      → Unique
          (elim o as (λ x. Selection Key × KeyResult Key) [
            | none ↦ (s, ignored)
            | some i ↦ (toggle_at rows i s, used)
          ]).0
  space-Unique rows none s d = d
  space-Unique rows (some i) s d = toggle_at-Unique rows i s d

  -- No key of the keyboard puts an id twice in the selection.
  pub handle_key_down-Unique :
      (rows : List (Option Key)) (total : ℕ) (event : KeyEvent) (shift : Bool) (s : Selection Key)
      → Unique s
      → Unique (handle_key_down rows total event shift s).0
  unfolding handle_key_down select_none
  handle_key_down-Unique rows total KeyEvent.select_all_key shift s d =
      select_all_loaded-Unique rows total s d
  handle_key_down-Unique rows total KeyEvent.escape shift s d =
      if_intro (λ (r : Selection Key × KeyResult Key). Unique r.0) (is_nil s.selected_ids)
        (s, ignored) (select_none s, used) d tt
  handle_key_down-Unique rows total KeyEvent.space shift s d =
      space-Unique rows (focused_index rows s) s d
  handle_key_down-Unique rows total KeyEvent.arrow_down shift s d =
      move_focus-Unique rows true shift s d
  handle_key_down-Unique rows total KeyEvent.arrow_up shift s d =
      move_focus-Unique rows false shift s d
  handle_key_down-Unique rows total KeyEvent.other shift s d = d

  length-delete :
      (k : Key) (xs : List Key)
      → Distinct xs
      → length (delete k xs) + (if contains xs k then 1 else 0) ≡ length xs
  length-delete k [] d = refl
  length-delete k (x ∷ xs) d = elim (Bool-cases (x == k)) [
    | inl h ↦
        let absent : contains xs k ≡ false =
          subst (λ y. contains xs y ≡ false) (beq_true x k h) d.0 in
        ground (arith, h, absent, length-delete k xs d.1)
    | inr h ↦ ground (arith, h, length-delete k xs d.1)
  ]

  -- Pruning removes exactly the given keys from the selection.
  pub prune_removed-removes :
      (removed : List Key) (s : Selection Key) (k : Key)
      → contains (prune_removed removed s).0.selected_ids k
        ≡ contains s.selected_ids k && not (contains removed k)
  unfolding prune_removed
  prune_removed-removes [] s k = ground (arith)
  prune_removed-removes (r ∷ removed) s k =
      let pruned = record s { selected_ids = delete r s.selected_ids } in
      ground (
        arith,
        prune_removed-removes removed pruned k,
        contains-delete r s.selected_ids k,
        eq_sym k r,
      )

  -- Where no key is selected twice, the count that pruning reports is the number of keys that the
  -- selection lost.
  pub prune_removed-counts :
      (removed : List Key) (s : Selection Key)
      → Unique s
      → length (prune_removed removed s).0.selected_ids + (prune_removed removed s).1
        ≡ length s.selected_ids
  unfolding prune_removed
  prune_removed-counts [] s d = ground (arith)
  prune_removed-counts (r ∷ removed) s d =
      let pruned = record s { selected_ids = delete r s.selected_ids } in
      ground (
        arith,
        prune_removed-counts removed pruned (Distinct-delete_where (λ x. x == r) s.selected_ids d),
        length-delete r s.selected_ids d,
      )

  -- Only the allowed keys stay selected, and every selected key that is allowed stays.
  pub retain_only-intersects :
      (allowed : List Key) (s : Selection Key) (k : Key)
      → contains (retain_only allowed s).0.selected_ids k
        ≡ contains s.selected_ids k && contains allowed k
  unfolding retain_only
  retain_only-intersects allowed s k =
      contains-filter (contains allowed) s.selected_ids k (λ y. same_under (contains allowed) y k)
