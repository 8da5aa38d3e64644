-- ===== src/Selection/Range.antt =====
-- Which keys a range selects.
use stormbox.Base.{
  ℕ, zero, suc, ◌+◌, ◌-◌, ◌≤◌, ◌<◌, min, max, true, List, [], ◌∷◌, Option, none, some, ◌==◌, nat_eq,
  Eq, if_false, contains, leb, length, ◌≡◌, ◌⊎◌, inl, inr, ◌↔◌, arith, refl, ap, sym, subst,
  Bool-cases, beq_true,
}
use stormbox.Base.Sets.{contains-append, contains_self}
use stormbox.Selection.{Selection, add_some, id_at, collect, extend_range, anchor_for}

module _ {ℓ} {Key : Type ℓ} ⦃e : Eq Key⦄ where
  -- The key stands in one of the rows from `i` up to, and without, `j`.
  abbrev pub Within : List (Option Key) → ℕ → ℕ → Key → Type ℓ
  Within rows i j k = (n : ℕ) × (i ≤ n) × (n < j) × (id_at rows n ≡ some k)

  add_some-contains :
      (o : Option Key) (next : List Key) (k : Key)
      → contains (add_some o next) k ≡ true
      → (contains next k ≡ true) ⊎ (o ≡ some k)
  add_some-contains none next k h = inl h
  add_some-contains (some x) next k h = elim (Bool-cases (x == k)) [
    | inl same ↦ inr (ap some (beq_true x k same))
    | inr other ↦ inl (ground (arith, h, other, contains-append next (x ∷ []) k))
  ]

  add_some-keeps :
      (o : Option Key) (next : List Key) (k : Key)
      → contains next k ≡ true
      → contains (add_some o next) k ≡ true
  add_some-keeps none next k h = h
  add_some-keeps (some x) next k h = ground (arith, h, contains-append next (x ∷ []) k)

  add_some-has : (k : Key) (next : List Key) → contains (add_some (some k) next) k ≡ true
  add_some-has k next = ground (arith, contains_self next k)

  collect-keeps :
      (rows : List (Option Key)) (i n : ℕ) (next : List Key) (k : Key)
      → contains next k ≡ true
      → contains (collect rows i n next) k ≡ true
  unfolding collect
  collect-keeps rows i zero next k h = h
  collect-keeps rows i (suc n) next k h =
      collect-keeps rows (suc i) n (add_some (id_at rows i) next) k
        (add_some-keeps (id_at rows i) next k h)

  collect-has :
      (rows : List (Option Key)) (i n : ℕ) (next : List Key) (k : Key)
      → Within rows i (i + n) k
      → contains (collect rows i n next) k ≡ true
  unfolding collect
  collect-has rows i zero next k (j, lo, hi, at) = absurd (omega arith)
  collect-has rows i (suc n) next k (j, lo, hi, at) = elim (Bool-cases (j == i)) [
    | inl here ↦
        let found : id_at rows i ≡ some k =
          subst (λ x. id_at rows x ≡ some k) (beq_true j i here) at in
        collect-keeps rows (suc i) n (add_some (id_at rows i) next) k
          (subst (λ o. contains (add_some o next) k ≡ true) (sym found) (add_some-has k next))
    | inr later ↦
        collect-has rows (suc i) n (add_some (id_at rows i) next) k
          (j, ground (arith, later, lo), ground (arith, hi), at)
  ]

  collect-from :
      (rows : List (Option Key)) (i n : ℕ) (next : List Key) (k : Key)
      → contains (collect rows i n next) k ≡ true
      → (contains next k ≡ true) ⊎ Within rows i (i + n) k
  unfolding collect
  collect-from rows i zero next k h = inl h
  collect-from rows i (suc n) next k h =
      elim (collect-from rows (suc i) n (add_some (id_at rows i) next) k h) [
        | inl known ↦ elim (add_some-contains (id_at rows i) next k known) [
          | inl old ↦ inl old
          | inr at ↦ inr (i, omega arith, omega arith, at)
        ]
        | inr (j, lo, hi, at) ↦ inr (j, omega arith, omega arith, at)
      ]

  collect-Within :
      (rows : List (Option Key)) (lo upper : ℕ) (k : Key)
      → lo ≤ upper
      → (contains (collect rows lo (upper - lo) []) k ≡ true) ↔ Within rows lo upper k
  collect-Within rows lo upper k h =
      let reach : lo + (upper - lo) ≡ upper = omega arith in
      (
        (λ found. elim (collect-from rows lo (upper - lo) [] k found) [
          | inl old ↦ absurd (ground (arith, old))
          | inr (j, low, high, at) ↦ (j, low, omega arith, at)
        ]),
        (λ (j, low, high, at). collect-has rows lo (upper - lo) [] k (j, low, omega arith, at)),
      )

  -- A range selects exactly the loaded rows between the anchor and the clicked row, both included,
  -- and forgets what was selected before. The first range fixes the anchor; later ones keep it.
  pub extend_range-selects :
      (rows : List (Option Key)) (index fallback : ℕ) (s : Selection Key) (k : Key)
      → index < length rows
      → ((contains (extend_range rows index fallback s).selected_ids k ≡ true)
          ↔ Within rows
              (min index (anchor_for rows fallback s.anchor_index))
              (min (length rows) (max index (anchor_for rows fallback s.anchor_index) + 1))
              k)
        × ((extend_range rows index fallback s).anchor_index
            ≡ some (anchor_for rows fallback s.anchor_index))
  unfolding extend_range
  extend_range-selects rows index fallback s k h = elim (Bool-cases (leb (length rows) index)) [
    | inl past ↦ absurd (ground (arith, past, h))
    | inr inside ↦
        let anchor = anchor_for rows fallback s.anchor_index in
        let lo = min index anchor in
        let upper = min (length rows) (max index anchor + 1) in
        let range = record s {
          selected_ids = collect rows lo (upper - lo) [];
          anchor_index = some anchor;
        } in
        let step : extend_range rows index fallback s ≡ range = if_false s range inside in
        subst
          (λ t.
            ((contains t.selected_ids k ≡ true) ↔ Within rows lo upper k)
            × (t.anchor_index ≡ some anchor))
          (sym step) (collect-Within rows lo upper k (ground (arith, h)), refl)
  ]
