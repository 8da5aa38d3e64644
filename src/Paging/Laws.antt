-- ===== src/Paging/Laws.antt =====
-- The loop ends, and what its result says of the position.
use stormbox.Base.{
  ℕ, zero, suc, ◌+◌, ◌-◌, ◌<◌, false, some, nat_eq, string_eq, ◌≡◌, ◌⊎◌, inl, inr, arith, refl, ◌∙◌,
}
use stormbox.Paging.{
  CompleteQueryPage, CompleteQueryCursor, Options, Progress, start, cursor_of, Verdict, stop,
  continue, after_visit, take_page, round, loop, CompleteQueryResult, page_complete_query, paged,
  reaches, visited_page,
}

-- What a round that goes on has done: it read one page and moved on.
after_visit-continue :
    (o : Options) (c : CompleteQueryCursor) (page : CompleteQueryPage) (s s' : Progress)
    → after_visit o c page s ≡ continue s'
    → (c.position < s'.position) × (s'.pages ≡ s.pages)
unfolding after_visit
after_visit-continue o c page s s' h = ground arith

take_page-continue :
    (o : Options) (c : CompleteQueryCursor) (page : CompleteQueryPage) (s s' : Progress)
    → take_page o c page s ≡ continue s'
    → (c.position < s'.position) × (s'.pages ≡ s.pages + 1)
unfolding take_page
take_page-continue o c page s s' h =
    ground (arith, after_visit-continue o c page (visited_page s page) s')

round-continue :
    (o : Options) (read : CompleteQueryCursor → CompleteQueryPage) (s s' : Progress)
    → round o read s ≡ continue s'
    → (s.position < s'.position)
      × (s'.pages ≡ s.pages + 1)
      × (reaches s.position o.max_position ≡ false)
      × (reaches s.pages o.max_pages ≡ false)
unfolding round
round-continue o read s s' h =
    ground (arith, take_page-continue o (cursor_of o s) (read (cursor_of o s)) s s')

-- The loop with the next round at hand.
pub loop-step :
    (fuel : ℕ) (o : Options) (read : CompleteQueryCursor → CompleteQueryPage) (s : Progress)
    (v : Verdict)
    → round o read s ≡ v
    → loop (suc fuel) o read s ≡ elim v [
      | stop s' e ↦ some (record { progress = s'; ending = e })
      | continue s' ↦ loop fuel o read s'
    ]
unfolding loop
loop-step fuel o read s v e = rw (e, loop)

module _ (o : Options) (read : CompleteQueryCursor → CompleteQueryPage) where
  abbrev Ends : ℕ → Progress → Type 0
  Ends fuel s = (r : CompleteQueryResult) × (loop fuel o read s ≡ some r)

  Ends-after :
      (fuel : ℕ) (s : Progress) (v : Verdict)
      → round o read s ≡ v
      → ((s' : Progress) → v ≡ continue s' → Ends fuel s')
      → Ends (suc fuel) s
  Ends-after fuel s (stop s' e) k next = (_, loop-step fuel o read s _ k)
  Ends-after fuel s (continue s') k next =
      let (r, e) = next s' refl in (r, loop-step fuel o read s _ k ∙ e)

  -- A number that every round makes smaller bounds the rounds.
  loop-Ends :
      (measure : Progress → ℕ)
      → ((s s' : Progress) → round o read s ≡ continue s' → measure s' < measure s)
      → (fuel : ℕ) (s : Progress) → measure s < fuel
      → Ends fuel s
  loop-Ends measure less zero s h = elim h [ ]
  loop-Ends measure less (suc fuel) s h =
      Ends-after fuel s (round o read s) refl
        (λ s' e. loop-Ends measure less fuel s' (omega (arith, less s s' e)))

  position_less :
      (bound : ℕ) (s s' : Progress)
      → o.max_position ≡ some bound
      → round o read s ≡ continue s'
      → bound - s'.position < bound - s.position
  position_less bound s s' m e = ground (arith, round-continue o read s s' e)

  pages_less :
      (bound : ℕ) (s s' : Progress)
      → o.max_pages ≡ some bound
      → round o read s ≡ continue s'
      → bound - s'.pages < bound - s.pages
  pages_less bound s s' m e = ground (arith, round-continue o read s s' e)

  -- With a bound on the position or on the pages, and a positive page size, the paging ends with a
  -- result, whatever the server answers: as many rounds suffice as the bound leaves room for, and
  -- one more.
  pub page_complete_query-ends :
      (bound fuel : ℕ)
      → ((o.max_position ≡ some bound) × (bound - o.start_position < fuel))
        ⊎ ((o.max_pages ≡ some bound) × (bound < fuel))
      → 0 < o.page_size
      → (r : CompleteQueryResult) × (page_complete_query fuel o read ≡ paged r)
  unfolding page_complete_query
  page_complete_query-ends bound fuel (inl (m, h)) positive =
      let (r, e) =
        loop-Ends (λ s. bound - s.position) (λ s s'. position_less bound s s' m) fuel (start o) h in
      (r, ground (arith, e, positive))
  page_complete_query-ends bound fuel (inr (m, h)) positive =
      let (r, e) =
        loop-Ends (λ s. bound - s.pages) (λ s s'. pages_less bound s s' m) fuel (start o)
          (omega (arith, h)) in
      (r, ground (arith, e, positive))
