-- ===== src/Paging/Contents.antt =====
-- What a complete result is worth: the pages agree, and none of the entries between is left out.
use stormbox.Base.{
  ℕ, zero, suc, ◌+◌, String, true, false, List, [], ◌∷◌, ◌++◌, Option, none, some, nat_eq,
  string_eq, length, ◌≡◌, ◌⊎◌, inl, inr, arith, refl, Bool-cases, ◌∙◌, All, All-append, All-map, ap,
  sym, subst, beq_true, some_inj, leb, ltb, ◌<◌,
}
use stormbox.Paging.{
  CompleteQueryPage, CompleteQueryCursor, complete, Options, Progress, start, cursor_of, Verdict,
  stop, continue, after_visit, take_page, round, loop, page_start, CompleteQueryResult,
  page_complete_query, paged, reaches, visited_page, same_text, state_changed, total_changed,
  first_state, first_total, served_limit, page_limit,
}
use stormbox.Paging.Laws.{loop-step}

-- What a page leaves behind if the paging goes on or is complete.
record Took (c : CompleteQueryCursor) (page : CompleteQueryPage) (s s' : Progress) : Type 0 where
  pub visited : s'.visited ≡ s.visited ++ page ∷ []
  pub first : s'.first_query_state ≡ first_state s.first_query_state page.query_state
  pub total : s'.total ≡ first_total s.total page.total
  pub position : s'.position ≡ page_start c page + length page.ids
  pub same_state : state_changed s.first_query_state page.query_state ≡ false
  pub same_total : total_changed s.total page.total ≡ false

-- A page with nothing on it, or with less than was asked for and than the server allows.
abbrev pub IsShort : CompleteQueryCursor → CompleteQueryPage → Type 0
IsShort c page =
    (length page.ids ≡ 0)
    ⊎ ((length page.ids < c.limit)
        × ((l : ℕ) → page.limit ≡ some l → (l ≡ 0) ⊎ (length page.ids < l)))

-- The last page was read where it ends the positions, and is short.
pub record IsLastPage (o : Options) (read : CompleteQueryCursor → CompleteQueryPage) (s : Progress)
    : Type 0 where
  pub before : List CompleteQueryPage
  pub cursor : CompleteQueryCursor
  pub last : s.visited ≡ before ++ read cursor ∷ []
  pub ends : s.position ≡ page_start cursor (read cursor) + length (read cursor).ids
  pub asked : cursor.limit ≡ page_limit o.page_size cursor.position o.max_position
  pub short : IsShort cursor (read cursor)

-- The position at which a complete result may end.
abbrev pub IsWhole : Options → (CompleteQueryCursor → CompleteQueryPage) → Progress → Type 0
IsWhole o read s =
    (reaches s.position o.max_position ≡ true)
    ⊎ ((s.total ≡ some s.position) ⊎ ((s.total ≡ none) × IsLastPage o read s))

-- The same, by the tests that follow a page.
abbrev MayEnd : Options → CompleteQueryCursor → CompleteQueryPage → Progress → Type 0
MayEnd o c page s =
    (reaches s.position o.max_position ≡ true)
    ⊎ ((s.total ≡ some s.position)
        ⊎ ((s.total ≡ none)
            × ((leb (length page.ids) 0 ≡ true)
                ⊎ (ltb (length page.ids) (served_limit c page) ≡ true))))

after_visit-complete :
    (o : Options) (c : CompleteQueryCursor) (page : CompleteQueryPage) (s s' : Progress)
    → after_visit o c page s ≡ stop s' complete
    → (s' ≡ record s { position = page_start c page + length page.ids }) × MayEnd o c page s'
unfolding after_visit
after_visit-complete o c page s s' h = ground arith

served_limit-IsShort :
    (c : CompleteQueryCursor) (page : CompleteQueryPage)
    → ltb (length page.ids) (served_limit c page) ≡ true
    → IsShort c page
served_limit-IsShort c page h = by page.limit refl
  where
    by : (l : Option ℕ) → page.limit ≡ l → IsShort c page
    by none e = inr (ground (arith, h, e), λ k f. absurd (cc (e, f)))
    by (some l) e = inr (
      ground (arith, h, e),
      λ k f. let same : l ≡ k = some_inj l k (sym e ∙ f) in ground (arith, h, e, same),
    )

after_visit-went_on :
    (o : Options) (c : CompleteQueryCursor) (page : CompleteQueryPage) (s s' : Progress)
    → after_visit o c page s ≡ continue s'
    → (s'.visited ≡ s.visited)
      × (s'.first_query_state ≡ s.first_query_state)
      × (s'.total ≡ s.total)
      × (s'.position ≡ page_start c page + length page.ids)
unfolding after_visit
after_visit-went_on o c page s s' h = ground arith

take_page-complete :
    (o : Options) (c : CompleteQueryCursor) (page : CompleteQueryPage) (s s' : Progress)
    → take_page o c page s ≡ stop s' complete
    → Took c page s s' × MayEnd o c page s'
unfolding take_page
take_page-complete o c page s s' h =
    ground (arith, after_visit-complete o c page (visited_page s page) s')

take_page-went_on :
    (o : Options) (c : CompleteQueryCursor) (page : CompleteQueryPage) (s s' : Progress)
    → take_page o c page s ≡ continue s'
    → Took c page s s'
unfolding take_page
take_page-went_on o c page s s' h =
    ground (arith, after_visit-went_on o c page (visited_page s page) s')

-- The number of entries on the pages that were visited.
pub entries : List CompleteQueryPage → ℕ
entries [] = 0
entries (page ∷ pages) = length page.ids + entries pages

entries-append :
    (ps : List CompleteQueryPage) (page : CompleteQueryPage)
    → entries (ps ++ page ∷ []) ≡ entries ps + length page.ids
unfolding entries
entries-append [] page = omega arith
entries-append (p ∷ ps) page = omega (arith, entries-append ps page)

-- A server that answers from the position it was asked for.
abbrev pub IsFaithful : (CompleteQueryCursor → CompleteQueryPage) → Type 0
IsFaithful read = (c : CompleteQueryCursor) → page_start c (read c) ≡ c.position

-- The visited pages agree with the first state and the total, and fill the positions from the
-- start.
pub record Inv (o : Options) (s : Progress) : Type 0 where
  pub states : All (λ page. s.first_query_state ≡ some page.query_state) s.visited
  pub totals : All (λ page. (page.total ≡ none) ⊎ (page.total ≡ s.total)) s.visited
  pub none_yet : s.first_query_state ≡ none → s.visited ≡ []
  pub located : s.position ≡ o.start_position + entries s.visited

same_text-true : (a b : Option String) → same_text a b ≡ true → a ≡ b
same_text-true none none h = refl
same_text-true (some a) (some b) h = ap some (beq_true a b h)
same_text-true none (some b) h = cc
same_text-true (some a) none h = cc

-- The first state of the pages, after one more page that did not change it.
first_state_new :
    (first : Option (Option String)) (q : Option String)
    → state_changed first q ≡ false
    → first_state first q ≡ some q
first_state_new none q h = refl
first_state_new (some f) q h = ap some (sym (same_text-true q f (ground (arith, h))))

states_next :
    (first : Option (Option String)) (q : Option String) (ps : List CompleteQueryPage)
    → (first ≡ none → ps ≡ [])
    → All (λ page. first ≡ some page.query_state) ps
    → All (λ page. first_state first q ≡ some page.query_state) ps
states_next none q ps empty a = rw (empty refl) tt
states_next (some f) q ps empty a = a

totals_next :
    (total new : Option ℕ) (ps : List CompleteQueryPage)
    → All (λ page. (page.total ≡ none) ⊎ (page.total ≡ total)) ps
    → All (λ page. (page.total ≡ none) ⊎ (page.total ≡ first_total total new)) ps
totals_next none new ps a = All-map _ _ ps (λ page t. ground (arith, t)) a
totals_next (some t) new ps a = a

total_new :
    (total new : Option ℕ)
    → total_changed total new ≡ false
    → (new ≡ none) ⊎ (new ≡ first_total total new)
total_new none new h = inr refl
total_new (some t) none h = inl refl
total_new (some t) (some u) h = inr (ap some (beq_true u t (ground (arith, h))))

Took-Inv :
    (o : Options) (c : CompleteQueryCursor) (page : CompleteQueryPage) (s s' : Progress)
    → Took c page s s'
    → page_start c page ≡ s.position
    → Inv o s
    → Inv o s'
Took-Inv o c page s s' t at v = record {
  states =
      rw (t.visited, t.first)
        (All-append _ s.visited (page ∷ [])
          (states_next s.first_query_state page.query_state s.visited v.none_yet v.states)
          (first_state_new s.first_query_state page.query_state t.same_state, tt));
  totals =
      rw (t.visited, t.total)
        (All-append _ s.visited (page ∷ []) (totals_next s.total page.total s.visited v.totals)
          (total_new s.total page.total t.same_total, tt));
  none_yet = λ e.
      absurd
        (cc (first_state_new s.first_query_state page.query_state t.same_state, sym t.first ∙ e));
  located =
      omega (arith, t.position, at, v.located, entries-append s.visited page, ap entries t.visited);
}

module _ (o : Options) (read : CompleteQueryCursor → CompleteQueryPage)
    (faithful : IsFaithful read) where
  abbrev Whole : Progress → Type 0
  Whole s = Inv o s × IsWhole o read s

  MayEnd-IsWhole :
      (s s' : Progress)
      → Took (cursor_of o s) (read (cursor_of o s)) s s'
      → MayEnd o (cursor_of o s) (read (cursor_of o s)) s'
      → IsWhole o read s'
  MayEnd-IsWhole s s' t (inl h) = inl h
  MayEnd-IsWhole s s' t (inr (inl h)) = inr (inl h)
  MayEnd-IsWhole s s' t (inr (inr (e, short))) = inr (
      inr (
        e,
        record {
          before = s.visited;
          cursor = cursor_of o s;
          last = t.visited;
          ends = t.position;
          asked = refl;
          short = elim short [
            | inl h ↦ inl (ground (arith, h))
            | inr h ↦ served_limit-IsShort (cursor_of o s) (read (cursor_of o s)) h
          ];
        },
      ))

  round-complete : (s s' : Progress) → Inv o s → round o read s ≡ stop s' complete → Whole s'
  unfolding round
  round-complete s s' v e = elim (Bool-cases (reaches s.position o.max_position)) [
    | inl h ↦ let same : s ≡ s' = ground (arith, e, h) in subst Whole same (v, inl h)
    | inr h ↦
        let taken : take_page o (cursor_of o s) (read (cursor_of o s)) s ≡ stop s' complete =
          ground (arith, e, h) in
        let (t, ends) = take_page-complete o (cursor_of o s) (read (cursor_of o s)) s s' taken in
        (
          Took-Inv o (cursor_of o s) _ s s' t (faithful (cursor_of o s)) v,
          MayEnd-IsWhole s s' t ends,
        )
  ]

  round-went_on : (s s' : Progress) → Inv o s → round o read s ≡ continue s' → Inv o s'
  unfolding round
  round-went_on s s' v e =
      let taken : take_page o (cursor_of o s) (read (cursor_of o s)) s ≡ continue s' =
        ground (arith, e) in
      Took-Inv o (cursor_of o s) _ s s'
        (take_page-went_on o (cursor_of o s) (read (cursor_of o s)) s s' taken)
        (faithful (cursor_of o s)) v

  loop-complete :
      (fuel : ℕ) (s : Progress) (r : CompleteQueryResult)
      → Inv o s
      → loop fuel o read s ≡ some r
      → r.ending ≡ complete
      → Whole r.progress
  unfolding loop
  loop-complete zero s r v h e = absurd (cc h)
  loop-complete (suc fuel) s r v h e = by_verdict (round o read s) refl (loop-complete fuel)
    where
      by_verdict :
          (w : Verdict)
          → round o read s ≡ w
          → ((s' : Progress) (r : CompleteQueryResult)
              → Inv o s'
              → loop fuel o read s' ≡ some r
              → r.ending ≡ complete
              → Whole r.progress)
          → Whole r.progress
      by_verdict (stop s' failing) k ih =
          let ends : some (record { progress = s'; ending = failing }) ≡ some r =
            sym (loop-step fuel o read s (stop s' failing) k) ∙ h in
          subst (λ (x : CompleteQueryResult). Whole x.progress) (some_inj _ _ ends)
            (round-complete s s' v (
              k
              ∙ ap (stop s') (ap (λ (x : CompleteQueryResult). x.ending) (some_inj _ _ ends) ∙ e)))
      by_verdict (continue s') k ih =
          ih s' r (round-went_on s s' v k) (sym (loop-step fuel o read s (continue s') k) ∙ h) e

  -- When the paging reports that it is complete and the server answered from the positions that it
  -- was asked for, all pages have the query state of the first, none contradicts the total, the
  -- pages fill the positions from the start to the end without a gap, and the end is the total,
  -- the bound that was asked for, or, without any total, the end of a last page that is empty or has
  -- less entries than were asked for and than the limit that it names.
  pub page_complete_query-IsWhole :
      (fuel : ℕ) (r : CompleteQueryResult)
      → page_complete_query fuel o read ≡ paged r
      → r.ending ≡ complete
      → Inv o r.progress × IsWhole o read r.progress
  unfolding page_complete_query entries
  page_complete_query-IsWhole fuel r h e =
      loop-complete fuel (start o) r
        (record { states = tt; totals = tt; none_yet = λ _. refl; located = begun })
        (ground (arith, h)) e
    where
      begun : o.start_position ≡ o.start_position + entries []
      begun = omega arith
