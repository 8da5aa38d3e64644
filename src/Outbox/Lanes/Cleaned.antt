-- ===== src/Outbox/Lanes/Cleaned.antt =====
-- The cleanup of the lock map keeps the invariant of the promise chains.
use stormbox.Base.{
  ℕ, String, true, not, ◌&&◌, List, ◌∷◌, Option, none, some, ◌≡◌, inl, inr, sym, ◌∙◌, subst, arith,
  ◌==◌, nat_eq, string_eq, beq_true, Bool-cases, contains, if_split, and_true,
}
use stormbox.Outbox.Lanes.{ParsedSession, Lane}
use stormbox.Outbox.Lanes.Chains.{Task, Locks, Dispatcher, set_lock, holds, clean, lane_eq}
use stormbox.Outbox.Lanes.Sound.{Has, lane_of, Chained, Behind, Locked, Sound}

module _ (parse : String → ParsedSession) where
  -- The lock of a lane may go once its last task has settled.
  unlock-Locked :
      (d : Dispatcher) (s : Sound parse d) (t : Task) (k : Lane) (o : Option ℕ)
      → Locked parse d k o
      → holds o t.id ≡ true
      → Has d.settled t.id
      → Locked parse d k none
  unlock-Locked d s t k none l h done = absurd cc
  unlock-Locked d s t k (some m) (v, i, same, f, last) h done = λ u j e.
      let at : v.id ≡ t.id = same ∙ beq_true m t.id h in
      elim (Bool-cases (u.id == v.id)) [
        | inl x ↦ subst (λ y. Has d.settled y) (sym (beq_true u.id v.id x ∙ at)) done
        | inr x ↦
            s.order v u i j (f ∙ sym e) (ground (arith, x, same, last u j e))
              (s.ran v.id (subst (λ y. Has d.settled y) (sym at) done))
      ]

  -- Only the lock map changes.
  relock-Sound :
      (d : Dispatcher) (locks : Locks) (cleaned : List ℕ)
      → Sound parse d
      → ((k : Lane) → Locked parse d k (locks k))
      → Sound parse (record d { locks = locks; cleaned = cleaned })
  relock-Sound d locks cleaned s l = record {
    fresh = s.fresh;
    unique = s.unique;
    known = s.known;
    ran = s.ran;
    chained = λ t u i j e lt. chains t.prev u (s.chained t u i j e lt);
    behind = λ t i. backs t t.prev (s.behind t i);
    locked = λ k. same k (locks k) (l k);
    order = s.order;
  }
    where
      after : Dispatcher
      after = record d { locks = locks; cleaned = cleaned }

      chains : (p : Option ℕ) (u : Task) → Chained parse d p u → Chained parse after p u
      chains none u c = c
      chains (some p) u c = c

      backs : (t : Task) (p : Option ℕ) → Behind parse d t p → Behind parse after t p
      backs t none c = c
      backs t (some p) c = c

      same : (k : Lane) (o : Option ℕ) → Locked parse d k o → Locked parse after k o
      same k none c = c
      same k (some m) c = c

  pub clean-Sound :
      (d : Dispatcher) (t : Task) → Sound parse d → Sound parse (clean parse (some t) d)
  unfolding clean
  clean-Sound d t s =
      if_split (λ v. Sound parse v) (contains d.settled t.id && not (contains d.cleaned t.id)) _ d
        (λ h.
          if_split (λ v. Sound parse v) (holds (d.locks (lane_of parse t)) t.id) _ _
            (λ k. relock-Sound d _ (t.id ∷ d.cleaned) s (unlocks k (and_true _ _ h).0))
            (λ k. relock-Sound d d.locks (t.id ∷ d.cleaned) s s.locked))
        (λ h. s)
    where
      unlocks :
          holds (d.locks (lane_of parse t)) t.id ≡ true
          → Has d.settled t.id
          → (k : Lane) → Locked parse d k (set_lock (lane_of parse t) none d.locks k)
      unlocks h done k =
          if_split (λ o. Locked parse d k o) (k == lane_of parse t) none (d.locks k)
            (λ e.
              unlock-Locked d s t k (d.locks k) (s.locked k)
                (subst (λ x. holds (d.locks x) t.id ≡ true) (sym (beq_true k (lane_of parse t) e))
                  h)
                done)
            (λ e. s.locked k)
