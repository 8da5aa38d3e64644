-- ===== src/Outbox/Lanes/Dispatched.antt =====
-- A dispatch keeps the invariant of the promise chains.
use stormbox.Base.{
  ℕ, ◌+◌, ◌<◌, ◌≤◌, String, false, ◌∷◌, Option, none, some, ◌≡◌, inl, inr, refl, sym, ap, ◌∙◌,
  subst, arith, ◌==◌, nat_eq, string_eq, beq_refl, beq_true, if_split,
}
use stormbox.Outbox.Store.{Row}
use stormbox.Outbox.Lanes.{ParsedSession, lane, Lane}
use stormbox.Outbox.Lanes.Chains.{Task, Dispatcher, dispatch, lane_eq}
use stormbox.Outbox.Lanes.Sound.{In, Has, lane_of, Chained, Behind, Locked, Sound}

module _ (parse : String → ParsedSession) where
  module _ (d : Dispatcher) (r : Row) (s : Sound parse d) where
    task : Task
    task = record { id = d.next; row = r; prev = d.locks (lane parse r) }

    after : Dispatcher
    after = dispatch parse r d

    -- No task of before is as late as the new one.
    not_before : {A : Type 0} (t : Task) → In t d.tasks → d.next < t.id → A
    not_before t m h = absurd (omega (arith, s.fresh t m, h))

    new-Chained :
        (o : Option ℕ) (u : Task)
        → Locked parse d (lane parse r) o
        → In u d.tasks
        → lane parse r ≡ lane_of parse u
        → Chained parse after o u
    unfolding dispatch after
    new-Chained none u l m e = l u m (sym e)
    new-Chained (some n) u (v, i, same, f, last) m e = last u m (sym e)

    old-Chained : (o : Option ℕ) (u : Task) → Chained parse d o u → Chained parse after o u
    unfolding dispatch after
    old-Chained none u c = c
    old-Chained (some p) u c = c

    new-Behind : (o : Option ℕ) → Locked parse d (lane parse r) o → Behind parse after task o
    unfolding dispatch after task
    new-Behind none l = tt
    new-Behind (some n) (v, i, same, f, last) =
        (v, inr i, same, f, subst (λ x. x < d.next) same (s.fresh v i))

    old-Behind : (t : Task) (o : Option ℕ) → Behind parse d t o → Behind parse after t o
    unfolding dispatch after
    old-Behind t none b = tt
    old-Behind t (some p) (v, i, same, f, lt) = (v, inr i, same, f, lt)

    other : (k : Lane) → (k == lane parse r) ≡ false → k ≡ lane parse r → ⊥
    other k h e = cc (h, beq_refl (lane parse r), e)

    other_locked :
        (k : Lane) (o : Option ℕ)
        → (k == lane parse r) ≡ false
        → Locked parse d k o
        → Locked parse after k o
    unfolding dispatch after
    other_locked k none h l = λ u m e. elim m [
      | inl f ↦ absurd (other k h (sym e ∙ ap (λ x. lane_of parse x) f))
      | inr i ↦ l u i e
    ]
    other_locked k (some n) h (v, i, same, f, last) = (
      v,
      inr i,
      same,
      f,
      λ u m e. elim m [
        | inl g ↦ absurd (other k h (sym e ∙ ap (λ x. lane_of parse x) g))
        | inr j ↦ last u j e
      ],
    )

    at_most : (u : Task) → In u (task ∷ d.tasks) → u.id ≤ d.next
    unfolding task
    at_most u (inl f) = subst (λ x. x.id ≤ d.next) (sym f) (omega arith)
    at_most u (inr i) = omega (arith, s.fresh u i)

    own_locked : (k : Lane) → k ≡ lane parse r → Locked parse after k (some d.next)
    unfolding dispatch after task
    own_locked k e = (task, inl refl, refl, sym e, λ u m f. at_most u m)

    pub dispatch-Sound : Sound parse (dispatch parse r d)
    unfolding dispatch after task
    dispatch-Sound = record {
      fresh = λ t m. below t m;
      unique = λ t u m n e. same t u m n e;
      known = λ n h. omega (arith, s.known n h);
      ran = s.ran;
      chained = λ t u m n e l. chains t u m n e l;
      behind = λ t m. backs t m;
      locked = λ k.
          if_split (λ o. Locked parse after k o) (k == lane parse r) (some d.next) (d.locks k)
            (λ e. own_locked k (beq_true k (lane parse r) e))
            (λ e. other_locked k (d.locks k) e (s.locked k));
      order = λ t u m n e l h. orders t u m n e l h;
    }
      where
        below : (t : Task) → In t (task ∷ d.tasks) → t.id < d.next + 1
        below t m = omega (arith, at_most t m)

        same : (t u : Task) → In t (task ∷ d.tasks) → In u (task ∷ d.tasks) → t.id ≡ u.id → t ≡ u
        same t u (inl f) (inl g) e = f ∙ sym g
        same t u (inl f) (inr j) e =
            absurd (omega (arith, ap (λ (x : Task). x.id) f, e, s.fresh u j))
        same t u (inr i) (inl g) e =
            absurd (omega (arith, ap (λ (x : Task). x.id) g, e, s.fresh t i))
        same t u (inr i) (inr j) e = s.unique t u i j e

        chains :
            (t u : Task)
            → In t (task ∷ d.tasks)
            → In u (task ∷ d.tasks)
            → lane_of parse t ≡ lane_of parse u
            → u.id < t.id
            → Chained parse after t.prev u
        chains t u (inl f) (inl g) e l =
            absurd (omega (arith, ap (λ (x : Task). x.id) f, ap (λ (x : Task). x.id) g, l))
        chains t u (inl f) (inr j) e l =
            subst (λ (x : Task). Chained parse after x.prev u) (sym f)
              (new-Chained (d.locks (lane parse r)) u (s.locked (lane parse r)) j
                (sym (ap (λ x. lane_of parse x) f) ∙ e))
        chains t u (inr i) (inl g) e l = not_before t i (subst (λ (x : Task). x.id < t.id) g l)
        chains t u (inr i) (inr j) e l = old-Chained t.prev u (s.chained t u i j e l)

        backs : (t : Task) → In t (task ∷ d.tasks) → Behind parse after t t.prev
        backs t (inl f) =
            subst (λ (x : Task). Behind parse after x x.prev) (sym f)
              (new-Behind (d.locks (lane parse r)) (s.locked (lane parse r)))
        backs t (inr i) = old-Behind t t.prev (s.behind t i)

        orders :
            (t u : Task)
            → In t (task ∷ d.tasks)
            → In u (task ∷ d.tasks)
            → lane_of parse t ≡ lane_of parse u
            → u.id < t.id
            → Has d.started t.id
            → Has d.settled u.id
        orders t u (inl f) n e l h =
            absurd (omega (arith, ap (λ (x : Task). x.id) f, s.known t.id h))
        orders t u (inr i) (inl g) e l h = not_before t i (subst (λ (x : Task). x.id < t.id) g l)
        orders t u (inr i) (inr j) e l h = s.order t u i j e l h
