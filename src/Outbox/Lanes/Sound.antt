-- ===== src/Outbox/Lanes/Sound.antt =====
-- The invariant of the promise chains, which the start and the end of a row keep.
use stormbox.Base.{
  ℕ, ◌<◌, ◌≤◌, String, true, not, ◌&&◌, List, [], ◌∷◌, Option, none, some, ◌≡◌, ◌⊎◌, inl, inr, sym,
  ◌∙◌, subst, arith, ◌==◌, nat_eq, string_eq, beq_true, Bool-cases, contains, find, if_split,
  and_true,
}
use stormbox.Outbox.Lanes.{ParsedSession, lane, Lane}
use stormbox.Outbox.Lanes.Chains.{
  Task, Dispatcher, idle, prev_settled, can_start, start, settle, lane_eq,
}

abbrev pub In : Task → List Task → Type 0
In t [] = ⊥
In t (u ∷ us) = (t ≡ u) ⊎ In t us

abbrev pub Has : List ℕ → ℕ → Type 0
Has ns n = contains ns n ≡ true

Has-cons : (m n : ℕ) (ns : List ℕ) → Has ns n → Has (m ∷ ns) n
Has-cons m n ns h = ground (arith, h)

Has-cases : (m n : ℕ) (ns : List ℕ) → Has (m ∷ ns) n → (n ≡ m) ⊎ Has ns n
Has-cases m n ns h = ground (arith, h)

pub find-In : (n : ℕ) (ts : List Task) (t : Task) → find (λ u. u.id == n) ts ≡ some t → In t ts
find-In n [] t h = absurd cc
find-In n (u ∷ us) t h = elim (Bool-cases (u.id == n)) [
  | inl e ↦ inl (ground (arith, e, h))
  | inr e ↦ inr (find-In n us t (ground (arith, e, h)))
]

module _ (parse : String → ParsedSession) where
  abbrev pub lane_of : Task → Lane
  lane_of t = lane parse t.row

  -- An earlier task of the lane, seen from the promise behind which a later one is chained.
  abbrev pub Chained : Dispatcher → Option ℕ → Task → Type 0
  Chained d none u = Has d.settled u.id
  Chained d (some p) u = u.id ≤ p

  -- The task behind which another is chained.
  abbrev pub Behind : Dispatcher → Task → Option ℕ → Type 0
  Behind d t none = Unit
  Behind d t (some p) =
      (v : Task) × In v d.tasks × (v.id ≡ p) × (lane_of v ≡ lane_of t) × (p < t.id)

  -- The lock of a lane: the last of its tasks, if not all of them have settled.
  abbrev pub Locked : Dispatcher → Lane → Option ℕ → Type 0
  Locked d k none = (u : Task) → In u d.tasks → lane_of u ≡ k → Has d.settled u.id
  Locked d k (some n) =
      (v : Task) × In v d.tasks
      × (v.id ≡ n)
      × (lane_of v ≡ k)
      × ((u : Task) → In u d.tasks → lane_of u ≡ k → u.id ≤ n)

  pub record Sound (d : Dispatcher) : Type 0 where
    pub fresh : (t : Task) → In t d.tasks → t.id < d.next
    pub unique : (t u : Task) → In t d.tasks → In u d.tasks → t.id ≡ u.id → t ≡ u
    pub known : (n : ℕ) → Has d.started n → n < d.next
    pub ran : (n : ℕ) → Has d.settled n → Has d.started n
    pub chained :
        (t u : Task)
        → In t d.tasks
        → In u d.tasks
        → lane_of t ≡ lane_of u
        → u.id < t.id
        → Chained d t.prev u
    pub behind : (t : Task) → In t d.tasks → Behind d t t.prev
    pub locked : (k : Lane) → Locked d k (d.locks k)
    pub order :
        (t u : Task)
        → In t d.tasks
        → In u d.tasks
        → lane_of t ≡ lane_of u
        → u.id < t.id
        → Has d.started t.id
        → Has d.settled u.id

  pub idle-Sound : Sound idle
  idle-Sound = record {
    fresh = λ t m. absurd m;
    unique = λ t u m n e. absurd m;
    known = λ n h. absurd (cc h);
    ran = λ n h. absurd (cc h);
    chained = λ t u m n e l. absurd m;
    behind = λ t m. absurd m;
    locked = λ k u m e. absurd m;
    order = λ t u m n e l h. absurd m;
  }

  -- The task behind which a task is chained has settled: so have all earlier tasks of its lane.
  pub ready-settled :
      (d : Dispatcher) (s : Sound d) (t u : Task)
      → In t d.tasks
      → In u d.tasks
      → lane_of t ≡ lane_of u
      → u.id < t.id
      → prev_settled t.prev d.settled ≡ true
      → Has d.settled u.id
  ready-settled d s t u m n e l h = by t.prev (s.chained t u m n e l) (s.behind t m) h
    where
      by :
          (p : Option ℕ)
          → Chained d p u
          → Behind d t p
          → prev_settled p d.settled ≡ true
          → Has d.settled u.id
      by none c b h = c
      by (some p) c (v, i, same, f, lt) h = elim (Bool-cases (u.id == p)) [
        | inl k ↦ subst (λ x. Has d.settled x) (sym (beq_true u.id p k)) h
        | inr k ↦
            s.order v u i n (f ∙ e) (ground (arith, k, c, same))
              (s.ran v.id (subst (λ x. Has d.settled x) (sym same) h))
      ]

  pub start-Sound : (d : Dispatcher) (t : Task) → Sound d → In t d.tasks → Sound (start (some t) d)
  unfolding start
  start-Sound d t s m =
      if_split (λ v. Sound v) (can_start d t) _ d
        (λ h. record {
          fresh = s.fresh;
          unique = s.unique;
          known = λ n k. elim (Has-cases t.id n d.started k) [
            | inl e ↦ subst (λ x. x < d.next) (sym e) (s.fresh t m)
            | inr j ↦ s.known n j
          ];
          ran = λ n k. Has-cons t.id n d.started (s.ran n k);
          chained = s.chained;
          behind = s.behind;
          locked = s.locked;
          order = λ a u i j e l k. elim (Has-cases t.id a.id d.started k) [
            | inl f ↦
                let same : a ≡ t = s.unique a t i m f in
                ready-settled d s a u i j e l (
                  subst (λ x. prev_settled x.prev d.settled ≡ true) (sym same)
                    (and_true (not (contains d.started t.id)) (prev_settled t.prev d.settled) h).1)
            | inr f ↦ s.order a u i j e l f
          ];
        })
        (λ h. s)

  pub settle-Sound : (d : Dispatcher) (n : ℕ) → Sound d → Sound (settle n d)
  unfolding settle
  settle-Sound d n s =
      if_split (λ v. Sound v) (contains d.started n && not (contains d.settled n)) _ d
        (λ h. record {
          fresh = s.fresh;
          unique = s.unique;
          known = s.known;
          ran = λ k j. elim (Has-cases n k d.settled j) [
            | inl e ↦
                subst (λ x. Has d.started x) (sym e)
                  (and_true (contains d.started n) (not (contains d.settled n)) h).0
            | inr i ↦ s.ran k i
          ];
          chained = λ t u i j e l. chains t.prev u (s.chained t u i j e l);
          behind = s.behind;
          locked = λ k. locks k (d.locks k) (s.locked k);
          order = λ t u i j e l k. Has-cons n u.id d.settled (s.order t u i j e l k);
        })
        (λ h. s)
    where
      after : Dispatcher
      after = record d { settled = n ∷ d.settled }

      chains : (p : Option ℕ) (u : Task) → Chained d p u → Chained after p u
      chains none u c = Has-cons n u.id d.settled c
      chains (some p) u c = c

      locks : (k : Lane) (o : Option ℕ) → Locked d k o → Locked after k o
      locks k none l = λ u i e. Has-cons n u.id d.settled (l u i e)
      locks k (some m) l = l
