-- ===== src/Send/Drafts/Shrinks.antt =====
-- What an answer of the removal of drafts confirms of the drafts that are pending.
use stormbox.Base.{
  ℕ, zero, suc, ◌≤◌, ◌<◌, Bool, true, false, String, List, [], ◌∷◌, Option, none, some, ◌≡◌,
  if_intro, take, length, filter, delete_where, contains, string_eq, ◌==◌, arith, Bool-cases, inl,
  inr, beq_refl, beq_true, subst, sym, if◌then◌else◌,
}
use stormbox.Outbox.Errors.{JmapError}
use stormbox.Send.Drafts.{draft_cleanup_failed, unless_all}

-- An answer with no error confirms a draft that was pending.
unfoldable pub Shrinks : List String → List String → Option JmapError → Type 0
Shrinks pending [] none = ⊥
Shrinks pending [] (some e) = Unit
Shrinks pending (x ∷ xs) error = contains pending x ≡ true

delete_where-le : (p : String → Bool) (xs : List String) → length (delete_where p xs) ≤ length xs
delete_where-le p [] = omega arith
delete_where-le p (x ∷ xs) = ground (arith, delete_where-le p xs)

pub delete_where-lt :
    (p : String → Bool) (xs : List String) (a : String)
    → contains xs a ≡ true
    → p a ≡ true
    → length (delete_where p xs) < length xs
delete_where-lt p [] a h k = absurd cc
delete_where-lt p (x ∷ xs) a h k = elim (Bool-cases (x == a)) [
  | inl e ↦ ground (arith, delete_where-le p xs, subst (λ y. p y ≡ true) (sym (beq_true x a e)) k)
  | inr e ↦ ground (arith, e, h, delete_where-lt p xs a, k)
]

module _ (pending : List String) where
  -- Every name of the list is pending.
  unfoldable pub Pending : List String → Type 0
  Pending xs = (x : String) → contains xs x ≡ true → contains pending x ≡ true

  Pending-tail : (y : String) (ys : List String) → Pending (y ∷ ys) → Pending ys
  unfolding Pending
  Pending-tail y ys h x m = h x (ground (arith, m))

  filter-Shrinks :
      (gone : String → Bool) (e : JmapError) (ys : List String)
      → Pending ys
      → Shrinks pending (filter gone ys) (some e)
  unfolding Shrinks Pending
  filter-Shrinks gone e [] h = tt
  filter-Shrinks gone e (y ∷ ys) h =
      if_intro (λ xs. Shrinks pending xs (some e)) (gone y) (y ∷ filter gone ys) (filter gone ys)
        (h y (ground (arith, beq_refl y))) (filter-Shrinks gone e ys (Pending-tail y ys h))

  pub confirmed-Shrinks :
      (gone : String → Bool) (error : Option JmapError) (y : String) (ys : List String)
      → Pending (y ∷ ys)
      → Shrinks pending (filter gone (y ∷ ys)) (unless_all (delete_where gone (y ∷ ys)) error)
  unfolding Shrinks Pending
  confirmed-Shrinks gone error y ys h =
      by (gone y) (filter gone ys) (delete_where gone ys) (h y (ground (arith, beq_refl y)))
        (filter-Shrinks gone draft_cleanup_failed ys (Pending-tail y ys h))
    where
      by :
          (b : Bool) (kept left : List String)
          → contains pending y ≡ true
          → Shrinks pending kept (some draft_cleanup_failed)
          → Shrinks pending
              (if b then y ∷ kept else kept)
              (unless_all (if b then left else y ∷ left) error)
      by true kept left m s = m
      by false kept left m s = s

pub take-Pending :
    (limit : ℕ) (xs : List String) (a : String)
    → contains (take limit xs) a ≡ true
    → contains xs a ≡ true
take-Pending zero xs a h = absurd cc
take-Pending (suc n) [] a h = absurd cc
take-Pending (suc n) (x ∷ xs) a h = ground (arith, take-Pending n xs a, h)
