-- ===== src/Send/Checkpoint/Laws.antt =====
-- Writing a checkpoint and reading it back.
use stormbox.Base.{
  String, false, List, [], ◌∷◌, ◌++◌, map, Option, none, some, ◌≡◌, refl, ◌≤◌, ◌+◌, Eq, string_eq,
  nat_eq, contains, length, length-append, All, All-append, arith, append_assoc, Bool-cases, inl,
  inr, beq_refl, sym, append-nil,
}
use stormbox.Base.Sets.{Distinct, Distinct-append, contains-append, eq_sym}
use stormbox.Send.Checkpoint.{
  SendCheckpoint, Item, text_item, other_item, Value, array, to_set_from, to_set, present_texts,
  draft_email_ids, well_formed_draft_email_ids, read_checkpoint, encode, decode, new_checkpoint,
  is_blank, read_mutation_checkpoint, pending_ids_of, text_of, ids_value, value_of,
}

-- What the strict reader accepts: no blank name, and none twice.
unfoldable pub AreDraftIds : List String → Type 0
AreDraftIds ids = All (λ id. is_blank id ≡ false) ids × Distinct ids

abbrev pub AreStorable : Option (List String) → Type 0
AreStorable none = Unit
AreStorable (some ids) = AreDraftIds ids

abbrev pub IsStorable : SendCheckpoint → Type 0
IsStorable c = AreStorable c.pending_draft_destroy_ids

present_texts-map :
    (ids : List String)
    → All (λ id. is_blank id ≡ false) ids
    → present_texts (map text_item ids) ≡ ids
unfolding present_texts
present_texts-map [] a = refl
present_texts-map (x ∷ xs) a = ground (arith, a.0, present_texts-map xs a.1)

present_texts-All : (items : List Item) → All (λ id. is_blank id ≡ false) (present_texts items)
unfolding present_texts
present_texts-All [] = tt
present_texts-All (text_item s ∷ xs) = ground (arith, present_texts-All xs)
present_texts-All (other_item ∷ xs) = present_texts-All xs

module _ {ℓ} {A : Type ℓ} ⦃e : Eq A⦄ where
  to_set_from-Distinct : (seen xs : List A) → Distinct seen → Distinct (to_set_from seen xs)
  unfolding to_set_from
  to_set_from-Distinct seen [] d = d
  to_set_from-Distinct seen (x ∷ xs) d = elim (Bool-cases (contains seen x)) [
    | inl h ↦ ground (arith, h, to_set_from-Distinct seen xs d)
    | inr h ↦
        ground (arith, h, to_set_from-Distinct (seen ++ x ∷ []) xs (Distinct-append seen x h d))
  ]

  to_set_from-All :
      (P : A → Type 0) (seen xs : List A) → All P seen → All P xs → All P (to_set_from seen xs)
  unfolding to_set_from
  to_set_from-All P seen [] a b = a
  to_set_from-All P seen (x ∷ xs) a b = ground (
    arith,
    to_set_from-All P seen xs a b.1,
    to_set_from-All P (seen ++ x ∷ []) xs (All-append P seen (x ∷ []) a (b.0, tt)) b.1,
  )

  to_set_from-length : (seen xs : List A) → length (to_set_from seen xs) ≤ length seen + length xs
  unfolding to_set_from
  to_set_from-length seen [] = omega arith
  to_set_from-length seen (x ∷ xs) = ground (
    arith,
    to_set_from-length seen xs,
    to_set_from-length (seen ++ x ∷ []) xs,
    length-append seen (x ∷ []),
  )

  -- No name of the second list stands in the first.
  abbrev Apart : List A → List A → Type 0
  Apart seen xs = All (λ x. contains seen x ≡ false) xs

  Apart-snoc :
      (seen : List A) (x : A) (xs : List A)
      → contains xs x ≡ false
      → Apart seen xs
      → Apart (seen ++ x ∷ []) xs
  Apart-snoc seen x [] h a = tt
  Apart-snoc seen x (y ∷ ys) h a =
      ground (arith, contains-append seen (x ∷ []) y, eq_sym x y, a.0, Apart-snoc seen x ys, a.1)

  to_set_from-Apart :
      (seen xs : List A) → Distinct xs → Apart seen xs → to_set_from seen xs ≡ seen ++ xs
  unfolding to_set_from
  to_set_from-Apart seen [] d a = sym (append-nil seen)
  to_set_from-Apart seen (x ∷ xs) d a = ground (
    arith,
    a.0,
    to_set_from-Apart (seen ++ x ∷ []) xs d.1 (Apart-snoc seen x xs d.0 a.1),
    append_assoc seen (x ∷ []) xs,
  )

  Apart-nil : (xs : List A) → Apart [] xs
  Apart-nil [] = tt
  Apart-nil (x ∷ xs) = (refl, Apart-nil xs)

  pub to_set-Distinct : (xs : List A) → Distinct (to_set xs)
  to_set-Distinct xs = to_set_from-Distinct [] xs tt

  pub to_set_id : (xs : List A) → Distinct xs → to_set xs ≡ xs
  to_set_id xs d = to_set_from-Apart [] xs d (Apart-nil xs)

length-map_text : (ids : List String) → length (map text_item ids) ≡ length ids
length-map_text [] = refl
length-map_text (x ∷ xs) = ground (arith, length-map_text xs)

draft_email_ids-map :
    (ids : List String) → AreDraftIds ids → draft_email_ids (array (map text_item ids)) ≡ some ids
unfolding draft_email_ids AreDraftIds
draft_email_ids-map ids (a, d) =
    rw (present_texts-map ids a, length-map_text ids, to_set_id ids d, beq_refl (length ids)) refl

-- A list of drafts that the lenient reader keeps is one that the strict reader accepts.
pub well_formed_draft_email_ids-AreDraftIds :
    (v : Value) → AreDraftIds (well_formed_draft_email_ids v)
unfolding well_formed_draft_email_ids AreDraftIds
well_formed_draft_email_ids-AreDraftIds (array items) = (
  to_set_from-All (λ id. is_blank id ≡ false) [] (present_texts items) tt (present_texts-All items),
  to_set-Distinct (present_texts items),
)
well_formed_draft_email_ids-AreDraftIds _ = (tt, tt)

text_of-value_of : (o : Option String) → text_of (value_of o) ≡ o
text_of-value_of none = refl
text_of-value_of (some x) = refl

pending_ids_of-ids_value :
    (o : Option (List String)) → AreStorable o → pending_ids_of (ids_value o) ≡ some o
pending_ids_of-ids_value none s = refl
pending_ids_of-ids_value (some ids) s = rw (pending_ids_of, draft_email_ids-map ids s) refl

-- A checkpoint whose drafts are named, each once, is read back from its column as it was written.
pub read_checkpoint-encode :
    (c : SendCheckpoint) → IsStorable c → read_checkpoint (encode c) ≡ some c
unfolding read_checkpoint encode read_mutation_checkpoint decode
read_checkpoint-encode c s =
    rw
      (
        read_checkpoint,
        encode,
        read_mutation_checkpoint,
        decode,
        pending_ids_of-ids_value c.pending_draft_destroy_ids s,
        text_of-value_of c.email_remote_id,
        text_of-value_of c.submission_remote_id,
      )
      refl

new_checkpoint-IsStorable : (op id : String) (v : Value) → IsStorable (new_checkpoint op id v)
unfolding new_checkpoint
new_checkpoint-IsStorable op id v = well_formed_draft_email_ids-AreDraftIds v

-- A new checkpoint is read back from its column, whatever list of drafts the request named, and
-- its drafts are named, each once.
pub read_checkpoint-new_checkpoint :
    (op id : String) (v : Value)
    → (read_checkpoint (encode (new_checkpoint op id v)) ≡ some (new_checkpoint op id v))
      × AreDraftIds (well_formed_draft_email_ids v)
read_checkpoint-new_checkpoint op id v = (
  read_checkpoint-encode (new_checkpoint op id v) (new_checkpoint-IsStorable op id v),
  well_formed_draft_email_ids-AreDraftIds v,
)
