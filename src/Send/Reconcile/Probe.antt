-- ===== src/Send/Reconcile/Probe.antt =====
-- What the scan for a Message-ID proves.
use stormbox.Base.{
  String, Bool, true, false, List, [], ◌∷◌, Option, none, some, string_eq, ◌≡◌, ◌⊎◌, inl, inr, refl,
  if◌then◌else◌, if_split, All, contains,
}
use stormbox.Send.Program.{Reply, got, failed, ScannedEmail, Scan, truthy}
use stormbox.Send.Reconcile.{
  EmailProbe, probe_found, probe_absent, inconclusive, normalize_message_ids, match_emails,
  of_match, read_scan, read_slots,
}

-- The entry is readable, and carries the Message-ID, or does not.
pub Carries : String → ScannedEmail → Type 0
Carries wanted email =
    (ids : List String) × (normalize_message_ids email.message_ids ≡ some ids)
    × (contains ids wanted ≡ true)

pub Lacks : String → ScannedEmail → Type 0
Lacks wanted email =
    (ids : List String) × (normalize_message_ids email.message_ids ≡ some ids)
    × (contains ids wanted ≡ false)

-- The first Email of a list that carries the Message-ID; those before it are readable.
pub data FirstCarrier (wanted : String) : List ScannedEmail → ScannedEmail → Type 0 where
  here :
      {email : ScannedEmail} {rest : List ScannedEmail}
      → Carries wanted email
      → FirstCarrier wanted (email ∷ rest) email
  later :
      {email found : ScannedEmail} {rest : List ScannedEmail}
      → Lacks wanted email
      → FirstCarrier wanted rest found
      → FirstCarrier wanted (email ∷ rest) found

-- What a probe says of the listed Emails: a found id is that of the first carrier; an absent one
-- means that all were readable and none carries the id, or that the first carrier has no id.
pub Tells : String → List ScannedEmail → EmailProbe → Type 0
Tells wanted emails (probe_found id) =
    (email : ScannedEmail) × FirstCarrier wanted emails email × (truthy email.id ≡ some id)
Tells wanted emails probe_absent =
    All (Lacks wanted) emails
    ⊎ ((email : ScannedEmail) × FirstCarrier wanted emails email × (truthy email.id ≡ none))
Tells wanted emails (inconclusive reason) = Unit

of_match-Tells :
    (wanted : String) (email : ScannedEmail) (rest : List ScannedEmail) (id : Option String)
    → truthy email.id ≡ id
    → Carries wanted email
    → Tells wanted (email ∷ rest) (of_match id)
unfolding Tells
of_match-Tells wanted email rest none h c = inr (email, here c, h)
of_match-Tells wanted email rest (some id) h c = (email, here c, h)

Tells-later :
    (wanted : String) (email : ScannedEmail) (rest : List ScannedEmail) (p : EmailProbe)
    → Lacks wanted email
    → Tells wanted rest p
    → Tells wanted (email ∷ rest) p
unfolding Tells
Tells-later wanted email rest (probe_found id) l (found, f, h) = (found, later l f, h)
Tells-later wanted email rest probe_absent l (inl a) = inl (l, a)
Tells-later wanted email rest probe_absent l (inr (found, f, h)) = inr (found, later l f, h)
Tells-later wanted email rest (inconclusive r) l t = tt

match_emails-Tells :
    (wanted : String) (emails : List ScannedEmail)
    → Tells wanted emails (match_emails wanted emails)
unfolding match_emails Tells Carries Lacks
match_emails-Tells wanted [] = inl tt
match_emails-Tells wanted (email ∷ rest) =
    entry (normalize_message_ids email.message_ids) refl (match_emails-Tells wanted rest)
  where
    entry :
        (o : Option (List String))
        → normalize_message_ids email.message_ids ≡ o
        → Tells wanted rest (match_emails wanted rest)
        → Tells wanted (email ∷ rest) (elim o [
          | none ↦ inconclusive (some "malformedResponse")
          | some ids ↦
              if contains ids wanted then of_match (truthy email.id) else match_emails wanted rest
        ])
    entry none h t = tt
    entry (some ids) h t =
        if_split (Tells wanted (email ∷ rest)) (contains ids wanted) (of_match (truthy email.id))
          (match_emails wanted rest)
          (λ c. of_match-Tells wanted email rest (truthy email.id) refl (ids, h, c))
          (λ c. Tells-later wanted email rest (match_emails wanted rest) (ids, h, c) t)

-- A scan gives an answer other than `inconclusive` only if both of its calls were answered with a
-- readable list; a found id is then that of the first listed Email that carries the Message-ID, and
-- an absent one means that every entry was readable and none carries it, or that the first that
-- does has no id.
pub read_scan-Tells :
    (wanted : String) (r : Reply Scan)
    → ((emails : List ScannedEmail) × (r
          ≡ got (record { has_query = true; got_list = some (some emails) }))
        × Tells wanted emails (read_scan wanted r))
      ⊎ ((reason : Option String) × (read_scan wanted r ≡ inconclusive reason))
read_scan-Tells wanted (failed e) = inr (_, refl)
read_scan-Tells wanted (got scan) = slots scan.has_query scan.got_list refl refl
  where
    slots :
        (q : Bool) (l : Option (Option (List ScannedEmail)))
        → scan.has_query ≡ q
        → scan.got_list ≡ l
        → ((emails : List ScannedEmail) × (◌≡◌ {A = Reply Scan}
              (got scan)
              (got (record { has_query = true; got_list = some (some emails) })))
            × Tells wanted emails (read_slots wanted q l))
          ⊎ ((reason : Option String) × (read_slots wanted q l ≡ inconclusive reason))
    slots false l hq hl = inr (_, refl)
    slots true none hq hl = inr (_, refl)
    slots true (some none) hq hl = inr (_, refl)
    slots true (some (some emails)) hq hl = inl (emails, cc, match_emails-Tells wanted emails)
