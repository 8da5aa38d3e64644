-- ===== src/Send/Reconcile.antt =====
-- src/sync/backends/jmap/send-reconcile.ts and the normalizer of utils/message-id.ts: what the
-- server is asked after a response was lost.
pub mod Laws
pub mod Probe
use Prim.Native.String.{len, slice}
use stormbox.Base.{
  ℕ, ◌-◌, String, Bool, true, false, not, ◌&&◌, List, [], ◌∷◌, map, Option, none, some, ◌==◌,
  string_eq, contains, has, if◌then◌else◌, find, or_else,
}
use stormbox.Outbox.Errors.{JmapError}
use stormbox.Send.Program.{
  Reply, got, failed, SubmissionRecord, Placement, MessageIds, no_ids, one_id, many_ids, unreadable,
  ScannedEmail, Scan, Send, pure, ask, fetch_submission_records, get_placement, scan_mailbox,
  truthy,
}

-- `value.replace(/^<|>$/g, '')`.
unfoldable pub normalize_message_id : String → String
normalize_message_id value =
    let n = len value in
    let body = if slice value 0 1 == "<" then slice value 1 n else value in
    let m = len body in if slice body (m - 1) m == ">" then slice body 0 (m - 1) else body

pub normalize_message_ids : MessageIds → Option (List String)
normalize_message_ids no_ids = some []
normalize_message_ids (one_id s) = some (normalize_message_id s ∷ [])
normalize_message_ids (many_ids xs) = some (map normalize_message_id xs)
normalize_message_ids unreadable = none

pub data EmailProbe : Type 0 where
  probe_found : String → EmailProbe
  probe_absent : EmailProbe
  inconclusive : Option String → EmailProbe

-- The loop over the listed Emails.
abbrev pub of_match : Option String → EmailProbe
of_match none = probe_absent
of_match (some id) = probe_found id

pub match_emails : String → List ScannedEmail → EmailProbe
unfolding normalize_message_ids
match_emails wanted [] = probe_absent
match_emails wanted (email ∷ rest) =
    let later = match_emails wanted rest in
    elim (normalize_message_ids email.message_ids) [
      | none ↦ inconclusive (some "malformedResponse")
      | some ids ↦ if contains ids wanted then of_match (truthy email.id) else later
    ]

abbrev pub read_list : String → Option (List ScannedEmail) → EmailProbe
read_list wanted none = inconclusive (some "malformedResponse")
read_list wanted (some emails) = match_emails wanted emails

abbrev pub read_slots : String → Bool → Option (Option (List ScannedEmail)) → EmailProbe
read_slots wanted true (some l) = read_list wanted l
read_slots wanted _ _ = inconclusive (some "scanRejected")

abbrev pub read_scan : String → Reply Scan → EmailProbe
read_scan wanted (failed e) = inconclusive (or_else e.type (some "requestFailed"))
read_scan wanted (got scan) = read_slots wanted scan.has_query scan.got_list

abbrev pub probe_in : Option String → String → Send EmailProbe
probe_in none message_id = pure probe_absent
probe_in (some mailbox) message_id =
    if message_id == ""
    then pure probe_absent
    else ask (scan_mailbox mailbox) λ r. pure (read_scan (normalize_message_id message_id) r)

unfoldable pub find_email_by_message_id : Option String → String → Send EmailProbe
unfolding match_emails normalize_message_id
find_email_by_message_id mailbox_id message_id = probe_in (truthy mailbox_id) message_id

pub data SubmissionEvidence : Type 0 where
  proof_of_submission : Option String → SubmissionEvidence
  no_evidence : SubmissionEvidence

abbrev pub record_for : String → Reply (List SubmissionRecord) → Option SubmissionRecord
record_for id (failed e) = none
record_for id (got records) = find (λ r. r.email_id == id) records

abbrev pub placed : String → Reply (Option Placement) → SubmissionEvidence
placed sent (got (some p)) =
    if contains p.mailbox_ids sent && not p.is_draft then proof_of_submission none else no_evidence
placed sent _ = no_evidence

-- The second signal, where there is a Sent folder to look in.
abbrev pub by_placement : String → Option String → Send SubmissionEvidence
by_placement id none = pure no_evidence
by_placement id (some sent) = ask (get_placement id) λ r. pure (placed sent r)

abbrev pub by_record : String → Option String → Option SubmissionRecord → Send SubmissionEvidence
by_record id sent (some r) = pure (proof_of_submission (some r.id))
by_record id sent none = by_placement id sent

abbrev pub evidence_for : Option String → Option String → Send SubmissionEvidence
evidence_for none sent = pure no_evidence
evidence_for (some id) sent = ask fetch_submission_records λ r. by_record id sent (record_for id r)

unfoldable pub find_submission_evidence : Option String → Option String → Send SubmissionEvidence
find_submission_evidence email_remote_id sent_remote_id =
    evidence_for (truthy email_remote_id) (truthy sent_remote_id)
