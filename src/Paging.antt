-- ===== src/Paging.antt =====
-- src/sync/backends/jmap/query-paging.ts: reading a whole JMAP query result page by page.
-- The server is an argument, a function of the cursor: no two reads have the same cursor, so the
-- function may answer each read as it likes. Infinity as a bound is `none`.
pub mod Laws
pub mod Contents
use stormbox.Base.{
  ℕ, zero, suc, ◌+◌, ◌-◌, min, String, Bool, true, false, not, ◌&&◌, ◌||◌, List, [], ◌∷◌, ◌++◌,
  Option, none, some, ◌==◌, nat_eq, string_eq, leb, ltb, if◌then◌else◌, length,
}

-- `position` and `limit` are `none` where the source falls back: null, or no safe integer of the
-- range that it accepts.
pub record CompleteQueryPage : Type 0 where
  pub ids : List String
  pub query_state : Option String
  pub total : Option ℕ
  pub position : Option ℕ
  pub limit : Option ℕ

pub record CompleteQueryCursor : Type 0 where
  pub page : ℕ
  pub position : ℕ
  pub limit : ℕ

pub data FailureReason : Type 0 where
  query_state_changed query_state_missing query_total_changed cursor_stalled : FailureReason
  position_past_total truncated page_limit_reached : FailureReason

pub data Ending : Type 0 where
  complete : Ending
  failed : FailureReason → Ending

pub record Options : Type 0 where
  pub page_size : ℕ
  pub start_position : ℕ
  pub max_position : Option ℕ
  pub max_pages : Option ℕ
  pub allow_missing_query_state : Bool

-- The variables of the loop. `first_query_state` is `none` before the first page. `visited` logs
-- the calls of `visitPage`.
pub record Progress : Type 0 where
  pub pages : ℕ
  pub position : ℕ
  pub first_query_state : Option (Option String)
  pub total : Option ℕ
  pub stable_query_state : Bool
  pub visited : List CompleteQueryPage

abbrev pub start : Options → Progress
start o = record {
  pages = 0;
  position = o.start_position;
  first_query_state = none;
  total = none;
  stable_query_state = true;
  visited = [];
}

-- `a >= bound` where the bound may be infinite.
abbrev pub reaches : ℕ → Option ℕ → Bool
reaches a none = false
reaches a (some bound) = leb bound a

abbrev pub page_limit : ℕ → ℕ → Option ℕ → ℕ
page_limit page_size position none = page_size
page_limit page_size position (some bound) = min page_size (bound - position)

abbrev pub cursor_of : Options → Progress → CompleteQueryCursor
cursor_of o s = record {
  page = s.pages;
  position = s.position;
  limit = page_limit o.page_size s.position o.max_position;
}

abbrev pub same_text : Option String → Option String → Bool
same_text none none = true
same_text (some a) (some b) = a == b
same_text _ _ = false

-- `page.queryState !== firstQueryState`, which is false on the first page.
abbrev pub state_changed : Option (Option String) → Option String → Bool
state_changed none q = false
state_changed (some first) q = not (same_text q first)

abbrev pub first_state : Option (Option String) → Option String → Option (Option String)
first_state none q = some q
first_state (some first) q = some first

abbrev pub total_changed : Option ℕ → Option ℕ → Bool
total_changed (some t) (some p) = not (p == t)
total_changed _ _ = false

abbrev pub first_total : Option ℕ → Option ℕ → Option ℕ
first_total none p = p
first_total (some t) p = some t

abbrev past_total : ℕ → Option ℕ → Bool
past_total n none = false
past_total n (some t) = ltb t n

abbrev at_total : ℕ → Option ℕ → Bool
at_total n none = false
at_total n (some t) = n == t

abbrev is_none {ℓ} : {A : Type ℓ} → Option A → Bool
is_none none = true
is_none (some x) = false

abbrev pub page_start : CompleteQueryCursor → CompleteQueryPage → ℕ
page_start c page = elim page.position [ none ↦ c.position | some p ↦ p ]

-- `Number(page.limit) > 0` is the test of the source for a usable limit.
abbrev pub served_limit : CompleteQueryCursor → CompleteQueryPage → ℕ
served_limit c page = elim page.limit [
  | none ↦ c.limit
  | some l ↦ if ltb 0 l then min c.limit l else c.limit
]

-- No state was given by the first page: `firstQueryState == null`.
abbrev state_missing : Option (Option String) → Bool
state_missing (some (some q)) = false
state_missing _ = true

pub data Verdict : Type 0 where
  stop : Progress → Ending → Verdict
  continue : Progress → Verdict

-- The tests that follow the call of `visitPage`.
unfoldable pub after_visit : Options → CompleteQueryCursor → CompleteQueryPage → Progress → Verdict
after_visit o c page s =
    let next = page_start c page + length page.ids in
    let moved = record s { position = next } in
    let unstable = record moved { stable_query_state = false } in
    if past_total next s.total
    then stop s (failed position_past_total)
    else if reaches next o.max_position || at_total next s.total
    then stop moved complete
    else if leb (length page.ids) 0
    then if is_none s.total then stop moved complete else stop moved (failed truncated)
    else if is_none s.total && ltb (length page.ids) (served_limit c page)
    then stop moved complete
    else if leb next c.position
    then stop moved (failed cursor_stalled)
    else if state_missing s.first_query_state
    then if o.allow_missing_query_state
      then continue unstable
      else stop unstable (failed query_state_missing)
    else continue moved

-- The variables once the page is counted, and once `visitPage` has it.
abbrev counted : Progress → CompleteQueryPage → Progress
counted s page = record s {
  pages = s.pages + 1;
  first_query_state = first_state s.first_query_state page.query_state;
}

abbrev pub visited_page : Progress → CompleteQueryPage → Progress
visited_page s page = record s {
  pages = s.pages + 1;
  first_query_state = first_state s.first_query_state page.query_state;
  total = first_total s.total page.total;
  visited = s.visited ++ page ∷ [];
}

-- One round of the loop, from the page that was read on.
unfoldable pub take_page : Options → CompleteQueryCursor → CompleteQueryPage → Progress → Verdict
take_page o c page s =
    if state_changed s.first_query_state page.query_state
    then stop (counted s page) (failed query_state_changed)
    else if total_changed s.total page.total
    then stop (counted s page) (failed query_total_changed)
    else after_visit o c page (visited_page s page)

pub record CompleteQueryResult : Type 0 where
  pub progress : Progress
  pub open progress use *
  pub ending : Ending

unfoldable pub round : Options → (CompleteQueryCursor → CompleteQueryPage) → Progress → Verdict
round o read s =
    if reaches s.position o.max_position
    then stop s complete
    else if reaches s.pages o.max_pages
    then stop s (failed page_limit_reached)
    else take_page o (cursor_of o s) (read (cursor_of o s)) s

unfoldable pub loop :
    ℕ → Options → (CompleteQueryCursor → CompleteQueryPage) → Progress → Option CompleteQueryResult
loop zero o read s = none
loop (suc fuel) o read s = elim (round o read s) [
  | stop s' e ↦ some (record { progress = s'; ending = e })
  | continue s' ↦ loop fuel o read s'
]

pub data QueryError : Type 0 where
  range_error out_of_fuel : QueryError

pub data Paged : Type 0 where
  paged : CompleteQueryResult → Paged
  raised : QueryError → Paged

abbrev paged_or : Option CompleteQueryResult → Paged
paged_or none = raised out_of_fuel
paged_or (some r) = paged r

-- `startPosition` is a natural number here, so its guard always passes.
unfoldable pub page_complete_query : ℕ → Options → (CompleteQueryCursor → CompleteQueryPage) → Paged
page_complete_query fuel o read =
    let result = loop fuel o read (start o) in
    if ltb o.page_size 1 then raised range_error else paged_or result
