-- ===== src/App/Relay/Rows.antt =====
-- `OutboxClaimer` of internal/adapter/postgres/outbox.go: the rows of the table outbox_events, for
-- one relay at a time, so that no row is locked by another; without lost connections, so that no
-- call fails.
use desafio_jungle_go.Prelude.{
  ℕ, suc, ◌≡◌, refl, sym, ◌∙◌, Bool, true, false, not, ◌&&◌, ◌||◌, List, [], ◌∷◌, map, Option, none,
  some, Result, ok, ltb, leb, ◌==◌, ◌⊎◌, arith, if◌then◌else◌,
}
use desafio_jungle_go.Prelude.Int.{ℤ, pos, pos_part, ltb_ℤ}
use desafio_jungle_go.Prelude.Str.{Str, str_eq, str_eq_iff}
use desafio_jungle_go.Prelude.Time.{Time, Duration, add_duration}
use desafio_jungle_go.Prelude.Sorting.{str_leb, sort_by, take}
use desafio_jungle_go.App.Ports.{AppError, OutboxRecord, any, select}
use desafio_jungle_go.App.Relay.{Claimer}
use desafio_jungle_go.App.Relay.Delivery.{ClaimerLaws}

-- A row, with the columns that the domain does not see.
pub record Row : Type 0 where
  pub event : OutboxRecord
  pub next_attempt_at : Time
  pub published_at : Option Time

abbrev is_open : Option Time → Bool
is_open none = true
is_open (some t) = false

abbrev is_due : Time → Row → Bool
is_due now r = is_open r.published_at && leb r.next_attempt_at now

-- `ORDER BY next_attempt_at ASC, event_id ASC`
abbrev before : Row → Row → Bool
before r q =
    ltb r.next_attempt_at q.next_attempt_at
    || (r.next_attempt_at == q.next_attempt_at && str_leb r.event.event_id q.event.event_id)

-- The rows that a claim picks.
abbrev picked : ℕ → Time → List Row → List Row
picked limit now rows = take limit (sort_by before (select (is_due now) rows))

abbrev is_row : Str → Row → Bool
is_row id r = str_eq r.event.event_id id

-- The update of a claimed row.
abbrev claimed : Time → Row → Row
claimed until r = record r {
  event = record r.event { attempts = suc r.event.attempts };
  next_attempt_at = until;
}

unfoldable pub claim_rows : List Row → Time → List Row → List Row
claim_rows picks until [] = []
claim_rows picks until (r ∷ rs) =
    (if any (is_row r.event.event_id) picks then claimed until r else r) ∷ claim_rows picks until rs

-- `OutboxClaimer.Claim`; the rows are returned in the order of the claim, which SQL leaves open.
unfoldable pub claim :
    ℤ → Time → Duration → List Row → Result AppError (List OutboxRecord) × List Row
claim limit now lease rows =
    if not (ltb_ℤ (pos 0) limit)
    then (ok [], rows)
    else let picks = picked (pos_part limit) now rows in
      let until = add_duration now lease in
      (ok (map (λ r. (claimed until r).event) picks), claim_rows picks until rows)

-- An update of the rows of an event that is not published yet.
unfoldable pub update_open : (Row → Row) → Str → List Row → List Row
update_open f id [] = []
update_open f id (r ∷ rs) =
    (if is_row id r && is_open r.published_at then f r else r) ∷ update_open f id rs

-- `OutboxClaimer.MarkPublished`
unfoldable pub mark_published : Str → Time → List Row → Result AppError (Unit {0}) × List Row
mark_published event at rows =
    (ok tt, update_open (λ r. record r { published_at = some at }) event rows)

-- `OutboxClaimer.ScheduleRetry`
unfoldable pub schedule_retry : Str → Time → List Row → Result AppError (Unit {0}) × List Row
schedule_retry event next rows =
    (ok tt, update_open (λ r. record r { next_attempt_at = next }) event rows)

abbrev pub rows_claimer : Claimer (List Row)
rows_claimer = record {
  claim = claim;
  mark_published = mark_published;
  schedule_retry = schedule_retry;
}

abbrev has_published : Str → Row → Bool
has_published id r = is_row id r && not (is_open r.published_at)

pub claim_rows-published :
    (picks : List Row) (until : Time) (rows : List Row) (id : Str)
    → any (has_published id) (claim_rows picks until rows) ≡ any (has_published id) rows
unfolding claim_rows any
claim_rows-published picks until [] id = refl
claim_rows-published picks until (r ∷ rs) id =
    let k : any (has_published id) (claim_rows picks until rs) ≡ any (has_published id) rs =
      claim_rows-published picks until rs id in
    ground (arith, k)

pub claim-published :
    (limit : ℤ) (now : Time) (lease : Duration) (rows : List Row) (id : Str)
    → any (has_published id) (claim limit now lease rows).1 ≡ any (has_published id) rows
unfolding claim
claim-published limit now lease rows id = go (not (ltb_ℤ (pos 0) limit))
  where
    x : List Row
    x = claim_rows (picked (pos_part limit) now rows) (add_duration now lease) rows

    go :
        (b : Bool)
        → (let p : Result AppError (List OutboxRecord) × List Row = if b then (ok [], rows) else (
          ok (
              map
                (λ r. (claimed (add_duration now lease) r).event)
                (picked (pos_part limit) now rows)),
          x,
        ) in
            any (has_published id) p.1 ≡ any (has_published id) rows)
    go true = refl
    go false =
        claim_rows-published (picked (pos_part limit) now rows) (add_duration now lease) rows id

pub retry-published :
    (event : Str) (next : Time) (rows : List Row) (id : Str)
    → any (has_published id) (update_open (λ r. record r { next_attempt_at = next }) event rows)
      ≡ any (has_published id) rows
unfolding update_open any
retry-published event next [] id = refl
retry-published event next (r ∷ rs) id =
    let k : any (has_published id) (update_open (λ q. record q { next_attempt_at = next }) event rs)
        ≡ any (has_published id) rs =
      retry-published event next rs id in
    ground (arith, k)

pub mark-published :
    (event : Str) (at : Time) (rows : List Row) (id : Str)
    → any (has_published id) (update_open (λ r. record r { published_at = some at }) event rows)
      ≡ true
    → (str_eq event id ≡ true) ⊎ (any (has_published id) rows ≡ true)
unfolding update_open any
mark-published event at [] id h = ground (arith, h)
mark-published event at (r ∷ rs) id h =
    let k : any (has_published id) (update_open (λ q. record q { published_at = some at }) event rs)
          ≡ true
        → (str_eq event id ≡ true) ⊎ (any (has_published id) rs ≡ true) =
      mark-published event at rs id in
    ground (
      arith,
      k,
      h,
      str_eq_iff r.event.event_id event,
      str_eq_iff r.event.event_id id,
      str_eq_iff event id,
    )

-- The rows keep the laws of a claimer.
unfoldable pub rows_laws : ClaimerLaws rows_claimer
unfolding mark_published schedule_retry
rows_laws = record {
  is_published = λ id s. any (has_published id) s;
  claim_keeps = λ limit now lease s id h. sym (claim-published limit now lease s id) ∙ h;
  retry_keeps = λ event next s id h. sym (retry-published event next s id) ∙ h;
  mark_adds = λ event at s id h. mark-published event at s id h;
}
