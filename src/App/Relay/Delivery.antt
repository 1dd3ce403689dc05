-- ===== src/App/Relay/Delivery.antt =====
-- `PublishDue` of internal/app/relay.go over any store that keeps the laws of a claimer.
use desafio_jungle_go.Prelude.{
  ℕ, ◌+◌, ◌≡◌, refl, subst, ap, ◌∙◌, Bool, true, false, List, [], ◌∷◌, Option, none, some, Result,
  ok, err, suc, length, inl, inr, ◌⊎◌, arith, if◌then◌else◌,
}
use desafio_jungle_go.Prelude.Int.{ℤ, pos}
use desafio_jungle_go.Prelude.Str.{Str, str_eq, str_eq_iff}
use desafio_jungle_go.Prelude.Time.{Time, Duration, utc, add_duration}
use desafio_jungle_go.App.Ports.{AppError, OutboxRecord, any}
use desafio_jungle_go.App.Backoff.{backoff}
use desafio_jungle_go.App.Relay.{
  Envelope, envelope_from_record, Claimer, Relay, Line, PublishResult, RelayError, context_ended,
  retried, marked, Tick, failed_send, acknowledge, sent_row, publish_row, go_on, publish_rows,
  no_results, publish_claimed, publish_due,
}

-- What the relay relies on: only `MarkPublished` publishes, and only the event that it names.
pub record ClaimerLaws {S : Type 0} (c : Claimer S) : Type 0 where
  pub is_published : Str → S → Bool
  pub claim_keeps :
      (limit : ℤ) (now : Time) (lease : Duration) (s : S) (id : Str)
      → is_published id (c.claim limit now lease s).1 ≡ true
      → is_published id s ≡ true
  pub retry_keeps :
      (event : Str) (next : Time) (s : S) (id : Str)
      → is_published id (c.schedule_retry event next s).1 ≡ true
      → is_published id s ≡ true
  pub mark_adds :
      (event : Str) (at : Time) (s : S) (id : Str)
      → is_published id (c.mark_published event at s).1 ≡ true
      → (str_eq event id ≡ true) ⊎ (is_published id s ≡ true)

-- Every event that the store has as published has been accepted by the bus.
abbrev pub IsDelivered : {S : Type 0} {c : Claimer S} → ClaimerLaws c → Line S → Type 0
IsDelivered laws l =
    (id : Str) → laws.is_published id l.store ≡ true → any (λ e. str_eq e.event_id id) l.sent ≡ true

-- The rows that a result counts.
abbrev pub total : PublishResult → ℕ
total out = out.published + out.failed + out.skipped

-- The count of a loop that has not ended early.
abbrev Counts : {S : Type 0} → ℕ → Tick S → Type 0
Counts n t = t.error ≡ none → total t.result ≡ n

-- The ways that the loop goes on.
go_on-elim :
    {S : Type 0} (P : Tick S → Type 0) (next : PublishResult → Line S → Tick S) (t : Tick S)
    → (t.error ≡ none → P (next t.result t.line))
    → ((e : RelayError) → P (record { result = t.result; error = some e; line = t.line }))
    → P (go_on next t)
go_on-elim {S} P next t more end = go t.error refl
  where
    go :
        (o : Option RelayError)
        → t.error ≡ o
        → P (elim o [
          | none ↦ next t.result t.line
          | some e ↦ record { result = t.result; error = some e; line = t.line }
        ])
    go none e = more e
    go (some x) e = end x

-- The ways that the body of the loop goes.
publish_row-elim :
    {S : Type 0} (r : Relay S) (time : Time) (P : Tick S → Type 0) (rec : OutboxRecord)
    (out : PublishResult) (l : Line S)
    → (let x : Line S = record l { given = suc l.given } in
        let y : Line S = record x { sent = envelope_from_record rec ∷ l.sent } in
        P (record { result = out; error = some context_ended; line = l })
        → P (record { result = record out { skipped = suc out.skipped }; error = none; line = y })
        → P (acknowledge r time rec out y)
        → P (failed_send r time rec out x)
        → P (publish_row r time rec out l))
publish_row-elim {S} r time P rec out l end skip ack fail = ended (r.ended l.given)
  where
    x : Line S
    x = record l { given = suc l.given }

    y : Line S
    y = record x { sent = envelope_from_record rec ∷ l.sent }

    skipping :
        (b : Bool)
        → P (
            if b then acknowledge r time rec out y else record {
              result = record out { skipped = suc out.skipped };
              error = none;
              line = y;
            })
    skipping true = ack
    skipping false = skip

    hooked : (h : Option (OutboxRecord → Bool)) → P (sent_row r time rec out y h)
    hooked none = ack
    hooked (some hook) = skipping (hook rec)

    bus :
        (b : Bool)
        → P (if b then sent_row r time rec out y r.after_pub else failed_send r time rec out x)
    bus true = hooked r.after_pub
    bus false = fail

    ended :
        (b : Bool)
        → P (
            if b
            then record { result = out; error = some context_ended; line = l }
            else if r.publish l.given (envelope_from_record rec)
            then sent_row r time rec out y r.after_pub
            else failed_send r time rec out x)
    ended true = end
    ended false = bus (r.publish l.given (envelope_from_record rec))

module _ {S : Type 0} (r : Relay S) (time : Time) where
  retried-Counts :
      (rec : OutboxRecord) (out : PublishResult) (l : Line S) (p : Result AppError (Unit {0}) × S)
      → Counts (suc (total out)) (retried rec out l p)
  retried-Counts rec out l (ok u, s) e = ground arith
  retried-Counts rec out l (err x, s) e = ground (arith, e)

  marked-Counts :
      (rec : OutboxRecord) (out : PublishResult) (l : Line S) (p : Result AppError (Unit {0}) × S)
      → Counts (suc (total out)) (marked rec out l p)
  marked-Counts rec out l (ok u, s) e = ground arith
  marked-Counts rec out l (err x, s) e = ground (arith, e)

  publish_row-Counts :
      (rec : OutboxRecord) (out : PublishResult) (l : Line S)
      → Counts (suc (total out)) (publish_row r time rec out l)
  publish_row-Counts rec out l =
      let x : Line S = record l { given = suc l.given } in
      let y : Line S = record x { sent = envelope_from_record rec ∷ l.sent } in
      publish_row-elim r time (Counts (suc (total out))) rec out l (λ e. ground (arith, e))
        (λ e. ground arith)
        (marked-Counts rec out y (r.claimer.mark_published rec.event_id time l.store))
        (retried-Counts rec out x (
          r.claimer.schedule_retry rec.event_id
            (add_duration time (backoff (pos rec.attempts) r.backoff_max)) l.store))

  publish_rows-Counts :
      (recs : List OutboxRecord) (out : PublishResult) (l : Line S)
      → Counts (total out + length recs) (publish_rows r time recs out l)
  unfolding publish_rows
  publish_rows-Counts [] out l = λ e. ground arith
  publish_rows-Counts (rec ∷ recs) out l =
      let t : Tick S = publish_row r time rec out l in
      go_on-elim (Counts (total out + suc (length recs))) (publish_rows r time recs) t
        (λ k e.
          publish_rows-Counts recs t.result t.line e
          ∙ ap (λ n. n + length recs) (publish_row-Counts rec out l k)
          ∙ ground arith)
        (λ x e. ground (arith, e))

-- A tick of `PublishDue` that meets no error counts every row that was claimed once: as published,
-- failed or skipped.
pub publish_due-Counts :
    {S : Type 0} (r : Relay S) (now : Time) (l : Line S) (recs : List OutboxRecord)
    → (r.claimer.claim r.batch (utc now) r.lease l.store).0 ≡ ok recs
    → (publish_due r now l).error ≡ none
    → total (publish_due r now l).result ≡ length recs
unfolding publish_due
publish_due-Counts {S} r now l recs h = go (r.claimer.claim r.batch (utc now) r.lease l.store) h
  where
    go :
        (p : Result AppError (List OutboxRecord) × S)
        → p.0 ≡ ok recs
        → Counts (length recs) (publish_claimed r (utc now) l p)
    go (ok rs, s) k e =
        let same : rs ≡ recs = ground (arith, k) in
        let n : total (publish_rows r (utc now) rs no_results (record l { store = s })).result
            ≡ length rs =
          publish_rows-Counts r (utc now) rs no_results (record l { store = s }) e ∙ ground arith in
        n ∙ ap length same
    go (err x, s) k e = ground (arith, k)

any-more :
    (rec : OutboxRecord) (id : Str) (es : List Envelope)
    → any (λ e. str_eq e.event_id id) es ≡ true
    → any (λ e. str_eq e.event_id id) (envelope_from_record rec ∷ es) ≡ true
unfolding any
any-more rec id es h = ground (arith, h)

any-sent :
    (rec : OutboxRecord) (es : List Envelope)
    → any (λ e. str_eq e.event_id rec.event_id) (envelope_from_record rec ∷ es) ≡ true
unfolding any
any-sent rec es = ground (arith, str_eq_iff rec.event_id rec.event_id)

module _ {S : Type 0} (r : Relay S) (laws : ClaimerLaws r.claimer) (time : Time) where
  retried-IsDelivered :
      (rec : OutboxRecord) (out : PublishResult) (l : Line S) (p : Result AppError (Unit {0}) × S)
      → IsDelivered laws (record l { store = p.1 })
      → IsDelivered laws (retried rec out l p).line
  retried-IsDelivered rec out l (ok u, s) d = d
  retried-IsDelivered rec out l (err e, s) d = d

  marked-IsDelivered :
      (rec : OutboxRecord) (out : PublishResult) (l : Line S) (p : Result AppError (Unit {0}) × S)
      → IsDelivered laws (record l { store = p.1 })
      → IsDelivered laws (marked rec out l p).line
  marked-IsDelivered rec out l (ok u, s) d = d
  marked-IsDelivered rec out l (err e, s) d = d

  failed_send-IsDelivered :
      (rec : OutboxRecord) (out : PublishResult) (l : Line S)
      → IsDelivered laws l
      → IsDelivered laws (failed_send r time rec out l).line
  failed_send-IsDelivered rec out l d =
      retried-IsDelivered rec out l (r.claimer.schedule_retry rec.event_id _ l.store)
        (λ id h. d id (laws.retry_keeps rec.event_id _ l.store id h))

  acknowledge-IsDelivered :
      (rec : OutboxRecord) (out : PublishResult) (l : Line S)
      → IsDelivered laws l
      → any (λ e. str_eq e.event_id rec.event_id) l.sent ≡ true
      → IsDelivered laws (acknowledge r time rec out l).line
  acknowledge-IsDelivered rec out l d m =
      marked-IsDelivered rec out l (r.claimer.mark_published rec.event_id time l.store) (λ id h.
        elim (laws.mark_adds rec.event_id time l.store id h) [
          | inl e ↦
              subst (λ i. any (λ x. str_eq x.event_id i) l.sent ≡ true)
                ((str_eq_iff rec.event_id id).0 e) m
          | inr e ↦ d id e
        ])

  publish_row-IsDelivered :
      (rec : OutboxRecord) (out : PublishResult) (l : Line S)
      → IsDelivered laws l
      → IsDelivered laws (publish_row r time rec out l).line
  publish_row-IsDelivered rec out l d =
      let more : (id : Str)
          → laws.is_published id l.store ≡ true
          → any (λ e. str_eq e.event_id id) (envelope_from_record rec ∷ l.sent) ≡ true =
        λ id h. any-more rec id l.sent (d id h) in
      publish_row-elim r time (λ t. IsDelivered laws t.line) rec out l d more
        (acknowledge-IsDelivered rec out _ more (any-sent rec l.sent))
        (failed_send-IsDelivered rec out _ d)

  publish_rows-IsDelivered :
      (recs : List OutboxRecord) (out : PublishResult) (l : Line S)
      → IsDelivered laws l
      → IsDelivered laws (publish_rows r time recs out l).line
  unfolding publish_rows
  publish_rows-IsDelivered [] out l d = d
  publish_rows-IsDelivered (rec ∷ recs) out l d =
      let t : Tick S = publish_row r time rec out l in
      let k : IsDelivered laws t.line = publish_row-IsDelivered rec out l d in
      go_on-elim (λ u. IsDelivered laws u.line) (publish_rows r time recs) t
        (λ _. publish_rows-IsDelivered recs t.result t.line k) (λ _. k)

-- If every event that the store has as published has been accepted by the bus, then so it is after
-- a tick of `PublishDue`, whatever the bus, the hook, the context and the store do, as long as the
-- store keeps the laws of a claimer.
pub publish_due-IsDelivered :
    {S : Type 0} (r : Relay S) (laws : ClaimerLaws r.claimer) (now : Time) (l : Line S)
    → IsDelivered laws l
    → IsDelivered laws (publish_due r now l).line
unfolding publish_due
publish_due-IsDelivered {S} r laws now l d =
    go (r.claimer.claim r.batch (utc now) r.lease l.store)
      (λ id h. d id (laws.claim_keeps r.batch (utc now) r.lease l.store id h))
  where
    go :
        (p : Result AppError (List OutboxRecord) × S)
        → IsDelivered laws (record l { store = p.1 })
        → IsDelivered laws (publish_claimed r (utc now) l p).line
    go (ok recs, s) k =
        publish_rows-IsDelivered r laws (utc now) recs no_results (record l { store = s }) k
    go (err x, s) k = k
