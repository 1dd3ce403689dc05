-- ===== src/App/Relay.antt =====
-- internal/app/relay.go and `EnvelopeFromRecord` of envelope.go: the rows of the outbox that are
-- due are claimed, published and acknowledged. The claimer is the interface `OutboxClaimer` of
-- ports.go, over a store of any type; the bus is a parameter.
pub mod Delivery
pub mod Rows
use desafio_jungle_go.Prelude.{
  ℕ, suc, Bool, true, false, List, [], ◌∷◌, Option, none, some, Result, ok, err, if◌then◌else◌,
}
use desafio_jungle_go.Prelude.Int.{ℤ, pos}
use desafio_jungle_go.Prelude.Str.{Str, codes, is_empty}
use desafio_jungle_go.Prelude.Time.{Time, Duration, utc, add_duration}
use desafio_jungle_go.App.Ports.{AppError, OutboxRecord}
use desafio_jungle_go.App.Backoff.{backoff}

pub record Envelope : Type 0 where
  pub event_id : Str
  pub event_type : Str
  pub aggregate_id : Str
  pub correlation_id : Str
  pub causation_id : Str
  pub occurred_at : Time
  pub version : ℕ
  pub data_json : Str

-- `EnvelopeFromRecord`
abbrev pub envelope_from_record : OutboxRecord → Envelope
envelope_from_record rec = record {
  event_id = rec.event_id;
  event_type = rec.event_type;
  aggregate_id = rec.aggregate_id;
  correlation_id = rec.correlation_id;
  causation_id = rec.causation_id;
  occurred_at = utc rec.occurred_at;
  version = rec.event_version;
  data_json = if is_empty rec.payload then codes "{}" else rec.payload;
}

-- A call on a store, which may fail.
abbrev pub Call : Type 0 → Type 0 → Type 0
Call S A = S → Result AppError A × S

-- `OutboxClaimer`
pub record Claimer (S : Type 0) : Type 0 where
  pub claim : ℤ → Time → Duration → Call S (List OutboxRecord)
  pub mark_published : Str → Time → Call S (Unit {0})
  pub schedule_retry : Str → Time → Call S (Unit {0})

pub record Relay (S : Type 0) : Type 0 where
  pub claimer : Claimer S
  pub batch : ℤ
  pub lease : Duration
  pub backoff_max : Duration
  -- Whether the bus accepts an envelope, by the number of envelopes that it was given before.
  pub publish : ℕ → Envelope → Bool
  -- The hook `afterPub`, which is for tests: whether it returns no error.
  pub after_pub : Option (OutboxRecord → Bool)
  -- Whether the context has ended, by the same number.
  pub ended : ℕ → Bool

-- The store, the envelopes that the bus has accepted, and how many it was given.
pub record Line (S : Type 0) : Type 0 where
  pub store : S
  pub sent : List Envelope
  pub given : ℕ

pub record PublishResult : Type 0 where
  pub published : ℕ
  pub failed : ℕ
  pub skipped : ℕ

pub data RelayError : Type 0 where
  claim_failed : AppError → RelayError
  retry_failed ack_failed : Str → AppError → RelayError
  context_ended : RelayError

-- The result so far, with an error if there is one, as `PublishDue` returns it.
pub record Tick (S : Type 0) : Type 0 where
  pub result : PublishResult
  pub error : Option RelayError
  pub line : Line S

-- After `ScheduleRetry`.
abbrev pub retried :
    {S : Type 0} → OutboxRecord → PublishResult → Line S → Result AppError (Unit {0}) × S → Tick S
retried rec out l (ok _, s) = record {
  result = record out { failed = suc out.failed };
  error = none;
  line = record l { store = s };
}
retried rec out l (err e, s) = record {
  result = out;
  error = some (retry_failed rec.event_id e);
  line = record l { store = s };
}

-- After `MarkPublished`.
abbrev pub marked :
    {S : Type 0} → OutboxRecord → PublishResult → Line S → Result AppError (Unit {0}) × S → Tick S
marked rec out l (ok _, s) = record {
  result = record out { published = suc out.published };
  error = none;
  line = record l { store = s };
}
marked rec out l (err e, s) = record {
  result = out;
  error = some (ack_failed rec.event_id e);
  line = record l { store = s };
}

-- The loop goes on unless there was an error.
abbrev pub go_on : {S : Type 0} → (PublishResult → Line S → Tick S) → Tick S → Tick S
go_on next t = elim t.error [
  | none ↦ next t.result t.line
  | some e ↦ record { result = t.result; error = some e; line = t.line }
]

module _ {S : Type 0} (r : Relay S) (time : Time) where
  -- A send that failed: another attempt is scheduled.
  abbrev pub failed_send : OutboxRecord → PublishResult → Line S → Tick S
  failed_send rec out l = retried rec out l (
      r.claimer.schedule_retry rec.event_id
        (add_duration time (backoff (pos rec.attempts) r.backoff_max)) l.store)

  -- A send that succeeded is acknowledged.
  abbrev pub acknowledge : OutboxRecord → PublishResult → Line S → Tick S
  acknowledge rec out l = marked rec out l (r.claimer.mark_published rec.event_id time l.store)

  abbrev pub sent_row :
      OutboxRecord → PublishResult → Line S → Option (OutboxRecord → Bool) → Tick S
  sent_row rec out l none = acknowledge rec out l
  sent_row rec out l (some hook) =
      if hook rec
      then acknowledge rec out l
      else record { result = record out { skipped = suc out.skipped }; error = none; line = l }

  -- The body of the loop of `PublishDue`.
  abbrev pub publish_row : OutboxRecord → PublishResult → Line S → Tick S
  publish_row rec out l =
      let env = envelope_from_record rec in
      let l' = record l { given = suc l.given } in
      if r.ended l.given
      then record { result = out; error = some context_ended; line = l }
      else if r.publish l.given env
      then sent_row rec out (record l' { sent = env ∷ l.sent }) r.after_pub
      else failed_send rec out l'

  unfoldable pub publish_rows : List OutboxRecord → PublishResult → Line S → Tick S
  publish_rows [] out l = record { result = out; error = none; line = l }
  publish_rows (rec ∷ recs) out l = go_on (publish_rows recs) (publish_row rec out l)

abbrev pub no_results : PublishResult
no_results = record { published = 0; failed = 0; skipped = 0 }

abbrev pub publish_claimed :
    {S : Type 0} → Relay S → Time → Line S → Result AppError (List OutboxRecord) × S → Tick S
publish_claimed r time l (ok recs, s) = publish_rows r time recs no_results (record l { store = s })
publish_claimed r time l (err e, s) = record {
  result = no_results;
  error = some (claim_failed e);
  line = record l { store = s };
}

-- `PublishDue`, at a time of the clock.
unfoldable pub publish_due : {S : Type 0} → Relay S → Time → Line S → Tick S
publish_due r now l =
    publish_claimed r (utc now) l (r.claimer.claim r.batch (utc now) r.lease l.store)
