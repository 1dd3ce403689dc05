-- ===== src/App/Inbound.antt =====
-- internal/app/inbound.go: a message of the queue, with its inbox row in the same commit as the
-- operation. The observation of metrics around `HandleInbound` is left out.
pub mod Keeping
use desafio_jungle_go.Prelude.{
  Bool, true, false, not, ◌&&◌, ◌||◌, Option, none, some, Result, ok, err, length, ◌==◌,
  if◌then◌else◌,
}
use desafio_jungle_go.Prelude.Str.{Str, str_eq}
use desafio_jungle_go.Prelude.Time.{Time, utc}
use desafio_jungle_go.Domain.Errors.{Res, FailureCode, Sentinel, validation}
use desafio_jungle_go.Domain.Ledger.{is_blank}
use desafio_jungle_go.Domain.Canonical.{hash_canonical_payload}
use desafio_jungle_go.App.Ports.{
  AppError, conflict, inbox_hash_mismatch, rolled_back, Db, InboxRecord, get_inbox, insert_inbox,
}
use desafio_jungle_go.App.Tx.{
  Env, World, Tx, ◌>>=◌, ◌>>◌, pure, fail, require, domain, write, now, within,
}
use desafio_jungle_go.App.Lookup.{SubmitCommand, SubmitResult, canonical_from_submit, lookup}
use desafio_jungle_go.App.Submit.{submit_in_tx, recover_idempotent_insert, or_retry}

pub record InboundCommand : Type 0 where
  pub consumer_name : Str
  pub message_id : Str
  pub payload_hash : Str
  pub submit : SubmitCommand

invalid_identity : Res (Unit {0})
invalid_identity = err (validation FailureCode.missing_identity Sentinel.missing_identity)

-- `validateInbound`
unfoldable pub validate_inbound : InboundCommand → Res (Unit {0})
unfolding invalid_identity
validate_inbound cmd =
    if is_blank cmd.consumer_name || is_blank cmd.message_id
    then invalid_identity
    else if not (length cmd.payload_hash == 64)
    then invalid_identity
    else ok tt

abbrev pub inbox_record : InboundCommand → Time → InboxRecord
inbox_record cmd time = record {
  consumer_name = cmd.consumer_name;
  message_id = cmd.message_id;
  payload_hash = cmd.payload_hash;
  received_at = time;
  completed_at = time;
}

-- The row of the inbox that the message has already.
abbrev pub find_inbox : InboundCommand → Tx (Option InboxRecord)
find_inbox cmd = lookup (get_inbox cmd.consumer_name cmd.message_id)

abbrev pub same_body : InboundCommand → InboxRecord → Bool
same_body cmd existing = str_eq existing.payload_hash cmd.payload_hash

-- The inbox row is written in the unit of work of the operation.
abbrev pub complete : Env → InboundCommand → SubmitResult → Tx SubmitResult
complete env cmd r = do time ← now env; write (insert_inbox (inbox_record cmd (utc time))); pure r

-- `inboundInTx` by what the inbox has: a message that is known, with the body it had, is a replay.
abbrev pub inbound_with : Env → InboundCommand → Str → Option InboxRecord → Tx SubmitResult
inbound_with env cmd hash none = submit_in_tx env cmd.submit hash >>= complete env cmd
inbound_with env cmd hash (some existing) = do
  require (same_body cmd existing) inbox_hash_mismatch
  r ← submit_in_tx env cmd.submit hash
  pure (r.0, true)

-- `inboundInTx`
unfoldable pub inbound_in_tx : Env → InboundCommand → Tx SubmitResult
inbound_in_tx env cmd = do
  hash ← domain (hash_canonical_payload env.digest (canonical_from_submit cmd.submit))
  existing ← find_inbox cmd
  inbound_with env cmd hash existing

-- The end of a unit of work whose insert has met a conflict that the code lets pass: PostgreSQL
-- aborts a transaction at the first error, so that its commit rolls back and reports that.
abbrev pub or_rolled_back :
    {A : Type 0} → A → Result AppError (Unit {0}) × World → Result AppError A × World
or_rolled_back a (ok _, w) = (ok a, w)
or_rolled_back a (err conflict, w) = (err rolled_back, w)
or_rolled_back a (err e, w) = (err e, w)

abbrev pub complete_recovered : Env → InboundCommand → SubmitResult → Tx SubmitResult
complete_recovered env cmd r =
    now env >>= λ time. λ w. or_rolled_back r (write (insert_inbox (inbox_record cmd (utc time))) w)

-- The body of `recoverInbound` by what the inbox has.
abbrev pub recover_inbound_with : Env → InboundCommand → Option InboxRecord → Tx SubmitResult
recover_inbound_with env cmd none = do
  hash ← domain (hash_canonical_payload env.digest (canonical_from_submit cmd.submit))
  r ← recover_idempotent_insert cmd.submit hash
  complete_recovered env cmd r
recover_inbound_with env cmd (some existing) = do
  require (same_body cmd existing) inbox_hash_mismatch
  hash ← domain (hash_canonical_payload env.digest (canonical_from_submit cmd.submit))
  r ← recover_idempotent_insert cmd.submit hash
  pure (r.0, true)

-- The body of `recoverInbound`
unfoldable pub recover_inbound : Env → InboundCommand → Tx SubmitResult
recover_inbound env cmd = find_inbox cmd >>= recover_inbound_with env cmd

abbrev pub handle_valid : Env → InboundCommand → Tx SubmitResult
handle_valid env cmd w = or_retry (recover_inbound env cmd) (within (inbound_in_tx env cmd) w)

-- `HandleInbound`
unfoldable pub handle_inbound : Env → InboundCommand → Tx SubmitResult
handle_inbound env cmd = do domain (validate_inbound cmd); handle_valid env cmd
