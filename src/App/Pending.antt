-- ===== src/App/Pending.antt =====
-- internal/app/pending.go: an operation that waits for its reference is applied again, until it is
-- settled, or is rejected after too many attempts or too much time.
pub mod Keeping
use desafio_jungle_go.Prelude.{
  Bool, true, false, not, ◌&&◌, ◌||◌, List, [], ◌∷◌, none, ok, err, if◌then◌else◌, ltb,
}
use desafio_jungle_go.Prelude.Int.{ℤ, pos, ltb_ℤ}
use desafio_jungle_go.Prelude.Str.{Str, str_eq}
use desafio_jungle_go.Prelude.Time.{Time, Duration, utc, add_duration}
use desafio_jungle_go.Domain.Errors.{Res, FailureCode}
use desafio_jungle_go.Domain.Types.{Status, status_eq, terminal}
use desafio_jungle_go.Domain.Wallet.{Wallet}
use desafio_jungle_go.Domain.Transaction.{WagerTransaction, mark_rejected}
use desafio_jungle_go.Domain.Event.{new_wager_transaction_rejected}
use desafio_jungle_go.Domain.Reference.{ApplyResult}
use desafio_jungle_go.App.Ports.{OutboxRecord, wallet_mismatch, get_wallet, get_transaction}
use desafio_jungle_go.App.Tx.{Env, Tx, ◌>>=◌, ◌>>◌, pure, fail, get, domain, now, within}
use desafio_jungle_go.App.Service.{records_from_events, persist_apply}
use desafio_jungle_go.App.Submit.{apply_in_tx}

pub record PendingWork : Type 0 where
  pub transaction_id : Str
  pub wallet_id : Str
  pub attempts : ℤ
  pub created_at : Time
  pub status : Status

pub record ResumeParams : Type 0 where
  pub batch : ℤ
  pub lease : Duration
  pub backoff_max : Duration
  pub max_attempts : ℤ
  pub ttl : Duration

pub data PendingOutcome : Type 0 where
  skipped waiting processed rejected : PendingOutcome

-- `pendingExhausted`
unfoldable pub pending_exhausted : PendingWork → WagerTransaction → Time → ResumeParams → Bool
pending_exhausted work op time p =
    if ltb_ℤ (pos 0) p.max_attempts && not (ltb_ℤ work.attempts p.max_attempts)
    then true
    else ltb_ℤ (pos 0) p.ttl && not (ltb time (add_duration (utc op.created_at) p.ttl))

-- The rejection of an operation that has waited too long, with the event that tells of it.
abbrev pub given_up : Time → Wallet → WagerTransaction → ApplyResult
given_up time wallet rej = record {
  wallet = wallet;
  operation = rej;
  ledger = none;
  events = new_wager_transaction_rejected rej time ∷ [];
}

abbrev pub given_up_with : Time → Wallet → Res WagerTransaction → Res ApplyResult
given_up_with time wallet (ok rej) = ok (given_up time wallet rej)
given_up_with time wallet (err e) = err e

abbrev pub expire : PendingWork → ResumeParams → Time → Wallet → ApplyResult → Res ApplyResult
expire work p time wallet applied =
    if status_eq applied.operation.status Status.pending_reference
      && pending_exhausted work applied.operation time p
    then given_up_with time wallet
        (mark_rejected applied.operation FailureCode.reference_not_found time)
    else ok applied

abbrev pub outcome_of : Status → PendingOutcome
outcome_of Status.pending_reference = PendingOutcome.waiting
outcome_of Status.rejected = PendingOutcome.rejected
outcome_of Status.processed = PendingOutcome.processed
outcome_of _ = PendingOutcome.skipped

-- The end of the body of `resumeOne`.
abbrev pub persist_resumed : Env → Wallet → ApplyResult → Tx PendingOutcome
persist_resumed env wallet applied = do
  recs ← records_from_events env applied.events applied.operation.id applied.operation.id
  persist_apply wallet applied recs true
  pure (outcome_of applied.operation.status)

abbrev pub resume_applied :
    Env → PendingWork → ResumeParams → Time → Wallet → ApplyResult → Tx PendingOutcome
resume_applied env work p time wallet applied =
    domain (expire work p time wallet applied) >>= persist_resumed env wallet

-- The body of `resumeOne` once the rows are loaded.
abbrev pub resume_loaded :
    Env → PendingWork → ResumeParams → Time → Wallet → WagerTransaction → Tx PendingOutcome
resume_loaded env work p time wallet op =
    if terminal op.status
      || (not (status_eq op.status Status.pending)
          && not (status_eq op.status Status.pending_reference))
    then pure PendingOutcome.skipped
    else if not (str_eq op.wallet_id work.wallet_id)
    then fail wallet_mismatch
    else (apply_in_tx env wallet op >>= resume_applied env work p time wallet)

abbrev pub resume_wallet : Env → PendingWork → ResumeParams → Time → Wallet → Tx PendingOutcome
resume_wallet env work p time wallet =
    get (get_transaction work.transaction_id) >>= resume_loaded env work p time wallet

abbrev pub resume_at : Env → PendingWork → ResumeParams → Time → Tx PendingOutcome
resume_at env work p time = get (get_wallet work.wallet_id) >>= resume_wallet env work p time

abbrev pub resume_in_tx : Env → PendingWork → ResumeParams → Tx PendingOutcome
resume_in_tx env work p = now env >>= resume_at env work p

-- `resumeOne`
unfoldable pub resume_one : Env → PendingWork → ResumeParams → Tx PendingOutcome
resume_one env work p = within (resume_in_tx env work p)
