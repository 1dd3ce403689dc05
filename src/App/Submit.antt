-- ===== src/App/Submit.antt =====
-- internal/app/submit.go: an operation of a provider, applied at most once. The observation of
-- metrics around `Submit` is left out.
pub mod Applying
pub mod Storing
pub mod Checking
pub mod Replay
pub mod Again
pub mod Conflict
use desafio_jungle_go.App.Lookup.{
  SubmitCommand, SubmitResult, canonical_from_submit, check_external, check_key, find_by_key,
  find_replay, lookup, or_by_external_id, or_missing,
}
use desafio_jungle_go.Prelude.{
  Bool, true, false, not, List, [], Option, none, some, Result, ok, err, if◌then◌else◌,
}
use desafio_jungle_go.Prelude.Str.{Str, str_eq, is_empty}
use desafio_jungle_go.Prelude.Time.{Time}
use desafio_jungle_go.Domain.Errors.{FailureCode, Sentinel, validation}
use desafio_jungle_go.Domain.Types.{Kind, kind_str}
use desafio_jungle_go.Domain.Money.{Money}
use desafio_jungle_go.Domain.Wallet.{Wallet}
use desafio_jungle_go.Domain.Transaction.{
  WagerTransaction, ExternalTxParams, new_external_transaction,
}
use desafio_jungle_go.Domain.Reference.{ApplyInput, ApplyResult}
use desafio_jungle_go.Domain.Apply.{apply}
use desafio_jungle_go.Domain.Idempotency.{check_idempotency_replay, check_external_identity}
use desafio_jungle_go.Domain.Canonical.{CanonicalPayload, hash_canonical_payload}
use desafio_jungle_go.App.Identity.{Actor, authorize_submit}
use desafio_jungle_go.App.Ports.{
  AppError, not_found, conflict, forbidden, of_domain, Db, get_wallet, get_by_external_id,
  get_by_key, list_processed_reversals,
}
use desafio_jungle_go.App.Tx.{
  Env, World, Tx, ◌>>=◌, ◌>>◌, pure, fail, require, domain, read, get, new_id, now, within,
}
use desafio_jungle_go.App.Service.{records_from_events, persist_apply}

-- The reference that an operation names, if there is one.
abbrev pub find_reference : WagerTransaction → Tx (Option WagerTransaction)
find_reference op =
    if is_empty op.reference_external_id
    then pure none
    else lookup (get_by_external_id op.provider_id op.reference_external_id)

-- What has reversed a reference.
abbrev pub reversals_of : Option WagerTransaction → Tx (List WagerTransaction)
reversals_of none = pure []
reversals_of (some ref) = read (list_processed_reversals ref.id)

abbrev pub input_of :
    Wallet
    → WagerTransaction
    → Option WagerTransaction
    → List WagerTransaction
    → Str
    → Time
    → ApplyInput
input_of wallet op ref reversals ledger_id time = record {
  wallet = some wallet;
  operation = op;
  reference = ref;
  reference_looked_up = not (is_empty op.reference_external_id);
  processed_reversals = reversals;
  ledger_id = ledger_id;
  now = time;
}

-- `applyInTx` once the reversals are listed.
abbrev pub apply_listed :
    Env
    → Wallet
    → WagerTransaction
    → Option WagerTransaction
    → List WagerTransaction
    → Tx ApplyResult
apply_listed env wallet op ref reversals = do
  ledger_id ← new_id env
  time ← now env
  domain (apply (input_of wallet op ref reversals ledger_id time))

-- `applyInTx` once the reference is looked up.
abbrev pub apply_found : Env → Wallet → WagerTransaction → Option WagerTransaction → Tx ApplyResult
apply_found env wallet op ref = reversals_of ref >>= apply_listed env wallet op ref

-- `applyInTx`
unfoldable pub apply_in_tx : Env → Wallet → WagerTransaction → Tx ApplyResult
apply_in_tx env wallet op = find_reference op >>= apply_found env wallet op

abbrev pub params_of : SubmitCommand → Str → Str → ExternalTxParams
params_of cmd hash id = record {
  id = id;
  provider_id = cmd.provider_id;
  external_id = cmd.external_id;
  idempotency_key = cmd.idempotency_key;
  payload_hash = hash;
  wallet_id = cmd.wallet_id;
  player_id = cmd.player_id;
  round_id = cmd.round_id;
  game_id = cmd.game_id;
  kind = kind_str cmd.kind;
  money = cmd.money;
  reference_external_id = cmd.reference_external_id;
  now = 0;
}

-- The end of `submitInTx`: what was applied is persisted.
abbrev pub persist_applied : Env → SubmitCommand → Wallet → ApplyResult → Tx WagerTransaction
persist_applied env cmd wallet applied = do
  recs ← records_from_events env applied.events cmd.correlation_id applied.operation.id
  persist_apply wallet applied recs false
  pure applied.operation

-- The operation is applied and persisted.
abbrev pub apply_new : Env → SubmitCommand → Wallet → WagerTransaction → Tx WagerTransaction
apply_new env cmd wallet op = apply_in_tx env wallet op >>= persist_applied env cmd wallet

-- The operation is made.
abbrev pub make_new : Env → SubmitCommand → Str → Wallet → Tx WagerTransaction
make_new env cmd hash wallet = do
  time ← now env
  id ← new_id env
  op ← domain (new_external_transaction (record (params_of cmd hash id) { now = time }))
  apply_new env cmd wallet op

-- The part of `submitInTx` after the checks.
unfoldable pub first_submit : Env → SubmitCommand → Str → Wallet → Tx SubmitResult
first_submit env cmd hash wallet = do
  require (str_eq wallet.player_id cmd.player_id)
      (of_domain (validation FailureCode.missing_identity Sentinel.missing_identity))
  t ← make_new env cmd hash wallet
  pure (t, false)

-- The result of a replay, or what is done when there is nothing to replay.
abbrev pub replay_or : Tx SubmitResult → Option WagerTransaction → Tx SubmitResult
replay_or next (some t) = pure (t, true)
replay_or next none = next

-- `submitInTx` once the wallet is locked.
abbrev pub submit_locked : Env → SubmitCommand → Str → Wallet → Tx SubmitResult
submit_locked env cmd hash wallet =
    find_replay cmd hash >>= replay_or (first_submit env cmd hash wallet)

-- `submitInTx`
unfoldable pub submit_in_tx : Env → SubmitCommand → Str → Tx SubmitResult
submit_in_tx env cmd hash =
    find_replay cmd hash
    >>= replay_or (get (get_wallet cmd.wallet_id) >>= submit_locked env cmd hash)

-- `recoverIdempotentInsert` when the key is not found: the lookup by the external identifier.
abbrev pub recover_external : SubmitCommand → Result AppError WagerTransaction → Tx SubmitResult
recover_external cmd (err e) = fail conflict
recover_external cmd (ok t) = do
  domain (check_external_identity t.idempotency_key cmd.idempotency_key)
  pure (t, true)

abbrev pub recover_with : SubmitCommand → Str → Option WagerTransaction → Tx SubmitResult
recover_with cmd hash (some t) = do
  replay ←
      domain (check_idempotency_replay t.idempotency_key t.payload_hash cmd.idempotency_key hash)
  pure (t, replay)
recover_with cmd hash none =
    read (get_by_external_id cmd.provider_id cmd.external_id) >>= recover_external cmd

-- `recoverIdempotentInsert`
unfoldable pub recover_idempotent_insert : SubmitCommand → Str → Tx SubmitResult
recover_idempotent_insert cmd hash =
    lookup (get_by_key cmd.provider_id cmd.idempotency_key) >>= recover_with cmd hash

-- After a conflict another unit of work is tried in place of the one that failed.
abbrev pub or_retry : {A : Type 0} → Tx A → Result AppError A × World → Result AppError A × World
or_retry fresh (ok a, w) = (ok a, w)
or_retry fresh (err conflict, w) = within fresh w
or_retry fresh (err e, w) = (err e, w)

abbrev pub submit_hashed : Env → SubmitCommand → Str → Tx SubmitResult
submit_hashed env cmd hash w =
    or_retry (recover_idempotent_insert cmd hash) (within (submit_in_tx env cmd hash) w)

-- `Submit`, with `loadReplay` after a conflict.
unfoldable pub submit : Env → SubmitCommand → Tx SubmitResult
submit env cmd = do
  require (authorize_submit cmd.actor cmd.provider_id) forbidden
  hash ← domain (hash_canonical_payload env.digest (canonical_from_submit cmd))
  submit_hashed env cmd hash
