-- ===== src/App/Lookup.antt =====
-- internal/app/submit.go: the command, and the lookups of `submitInTx` for what it replays.
use desafio_jungle_go.Prelude.{Bool, Option, none, some, Result, ok, err, if◌then◌else◌}
use desafio_jungle_go.Prelude.Str.{Str}
use desafio_jungle_go.Domain.Types.{Kind}
use desafio_jungle_go.Domain.Money.{Money}
use desafio_jungle_go.Domain.Transaction.{WagerTransaction}
use desafio_jungle_go.Domain.Idempotency.{check_idempotency_replay, check_external_identity}
use desafio_jungle_go.Domain.Canonical.{CanonicalPayload}
use desafio_jungle_go.App.Identity.{Actor}
use desafio_jungle_go.App.Ports.{AppError, not_found, Db, get_by_external_id, get_by_key}
use desafio_jungle_go.App.Tx.{Tx, ◌>>=◌, ◌>>◌, pure, fail, domain, read}

pub record SubmitCommand : Type 0 where
  pub actor : Actor
  pub idempotency_key : Str
  pub provider_id : Str
  pub external_id : Str
  pub player_id : Str
  pub wallet_id : Str
  pub round_id : Str
  pub game_id : Str
  pub kind : Kind
  pub money : Money
  pub reference_external_id : Str
  pub correlation_id : Str

-- The transaction, and whether it is a replay.
abbrev pub SubmitResult : Type 0
SubmitResult = WagerTransaction × Bool

-- `canonicalFromSubmit` of inbound.go
abbrev pub canonical_from_submit : SubmitCommand → CanonicalPayload
canonical_from_submit cmd = record {
  provider_id = cmd.provider_id;
  external_id = cmd.external_id;
  player_id = cmd.player_id;
  wallet_id = cmd.wallet_id;
  round_id = cmd.round_id;
  game_id = cmd.game_id;
  kind = cmd.kind;
  money = cmd.money;
  reference_external_id = cmd.reference_external_id;
}

-- `err == nil`, or `errors.Is(err, ErrNotFound)`, or a failure.
abbrev pub or_missing : {A : Type 0} → Result AppError A → Tx (Option A)
or_missing (ok a) = pure (some a)
or_missing (err not_found) = pure none
or_missing (err e) = fail e

-- A lookup that may miss.
abbrev pub lookup : {A : Type 0} → (Db → Result AppError A) → Tx (Option A)
lookup f = read f >>= or_missing

-- The check of a transaction that has the key of the command.
abbrev pub check_key : SubmitCommand → Str → Option WagerTransaction → Tx (Option WagerTransaction)
check_key cmd hash none = pure none
check_key cmd hash (some existing) = do
  replay ← domain (
      check_idempotency_replay existing.idempotency_key existing.payload_hash cmd.idempotency_key
        hash)
  pure (if replay then some existing else none)

-- The check of a transaction that has the external identifier of the command.
abbrev pub check_external : SubmitCommand → Option WagerTransaction → Tx (Option WagerTransaction)
check_external cmd none = pure none
check_external cmd (some by_ext) = do
  domain (check_external_identity by_ext.idempotency_key cmd.idempotency_key)
  pure (some by_ext)

-- The lookup by the external identifier, when that by the key found nothing.
abbrev pub or_by_external_id :
    SubmitCommand → Option WagerTransaction → Tx (Option WagerTransaction)
or_by_external_id cmd (some t) = pure (some t)
or_by_external_id cmd none =
    lookup (get_by_external_id cmd.provider_id cmd.external_id) >>= check_external cmd

abbrev pub find_by_key : SubmitCommand → Str → Tx (Option WagerTransaction)
find_by_key cmd hash =
    lookup (get_by_key cmd.provider_id cmd.idempotency_key) >>= check_key cmd hash

-- The two lookups that `submitInTx` makes before and again after the wallet lock: a transaction
-- to replay, if there is one.
unfoldable pub find_replay : SubmitCommand → Str → Tx (Option WagerTransaction)
find_replay cmd hash = find_by_key cmd hash >>= or_by_external_id cmd
