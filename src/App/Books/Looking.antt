-- ===== src/App/Books/Looking.antt =====
-- The lookups of `submitInTx` and of `recoverIdempotentInsert` only read.
use desafio_jungle_go.Prelude.{true, Option, none, some, Result, ok, err, if◌then◌else◌}
use desafio_jungle_go.Prelude.Str.{Str}
use desafio_jungle_go.Domain.Idempotency.{check_idempotency_replay, check_external_identity}
use desafio_jungle_go.Domain.Transaction.{WagerTransaction}
use desafio_jungle_go.App.Ports.{AppError, Db, get_by_external_id, get_by_key}
use desafio_jungle_go.App.Tx.{World, read, pure, domain}
use desafio_jungle_go.App.Tx.Runs.{Within, Ran, bind-Ran, domain-Ran, read-Ran, lookup-Ran}
use desafio_jungle_go.App.Lookup.{
  SubmitCommand, check_external, check_key, find_by_key, find_replay, lookup, or_by_external_id,
}
use desafio_jungle_go.App.Submit.{recover_external, recover_with, recover_idempotent_insert}

module _ (I : Db → Type 0) (cmd : SubmitCommand) (hash : Str) (v : World) where
  abbrev Keeps {ℓ} : {A : Type ℓ} → A → World → Type 0
  Keeps _ y = I y.mine

  check_key-Ran :
      (o : Option WagerTransaction) (x : World)
      → Within v x
      → I x.mine
      → Ran v Keeps (check_key cmd hash o x)
  check_key-Ran none x k i = (k, i)
  check_key-Ran (some t) x k i =
      bind-Ran v Keeps Keeps
        (domain
          (check_idempotency_replay t.idempotency_key t.payload_hash cmd.idempotency_key hash))
        (λ replay. pure (if replay then some t else none)) x (domain-Ran v x k Keeps _ (λ _ _. i))
        (λ _ y k1 i1. (k1, i1))

  check_external-Ran :
      (o : Option WagerTransaction) (x : World)
      → Within v x
      → I x.mine
      → Ran v Keeps (check_external cmd o x)
  check_external-Ran none x k i = (k, i)
  check_external-Ran (some t) x k i =
      bind-Ran v Keeps Keeps
        (domain (check_external_identity t.idempotency_key cmd.idempotency_key))
        (λ _. pure (some t)) x (domain-Ran v x k Keeps _ (λ _ _. i)) (λ _ y k1 i1. (k1, i1))

  or_by_external_id-Ran :
      (o : Option WagerTransaction) (x : World)
      → Within v x
      → I x.mine
      → Ran v Keeps (or_by_external_id cmd o x)
  or_by_external_id-Ran (some t) x k i = (k, i)
  or_by_external_id-Ran none x k i =
      bind-Ran v Keeps Keeps (lookup (get_by_external_id cmd.provider_id cmd.external_id))
        (check_external cmd) x
        (lookup-Ran v x k Keeps (get_by_external_id cmd.provider_id cmd.external_id) i (λ _ _. i))
        check_external-Ran

  -- The lookup for a replay keeps whatever holds of the tables.
  pub find_replay-Ran : (x : World) → Within v x → I x.mine → Ran v Keeps (find_replay cmd hash x)
  unfolding find_replay
  find_replay-Ran x k i =
      bind-Ran v Keeps Keeps (find_by_key cmd hash) (or_by_external_id cmd) x
        (bind-Ran v Keeps Keeps (lookup (get_by_key cmd.provider_id cmd.idempotency_key))
          (check_key cmd hash) x
          (lookup-Ran v x k Keeps (get_by_key cmd.provider_id cmd.idempotency_key) i (λ _ _. i))
          check_key-Ran)
        or_by_external_id-Ran

  recover_external-Ran :
      (r : Result AppError WagerTransaction) (x : World)
      → Within v x
      → I x.mine
      → Ran v Keeps (recover_external cmd r x)
  recover_external-Ran (err e) x k i = k
  recover_external-Ran (ok t) x k i =
      bind-Ran v Keeps Keeps
        (domain (check_external_identity t.idempotency_key cmd.idempotency_key))
        (λ _. pure (t, true)) x (domain-Ran v x k Keeps _ (λ _ _. i)) (λ _ y k1 i1. (k1, i1))

  recover_with-Ran :
      (o : Option WagerTransaction) (x : World)
      → Within v x
      → I x.mine
      → Ran v Keeps (recover_with cmd hash o x)
  recover_with-Ran (some t) x k i =
      bind-Ran v Keeps Keeps
        (domain
          (check_idempotency_replay t.idempotency_key t.payload_hash cmd.idempotency_key hash))
        (λ replay. pure (t, replay)) x (domain-Ran v x k Keeps _ (λ _ _. i)) (λ _ y k1 i1. (k1, i1))
  recover_with-Ran none x k i =
      bind-Ran v Keeps Keeps (read (get_by_external_id cmd.provider_id cmd.external_id))
        (recover_external cmd) x
        (read-Ran v x k Keeps (get_by_external_id cmd.provider_id cmd.external_id) i)
        recover_external-Ran

  -- So does the recovery after a conflict.
  pub recover_idempotent_insert-Ran :
      (x : World) → Within v x → I x.mine → Ran v Keeps (recover_idempotent_insert cmd hash x)
  unfolding recover_idempotent_insert
  recover_idempotent_insert-Ran x k i =
      bind-Ran v Keeps Keeps (lookup (get_by_key cmd.provider_id cmd.idempotency_key))
        (recover_with cmd hash) x
        (lookup-Ran v x k Keeps (get_by_key cmd.provider_id cmd.idempotency_key) i (λ _ _. i))
        recover_with-Ran
