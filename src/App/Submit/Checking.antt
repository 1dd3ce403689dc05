-- ===== src/App/Submit/Checking.antt =====
-- What `submitInTx` of internal/app/submit.go leaves behind when nobody disturbs it.
use desafio_jungle_go.Prelude.{sym, subst, Result, Option, none, some, if◌then◌else◌}
use desafio_jungle_go.Prelude.Str.{Str}
use desafio_jungle_go.Domain.Wallet.{Wallet}
use desafio_jungle_go.Domain.Transaction.{WagerTransaction}
use desafio_jungle_go.Domain.Idempotency.{check_idempotency_replay, check_external_identity}
use desafio_jungle_go.App.Ports.{AppError, Db, get_by_external_id, get_by_key, get_wallet}
use desafio_jungle_go.App.Tx.{Env, World, Tx, ◌>>=◌, domain, pure, get}
use desafio_jungle_go.App.Tx.Steps.{
  IsQuiet, Post, bind-Post, Post-mono, Post-world, pause-IsQuiet, SameTables, SameTables-refl,
}
use desafio_jungle_go.App.Submit.Applying.{domain-Post, lookup-SameTables}
use desafio_jungle_go.App.Submit.Storing.{Submitted, first_submit-Post}
use desafio_jungle_go.App.Lookup.{
  SubmitCommand, SubmitResult, lookup, check_key, check_external, or_by_external_id, find_by_key,
  find_replay,
}
use desafio_jungle_go.App.Submit.{first_submit, replay_or, submit_locked, submit_in_tx}

abbrev Quiet {ℓ} : {A : Type ℓ} → A → World → Type 0
Quiet a w = IsQuiet w

lookup-Quiet :
    {A : Type 0} (f : Db → Result AppError A) (w : World)
    → IsQuiet w
    → Post {A = Option A} Quiet (lookup f w)
lookup-Quiet {A} f w q =
    Post-mono {A = Option A} (λ _ x. SameTables w x) Quiet (lookup f w)
      (lookup-SameTables f w w (SameTables-refl w q)) (λ a x s. s.quiet)

check_key-Quiet :
    (cmd : SubmitCommand) (hash : Str) (o : Option WagerTransaction) (w : World)
    → IsQuiet w
    → Post Quiet (check_key cmd hash o w)
check_key-Quiet cmd hash none w q = q
check_key-Quiet cmd hash (some t) w q =
    bind-Post Quiet Quiet
      (domain (check_idempotency_replay t.idempotency_key t.payload_hash cmd.idempotency_key hash))
      (λ replay. pure (if replay then some t else none)) w (domain-Post Quiet _ w (λ _ _. q))
      (λ _ x k. k)

check_external-Quiet :
    (cmd : SubmitCommand) (o : Option WagerTransaction) (w : World)
    → IsQuiet w
    → Post Quiet (check_external cmd o w)
check_external-Quiet cmd none w q = q
check_external-Quiet cmd (some t) w q =
    bind-Post Quiet Quiet (domain (check_external_identity t.idempotency_key cmd.idempotency_key))
      (λ _. pure (some t)) w (domain-Post Quiet _ w (λ _ _. q)) (λ _ x k. k)

or_by_external_id-Quiet :
    (cmd : SubmitCommand) (o : Option WagerTransaction) (w : World)
    → IsQuiet w
    → Post Quiet (or_by_external_id cmd o w)
or_by_external_id-Quiet cmd (some t) w q = q
or_by_external_id-Quiet cmd none w q =
    bind-Post Quiet Quiet (lookup (get_by_external_id cmd.provider_id cmd.external_id))
      (check_external cmd) w (lookup-Quiet (get_by_external_id cmd.provider_id cmd.external_id) w q)
      (check_external-Quiet cmd)

find_replay-Quiet :
    (cmd : SubmitCommand) (hash : Str) (w : World) → IsQuiet w → Post Quiet (find_replay cmd hash w)
unfolding find_replay
find_replay-Quiet cmd hash w q =
    bind-Post Quiet Quiet (find_by_key cmd hash) (or_by_external_id cmd) w
      (bind-Post Quiet Quiet (lookup (get_by_key cmd.provider_id cmd.idempotency_key))
        (check_key cmd hash) w (lookup-Quiet (get_by_key cmd.provider_id cmd.idempotency_key) w q)
        (check_key-Quiet cmd hash))
      (or_by_external_id-Quiet cmd)

replay_or-Post :
    (cmd : SubmitCommand) (hash : Str) (next : Tx SubmitResult) (o : Option WagerTransaction)
    (w : World)
    → IsQuiet w
    → Post (Submitted cmd hash) (next w)
    → Post (Submitted cmd hash) (replay_or next o w)
replay_or-Post cmd hash next none w q h = h
replay_or-Post cmd hash next (some t) w q h = q

submit_locked-Post :
    (env : Env) (cmd : SubmitCommand) (hash : Str) (wallet : Wallet) (w : World)
    → IsQuiet w
    → Post (Submitted cmd hash) (submit_locked env cmd hash wallet w)
submit_locked-Post env cmd hash wallet w q =
    bind-Post Quiet (Submitted cmd hash) (find_replay cmd hash)
      (replay_or (first_submit env cmd hash wallet)) w (find_replay-Quiet cmd hash w q)
      (λ o x k.
        replay_or-Post cmd hash (first_submit env cmd hash wallet) o x k
          (first_submit-Post env cmd hash wallet x k))

get-Quiet : {A : Type 0} (f : Db → Result AppError A) (w : World) → IsQuiet w → Post Quiet (get f w)
get-Quiet {A} f w q =
    Post-world {A = A} IsQuiet (get f w) (subst IsQuiet (sym (pause-IsQuiet w q)) q)

-- `submitInTx` undisturbed: if it returns a transaction that is no replay, that is now stored.
pub submit_in_tx-Post :
    (env : Env) (cmd : SubmitCommand) (hash : Str) (w : World)
    → IsQuiet w
    → Post (Submitted cmd hash) (submit_in_tx env cmd hash w)
unfolding submit_in_tx
submit_in_tx-Post env cmd hash w q =
    bind-Post Quiet (Submitted cmd hash) (find_replay cmd hash)
      (replay_or (get (get_wallet cmd.wallet_id) >>= submit_locked env cmd hash)) w
      (find_replay-Quiet cmd hash w q)
      (λ o x k.
        replay_or-Post cmd hash (get (get_wallet cmd.wallet_id) >>= submit_locked env cmd hash) o x
          k
          (bind-Post Quiet (Submitted cmd hash) (get (get_wallet cmd.wallet_id))
            (submit_locked env cmd hash) x (get-Quiet (get_wallet cmd.wallet_id) x k)
            (submit_locked-Post env cmd hash)))
