-- ===== src/App/Books/Submitting.antt =====
-- `Submit` of internal/app/submit.go keeps the books.
use desafio_jungle_go.Prelude.{
  refl, sym, subst, Bool, true, false, All, Option, none, some, arith, ok, err, Result, suc,
}
use desafio_jungle_go.Prelude.Int.{◌<ℤ◌}
use desafio_jungle_go.Prelude.Int64.{max_int64}
use desafio_jungle_go.Prelude.Str.{Str, str_eq}
use desafio_jungle_go.Domain.Errors.{Res, FailureCode, Sentinel, validation}
use desafio_jungle_go.Domain.Money.Sums.{IsMoney}
use desafio_jungle_go.Domain.Wallet.{Wallet}
use desafio_jungle_go.Domain.Canonical.{hash_canonical_payload}
use desafio_jungle_go.Domain.Transaction.{
  WagerTransaction, ExternalTxParams, new_external_transaction,
}
use desafio_jungle_go.Domain.Transaction.Machine.{IsConsistent}
use desafio_jungle_go.Domain.Transaction.Creation.{
  IsApplicable, new_external_transaction-IsApplicable,
}
use desafio_jungle_go.Domain.Reference.{ApplyResult}
use desafio_jungle_go.App.Identity.{authorize_submit}
use desafio_jungle_go.App.Ports.{AppError, forbidden, conflict, of_domain, Db, get_wallet}
use desafio_jungle_go.App.Tx.{Env, World, Tx, ◌>>=◌, ◌>>◌, pure, domain, require, get, within}
use desafio_jungle_go.App.Tx.Steps.{IsQuiet}
use desafio_jungle_go.App.Tx.Runs.{
  Within, Ran, bind-Ran, domain-Ran, require-Ran, get-Ran, counted-Within, SameTables-Ran, Ended,
  within-Ended,
}
use desafio_jungle_go.App.Service.{records_from_events, persist_apply}
use desafio_jungle_go.App.Service.Persist.{records_from_events-SameTables}
use desafio_jungle_go.App.Lookup.{SubmitCommand, canonical_from_submit, find_replay}
use desafio_jungle_go.App.Submit.{
  params_of, apply_in_tx, persist_applied, apply_new, make_new, first_submit, replay_or,
  submit_locked, submit_in_tx, recover_idempotent_insert, or_retry, submit_hashed, submit,
}
use desafio_jungle_go.App.Books.{IsBooked, has_id}
use desafio_jungle_go.App.Books.Rows.{find-All}
use desafio_jungle_go.App.Books.Looking.{find_replay-Ran, recover_idempotent_insert-Ran}
use desafio_jungle_go.App.Books.Persist.{IsLoaded, get_wallet-IsLoaded, persist_apply-Ran}
use desafio_jungle_go.App.Books.Applying.{IssuesIds, IsApplied, apply_in_tx-Ran}

-- No version of a wallet is at the end of `int64`.
abbrev pub HasRoom : Db → Type 0
HasRoom db = All (λ w. w.version <ℤ max_int64) db.wallets

-- Tables from which an operation can be applied.
pub record IsOpen (db : Db) : Type 0 where
  pub booked : IsBooked db
  pub room : HasRoom db

pub records-Ran :
    (env : Env) (v : World) (w : Wallet) (r : ApplyResult) (correlation causation : Str) (x : World)
    → Within v x
    → IsLoaded w x.mine
    → Ran v (λ _ y. IsLoaded w y.mine) (records_from_events env r.events correlation causation x)
records-Ran env v w r correlation causation x k l =
    SameTables-Ran v x (λ y. IsLoaded w y.mine)
      (records_from_events env r.events correlation causation x) k
      (records_from_events-SameTables env r.events correlation causation x k.quiet)
      (λ y e. subst (IsLoaded w) (sym e) l)

abbrev Booked {ℓ} : {A : Type ℓ} → A → World → Type 0
Booked _ y = IsBooked y.mine

module _ (env : Env) (ids : IssuesIds env) (cmd : SubmitCommand) (money : IsMoney cmd.money)
    (v : World) where
  persist_applied-Ran :
      (w : Wallet) (op : WagerTransaction) (r : ApplyResult) (x : World)
      → Within v x
      → IsApplied w op r
      → IsLoaded w x.mine
      → Ran v Booked (persist_applied env cmd w r x)
  persist_applied-Ran w op r x k a l =
      bind-Ran v (λ _ y. IsLoaded w y.mine) Booked
        (records_from_events env r.events cmd.correlation_id r.operation.id)
        (λ recs. persist_apply w r recs false >> pure r.operation) x
        (records-Ran env v w r cmd.correlation_id r.operation.id x k l)
        (λ recs y k1 l1.
          bind-Ran v Booked Booked (persist_apply w r recs false) (λ _. pure r.operation) y
            (persist_apply-Ran v w r recs false y k1 l1 a.operation a.moves) (λ _ z k2 b. (k2, b)))

  make_new-Ran :
      (hash : Str) (w : Wallet) (x : World)
      → w.version <ℤ max_int64
      → Within v x
      → IsLoaded w x.mine
      → Ran v Booked (make_new env cmd hash w x)
  make_new-Ran hash w x room k l =
      let p : ExternalTxParams = record (params_of cmd hash (env.new_id (suc x.calls))) {
        now = env.now x.calls;
      } in
      let y : World = record x { calls = suc (suc x.calls) } in
      let P : WagerTransaction → World → Type 0 =
        λ op z. (IsApplicable op × IsConsistent op) × IsLoaded w z.mine in
      let k' : Within v y = counted-Within v _ (counted-Within v x k) in
      bind-Ran v P Booked (domain (new_external_transaction p)) (apply_new env cmd w) y
        (domain-Ran v y k' P (new_external_transaction p)
          (λ op e. let (a, c, _) = new_external_transaction-IsApplicable p money e in ((a, c), l)))
        (λ op z k1 h.
          bind-Ran v (λ r u. IsApplied w op r × IsLoaded w u.mine) Booked (apply_in_tx env w op)
            (persist_applied env cmd w) z (apply_in_tx-Ran env ids v w op room h.0.0 h.0.1 z k1 h.1)
            (λ r u k2 h2. persist_applied-Ran w op r u k2 h2.0 h2.1))

  first_submit-Ran :
      (hash : Str) (w : Wallet) (x : World)
      → w.version <ℤ max_int64
      → Within v x
      → IsLoaded w x.mine
      → Ran v Booked (first_submit env cmd hash w x)
  unfolding first_submit
  first_submit-Ran hash w x room k l =
      let e : AppError =
        of_domain (validation FailureCode.missing_identity Sentinel.missing_identity) in
      bind-Ran v (λ _ y. IsLoaded w y.mine) Booked (require (str_eq w.player_id cmd.player_id) e)
        (λ _. make_new env cmd hash w >>= λ t. pure (t, false)) x
        (require-Ran v x k (λ _ y. IsLoaded w y.mine) (str_eq w.player_id cmd.player_id) e (λ _. l))
        (λ _ y k1 l1.
          bind-Ran v Booked Booked (make_new env cmd hash w) (λ t. pure (t, false)) y
            (make_new-Ran hash w y room k1 l1) (λ t z k2 b. (k2, b)))

  submit_locked-Ran :
      (hash : Str) (w : Wallet) (x : World)
      → w.version <ℤ max_int64
      → Within v x
      → IsLoaded w x.mine
      → Ran v Booked (submit_locked env cmd hash w x)
  submit_locked-Ran hash w x room k l =
      bind-Ran v (λ _ y. IsLoaded w y.mine) Booked (find_replay cmd hash)
        (replay_or (first_submit env cmd hash w)) x (find_replay-Ran (IsLoaded w) cmd hash v x k l)
        rest
    where
      rest :
          (o : Option WagerTransaction) (y : World)
          → Within v y
          → IsLoaded w y.mine
          → Ran v Booked (replay_or (first_submit env cmd hash w) o y)
      rest none y k1 l1 = first_submit-Ran hash w y room k1 l1
      rest (some t) y k1 l1 = (k1, l1.booked)

  -- `submitInTx` keeps the books.
  pub submit_in_tx-Ran :
      (hash : Str) (x : World)
      → Within v x
      → IsOpen x.mine
      → Ran v Booked (submit_in_tx env cmd hash x)
  unfolding submit_in_tx
  submit_in_tx-Ran hash x k i =
      bind-Ran v (λ _ y. IsOpen y.mine) Booked (find_replay cmd hash)
        (replay_or (get (get_wallet cmd.wallet_id) >>= submit_locked env cmd hash)) x
        (find_replay-Ran IsOpen cmd hash v x k i) rest
    where
      rest :
          (o : Option WagerTransaction) (y : World)
          → Within v y
          → IsOpen y.mine
          → Ran v Booked
              (replay_or (get (get_wallet cmd.wallet_id) >>= submit_locked env cmd hash) o y)
      rest (some t) y k1 i1 = (k1, i1.booked)
      rest none y k1 i1 =
          bind-Ran v (λ w z. (w.version <ℤ max_int64) × IsLoaded w z.mine) Booked
            (get (get_wallet cmd.wallet_id)) (submit_locked env cmd hash) y
            (get-Ran v y k1 (λ w z. (w.version <ℤ max_int64) × IsLoaded w z.mine)
              (get_wallet cmd.wallet_id)
              (λ w h. (
                find-All (λ u. u.version <ℤ max_int64) (has_id cmd.wallet_id) y.mine.wallets w
                    i1.room (ground arith),
                get_wallet-IsLoaded cmd.wallet_id y.mine w i1.booked h,
              )))
            (λ w z k2 h. submit_locked-Ran hash w z h.0 k2 h.1)

-- A unit of work, and the one that is tried after its conflict.
pub or_retry-Ended :
    {A : Type 0} (I : Db → Type 0) (fresh : Tx A) (p : Result AppError A × World)
    → Ended I p.1
    → ((w : World) → Ended I w → Ended I (within fresh w).1)
    → Ended I (or_retry fresh p).1
or_retry-Ended I fresh (ok a, w) e f = e
or_retry-Ended I fresh (err conflict, w) e f = f w e
or_retry-Ended I fresh (err e', w) e f = ground arith

submit_hashed-Ended :
    (env : Env) (cmd : SubmitCommand) (hash : Str) (w : World)
    → IssuesIds env
    → IsMoney cmd.money
    → IsQuiet w
    → IsOpen w.committed
    → Ended IsBooked (submit_hashed env cmd hash w).1
submit_hashed-Ended env cmd hash w ids money q i =
    or_retry-Ended IsBooked (recover_idempotent_insert cmd hash)
      (within (submit_in_tx env cmd hash) w)
      (within-Ended IsBooked Booked (submit_in_tx env cmd hash) w i.booked
        (submit_in_tx-Ran env ids cmd money w hash (record w { mine = w.committed })
          (record { quiet = q; committed_kept = refl }) i)
        (λ _ x b. b))
      (λ x e.
        within-Ended IsBooked Booked (recover_idempotent_insert cmd hash) x e.holds
          (recover_idempotent_insert-Ran IsBooked cmd hash x (record x { mine = x.committed })
            (record { quiet = e.quiet; committed_kept = refl }) e.holds)
          (λ _ y b. b))

-- With identifiers that are never blank, from tables whose books balance and whose wallets can
-- still change, and while no other transaction commits, `Submit` of a well-formed amount leaves
-- tables whose books balance, whatever it returns.
pub submit-IsBooked :
    (env : Env) (cmd : SubmitCommand) (w : World)
    → IssuesIds env
    → IsMoney cmd.money
    → IsQuiet w
    → IsOpen w.committed
    → Ended IsBooked (submit env cmd w).1
unfolding submit
submit-IsBooked env cmd w ids money q i =
    let start : Ended IsBooked w = record { quiet = q; holds = i.booked } in
    allowed (authorize_submit cmd.actor cmd.provider_id) start
  where
    hashed :
        (r : Res Str) → Ended IsBooked w → Ended IsBooked ((domain r >>= submit_hashed env cmd) w).1
    hashed (ok hash) e = submit_hashed-Ended env cmd hash w ids money q i
    hashed (err x) e = e

    allowed :
        (b : Bool)
        → Ended IsBooked w
        → Ended IsBooked
            ((require b forbidden
                >> (domain (hash_canonical_payload env.digest (canonical_from_submit cmd))
                    >>= submit_hashed env cmd))
              w).1
    allowed true e = hashed (hash_canonical_payload env.digest (canonical_from_submit cmd)) e
    allowed false e = e
