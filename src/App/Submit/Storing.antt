-- ===== src/App/Submit/Storing.antt =====
-- What a first `Submit` of internal/app/submit.go that nobody disturbs leaves behind.
use desafio_jungle_go.Prelude.{◌≡◌, refl, true, false, ok, ◌∙◌, List, [], ◌∷◌, arith, suc}
use desafio_jungle_go.Prelude.Str.{Str, str_eq, is_empty, trim_space}
use desafio_jungle_go.Prelude.Time.{Time}
use desafio_jungle_go.Domain.Errors.{FailureCode, Sentinel, validation}
use desafio_jungle_go.Domain.Ledger.{is_blank}
use desafio_jungle_go.Domain.Wallet.{Wallet}
use desafio_jungle_go.Domain.Transaction.{
  WagerTransaction, ExternalTxParams, new_external_transaction,
}
use desafio_jungle_go.Domain.Transaction.Machine.{SameIdentity}
use desafio_jungle_go.Domain.Reference.{ApplyResult}
use desafio_jungle_go.App.Ports.{of_domain, Db}
use desafio_jungle_go.App.Tx.{Env, World, ◌>>=◌, ◌>>◌, domain, require, pure}
use desafio_jungle_go.App.Tx.Steps.{IsQuiet, Post, bind-Post, Post-world, SameTables}
use desafio_jungle_go.App.Service.{records_from_events, persist_apply}
use desafio_jungle_go.App.Service.Persist.{
  Leaves, records_from_events-SameTables, persist_apply-After,
}
use desafio_jungle_go.App.Submit.Applying.{Applied, domain-Post, require-Post, apply_in_tx-Post}
use desafio_jungle_go.App.Lookup.{SubmitCommand, SubmitResult}
use desafio_jungle_go.App.Submit.{
  apply_in_tx, params_of, persist_applied, apply_new, make_new, first_submit,
}

-- A transaction that carries the identity of a command, in front of the others.
pub record Stored (cmd : SubmitCommand) (hash : Str) (t : WagerTransaction) (db : Db) : Type 0 where
  pub same_provider : t.provider_id ≡ cmd.provider_id
  pub same_key : t.idempotency_key ≡ cmd.idempotency_key
  pub same_hash : t.payload_hash ≡ hash
  pub has_provider : is_empty cmd.provider_id ≡ false
  pub has_key : is_empty cmd.idempotency_key ≡ false
  pub others : List WagerTransaction
  pub rows : db.transactions ≡ t ∷ others

-- The identity that a made operation has of its command.
abbrev pub Made : SubmitCommand → Str → WagerTransaction → Type 0
Made cmd hash t =
    (t.provider_id ≡ cmd.provider_id)
    × (t.idempotency_key ≡ cmd.idempotency_key)
    × (t.payload_hash ≡ hash)
    × (is_empty cmd.provider_id ≡ false)
    × (is_empty cmd.idempotency_key ≡ false)

not_empty_of_blank : (s : Str) → is_blank s ≡ false → is_empty s ≡ false
unfolding is_blank trim_space
not_empty_of_blank [] h = cc
not_empty_of_blank (c ∷ s) h = refl

new_external_transaction_fields :
    (p : ExternalTxParams) {t : WagerTransaction}
    → new_external_transaction p ≡ ok t
    → (t.provider_id ≡ p.provider_id)
      × (t.idempotency_key ≡ p.idempotency_key)
      × (t.payload_hash ≡ p.payload_hash)
      × (is_blank p.provider_id ≡ false)
      × (is_blank p.idempotency_key ≡ false)
unfolding new_external_transaction
new_external_transaction_fields p h = ground arith

new_external_transaction-Made :
    (cmd : SubmitCommand) (hash id : Str) (time : Time) (t : WagerTransaction)
    → new_external_transaction (record (params_of cmd hash id) { now = time }) ≡ ok t
    → Made cmd hash t
new_external_transaction-Made cmd hash id time t h =
    let (a, b, c, d, e) =
      new_external_transaction_fields (record (params_of cmd hash id) { now = time }) h in
    (a, b, c, not_empty_of_blank cmd.provider_id d, not_empty_of_blank cmd.idempotency_key e)

-- `op` with its status and result changed still carries the identity.
Leaves-Stored :
    (cmd : SubmitCommand) (hash : Str) (op t : WagerTransaction) (ts : List WagerTransaction)
    (w : World)
    → Made cmd hash op
    → SameIdentity op t
    → Leaves (t ∷ ts) w
    → Stored cmd hash t w.mine
Leaves-Stored cmd hash op t ts w (a, b, c, d, e) s l = record {
  same_provider = s.same_provider ∙ a;
  same_key = s.same_key ∙ b;
  same_hash = s.same_hash ∙ c;
  has_provider = d;
  has_key = e;
  others = ts;
  rows = l.transactions;
}

-- A quiet world where a transaction is stored.
abbrev pub StoredIn : SubmitCommand → Str → WagerTransaction → World → Type 0
StoredIn cmd hash t w = Stored cmd hash t w.mine × IsQuiet w

persist_applied-Post :
    (env : Env) (cmd : SubmitCommand) (hash : Str) (wallet : Wallet) (op : WagerTransaction)
    (res : ApplyResult) (v w : World)
    → Made cmd hash op
    → Applied v op res w
    → Post (StoredIn cmd hash) (persist_applied env cmd wallet res w)
persist_applied-Post env cmd hash wallet op res v w m (same, tables) =
    bind-Post (λ _ x. SameTables w x) (StoredIn cmd hash)
      (records_from_events env res.events cmd.correlation_id res.operation.id)
      (λ recs. persist_apply wallet res recs false >> pure res.operation) w
      (Post-world (λ x. SameTables w x) _
        (records_from_events-SameTables env res.events cmd.correlation_id res.operation.id w
          tables.quiet))
      (λ recs x k.
        let ts : List WagerTransaction = x.mine.transactions in
        bind-Post (λ _ y. Leaves (res.operation ∷ ts) y) (StoredIn cmd hash)
          (persist_apply wallet res recs false) (λ _. pure res.operation) x
          (persist_apply-After ts wallet res recs x
            (record { undisturbed = k.quiet; transactions = refl }))
          (λ _ y l. (Leaves-Stored cmd hash op res.operation ts y m same l, l.undisturbed)))

apply_new-Post :
    (env : Env) (cmd : SubmitCommand) (hash : Str) (wallet : Wallet) (op : WagerTransaction)
    (w : World)
    → IsQuiet w
    → Made cmd hash op
    → Post (StoredIn cmd hash) (apply_new env cmd wallet op w)
apply_new-Post env cmd hash wallet op w q m =
    bind-Post (Applied w op) (StoredIn cmd hash) (apply_in_tx env wallet op)
      (persist_applied env cmd wallet) w (apply_in_tx-Post env wallet op w q)
      (λ res x a. persist_applied-Post env cmd hash wallet op res w x m a)

make_new-Post :
    (env : Env) (cmd : SubmitCommand) (hash : Str) (wallet : Wallet) (w : World)
    → IsQuiet w
    → Post (StoredIn cmd hash) (make_new env cmd hash wallet w)
make_new-Post env cmd hash wallet w q =
    let time : Time = env.now w.calls in
    let id : Str = env.new_id (suc w.calls) in
    let x : World = record w { calls = suc (suc w.calls) } in
    let p : ExternalTxParams = record (params_of cmd hash id) { now = time } in
    bind-Post (λ op y. Made cmd hash op × IsQuiet y) (StoredIn cmd hash)
      (domain (new_external_transaction p)) (apply_new env cmd wallet) x
      (domain-Post (λ op y. Made cmd hash op × IsQuiet y) (new_external_transaction p) x
        (λ op e. (new_external_transaction-Made cmd hash id time op e, q)))
      (λ op y h. apply_new-Post env cmd hash wallet op y h.1 h.0)

-- What a submit returns: a replay, or a transaction that is now stored.
abbrev pub Submitted : SubmitCommand → Str → SubmitResult → World → Type 0
Submitted cmd hash (t, true) w = IsQuiet w
Submitted cmd hash (t, false) w = StoredIn cmd hash t w

pub first_submit-Post :
    (env : Env) (cmd : SubmitCommand) (hash : Str) (wallet : Wallet) (w : World)
    → IsQuiet w
    → Post (Submitted cmd hash) (first_submit env cmd hash wallet w)
unfolding first_submit
first_submit-Post env cmd hash wallet w q =
    bind-Post (λ _ x. IsQuiet x) (Submitted cmd hash)
      (require (str_eq wallet.player_id cmd.player_id)
        (of_domain (validation FailureCode.missing_identity Sentinel.missing_identity)))
      (λ _. make_new env cmd hash wallet >>= λ t. pure (t, false)) w
      (require-Post (λ _ x. IsQuiet x) _ _ w q)
      (λ _ x k.
        bind-Post (StoredIn cmd hash) (Submitted cmd hash) (make_new env cmd hash wallet)
          (λ t. pure (t, false)) x (make_new-Post env cmd hash wallet x k) (λ t y h. h))
