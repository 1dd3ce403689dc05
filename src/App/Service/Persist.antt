-- ===== src/App/Service/Persist.antt =====
-- What `persistApply` of internal/app/service.go does to the transactions.
use desafio_jungle_go.Prelude.{
  ◌≡◌, refl, Result, Bool-cases, inl, inr, Option, none, some, not, if◌then◌else◌, false, List, [],
  ◌∷◌, suc, ok, err, arith,
}
use desafio_jungle_go.Prelude.Int.{eqb_ℤ}
use desafio_jungle_go.Domain.Ledger.{WalletLedgerEntry}
use desafio_jungle_go.Domain.Wallet.{Wallet}
use desafio_jungle_go.Domain.Transaction.{WagerTransaction}
use desafio_jungle_go.Domain.Event.{Event}
use desafio_jungle_go.Domain.Reference.{ApplyResult}
use desafio_jungle_go.Prelude.Str.{Str}
use desafio_jungle_go.App.Ports.{
  OutboxRecord, AppError, Db, insert_outbox, insert_transaction, insert_entry, update_wallet,
}
use desafio_jungle_go.App.Tx.{Env, World, write, pause, written, pure}
use desafio_jungle_go.App.Tx.Steps.{IsQuiet, Post, bind-Post, SameTables}
use desafio_jungle_go.App.Service.{
  records_loop, records_from_events, persist_outbox, persist_apply, persist_ledger,
}

records_loop-SameTables :
    (env : Env) (es : List Event) (c k : Str) (v : World)
    → IsQuiet v
    → SameTables v (records_loop env es c k v).1
unfolding records_loop
records_loop-SameTables env [] c k v q = ground arith
records_loop-SameTables env (e ∷ es) c k v q =
    ground (arith, records_loop-SameTables env es c k (record v { calls = suc v.calls }) q)

-- Making the records of events leaves the tables alone.
pub records_from_events-SameTables :
    (env : Env) (es : List Event) (c k : Str) (v : World)
    → IsQuiet v
    → SameTables v (records_from_events env es c k v).1
unfolding records_from_events
records_from_events-SameTables env es c k v q = ground (
  arith,
  records_loop-SameTables env es c k v q,
  records_loop-SameTables env es (env.new_id v.calls) k (record v { calls = suc v.calls }) q,
)

-- A run that others do not disturb and that leaves the transactions as `ts`.
pub record Leaves (ts : List WagerTransaction) (w : World) : Type 0 where
  pub undisturbed : w.others ≡ []
  pub transactions : w.mine.transactions ≡ ts

-- What a step leaves if it succeeds.
abbrev pub After : List WagerTransaction → Result AppError (Unit {0}) × World → Type 0
After ts = Post (λ _ w. Leaves ts w)

-- A write.
write-After :
    (ts us : List WagerTransaction) (f : Db → Result AppError Db) (v : World)
    → Leaves ts v
    → ((d e : Db) → d.transactions ≡ ts → f d ≡ ok e → e.transactions ≡ us)
    → After us (write f v)
write-After ts us f v l keep = go v.others l.undisturbed
  where
    go : (o : List (Db → Db)) → o ≡ [] → After us (let w = pause o v in written (f w.mine) w)
    go [] e = result (f v.mine) refl
      where
        result : (r : Result AppError Db) → f v.mine ≡ r → After us (written r v)
        result (ok d) h = record {
          undisturbed = l.undisturbed;
          transactions = keep v.mine d l.transactions h;
        }
        result (err x) h = tt
    go (c ∷ cs) e = cc

insert_outbox_keeps :
    (ts : List WagerTransaction) (r : OutboxRecord) (d e : Db)
    → d.transactions ≡ ts
    → insert_outbox r d ≡ ok e
    → e.transactions ≡ ts
insert_outbox_keeps ts r d e h k = ground arith

persist_outbox-After :
    (ts : List WagerTransaction) (rs : List OutboxRecord) (v : World)
    → Leaves ts v
    → After ts (persist_outbox rs v)
unfolding persist_outbox
persist_outbox-After ts [] v l = l
persist_outbox-After ts (r ∷ rs) v l =
    bind-Post (λ _ w. Leaves ts w) (λ _ w. Leaves ts w) (write (insert_outbox r))
      (λ _. persist_outbox rs) v
      (write-After ts ts (insert_outbox r) v l (insert_outbox_keeps ts r))
      (λ _ w k. persist_outbox-After ts rs w k)

insert_transaction_adds :
    (ts : List WagerTransaction) (t : WagerTransaction) (d e : Db)
    → d.transactions ≡ ts
    → insert_transaction t d ≡ ok e
    → e.transactions ≡ t ∷ ts
insert_transaction_adds ts t d e h k = ground arith

insert_entry_keeps :
    (ts : List WagerTransaction) (r : WalletLedgerEntry) (d e : Db)
    → d.transactions ≡ ts
    → insert_entry r d ≡ ok e
    → e.transactions ≡ ts
insert_entry_keeps ts r d e h k = ground arith

update_wallet_keeps :
    (ts : List WagerTransaction) (r : Wallet) (d e : Db)
    → d.transactions ≡ ts
    → update_wallet r d ≡ ok e
    → e.transactions ≡ ts
update_wallet_keeps ts r d e h k = ground arith

persist_ledger-After :
    (ts : List WagerTransaction) (o : Option WalletLedgerEntry) (v : World)
    → Leaves ts v
    → After ts (persist_ledger o v)
persist_ledger-After ts none v l = l
persist_ledger-After ts (some e) v l =
    write-After ts ts (insert_entry e) v l (insert_entry_keeps ts e)

version-After :
    (ts : List WagerTransaction) (old new : Wallet) (v : World)
    → Leaves ts v
    → After ts
        ((if not (eqb_ℤ new.version old.version) then write (update_wallet new) else pure tt) v)
version-After ts old new v l = elim (Bool-cases (eqb_ℤ new.version old.version)) [
  | inl same ↦ rw same l
  | inr other ↦ rw other (write-After ts ts (update_wallet new) v l (update_wallet_keeps ts new))
]

-- Persisting a new operation that succeeds puts it in front of the transactions.
pub persist_apply-After :
    (ts : List WagerTransaction) (loaded : Wallet) (res : ApplyResult) (rs : List OutboxRecord)
    (v : World)
    → Leaves ts v
    → After (res.operation ∷ ts) (persist_apply loaded res rs false v)
unfolding persist_apply
persist_apply-After ts loaded res rs v l =
    let us : List WagerTransaction = res.operation ∷ ts in
    bind-Post (λ _ w. Leaves us w) (λ _ w. Leaves us w) (write (insert_transaction res.operation)) _
      v
      (write-After ts us (insert_transaction res.operation) v l
        (insert_transaction_adds ts res.operation))
      (λ _ w k.
        bind-Post (λ _ x. Leaves us x) (λ _ x. Leaves us x) (persist_ledger res.ledger) _ w
          (persist_ledger-After us res.ledger w k)
          (λ _ x k'.
            bind-Post (λ _ y. Leaves us y) (λ _ y. Leaves us y)
              (if not (eqb_ℤ res.wallet.version loaded.version)
                then write (update_wallet res.wallet)
                else pure tt)
              _ x (version-After us loaded res.wallet x k')
              (λ _ y k''. persist_outbox-After us rs y k'')))
