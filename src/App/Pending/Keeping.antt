-- ===== src/App/Pending/Keeping.antt =====
-- `resumeOne` of internal/app/pending.go keeps the books.
use desafio_jungle_go.Prelude.{
  ◌≡◌, refl, sym, subst, Bool, true, false, not, ◌&&◌, ◌||◌, Bool-cases, inl, inr, ok, err, arith,
  suc, if◌then◌else◌,
}
use desafio_jungle_go.Prelude.Int.{◌<ℤ◌}
use desafio_jungle_go.Prelude.Int64.{max_int64}
use desafio_jungle_go.Prelude.Str.{str_eq}
use desafio_jungle_go.Prelude.Time.{Time}
use desafio_jungle_go.Domain.Errors.{Res, FailureCode}
use desafio_jungle_go.Domain.Types.{Status, status_eq, terminal}
use desafio_jungle_go.Domain.Wallet.{Wallet}
use desafio_jungle_go.Domain.Transaction.{WagerTransaction, mark_rejected}
use desafio_jungle_go.Domain.Transaction.Machine.{IsConsistent, SameIdentity}
use desafio_jungle_go.Domain.Transaction.Creation.{IsApplicable}
use desafio_jungle_go.Domain.Reference.{ApplyResult}
use desafio_jungle_go.App.Ports.{get_wallet, get_transaction}
use desafio_jungle_go.App.Tx.{Env, World, ◌>>◌, pure, get, domain}
use desafio_jungle_go.App.Tx.Steps.{IsQuiet}
use desafio_jungle_go.App.Tx.Runs.{
  Within, Ran, bind-Ran, domain-Ran, get-Ran, counted-Within, Ended, within-Ended,
}
use desafio_jungle_go.App.Service.{records_from_events, persist_apply}
use desafio_jungle_go.App.Submit.{apply_in_tx}
use desafio_jungle_go.App.Books.{IsBooked, IsOperation, has_id}
use desafio_jungle_go.App.Books.Rows.{find-All}
use desafio_jungle_go.App.Books.Persist.{IsLoaded, get_wallet-IsLoaded, persist_apply-Ran}
use desafio_jungle_go.App.Books.Applying.{IssuesIds, IsApplied, apply_in_tx-Ran}
use desafio_jungle_go.App.Books.Submitting.{IsOpen, records-Ran}
use desafio_jungle_go.App.Pending.{
  PendingWork, ResumeParams, pending_exhausted, given_up, given_up_with, expire, outcome_of,
  persist_resumed, resume_applied, resume_loaded, resume_wallet, resume_in_tx, resume_one,
}

abbrev Booked {ℓ} : {A : Type ℓ} → A → World → Type 0
Booked _ y = IsBooked y.mine

mark_rejected-SameIdentity :
    (op t u : WagerTransaction) (code : FailureCode) (now : Time)
    → SameIdentity op t
    → mark_rejected t code now ≡ ok u
    → SameIdentity op u × (terminal u.status ≡ true)
unfolding mark_rejected
mark_rejected-SameIdentity op t u code now k h = ground arith

-- An operation that is given up is done, and does not move the wallet.
given_up-IsApplied :
    (time : Time) (w : Wallet) (op t : WagerTransaction) (c : Res WagerTransaction)
    (r : ApplyResult)
    → SameIdentity op t
    → c ≡ mark_rejected t FailureCode.reference_not_found time
    → given_up_with time w c ≡ ok r
    → IsApplied w op r
given_up-IsApplied time w op t (ok rej) r k e h =
    let (same, done) =
      mark_rejected-SameIdentity op t rej FailureCode.reference_not_found time k (sym e) in
    let s : given_up time w rej ≡ r = ground (arith, h) in
    subst (IsApplied w op) s (record { operation = inl done; moves = refl; identity = same })
given_up-IsApplied time w op t (err x) r k e h = ground (arith, h)

expire-IsApplied :
    (work : PendingWork) (p : ResumeParams) (time : Time) (w : Wallet) (op : WagerTransaction)
    (a r : ApplyResult)
    → IsApplied w op a
    → expire work p time w a ≡ ok r
    → IsApplied w op r
expire-IsApplied work p time w op a r k h =
    let given : Bool → Res ApplyResult = λ b.
      if b
      then given_up_with time w (mark_rejected a.operation FailureCode.reference_not_found time)
      else ok a in
    elim (Bool-cases (
      status_eq a.operation.status Status.pending_reference
      && pending_exhausted work a.operation time p)) [
        | inl e ↦
            given_up-IsApplied time w op a.operation
              (mark_rejected a.operation FailureCode.reference_not_found time) r k.identity refl
              (subst (λ b. given b ≡ ok r) e h)
        | inr e ↦
            let same : ok a ≡ ok r = subst (λ b. given b ≡ ok r) e h in
            let s : a ≡ r = ground (arith, same) in subst (IsApplied w op) s k
      ]

-- The loaded operation is open.
open_operation :
    (t : WagerTransaction)
    → IsOperation t
    → (terminal t.status
        || (not (status_eq t.status Status.pending)
            && not (status_eq t.status Status.pending_reference)))
      ≡ false
    → IsApplicable t × IsConsistent t
open_operation t (inl done) h =
    let rest : Bool =
      not (status_eq t.status Status.pending)
      && not (status_eq t.status Status.pending_reference) in
    let h1 : (true || rest) ≡ false = subst (λ b. (b || rest) ≡ false) done h in ground (arith, h1)
open_operation t (inr k) h = k

module _ (env : Env) (ids : IssuesIds env) (work : PendingWork) (p : ResumeParams) (v : World) where
  persist_resumed-Ran :
      (w : Wallet) (op : WagerTransaction) (r : ApplyResult) (x : World)
      → Within v x
      → IsApplied w op r
      → IsLoaded w x.mine
      → Ran v Booked (persist_resumed env w r x)
  persist_resumed-Ran w op r x k a l =
      bind-Ran v (λ _ y. IsLoaded w y.mine) Booked
        (records_from_events env r.events r.operation.id r.operation.id)
        (λ recs. persist_apply w r recs true >> pure (outcome_of r.operation.status)) x
        (records-Ran env v w r r.operation.id r.operation.id x k l)
        (λ recs y k1 l1.
          bind-Ran v Booked Booked (persist_apply w r recs true)
            (λ _. pure (outcome_of r.operation.status)) y
            (persist_apply-Ran v w r recs true y k1 l1 a.operation a.moves) (λ _ z k2 b. (k2, b)))

  resume_applied-Ran :
      (time : Time) (w : Wallet) (op : WagerTransaction) (r : ApplyResult) (x : World)
      → Within v x
      → IsApplied w op r × IsLoaded w x.mine
      → Ran v Booked (resume_applied env work p time w r x)
  resume_applied-Ran time w op r x k (a, l) =
      let P : ApplyResult → World → Type 0 = λ s y. IsApplied w op s × IsLoaded w y.mine in
      bind-Ran v P Booked (domain (expire work p time w r)) (persist_resumed env w) x
        (domain-Ran v x k P (expire work p time w r)
          (λ s e. (expire-IsApplied work p time w op r s a e, l)))
        (λ s y k1 h. persist_resumed-Ran w op s y k1 h.0 h.1)

  resume_loaded-Ran :
      (time : Time) (w : Wallet) (op : WagerTransaction) (x : World)
      → w.version <ℤ max_int64
      → Within v x
      → IsOperation op × IsLoaded w x.mine
      → Ran v Booked (resume_loaded env work p time w op x)
  resume_loaded-Ran time w op x room k (o, l) =
      elim (Bool-cases (
        terminal op.status
        || (not (status_eq op.status Status.pending)
            && not (status_eq op.status Status.pending_reference)))) [
              | inl e ↦ rw e (k, l.booked)
              | inr e ↦
                  let (a, c) = open_operation op o e in
                  elim (Bool-cases (str_eq op.wallet_id work.wallet_id)) [
                    | inr m ↦ rw (e, m) k
                    | inl m ↦
                        rw (e, m)
                          (bind-Ran v (λ r y. IsApplied w op r × IsLoaded w y.mine) Booked
                            (apply_in_tx env w op) (resume_applied env work p time w) x
                            (apply_in_tx-Ran env ids v w op room a c x k l)
                            (resume_applied-Ran time w op))
                  ]
            ]

  resume_in_tx-Ran :
      (x : World) → Within v x → IsOpen x.mine → Ran v Booked (resume_in_tx env work p x)
  resume_in_tx-Ran x k i =
      let time : Time = env.now x.calls in
      let y : World = record x { calls = suc x.calls } in
      let P : Wallet → World → Type 0 = λ w z. (w.version <ℤ max_int64) × IsLoaded w z.mine in
      bind-Ran v P Booked (get (get_wallet work.wallet_id)) (resume_wallet env work p time) y
        (get-Ran v y (counted-Within v x k) P (get_wallet work.wallet_id) (λ w h. (
          find-All (λ u. u.version <ℤ max_int64) (has_id work.wallet_id) x.mine.wallets w i.room
              (ground arith),
          get_wallet-IsLoaded work.wallet_id x.mine w i.booked h,
        )))
        (λ w z k1 h.
          bind-Ran v (λ op u. IsOperation op × IsLoaded w u.mine) Booked
            (get (get_transaction work.transaction_id)) (resume_loaded env work p time w) z
            (get-Ran v z k1 (λ op u. IsOperation op × IsLoaded w u.mine)
              (get_transaction work.transaction_id)
              (λ op e. (
                find-All IsOperation (λ t. str_eq t.id work.transaction_id) z.mine.transactions op
                    h.1.booked.operations (ground arith),
                h.1,
              )))
            (λ op u k2 g. resume_loaded-Ran time w op u h.0 k2 g))

-- With identifiers that are never blank, from tables whose books balance and whose wallets can
-- still change, and while no other transaction commits, `resumeOne` leaves tables whose books
-- balance, whatever it returns.
pub resume_one-IsBooked :
    (env : Env) (work : PendingWork) (p : ResumeParams) (w : World)
    → IssuesIds env
    → IsQuiet w
    → IsOpen w.committed
    → Ended IsBooked (resume_one env work p w).1
unfolding resume_one
resume_one-IsBooked env work p w ids q i =
    within-Ended IsBooked Booked (resume_in_tx env work p) w i.booked
      (resume_in_tx-Ran env ids work p w (record w { mine = w.committed })
        (record { quiet = q; committed_kept = refl }) i)
      (λ _ x b. b)
