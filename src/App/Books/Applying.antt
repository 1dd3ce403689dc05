-- ===== src/App/Books/Applying.antt =====
-- `applyInTx` of internal/app/submit.go on a wallet and an operation of booked tables.
use desafio_jungle_go.Prelude.{
  ℕ, ◌≡◌, refl, subst, false, List, Option, none, some, arith, suc, Bool-cases, inl, inr,
}
use desafio_jungle_go.Prelude.Int.{◌<ℤ◌}
use desafio_jungle_go.Prelude.Int64.{max_int64}
use desafio_jungle_go.Prelude.Str.{is_empty}
use desafio_jungle_go.Domain.Types.{Status}
use desafio_jungle_go.Domain.Ledger.{is_blank}
use desafio_jungle_go.Domain.Wallet.{Wallet}
use desafio_jungle_go.Domain.Transaction.{WagerTransaction}
use desafio_jungle_go.Domain.Transaction.Machine.{IsConsistent, SameIdentity}
use desafio_jungle_go.Domain.Transaction.Creation.{IsApplicable}
use desafio_jungle_go.Domain.Reference.{ApplyInput, ApplyResult}
use desafio_jungle_go.Domain.Apply.{apply}
use desafio_jungle_go.Domain.Apply.Outcome.{IsReady, IsOutcome, Ends, Moves, Settles}
use desafio_jungle_go.Domain.Apply.Branches.{apply-Ends}
use desafio_jungle_go.Domain.Apply.Identity.{Keeps, apply-Keeps}
use desafio_jungle_go.App.Ports.{get_by_external_id, list_processed_reversals}
use desafio_jungle_go.App.Tx.{Env, World}
use desafio_jungle_go.App.Tx.Runs.{
  Within, Ran, bind-Ran, domain-Ran, read-Ran, lookup-Ran, counted-Within,
}
use desafio_jungle_go.App.Submit.{
  apply_in_tx, find_reference, reversals_of, input_of, apply_listed, apply_found,
}
use desafio_jungle_go.App.Books.{IsOperation}
use desafio_jungle_go.App.Books.Persist.{IsLoaded}

-- The generator makes no blank identifier.
abbrev pub IssuesIds : Env → Type 0
IssuesIds env = (n : ℕ) → is_blank (env.new_id n) ≡ false

-- What `Apply` makes of a wallet: an operation that is done or can still be applied, and a wallet
-- that is as it was or has moved by the entry.
pub record IsApplied (w : Wallet) (op : WagerTransaction) (r : ApplyResult) : Type 0 where
  pub operation : IsOperation r.operation
  pub moves : Moves w r.operation r.wallet r.ledger
  pub identity : SameIdentity op r.operation

waiting-IsOperation :
    (op op' : WagerTransaction) (w : Wallet) (s : Status)
    → IsApplicable op
    → SameIdentity op op'
    → op'.status ≡ s
    → Settles s op' w
    → IsOperation op'
waiting-IsOperation op op' w Status.processed a k e h = inl (ground (arith, e))
waiting-IsOperation op op' w Status.rejected a k e h = inl (ground (arith, e))
waiting-IsOperation op op' w Status.pending a k e h = elim h [ ]
waiting-IsOperation op op' w Status.failed a k e h = elim h [ ]
waiting-IsOperation op op' w Status.pending_reference a k e h =
    inr (ground (arith, e, a, k), ground (arith, e, h))

outcome-IsApplied :
    (inp : ApplyInput) (w : Wallet) (r : ApplyResult)
    → IsApplicable inp.operation
    → IsOutcome inp w r
    → SameIdentity inp.operation r.operation
    → IsApplied w inp.operation r
outcome-IsApplied inp w r a o k = record {
  operation =
      waiting-IsOperation inp.operation r.operation r.wallet r.operation.status a k refl
        o.settlement;
  moves = o.moves;
  identity = k;
}

module _ (env : Env) (ids : IssuesIds env) (v : World) (w : Wallet) (op : WagerTransaction)
    (room : w.version <ℤ max_int64) (a : IsApplicable op) (c : IsConsistent op) where
  apply_listed-Ran :
      (ref : Option WagerTransaction) (reversals : List WagerTransaction) (x : World)
      → Within v x
      → IsLoaded w x.mine
      → Ran v (λ r y. IsApplied w op r × IsLoaded w y.mine) (apply_listed env w op ref reversals x)
  apply_listed-Ran ref reversals x k l =
      let inp : ApplyInput =
        input_of w op ref reversals (env.new_id x.calls) (env.now (suc x.calls)) in
      let ready : IsReady inp w = record {
        wallet_valid = l.balance.valid;
        version_room = room;
        ledger_set = ids x.calls;
        applicable = a;
        consistent = c;
      } in
      domain-Ran v _ (counted-Within v _ (counted-Within v x k))
        (λ r y. IsApplied w op r × IsLoaded w y.mine) (apply inp)
        (λ r e. (
          outcome-IsApplied inp w r a (subst (Ends inp w) e (apply-Ends inp w refl ready))
              (subst (Keeps inp) e (apply-Keeps inp)),
          l,
        ))

  reversals_of-Ran :
      (o : Option WagerTransaction) (x : World)
      → Within v x
      → IsLoaded w x.mine
      → Ran v (λ _ y. IsLoaded w y.mine) (reversals_of o x)
  reversals_of-Ran none x k l = (k, l)
  reversals_of-Ran (some ref) x k l =
      read-Ran v x k (λ _ y. IsLoaded w y.mine) (list_processed_reversals ref.id) l

  find_reference-Ran :
      (x : World)
      → Within v x
      → IsLoaded w x.mine
      → Ran v (λ _ y. IsLoaded w y.mine) (find_reference op x)
  find_reference-Ran x k l = elim (Bool-cases (is_empty op.reference_external_id)) [
    | inl e ↦ rw e (k, l)
    | inr e ↦ rw e (
        lookup-Ran v x k (λ _ y. IsLoaded w y.mine)
          (get_by_external_id op.provider_id op.reference_external_id) l (λ _ _. l))
  ]

  -- What is applied fits the wallet that was loaded.
  pub apply_in_tx-Ran :
      (x : World)
      → Within v x
      → IsLoaded w x.mine
      → Ran v (λ r y. IsApplied w op r × IsLoaded w y.mine) (apply_in_tx env w op x)
  unfolding apply_in_tx
  apply_in_tx-Ran x k l =
      let Q : ApplyResult → World → Type 0 = λ r y. IsApplied w op r × IsLoaded w y.mine in
      bind-Ran v (λ _ y. IsLoaded w y.mine) Q (find_reference op) (apply_found env w op) x
        (find_reference-Ran x k l)
        (λ ref y k1 l1.
          bind-Ran v (λ _ z. IsLoaded w z.mine) Q (reversals_of ref) (apply_listed env w op ref) y
            (reversals_of-Ran ref y k1 l1)
            (λ reversals z k2 l2. apply_listed-Ran ref reversals z k2 l2))
