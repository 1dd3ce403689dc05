-- ===== src/App/Submit/Applying.antt =====
-- What `applyInTx` of internal/app/submit.go leaves behind when nobody disturbs it.
use desafio_jungle_go.Prelude.{
  ◌≡◌, refl, subst, Bool, true, false, Bool-cases, Result, ok, err, Option, none, some, inl, inr,
  List, arith, suc,
}
use desafio_jungle_go.Prelude.Str.{is_empty}
use desafio_jungle_go.Domain.Errors.{Res}
use desafio_jungle_go.Domain.Wallet.{Wallet}
use desafio_jungle_go.Domain.Transaction.{WagerTransaction}
use desafio_jungle_go.Domain.Transaction.Machine.{SameIdentity}
use desafio_jungle_go.Domain.Reference.{ApplyInput, ApplyResult}
use desafio_jungle_go.Domain.Apply.{apply}
use desafio_jungle_go.Domain.Apply.Identity.{Keeps, apply-Keeps}
use desafio_jungle_go.App.Ports.{
  AppError, not_found, Db, get_by_external_id, list_processed_reversals,
}
use desafio_jungle_go.App.Tx.{Env, World, domain, require, read}
use desafio_jungle_go.App.Tx.Steps.{
  IsQuiet, Post, bind-Post, SameTables, read-SameTables, SameTables-refl,
}
use desafio_jungle_go.App.Lookup.{or_missing, lookup}
use desafio_jungle_go.App.Submit.{
  apply_in_tx, find_reference, reversals_of, input_of, apply_listed, apply_found,
}

-- What `applyInTx` returns of an operation.
abbrev pub Applied : World → WagerTransaction → ApplyResult → World → Type 0
Applied v op r w = SameIdentity op r.operation × SameTables v w

pub domain-Post :
    {A : Type 0} (P : A → World → Type 0) (r : Res A) (w : World)
    → ((a : A) → r ≡ ok a → P a w)
    → Post P (domain r w)
domain-Post P (ok a) w h = h a refl
domain-Post P (err e) w h = tt

pub require-Post :
    (P : Unit {0} → World → Type 0) (b : Bool) (e : AppError) (w : World)
    → P tt w
    → Post P (require b e w)
require-Post P true e w h = h
require-Post P false e w h = tt

pub counted : (v w : World) → SameTables v w → SameTables v (record w { calls = suc w.calls })
counted v w s = record {
  quiet = s.quiet;
  same_mine = s.same_mine;
  same_committed = s.same_committed;
}

domain-apply-Post :
    (inp : ApplyInput) (v w : World)
    → SameTables v w
    → Post (Applied v inp.operation) (domain (apply inp) w)
domain-apply-Post inp v w s =
    domain-Post (Applied v inp.operation) (apply inp) w
      (λ r e. (subst (Keeps inp) e (apply-Keeps inp), s))

or_missing-SameTables :
    {A : Type 0} (v w : World) (r : Result AppError A)
    → SameTables v w
    → Post {A = Option A} (λ _ x. SameTables v x) (or_missing r w)
or_missing-SameTables v w (ok a) s = s
or_missing-SameTables v w (err not_found) s = s
or_missing-SameTables v w (err e) s = ground arith

pub lookup-SameTables :
    {A : Type 0} (f : Db → Result AppError A) (v w : World)
    → SameTables v w
    → Post {A = Option A} (λ _ x. SameTables v x) (lookup f w)
lookup-SameTables {A} f v w s =
    bind-Post (λ _ x. SameTables v x) (λ _ x. SameTables v x) (read f) or_missing w
      (read-SameTables f v w s) (λ r x k. or_missing-SameTables v x r k)

reversals_of-SameTables :
    (o : Option WagerTransaction) (v w : World)
    → SameTables v w
    → Post (λ _ x. SameTables v x) (reversals_of o w)
reversals_of-SameTables none v w s = s
reversals_of-SameTables (some ref) v w s = read-SameTables (list_processed_reversals ref.id) v w s

find_reference-SameTables :
    (op : WagerTransaction) (v w : World)
    → SameTables v w
    → Post (λ _ x. SameTables v x) (find_reference op w)
find_reference-SameTables op v w s = elim (Bool-cases (is_empty op.reference_external_id)) [
  | inl e ↦ rw e s
  | inr e ↦
      rw e (lookup-SameTables (get_by_external_id op.provider_id op.reference_external_id) v w s)
]

apply_listed-Post :
    (env : Env) (wallet : Wallet) (op : WagerTransaction) (ref : Option WagerTransaction)
    (reversals : List WagerTransaction) (v w : World)
    → SameTables v w
    → Post (Applied v op) (apply_listed env wallet op ref reversals w)
apply_listed-Post env wallet op ref reversals v w s =
    domain-apply-Post
      (input_of wallet op ref reversals (env.new_id w.calls) (env.now (suc w.calls))) v _
      (counted v _ (counted v w s))

apply_found-Post :
    (env : Env) (wallet : Wallet) (op : WagerTransaction) (ref : Option WagerTransaction)
    (v w : World)
    → SameTables v w
    → Post (Applied v op) (apply_found env wallet op ref w)
apply_found-Post env wallet op ref v w s =
    bind-Post (λ _ x. SameTables v x) (Applied v op) (reversals_of ref)
      (apply_listed env wallet op ref) w (reversals_of-SameTables ref v w s)
      (λ reversals x k. apply_listed-Post env wallet op ref reversals v x k)

pub apply_in_tx-Post :
    (env : Env) (wallet : Wallet) (op : WagerTransaction) (w : World)
    → IsQuiet w
    → Post (Applied w op) (apply_in_tx env wallet op w)
unfolding apply_in_tx
apply_in_tx-Post env wallet op w q =
    bind-Post (λ _ x. SameTables w x) (Applied w op) (find_reference op) (apply_found env wallet op)
      w (find_reference-SameTables op w w (SameTables-refl w q))
      (λ ref x k. apply_found-Post env wallet op ref w x k)
