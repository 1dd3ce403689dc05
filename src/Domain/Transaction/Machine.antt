-- ===== src/Domain/Transaction/Machine.antt =====
-- The status machine of internal/domain/transaction.go: its steps, what they keep, and its ends.
use desafio_jungle_go.Prelude.{◌≡◌, refl, sym, subst, ◌≢◌, ok, arith, true, false}
use desafio_jungle_go.Prelude.Str.{Str}
use desafio_jungle_go.Prelude.Time.{Time}
use desafio_jungle_go.Domain.Errors.{Res, FailureCode}
use desafio_jungle_go.Domain.Types.{Status, terminal}
use desafio_jungle_go.Domain.Money.{Money}
use desafio_jungle_go.Domain.Transaction.{
  WagerTransaction, mark_processed, mark_rejected, mark_pending_reference, mark_failed,
  resolve_reference,
}

-- The calls that change a transaction.
pub data Change : Type 0 where
  processed : Money → Time → Change
  rejected : FailureCode → Time → Change
  waiting : Str → Time → Change
  failed : FailureCode → Time → Change
  resolved : Str → Change

unfoldable pub change : WagerTransaction → Change → Res WagerTransaction
change t (Change.processed result now) = mark_processed t result now
change t (Change.rejected code now) = mark_rejected t code now
change t (Change.waiting id now) = mark_pending_reference t id now
change t (Change.failed code now) = mark_failed t code now
change t (Change.resolved id) = resolve_reference t id

-- One transaction becomes another by calls that succeed.
pub data Reach (t : WagerTransaction) : WagerTransaction → Type 0 where
  here : Reach t t
  next : {u v : WagerTransaction} (c : Change) → Reach t u → change u c ≡ ok v → Reach t v

-- The recorded outcome that fits a status: a result and no failure code for a processed
-- transaction, a failure code and no result for a rejected or failed one, neither for an open one.
abbrev pub Fits : Status → WagerTransaction → Type 0
Fits Status.processed t =
    (t.has_result ≡ true)
    × (t.result_balance.initialized ≡ true)
    × (t.failure_code ≡ FailureCode.empty)
Fits Status.rejected t = (t.has_result ≡ false) × (t.failure_code ≢ FailureCode.empty)
Fits Status.failed t = (t.has_result ≡ false) × (t.failure_code ≢ FailureCode.empty)
Fits Status.pending t = (t.has_result ≡ false) × (t.failure_code ≡ FailureCode.empty)
Fits Status.pending_reference t = (t.has_result ≡ false) × (t.failure_code ≡ FailureCode.empty)

-- The recorded outcome fits the status.
abbrev pub IsConsistent : WagerTransaction → Type 0
IsConsistent t = Fits t.status t

change-IsConsistent :
    (t : WagerTransaction) (c : Change) {u : WagerTransaction}
    → IsConsistent t
    → change t c ≡ ok u
    → IsConsistent u
unfolding change mark_processed mark_rejected mark_pending_reference mark_failed resolve_reference
change-IsConsistent t (Change.processed result now) k h = ground arith
change-IsConsistent t (Change.rejected code now) k h = ground arith
change-IsConsistent t (Change.waiting id now) k h = ground arith
change-IsConsistent t (Change.failed code now) k h = ground arith
change-IsConsistent t (Change.resolved id) k h = ground arith

-- Whatever calls succeed on a consistent transaction, it stays consistent.
pub Reach-IsConsistent : {t u : WagerTransaction} → IsConsistent t → Reach t u → IsConsistent u
Reach-IsConsistent k here = k
Reach-IsConsistent k (next c r h) = change-IsConsistent _ c (Reach-IsConsistent k r) h

-- No call changes a transaction with a terminal status.
pub change-terminal :
    (t : WagerTransaction) (c : Change) {u : WagerTransaction}
    → terminal t.status ≡ true
    → change t c ≢ ok u
unfolding change mark_processed mark_rejected mark_pending_reference mark_failed resolve_reference
change-terminal t (Change.processed result now) k h = ground arith
change-terminal t (Change.rejected code now) k h = ground arith
change-terminal t (Change.waiting id now) k h = ground arith
change-terminal t (Change.failed code now) k h = ground arith
change-terminal t (Change.resolved id) k h = ground arith

-- A terminal transaction reaches only itself.
pub Reach-terminal : {t u : WagerTransaction} → terminal t.status ≡ true → Reach t u → u ≡ t
Reach-terminal k here = refl
Reach-terminal k (next {u = x} c r h) =
    absurd
      (change-terminal x c (subst (λ y. terminal y.status ≡ true) (sym (Reach-terminal k r)) k) h)

-- What identifies an operation and what it moves.
pub record SameIdentity (t u : WagerTransaction) : Type 0 where
  pub same_id : u.id ≡ t.id
  pub same_origin : u.origin ≡ t.origin
  pub same_provider : u.provider_id ≡ t.provider_id
  pub same_external : u.external_id ≡ t.external_id
  pub same_key : u.idempotency_key ≡ t.idempotency_key
  pub same_hash : u.payload_hash ≡ t.payload_hash
  pub same_wallet : u.wallet_id ≡ t.wallet_id
  pub same_kind : u.kind ≡ t.kind
  pub same_money : u.money ≡ t.money
  pub same_reference : u.reference_external_id ≡ t.reference_external_id

change-SameIdentity :
    (t u : WagerTransaction) (c : Change) {v : WagerTransaction}
    → SameIdentity t u
    → change u c ≡ ok v
    → SameIdentity t v
unfolding change mark_processed mark_rejected mark_pending_reference mark_failed resolve_reference
change-SameIdentity t u (Change.processed result now) k h = ground arith
change-SameIdentity t u (Change.rejected code now) k h = ground arith
change-SameIdentity t u (Change.waiting id now) k h = ground arith
change-SameIdentity t u (Change.failed code now) k h = ground arith
change-SameIdentity t u (Change.resolved id) k h = ground arith

-- No calls change what identifies an operation or what it moves.
pub Reach-SameIdentity : {t u : WagerTransaction} → Reach t u → SameIdentity t u
Reach-SameIdentity here = ground arith
Reach-SameIdentity (next c r h) = change-SameIdentity _ _ c (Reach-SameIdentity r) h
