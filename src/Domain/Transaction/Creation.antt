-- ===== src/Domain/Transaction/Creation.antt =====
-- What the constructors of internal/domain/transaction.go admit.
use desafio_jungle_go.Prelude.{◌≡◌, ◌≢◌, ◌⊎◌, ok, arith, false, ◌&&◌}
use desafio_jungle_go.Prelude.Str.{is_empty}
use desafio_jungle_go.Domain.Types.{Kind, Status, Origin, requires_reference}
use desafio_jungle_go.Domain.Money.Sums.{IsMoney}
use desafio_jungle_go.Domain.Ledger.{is_blank}
use desafio_jungle_go.Domain.Transaction.{
  WagerTransaction, ExternalTxParams, new_external_transaction, validate_kind_amount,
}
use desafio_jungle_go.Domain.Transaction.Machine.{IsConsistent}

-- An external operation that can be applied: its identifiers are set, its amount fits its kind, a
-- refund or rollback names a reference, and its status is not terminal.
pub record IsApplicable (t : WagerTransaction) : Type 0 where
  pub from_outside : t.origin ≡ Origin.external
  pub kind_external : t.kind ≢ Kind.opening
  pub has_id : is_blank t.id ≡ false
  pub amount_money : IsMoney t.money
  pub amount_rule : validate_kind_amount t.kind t.money ≡ ok tt
  pub reference_rule : (requires_reference t.kind && is_empty t.reference_external_id) ≡ false
  pub is_open : (t.status ≡ Status.pending) ⊎ (t.status ≡ Status.pending_reference)

-- A new external operation is applicable, consistent and pending, if its amount fits an `int64`.
pub new_external_transaction-IsApplicable :
    (p : ExternalTxParams) {t : WagerTransaction}
    → IsMoney p.money
    → new_external_transaction p ≡ ok t
    → IsApplicable t × IsConsistent t × (t.status ≡ Status.pending)
unfolding new_external_transaction
new_external_transaction-IsApplicable p m h = ground arith
