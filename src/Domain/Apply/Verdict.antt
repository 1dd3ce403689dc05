-- ===== src/Domain/Apply/Verdict.antt =====
-- The rules of docs/adr/0008-refund-rollback-combinations.md and of the README as one decision:
-- what becomes of an operation, and that `Apply` of internal/domain/apply.go does it.
use desafio_jungle_go.Prelude.{
  ◌≡◌, ok, err, Bool, true, false, not, ◌&&◌, ◌||◌, List, [], ◌∷◌, Option, none, some,
  if◌then◌else◌,
}
use desafio_jungle_go.Prelude.Int.{◌+ℤ◌, ◌<ℤ◌, ltb_ℤ, eqb_ℤ}
use desafio_jungle_go.Prelude.Int64.{max_int64}
use desafio_jungle_go.Prelude.Str.{Str, is_empty, str_eq}
use desafio_jungle_go.Domain.Errors.{Res, FailureCode, Sentinel, validation}
use desafio_jungle_go.Domain.Types.{Kind, Status, Direction, kind_eq}
use desafio_jungle_go.Domain.Ledger.{WalletLedgerEntry}
use desafio_jungle_go.Domain.Ledger.Posting.{posted}
use desafio_jungle_go.Domain.Wallet.{Wallet}
use desafio_jungle_go.Domain.Transaction.{WagerTransaction}
use desafio_jungle_go.Domain.Reference.{ApplyInput, ApplyResult}

-- What becomes of an operation. `post` moves the balance, in a direction, and names the
-- transaction that the operation is resolved to.
pub data Verdict : Type 0 where
  refuse : FailureCode → Verdict
  hold : Verdict
  accept : Verdict
  post : Direction → Str → Verdict

-- What is known of the operation that another one refers to.
pub data Reference : Type 0 where
  unsettled : Reference
  unsuccessful : Reference
  processed : WagerTransaction → Reference

abbrev pub reference_of : WagerTransaction → Status → Reference
reference_of ref Status.processed = Reference.processed ref
reference_of ref Status.rejected = unsuccessful
reference_of ref Status.failed = unsuccessful
reference_of ref Status.pending = unsettled
reference_of ref Status.pending_reference = unsettled

abbrev pub view : Bool → Option WagerTransaction → Reference
view false o = unsettled
view true none = unsettled
view true (some ref) = reference_of ref ref.status

-- The same provider, player, wallet, round and currency.
abbrev pub same_parties : WagerTransaction → WagerTransaction → Bool
same_parties op ref =
    str_eq op.provider_id ref.provider_id
    && str_eq op.player_id ref.player_id
    && str_eq op.wallet_id ref.wallet_id
    && str_eq op.round_id ref.round_id
    && str_eq op.money.currency ref.money.currency

abbrev pub same_amount : WagerTransaction → WagerTransaction → Bool
same_amount op ref = eqb_ℤ op.money.minor ref.money.minor

abbrev pub is_done : Status → Bool
is_done Status.processed = true
is_done _ = false

-- Among some operations there is a processed one of the kind that was resolved to the transaction.
unfoldable pub is_reversed : List WagerTransaction → Kind → Str → Bool
is_reversed [] kind id = false
is_reversed (r ∷ rs) kind id =
    let rest = is_reversed rs kind id in
    if is_done r.status
    then (str_eq id r.resolved_reference_id && kind_eq kind r.kind) || rest
    else rest

-- A debit that the balance does not cover is refused with `short`.
abbrev pub take : Wallet → WagerTransaction → FailureCode → Str → Verdict
take w op short id =
    if ltb_ℤ w.balance.minor op.money.minor then refuse short else post Direction.debit id

-- A win may refer to a processed bet of the same parties, of any amount.
abbrev pub win_verdict : ApplyInput → Reference → Verdict
win_verdict inp unsettled = hold
win_verdict inp unsuccessful = refuse FailureCode.reference_unsuccessful
win_verdict inp (Reference.processed ref) =
    if not (kind_eq ref.kind Kind.bet)
    then refuse FailureCode.reference_kind_invalid
    else if not (same_parties inp.operation ref)
    then refuse FailureCode.reference_mismatch
    else post Direction.credit ref.id

-- A refund returns a processed bet of the same parties and amount that nothing has reversed.
abbrev pub refund_verdict : ApplyInput → Reference → Verdict
refund_verdict inp unsettled = hold
refund_verdict inp unsuccessful = refuse FailureCode.reference_unsuccessful
refund_verdict inp (Reference.processed ref) =
    if not (kind_eq ref.kind Kind.bet)
    then refuse FailureCode.reference_kind_invalid
    else if not (same_parties inp.operation ref && same_amount inp.operation ref)
    then refuse FailureCode.reference_mismatch
    else if is_reversed inp.processed_reversals Kind.refund ref.id
        || is_reversed inp.processed_reversals Kind.rollback ref.id
    then refuse FailureCode.duplicate_reversal
    else post Direction.credit ref.id

-- A rollback undoes a processed bet, win or refund: a bet unless anything has reversed it, a win
-- or a refund unless a rollback has, and only if the balance covers it.
abbrev pub undo : ApplyInput → Wallet → WagerTransaction → Kind → Verdict
undo inp w ref Kind.bet =
    if is_reversed inp.processed_reversals Kind.refund ref.id
      || is_reversed inp.processed_reversals Kind.rollback ref.id
    then refuse FailureCode.duplicate_reversal
    else post Direction.credit ref.id
undo inp w ref _ =
    if is_reversed inp.processed_reversals Kind.rollback ref.id
    then refuse FailureCode.duplicate_reversal
    else take w inp.operation FailureCode.insufficient_funds_reversal ref.id

abbrev pub can_undo : Kind → Bool
can_undo Kind.bet = true
can_undo Kind.win = true
can_undo Kind.refund = true
can_undo _ = false

abbrev pub rollback_verdict : ApplyInput → Wallet → Reference → Verdict
rollback_verdict inp w unsettled = hold
rollback_verdict inp w unsuccessful = refuse FailureCode.reference_unsuccessful
rollback_verdict inp w (Reference.processed ref) =
    if not (can_undo ref.kind)
    then refuse FailureCode.reference_kind_invalid
    else if not (same_parties inp.operation ref && same_amount inp.operation ref)
    then refuse FailureCode.reference_mismatch
    else undo inp w ref ref.kind

abbrev pub kind_verdict : ApplyInput → Wallet → Kind → Verdict
kind_verdict inp w Kind.bet =
    take w inp.operation FailureCode.insufficient_funds inp.operation.resolved_reference_id
kind_verdict inp w Kind.win =
    if is_empty inp.operation.reference_external_id
    then post Direction.credit []
    else win_verdict inp (view inp.reference_looked_up inp.reference)
kind_verdict inp w Kind.refund = refund_verdict inp (view inp.reference_looked_up inp.reference)
kind_verdict inp w Kind.rollback =
    rollback_verdict inp w (view inp.reference_looked_up inp.reference)
kind_verdict inp w _ = accept

abbrev pub verdict : ApplyInput → Wallet → Verdict
verdict inp w =
    if not (str_eq inp.operation.money.currency w.currency)
    then refuse FailureCode.incompatible_currency
    else kind_verdict inp w inp.operation.kind

abbrev pub direction_of : Option WalletLedgerEntry → Option Direction
direction_of none = none
direction_of (some e) = some e.direction

-- A result that carries a verdict out. Only a credit may fail, by an overflow of the balance.
abbrev pub Carries : ApplyInput → Wallet → Verdict → Res ApplyResult → Type 0
Carries inp w (refuse code) (ok r) =
    (r.operation.status ≡ Status.rejected)
    × (r.operation.failure_code ≡ code)
    × (r.wallet ≡ w)
    × (r.ledger ≡ none)
Carries inp w (refuse code) (err e) = ⊥
Carries inp w hold (ok r) =
    (r.operation.status ≡ Status.pending_reference) × (r.wallet ≡ w) × (r.ledger ≡ none)
Carries inp w hold (err e) = ⊥
Carries inp w accept (ok r) =
    (r.operation.status ≡ Status.processed) × (r.wallet ≡ w) × (r.ledger ≡ none)
Carries inp w accept (err e) = ⊥
Carries inp w (post dir id) (ok r) =
    (r.operation.status ≡ Status.processed)
    × (r.wallet.balance.minor ≡ posted dir w.balance.minor inp.operation.money.minor)
    × (direction_of r.ledger ≡ some dir)
    × (r.operation.resolved_reference_id ≡ id)
Carries inp w (post Direction.credit id) (err e) =
    (e ≡ validation FailureCode.overflow Sentinel.overflow)
    × (max_int64 <ℤ w.balance.minor +ℤ inp.operation.money.minor)
Carries inp w (post Direction.debit id) (err e) = ⊥
