-- ===== src/Domain/Ledger.antt =====
-- internal/domain/ledger.go: the immutable posting and the checks of its constructor.
pub mod Posting
use desafio_jungle_go.Prelude.{not, ◌||◌, ok, ◌>>=◌, ◌>>◌, guard, Bool}
use desafio_jungle_go.Prelude.Str.{Str, trim_space, is_empty}
use desafio_jungle_go.Prelude.Time.{Time, utc}
use desafio_jungle_go.Domain.Errors.{Res, FailureCode, Sentinel, validation}
use desafio_jungle_go.Domain.Types.{Direction, parse_direction}
use desafio_jungle_go.Domain.Money.{
  Money, is_positive, is_negative, require_compatible, add, sub, equal,
}

pub record WalletLedgerEntry : Type 0 where
  pub id : Str
  pub wallet_id : Str
  pub transaction_id : Str
  pub direction : Direction
  pub money : Money
  pub balance_before : Money
  pub balance_after : Money
  pub created_at : Time

-- `strings.TrimSpace(value) == ""`
unfoldable pub is_blank : Str → Bool
is_blank value = is_empty (trim_space value)

-- `requireID`, without the name in its message.
abbrev pub require_id : Str → Res (Unit {0})
require_id value =
    guard (not (is_blank value)) (validation FailureCode.missing_identity Sentinel.missing_identity)

-- The balance that a posting leads to.
abbrev pub expected_balance : Direction → Money → Money → Res Money
expected_balance Direction.debit before money = sub before money
expected_balance Direction.credit before money = add before money

-- `newLedgerEntry`. The direction is the string that Go's `Direction` is.
unfoldable pub new_ledger_entry :
    Str → Str → Str → Str → Money → Money → Money → Time → Res WalletLedgerEntry
new_ledger_entry id wallet_id transaction_id direction money before after created_at = do
  require_id id
  require_id wallet_id
  require_id transaction_id
  dir ← parse_direction direction
  guard (is_positive money)
      (validation FailureCode.positive_amount_required Sentinel.positive_amount_required)
  require_compatible money before
  require_compatible money after
  guard (not (is_negative before || is_negative after))
      (validation FailureCode.ledger_invariant Sentinel.ledger_invariant)
  expected ← expected_balance dir before money
  eq ← equal expected after
  guard eq (validation FailureCode.ledger_invariant Sentinel.ledger_invariant)
  ok (record {
    id = id;
    wallet_id = wallet_id;
    transaction_id = transaction_id;
    direction = dir;
    money = money;
    balance_before = before;
    balance_after = after;
    created_at = utc created_at;
  })

-- `RehydrateLedgerEntry`
unfoldable pub rehydrate_ledger_entry :
    Str → Str → Str → Str → Money → Money → Money → Time → Res WalletLedgerEntry
rehydrate_ledger_entry = new_ledger_entry
