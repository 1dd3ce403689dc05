-- ===== src/Domain/Opening/Creation.antt =====
-- What `OpenWallet` of internal/domain/opening.go creates.
use desafio_jungle_go.Prelude.{◌≡◌, ok, arith, true, false, [], ◌∷◌, none, some, if◌then◌else◌}
use desafio_jungle_go.Prelude.Int.{pos, ◌≤ℤ◌, eqb_ℤ, ◌+ℤ◌, +ℤ_parts, eq_of_parts}
use desafio_jungle_go.Domain.Errors.{FailureCode}
use desafio_jungle_go.Domain.Types.{Kind, Status, Direction, Origin}
use desafio_jungle_go.Domain.Event.{new_wager_transaction_processed, new_wallet_balance_changed}
use desafio_jungle_go.Domain.Money.{money, parse_currency, zero_money, money_from_minor}
use desafio_jungle_go.Domain.Money.Sums.{IsMoney}
use desafio_jungle_go.Domain.Ledger.{WalletLedgerEntry, is_blank}
use desafio_jungle_go.Domain.Ledger.Posting.{entry_of, new_ledger_entry_lem}
use desafio_jungle_go.Domain.Wallet.{Wallet, rehydrate_wallet}
use desafio_jungle_go.Domain.Wallet.Invariant.{IsValid}
use desafio_jungle_go.Domain.Transaction.{WagerTransaction, new_opening_transaction, mark_processed}
use desafio_jungle_go.Domain.Opening.{Opening, OpenWalletParams, open_wallet}

-- Parameters that open a wallet: identifiers, and an amount of zero or more in a parsed currency.
pub record IsOpenable (p : OpenWalletParams) : Type 0 where
  pub has_wallet : is_blank p.wallet_id ≡ false
  pub has_player : is_blank p.player_id ≡ false
  pub has_tx : is_blank p.opening_tx_id ≡ false
  pub has_ledger : is_blank p.ledger_id ≡ false
  pub initial_money : IsMoney p.initial
  pub initial_nonneg : pos 0 ≤ℤ p.initial.minor
  pub initial_currency : parse_currency p.initial.currency ≡ ok p.initial.currency

-- The new wallet.
abbrev pub opened_wallet : OpenWalletParams → Wallet
opened_wallet p = record {
  id = p.wallet_id;
  player_id = p.player_id;
  currency = p.initial.currency;
  balance = p.initial;
  version = pos 1;
  created_at = p.now;
  updated_at = p.now;
}

-- The processed opening transaction.
abbrev pub opened_transaction : OpenWalletParams → WagerTransaction
opened_transaction p = record {
  id = p.opening_tx_id;
  origin = Origin.internal;
  provider_id = [];
  external_id = [];
  idempotency_key = [];
  payload_hash = [];
  wallet_id = p.wallet_id;
  player_id = p.player_id;
  round_id = [];
  game_id = [];
  kind = Kind.opening;
  money = p.initial;
  reference_external_id = [];
  resolved_reference_id = [];
  status = Status.processed;
  failure_code = FailureCode.empty;
  result_balance = p.initial;
  has_result = true;
  created_at = p.now;
  updated_at = p.now;
}

-- The credit from zero to the initial amount.
abbrev pub opened_entry : OpenWalletParams → WalletLedgerEntry
opened_entry p =
    entry_of p.ledger_id p.wallet_id p.opening_tx_id Direction.credit p.initial
      (money (pos 0) p.initial.currency) p.initial p.now

-- A wallet that is opened with zero has no transaction, no entry and no event.
abbrev pub opened_empty : OpenWalletParams → Opening
opened_empty p = record { wallet = opened_wallet p; transaction = none; ledger = none; events = [] }

abbrev pub opened_funded : OpenWalletParams → Opening
opened_funded p = record {
  wallet = opened_wallet p;
  transaction = some (opened_transaction p);
  ledger = some (opened_entry p);
  events =
      new_wager_transaction_processed (opened_transaction p) p.now
      ∷ new_wallet_balance_changed (record {
        wallet_id = p.wallet_id;
        transaction_id = p.opening_tx_id;
        direction = Direction.credit;
        money = p.initial;
        balance_before = money (pos 0) p.initial.currency;
        balance_after = p.initial;
        wallet_version = pos 1;
        occurred_at_utc = p.now;
      })
      ∷ [];
}

-- With openable parameters `OpenWallet` succeeds. An amount of zero gives a wallet of version 1 and
-- nothing else; a positive amount gives it together with a processed opening transaction, the
-- credit entry from zero to the amount, and the two events.
pub open_wallet_lem :
    (p : OpenWalletParams)
    → IsOpenable p
    → open_wallet p ≡ ok (if eqb_ℤ p.initial.minor (pos 0) then opened_empty p else opened_funded p)
unfolding open_wallet rehydrate_wallet zero_money money_from_minor new_opening_transaction
    mark_processed
open_wallet_lem p k = ground (
  arith,
  +ℤ_parts (pos 0) p.initial.minor,
  eq_of_parts p.initial.minor (pos 0 +ℤ p.initial.minor),
  new_ledger_entry_lem p.ledger_id p.wallet_id p.opening_tx_id Direction.credit p.initial
      (money (pos 0) p.initial.currency) p.initial p.now,
)

-- The new wallet is valid.
pub opened_wallet-IsValid : (p : OpenWalletParams) → IsOpenable p → IsValid (opened_wallet p)
opened_wallet-IsValid p k = ground arith
