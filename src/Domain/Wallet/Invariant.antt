-- ===== src/Domain/Wallet/Invariant.antt =====
-- The invariant of a wallet of internal/domain/wallet.go, and `RehydrateWallet`.
use desafio_jungle_go.Prelude.{◌≡◌, ok, arith, false}
use desafio_jungle_go.Prelude.Int.{ℤ, pos, ◌≤ℤ◌}
use desafio_jungle_go.Prelude.Int64.{IsInt64}
use desafio_jungle_go.Prelude.Str.{Str}
use desafio_jungle_go.Prelude.Time.{Time}
use desafio_jungle_go.Domain.Money.{Money, parse_currency}
use desafio_jungle_go.Domain.Money.Sums.{IsMoney}
use desafio_jungle_go.Domain.Ledger.{is_blank}
use desafio_jungle_go.Domain.Wallet.{Wallet, rehydrate_wallet}

-- A wallet has identifiers, a balance of zero or more in its own currency, and a version from 1 up.
pub record IsValid (w : Wallet) : Type 0 where
  pub has_id : is_blank w.id ≡ false
  pub has_player : is_blank w.player_id ≡ false
  pub balance_money : IsMoney w.balance
  pub balance_nonneg : pos 0 ≤ℤ w.balance.minor
  pub balance_currency : w.balance.currency ≡ w.currency
  pub currency_code : parse_currency w.currency ≡ ok w.currency
  pub version_fits : IsInt64 w.version
  pub version_pos : pos 1 ≤ℤ w.version

-- A wallet that is rebuilt from values of `int64` and from a balance with a parsed currency is
-- valid, and has the balance and the version given.
pub rehydrate_wallet-IsValid :
    (id player_id : Str) (balance : Money) (version : ℤ) (created_at updated_at : Time) {w : Wallet}
    → IsMoney balance
    → parse_currency balance.currency ≡ ok balance.currency
    → IsInt64 version
    → rehydrate_wallet id player_id balance version created_at updated_at ≡ ok w
    → IsValid w × (w.balance ≡ balance) × (w.version ≡ version)
unfolding rehydrate_wallet
rehydrate_wallet-IsValid id player_id balance version created_at updated_at hm hc hv h =
    ground arith
