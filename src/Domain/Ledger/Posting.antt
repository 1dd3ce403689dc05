-- ===== src/Domain/Ledger/Posting.antt =====
-- What `NewLedgerEntry` of internal/domain/ledger.go admits.
use desafio_jungle_go.Prelude.{◌≡◌, ok, arith, false}
use desafio_jungle_go.Prelude.Int.{ℤ, pos, ◌+ℤ◌, ◌-ℤ◌, ◌<ℤ◌, ◌≤ℤ◌}
use desafio_jungle_go.Prelude.Str.{Str, str_eq_iff}
use desafio_jungle_go.Prelude.Time.{Time}
use desafio_jungle_go.Domain.Types.{Direction, direction_str, parse_direction-str}
use desafio_jungle_go.Domain.Money.{Money, money as mk_money}
use desafio_jungle_go.Domain.Money.Sums.{IsMoney, add_lem, sub_lem, equal_lem}
use desafio_jungle_go.Domain.Ledger.{WalletLedgerEntry, new_ledger_entry, is_blank}

-- The balance after a posting, as an integer.
abbrev pub posted : Direction → ℤ → ℤ → ℤ
posted Direction.debit before money = before -ℤ money
posted Direction.credit before money = before +ℤ money

-- A consistent posting: a positive amount that takes one balance to another in one currency,
-- neither of them negative.
pub record IsPosting (e : WalletLedgerEntry) : Type 0 where
  pub positive : pos 0 <ℤ e.money.minor
  pub before_nonneg : pos 0 ≤ℤ e.balance_before.minor
  pub after_nonneg : pos 0 ≤ℤ e.balance_after.minor
  pub before_currency : e.balance_before.currency ≡ e.money.currency
  pub after_currency : e.balance_after.currency ≡ e.money.currency
  pub balanced : e.balance_after.minor ≡ posted e.direction e.balance_before.minor e.money.minor

-- The entry that says what its arguments are.
abbrev pub entry_of : Str → Str → Str → Direction → Money → Money → Money → Time → WalletLedgerEntry
entry_of id wallet_id transaction_id dir money before after now = record {
  id = id;
  wallet_id = wallet_id;
  transaction_id = transaction_id;
  direction = dir;
  money = money;
  balance_before = before;
  balance_after = after;
  created_at = now;
}

-- An entry that the constructor returns has the identifiers, the direction, the amounts and the time
-- that it was given, and is a consistent posting, if the amounts are well-formed.
pub new_ledger_entry-IsPosting :
    (id wallet_id transaction_id : Str) (dir : Direction) (money before after : Money) (now : Time)
    {e : WalletLedgerEntry}
    → IsMoney money
    → IsMoney before
    → IsMoney after
    → new_ledger_entry id wallet_id transaction_id (direction_str dir) money before after now ≡ ok e
    → (e ≡ entry_of id wallet_id transaction_id dir money before after now) × IsPosting e
unfolding new_ledger_entry
new_ledger_entry-IsPosting id wallet_id transaction_id Direction.debit money before after now hm hb
      ha h =
    ground (
      arith,
      parse_direction-str Direction.debit,
      str_eq_iff money.currency before.currency,
      str_eq_iff money.currency after.currency,
      sub_lem before money,
      equal_lem (mk_money (before.minor -ℤ money.minor) before.currency) after,
    )
new_ledger_entry-IsPosting id wallet_id transaction_id Direction.credit money before after now hm hb
      ha h =
    ground (
      arith,
      parse_direction-str Direction.credit,
      str_eq_iff money.currency before.currency,
      str_eq_iff money.currency after.currency,
      add_lem before money,
      equal_lem (mk_money (before.minor +ℤ money.minor) before.currency) after,
    )

-- With identifiers that are not blank, the constructor admits every consistent posting.
pub new_ledger_entry_lem :
    (id wallet_id transaction_id : Str) (dir : Direction) (money before after : Money) (now : Time)
    → IsMoney money
    → IsMoney before
    → IsMoney after
    → is_blank id ≡ false
    → is_blank wallet_id ≡ false
    → is_blank transaction_id ≡ false
    → IsPosting (entry_of id wallet_id transaction_id dir money before after now)
    → new_ledger_entry id wallet_id transaction_id (direction_str dir) money before after now
      ≡ ok (entry_of id wallet_id transaction_id dir money before after now)
unfolding new_ledger_entry
new_ledger_entry_lem id wallet_id transaction_id Direction.debit money before after now hm hb ha b c
      d p =
    ground (
      arith,
      parse_direction-str Direction.debit,
      str_eq_iff money.currency before.currency,
      str_eq_iff money.currency after.currency,
      sub_lem before money,
      equal_lem (mk_money (before.minor -ℤ money.minor) before.currency) after,
    )
new_ledger_entry_lem id wallet_id transaction_id Direction.credit money before after now hm hb ha b
      c d p =
    ground (
      arith,
      parse_direction-str Direction.credit,
      str_eq_iff money.currency before.currency,
      str_eq_iff money.currency after.currency,
      add_lem before money,
      equal_lem (mk_money (before.minor +ℤ money.minor) before.currency) after,
    )
