-- ===== src/Examples/Samples.antt =====
-- A funded wallet, operations on it and their inputs.
use desafio_jungle_go.Prelude.{true, false, [], ◌∷◌, none, some, ◌≡◌, refl, ok, arith, inl}
use desafio_jungle_go.Prelude.Int.{pos, ◌+ℤ◌, ◌-ℤ◌}
use desafio_jungle_go.Prelude.Int64.{◌+₆₄◌, ◌-₆₄◌, wrap64, to_uint64}
use desafio_jungle_go.Prelude.Str.{Str, codes, trim_space, str_eq}
use desafio_jungle_go.Domain.Errors.{FailureCode}
use desafio_jungle_go.Domain.Types.{
  Kind, Status, Origin, Direction, parse_direction, Kind-discrete, Status-discrete,
}
use desafio_jungle_go.Domain.Money.{Money, money, parse_currency, sub, add, equal, sub_int64}
use desafio_jungle_go.Domain.Ledger.{is_blank, new_ledger_entry}
use desafio_jungle_go.Domain.Ledger.Posting.{entry_of}
use desafio_jungle_go.Domain.Event.{new_wager_transaction_processed, new_wallet_balance_changed}
use desafio_jungle_go.Domain.Wallet.{Wallet, debit, move}
use desafio_jungle_go.Domain.Wallet.Invariant.{IsValid}
use desafio_jungle_go.Domain.Wallet.Movement.{IsAmount, moved}
use desafio_jungle_go.Domain.Transaction.{
  WagerTransaction, ExternalTxParams, no_money, mark_processed,
}
use desafio_jungle_go.Domain.Transaction.Creation.{IsApplicable}
use desafio_jungle_go.Domain.Reference.{ApplyInput, ApplyResult, process_with_ledger}
use desafio_jungle_go.Domain.Apply.{apply, apply_bet}
use desafio_jungle_go.Domain.Apply.Outcome.{IsReady}
use desafio_jungle_go.Domain.Opening.{OpenWalletParams}
use desafio_jungle_go.Domain.Opening.Creation.{IsOpenable}

abbrev pub brl : Str
brl = codes "BRL"

-- 100.00 BRL
abbrev pub hundred : Money
hundred = money (pos 10000) brl

-- 25.00 BRL
abbrev pub stake : Money
stake = money (pos 2500) brl

abbrev pub opening_params : OpenWalletParams
opening_params = record {
  wallet_id = codes "w1";
  player_id = codes "p1";
  opening_tx_id = codes "t0";
  ledger_id = codes "l0";
  initial = hundred;
  now = 5;
}

abbrev pub wallet : Wallet
wallet = record {
  id = codes "w1";
  player_id = codes "p1";
  currency = brl;
  balance = hundred;
  version = pos 1;
  created_at = 5;
  updated_at = 5;
}

abbrev pub bet : WagerTransaction
bet = record {
  id = codes "t1";
  origin = Origin.external;
  provider_id = codes "acme";
  external_id = codes "e1";
  idempotency_key = codes "k1";
  payload_hash = codes "h1";
  wallet_id = codes "w1";
  player_id = codes "p1";
  round_id = codes "r1";
  game_id = codes "g1";
  kind = Kind.bet;
  money = stake;
  reference_external_id = [];
  resolved_reference_id = [];
  status = Status.pending;
  failure_code = FailureCode.empty;
  result_balance = no_money;
  has_result = false;
  created_at = 7;
  updated_at = 7;
}

abbrev pub processed_bet : WagerTransaction
processed_bet = record bet {
  status = Status.processed;
  result_balance = money (pos 7500) brl;
  has_result = true;
}

-- A refund of the bet, under its own identity.
abbrev pub refund : WagerTransaction
refund = record bet {
  id = codes "t2";
  external_id = codes "e2";
  idempotency_key = codes "k2";
  kind = Kind.refund;
  reference_external_id = codes "e1";
}

abbrev pub bet_input : ApplyInput
bet_input = record {
  wallet = some wallet;
  operation = bet;
  reference = none;
  reference_looked_up = false;
  processed_reversals = [];
  ledger_id = codes "l1";
  now = 9;
}

abbrev pub refund_input : ApplyInput
refund_input = record {
  wallet = some wallet;
  operation = refund;
  reference = some processed_bet;
  reference_looked_up = true;
  processed_reversals = [];
  ledger_id = codes "l2";
  now = 9;
}

abbrev pub bet_params : ExternalTxParams
bet_params = record {
  id = codes "t1";
  provider_id = codes "acme";
  external_id = codes "e1";
  idempotency_key = codes "k1";
  payload_hash = codes "h1";
  wallet_id = codes "w1";
  player_id = codes "p1";
  round_id = codes "r1";
  game_id = codes "g1";
  kind = codes "BET";
  money = stake;
  reference_external_id = [];
  now = 7;
}

pub brl_parsed : parse_currency brl ≡ ok brl
unfolding parse_currency trim_space
brl_parsed = refl

pub wallet-IsValid : IsValid wallet
unfolding is_blank trim_space
wallet-IsValid = record {
  has_id = refl;
  has_player = refl;
  balance_money = ground arith;
  balance_nonneg = omega arith;
  balance_currency = refl;
  currency_code = brl_parsed;
  version_fits = omega arith;
  version_pos = omega arith;
}

pub stake-IsAmount : IsAmount wallet stake
stake-IsAmount = record {
  amount_money = ground arith;
  amount_pos = omega arith;
  amount_currency = refl;
}

pub opening_params-IsOpenable : IsOpenable opening_params
unfolding is_blank trim_space
opening_params-IsOpenable = record {
  has_wallet = refl;
  has_player = refl;
  has_tx = refl;
  has_ledger = refl;
  initial_money = ground arith;
  initial_nonneg = omega arith;
  initial_currency = brl_parsed;
}

pub bet-IsApplicable : IsApplicable bet
unfolding is_blank trim_space
bet-IsApplicable = record {
  from_outside = refl;
  kind_external = λ h. cc;
  has_id = refl;
  amount_money = ground arith;
  amount_rule = ground arith;
  reference_rule = refl;
  is_open = inl refl;
}

refund-IsApplicable : IsApplicable refund
unfolding is_blank trim_space
refund-IsApplicable = record {
  from_outside = refl;
  kind_external = λ h. cc;
  has_id = refl;
  amount_money = ground arith;
  amount_rule = ground arith;
  reference_rule = refl;
  is_open = inl refl;
}

pub bet_input-IsReady : IsReady bet_input wallet
unfolding is_blank trim_space
bet_input-IsReady = record {
  wallet_valid = wallet-IsValid;
  version_room = omega arith;
  ledger_set = refl;
  applicable = bet-IsApplicable;
  consistent = (refl, refl);
}

pub refund_input-IsReady : IsReady refund_input wallet
unfolding is_blank trim_space
refund_input-IsReady = record {
  wallet_valid = wallet-IsValid;
  version_room = omega arith;
  ledger_set = refl;
  applicable = refund-IsApplicable;
  consistent = (refl, refl);
}

-- What applying the bet gives.
abbrev pub bet_done : WagerTransaction
bet_done = record processed_bet { updated_at = 9 }

abbrev pub bet_result : ApplyResult
bet_result = record {
  wallet = moved wallet (pos 7500) 9;
  operation = bet_done;
  ledger = some (
      entry_of (codes "l1") (codes "w1") (codes "t1") Direction.debit stake hundred
        (money (pos 7500) brl) 9);
  events =
      new_wager_transaction_processed bet_done 9
      ∷ new_wallet_balance_changed (record {
        wallet_id = codes "w1";
        transaction_id = codes "t1";
        direction = Direction.debit;
        money = stake;
        balance_before = hundred;
        balance_after = money (pos 7500) brl;
        wallet_version = pos 2;
        occurred_at_utc = 9;
      })
      ∷ [];
}

pub apply-bet_input : apply bet_input ≡ ok bet_result
unfolding apply apply_bet debit move new_ledger_entry process_with_ledger mark_processed sub add
    equal sub_int64 ◌+ℤ◌ ◌-ℤ◌ ◌+₆₄◌ ◌-₆₄◌ wrap64 to_uint64 str_eq is_blank trim_space
    parse_direction Kind-discrete Status-discrete
apply-bet_input = refl
