-- ===== src/Examples/BookCases.antt =====
-- The theorems on the books at concrete inputs.
use desafio_jungle_go.Prelude.{[], ◌∷◌, ◌≡◌, refl, sym, subst, All, ok, arith, length}
use desafio_jungle_go.Prelude.Int.{pos, ◌+ℤ◌, ◌-ℤ◌, ◌<ℤ◌}
use desafio_jungle_go.Prelude.Int64.{◌+₆₄◌, ◌-₆₄◌, wrap64, to_uint64, max_int64}
use desafio_jungle_go.Prelude.Str.{
  codes, trim_space, str_eq, drop_spaces, space_width, space_width_end,
}
use desafio_jungle_go.Domain.Errors.{FailureCode-discrete}
use desafio_jungle_go.Domain.Types.{
  Kind, Status, kind_str, parse_kind, parse_direction, Kind-discrete, Status-discrete,
}
use desafio_jungle_go.Domain.Money.{
  money, zero_money, parse_currency, sub, add, equal, sub_int64, add_int64,
}
use desafio_jungle_go.Domain.Money.Sums.{IsMoney}
use desafio_jungle_go.Domain.Ledger.{is_blank, new_ledger_entry}
use desafio_jungle_go.Domain.Wallet.{Wallet, debit, credit, move, rehydrate_wallet}
use desafio_jungle_go.Domain.Transaction.{
  mark_processed, mark_pending_reference, mark_rejected, new_external_transaction,
  new_opening_transaction,
}
use desafio_jungle_go.Domain.Reference.{process_with_ledger, require_reference, wait_op}
use desafio_jungle_go.Domain.Apply.{apply, apply_bet, apply_refund}
use desafio_jungle_go.Domain.Opening.{open_wallet as open_domain_wallet}
use desafio_jungle_go.Domain.Canonical.{hash_canonical_payload, canonical_body}
use desafio_jungle_go.App.Ports.{find, any, select, update, get_wallet}
use desafio_jungle_go.App.Identity.{authorize_submit, can_access_provider}
use desafio_jungle_go.App.Tx.{Env, World, within}
use desafio_jungle_go.App.Tx.Runs.{Ended}
use desafio_jungle_go.App.Service.{records_from_events, records_loop, persist_outbox, persist_apply}
use desafio_jungle_go.App.Lookup.{SubmitCommand, find_replay}
use desafio_jungle_go.App.Submit.{submit, submit_in_tx, first_submit, apply_in_tx}
use desafio_jungle_go.App.Books.{IsBooked, entries_for}
use desafio_jungle_go.App.Books.Applying.{IssuesIds}
use desafio_jungle_go.App.Books.Submitting.{IsOpen, submit-IsBooked}
use desafio_jungle_go.App.Open.{OpenWalletCommand, open_wallet}
use desafio_jungle_go.App.Open.Keeping.{open_wallet-IsBooked}
use desafio_jungle_go.App.Inbound.{InboundCommand, handle_inbound}
use desafio_jungle_go.App.Inbound.Keeping.{handle_inbound-IsBooked}
use desafio_jungle_go.App.Pending.{
  PendingWork, PendingOutcome, ResumeParams, pending_exhausted, resume_one,
}
use desafio_jungle_go.App.Pending.Keeping.{resume_one-IsBooked}
use desafio_jungle_go.App.Reconcile.{reconcile_wallet}
use desafio_jungle_go.App.Reconcile.Agreement.{agreed, reconcile_wallet_lem}
use desafio_jungle_go.App.System.{submitting, opening, serve, Serves, idle, served}
use desafio_jungle_go.App.System.Keeping.{
  Serves-IsBooked, empty_db, empty_db-IsBooked, reconcile_wallet-Serves,
}
use desafio_jungle_go.Examples.Samples.{brl, hundred, stake}
use desafio_jungle_go.Examples.AppCases.{env, command}

-- Identifiers with letters around their number.
abbrev pub named_env : Env
named_env = record env { new_id = λ n. 120 ∷ n ∷ 120 ∷ 120 ∷ 120 ∷ [] }

pub named_env-IssuesIds : IssuesIds named_env
unfolding is_blank trim_space drop_spaces space_width space_width_end
named_env-IssuesIds n = refl

abbrev pub empty_world : World
empty_world = record { committed = empty_db; mine = empty_db; others = []; calls = 0 }

abbrev pub opening_command : OpenWalletCommand
opening_command = record {
  player_id = codes "p1";
  initial_balance = hundred;
  correlation_id = codes "x0";
}

pub hundred-IsMoney : IsMoney hundred
hundred-IsMoney = record { is_initialized = refl; fits = (omega arith, omega arith) }

pub hundred-currency : parse_currency hundred.currency ≡ ok hundred.currency
unfolding parse_currency trim_space
hundred-currency = refl

open_wallet-IsBooked_example : Ended IsBooked (open_wallet named_env opening_command empty_world).1
open_wallet-IsBooked_example =
    open_wallet-IsBooked named_env opening_command empty_world named_env-IssuesIds hundred-IsMoney
      hundred-currency refl empty_db-IsBooked

abbrev pub opened : World
opened = (open_wallet named_env opening_command empty_world).1

-- The wallet that has been opened.
abbrev pub opened_wallet : Wallet
opened_wallet = record {
  id = 120 ∷ 0 ∷ 120 ∷ 120 ∷ 120 ∷ [];
  player_id = codes "p1";
  currency = brl;
  balance = hundred;
  version = pos 1;
  created_at = 9;
  updated_at = 9;
}

pub opened_wallets : opened.committed.wallets ≡ opened_wallet ∷ []
unfolding open_wallet open_domain_wallet rehydrate_wallet new_opening_transaction within any
    records_from_events records_loop persist_outbox credit move new_ledger_entry mark_processed sub
    add equal sub_int64 add_int64 ◌+ℤ◌ ◌-ℤ◌ ◌+₆₄◌ ◌-₆₄◌ wrap64 to_uint64 str_eq is_blank trim_space
    parse_direction Kind-discrete Status-discrete parse_currency zero_money
opened_wallets = refl

pub opened-IsBooked : Ended IsBooked opened
opened-IsBooked =
    open_wallet-IsBooked named_env opening_command empty_world named_env-IssuesIds hundred-IsMoney
      hundred-currency refl empty_db-IsBooked

pub opened-IsOpen : IsOpen opened.committed
opened-IsOpen = record {
  booked = opened-IsBooked.holds;
  room = subst (λ ws. All (λ w. w.version <ℤ max_int64) ws) (sym opened_wallets) (omega arith, tt);
}

-- A bet on the wallet that has been opened.
abbrev pub bet_command : SubmitCommand
bet_command = record command { wallet_id = opened_wallet.id }

pub stake-IsMoney : IsMoney stake
stake-IsMoney = record { is_initialized = refl; fits = (omega arith, omega arith) }

submit-IsBooked_example : Ended IsBooked (submit named_env bet_command opened).1
submit-IsBooked_example =
    submit-IsBooked named_env bet_command opened named_env-IssuesIds stake-IsMoney
      opened-IsBooked.quiet opened-IsOpen

-- The same bet as a message of the queue.
abbrev message : InboundCommand
message = record {
  consumer_name = codes "wager-transactions";
  message_id = codes "m1";
  payload_hash = codes "0123456789abcdef0123456789abcdef0123456789abcdef0123456789abcdef";
  submit = bet_command;
}

handle_inbound-IsBooked_example : Ended IsBooked (handle_inbound named_env message opened).1
handle_inbound-IsBooked_example =
    handle_inbound-IsBooked named_env message opened named_env-IssuesIds stake-IsMoney
      opened-IsBooked.quiet opened-IsOpen

-- A refund of a bet that has not arrived.
abbrev refund_command : SubmitCommand
refund_command = record bet_command { kind = Kind.refund; reference_external_id = codes "e9" }

abbrev waiting : World
waiting = (submit named_env refund_command opened).1

waiting-IsBooked : Ended IsBooked waiting
waiting-IsBooked =
    submit-IsBooked named_env refund_command opened named_env-IssuesIds stake-IsMoney
      opened-IsBooked.quiet opened-IsOpen

waiting_wallets : waiting.committed.wallets ≡ opened_wallet ∷ []
unfolding submit within submit_in_tx find_replay first_submit apply_in_tx authorize_submit
    can_access_provider hash_canonical_payload canonical_body find any update records_from_events
    records_loop persist_outbox persist_apply new_external_transaction parse_kind kind_str apply
    apply_bet debit move new_ledger_entry process_with_ledger mark_processed sub add equal sub_int64
    ◌+ℤ◌ ◌-ℤ◌ ◌+₆₄◌ ◌-₆₄◌ wrap64 to_uint64 str_eq is_blank trim_space parse_direction Kind-discrete
    Status-discrete open_wallet open_domain_wallet rehydrate_wallet new_opening_transaction credit
    add_int64 parse_currency zero_money mark_pending_reference apply_refund require_reference
    wait_op
waiting_wallets = refl

waiting-IsOpen : IsOpen waiting.committed
waiting-IsOpen = record {
  booked = waiting-IsBooked.holds;
  room = subst (λ ws. All (λ w. w.version <ℤ max_int64) ws) (sym waiting_wallets) (omega arith, tt);
}

abbrev work : PendingWork
work = record {
  transaction_id = 120 ∷ 7 ∷ 120 ∷ 120 ∷ 120 ∷ [];
  wallet_id = opened_wallet.id;
  attempts = pos 3;
  created_at = 9;
  status = Status.pending_reference;
}

abbrev params : ResumeParams
params = record {
  batch = pos 10;
  lease = pos 30000000000;
  backoff_max = pos 60000000000;
  max_attempts = pos 3;
  ttl = pos 0;
}

-- The refund has been tried often enough.
work_rejected : (resume_one named_env work params waiting).0 ≡ ok PendingOutcome.rejected
unfolding submit within submit_in_tx find_replay first_submit apply_in_tx authorize_submit
    can_access_provider hash_canonical_payload canonical_body find any update records_from_events
    records_loop persist_outbox persist_apply new_external_transaction parse_kind kind_str apply
    apply_bet debit move new_ledger_entry process_with_ledger mark_processed sub add equal sub_int64
    ◌+ℤ◌ ◌-ℤ◌ ◌+₆₄◌ ◌-₆₄◌ wrap64 to_uint64 str_eq is_blank trim_space parse_direction Kind-discrete
    Status-discrete open_wallet open_domain_wallet rehydrate_wallet new_opening_transaction credit
    add_int64 parse_currency zero_money mark_pending_reference apply_refund require_reference
    wait_op resume_one pending_exhausted mark_rejected FailureCode-discrete
work_rejected = refl

resume_one-IsBooked_example : Ended IsBooked (resume_one named_env work params waiting).1
resume_one-IsBooked_example =
    resume_one-IsBooked named_env work params waiting named_env-IssuesIds waiting-IsBooked.quiet
      waiting-IsOpen

abbrev bet_world : World
bet_world =
    serve named_env (submitting bet_command) (serve named_env (opening opening_command) empty_world)

bet_world-Serves : Serves named_env empty_world bet_world
unfolding serve
bet_world-Serves =
    served (submitting bet_command)
      (served (opening opening_command) idle (hundred-IsMoney, hundred-currency) tt) stake-IsMoney
      opened-IsOpen.room

Serves-IsBooked_example : Ended IsBooked bet_world
Serves-IsBooked_example =
    Serves-IsBooked named_env empty_world bet_world named_env-IssuesIds refl empty_db-IsBooked
      bet_world-Serves

-- The wallet after the bet.
abbrev bet_wallet : Wallet
bet_wallet = record opened_wallet { balance = money (pos 7500) brl; version = pos 2 }

bet_world_wallet : get_wallet opened_wallet.id bet_world.committed ≡ ok bet_wallet
unfolding submit within submit_in_tx find_replay first_submit apply_in_tx authorize_submit
    can_access_provider hash_canonical_payload canonical_body find any update records_from_events
    records_loop persist_outbox persist_apply new_external_transaction parse_kind kind_str apply
    apply_bet debit move new_ledger_entry process_with_ledger mark_processed sub add equal sub_int64
    ◌+ℤ◌ ◌-ℤ◌ ◌+₆₄◌ ◌-₆₄◌ wrap64 to_uint64 str_eq is_blank trim_space parse_direction Kind-discrete
    Status-discrete open_wallet open_domain_wallet rehydrate_wallet new_opening_transaction credit
    add_int64 parse_currency zero_money serve
bet_world_wallet = refl

bet_world_entries : length (entries_for opened_wallet.id bet_world.committed.ledger) ≡ 2
unfolding submit within submit_in_tx find_replay first_submit apply_in_tx authorize_submit
    can_access_provider hash_canonical_payload canonical_body find any update records_from_events
    records_loop persist_outbox persist_apply new_external_transaction parse_kind kind_str apply
    apply_bet debit move new_ledger_entry process_with_ledger mark_processed sub add equal sub_int64
    ◌+ℤ◌ ◌-ℤ◌ ◌+₆₄◌ ◌-₆₄◌ wrap64 to_uint64 str_eq is_blank trim_space parse_direction Kind-discrete
    Status-discrete open_wallet open_domain_wallet rehydrate_wallet new_opening_transaction credit
    add_int64 parse_currency zero_money serve select
bet_world_entries = refl

reconcile_wallet-Serves_example :
    reconcile_wallet opened_wallet.id bet_world
    ≡ (ok (agreed bet_world.committed bet_wallet), record bet_world { mine = bet_world.committed })
reconcile_wallet-Serves_example =
    reconcile_wallet-Serves named_env empty_world bet_world opened_wallet.id bet_wallet
      named_env-IssuesIds refl refl bet_world-Serves bet_world_wallet
      (omega (arith, bet_world_entries))

opened_world_wallet : get_wallet opened_wallet.id opened.committed ≡ ok opened_wallet
unfolding open_wallet open_domain_wallet rehydrate_wallet new_opening_transaction within any
    records_from_events records_loop persist_outbox credit move new_ledger_entry mark_processed sub
    add equal sub_int64 add_int64 ◌+ℤ◌ ◌-ℤ◌ ◌+₆₄◌ ◌-₆₄◌ wrap64 to_uint64 str_eq is_blank trim_space
    parse_direction Kind-discrete Status-discrete parse_currency zero_money find
opened_world_wallet = refl

opened_entries : length (entries_for opened_wallet.id opened.committed.ledger) ≡ 1
unfolding open_wallet open_domain_wallet rehydrate_wallet new_opening_transaction within any
    records_from_events records_loop persist_outbox credit move new_ledger_entry mark_processed sub
    add equal sub_int64 add_int64 ◌+ℤ◌ ◌-ℤ◌ ◌+₆₄◌ ◌-₆₄◌ wrap64 to_uint64 str_eq is_blank trim_space
    parse_direction Kind-discrete Status-discrete parse_currency zero_money select
opened_entries = refl

reconcile_wallet_lem_example :
    reconcile_wallet opened_wallet.id opened
    ≡ (ok (agreed opened.committed opened_wallet), record opened { mine = opened.committed })
reconcile_wallet_lem_example =
    reconcile_wallet_lem opened_wallet.id opened_wallet opened opened-IsBooked.quiet
      opened-IsBooked.holds opened_world_wallet (omega (arith, opened_entries))
