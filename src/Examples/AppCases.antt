-- ===== src/Examples/AppCases.antt =====
-- The theorems on internal/app at concrete inputs.
use desafio_jungle_go.Prelude.{◌+◌, [], ◌∷◌, ◌≡◌, ◌↔◌, refl, ok, err, true, false, arith}
use desafio_jungle_go.Prelude.Int.{pos, ◌+ℤ◌, ◌-ℤ◌, ◌<ℤ◌, ◌≤ℤ◌}
use desafio_jungle_go.Prelude.Int64.{◌+₆₄◌, ◌-₆₄◌, wrap64, to_uint64}
use desafio_jungle_go.Prelude.Str.{codes, trim_space, str_eq}
use desafio_jungle_go.Domain.Types.{
  Kind, kind_str, parse_kind, parse_direction, Kind-discrete, Status-discrete,
}
use desafio_jungle_go.Domain.Money.{sub, add, equal, sub_int64}
use desafio_jungle_go.Domain.Ledger.{is_blank, new_ledger_entry}
use desafio_jungle_go.Domain.Wallet.{debit, move}
use desafio_jungle_go.Domain.Transaction.{
  WagerTransaction, mark_processed, new_external_transaction,
}
use desafio_jungle_go.Domain.Reference.{process_with_ledger}
use desafio_jungle_go.Domain.Apply.{apply, apply_bet}
use desafio_jungle_go.Domain.Idempotency.{check_external_identity}
use desafio_jungle_go.Domain.Canonical.{hash_canonical_payload, canonical_body}
use desafio_jungle_go.App.Ports.{Db, find, any, update}
use desafio_jungle_go.App.Identity.{Actor, authorize_submit, can_access_provider}
use desafio_jungle_go.App.Identity.Access.{MaySubmit, authorize_submit_lem}
use desafio_jungle_go.App.Backoff.{backoff, cap_of}
use desafio_jungle_go.App.Backoff.Delay.{doubled, backoff_lem, backoff-IsBounded}
use desafio_jungle_go.App.Tx.{Env, World, within}
use desafio_jungle_go.App.Service.{records_from_events, records_loop, persist_outbox, persist_apply}
use desafio_jungle_go.App.Lookup.{SubmitCommand, find_replay}
use desafio_jungle_go.App.Submit.{submit, submit_in_tx, first_submit, apply_in_tx}
use desafio_jungle_go.App.Submit.Again.{submit-submit}
use desafio_jungle_go.App.Submit.Conflict.{taken, IsHashed, submit_other_payload}
use desafio_jungle_go.Examples.Samples.{stake, wallet, bet_done}

-- Identifiers are numbered, the clock stands still, and the digest is the game.
abbrev pub env : Env
env = record {
  new_id = λ n. (116 + n) ∷ [];
  now = λ n. 9;
  digest = λ b. b.game_id;
  marshal = λ e. codes "{}";
}

abbrev pub actor : Actor
actor = record {
  subject = codes "s1";
  client_id = codes "c1";
  provider_id = codes "acme";
  internal = false;
}

abbrev pub command : SubmitCommand
command = record {
  actor = actor;
  idempotency_key = codes "k1";
  provider_id = codes "acme";
  external_id = codes "e1";
  player_id = codes "p1";
  wallet_id = codes "w1";
  round_id = codes "r1";
  game_id = codes "g1";
  kind = Kind.bet;
  money = stake;
  reference_external_id = [];
  correlation_id = codes "x1";
}

abbrev pub tables : Db
tables = record { wallets = wallet ∷ []; transactions = []; ledger = []; outbox = []; inbox = [] }

abbrev pub world : World
world = record { committed = tables; mine = tables; others = []; calls = 0 }

abbrev accepted : WagerTransaction
accepted = record bet_done {
  id = 117 ∷ [];
  payload_hash = codes "g1";
  created_at = 9;
  updated_at = 9;
}

abbrev later : World
later = (submit env command world).1

command-accepted : submit env command world ≡ (ok (accepted, false), later)
unfolding submit within submit_in_tx find_replay first_submit apply_in_tx authorize_submit
    can_access_provider hash_canonical_payload canonical_body find any update records_from_events
    records_loop persist_outbox persist_apply new_external_transaction parse_kind kind_str apply
    apply_bet debit move new_ledger_entry process_with_ledger mark_processed sub add equal sub_int64
    ◌+ℤ◌ ◌-ℤ◌ ◌+₆₄◌ ◌-₆₄◌ wrap64 to_uint64 str_eq is_blank trim_space parse_direction Kind-discrete
    Status-discrete
command-accepted = refl

submit-submit_example :
    submit env command later ≡ (ok (accepted, true), record later { mine = later.committed })
submit-submit_example = submit-submit env command world refl command-accepted

-- The same key for another game.
abbrev other_command : SubmitCommand
other_command = record command { game_id = codes "g12" }

command-IsHashed : IsHashed env command (codes "g1")
unfolding authorize_submit can_access_provider str_eq hash_canonical_payload canonical_body
command-IsHashed = record { allowed = refl; hashed = refl }

other_command-IsHashed : IsHashed env other_command (codes "g12")
unfolding authorize_submit can_access_provider str_eq hash_canonical_payload canonical_body
other_command-IsHashed = record { allowed = refl; hashed = refl }

submit_other_payload_example :
    submit env other_command later ≡ (err taken, record later { mine = later.committed })
submit_other_payload_example =
    submit_other_payload env command other_command world refl command-accepted refl refl
      command-IsHashed other_command-IsHashed (λ h. cc)

authorize_submit_lem_example :
    (authorize_submit actor (codes "acme") ≡ true) ↔ MaySubmit actor (codes "acme")
authorize_submit_lem_example = authorize_submit_lem actor (codes "acme")

backoff-IsBounded_example :
    (pos 0 <ℤ backoff (pos 4) (pos 30000000000))
    × (backoff (pos 4) (pos 30000000000) ≤ℤ cap_of (pos 30000000000))
backoff-IsBounded_example = backoff-IsBounded (pos 4) (pos 30000000000)

backoff_lem_example : backoff (pos 4) (pos 30000000000) ≡ doubled 3 (cap_of (pos 30000000000))
backoff_lem_example = backoff_lem 3 (pos 30000000000) (omega arith)

-- Between the two lookups of a command another transaction commits an operation with the same key
-- and external identifier for another game: the command gets it as its replay.
abbrev raced_world : World
raced_world = record world {
  others = (λ d. d) ∷ (λ d. record d { transactions = accepted ∷ [] }) ∷ [];
}

raced_payload : (submit env other_command raced_world).0 ≡ ok (accepted, true)
unfolding submit within submit_in_tx find_replay authorize_submit can_access_provider
    hash_canonical_payload canonical_body find str_eq check_external_identity
raced_payload = refl
