-- ===== src/Examples/AdapterCases.antt =====
-- The theorems on the adapters, the relay and the reads at concrete inputs.
use desafio_jungle_go.Prelude.{
  ℕ, zero, suc, ◌≤◌, [], ◌∷◌, List, ◌≡◌, ◌↔◌, refl, ap, ok, err, true, false, arith, length, none,
  some, Option, ◌⊎◌, if◌then◌else◌,
}
use desafio_jungle_go.Prelude.Int.{pos}
use desafio_jungle_go.Prelude.Str.{Str, codes, str_eq, trim_space}
use desafio_jungle_go.Prelude.Sorting.{sort_by, insert_by, take}
use desafio_jungle_go.Domain.Types.{Kind, Direction, kind_str, parse_kind, Kind-discrete}
use desafio_jungle_go.Domain.Ledger.{is_blank, WalletLedgerEntry}
use desafio_jungle_go.Domain.Ledger.Posting.{entry_of}
use desafio_jungle_go.Domain.Money.{money}
use desafio_jungle_go.App.Inbound.{InboundCommand}
use desafio_jungle_go.App.Ports.{Db, OutboxRecord, any, select, find}
use desafio_jungle_go.App.Tx.{World, within}
use desafio_jungle_go.App.Relay.{Relay, Line, publish_due, publish_rows}
use desafio_jungle_go.App.Relay.Delivery.{
  IsDelivered, total, publish_due-Counts, publish_due-IsDelivered,
}
use desafio_jungle_go.App.Relay.Rows.{Row, rows_claimer, rows_laws, claim, mark_published}
use desafio_jungle_go.App.Read.{
  CursorCodec, LedgerPage, split_bar, encode_ledger_cursor, decode_ledger_cursor, clamp_limit,
  list_by_wallet, list_ledger,
}
use desafio_jungle_go.App.Read.Paging.{CodecLaws, decode-encode, list_ledger-bounds}
use desafio_jungle_go.Adapter.Sqs.{
  WireEnvelope, WireData, syntax, Codec, disposition_of, envelope_type, parse_inbound,
}
use desafio_jungle_go.Adapter.Sqs.Parsing.{Accepted, parse_inbound-Accepted}
use desafio_jungle_go.Adapter.Sqs.Consumer.{InboundMessage, Queue, Consumer, handle}
use desafio_jungle_go.Adapter.Sqs.Consumer.Handling.{deleted, copied, is_committed, handle-deleted}
use desafio_jungle_go.Examples.Samples.{brl, hundred, stake}
use desafio_jungle_go.Examples.AppCases.{tables}
use desafio_jungle_go.Examples.BookCases.{named_env, opened, opened_wallet}

-- A message of the queue with a bet, and a codec that reads it from a body of one byte.
abbrev bet_envelope : WireEnvelope
bet_envelope = record { message_id = codes "m1"; type = envelope_type; raw_data = codes "d" }

abbrev bet_data : WireData
bet_data = record {
  provider_id = codes "acme";
  external_id = codes "e1";
  idempotency_key = codes "k1";
  player_id = codes "p1";
  wallet_id = opened_wallet.id;
  round_id = codes "r1";
  game_id = codes "g1";
  kind = codes "BET";
  money = stake;
  reference_external_id = [];
}

abbrev codec : Codec
codec = record {
  envelope = λ s. if str_eq s (codes "b") then some bet_envelope else none;
  wire_data = λ s. if str_eq s (codes "d") then ok bet_data else err syntax;
  hash_body = λ s. codes "0123456789abcdef0123456789abcdef0123456789abcdef0123456789abcdef";
}

-- The command that the message says.
abbrev bet_inbound : InboundCommand
bet_inbound = record {
  consumer_name = codes "wager-transactions";
  message_id = codes "m1";
  payload_hash = codes "0123456789abcdef0123456789abcdef0123456789abcdef0123456789abcdef";
  submit = record {
    actor = record {
      subject = [];
      client_id = codes "sqs";
      provider_id = codes "acme";
      internal = false;
    };
    idempotency_key = codes "k1";
    provider_id = codes "acme";
    external_id = codes "e1";
    player_id = codes "p1";
    wallet_id = opened_wallet.id;
    round_id = codes "r1";
    game_id = codes "g1";
    kind = Kind.bet;
    money = stake;
    reference_external_id = [];
    correlation_id = codes "m1";
  };
}

bet_parsed : parse_inbound codec (codes "b") ≡ ok bet_inbound
unfolding parse_inbound str_eq is_blank trim_space parse_kind kind_str Kind-discrete
bet_parsed = refl

parse_inbound-Accepted_example :
    (parse_inbound codec (codes "b") ≡ ok bet_inbound) ↔ Accepted codec (codes "b") bet_inbound
parse_inbound-Accepted_example = parse_inbound-Accepted codec (codes "b") bet_inbound

abbrev consumer : Consumer
consumer = record {
  env = named_env;
  codec = codec;
  backoff_max = pos 60000000000;
  accepts = λ r. true;
  after_commit = none;
}

-- A message with another body.
abbrev bad_message : InboundMessage
bad_message = record {
  receipt_handle = codes "h1";
  body = codes "z";
  receive_count = pos 1;
  group_id = opened_wallet.id;
}

abbrev queue : Queue
queue = record { accepted = []; retries = 0; dead = 0 }

bad_message-deleted :
    deleted (codes "h1") (handle consumer bad_message (opened, queue)).1.accepted ≡ true
unfolding handle parse_inbound str_eq deleted disposition_of
bad_message-deleted = refl

handle-deleted_example :
    (is_committed consumer bad_message opened ≡ true)
    ⊎ ((deleted (codes "h1") queue.accepted ≡ true)
        ⊎ (copied (codes "z") (handle consumer bad_message (opened, queue)).1.accepted ≡ true))
handle-deleted_example = handle-deleted consumer bad_message opened queue bad_message-deleted

-- An event of the outbox, and a bus that accepts it.
abbrev outbox_event : OutboxRecord
outbox_event = record {
  event_id = codes "v1";
  event_type = codes "WalletBalanceChanged";
  event_version = 1;
  aggregate_id = codes "w1";
  correlation_id = codes "x1";
  causation_id = codes "t1";
  occurred_at = 7;
  payload = codes "{}";
  attempts = 0;
}

abbrev outbox_row : Row
outbox_row = record { event = outbox_event; next_attempt_at = 7; published_at = none }

abbrev relay : Relay (List Row)
relay = record {
  claimer = rows_claimer;
  batch = pos 10;
  lease = pos 30;
  backoff_max = pos 60000000000;
  publish = λ n e. true;
  after_pub = none;
  ended = λ n. false;
}

abbrev line : Line (List Row)
line = record { store = outbox_row ∷ []; sent = []; given = 0 }

line-IsDelivered : IsDelivered rows_laws line
unfolding any rows_laws
line-IsDelivered id h = ground (arith, h)

publish_due-IsDelivered_example : IsDelivered rows_laws (publish_due relay 9 line).line
publish_due-IsDelivered_example = publish_due-IsDelivered relay rows_laws 9 line line-IsDelivered

outbox_claimed :
    (relay.claimer.claim relay.batch 9 relay.lease line.store).0
    ≡ ok (record outbox_event { attempts = 1 } ∷ [])
unfolding claim select sort_by insert_by take
outbox_claimed = refl

outbox_published : (publish_due relay 9 line).error ≡ none
unfolding publish_due publish_rows claim select sort_by insert_by take mark_published
outbox_published = refl

publish_due-Counts_example : total (publish_due relay 9 line).result ≡ 1
publish_due-Counts_example =
    publish_due-Counts relay 9 line (record outbox_event { attempts = 1 } ∷ []) outbox_claimed
      outbox_published

-- Cursors of which the time is as many letters.
unfoldable pub letters : ℕ → Str
letters zero = []
letters (suc n) = 120 ∷ letters n

length-letters : (n : ℕ) → length (letters n) ≡ n
unfolding letters
length-letters zero = refl
length-letters (suc n) = ap suc (length-letters n)

letters_bar : (n : ℕ) → split_bar (letters n) ≡ none
unfolding letters split_bar
letters_bar zero = refl
letters_bar (suc n) = ground (arith, letters_bar n)

unfoldable pub unmarked : Str → Option Str
unmarked [] = none
unmarked (b ∷ s) = some s

abbrev pub cursors : CursorCodec
cursors = record {
  encode_base64 = λ s. 120 ∷ s;
  decode_base64 = unmarked;
  format_time = letters;
  parse_time = λ s. some (length s);
}

cursors-CodecLaws : CodecLaws cursors
unfolding unmarked
cursors-CodecLaws = record {
  base64 = λ s. refl;
  layout = λ t. ap some (length-letters t);
  base64_empty = λ s h. refl;
  no_bar = letters_bar;
}

decode-encode_example :
    decode_ledger_cursor cursors (encode_ledger_cursor cursors 7 (codes "l1")) ≡ ok (7, codes "l1")
decode-encode_example = decode-encode cursors 7 (codes "l1") cursors-CodecLaws refl

-- A wallet with one entry.
abbrev bet_entry : WalletLedgerEntry
bet_entry =
    entry_of (codes "l1") (codes "w1") (codes "t1") Direction.debit stake hundred
      (money (pos 7500) brl) 7

abbrev entry_tables : Db
entry_tables = record tables { ledger = bet_entry ∷ [] }

abbrev entry_world : World
entry_world = record { committed = entry_tables; mine = entry_tables; others = []; calls = 0 }

abbrev entry_page : LedgerPage
entry_page = record { entries = bet_entry ∷ []; next_cursor = [] }

entry_listed : (list_ledger cursors (codes "w1") [] (pos 500) entry_world).0 ≡ ok entry_page
unfolding list_ledger decode_ledger_cursor within find list_by_wallet select sort_by insert_by take
    str_eq clamp_limit
entry_listed = refl

list_ledger-bounds_example : length entry_page.entries ≤ 100
list_ledger-bounds_example =
    list_ledger-bounds cursors (codes "w1") [] (pos 500) entry_world entry_page entry_listed
