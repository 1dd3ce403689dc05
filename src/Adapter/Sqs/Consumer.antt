-- ===== src/Adapter/Sqs/Consumer.antt =====
-- internal/adapter/sqs/consumer.go, and the calls of SQS in consume.go: a message is handled, then
-- deleted, delayed or copied to the dead-letter queue. Logging and the handle in flight are left
-- out.
pub mod Handling
use desafio_jungle_go.Prelude.{
  ℕ, suc, ◌+◌, ◌/◌, ◌%◌, ◌^◌, Bool, true, false, ◌||◌, List, [], ◌∷◌, Option, none, some, Result,
  ok, err, leb, ◌==◌, if◌then◌else◌,
}
use desafio_jungle_go.Prelude.Int.{ℤ, pos, pos_part}
use desafio_jungle_go.Prelude.Str.{Str, codes, is_empty}
use desafio_jungle_go.Prelude.Time.{Duration}
use desafio_jungle_go.App.Ports.{AppError}
use desafio_jungle_go.App.Backoff.{second, backoff}
use desafio_jungle_go.App.Tx.{Env, World}
use desafio_jungle_go.App.Lookup.{SubmitResult}
use desafio_jungle_go.App.Inbound.{InboundCommand, handle_inbound}
use desafio_jungle_go.Adapter.Sqs.{
  Disposition, MessageError, of_app, disposition_of, Codec, Parsed, parse_inbound,
}

pub record InboundMessage : Type 0 where
  pub receipt_handle : Str
  pub body : Str
  pub receive_count : ℤ
  pub group_id : Str

-- A request to SQS: `DeleteMessage`, `SendMessage` to the dead-letter queue, with its group and its
-- deduplication identifier, and `ChangeMessageVisibility`, in seconds.
pub data Request : Type 0 where
  delete : Str → Request
  send_dlq : Str → Str → Str → Request
  hide : Str → ℕ → Request

-- The requests that SQS has accepted, the last one first, and the counts of retries and of
-- messages that were dead-lettered.
pub record Queue : Type 0 where
  pub accepted : List Request
  pub retries : ℕ
  pub dead : ℕ

pub record Consumer : Type 0 where
  pub env : Env
  pub codec : Codec
  pub backoff_max : Duration
  -- Whether SQS accepts a request.
  pub accepts : Request → Bool
  -- The hook `afterCommit`, which is for tests: whether it returns no error.
  pub after_commit : Option (Str → Bool)

-- `durationSeconds`; the conversion to `int32` wraps, and a negative number of seconds becomes 1.
unfoldable pub duration_seconds : Duration → ℕ
duration_seconds d =
    let s = (pos_part d / second) % 2 ^ 32 in
    if pos_part d == 0 then 0 else if s == 0 || leb (2 ^ 31) s then 1 else s

-- A request, and whether it was accepted.
abbrev pub request : Consumer → Request → Queue → Bool × Queue
request c r q = if c.accepts r then (true, record q { accepted = r ∷ q.accepted }) else (false, q)

-- `Client.Delete`
abbrev pub delete_message : Consumer → Str → Queue → Queue
delete_message c handle q = (request c (delete handle) q).1

-- `Client.SendToDLQ`
abbrev pub send_to_dlq : Consumer → Str → Str → Str → Queue → Bool × Queue
send_to_dlq c body group_id dedup_id q =
    request c
      (send_dlq body (if is_empty group_id then codes "invalid" else group_id)
        (if is_empty dedup_id then c.codec.hash_body body else dedup_id))
      q

-- `Client.ChangeVisibility`
abbrev pub change_visibility : Consumer → Str → Duration → Queue → Queue
change_visibility c handle timeout q = (request c (hide handle (duration_seconds timeout)) q).1

-- `Consumer.retry`
abbrev pub retry_message : Consumer → InboundMessage → Queue → Queue
retry_message c msg q =
    change_visibility c msg.receipt_handle (backoff msg.receive_count c.backoff_max)
      (record q { retries = suc q.retries })

-- What follows the copy to the dead-letter queue.
abbrev pub dead_lettered : Consumer → InboundMessage → Bool × Queue → Queue
dead_lettered c msg (false, q) = retry_message c msg q
dead_lettered c msg (true, q) = delete_message c msg.receipt_handle (record q { dead = suc q.dead })

abbrev pub finish_by : Consumer → InboundMessage → Str → Disposition → Queue → Queue
finish_by c msg message_id Disposition.ack q = delete_message c msg.receipt_handle q
finish_by c msg message_id Disposition.dead_letter q = dead_lettered c msg (
    send_to_dlq c msg.body msg.group_id
      (if is_empty message_id then c.codec.hash_body msg.body else message_id) q)
finish_by c msg message_id Disposition.retry q = retry_message c msg q

-- `Consumer.finish`
abbrev pub finish : Consumer → InboundMessage → Str → MessageError → Queue → Queue
finish c msg message_id e q = finish_by c msg message_id (disposition_of e) q

-- What follows a commit: the message is deleted, unless the hook returns an error.
abbrev pub acknowledge : Consumer → InboundMessage → Str → Option (Str → Bool) → Queue → Queue
acknowledge c msg message_id none q = delete_message c msg.receipt_handle q
acknowledge c msg message_id (some hook) q =
    if hook message_id then delete_message c msg.receipt_handle q else q

abbrev pub answered :
    Consumer → InboundMessage → Str → Queue → Result AppError SubmitResult × World → World × Queue
answered c msg message_id q (ok r, w) = (w, acknowledge c msg message_id c.after_commit q)
answered c msg message_id q (err e, w) = (w, finish c msg message_id (of_app e) q)

abbrev pub handle_parsed :
    Consumer → InboundMessage → Parsed InboundCommand → World × Queue → World × Queue
handle_parsed c msg (err e) (w, q) = (w, finish c msg [] e q)
handle_parsed c msg (ok cmd) (w, q) = answered c msg cmd.message_id q (handle_inbound c.env cmd w)

-- `Consumer.Handle`
unfoldable pub handle : Consumer → InboundMessage → World × Queue → World × Queue
handle c msg s = handle_parsed c msg (parse_inbound c.codec msg.body) s
