-- ===== src/Adapter/Sqs/Consumer/Handling.antt =====
-- What `Consumer.Handle` of internal/adapter/sqs/consumer.go does to a message and to the books.
use desafio_jungle_go.Prelude.{
  suc, ◌≡◌, refl, sym, subst, Bool, true, false, ◌||◌, ◌≢◌, List, [], ◌∷◌, Result, ok, err, inl,
  inr, ◌⊎◌, arith, if◌then◌else◌,
}
use desafio_jungle_go.Prelude.Int64.{IsInt64}
use desafio_jungle_go.Prelude.Str.{Str, str_eq, str_eq_iff}
use desafio_jungle_go.Domain.Errors.{FailureClass}
use desafio_jungle_go.Domain.Money.Sums.{IsMoney}
use desafio_jungle_go.App.Ports.{
  AppError, not_found, conflict, optimistic_lock, unavailable, inbox_hash_mismatch, forbidden,
  out_of_range, rolled_back, wallet_mismatch, of_domain,
}
use desafio_jungle_go.App.Backoff.{backoff}
use desafio_jungle_go.App.Tx.{World}
use desafio_jungle_go.App.Tx.Runs.{Ended}
use desafio_jungle_go.App.Tx.Steps.{IsQuiet}
use desafio_jungle_go.App.Books.{IsBooked}
use desafio_jungle_go.App.Books.Applying.{IssuesIds}
use desafio_jungle_go.App.Books.Submitting.{IsOpen}
use desafio_jungle_go.App.Lookup.{SubmitResult}
use desafio_jungle_go.App.Inbound.{InboundCommand, handle_inbound}
use desafio_jungle_go.App.Inbound.Keeping.{handle_inbound-IsBooked}
use desafio_jungle_go.Adapter.Sqs.{
  Disposition, by_class, MessageError, invalid_message, of_app, disposition_of, Codec, Parsed,
  parse_inbound, WireData,
}
use desafio_jungle_go.Adapter.Sqs.Parsing.{Accepted, parse_inbound-Accepted}
use desafio_jungle_go.Adapter.Sqs.Consumer.{
  InboundMessage, Request, delete, send_dlq, hide, Queue, Consumer, request, retry_message,
  dead_lettered, delete_message, finish_by, answered, duration_seconds, handle_parsed, handle,
}

-- Whether SQS has accepted to delete the message.
unfoldable pub deleted : Str → List Request → Bool
deleted handle [] = false
deleted handle (delete h ∷ rs) = str_eq h handle || deleted handle rs
deleted handle (send_dlq body group_id dedup_id ∷ rs) = deleted handle rs
deleted handle (hide h seconds ∷ rs) = deleted handle rs

-- Whether SQS has accepted a copy of the body for the dead-letter queue.
unfoldable pub copied : Str → List Request → Bool
copied body [] = false
copied body (delete h ∷ rs) = copied body rs
copied body (send_dlq b group_id dedup_id ∷ rs) = str_eq b body || copied body rs
copied body (hide h seconds ∷ rs) = copied body rs

abbrev is_ok : {A E : Type 0} → Result E A → Bool
is_ok (ok a) = true
is_ok (err e) = false

abbrev pub committed_by : Consumer → Parsed InboundCommand → World → Bool
committed_by c (ok cmd) w = is_ok (handle_inbound c.env cmd w).0
committed_by c (err e) w = false

-- Whether the message is a command that `HandleInbound` accepts.
abbrev pub is_committed : Consumer → InboundMessage → World → Bool
is_committed c msg w = committed_by c (parse_inbound c.codec msg.body) w

by_class-error : (c : FailureClass) → by_class c ≢ Disposition.ack
by_class-error FailureClass.validation_class h = cc
by_class-error FailureClass.rejection_class h = cc
by_class-error FailureClass.wait_class h = cc
by_class-error FailureClass.transient_class h = cc
by_class-error FailureClass.permanent_class h = cc

-- No error lets a message go.
disposition_of-error : (e : MessageError) → disposition_of e ≢ Disposition.ack
unfolding disposition_of
disposition_of-error invalid_message h = cc
disposition_of-error (of_app not_found) h = cc
disposition_of-error (of_app conflict) h = cc
disposition_of-error (of_app optimistic_lock) h = cc
disposition_of-error (of_app unavailable) h = cc
disposition_of-error (of_app inbox_hash_mismatch) h = cc
disposition_of-error (of_app forbidden) h = cc
disposition_of-error (of_app out_of_range) h = cc
disposition_of-error (of_app rolled_back) h = cc
disposition_of-error (of_app wallet_mismatch) h = cc
disposition_of-error (of_app (of_domain e)) h = by_class-error e.class h

-- If the message is deleted, then it was before or its body has been copied.
abbrev Accounts : InboundMessage → Queue → Queue → Type 0
Accounts msg q q' =
    deleted msg.receipt_handle q'.accepted ≡ true
    → (deleted msg.receipt_handle q.accepted ≡ true) ⊎ (copied msg.body q'.accepted ≡ true)

retry-Accounts :
    (c : Consumer) (msg : InboundMessage) (q : Queue) → Accounts msg q (retry_message c msg q)
unfolding deleted
retry-Accounts c msg q = go (c.accepts r)
  where
    r : Request
    r = hide msg.receipt_handle (duration_seconds (backoff msg.receive_count c.backoff_max))

    x : Queue
    x = record q { retries = suc q.retries }

    go :
        (b : Bool)
        → (let s : Bool × Queue =
              if b then (true, record x { accepted = r ∷ x.accepted }) else (false, x) in
            Accounts msg q s.1)
    go true h = inl h
    go false h = inl h

delete-copied :
    (c : Consumer) (body receipt : Str) (q : Queue)
    → copied body q.accepted ≡ true
    → copied body (delete_message c receipt q).accepted ≡ true
unfolding copied
delete-copied c body receipt q h = go (c.accepts (delete receipt))
  where
    go :
        (b : Bool)
        → (let s : Bool × Queue =
              if b
              then (true, record q { accepted = delete receipt ∷ q.accepted })
              else (false, q) in
            copied body s.1.accepted ≡ true)
    go true = h
    go false = h

dead_lettered-Accounts :
    (c : Consumer) (msg : InboundMessage) (group_id dedup_id : Str) (q : Queue)
    → Accounts msg q (dead_lettered c msg (request c (send_dlq msg.body group_id dedup_id) q))
unfolding copied
dead_lettered-Accounts c msg group_id dedup_id q = go (c.accepts r)
  where
    r : Request
    r = send_dlq msg.body group_id dedup_id

    x : Queue
    x = record q { accepted = r ∷ q.accepted }

    go : (b : Bool) → Accounts msg q (dead_lettered c msg (if b then (true, x) else (false, q)))
    go true h = inr (
        delete-copied c msg.body msg.receipt_handle (record x { dead = suc x.dead })
          (ground (arith, str_eq_iff msg.body msg.body)))
    go false h = retry-Accounts c msg q h

finish-Accounts :
    (c : Consumer) (msg : InboundMessage) (message_id : Str) (q : Queue) (d : Disposition)
    → d ≢ Disposition.ack
    → Accounts msg q (finish_by c msg message_id d q)
finish-Accounts c msg message_id q Disposition.ack n = absurd (n refl)
finish-Accounts c msg message_id q Disposition.dead_letter n = dead_lettered-Accounts c msg _ _ q
finish-Accounts c msg message_id q Disposition.retry n = retry-Accounts c msg q

-- `Handle` deletes a message only if `HandleInbound` has accepted its operation, or if SQS has
-- accepted a copy of its body for the dead-letter queue, or if it was deleted before.
pub handle-deleted :
    (c : Consumer) (msg : InboundMessage) (w : World) (q : Queue)
    → deleted msg.receipt_handle (handle c msg (w, q)).1.accepted ≡ true
    → (is_committed c msg w ≡ true)
      ⊎ ((deleted msg.receipt_handle q.accepted ≡ true)
          ⊎ (copied msg.body (handle c msg (w, q)).1.accepted ≡ true))
unfolding handle
handle-deleted c msg w q = parsed (parse_inbound c.codec msg.body)
  where
    answer :
        (id : Str) (p : Result AppError SubmitResult × World)
        → deleted msg.receipt_handle (answered c msg id q p).1.accepted ≡ true
        → (is_ok p.0 ≡ true)
          ⊎ ((deleted msg.receipt_handle q.accepted ≡ true)
              ⊎ (copied msg.body (answered c msg id q p).1.accepted ≡ true))
    answer id (ok r, x) h = inl refl
    answer id (err e, x) h =
        inr (
          finish-Accounts c msg id q (disposition_of (of_app e)) (disposition_of-error (of_app e))
            h)

    parsed :
        (p : Parsed InboundCommand)
        → deleted msg.receipt_handle (handle_parsed c msg p (w, q)).1.accepted ≡ true
        → (committed_by c p w ≡ true)
          ⊎ ((deleted msg.receipt_handle q.accepted ≡ true)
              ⊎ (copied msg.body (handle_parsed c msg p (w, q)).1.accepted ≡ true))
    parsed (err e) h =
        inr (finish-Accounts c msg [] q (disposition_of e) (disposition_of-error e) h)
    parsed (ok cmd) h = answer cmd.message_id (handle_inbound c.env cmd w) h

-- The amounts that the decoder sets fit `int64`.
abbrev pub DecodesMoney : Codec → Type 0
DecodesMoney c =
    (s : Str) (d : WireData)
    → c.wire_data s ≡ ok d
    → d.money.initialized ≡ true
    → IsInt64 d.money.minor

parse_inbound-IsMoney :
    (c : Codec) (body : Str) (cmd : InboundCommand)
    → DecodesMoney c
    → parse_inbound c body ≡ ok cmd
    → IsMoney cmd.submit.money
parse_inbound-IsMoney c body cmd m h =
    let x : Accepted c body cmd = (parse_inbound-Accepted c body cmd).0 h in
    let k : IsMoney x.data_read.money = record {
      is_initialized = x.set;
      fits = m x.envelope.raw_data x.data_read x.decoded x.set;
    } in
    subst IsMoney (sym x.says.money) k

-- With identifiers that are never blank, from tables whose books balance and whose wallets can
-- still change, and while no other transaction commits, `Handle` of any message leaves tables
-- whose books balance, if the amounts that the decoder sets fit `int64`.
pub handle-IsBooked :
    (c : Consumer) (msg : InboundMessage) (w : World) (q : Queue)
    → IssuesIds c.env
    → DecodesMoney c.codec
    → IsQuiet w
    → IsOpen w.committed
    → Ended IsBooked (handle c msg (w, q)).0
unfolding handle
handle-IsBooked c msg w q ids m quiet i = parsed (parse_inbound c.codec msg.body) refl
  where
    answer :
        (id : Str) (p : Result AppError SubmitResult × World)
        → Ended IsBooked p.1
        → Ended IsBooked (answered c msg id q p).0
    answer id (ok r, x) e = e
    answer id (err y, x) e = e

    parsed :
        (p : Parsed InboundCommand)
        → parse_inbound c.codec msg.body ≡ p
        → Ended IsBooked (handle_parsed c msg p (w, q)).0
    parsed (err e) h = record { quiet = quiet; holds = i.booked }
    parsed (ok cmd) h = answer cmd.message_id (handle_inbound c.env cmd w) (
        handle_inbound-IsBooked c.env cmd w ids (parse_inbound-IsMoney c.codec msg.body cmd m h)
          quiet i)
