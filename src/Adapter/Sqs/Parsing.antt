-- ===== src/Adapter/Sqs/Parsing.antt =====
-- What `ParseInbound` of internal/adapter/sqs/inbound.go accepts.
use desafio_jungle_go.Prelude.{
  ◌≡◌, ◌≢◌, [], refl, sym, ap, ◌∙◌, ◌↔◌, subst, true, false, not, ◌||◌, Option, none, some, Result,
  ok, err, arith, Bool-cases, inl, inr, if◌then◌else◌,
}
use desafio_jungle_go.Prelude.Str.{Str, codes, str_eq, str_eq_iff, is_empty}
use desafio_jungle_go.Domain.Errors.{Res}
use desafio_jungle_go.Domain.Types.{Kind, kind_eq, kind_str, parse_kind}
use desafio_jungle_go.Domain.Types.Printing.{parse_kind_lem}
use desafio_jungle_go.Domain.Ledger.{is_blank}
use desafio_jungle_go.App.Inbound.{InboundCommand}
use desafio_jungle_go.Adapter.Sqs.{
  invalid_message, Codec, WireEnvelope, WireData, DataError, syntax, amount, has_required,
  envelope_type, command_of, parse_amount, parse_data, parse_envelope, parse_inbound,
}

-- The parts of the data that no message goes without.
pub record IsComplete (d : WireData) : Type 0 where
  pub has_provider : is_blank d.provider_id ≡ false
  pub has_external : is_blank d.external_id ≡ false
  pub has_key : is_blank d.idempotency_key ≡ false
  pub has_player : is_blank d.player_id ≡ false
  pub has_wallet : is_blank d.wallet_id ≡ false
  pub has_round : is_blank d.round_id ≡ false
  pub has_game : is_blank d.game_id ≡ false

-- A command says what the message says, part by part, for an actor of the message's provider.
pub record Says (c : Codec) (body : Str) (env : WireEnvelope) (d : WireData) (cmd : InboundCommand)
    : Type 0 where
  pub consumer : cmd.consumer_name ≡ codes "wager-transactions"
  pub message : cmd.message_id ≡ env.message_id
  pub hash : cmd.payload_hash ≡ c.hash_body body
  pub subject : cmd.submit.actor.subject ≡ []
  pub client : cmd.submit.actor.client_id ≡ codes "sqs"
  pub actor_provider : cmd.submit.actor.provider_id ≡ d.provider_id
  pub outside : cmd.submit.actor.internal ≡ false
  pub provider : cmd.submit.provider_id ≡ d.provider_id
  pub external : cmd.submit.external_id ≡ d.external_id
  pub key : cmd.submit.idempotency_key ≡ d.idempotency_key
  pub player : cmd.submit.player_id ≡ d.player_id
  pub wallet : cmd.submit.wallet_id ≡ d.wallet_id
  pub round : cmd.submit.round_id ≡ d.round_id
  pub game : cmd.submit.game_id ≡ d.game_id
  pub kind : kind_str cmd.submit.kind ≡ d.kind
  pub money : cmd.submit.money ≡ d.money
  pub reference : cmd.submit.reference_external_id ≡ d.reference_external_id
  pub correlation : cmd.submit.correlation_id ≡ env.message_id

-- A body of which a message is made: neither it nor the data in it is empty, every part is there,
-- the operation is external, and the command says what the body says.
pub record Accepted (c : Codec) (body : Str) (cmd : InboundCommand) : Type 0 where
  pub envelope : WireEnvelope
  pub data_read : WireData
  pub has_body : is_empty body ≡ false
  pub opened : c.envelope body ≡ some envelope
  pub has_data : is_empty envelope.raw_data ≡ false
  pub decoded : c.wire_data envelope.raw_data ≡ ok data_read
  pub typed : envelope.type ≡ codes "WagerTransactionRequested"
  pub named : is_blank envelope.message_id ≡ false
  pub complete : IsComplete data_read
  pub external_kind : cmd.submit.kind ≢ Kind.opening
  pub set : data_read.money.initialized ≡ true
  pub says : Says c body envelope data_read cmd

module _ (c : Codec) (body : Str) (cmd : InboundCommand) where
  parse_amount-Accepted :
      (env : WireEnvelope) (d : WireData) (r : Res Kind)
      → is_empty body ≡ false
      → c.envelope body ≡ some env
      → is_empty env.raw_data ≡ false
      → c.wire_data env.raw_data ≡ ok d
      → env.type ≡ envelope_type
      → is_blank env.message_id ≡ false
      → has_required d ≡ true
      → parse_kind d.kind ≡ r
      → parse_amount c body env d r ≡ ok cmd
      → Accepted c body cmd
  parse_amount-Accepted env d (err e) b o l w t n q p h = ground (arith, h)
  parse_amount-Accepted env d (ok k) b o l w t n q p h =
      let e : kind_eq k Kind.opening ≡ false = ground (arith, h) in
      let s : d.money.initialized ≡ true = ground (arith, h, e) in
      let made : command_of c body env d k ≡ cmd = ground (arith, h, e, s) in
      let name : d.kind ≡ kind_str k = (parse_kind_lem d.kind k).0 p in
      subst (Accepted c body) made (record {
        envelope = env;
        data_read = d;
        has_body = b;
        opened = o;
        has_data = l;
        decoded = w;
        typed = t;
        named = n;
        complete = ground (arith, q);
        external_kind = ground (arith, e);
        set = s;
        says = ground (arith, name);
      })

  parse_data-Accepted :
      (env : WireEnvelope) (r : Result DataError WireData)
      → is_empty body ≡ false
      → c.envelope body ≡ some env
      → is_empty env.raw_data ≡ false
      → c.wire_data env.raw_data ≡ r
      → env.type ≡ envelope_type
      → is_blank env.message_id ≡ false
      → parse_data c body env r ≡ ok cmd
      → Accepted c body cmd
  parse_data-Accepted env (err syntax) b o l w t n h = ground (arith, h)
  parse_data-Accepted env (err (amount e)) b o l w t n h = ground (arith, h)
  parse_data-Accepted env (ok d) b o l w t n h = elim (Bool-cases (has_required d)) [
    | inl e ↦ parse_amount-Accepted env d (parse_kind d.kind) b o l w t n e refl (
        subst
          (λ b.
            (if b then parse_amount c body env d (parse_kind d.kind) else err invalid_message)
            ≡ ok cmd)
          e h)
    | inr e ↦
        let g : err invalid_message ≡ ok cmd =
          subst
            (λ b.
              (if b then parse_amount c body env d (parse_kind d.kind) else err invalid_message)
              ≡ ok cmd)
            e h in
        ground (arith, g)
  ]

  parse_envelope-Accepted :
      (r : Option WireEnvelope)
      → is_empty body ≡ false
      → c.envelope body ≡ r
      → parse_envelope c body r ≡ ok cmd
      → Accepted c body cmd
  parse_envelope-Accepted none b o h = ground (arith, h)
  parse_envelope-Accepted (some env) b o h =
      elim (Bool-cases
        (is_blank env.message_id || not (str_eq env.type envelope_type) || is_empty env.raw_data)) [
          | inl e ↦
              let g : err invalid_message ≡ ok cmd =
                subst
                  (λ b.
                    (if b
                      then err invalid_message
                      else parse_data c body env (c.wire_data env.raw_data))
                    ≡ ok cmd)
                  e h in
              ground (arith, g)
          | inr e ↦
              parse_data-Accepted env (c.wire_data env.raw_data) b o (ground (arith, e)) refl
                ((str_eq_iff env.type envelope_type).0 (ground (arith, e))) (ground (arith, e))
                (subst
                  (λ b.
                    (if b
                      then err invalid_message
                      else parse_data c body env (c.wire_data env.raw_data))
                    ≡ ok cmd)
                  e h)
        ]

parsed-Accepted :
    (c : Codec) (body : Str) (cmd : InboundCommand)
    → parse_inbound c body ≡ ok cmd
    → Accepted c body cmd
unfolding parse_inbound
parsed-Accepted c body cmd h = elim (Bool-cases (is_empty body)) [
  | inl e ↦
      let g : err invalid_message ≡ ok cmd =
        subst
          (λ b.
            (if b then err invalid_message else parse_envelope c body (c.envelope body)) ≡ ok cmd)
          e h in
      ground (arith, g)
  | inr e ↦ parse_envelope-Accepted c body cmd (c.envelope body) e refl (
      subst
        (λ b. (if b then err invalid_message else parse_envelope c body (c.envelope body)) ≡ ok cmd)
        e h)
]

Accepted-command_of :
    (c : Codec) (body : Str) (cmd : InboundCommand) (x : Accepted c body cmd)
    → command_of c body x.envelope x.data_read cmd.submit.kind ≡ cmd
Accepted-command_of c body cmd x =
    let s : Says c body x.envelope x.data_read cmd = x.says in ground (arith, s)

Accepted-parsed :
    (c : Codec) (body : Str) (cmd : InboundCommand)
    → Accepted c body cmd
    → parse_inbound c body ≡ ok cmd
unfolding parse_inbound
Accepted-parsed c body cmd x =
    let k : parse_kind x.data_read.kind ≡ ok cmd.submit.kind =
      (parse_kind_lem x.data_read.kind cmd.submit.kind).1 (sym x.says.kind) in
    let env : WireEnvelope = x.envelope in
    let d : WireData = x.data_read in
    let typed : str_eq env.type envelope_type ≡ true =
      (str_eq_iff env.type envelope_type).1 x.typed in
    let guards : (is_blank env.message_id
          || not (str_eq env.type envelope_type)
          || is_empty env.raw_data)
        ≡ false =
      ground (arith, x.named, typed, x.has_data) in
    let required : has_required d ≡ true = ground (arith, x.complete) in
    let amounts : parse_amount c body env d (ok cmd.submit.kind)
        ≡ ok (command_of c body env d cmd.submit.kind) =
      ground (arith, x.external_kind, x.set) in
    ap (λ b. if b then err invalid_message else parse_envelope c body (c.envelope body)) x.has_body
    ∙ ap (parse_envelope c body) x.opened
    ∙ ap (λ b. if b then err invalid_message else parse_data c body env (c.wire_data env.raw_data))
        guards
    ∙ ap (parse_data c body env) x.decoded
    ∙ ap (λ b. if b then parse_amount c body env d (parse_kind d.kind) else err invalid_message)
        required
    ∙ ap (parse_amount c body env d) k
    ∙ amounts
    ∙ ap (λ y. ok y) (Accepted-command_of c body cmd x)

-- `ParseInbound` turns a body into a command exactly when the body is not empty and has an envelope
-- with a message identifier that is not blank, the type `WagerTransactionRequested` and data that is
-- not empty; none of the seven required parts of the data is blank, the kind is the name of one that
-- is not an opening, and the amount is set; and every field of the command is the part of the message
-- that it is named after, with the hash of the body, the message identifier as correlation, the
-- consumer `wager-transactions`, and an actor of the client `sqs` and the message's provider that is
-- not internal.
pub parse_inbound-Accepted :
    (c : Codec) (body : Str) (cmd : InboundCommand)
    → (parse_inbound c body ≡ ok cmd) ↔ Accepted c body cmd
parse_inbound-Accepted c body cmd = (parsed-Accepted c body cmd, Accepted-parsed c body cmd)
