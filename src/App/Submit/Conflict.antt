-- ===== src/App/Submit/Conflict.antt =====
-- `Submit` of internal/app/submit.go under a key that is taken by another payload.
use desafio_jungle_go.Prelude.{
  ◌≡◌, ◌≢◌, sym, subst, true, false, ok, err, none, some, ap, arith, if◌then◌else◌, ◌∙◌,
}
use desafio_jungle_go.Prelude.Str.{Str, str_eq_iff, is_empty}
use desafio_jungle_go.Domain.Errors.{FailureCode, Sentinel, rejection}
use desafio_jungle_go.Domain.Transaction.{WagerTransaction}
use desafio_jungle_go.Domain.Idempotency.{check_idempotency_replay}
use desafio_jungle_go.Domain.Canonical.{hash_canonical_payload}
use desafio_jungle_go.App.Identity.{authorize_submit}
use desafio_jungle_go.App.Ports.{AppError, of_domain, forbidden, Db, get_by_key, get_wallet}
use desafio_jungle_go.App.Tx.{Env, World, Tx, ◌>>=◌, domain, require, pure, within, settle, get}
use desafio_jungle_go.App.Tx.Steps.{IsQuiet, Post, bind-eq, bind-eq-err}
use desafio_jungle_go.App.Submit.Storing.{Stored}
use desafio_jungle_go.App.Submit.Replay.{Ends, submit-Ends}
use desafio_jungle_go.App.Submit.Again.{lookup-eq, found}
use desafio_jungle_go.App.Lookup.{
  SubmitCommand, SubmitResult, lookup, check_key, or_by_external_id, find_by_key, find_replay,
  canonical_from_submit,
}
use desafio_jungle_go.App.Submit.{
  replay_or, submit_locked, submit_in_tx, recover_idempotent_insert, or_retry, submit_hashed,
  submit,
}

abbrev pub taken : AppError
taken =
    of_domain
      (rejection FailureCode.idempotency_payload_conflict Sentinel.idempotency_payload_conflict)

module _ (cmd : SubmitCommand) (hash other : Str) (t : WagerTransaction)
    (differs : hash ≢ other) where
  refuses :
      (db : Db)
      → Stored cmd hash t db
      → check_idempotency_replay t.idempotency_key t.payload_hash cmd.idempotency_key other
        ≡ err (
            rejection FailureCode.idempotency_payload_conflict
              Sentinel.idempotency_payload_conflict)
  unfolding check_idempotency_replay
  refuses db s = ground (
    arith,
    differs,
    str_eq_iff t.payload_hash other,
    str_eq_iff t.idempotency_key cmd.idempotency_key,
    s.same_hash,
    s.same_key,
    s.has_key,
  )

  find_replay-taken :
      (w : World) → IsQuiet w → Stored cmd hash t w.mine → find_replay cmd other w ≡ (err taken, w)
  unfolding find_replay
  find_replay-taken w q s = bind-eq-err (find_by_key cmd other) (or_by_external_id cmd) w taken w (
      bind-eq (lookup (get_by_key cmd.provider_id cmd.idempotency_key)) (check_key cmd other) w
        (some t) w
        (lookup-eq (get_by_key cmd.provider_id cmd.idempotency_key) w t q
          (found cmd hash t w.mine s))
      ∙ bind-eq-err
          (domain
            (check_idempotency_replay t.idempotency_key t.payload_hash cmd.idempotency_key other))
          (λ r. pure (if r then some t else none)) w taken w
          (ap (λ r. domain r w) (refuses w.mine s)))

  submit_in_tx-taken :
      (env : Env) (w : World)
      → IsQuiet w
      → Stored cmd hash t w.mine
      → submit_in_tx env cmd other w ≡ (err taken, w)
  unfolding submit_in_tx
  submit_in_tx-taken env w q s =
      bind-eq-err (find_replay cmd other)
        (replay_or (get (get_wallet cmd.wallet_id) >>= submit_locked env cmd other)) w taken w
        (find_replay-taken w q s)

  submit_hashed-taken :
      (env : Env) (w : World)
      → IsQuiet w
      → Stored cmd hash t w.committed
      → submit_hashed env cmd other w ≡ (err taken, record w { mine = w.committed })
  unfolding within
  submit_hashed-taken env w q s =
      let fresh : Tx SubmitResult = recover_idempotent_insert cmd other in
      ap (λ p. or_retry fresh (settle p.0 p.1))
        (submit_in_tx-taken env (record w { mine = w.committed }) q s)

  submit-taken :
      (env : Env) (w : World)
      → authorize_submit cmd.actor cmd.provider_id ≡ true
      → hash_canonical_payload env.digest (canonical_from_submit cmd) ≡ ok other
      → IsQuiet w
      → Stored cmd hash t w.committed
      → submit env cmd w ≡ (err taken, record w { mine = w.committed })
  unfolding submit
  submit-taken env w a h q s =
      bind-eq (require (authorize_submit cmd.actor cmd.provider_id) forbidden)
        (λ _.
          domain (hash_canonical_payload env.digest (canonical_from_submit cmd))
          >>= submit_hashed env cmd)
        w tt w (ap (λ b. require b forbidden w) a)
      ∙ bind-eq (domain (hash_canonical_payload env.digest (canonical_from_submit cmd)))
          (submit_hashed env cmd) w other w (ap (λ r. domain r w) h)
      ∙ submit_hashed-taken env w q s

-- What is stored for a command is stored for another with its provider and key.
Stored-other :
    (cmd other : SubmitCommand) (hash : Str) (t : WagerTransaction) (db : Db)
    → other.provider_id ≡ cmd.provider_id
    → other.idempotency_key ≡ cmd.idempotency_key
    → Stored cmd hash t db
    → Stored other hash t db
Stored-other cmd other hash t db p k s = record {
  same_provider = s.same_provider ∙ sym p;
  same_key = s.same_key ∙ sym k;
  same_hash = s.same_hash;
  has_provider = subst (λ x. is_empty x ≡ false) (sym p) s.has_provider;
  has_key = subst (λ x. is_empty x ≡ false) (sym k) s.has_key;
  others = s.others;
  rows = s.rows;
}

-- A command, the hash of its payload, and that it may be submitted.
pub record IsHashed (env : Env) (cmd : SubmitCommand) (hash : Str) : Type 0 where
  pub allowed : authorize_submit cmd.actor cmd.provider_id ≡ true
  pub hashed : hash_canonical_payload env.digest (canonical_from_submit cmd) ≡ ok hash

other_of_Ends :
    (env : Env) (cmd other : SubmitCommand) (t : WagerTransaction) (w : World)
    (hash other_hash : Str)
    → Ends env cmd (t, false) w
    → other.provider_id ≡ cmd.provider_id
    → other.idempotency_key ≡ cmd.idempotency_key
    → IsHashed env cmd hash
    → IsHashed env other other_hash
    → hash ≢ other_hash
    → submit env other w ≡ (err taken, record w { mine = w.committed })
other_of_Ends env cmd other t w hash other_hash (a, h, e, (s, q)) p k c o d =
    let same : h ≡ hash = ground (arith, e, c.hashed) in
    submit-taken other h other_hash t (λ x. d (sym same ∙ x)) env w o.allowed o.hashed q
      (Stored-other cmd other h t w.committed p k s)

-- While no other transaction commits, once a command was submitted and stored, another command
-- under the same provider and idempotency key whose payload has another hash is rejected as a
-- payload conflict, and nothing that is committed changes.
pub submit_other_payload :
    (env : Env) (cmd other : SubmitCommand) (w : World) {t : WagerTransaction} {w' : World}
    {hash other_hash : Str}
    → IsQuiet w
    → submit env cmd w ≡ (ok (t, false), w')
    → other.provider_id ≡ cmd.provider_id
    → other.idempotency_key ≡ cmd.idempotency_key
    → IsHashed env cmd hash
    → IsHashed env other other_hash
    → hash ≢ other_hash
    → submit env other w' ≡ (err taken, record w' { mine = w'.committed })
submit_other_payload env cmd other w {t} {w'} q h p k c o d =
    other_of_Ends env cmd other t w' _ _ (subst (Post (Ends env cmd)) h (submit-Ends env cmd w q)) p
      k c o d
