-- ===== src/App/Submit/Again.antt =====
-- `Submit` of internal/app/submit.go once more with a command that is stored.
use desafio_jungle_go.Prelude.{
  ◌≡◌, subst, true, false, Result, ok, none, some, ap, arith, if◌then◌else◌, ◌∙◌,
}
use desafio_jungle_go.Prelude.Str.{Str, str_eq_iff}
use desafio_jungle_go.Domain.Transaction.{WagerTransaction}
use desafio_jungle_go.Domain.Idempotency.{check_idempotency_replay}
use desafio_jungle_go.Domain.Canonical.{hash_canonical_payload}
use desafio_jungle_go.App.Identity.{authorize_submit}
use desafio_jungle_go.App.Ports.{
  AppError, forbidden, Db, find, has_key, get_by_key, or_not_found, get_wallet,
}
use desafio_jungle_go.App.Tx.{Env, World, Tx, ◌>>=◌, domain, require, pure, within, settle, get}
use desafio_jungle_go.App.Tx.Steps.{IsQuiet, Post, pause-IsQuiet, bind-eq}
use desafio_jungle_go.App.Submit.Storing.{Stored}
use desafio_jungle_go.App.Submit.Replay.{Ends, submit-Ends}
use desafio_jungle_go.App.Lookup.{
  SubmitCommand, SubmitResult, or_missing, lookup, check_key, or_by_external_id, find_by_key,
  find_replay, canonical_from_submit,
}
use desafio_jungle_go.App.Submit.{
  replay_or, submit_locked, submit_in_tx, recover_idempotent_insert, or_retry, submit_hashed,
  submit,
}

pub lookup-eq :
    {A : Type 0} (f : Db → Result AppError A) (w : World) (a : A)
    → IsQuiet w
    → f w.mine ≡ ok a
    → lookup f w ≡ (ok (some a), w)
lookup-eq f w a q h =
    ap (λ y. or_missing (f y.mine) y) (pause-IsQuiet w q) ∙ ap (λ r. or_missing r w) h

module _ (cmd : SubmitCommand) (hash : Str) (t : WagerTransaction) where
  keyed : (db : Db) → Stored cmd hash t db → has_key cmd.provider_id cmd.idempotency_key t ≡ true
  keyed db s = ground (
    arith,
    str_eq_iff t.provider_id cmd.provider_id,
    str_eq_iff t.idempotency_key cmd.idempotency_key,
    s.same_provider,
    s.same_key,
    s.has_provider,
    s.has_key,
  )

  pub found :
      (db : Db) → Stored cmd hash t db → get_by_key cmd.provider_id cmd.idempotency_key db ≡ ok t
  unfolding find
  found db s =
      ap (λ ts. or_not_found (find (has_key cmd.provider_id cmd.idempotency_key) ts)) s.rows
      ∙ ap
          (λ b.
            or_not_found
              (if b then some t else find (has_key cmd.provider_id cmd.idempotency_key) s.others))
          (keyed db s)

  replay :
      (db : Db)
      → Stored cmd hash t db
      → check_idempotency_replay t.idempotency_key t.payload_hash cmd.idempotency_key hash ≡ ok true
  unfolding check_idempotency_replay
  replay db s = ground (
    arith,
    str_eq_iff t.payload_hash hash,
    str_eq_iff t.idempotency_key cmd.idempotency_key,
    s.same_hash,
    s.same_key,
    s.has_key,
  )

  find_replay-eq :
      (w : World) → IsQuiet w → Stored cmd hash t w.mine → find_replay cmd hash w ≡ (ok (some t), w)
  unfolding find_replay
  find_replay-eq w q s = bind-eq (find_by_key cmd hash) (or_by_external_id cmd) w (some t) w (
      bind-eq (lookup (get_by_key cmd.provider_id cmd.idempotency_key)) (check_key cmd hash) w
        (some t) w
        (lookup-eq (get_by_key cmd.provider_id cmd.idempotency_key) w t q (found w.mine s))
      ∙ bind-eq
          (domain
            (check_idempotency_replay t.idempotency_key t.payload_hash cmd.idempotency_key hash))
          (λ r. pure (if r then some t else none)) w true w
          (ap (λ r. domain r w) (replay w.mine s)))

  submit_in_tx-eq :
      (env : Env) (w : World)
      → IsQuiet w
      → Stored cmd hash t w.mine
      → submit_in_tx env cmd hash w ≡ (ok (t, true), w)
  unfolding submit_in_tx
  submit_in_tx-eq env w q s =
      bind-eq (find_replay cmd hash)
        (replay_or (get (get_wallet cmd.wallet_id) >>= submit_locked env cmd hash)) w (some t) w
        (find_replay-eq w q s)

  submit_hashed-eq :
      (env : Env) (w : World)
      → IsQuiet w
      → Stored cmd hash t w.committed
      → submit_hashed env cmd hash w ≡ (ok (t, true), record w { mine = w.committed })
  unfolding within
  submit_hashed-eq env w q s =
      let fresh : Tx SubmitResult = recover_idempotent_insert cmd hash in
      ap (λ p. or_retry fresh (settle p.0 p.1))
        (submit_in_tx-eq env (record w { mine = w.committed }) q s)

  submit-eq :
      (env : Env) (w : World)
      → authorize_submit cmd.actor cmd.provider_id ≡ true
      → hash_canonical_payload env.digest (canonical_from_submit cmd) ≡ ok hash
      → IsQuiet w
      → Stored cmd hash t w.committed
      → submit env cmd w ≡ (ok (t, true), record w { mine = w.committed })
  unfolding submit
  submit-eq env w a h q s =
      bind-eq (require (authorize_submit cmd.actor cmd.provider_id) forbidden)
        (λ _.
          domain (hash_canonical_payload env.digest (canonical_from_submit cmd))
          >>= submit_hashed env cmd)
        w tt w (ap (λ b. require b forbidden w) a)
      ∙ bind-eq (domain (hash_canonical_payload env.digest (canonical_from_submit cmd)))
          (submit_hashed env cmd) w hash w (ap (λ r. domain r w) h)
      ∙ submit_hashed-eq env w q s

again_of_Ends :
    (env : Env) (cmd : SubmitCommand) (t : WagerTransaction) (w : World)
    → Ends env cmd (t, false) w
    → submit env cmd w ≡ (ok (t, true), record w { mine = w.committed })
again_of_Ends env cmd t w (a, hash, h, (s, q)) = submit-eq cmd hash t env w a h q s

-- While no other transaction commits, a command that was submitted and stored is a replay when it
-- is submitted again: the same transaction comes back, marked as a replay, and nothing that is
-- committed changes.
pub submit-submit :
    (env : Env) (cmd : SubmitCommand) (w : World) {t : WagerTransaction} {w' : World}
    → IsQuiet w
    → submit env cmd w ≡ (ok (t, false), w')
    → submit env cmd w' ≡ (ok (t, true), record w' { mine = w'.committed })
submit-submit env cmd w {t} {w'} q h =
    again_of_Ends env cmd t w' (subst (Post (Ends env cmd)) h (submit-Ends env cmd w q))
