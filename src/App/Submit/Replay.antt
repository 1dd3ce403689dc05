-- ===== src/App/Submit/Replay.antt =====
-- `Submit` of internal/app/submit.go twice with one command.
use desafio_jungle_go.Prelude.{
  ◌≡◌, refl, Bool, true, false, Result, ok, err, Option, none, some, arith,
}
use desafio_jungle_go.Prelude.Str.{Str}
use desafio_jungle_go.Domain.Transaction.{WagerTransaction}
use desafio_jungle_go.Domain.Idempotency.{check_idempotency_replay, check_external_identity}
use desafio_jungle_go.Domain.Canonical.{hash_canonical_payload}
use desafio_jungle_go.App.Identity.{authorize_submit}
use desafio_jungle_go.App.Ports.{AppError, forbidden, conflict, get_by_external_id, get_by_key}
use desafio_jungle_go.App.Tx.{Env, World, Tx, ◌>>=◌, domain, require, pure, read, within}
use desafio_jungle_go.App.Tx.Steps.{IsQuiet, Post, bind-Post, Post-mono, Post-world, within-Post}
use desafio_jungle_go.App.Submit.Applying.{domain-Post}
use desafio_jungle_go.App.Submit.Storing.{Stored, Submitted}
use desafio_jungle_go.App.Submit.Checking.{submit_in_tx-Post}
use desafio_jungle_go.App.Lookup.{SubmitCommand, SubmitResult, lookup, canonical_from_submit}
use desafio_jungle_go.App.Submit.{
  submit_in_tx, recover_external, recover_with, recover_idempotent_insert, or_retry, submit_hashed,
  submit,
}

-- A unit of work tried in place of one that met a conflict finds only replays.
abbrev IsReplay : SubmitResult → World → Type 0
IsReplay r w = r.1 ≡ true

anything : {A : Type 0} (p : Result AppError A × World) → Post {A = A} (λ _ _. Unit) p
anything p = Post-world (λ _. Unit) p tt

replay_is_true : (a b c d : Str) (r : Bool) → check_idempotency_replay a b c d ≡ ok r → r ≡ true
unfolding check_idempotency_replay
replay_is_true a b c d r h = ground arith

recover_external-IsReplay :
    (cmd : SubmitCommand) (r : Result AppError WagerTransaction) (w : World)
    → Unit {0}
    → Post IsReplay (recover_external cmd r w)
recover_external-IsReplay cmd (err e) w _ = tt
recover_external-IsReplay cmd (ok t) w _ =
    bind-Post (λ _ _. Unit) IsReplay
      (domain (check_external_identity t.idempotency_key cmd.idempotency_key)) (λ _. pure (t, true))
      w
      (anything {A = Unit {0}}
        (domain (check_external_identity t.idempotency_key cmd.idempotency_key) w))
      (λ _ x _. refl)

recover_with-IsReplay :
    (cmd : SubmitCommand) (hash : Str) (o : Option WagerTransaction) (w : World)
    → Post IsReplay (recover_with cmd hash o w)
recover_with-IsReplay cmd hash (some t) w =
    bind-Post (λ r _. r ≡ true) IsReplay
      (domain (check_idempotency_replay t.idempotency_key t.payload_hash cmd.idempotency_key hash))
      (λ replay. pure (t, replay)) w
      (domain-Post (λ r _. r ≡ true) _ w (λ r h. replay_is_true _ _ _ _ r h)) (λ r x h. h)
recover_with-IsReplay cmd hash none w =
    bind-Post (λ _ _. Unit) IsReplay (read (get_by_external_id cmd.provider_id cmd.external_id))
      (recover_external cmd) w
      (anything {A = Result AppError WagerTransaction}
        (read (get_by_external_id cmd.provider_id cmd.external_id) w))
      (recover_external-IsReplay cmd)

recover-IsReplay :
    (cmd : SubmitCommand) (hash : Str) (w : World)
    → Post IsReplay (recover_idempotent_insert cmd hash w)
unfolding recover_idempotent_insert
recover-IsReplay cmd hash w =
    bind-Post (λ _ _. Unit) IsReplay (lookup (get_by_key cmd.provider_id cmd.idempotency_key))
      (recover_with cmd hash) w
      (anything {A = Option WagerTransaction}
        (lookup (get_by_key cmd.provider_id cmd.idempotency_key) w))
      (λ o x _. recover_with-IsReplay cmd hash o x)

-- What is committed after a result that is no replay.
abbrev pub Kept : SubmitCommand → Str → SubmitResult → World → Type 0
Kept cmd hash (t, true) w = Unit
Kept cmd hash (t, false) w = Stored cmd hash t w.committed × IsQuiet w

Submitted-Kept :
    (cmd : SubmitCommand) (hash : Str) (r : SubmitResult) (v : World)
    → Submitted cmd hash r v
    → Kept cmd hash r (record v { committed = v.mine })
Submitted-Kept cmd hash (t, true) v h = tt
Submitted-Kept cmd hash (t, false) v h = h

IsReplay-Kept :
    (cmd : SubmitCommand) (hash : Str) (r : SubmitResult) (v : World)
    → IsReplay r v
    → Kept cmd hash r (record v { committed = v.mine })
IsReplay-Kept cmd hash (t, true) v h = tt
IsReplay-Kept cmd hash (t, false) v h = cc

or_retry-Post :
    {A : Type 0} (P : A → World → Type 0) (fresh : Tx A) (p : Result AppError A × World)
    → Post P p
    → ((w : World) → Post P (within fresh w))
    → Post P (or_retry fresh p)
or_retry-Post P fresh (ok a, w) h f = h
or_retry-Post P fresh (err conflict, w) h f = f w
or_retry-Post P fresh (err e, w) h f = ground arith

submit_hashed-Post :
    (env : Env) (cmd : SubmitCommand) (hash : Str) (w : World)
    → IsQuiet w
    → Post (Kept cmd hash) (submit_hashed env cmd hash w)
submit_hashed-Post env cmd hash w q =
    or_retry-Post (Kept cmd hash) (recover_idempotent_insert cmd hash)
      (within (submit_in_tx env cmd hash) w)
      (within-Post (Submitted cmd hash) (Kept cmd hash) (submit_in_tx env cmd hash) w
        (submit_in_tx-Post env cmd hash (record w { mine = w.committed }) q)
        (Submitted-Kept cmd hash))
      (λ x.
        within-Post IsReplay (Kept cmd hash) (recover_idempotent_insert cmd hash) x
          (recover-IsReplay cmd hash (record x { mine = x.committed })) (IsReplay-Kept cmd hash))

-- What a `Submit` that nobody disturbs ends in, with the hash of the command.
abbrev pub Ends : Env → SubmitCommand → SubmitResult → World → Type 0
Ends env cmd r w =
    (authorize_submit cmd.actor cmd.provider_id ≡ true)
    × (hash : Str) × (hash_canonical_payload env.digest (canonical_from_submit cmd) ≡ ok hash)
    × Kept cmd hash r w

pub submit-Ends :
    (env : Env) (cmd : SubmitCommand) (w : World)
    → IsQuiet w
    → Post (Ends env cmd) (submit env cmd w)
unfolding submit
submit-Ends env cmd w q =
    bind-Post (λ _ x. (authorize_submit cmd.actor cmd.provider_id ≡ true) × IsQuiet x)
      (Ends env cmd) (require (authorize_submit cmd.actor cmd.provider_id) forbidden)
      (λ _.
        domain (hash_canonical_payload env.digest (canonical_from_submit cmd))
        >>= submit_hashed env cmd)
      w (allowed (authorize_submit cmd.actor cmd.provider_id) w q)
      (λ _ x h.
        bind-Post
          (λ hash y.
            (hash_canonical_payload env.digest (canonical_from_submit cmd) ≡ ok hash) × IsQuiet y)
          (Ends env cmd) (domain (hash_canonical_payload env.digest (canonical_from_submit cmd)))
          (submit_hashed env cmd) x
          (domain-Post _ (hash_canonical_payload env.digest (canonical_from_submit cmd)) x
            (λ hash e. (e, h.1)))
          (λ hash y k.
            Post-mono (Kept cmd hash) (Ends env cmd) (submit_hashed env cmd hash y)
              (submit_hashed-Post env cmd hash y k.1) (λ r z kept. (h.0, hash, k.0, kept))))
  where
    allowed :
        (b : Bool) (x : World)
        → IsQuiet x
        → Post (λ _ y. (b ≡ true) × IsQuiet y) (require b forbidden x)
    allowed true x k = (refl, k)
    allowed false x k = tt
