-- ===== src/App/Inbound/Keeping.antt =====
-- `HandleInbound` of internal/app/inbound.go keeps the books.
use desafio_jungle_go.Prelude.{◌≡◌, refl, Option, none, some, Result, ok, err, arith, true, suc}
use desafio_jungle_go.Prelude.Str.{Str}
use desafio_jungle_go.Prelude.Time.{utc}
use desafio_jungle_go.Domain.Errors.{Res}
use desafio_jungle_go.Domain.Money.Sums.{IsMoney}
use desafio_jungle_go.Domain.Canonical.{hash_canonical_payload}
use desafio_jungle_go.App.Ports.{
  AppError, conflict, inbox_hash_mismatch, Db, InboxRecord, get_inbox, insert_inbox,
}
use desafio_jungle_go.App.Tx.{Env, World, ◌>>=◌, ◌>>◌, pure, require, domain, write, within}
use desafio_jungle_go.App.Tx.Steps.{IsQuiet}
use desafio_jungle_go.App.Tx.Runs.{
  Within, Ran, bind-Ran, domain-Ran, require-Ran, write-Ran, lookup-Ran, counted-Within, Ended,
  within-Ended,
}
use desafio_jungle_go.App.Lookup.{SubmitResult, canonical_from_submit}
use desafio_jungle_go.App.Submit.{submit_in_tx, recover_idempotent_insert}
use desafio_jungle_go.App.Books.{IsBooked}
use desafio_jungle_go.App.Books.Looking.{recover_idempotent_insert-Ran}
use desafio_jungle_go.App.Books.Applying.{IssuesIds}
use desafio_jungle_go.App.Books.Submitting.{IsOpen, submit_in_tx-Ran, or_retry-Ended}
use desafio_jungle_go.App.Inbound.{
  InboundCommand, validate_inbound, inbox_record, find_inbox, same_body, complete, inbound_with,
  inbound_in_tx, or_rolled_back, complete_recovered, recover_inbound_with, recover_inbound,
  handle_valid, handle_inbound,
}

abbrev Booked {ℓ} : {A : Type ℓ} → A → World → Type 0
Booked _ y = IsBooked y.mine

inbox_keeps : (r : InboxRecord) (db d : Db) → IsBooked db → insert_inbox r db ≡ ok d → IsBooked d
inbox_keeps r db d b h = ground arith

module _ (env : Env) (cmd : InboundCommand) (v : World) where
  complete-Ran :
      (r : SubmitResult) (x : World)
      → Within v x
      → IsBooked x.mine
      → Ran v Booked (complete env cmd r x)
  complete-Ran r x k b =
      let rec : InboxRecord = inbox_record cmd (utc (env.now x.calls)) in
      bind-Ran v Booked Booked (write (insert_inbox rec)) (λ _. pure r)
        (record x { calls = suc x.calls })
        (write-Ran v (record x { calls = suc x.calls }) (counted-Within v x k) Booked
          (insert_inbox rec) (λ d e. inbox_keeps rec x.mine d b e))
        (λ _ y k1 b1. (k1, b1))

  rolled_back-Ran :
      (r : SubmitResult) (p : Result AppError (Unit {0}) × World)
      → Ran v Booked p
      → Ran v Booked (or_rolled_back r p)
  rolled_back-Ran r (ok _, x) h = h
  rolled_back-Ran r (err conflict, x) h = h
  rolled_back-Ran r (err e, x) h = ground arith

  complete_recovered-Ran :
      (r : SubmitResult) (x : World)
      → Within v x
      → IsBooked x.mine
      → Ran v Booked (complete_recovered env cmd r x)
  complete_recovered-Ran r x k b =
      let rec : InboxRecord = inbox_record cmd (utc (env.now x.calls)) in
      rolled_back-Ran r (write (insert_inbox rec) (record x { calls = suc x.calls })) (
        write-Ran v (record x { calls = suc x.calls }) (counted-Within v x k) Booked
          (insert_inbox rec) (λ d e. inbox_keeps rec x.mine d b e))

  recover_inbound_with-Ran :
      (o : Option InboxRecord) (x : World)
      → Within v x
      → IsBooked x.mine
      → Ran v Booked (recover_inbound_with env cmd o x)
  recover_inbound_with-Ran none x k b =
      bind-Ran v Booked Booked
        (domain (hash_canonical_payload env.digest (canonical_from_submit cmd.submit)))
        (λ hash. recover_idempotent_insert cmd.submit hash >>= complete_recovered env cmd) x
        (domain-Ran v x k Booked _ (λ _ _. b))
        (λ hash y k1 b1.
          bind-Ran v Booked Booked (recover_idempotent_insert cmd.submit hash)
            (complete_recovered env cmd) y
            (recover_idempotent_insert-Ran IsBooked cmd.submit hash v y k1 b1)
            complete_recovered-Ran)
  recover_inbound_with-Ran (some existing) x k b =
      bind-Ran v Booked Booked (require (same_body cmd existing) inbox_hash_mismatch)
        (λ _.
          domain (hash_canonical_payload env.digest (canonical_from_submit cmd.submit)) >>= λ hash.
          recover_idempotent_insert cmd.submit hash >>= λ r. pure (r.0, true))
        x (require-Ran v x k Booked (same_body cmd existing) inbox_hash_mismatch (λ _. b))
        (λ _ y k1 b1.
          bind-Ran v Booked Booked
            (domain (hash_canonical_payload env.digest (canonical_from_submit cmd.submit)))
            (λ hash. recover_idempotent_insert cmd.submit hash >>= λ r. pure (r.0, true)) y
            (domain-Ran v y k1 Booked _ (λ _ _. b1))
            (λ hash z k2 b2.
              bind-Ran v Booked Booked (recover_idempotent_insert cmd.submit hash)
                (λ r. pure (r.0, true)) z
                (recover_idempotent_insert-Ran IsBooked cmd.submit hash v z k2 b2)
                (λ r u k3 b3. (k3, b3))))

  recover_inbound-Ran :
      (x : World) → Within v x → IsBooked x.mine → Ran v Booked (recover_inbound env cmd x)
  unfolding recover_inbound
  recover_inbound-Ran x k b =
      bind-Ran v Booked Booked (find_inbox cmd) (recover_inbound_with env cmd) x
        (lookup-Ran v x k Booked (get_inbox cmd.consumer_name cmd.message_id) b (λ _ _. b))
        recover_inbound_with-Ran

module _ (env : Env) (ids : IssuesIds env) (cmd : InboundCommand) (money : IsMoney cmd.submit.money)
    (v : World) where
  inbound_with-Ran :
      (hash : Str) (o : Option InboxRecord) (x : World)
      → Within v x
      → IsOpen x.mine
      → Ran v Booked (inbound_with env cmd hash o x)
  inbound_with-Ran hash none x k i =
      bind-Ran v Booked Booked (submit_in_tx env cmd.submit hash) (complete env cmd) x
        (submit_in_tx-Ran env ids cmd.submit money v hash x k i) (complete-Ran env cmd v)
  inbound_with-Ran hash (some existing) x k i =
      bind-Ran v (λ _ y. IsOpen y.mine) Booked
        (require (same_body cmd existing) inbox_hash_mismatch)
        (λ _. submit_in_tx env cmd.submit hash >>= λ r. pure (r.0, true)) x
        (require-Ran v x k (λ _ y. IsOpen y.mine) (same_body cmd existing) inbox_hash_mismatch
          (λ _. i))
        (λ _ y k1 i1.
          bind-Ran v Booked Booked (submit_in_tx env cmd.submit hash) (λ r. pure (r.0, true)) y
            (submit_in_tx-Ran env ids cmd.submit money v hash y k1 i1) (λ r z k2 b. (k2, b)))

  inbound_in_tx-Ran :
      (x : World) → Within v x → IsOpen x.mine → Ran v Booked (inbound_in_tx env cmd x)
  unfolding inbound_in_tx
  inbound_in_tx-Ran x k i =
      bind-Ran v (λ _ y. IsOpen y.mine) Booked
        (domain (hash_canonical_payload env.digest (canonical_from_submit cmd.submit)))
        (λ hash. find_inbox cmd >>= inbound_with env cmd hash) x
        (domain-Ran v x k (λ _ y. IsOpen y.mine) _ (λ _ _. i))
        (λ hash y k1 i1.
          bind-Ran v (λ _ z. IsOpen z.mine) Booked (find_inbox cmd) (inbound_with env cmd hash) y
            (lookup-Ran v y k1 (λ _ z. IsOpen z.mine) (get_inbox cmd.consumer_name cmd.message_id)
              i1 (λ _ _. i1))
            (inbound_with-Ran hash))

-- With identifiers that are never blank, from tables whose books balance and whose wallets can
-- still change, and while no other transaction commits, `HandleInbound` of a well-formed amount
-- leaves tables whose books balance, whatever it returns.
pub handle_inbound-IsBooked :
    (env : Env) (cmd : InboundCommand) (w : World)
    → IssuesIds env
    → IsMoney cmd.submit.money
    → IsQuiet w
    → IsOpen w.committed
    → Ended IsBooked (handle_inbound env cmd w).1
unfolding handle_inbound
handle_inbound-IsBooked env cmd w ids m q i = checked (validate_inbound cmd)
  where
    checked : (r : Res (Unit {0})) → Ended IsBooked ((domain r >> handle_valid env cmd) w).1
    checked (err e) = record { quiet = q; holds = i.booked }
    checked (ok _) =
        or_retry-Ended IsBooked (recover_inbound env cmd) (within (inbound_in_tx env cmd) w)
          (within-Ended IsBooked Booked (inbound_in_tx env cmd) w i.booked
            (inbound_in_tx-Ran env ids cmd m w (record w { mine = w.committed })
              (record { quiet = q; committed_kept = refl }) i)
            (λ _ x b. b))
          (λ x e.
            within-Ended IsBooked Booked (recover_inbound env cmd) x e.holds
              (recover_inbound-Ran env cmd x (record x { mine = x.committed })
                (record { quiet = e.quiet; committed_kept = refl }) e.holds)
              (λ _ y b. b))
