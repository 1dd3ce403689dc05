-- ===== src/App/Tx/Runs.antt =====
-- Steps of a unit of work that no other transaction disturbs: what holds when a step succeeds, and
-- that the committed tables stay as they are until the unit ends, whether it succeeds or not.
use desafio_jungle_go.Prelude.{
  ◌≡◌, refl, sym, subst, Result, ok, err, [], Option, none, some, Bool, true, false, suc, arith,
  ◌∙◌,
}
use desafio_jungle_go.Domain.Errors.{Res}
use desafio_jungle_go.App.Ports.{AppError, not_found, Db}
use desafio_jungle_go.App.Tx.{
  World, Tx, ◌>>=◌, domain, require, read, get, write, written, within, settle,
}
use desafio_jungle_go.App.Tx.Steps.{pause-IsQuiet, SameTables}
use desafio_jungle_go.App.Lookup.{lookup, or_missing}

-- A world in the middle of the unit of work that begins at `v`.
pub record Within (v w : World) : Type 0 where
  pub quiet : w.others ≡ []
  pub committed_kept : w.committed ≡ v.committed

-- What a step leaves: if it succeeds its value and world satisfy `P`.
abbrev pub Ran : {A : Type 0} → World → (A → World → Type 0) → Result AppError A × World → Type 0
Ran v P (ok a, w) = Within v w × P a w
Ran v P (err e, w) = Within v w

pub Ran-mono :
    {A : Type 0} (v : World) (P Q : A → World → Type 0) (p : Result AppError A × World)
    → Ran v P p
    → ((a : A) (x : World) → P a x → Q a x)
    → Ran v Q p
Ran-mono v P Q (ok a, x) h f = (h.0, f a x h.1)
Ran-mono v P Q (err e, x) h f = h

pub bind-Ran :
    {A B : Type 0} (v : World) (P : A → World → Type 0) (Q : B → World → Type 0) (m : Tx A)
    (f : A → Tx B) (w : World)
    → Ran v P (m w)
    → ((a : A) (x : World) → Within v x → P a x → Ran v Q (f a x))
    → Ran v Q ((m >>= f) w)
bind-Ran {A} {B} v P Q m f w h next = go (m w) h
  where
    go :
        (p : Result AppError A × World)
        → Ran v P p
        → Ran v Q (
            let (r, x) = p in
            let y : Result AppError B × World = elim r [ ok a ↦ f a x | err e ↦ (err e, x) ] in y)
    go (ok a, x) l = next a x l.0 l.1
    go (err e, x) l = l

module _ (v w : World) (k : Within v w) where
  pub domain-Ran :
      {A : Type 0} (P : A → World → Type 0) (r : Res A)
      → ((a : A) → r ≡ ok a → P a w)
      → Ran v P (domain r w)
  domain-Ran P (ok a) h = (k, h a refl)
  domain-Ran P (err e) h = k

  pub require-Ran :
      (P : Unit {0} → World → Type 0) (b : Bool) (e : AppError)
      → (b ≡ true → P tt w)
      → Ran v P (require b e w)
  require-Ran P true e h = (k, h refl)
  require-Ran P false e h = k

  pub read-Ran :
      {A : Type 0} (P : A → World → Type 0) (f : Db → A) → P (f w.mine) w → Ran v P (read f w)
  read-Ran {A} P f h =
      let run : World → Result AppError A × World = λ x. (ok (f x.mine), x) in
      subst (λ x. Ran v P (run x)) (sym (pause-IsQuiet w k.quiet)) (k, h)

  pub get-Ran :
      {A : Type 0} (P : A → World → Type 0) (f : Db → Result AppError A)
      → ((a : A) → f w.mine ≡ ok a → P a w)
      → Ran v P (get f w)
  get-Ran {A} P f h =
      let run : World → Result AppError A × World = λ x. (f x.mine, x) in
      subst (λ x. Ran v P (run x)) (sym (pause-IsQuiet w k.quiet)) (got (f w.mine) h)
    where
      got : (r : Result AppError A) → ((a : A) → r ≡ ok a → P a w) → Ran v P (r, w)
      got (ok a) g = (k, g a refl)
      got (err e) g = k

  or_missing-Ran :
      {A : Type 0} (P : Option A → World → Type 0) (r : Result AppError A)
      → P none w
      → ((a : A) → r ≡ ok a → P (some a) w)
      → Ran v P (or_missing r w)
  or_missing-Ran P (ok a) n s = (k, s a refl)
  or_missing-Ran P (err not_found) n s = (k, n)
  or_missing-Ran P (err e) n s = ground arith

  pub write-Ran :
      (P : Unit {0} → World → Type 0) (f : Db → Result AppError Db)
      → ((d : Db) → f w.mine ≡ ok d → P tt (record w { mine = d }))
      → Ran v P (write f w)
  write-Ran P f h =
      let run : World → Result AppError (Unit {0}) × World = λ x. written (f x.mine) x in
      subst (λ x. Ran v P (run x)) (sym (pause-IsQuiet w k.quiet)) (wrote (f w.mine) h)
    where
      wrote :
          (r : Result AppError Db)
          → ((d : Db) → r ≡ ok d → P tt (record w { mine = d }))
          → Ran v P (written r w)
      wrote (ok d) g = (record { quiet = k.quiet; committed_kept = k.committed_kept }, g d refl)
      wrote (err e) g = k

  pub counted-Within : Within v (record w { calls = suc w.calls })
  counted-Within = record { quiet = k.quiet; committed_kept = k.committed_kept }

pub lookup-Ran :
    {A : Type 0} (v w : World) (k : Within v w) (P : Option A → World → Type 0)
    (f : Db → Result AppError A)
    → P none w
    → ((a : A) → f w.mine ≡ ok a → P (some a) w)
    → Ran v P (lookup f w)
lookup-Ran {A} v w k P f n s =
    let run : World → Result AppError (Option A) × World = λ x. or_missing (f x.mine) x in
    subst (λ x. Ran v P (run x)) (sym (pause-IsQuiet w k.quiet))
      (or_missing-Ran v w k P (f w.mine) n s)

-- A world that a unit of work has ended in.
pub record Ended (I : Db → Type 0) (w : World) : Type 0 where
  pub quiet : w.others ≡ []
  pub holds : I w.committed

-- A unit of work keeps what its body keeps of the tables: if it succeeds they are committed, and
-- if it fails the committed tables are those from before.
pub within-Ended :
    {A : Type 0} (I : Db → Type 0) (P : A → World → Type 0) (body : Tx A) (w : World)
    → I w.committed
    → Ran w P (body (record w { mine = w.committed }))
    → ((a : A) (x : World) → P a x → I x.mine)
    → Ended I (within body w).1
unfolding within
within-Ended {A} I P body w i h f = go (body (record w { mine = w.committed })) h
  where
    go : (p : Result AppError A × World) → Ran w P p → Ended I (settle p.0 p.1).1
    go (ok a, x) l = record { quiet = l.0.quiet; holds = f a x l.1 }
    go (err e, x) l = record { quiet = l.quiet; holds = subst I (sym l.committed_kept) i }

-- A step that leaves the tables alone.
pub SameTables-Ran :
    {A : Type 0} (v w : World) (Q : World → Type 0) (p : Result AppError A × World)
    → Within v w
    → SameTables w p.1
    → ((x : World) → x.mine ≡ w.mine → Q x)
    → Ran v (λ _ x. Q x) p
SameTables-Ran v w Q (ok a, x) k s h = (
  record { quiet = s.quiet; committed_kept = s.same_committed ∙ k.committed_kept },
  h x s.same_mine,
)
SameTables-Ran v w Q (err e, x) k s h = record {
  quiet = s.quiet;
  committed_kept = s.same_committed ∙ k.committed_kept;
}
