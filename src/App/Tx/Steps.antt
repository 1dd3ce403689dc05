-- ===== src/App/Tx/Steps.antt =====
-- Steps of a unit of work taken apart, and runs that no other transaction disturbs.
use desafio_jungle_go.Prelude.{◌≡◌, refl, ap, Result, ok, err, List, [], ◌∷◌}
use desafio_jungle_go.App.Ports.{AppError, Db}
use desafio_jungle_go.App.Tx.{World, Tx, ◌>>=◌, within, settle, read, pause}

-- What holds of the value and the world of a step that succeeds.
abbrev pub Post : {A : Type 0} → (A → World → Type 0) → Result AppError A × World → Type 0
Post P (ok a, w) = P a w
Post P (err e, w) = Unit

-- One step after another.
pub bind-Post :
    {A B : Type 0} (P : A → World → Type 0) (Q : B → World → Type 0) (m : Tx A) (f : A → Tx B)
    (v : World)
    → Post P (m v)
    → ((a : A) (w : World) → P a w → Post Q (f a w))
    → Post Q ((m >>= f) v)
bind-Post {A} {B} P Q m f v h next = go (m v) h
  where
    go :
        (p : Result AppError A × World)
        → Post P p
        → Post Q (
            let (r, w) = p in
            let y : Result AppError B × World = elim r [ ok a ↦ f a w | err e ↦ (err e, w) ] in y)
    go (ok a, w) l = next a w l
    go (err e, w) l = tt

-- Nothing of others is still to come.
abbrev pub IsQuiet : World → Type 0
IsQuiet w = w.others ≡ []

-- Two worlds with the same tables, the second not to be disturbed.
pub record SameTables (v w : World) : Type 0 where
  pub quiet : w.others ≡ []
  pub same_mine : w.mine ≡ v.mine
  pub same_committed : w.committed ≡ v.committed

-- A read leaves the tables alone.
pub read-SameTables :
    {A : Type 0} (f : Db → A) (v w : World)
    → SameTables v w
    → Post (λ _ x. SameTables v x) (read f w)
read-SameTables {A} f v w s = go w.others s.quiet
  where
    go :
        (o : List (Db → Db))
        → o ≡ []
        → Post {A = A} (λ _ x. SameTables v x) (let x = pause o w in (ok (f x.mine), x))
    go [] e = s
    go (c ∷ cs) e = cc

pub SameTables-refl : (w : World) → IsQuiet w → SameTables w w
SameTables-refl w q = record { quiet = q; same_mine = refl; same_committed = refl }

-- A pause in a quiet world.
pub pause-IsQuiet : (w : World) → IsQuiet w → pause w.others w ≡ w
pause-IsQuiet w q = ap (λ o. pause o w) q

-- What holds of the world, whatever the result.
pub Post-world :
    {A : Type 0} (Q : World → Type 0) (p : Result AppError A × World) → Q p.1 → Post (λ _ x. Q x) p
Post-world Q (ok a, w) h = h
Post-world Q (err e, w) h = tt

pub Post-mono :
    {A : Type 0} (P Q : A → World → Type 0) (p : Result AppError A × World)
    → Post P p
    → ((a : A) (w : World) → P a w → Q a w)
    → Post Q p
Post-mono P Q (ok a, w) h f = f a w h
Post-mono P Q (err e, w) h f = tt

-- A step that succeeds, followed by another.
pub bind-eq :
    {A B : Type 0} (m : Tx A) (f : A → Tx B) (v : World) (a : A) (x : World)
    → m v ≡ (ok a, x)
    → (m >>= f) v ≡ f a x
bind-eq {A} {B} m f v a x h =
    ap
      (λ p.
        let y : Result AppError B × World = elim p.0 [ ok b ↦ f b p.1 | err e ↦ (err e, p.1) ] in y)
      h

-- A step that fails ends what it is part of.
pub bind-eq-err :
    {A B : Type 0} (m : Tx A) (f : A → Tx B) (v : World) (e : AppError) (x : World)
    → m v ≡ (err e, x)
    → (m >>= f) v ≡ (err e, x)
bind-eq-err {A} {B} m f v e x h =
    ap
      (λ p.
        let y : Result AppError B × World = elim p.0 [ ok b ↦ f b p.1 | err z ↦ (err z, p.1) ] in y)
      h

settle-Post :
    {A : Type 0} (P Q : A → World → Type 0) (p : Result AppError A × World)
    → Post P p
    → ((a : A) (v : World) → P a v → Q a (record v { committed = v.mine }))
    → Post Q (settle p.0 p.1)
settle-Post P Q (ok a, v) h f = f a v h
settle-Post P Q (err e, v) h f = tt

-- A unit of work: what its body makes true is true of what is committed.
pub within-Post :
    {A : Type 0} (P Q : A → World → Type 0) (body : Tx A) (w : World)
    → Post P (body (record w { mine = w.committed }))
    → ((a : A) (v : World) → P a v → Q a (record v { committed = v.mine }))
    → Post Q (within body w)
unfolding within
within-Post P Q body w h f = settle-Post P Q (body (record w { mine = w.committed })) h f
