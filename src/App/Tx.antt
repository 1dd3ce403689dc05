-- ===== src/App/Tx.antt =====
-- The unit of work of internal/app/ports.go and internal/adapter/postgres/uow.go: one SQL
-- transaction at READ COMMITTED. Before each statement another transaction may commit; what it
-- commits is the next function of `others`. A failed unit leaves nothing behind.
pub mod Steps
pub mod Runs
use desafio_jungle_go.Prelude.{ℕ, suc, List, [], ◌∷◌, Result, ok, err, Bool, true, false}
use desafio_jungle_go.Prelude.Str.{Str}
use desafio_jungle_go.Prelude.Time.{Time}
use desafio_jungle_go.Domain.Errors.{Res}
use desafio_jungle_go.Domain.Event.{Event}
use desafio_jungle_go.Domain.Canonical.{CanonicalBody}
use desafio_jungle_go.App.Ports.{AppError, of_domain, Db}

-- What the service is built over: the generator of identifiers and the clock, by the number of
-- calls made so far, the canonical digest and the JSON encoding of an event.
pub record Env : Type 0 where
  pub new_id : ℕ → Str
  pub now : ℕ → Time
  pub digest : CanonicalBody → Str
  pub marshal : Event → Str

pub record World : Type 0 where
  pub committed : Db
  pub mine : Db
  pub others : List (Db → Db)
  pub calls : ℕ

-- A step of a use case.
abbrev pub Tx : Type 0 → Type 0
Tx A = World → Result AppError A × World

infixl 5 ◌>>=◌ ◌>>◌
abbrev pub ◌>>=◌ : {A B : Type 0} → Tx A → (A → Tx B) → Tx B
◌>>=◌ m f w = let (r, w') = m w in elim r [ ok a ↦ f a w' | err e ↦ (err e, w') ]

abbrev pub ◌>>◌ : {B : Type 0} → Tx (Unit {0}) → Tx B → Tx B
m >> k = m >>= λ _. k

abbrev pub pure : {A : Type 0} → A → Tx A
pure a w = (ok a, w)

abbrev pub fail : {A : Type 0} → AppError → Tx A
fail e w = (err e, w)

abbrev pub require : Bool → AppError → Tx (Unit {0})
require true e w = (ok tt, w)
require false e w = (err e, w)

-- A call of the domain.
abbrev pub domain : {A : Type 0} → Res A → Tx A
domain (ok a) w = (ok a, w)
domain (err e) w = (err (of_domain e), w)

-- The commit of another transaction, if one comes in between.
abbrev pub pause : List (Db → Db) → World → World
pause [] w = w
pause (c ∷ cs) w = record w { committed = c w.committed; mine = c w.mine; others = cs }

abbrev pub read : {A : Type 0} → (Db → A) → Tx A
read f w = let w' = pause w.others w in (ok (f w'.mine), w')

abbrev pub written : Result AppError Db → World → Result AppError (Unit {0}) × World
written (ok db) w = (ok tt, record w { mine = db })
written (err e) w = (err e, w)

abbrev pub write : (Db → Result AppError Db) → Tx (Unit {0})
write f w = let w' = pause w.others w in written (f w'.mine) w'

-- A lookup whose error fails the step.
abbrev pub get : {A : Type 0} → (Db → Result AppError A) → Tx A
get f w = let w' = pause w.others w in (f w'.mine, w')

-- `s.ids.NewID()`
abbrev pub new_id : Env → Tx Str
new_id env w = (ok (env.new_id w.calls), record w { calls = suc w.calls })

-- `s.clock.Now()`
abbrev pub now : Env → Tx Time
now env w = (ok (env.now w.calls), record w { calls = suc w.calls })

abbrev pub settle : {A : Type 0} → Result AppError A → World → Result AppError A × World
settle (ok a) w = (ok a, record w { committed = w.mine })
settle (err e) w = (err e, record w { mine = w.committed })

-- `unitOfWork.Within`
unfoldable pub within : {A : Type 0} → Tx A → Tx A
within body w = let (r, w') = body (record w { mine = w.committed }) in settle r w'
