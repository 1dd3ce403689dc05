-- ===== src/App/Identity/Access.antt =====
-- Who may submit for whom, by `authorizeSubmit` of internal/app/submit.go.
use desafio_jungle_go.Prelude.{◌≡◌, true, false, arith, ◌↔◌, ◌⊎◌}
use desafio_jungle_go.Prelude.Str.{Str, str_eq_iff, is_empty}
use desafio_jungle_go.App.Identity.{Actor, authorize_submit, can_access_provider}

-- An actor of a provider, for that provider or for one that is not named.
abbrev pub MaySubmit : Actor → Str → Type 0
MaySubmit a p =
    (a.internal ≡ false)
    × (is_empty a.provider_id ≡ false)
    × ((is_empty p ≡ true) ⊎ (a.provider_id ≡ p))

-- A command is let through exactly for an actor that is not internal, belongs to a provider, and
-- names that provider or none.
pub authorize_submit_lem : (a : Actor) (p : Str) → (authorize_submit a p ≡ true) ↔ MaySubmit a p
unfolding authorize_submit can_access_provider
authorize_submit_lem a p = ground (arith, str_eq_iff a.provider_id p)
