-- ===== src/App/Identity.antt =====
-- internal/app/identity.go, and the authorization checks of submit.go and read.go.
pub mod Access
use desafio_jungle_go.Prelude.{Bool, true, false, not, ◌&&◌, ◌||◌, if◌then◌else◌}
use desafio_jungle_go.Prelude.Str.{Str, str_eq, is_empty}
use desafio_jungle_go.Domain.Transaction.{WagerTransaction}

pub record Actor : Type 0 where
  pub subject : Str
  pub client_id : Str
  pub provider_id : Str
  pub internal : Bool

-- `Actor.CanAccessProvider`
unfoldable pub can_access_provider : Actor → Str → Bool
can_access_provider actor provider_id =
    if is_empty provider_id
    then false
    else if actor.internal
    then true
    else str_eq actor.provider_id provider_id

-- `authorizeSubmit`; false stands for `ErrForbidden`.
unfoldable pub authorize_submit : Actor → Str → Bool
unfolding can_access_provider
authorize_submit actor provider_id =
    if actor.internal || is_empty actor.provider_id
    then false
    else if not (is_empty provider_id) && not (can_access_provider actor provider_id)
    then false
    else true

-- `canReadTransaction`
unfoldable pub can_read_transaction : Actor → WagerTransaction → Bool
unfolding can_access_provider
can_read_transaction actor tx =
    if actor.internal
    then true
    else not (is_empty tx.provider_id) && can_access_provider actor tx.provider_id
