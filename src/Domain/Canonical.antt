-- ===== src/Domain/Canonical.antt =====
-- internal/domain/canonical.go: the business fields that are hashed for idempotency. The JSON
-- encoding and SHA-256 are one parameter, a function of the key-sorted fields.
use desafio_jungle_go.Prelude.{Option, none, some, ok, ◌>>◌, if◌then◌else◌}
use desafio_jungle_go.Prelude.Str.{Str, is_empty}
use desafio_jungle_go.Domain.Errors.{Res}
use desafio_jungle_go.Domain.Types.{Kind, kind_str}
use desafio_jungle_go.Domain.Money.{Money, require_initialized, amount_string}

pub record CanonicalPayload : Type 0 where
  pub provider_id : Str
  pub external_id : Str
  pub player_id : Str
  pub wallet_id : Str
  pub round_id : Str
  pub game_id : Str
  pub kind : Kind
  pub money : Money
  pub reference_external_id : Str

-- The fields of the JSON object, in the order of its keys.
pub record CanonicalBody : Type 0 where
  pub external_id : Str
  pub game_id : Str
  pub kind : Str
  pub amount : Str
  pub currency : Str
  pub player_id : Str
  pub provider_id : Str
  pub reference : Option Str
  pub round_id : Str
  pub wallet_id : Str

unfoldable pub canonical_body : CanonicalPayload → CanonicalBody
canonical_body p = record {
  external_id = p.external_id;
  game_id = p.game_id;
  kind = kind_str p.kind;
  amount = amount_string p.money;
  currency = p.money.currency;
  player_id = p.player_id;
  provider_id = p.provider_id;
  reference = (if is_empty p.reference_external_id then none else some p.reference_external_id);
  round_id = p.round_id;
  wallet_id = p.wallet_id;
}

-- `HashCanonicalPayload`
unfoldable pub hash_canonical_payload : (CanonicalBody → Str) → CanonicalPayload → Res Str
hash_canonical_payload digest p = do require_initialized p.money; ok (digest (canonical_body p))
