-- ===== src/Domain/Types/Printing.antt =====
-- The names of kinds, statuses and directions of internal/domain/types.go, printed and parsed.
use desafio_jungle_go.Prelude.{◌≡◌, refl, ok, sym, subst, arith, ◌↔◌}
use desafio_jungle_go.Prelude.Str.{Str, str_eq, str_eq_iff}
use desafio_jungle_go.Domain.Types.{Kind, Status, kind_str, parse_kind, status_str, parse_status}

parse_kind-kind_str : (k : Kind) → parse_kind (kind_str k) ≡ ok k
unfolding parse_kind kind_str str_eq
parse_kind-kind_str Kind.opening = refl
parse_kind-kind_str Kind.bet = refl
parse_kind-kind_str Kind.win = refl
parse_kind-kind_str Kind.loss = refl
parse_kind-kind_str Kind.refund = refl
parse_kind-kind_str Kind.rollback = refl

parse_status-status_str : (s : Status) → parse_status (status_str s) ≡ ok s
unfolding parse_status status_str str_eq
parse_status-status_str Status.pending = refl
parse_status-status_str Status.pending_reference = refl
parse_status-status_str Status.processed = refl
parse_status-status_str Status.rejected = refl
parse_status-status_str Status.failed = refl

parse_kind_sound : (s : Str) (k : Kind) → parse_kind s ≡ ok k → s ≡ kind_str k
unfolding parse_kind
parse_kind_sound s k h = ground (
  arith,
  str_eq_iff s (kind_str Kind.opening),
  str_eq_iff s (kind_str Kind.bet),
  str_eq_iff s (kind_str Kind.win),
  str_eq_iff s (kind_str Kind.loss),
  str_eq_iff s (kind_str Kind.refund),
  str_eq_iff s (kind_str Kind.rollback),
)

parse_status_sound : (s : Str) (k : Status) → parse_status s ≡ ok k → s ≡ status_str k
unfolding parse_status
parse_status_sound s k h = ground (
  arith,
  str_eq_iff s (status_str Status.pending),
  str_eq_iff s (status_str Status.pending_reference),
  str_eq_iff s (status_str Status.processed),
  str_eq_iff s (status_str Status.rejected),
  str_eq_iff s (status_str Status.failed),
)

-- A string parses to a kind exactly when it is the name of that kind.
pub parse_kind_lem : (s : Str) (k : Kind) → (parse_kind s ≡ ok k) ↔ (s ≡ kind_str k)
parse_kind_lem s k =
    (parse_kind_sound s k, λ h. subst (λ t. parse_kind t ≡ ok k) (sym h) (parse_kind-kind_str k))

-- A string parses to a status exactly when it is the name of that status.
pub parse_status_lem : (s : Str) (k : Status) → (parse_status s ≡ ok k) ↔ (s ≡ status_str k)
parse_status_lem s k = (
  parse_status_sound s k,
  λ h. subst (λ t. parse_status t ≡ ok k) (sym h) (parse_status-status_str k),
)
