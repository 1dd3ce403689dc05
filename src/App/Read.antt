-- ===== src/App/Read.antt =====
-- internal/app/read.go: the use cases that only read, with `ListByWallet` of
-- internal/adapter/postgres/ledger.go.
pub mod Paging
pub mod Keeping
use desafio_jungle_go.Prelude.{
  ℕ, suc, ◌+◌, ◌-◌, Bool, true, false, not, ◌&&◌, ◌||◌, List, [], ◌∷◌, ◌++◌, Option, none, some,
  Result, ok, err, length, ltb, leb, ◌==◌, if◌then◌else◌,
}
use desafio_jungle_go.Prelude.Int.{ℤ, pos, pos_part, ltb_ℤ}
use desafio_jungle_go.Prelude.Str.{Str, codes, str_eq, is_empty}
use desafio_jungle_go.Prelude.Time.{Time, utc}
use desafio_jungle_go.Prelude.Sorting.{str_ltb, str_leb, sort_by, take}
use desafio_jungle_go.Domain.Errors.{Res, FailureCode, Sentinel, validation}
use desafio_jungle_go.Domain.Ledger.{WalletLedgerEntry}
use desafio_jungle_go.Domain.Wallet.{Wallet}
use desafio_jungle_go.Domain.Transaction.{WagerTransaction}
use desafio_jungle_go.App.Identity.{Actor, can_access_provider, can_read_transaction}
use desafio_jungle_go.App.Ports.{
  AppError, not_found, forbidden, Db, select, get_wallet, get_transaction, get_by_external_id,
}
use desafio_jungle_go.App.Tx.{World, Tx, ◌>>=◌, ◌>>◌, pure, require, domain, get, read, within}

-- What the cursors take from the standard library: base64 and the layout of a time.
pub record CursorCodec : Type 0 where
  pub encode_base64 : Str → Str
  pub decode_base64 : Str → Option Str
  pub format_time : Time → Str
  pub parse_time : Str → Option Time

pub record LedgerPage : Type 0 where
  pub entries : List WalletLedgerEntry
  pub next_cursor : Str

-- `Service.GetWallet`
unfoldable pub load_wallet : Str → Tx Wallet
load_wallet id = within (get (get_wallet id))

abbrev pub readable : Actor → WagerTransaction → Tx WagerTransaction
readable actor tx = require (can_read_transaction actor tx) not_found >> pure tx

-- `Service.GetTransaction`
unfoldable pub load_transaction : Actor → Str → Tx WagerTransaction
load_transaction actor id = within (get (get_transaction id) >>= readable actor)

-- `GetByProviderExternalID`
unfoldable pub load_by_external_id : Actor → Str → Str → Tx WagerTransaction
load_by_external_id actor provider_id external_id =
    require (can_access_provider actor provider_id) forbidden
    >> within (get (get_by_external_id provider_id external_id))

-- The byte `|`.
abbrev pub bar : ℕ
bar = 124

-- `encodeLedgerCursor`
abbrev pub encode_ledger_cursor : CursorCodec → Time → Str → Str
encode_ledger_cursor c created_at id =
    c.encode_base64 (c.format_time (utc created_at) ++ (bar ∷ id))

-- The parts before and after the first `|`.
unfoldable pub split_bar : Str → Option (Str × Str)
split_bar [] = none
split_bar (b ∷ s) =
    let rest = split_bar s in
    if b == bar then some ([], s) else elim rest [ none ↦ none | some p ↦ some (b ∷ p.0, p.1) ]

abbrev pub invalid_cursor : {A : Type 0} → Res A
invalid_cursor = err (validation FailureCode.missing_identity Sentinel.invalid_cursor)

abbrev pub cursor_at : Str → Option Time → Res (Time × Str)
cursor_at id none = invalid_cursor
cursor_at id (some t) = ok (t, id)

abbrev pub cursor_parts : CursorCodec → Option (Str × Str) → Res (Time × Str)
cursor_parts c none = invalid_cursor
cursor_parts c (some p) = if is_empty p.1 then invalid_cursor else cursor_at p.1 (c.parse_time p.0)

abbrev pub cursor_of : CursorCodec → Option Str → Res (Time × Str)
cursor_of c none = invalid_cursor
cursor_of c (some raw) = cursor_parts c (split_bar raw)

-- `decodeLedgerCursor`
unfoldable pub decode_ledger_cursor : CursorCodec → Str → Res (Time × Str)
decode_ledger_cursor c cursor =
    if is_empty cursor then ok (0, []) else cursor_of c (c.decode_base64 cursor)

-- `ParseLimit`, with `strconv.Atoi` a parameter.
unfoldable pub parse_limit : (Str → Option ℤ) → Str → Res ℤ
parse_limit atoi raw = if is_empty raw then ok (pos 50) else elim (atoi raw) [
  | none ↦ err (validation FailureCode.missing_identity Sentinel.invalid_limit)
  | some n ↦
      if ltb_ℤ n (pos 1)
      then err (validation FailureCode.missing_identity Sentinel.invalid_limit)
      else ok n
]

-- `(created_at, id) > ($2, $3)`
abbrev pub is_after : Time → Str → WalletLedgerEntry → Bool
is_after created_at id e =
    ltb created_at e.created_at || (created_at == e.created_at && str_ltb id e.id)

-- `ORDER BY created_at ASC, id ASC`
abbrev pub earlier : WalletLedgerEntry → WalletLedgerEntry → Bool
earlier e f = ltb e.created_at f.created_at || (e.created_at == f.created_at && str_leb e.id f.id)

-- `ledgerRepo.ListByWallet`
unfoldable pub list_by_wallet : Str → Time → Str → ℕ → Db → List WalletLedgerEntry
list_by_wallet wallet_id created_at id limit db = take limit (
    sort_by earlier (
      select (λ e. str_eq e.wallet_id wallet_id && (is_empty id || is_after created_at id e))
        db.ledger))

-- The limits of `ListLedger`.
unfoldable pub clamp_limit : ℤ → ℕ
clamp_limit limit =
    if not (ltb_ℤ (pos 0) limit) then 50 else if ltb_ℤ (pos 100) limit then 100 else pos_part limit

-- The cursor after the last of some entries.
unfoldable pub cursor_after : CursorCodec → List WalletLedgerEntry → Str
cursor_after c [] = []
cursor_after c (e ∷ []) = encode_ledger_cursor c e.created_at e.id
cursor_after c (e ∷ f ∷ es) = cursor_after c (f ∷ es)

-- One row more than the limit tells that there is another page.
abbrev pub page_of : CursorCodec → ℕ → List WalletLedgerEntry → LedgerPage
page_of c limit items =
    if ltb limit (length items)
    then record { entries = take limit items; next_cursor = cursor_after c (take limit items) }
    else record { entries = items; next_cursor = [] }

abbrev pub list_page : CursorCodec → Str → ℕ → Time × Str → Wallet → Tx LedgerPage
list_page c wallet_id limit (created_at, id) w =
    read (list_by_wallet wallet_id created_at id (suc limit)) >>= λ items.
    pure (page_of c limit items)

abbrev pub list_from : CursorCodec → Str → ℕ → Time × Str → Tx LedgerPage
list_from c wallet_id limit start =
    within (get (get_wallet wallet_id) >>= list_page c wallet_id limit start)

-- `ListLedger`
unfoldable pub list_ledger : CursorCodec → Str → Str → ℤ → Tx LedgerPage
list_ledger c wallet_id cursor limit =
    domain (decode_ledger_cursor c cursor) >>= list_from c wallet_id (clamp_limit limit)
