-- ===== src/App/Read/Paging.antt =====
-- The pages and cursors of internal/app/read.go.
use desafio_jungle_go.Prelude.{
  ℕ, suc, ◌≤◌, ◌≡◌, refl, ap, ◌∙◌, subst, false, List, [], ◌∷◌, ◌++◌, none, some, Result, ok, err,
  length, if◌then◌else◌, arith,
}
use desafio_jungle_go.Prelude.Int.{ℤ, pos, negsuc}
use desafio_jungle_go.Prelude.Str.{Str, is_empty}
use desafio_jungle_go.Prelude.Time.{Time}
use desafio_jungle_go.Prelude.Sorting.{length-take}
use desafio_jungle_go.Domain.Ledger.{WalletLedgerEntry}
use desafio_jungle_go.App.Ports.{AppError, get_wallet}
use desafio_jungle_go.App.Tx.{World, Tx, ◌>>=◌, pure, get, read, domain, within, settle}
use desafio_jungle_go.App.Tx.Steps.{Post, bind-Post}
use desafio_jungle_go.App.Read.{
  CursorCodec, LedgerPage, encode_ledger_cursor, bar, split_bar, cursor_of, cursor_parts, cursor_at,
  decode_ledger_cursor, clamp_limit, page_of, invalid_cursor, list_by_wallet, list_page, list_from,
  list_ledger,
}

-- What the standard library promises: what is encoded is decoded, and a time has no `|` in it.
pub record CodecLaws (c : CursorCodec) : Type 0 where
  pub base64 : (s : Str) → c.decode_base64 (c.encode_base64 s) ≡ some s
  pub layout : (t : Time) → c.parse_time (c.format_time t) ≡ some t
  pub base64_empty : (s : Str) → is_empty s ≡ false → is_empty (c.encode_base64 s) ≡ false
  pub no_bar : (t : Time) → split_bar (c.format_time t) ≡ none

raw-not_empty : (s t : Str) → is_empty (s ++ (bar ∷ t)) ≡ false
raw-not_empty [] t = refl
raw-not_empty (b ∷ s) t = refl

split_bar-append : (s t : Str) → split_bar s ≡ none → split_bar (s ++ (bar ∷ t)) ≡ some (s, t)
unfolding split_bar
split_bar-append [] t h = refl
split_bar-append (b ∷ s) t h =
    let k : split_bar s ≡ none → split_bar (s ++ (bar ∷ t)) ≡ some (s, t) = split_bar-append s t in
    ground (arith, h, k)

-- If base64 and the layout of a time are read back as they are written, base64 makes no empty
-- string of one that is not empty, and no time has a `|` in it, then the cursor that
-- `encodeLedgerCursor` makes of the time and the identifier of an entry, which is not empty, is
-- the one that `decodeLedgerCursor` reads.
pub decode-encode :
    (c : CursorCodec) (t : Time) (id : Str)
    → CodecLaws c
    → is_empty id ≡ false
    → decode_ledger_cursor c (encode_ledger_cursor c t id) ≡ ok (t, id)
unfolding decode_ledger_cursor
decode-encode c t id laws h =
    let raw : Str = c.format_time t ++ (bar ∷ id) in
    let e : is_empty (c.encode_base64 raw) ≡ false =
      laws.base64_empty raw (raw-not_empty (c.format_time t) id) in
    let d : cursor_of c (some raw) ≡ ok (t, id) =
      ap (cursor_parts c) (split_bar-append (c.format_time t) id (laws.no_bar t))
      ∙ ap (λ b. if b then invalid_cursor else cursor_at id (c.parse_time (c.format_time t))) h
      ∙ ap (cursor_at id) (laws.layout t) in
    ap (λ b. if b then ok (0, []) else cursor_of c (c.decode_base64 (c.encode_base64 raw))) e
    ∙ ap (cursor_of c) (laws.base64 raw)
    ∙ d

clamp_limit-bounds : (limit : ℤ) → clamp_limit limit ≤ 100
unfolding clamp_limit
clamp_limit-bounds (pos n) = ground arith
clamp_limit-bounds (negsuc n) = ground arith

page_of-bounds :
    (c : CursorCodec) (limit : ℕ) (items : List WalletLedgerEntry)
    → length (page_of c limit items).entries ≤ limit
page_of-bounds c limit items = ground (arith, length-take limit items)

-- What holds of the value of a step that succeeds.
abbrev Gives : {A : Type 0} → (A → Type 0) → Result AppError A × World → Type 0
Gives P p = Post (λ a _. P a) p

within-Gives :
    {A : Type 0} (P : A → Type 0) (body : Tx A) (w : World)
    → ((x : World) → Gives P (body x))
    → Gives P (within body w)
unfolding within
within-Gives {A} P body w h = go (body (record w { mine = w.committed })) (h _)
  where
    go : (p : Result AppError A × World) → Gives P p → Gives P (settle p.0 p.1)
    go (ok a, x) k = k
    go (err e, x) k = tt

any-Gives : {A : Type 0} (p : Result AppError A × World) → Gives (λ _. Unit) p
any-Gives (ok a, x) = tt
any-Gives (err e, x) = tt

list_ledger-Gives :
    (c : CursorCodec) (wallet_id cursor : Str) (limit : ℤ) (w : World)
    → Gives (λ page. length page.entries ≤ 100) (list_ledger c wallet_id cursor limit w)
unfolding list_ledger
list_ledger-Gives c wallet_id cursor limit w =
    bind-Post (λ _ _. Unit) (λ page _. length page.entries ≤ 100)
      (domain (decode_ledger_cursor c cursor)) (list_from c wallet_id n) w
      (any-Gives (domain (decode_ledger_cursor c cursor) w))
      (λ start x _.
        within-Gives (λ page. length page.entries ≤ 100)
          (get (get_wallet wallet_id) >>= list_page c wallet_id n start) x
          (λ y.
            bind-Post (λ _ _. Unit) (λ page _. length page.entries ≤ 100)
              (get (get_wallet wallet_id)) (list_page c wallet_id n start) y
              (any-Gives (get (get_wallet wallet_id) y))
              (λ u z _.
                bind-Post (λ _ _. Unit) (λ page _. length page.entries ≤ 100)
                  (read (list_by_wallet wallet_id start.0 start.1 (suc n)))
                  (λ items. pure (page_of c n items)) z
                  (any-Gives (read (list_by_wallet wallet_id start.0 start.1 (suc n)) z))
                  (λ items v _. short items))))
  where
    n : ℕ
    n = clamp_limit limit

    short : (items : List WalletLedgerEntry) → length (page_of c n items).entries ≤ 100
    short items =
        let h : length (page_of c n items).entries ≤ n = page_of-bounds c n items in
        ground (arith, h, clamp_limit-bounds limit)

-- Whatever limit is asked for, and whatever other transactions commit meanwhile, a page that
-- `ListLedger` returns has at most 100 entries.
pub list_ledger-bounds :
    (c : CursorCodec) (wallet_id cursor : Str) (limit : ℤ) (w : World) (page : LedgerPage)
    → (list_ledger c wallet_id cursor limit w).0 ≡ ok page
    → length page.entries ≤ 100
list_ledger-bounds c wallet_id cursor limit w page h =
    go (list_ledger c wallet_id cursor limit w) (list_ledger-Gives c wallet_id cursor limit w) h
  where
    go :
        (p : Result AppError LedgerPage × World)
        → Gives (λ q. length q.entries ≤ 100) p
        → p.0 ≡ ok page
        → length page.entries ≤ 100
    go (ok q, x) k e =
        let s : q ≡ page = ground (arith, e) in subst (λ y. length y.entries ≤ 100) s k
    go (err y, x) k e = ground (arith, e)
