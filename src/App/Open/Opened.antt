-- ===== src/App/Open/Opened.antt =====
-- `OpenWallet` of internal/app/open.go keeps the books.
use desafio_jungle_go.Prelude.{
  ◌≡◌, refl, subst, true, false, List, [], ◌∷◌, ◌++◌, All, Option, none, some, arith, ok,
  Bool-cases, inl, inr,
}
use desafio_jungle_go.Prelude.Int.{pos, ◌+ℤ◌, eqb_ℤ, +ℤ_parts, eq_of_parts}
use desafio_jungle_go.Prelude.Str.{Str, str_eq, str_eq_iff}
use desafio_jungle_go.Domain.Types.{terminal}
use desafio_jungle_go.Domain.Money.{parse_currency}
use desafio_jungle_go.Domain.Money.Sums.{IsMoney}
use desafio_jungle_go.Domain.Ledger.{WalletLedgerEntry, is_blank}
use desafio_jungle_go.Domain.Wallet.{Wallet}
use desafio_jungle_go.Domain.Transaction.{WagerTransaction}
use desafio_jungle_go.Domain.Opening.{Opening, OpenWalletParams, open_wallet as open_domain_wallet}
use desafio_jungle_go.Domain.Opening.Creation.{
  IsOpenable, open_wallet_lem, opened_wallet-IsValid, opened_empty, opened_funded,
}
use desafio_jungle_go.Domain.History.{entries_of}
use desafio_jungle_go.App.Ports.{Db, any, select}
use desafio_jungle_go.App.Tx.{World}
use desafio_jungle_go.App.Books.Persist.{Holds, books_of}
use desafio_jungle_go.App.Books.Rows.{All-map}
use desafio_jungle_go.App.Books.{entries_for, IsBalanced, Absent, has_id, HasWallet, IsBooked}

abbrev pub IsDone : Option WagerTransaction → Type 0
IsDone none = Unit
IsDone (some t) = terminal t.status ≡ true

abbrev pub IsOwned : Str → Option WalletLedgerEntry → Type 0
IsOwned id none = Unit
IsOwned id (some e) = e.wallet_id ≡ id

-- A wallet with its entry, alone in the books, and a transaction that is done.
pub record IsOpening (o : Opening) : Type 0 where
  pub balance : IsBalanced (entries_of o.ledger) o.wallet
  pub transaction : IsDone o.transaction
  pub owner : IsOwned o.wallet.id o.ledger

pub opening-IsOpenable :
    (p : OpenWalletParams) {o : Opening}
    → is_blank p.opening_tx_id ≡ false
    → is_blank p.ledger_id ≡ false
    → IsMoney p.initial
    → parse_currency p.initial.currency ≡ ok p.initial.currency
    → open_domain_wallet p ≡ ok o
    → IsOpenable p
unfolding open_domain_wallet
opening-IsOpenable p t l m c h = ground arith

empty-IsOpening :
    (p : OpenWalletParams) → IsOpenable p → p.initial.minor ≡ pos 0 → IsOpening (opened_empty p)
unfolding select
empty-IsOpening p k z = record {
  balance = record { valid = opened_wallet-IsValid p k; balanced = z };
  transaction = tt;
  owner = tt;
}

funded-IsOpening : (p : OpenWalletParams) → IsOpenable p → IsOpening (opened_funded p)
unfolding select
funded-IsOpening p k = record {
  balance = record {
    valid = opened_wallet-IsValid p k;
    balanced = ground (
      arith,
      str_eq_iff p.wallet_id p.wallet_id,
      +ℤ_parts (pos 0) p.initial.minor,
      eq_of_parts p.initial.minor (pos 0 +ℤ p.initial.minor),
    );
  };
  transaction = refl;
  owner = refl;
}

pub open_domain-IsOpening :
    (p : OpenWalletParams) {o : Opening} → IsOpenable p → open_domain_wallet p ≡ ok o → IsOpening o
open_domain-IsOpening p {o} k h = elim (Bool-cases (eqb_ℤ p.initial.minor (pos 0))) [
  | inl e ↦
      let made : opened_empty p ≡ o = ground (arith, open_wallet_lem p k) in
      subst IsOpening made
        (empty-IsOpening p k (eq_of_parts p.initial.minor (pos 0) (ground arith)))
  | inr e ↦
      let made : opened_funded p ≡ o = ground (arith, open_wallet_lem p k) in
      subst IsOpening made (funded-IsOpening p k)
]

any-Absent : (id : Str) (ws : List Wallet) → Absent id ws → any (has_id id) ws ≡ false
unfolding any
any-Absent id [] a = refl
any-Absent id (w ∷ ws) a = ground (arith, any-Absent id ws a.1)

no_entries :
    (id : Str) (ws : List Wallet) (es : List WalletLedgerEntry)
    → Absent id ws
    → All (HasWallet ws) es
    → entries_for id es ≡ []
unfolding select any
no_entries id ws [] a o = refl
no_entries id ws (e ∷ es) a o =
    ground (arith, no_entries id ws es a o.1, str_eq_iff e.wallet_id id, o.0, any-Absent id ws a)

pub has_id-Absent : (id : Str) (ws : List Wallet) → any (has_id id) ws ≡ false → Absent id ws
unfolding any
has_id-Absent id [] h = tt
has_id-Absent id (w ∷ ws) h = (ground arith, has_id-Absent id ws (ground arith))

row-IsBalanced :
    (id : Str) (entry : Option WalletLedgerEntry) (es : List WalletLedgerEntry) (v : Wallet)
    → IsOwned id entry
    → str_eq v.id id ≡ false
    → IsBalanced es v
    → IsBalanced (entries_of entry ++ es) v
unfolding select
row-IsBalanced id none es v k n b = b
row-IsBalanced id (some e) es v k n b =
    ground (arith, str_eq_iff e.wallet_id v.id, str_eq_iff v.id id)

new-IsBalanced :
    (w : Wallet) (entry : Option WalletLedgerEntry) (es : List WalletLedgerEntry)
    → IsBalanced (entries_of entry) w
    → entries_for w.id es ≡ []
    → IsBalanced (entries_of entry ++ es) w
unfolding select
new-IsBalanced w none es b n = ground arith
new-IsBalanced w (some e) es b n = ground arith

owners_of :
    (w : Wallet) (entry : Option WalletLedgerEntry) (ws : List Wallet) (es : List WalletLedgerEntry)
    → IsOwned w.id entry
    → All (HasWallet ws) es
    → All (HasWallet (w ∷ ws)) (entries_of entry ++ es)
unfolding any
owners_of w none ws es k h = All-map (HasWallet ws) (HasWallet (w ∷ ws)) es (λ e i. ground arith) h
owners_of w (some e) ws es k h = (
  ground (arith, str_eq_iff w.id e.wallet_id),
  All-map (HasWallet ws) (HasWallet (w ∷ ws)) es (λ f i. ground arith) h,
)

-- The books with an opening.
pub Holds-IsBooked :
    (o : Opening) (db : Db) (x : World)
    → IsOpening o
    → IsBooked db
    → Absent o.wallet.id db.wallets
    → Holds (o.wallet ∷ db.wallets) (entries_of o.ledger ++ db.ledger) x
    → IsBooked x.mine
Holds-IsBooked o db x k b a h =
    books_of (o.wallet ∷ db.wallets) (entries_of o.ledger ++ db.ledger) x h
      (
        new-IsBalanced o.wallet o.ledger db.ledger k.balance
            (no_entries o.wallet.id db.wallets db.ledger a b.owners),
        others db.wallets a b.balances,
      )
      (a, b.ids) (owners_of o.wallet o.ledger db.wallets db.ledger k.owner b.owners)
  where
    others :
        (ws : List Wallet)
        → Absent o.wallet.id ws
        → All (IsBalanced db.ledger) ws
        → All (IsBalanced (entries_of o.ledger ++ db.ledger)) ws
    others [] p q = tt
    others (v ∷ ws) p q =
        (row-IsBalanced o.wallet.id o.ledger db.ledger v k.owner p.0 q.0, others ws p.1 q.1)
