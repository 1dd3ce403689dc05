-- ===== src/App/Books.antt =====
-- What the tables of the service must satisfy between units of work: the books balance.
pub mod Rows
pub mod Persist
pub mod Applying
pub mod Looking
pub mod Submitting
use desafio_jungle_go.Prelude.{◌≡◌, Bool, true, false, List, [], ◌∷◌, All, ◌⊎◌}
use desafio_jungle_go.Prelude.Str.{Str, str_eq}
use desafio_jungle_go.Domain.Types.{terminal}
use desafio_jungle_go.Domain.Ledger.{WalletLedgerEntry}
use desafio_jungle_go.Domain.Wallet.{Wallet}
use desafio_jungle_go.Domain.Wallet.Invariant.{IsValid}
use desafio_jungle_go.Domain.Transaction.{WagerTransaction}
use desafio_jungle_go.Domain.Transaction.Machine.{IsConsistent}
use desafio_jungle_go.Domain.Transaction.Creation.{IsApplicable}
use desafio_jungle_go.Domain.History.{net}
use desafio_jungle_go.App.Ports.{Db, any, select}

-- The entries of a wallet.
abbrev pub entries_for : Str → List WalletLedgerEntry → List WalletLedgerEntry
entries_for id es = select (λ e. str_eq e.wallet_id id) es

-- A valid wallet whose balance is the sum of its credits less its debits.
pub record IsBalanced (es : List WalletLedgerEntry) (w : Wallet) : Type 0 where
  pub valid : IsValid w
  pub balanced : w.balance.minor ≡ net (entries_for w.id es)

-- No wallet of the list has the identifier.
abbrev pub Absent : Str → List Wallet → Type 0
Absent id ws = All (λ w. str_eq w.id id ≡ false) ws

-- The primary key of the wallets.
abbrev pub HasDistinctIds : List Wallet → Type 0
HasDistinctIds [] = Unit
HasDistinctIds (w ∷ ws) = Absent w.id ws × HasDistinctIds ws

abbrev pub has_id : Str → Wallet → Bool
has_id id w = str_eq w.id id

-- The foreign key of an entry.
abbrev pub HasWallet : List Wallet → WalletLedgerEntry → Type 0
HasWallet ws e = any (has_id e.wallet_id) ws ≡ true

-- An operation that is done, or one that can still be applied.
abbrev pub IsOperation : WagerTransaction → Type 0
IsOperation t = (terminal t.status ≡ true) ⊎ (IsApplicable t × IsConsistent t)

pub record IsBooked (db : Db) : Type 0 where
  pub balances : All (IsBalanced db.ledger) db.wallets
  pub ids : HasDistinctIds db.wallets
  pub owners : All (HasWallet db.wallets) db.ledger
  pub operations : All IsOperation db.transactions
