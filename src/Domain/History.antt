-- ===== src/Domain/History.antt =====
-- A wallet's life in internal/domain: it is opened, and operations are applied to it; its entries
-- are collected as the ledger collects them.
use desafio_jungle_go.Prelude.{
  ◌≡◌, subst, ok, arith, List, [], ◌∷◌, ◌++◌, Option, none, some, false,
}
use desafio_jungle_go.Prelude.Int.{ℤ, pos, ◌+ℤ◌, ◌<ℤ◌}
use desafio_jungle_go.Prelude.Int64.{max_int64}
use desafio_jungle_go.Domain.Ledger.{WalletLedgerEntry, is_blank}
use desafio_jungle_go.Domain.Ledger.Posting.{posted}
use desafio_jungle_go.Domain.Wallet.{Wallet}
use desafio_jungle_go.Domain.Wallet.Invariant.{IsValid}
use desafio_jungle_go.Domain.Transaction.Machine.{IsConsistent}
use desafio_jungle_go.Domain.Transaction.Creation.{IsApplicable}
use desafio_jungle_go.Domain.Reference.{ApplyInput, ApplyResult}
use desafio_jungle_go.Domain.Apply.{apply}
use desafio_jungle_go.Domain.Apply.Outcome.{IsReady, IsOutcome, Ends}
use desafio_jungle_go.Domain.Apply.Branches.{apply-Ends}
use desafio_jungle_go.Domain.Opening.{Opening, OpenWalletParams, open_wallet}
use desafio_jungle_go.Domain.Opening.Creation.{IsOpenable, open_wallet_lem, opened_wallet-IsValid}

abbrev pub entries_of : Option WalletLedgerEntry → List WalletLedgerEntry
entries_of none = []
entries_of (some e) = e ∷ []

-- A wallet with its entries, the latest first, as openings and applied operations make it.
pub data History : Wallet → List WalletLedgerEntry → Type 0 where
  opened :
      (p : OpenWalletParams) (o : Opening)
      → IsOpenable p
      → open_wallet p ≡ ok o
      → History o.wallet (entries_of o.ledger)
  applied :
      {w : Wallet} {es : List WalletLedgerEntry} (inp : ApplyInput) (r : ApplyResult)
      → History w es
      → inp.wallet ≡ some w
      → w.version <ℤ max_int64
      → is_blank inp.ledger_id ≡ false
      → IsApplicable inp.operation
      → IsConsistent inp.operation
      → apply inp ≡ ok r
      → History r.wallet (entries_of r.ledger ++ es)

-- Σ credits − Σ debits.
abbrev pub net : List WalletLedgerEntry → ℤ
net [] = pos 0
net (e ∷ es) = posted e.direction (net es) e.money.minor

-- What every history keeps.
pub record IsReconciled (w : Wallet) (es : List WalletLedgerEntry) : Type 0 where
  pub valid : IsValid w
  pub balanced : w.balance.minor ≡ net es

opened-IsReconciled :
    (p : OpenWalletParams) {o : Opening}
    → IsOpenable p
    → open_wallet p ≡ ok o
    → IsReconciled o.wallet (entries_of o.ledger)
unfolding ◌+ℤ◌
opened-IsReconciled p k h = ground (arith, open_wallet_lem p k, opened_wallet-IsValid p k)

moves-IsReconciled :
    (inp : ApplyInput) (w : Wallet) (r : ApplyResult) (es : List WalletLedgerEntry)
    → IsOutcome inp w r
    → IsReconciled w es
    → IsReconciled r.wallet (entries_of r.ledger ++ es)
moves-IsReconciled inp w r es o k = ground arith

-- Through any history the wallet stays valid, so its balance is never negative, and the balance is
-- the sum of the credits less the debits of its entries.
pub History-IsReconciled :
    {w : Wallet} {es : List WalletLedgerEntry} → History w es → IsReconciled w es
History-IsReconciled (opened p o k h) = opened-IsReconciled p k h
History-IsReconciled (applied {w = w} {es = es} inp r hist e v l a c h) =
    let ih = History-IsReconciled hist in
    let ready : IsReady inp w = record {
      wallet_valid = ih.valid;
      version_room = v;
      ledger_set = l;
      applicable = a;
      consistent = c;
    } in
    moves-IsReconciled inp w r es (subst (Ends inp w) h (apply-Ends inp w e ready)) ih
