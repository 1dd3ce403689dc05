-- ===== src/App/Books/Rows.antt =====
-- The rows of wallets and ledger when a movement is written by `persistApply`, and when a wallet is
-- opened.
use desafio_jungle_go.Prelude.{
  ◌≡◌, refl, sym, subst, Bool, true, false, List, [], ◌∷◌, All, ◌⊎◌, inl, inr, some, arith,
  if◌then◌else◌, Bool-cases, ◌∙◌,
}
use desafio_jungle_go.Prelude.Int.{pos, +ℤ_parts, -ℤ_parts}
use desafio_jungle_go.Prelude.Int64.{ -₆₄_exact}
use desafio_jungle_go.Prelude.Str.{Str, str_eq, str_eq_iff}
use desafio_jungle_go.Domain.Ledger.{WalletLedgerEntry}
use desafio_jungle_go.Domain.Wallet.{Wallet}
use desafio_jungle_go.Domain.Transaction.{WagerTransaction}
use desafio_jungle_go.Domain.Apply.Outcome.{Moves}
use desafio_jungle_go.App.Ports.{find, any, select, update, is_version_before, set_wallet}
use desafio_jungle_go.App.Books.{IsBalanced, Absent, HasDistinctIds, has_id, HasWallet}

-- The row that has the identifier of `w` is `w`.
abbrev pub IsOnly : Wallet → Wallet → Type 0
IsOnly w v = (str_eq v.id w.id ≡ false) ⊎ (v ≡ w)

pub All-map {ℓ κ μ} :
    {A : Type ℓ} (P : A → Type κ) (Q : A → Type μ) (xs : List A)
    → ((a : A) → P a → Q a)
    → All P xs
    → All Q xs
All-map P Q [] f h = tt
All-map P Q (x ∷ xs) f h = (f x h.0, All-map P Q xs f h.1)

-- The wallet that is found by its identifier is the only row with it.
pub find-IsOnly :
    (id : Str) (ws : List Wallet) (w : Wallet)
    → HasDistinctIds ws
    → find (has_id id) ws ≡ some w
    → (w.id ≡ id) × All (IsOnly w) ws
unfolding find
find-IsOnly id [] w d h = cc
find-IsOnly id (x ∷ ws) w d h = elim (Bool-cases (str_eq x.id id)) [
  | inl e ↦
      let same : x ≡ w = ground arith in
      subst (λ y. (y.id ≡ id) × (IsOnly y x × All (IsOnly y) ws)) same
        (
          (str_eq_iff x.id id).0 e,
          (inr refl, All-map (λ v. str_eq v.id x.id ≡ false) (IsOnly x) ws (λ v k. inl k) d.0),
        )
  | inr e ↦
      let ih = find-IsOnly id ws w d.1 (ground arith) in
      (ih.0, (inl (subst (λ i. str_eq x.id i ≡ false) (sym ih.0) e), ih.1))
]

-- What is found satisfies what all satisfy.
pub find-All {ℓ κ} :
    {A : Type ℓ} (P : A → Type κ) (p : A → Bool) (xs : List A) (a : A)
    → All P xs
    → find p xs ≡ some a
    → P a
unfolding find
find-All P p [] a h e = cc
find-All P p (x ∷ xs) a h e = elim (Bool-cases (p x)) [
  | inl y ↦ let same : x ≡ a = ground arith in subst P same h.0
  | inr n ↦ find-All P p xs a h.1 (ground arith)
]

-- The new row of a movement.
row-IsBalanced :
    (es : List WalletLedgerEntry) (op : WagerTransaction) (w w' v : Wallet) (e : WalletLedgerEntry)
    → IsBalanced es w
    → Moves w op w' (some e)
    → IsBalanced es v
    → IsOnly w v
    → IsBalanced (e ∷ es) (if is_version_before w' v then set_wallet w' v else v)
unfolding select
row-IsBalanced es op w w' v e b m k (inl other) =
    ground (arith, str_eq_iff v.id w.id, str_eq_iff e.wallet_id v.id)
row-IsBalanced es op w w' v e b m k (inr same) = ground (
  arith,
  str_eq_iff v.id w'.id,
  str_eq_iff e.wallet_id v.id,
  -₆₄_exact w'.version (pos 1),
  -ℤ_parts w'.version (pos 1),
  +ℤ_parts w.version (pos 1),
)

-- The rows of a movement.
pub update-IsBalanced :
    (es : List WalletLedgerEntry) (op : WagerTransaction) (w w' : Wallet) (ws : List Wallet)
    (e : WalletLedgerEntry)
    → IsBalanced es w
    → Moves w op w' (some e)
    → All (IsBalanced es) ws
    → All (IsOnly w) ws
    → All (IsBalanced (e ∷ es)) (update (is_version_before w') (set_wallet w') ws)
unfolding update
update-IsBalanced es op w w' [] e b m h o = tt
update-IsBalanced es op w w' (v ∷ ws) e b m h o =
    (row-IsBalanced es op w w' v e b m h.0 o.0, update-IsBalanced es op w w' ws e b m h.1 o.1)

-- Rows that are written anew with their identifiers keep the keys.
module _ (p : Wallet → Bool) (f : Wallet → Wallet) (keeps : (w : Wallet) → (f w).id ≡ w.id) where
  update-Absent : (id : Str) (ws : List Wallet) → Absent id ws → Absent id (update p f ws)
  unfolding update
  update-Absent id [] h = tt
  update-Absent id (w ∷ ws) h = (ground (arith, keeps w), update-Absent id ws h.1)

  pub update-HasDistinctIds :
      (ws : List Wallet) → HasDistinctIds ws → HasDistinctIds (update p f ws)
  unfolding update
  update-HasDistinctIds [] h = tt
  update-HasDistinctIds (w ∷ ws) h =
      (ground (arith, keeps w, update-Absent w.id ws h.0), update-HasDistinctIds ws h.1)

  pub any-update :
      (id : Str) (ws : List Wallet) → any (has_id id) (update p f ws) ≡ any (has_id id) ws
  unfolding update any
  any-update id [] = refl
  any-update id (w ∷ ws) = ground (arith, keeps w, any-update id ws)

  pub update-HasWallet :
      (ws : List Wallet) (es : List WalletLedgerEntry)
      → All (HasWallet ws) es
      → All (HasWallet (update p f ws)) es
  update-HasWallet ws es h =
      All-map (HasWallet ws) (HasWallet (update p f ws)) es (λ e k. any-update e.wallet_id ws ∙ k) h

pub find-any {ℓ} :
    {A : Type ℓ} (p : A → Bool) (xs : List A) (a : A) → find p xs ≡ some a → any p xs ≡ true
unfolding find any
find-any p [] a h = cc
find-any p (x ∷ xs) a h = ground (arith, find-any p xs a)

pub update-All {ℓ κ} :
    {A : Type ℓ} (P : A → Type κ) (p : A → Bool) (f : A → A) (xs : List A)
    → ((a : A) → P (f a))
    → All P xs
    → All P (update p f xs)
unfolding update
update-All P p f [] k h = tt
update-All {A = A} P p f (x ∷ xs) k h = (pick (p x), update-All P p f xs k h.1)
  where
    pick : (b : Bool) → P (if b then f x else x)
    pick true = k x
    pick false = h.0
