-- ===== src/Billing/Wallet/Races.antt =====
-- What the writes outside the open transaction, and the lock that is gone after its own statement,
-- make possible: a balance that the ledger does not explain, and an update that is lost.
use cloudmini_reseller.Common.{
  ℕ, suc, sym, false, ◌≡◌, ◌≢◌, ap, ◌∙◌, Option, none, some, List, ◌∷◌, arith,
}
use cloudmini_reseller.Common.Int.{ℤ, pos, pos_part, neg_part, ◌-ℤ◌, ◌≤ℤ◌, int_laws, -ℤ_parts}
use cloudmini_reseller.Billing.Entity.{Wallet, Transaction, available_balance}
use cloudmini_reseller.Billing.Action.{World, Env, Result, ok, err, database_failure}
use cloudmini_reseller.Billing.Repo.{
  find_by_user, set_balance, get_by_user_id_for_update, update_balance, transaction_create,
  run_in_tx,
}
use cloudmini_reseller.Billing.Wallet.{Reference, deduct, deduct_from}
use cloudmini_reseller.Billing.Wallet.Effects.{FailsAt}
use cloudmini_reseller.Billing.Wallet.Funds.{IsFunded}
use cloudmini_reseller.Billing.Wallet.Books.{IsExplained, IsReliable, moved}
use cloudmini_reseller.Billing.Wallet.Progress.{IsOk, answers, find_by_user-set_balance}

abbrev pub Answers : Env → World → Type 0
Answers env w =
    (env.fails w.statements ≡ false)
    × (env.fails (suc w.statements) ≡ false)
    × (env.fails (suc (suc w.statements)) ≡ false)

sub-ne : (a b : ℤ) → pos 1 ≤ℤ b → a -ℤ b ≢ a
sub-ne a b h e = omega (int_laws, ap pos_part e, ap neg_part e)

module _ (user : ℕ) (amount : ℤ) (ref : Reference) (request : Option ℕ) (env : Env) (w : World)
    (x : Wallet) (found : find_by_user user w.wallets ≡ some x) (funded : IsFunded x)
    (covered : (pos 1 ≤ℤ amount) × (amount ≤ℤ available_balance x)) (answers : Answers env w) where
  deduct_fails_late :
      FailsAt 3 env w
      → let (r, w') = deduct user amount ref request env w in
        (r ≡ err database_failure)
        × (w'.wallets ≡ set_balance x.id (x.balance -ℤ amount) x.hold_amount w.wallets)
        × (w'.transactions ≡ w.transactions)
  unfolding deduct get_by_user_id_for_update update_balance transaction_create run_in_tx
      available_balance
  deduct_fails_late late =
      ground (arith, -ℤ_parts x.balance x.hold_amount, -ℤ_parts x.balance amount)

  -- Deduct is not atomic. If the statements up to the update of the wallet go through and the INSERT
  -- of the transaction fails, then Deduct reports the failure, and yet the user has been charged: the
  -- wallet has the amount less, no transaction is recorded, and a balance that the ledger explained
  -- is explained no more.
  pub deduct_torn :
      FailsAt 3 env w
      → IsExplained w.transactions x
      → let (r, w') = deduct user amount ref request env w in
        let x' : Wallet = record x { balance = x.balance -ℤ amount } in
        (r ≡ err database_failure)
        × (find_by_user user w'.wallets ≡ some x')
        × (w'.transactions ≡ w.transactions)
        × ¬ IsExplained w'.transactions x'
  deduct_torn late explained =
      let (r, wallets, same) = deduct_fails_late late in
      (
        r,
        rw wallets (find_by_user-set_balance user _ _ w.wallets found),
        same,
        λ e. sub-ne x.balance amount covered.0 ((rw same at e) ∙ sym explained),
      )

-- The wallet and the ledger after one deduction that goes on from x.
abbrev Charges : Wallet → ℤ → World → Result Transaction × World → Type 0
Charges x c v (ok t, v') =
    (v'.wallets ≡ set_balance x.id (x.balance -ℤ c) x.hold_amount v.wallets)
    × (v'.transactions ≡ t ∷ v.transactions)
    × (t.wallet_id ≡ x.id)
    × (t.balance_before ≡ x.balance)
    × (t.balance_after ≡ x.balance -ℤ c)
Charges x c v (err e, v') = ⊥

deduct_from-Charges :
    (user : ℕ) (c : ℤ) (ref : Reference) (env : Env) (x : Wallet) (v : World)
    → IsReliable env
    → IsFunded x
    → (pos 1 ≤ℤ c) × (c ≤ℤ available_balance x)
    → Charges x c v (run_in_tx (deduct_from user c ref none x) env v)
unfolding deduct_from update_balance transaction_create run_in_tx available_balance
deduct_from-Charges user c ref env x v up funded covered =
    ground
      (arith, answers env v.statements up, -ℤ_parts x.balance x.hold_amount, -ℤ_parts x.balance c)

moved_less :
    (t : Transaction) (ts : List Transaction) (x : Wallet) (c : ℤ)
    → t.wallet_id ≡ x.id
    → t.balance_before ≡ x.balance
    → t.balance_after ≡ x.balance -ℤ c
    → moved x.id (t ∷ ts) ≡ moved x.id ts -ℤ c
moved_less t ts x c same before after = grind int_laws

-- The two properties of a state that a charge of c leaves.
abbrev Charged : Wallet → ℤ → ℕ → World → Result Transaction × World → Type 0
Charged x c user v (r, v') =
    IsOk r
    × (find_by_user user v'.wallets ≡ some (record x { balance = x.balance -ℤ c }))
    × (moved x.id v'.transactions ≡ moved x.id v.transactions -ℤ c)

Charges-Charged :
    (user : ℕ) (x : Wallet) (c read : ℤ) (v : World)
    → (r : Result Transaction × World) → Charges x c v r
    → find_by_user user v.wallets ≡ some (record x { balance = read })
    → Charged x c user v r
Charges-Charged user x c read v (err e, v') h found = absurd h
Charges-Charged user x c read v (ok t, v') (wallets, entry, id, before, after) found = (
  tt,
  rw wallets (find_by_user-set_balance user _ _ v.wallets found),
  rw entry (moved_less t v.transactions x c id before after),
)

-- Two deductions for one user whose SELECTs both ran before either UPDATE: each goes on from the
-- wallet x that both read. Both succeed if each amount alone is covered, also where the two together
-- are not. Afterwards the wallet has only the second amount less, while the ledger has both.
deduct_from_both :
    (user : ℕ) (a b : ℤ) (ref : Reference) (env : Env) (w : World) (x : Wallet)
    → IsReliable env
    → find_by_user user w.wallets ≡ some x
    → IsFunded x
    → (pos 1 ≤ℤ a) × (a ≤ℤ available_balance x)
    → (pos 1 ≤ℤ b) × (b ≤ℤ available_balance x)
    → let (r, w') = run_in_tx (deduct_from user a ref none x) env w in
      let (r', w'') = run_in_tx (deduct_from user b ref none x) env w' in
      IsOk r
      × IsOk r'
      × (find_by_user user w''.wallets ≡ some (record x { balance = x.balance -ℤ b }))
      × (moved x.id w''.transactions ≡ moved x.id w.transactions -ℤ a -ℤ b)
deduct_from_both user a b ref env w x up found funded covers_a covers_b =
    let r = run_in_tx (deduct_from user a ref none x) env w in
    let (ok_a, found_a, moved_a) =
      Charges-Charged user x a x.balance w r
        (deduct_from-Charges user a ref env x w up funded covers_a) found in
    let (ok_b, found_b, moved_b) =
      Charges-Charged user x b (x.balance -ℤ a) r.1 _
        (deduct_from-Charges user b ref env x r.1 up funded covers_b) found_a in
    (ok_a, ok_b, found_b, moved_b ∙ ap (λ m. m -ℤ b) moved_a)
