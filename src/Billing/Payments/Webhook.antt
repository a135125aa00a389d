-- ===== src/Billing/Payments/Webhook.antt =====
-- Which payments a webhook finds, and what it credits.
use cloudmini_reseller.Common.{
  ℕ, suc, sym, ap, ◌∙◌, String, eq_iff, Bool, true, false, ◌≡◌, ◌≢◌, refl, Option, none, some, List,
  [], ◌∷◌, All, arith, Option-cases, inl, inr,
}
use cloudmini_reseller.Common.Int.{ℤ, pos, ◌≤ℤ◌}
use mathlib.Core.Path.{subst}
use cloudmini_reseller.Billing.Entity.{Payment, completed, Transaction}
use cloudmini_reseller.Billing.Action.{World, Env, Result, ok, err, database_failure}
use cloudmini_reseller.Billing.Repo.{
  payment_create, get_by_gateway_txn_id, update_status, find_payment, set_status,
}
use cloudmini_reseller.Billing.Wallet.{Reference, credit}
use cloudmini_reseller.Billing.Wallet.Effects.{payments-credit, credit_down}
use cloudmini_reseller.Billing.Payments.{
  CreateDepositRequest, create_deposit, handle_webhook, payment_reference,
}

-- A payment that no gateway's transaction id has been written to.
abbrev pub IsUnlinked : Payment → Type 0
IsUnlinked p = p.gateway_txn_id ≡ none

find_payment_unlinked :
    (t : String) (ps : List Payment) → All IsUnlinked ps → find_payment t ps ≡ none
unfolding find_payment
find_payment_unlinked t [] a = refl
find_payment_unlinked t (p ∷ ps) a = ground (arith, find_payment_unlinked t ps a.1)

-- What runs on the payments: a deposit is created, or a gateway reports one as paid.
pub data Event : Type 0 where
  deposits : String → CreateDepositRequest → Event
  reports : String → String → ℤ → Event

-- Whether an event ended in a credit to a wallet.
pub handle : Event → Env → World → Bool × World
handle (deposits base req) env w = (false, (create_deposit base req env w).1)
handle (reports gateway t amount) env w =
    let (r, w') = handle_webhook gateway t amount env w in
    (elim r [ ok credited ↦ credited | err e ↦ false ], w')

pub handle_all : List Event → Env → World → List Bool × World
handle_all [] env w = ([], w)
handle_all (e ∷ es) env w =
    let (b, w') = handle e env w in let (bs, w'') = handle_all es env w' in (b ∷ bs, w'')

handle-IsUnlinked :
    (e : Event) (env : Env) (w : World)
    → All IsUnlinked w.payments
    → ((handle e env w).0 ≡ false)
      × All IsUnlinked (handle e env w).1.payments
      × ((handle e env w).1.wallets ≡ w.wallets)
      × ((handle e env w).1.transactions ≡ w.transactions)
unfolding handle create_deposit payment_create handle_webhook get_by_gateway_txn_id
handle-IsUnlinked (deposits base req) env w a = ground arith
handle-IsUnlinked (reports gateway t amount) env w a =
    ground (arith, find_payment_unlinked t w.payments a)

-- From payments that no transaction id has been written to, as CreateDeposit makes them, no history
-- of deposits and webhooks credits anything, whatever statements fail: every report ends without a
-- credit, and the wallets and the ledger are as they were.
pub handle_all_unlinked :
    (es : List Event) (env : Env) (w : World)
    → All IsUnlinked w.payments
    → let (credited, w') = handle_all es env w in
      All (λ b. b ≡ false) credited × (w'.wallets ≡ w.wallets) × (w'.transactions ≡ w.transactions)
unfolding handle_all
handle_all_unlinked [] env w a = (tt, refl, refl)
handle_all_unlinked (e ∷ es) env w a =
    let (idle, unlinked, wallets, ledger) = handle-IsUnlinked e env w a in
    let (rest, wallets', ledger') = handle_all_unlinked es env (handle e env w).1 unlinked in
    ((idle, rest), wallets' ∙ wallets, ledger' ∙ ledger)

-- What a look-up finds is completed, if it finds anything.
abbrev IsDone : Option Payment → Type 0
IsDone none = ⊥
IsDone (some p) = p.status ≡ completed

find_payment-set_status :
    (t : String) (p : Payment) (ps : List Payment)
    → find_payment t ps ≡ some p
    → IsDone (find_payment t (set_status p.id completed t ps))
unfolding find_payment set_status
find_payment-set_status t p [] e = cc
find_payment-set_status t p (q ∷ ps) e = ground (arith, eq_iff t t, find_payment-set_status t p ps)

-- The status update of a webhook for the payment p goes through.
abbrev pub Updates : Env → World → Type 0
Updates env w = (env.fails w.statements ≡ false) × (env.fails (suc w.statements) ≡ false)

handle_webhook_done :
    (gateway t : String) (amount : ℤ) (env : Env) (w : World)
    → IsDone (find_payment t w.payments)
    → let (r, w') = handle_webhook gateway t amount env w in
      (r ≢ ok true) × (w'.wallets ≡ w.wallets) × (w'.transactions ≡ w.transactions)
unfolding handle_webhook get_by_gateway_txn_id
handle_webhook_done gateway t amount env w d = ground arith

-- What the webhook answers after the credit.
abbrev answer : Result Transaction → Result Bool
answer (ok txn) = ok true
answer (err e) = err e

-- The state in which the webhook for p goes on to the credit.
abbrev updated : String → Payment → World → World
updated t p w = record w {
  statements = suc (suc w.statements);
  payments = set_status p.id completed t w.payments;
}

module _ (gateway t : String) (amount : ℤ) (env : Env) (w : World) (p : Payment)
    (found : find_payment t w.payments ≡ some p) (open_payment : p.status ≢ completed)
    (updates : Updates env w) where
  abbrev crediting : Result Transaction × World
  crediting = credit p.user_id p.amount (payment_reference gateway p) env (updated t p w)

  -- A report of a payment that is not completed comes to the credit of its amount.
  handle_webhook-credit : handle_webhook gateway t amount env w ≡ (answer crediting.0, crediting.1)
  unfolding handle_webhook get_by_gateway_txn_id update_status
  handle_webhook-credit = ground arith

  payments-handle_webhook :
      (handle_webhook gateway t amount env w).1.payments ≡ set_status p.id completed t w.payments
  payments-handle_webhook =
      ap (λ r. r.1.payments) handle_webhook-credit
      ∙ payments-credit p.user_id p.amount (payment_reference gateway p) env (updated t p w)

  -- A second report of the same transaction id credits nothing, whatever became of the first one
  -- after its status update, and whatever fails during the second.
  handle_webhook_twice :
      (gateway' : String) (amount' : ℤ) (env' : Env)
      → let w' = (handle_webhook gateway t amount env w).1 in
        let (r, w'') = handle_webhook gateway' t amount' env' w' in
        (r ≢ ok true) × (w''.wallets ≡ w'.wallets) × (w''.transactions ≡ w'.transactions)
  handle_webhook_twice gateway' amount' env' = handle_webhook_done gateway' t amount' env' _ (
      subst (λ ps. IsDone (find_payment t ps)) (sym payments-handle_webhook)
        (find_payment-set_status t p w.payments found))

  -- A payment whose credit fails is lost. If no connection can be had to begin the credit, the
  -- report ends with that error and the wallets are as they were, but the payment is completed, so
  -- that no later report of it credits anything.
  handle_webhook_loses :
      env.fails (suc (suc w.statements)) ≡ true
      → pos 1 ≤ℤ p.amount
      → (gateway' : String) (amount' : ℤ) (env' : Env)
      → let (r, w') = handle_webhook gateway t amount env w in
        let (r', w'') = handle_webhook gateway' t amount' env' w' in
        (r ≡ err database_failure)
        × (r' ≢ ok true)
        × (w''.wallets ≡ w.wallets)
        × (w''.transactions ≡ w.transactions)
  handle_webhook_loses down some_amount gateway' amount' env' =
      let (refused, wallets, ledger) =
        credit_down p.user_id p.amount (payment_reference gateway p) env (updated t p w) down
          some_amount in
      let (idle, wallets', ledger') = handle_webhook_twice gateway' amount' env' in
      (
        ap (λ r. r.0) handle_webhook-credit ∙ ap answer refused,
        idle,
        wallets' ∙ ap (λ r. r.1.wallets) handle_webhook-credit ∙ wallets,
        ledger' ∙ ap (λ r. r.1.transactions) handle_webhook-credit ∙ ledger,
      )

-- An invariant of the money that every credit keeps is kept by a webhook.
module _ (Q : World → Type 0) (gateway t : String) (amount : ℤ) (env : Env) (w : World)
    (quiet : (w' : World)
      → w'.wallets ≡ w.wallets
      → w'.transactions ≡ w.transactions
      → w'.staged ≡ w.staged
      → Q w')
    (credits : (user : ℕ) (a : ℤ) (ref : Reference) (w' : World)
      → Q w'
      → Q (credit user a ref env w').1) where
  pub handle_webhook-keeps : Q (handle_webhook gateway t amount env w).1
  unfolding handle_webhook get_by_gateway_txn_id update_status
  handle_webhook-keeps = elim (Option-cases (find_payment t w.payments)) [
    | inl missing ↦
        ground (arith, missing, quiet (record w { statements = suc w.statements }) refl refl refl)
    | inr (p, found) ↦ ground (
      arith,
      found,
      quiet (record w { statements = suc w.statements }) refl refl refl,
      quiet (record w { statements = suc (suc w.statements) }) refl refl refl,
      credits p.user_id p.amount (payment_reference gateway p) (updated t p w)
          (quiet (updated t p w) refl refl refl),
    )
  ]
