-- ===== src/Ledger/Service/History.antt =====
-- What a repository keeps, the service keeps, over any history of calls.
use mathlib.Core.Path.{subst}
use banking_go.Prelude.{◌≡◌, sym, ◌==◌, List, [], ◌∷◌, arith}
use banking_go.Errors.{Error}
use banking_go.Decimal.{Decimals}
use banking_go.Ledger.Money.{parse_eur_amount}
use banking_go.Ledger.Port.{Repository, RepositoryKeeps}
use banking_go.Database.Tx.Keeps.{Keeps, Keeps-bind}
use banking_go.Ledger.Service.{
  generate_german_demo_iban, create_funded_customer, deposit, withdraw, adjust_balance_as_admin,
  transfer, reconcile_account, Call, create_funded, deposit_call, withdraw_call, adjust,
  transfer_call, reconcile, perform, perform_all,
}
use banking_go.Database.Tables.{Database}
use banking_go.Database.Tx.{Env, World, lift, wrap_error, fail_if}

module _ (P : Database → Type 0) where
  iban_keeps : Keeps P (wrap_error "generate signup account IBAN" generate_german_demo_iban)
  unfolding generate_german_demo_iban
  iban_keeps env w h = drawn
    where
      same : (generate_german_demo_iban env w).1.db ≡ w.db
      same = ground arith

      drawn : P (generate_german_demo_iban env w).1.db
      drawn = subst P (sym same) h

module _ (D : Decimals) (P : Database → Type 0) (r : Repository D) (k : RepositoryKeeps D P r) where
  perform-Keeps : (call : Call) (env : Env) (w : World) → P w.db → P (perform D r call env w).db
  unfolding perform create_funded_customer deposit withdraw adjust_balance_as_admin transfer
      reconcile_account
  perform-Keeps (create_funded input) =
      Keeps-bind P _ _ (iban_keeps P) (λ iban. k.create input iban _)
  perform-Keeps (deposit_call id amount) =
      Keeps-bind P (lift (parse_eur_amount D amount)) _ (λ env w h. h)
        (λ parsed. k.deposit id parsed)
  perform-Keeps (withdraw_call id amount) =
      Keeps-bind P (lift (parse_eur_amount D amount)) _ (λ env w h. h)
        (λ parsed. k.withdraw id parsed)
  perform-Keeps (adjust actor id operation amount request) =
      Keeps-bind P (lift (parse_eur_amount D amount)) _ (λ env w h. h)
        (λ parsed.
          Keeps-bind P (fail_if _ Error.unsupported_balance_operation) _ (λ env w h. h)
            (λ _. k.adjust actor id operation parsed request))
  perform-Keeps (transfer_call owner from to amount) =
      Keeps-bind P (fail_if (owner == 0) Error.account_ownership) _ (λ env w h. h)
        (λ _.
          Keeps-bind P (lift (parse_eur_amount D amount)) _ (λ env w h. h)
            (λ parsed.
              Keeps-bind P (fail_if (from == to) Error.same_account_transfer) _ (λ env w h. h)
                (λ _. k.transfer owner from to parsed)))
  perform-Keeps (reconcile id) = k.reconcile id

  -- What every operation of a repository keeps of the database holds after any history of service
  -- calls, failed calls included.
  pub perform_all-Keeps :
      (calls : List (Call × Env)) (w : World) → P w.db → P (perform_all D r calls w).db
  unfolding perform_all
  perform_all-Keeps [] w h = h
  perform_all-Keeps ((call, env) ∷ rest) w h =
      perform_all-Keeps rest (perform D r call env w) (perform-Keeps call env w h)
