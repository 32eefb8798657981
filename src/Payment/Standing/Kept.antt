-- ===== src/Payment/Standing/Kept.antt =====
-- What the creation and the cancellation of a standing order keep of its limits.
use banking_go.Prelude.{
  ℕ, ◌≡◌, ◌≢◌, refl, Bool, true, false, not, ◌&&◌, ◌||◌, ◌==◌, some, none, Option, List, [], ◌∷◌,
  Text, codes, text_eq, arith, All, if_both, inl, inr, Bool-cases,
}
use banking_go.Errors.{Result}
use banking_go.Decimal.{Decimals}
use banking_go.Payment.Standing.Current.{Other, replace-All, replaced-Distinct}
use banking_go.Payment.Standing.Limit.{Limited, WithinLimit, StandingsValid, found-Limited}
use banking_go.Payment.Standing.Orders.{
  CreateStandingOrderInput, standing_params, standing_source, standing_beneficiary,
}
use banking_go.Payment.Booking.{audit_with_queries}
use banking_go.Payment.Create.Reads.{get_account-Kept, get_iban-Kept}
use banking_go.Payment.Service.{audit}
use banking_go.Database.Tables.{Database, StandingOrder, EventValue, uuid, NullUuid, Account}
use banking_go.Database.Tx.{Tx, query, new_uuid, pure, lift, attempt, ◌>>=◌, ◌>>◌}
use banking_go.Database.Tx.Keeps.{Keeps, Keeps-bind, Keeps-query, OkKeeps-query, exec_tx-Keeps}
use banking_go.Database.Queries.Accounts.{find_account, get_account, get_account_by_iban}
use banking_go.Database.Queries.Users.{find_user, create_audit_event}
use banking_go.Database.Queries.Standing.{
  CreateStandingOrderParams, find_standing, update_standing, write_standing, standing_checks,
  positive_limit, insert_standing, new_standing, present, delete_standing_order,
  create_standing_order as insert_standing_order, absent_or,
}

abbrev WrittenValid : Result StandingOrder × Database → Type 0
WrittenValid p = StandingsValid p.1

module _ (id owner_id : ℕ) where
  abbrev guard : StandingOrder → Bool
  guard s =
      s.owner_id == owner_id
      && (text_eq s.status (codes "ACTIVE") || text_eq s.status (codes "PAUSED"))

  abbrev change : StandingOrder → StandingOrder
  change s = record s { status = codes "CANCELLED" }

  stopped :
      (limit : Option ℕ) (created : ℕ) (status : Text)
      → Limited limit created status
      → Limited limit created (codes "CANCELLED")
  unfolding text_eq
  stopped none created status h = tt
  stopped (some n) created status h = (h.0, λ a. cc)

  cancelled_row :
      (found : Option StandingOrder) (db : Database)
      → find_standing id db.standing_orders ≡ found
      → StandingsValid db
      → StandingsValid (write_standing guard change found db).1
  cancelled_row none db e v = v
  cancelled_row (some s) db e v = if_both WrittenValid (not (guard s)) _ _ v (
      if_both WrittenValid (standing_checks (change s)) _ _
        (record {
          limited =
              replace-All WithinLimit (change s) db.standing_orders
                (stopped s.max_occurrences s.occurrences_created s.status
                  (found-Limited id db.standing_orders s e v.limited))
                v.limited;
          distinct = replaced-Distinct (change s) db.standing_orders v.distinct;
        })
        v)

  pub delete-Limit : Keeps StandingsValid (delete_standing_order id owner_id)
  unfolding delete_standing_order update_standing
  delete-Limit =
      Keeps-query StandingsValid _
        (λ db v. cancelled_row (find_standing id db.standing_orders) db refl v)

absent-Other :
    (id : ℕ) (orders : List StandingOrder)
    → present (find_standing id orders) ≡ false
    → All (Other id) orders
unfolding find_standing
absent-Other id [] h = tt
absent-Other id (s ∷ orders) h = elim (Bool-cases (id == s.id)) [
  | inl here ↦ absurd (taken s (rw here at h))
  | inr other ↦ (ground arith, absent-Other id orders (rw other at h))
]
  where
    taken : (s : StandingOrder) → present (some s) ≢ false
    taken s h = cc

fresh-Limited :
    (limit : Option ℕ) (status : Text) → positive_limit limit ≡ true → Limited limit 0 status
fresh-Limited none status h = tt
fresh-Limited (some n) status h = (omega arith, λ a. ground arith)

limit_checked :
    (s : StandingOrder) → standing_checks s ≡ true → positive_limit s.max_occurrences ≡ true
unfolding standing_checks
limit_checked s h = ground arith

insert-Limit :
    (id : ℕ) (arg : CreateStandingOrderParams) (db : Database)
    → StandingsValid db
    → StandingsValid (insert_standing id arg db).1
unfolding insert_standing
insert-Limit id arg db v = elim (Bool-cases (standing_checks (new_standing id arg))) [
  | inr bad ↦ rw bad v
  | inl good ↦ elim (Bool-cases (present (find_standing id db.standing_orders))) [
    | inl taken ↦ rw (good, taken) v
    | inr free ↦
        rw (good, free)
          (if_both WrittenValid
            (present (find_user arg.owner_id db.users)
              && present (find_account arg.source_account_id db.accounts)
              && absent_or arg.beneficiary_account_id
                  (present (find_account arg.beneficiary_account_id.uuid db.accounts)))
            _ _
            (record {
              limited = (
                fresh-Limited arg.max_occurrences (codes "ACTIVE")
                    (limit_checked (new_standing id arg) good),
                v.limited,
              );
              distinct = (absent-Other id db.standing_orders free, v.distinct);
            })
            v)
  ]
]

create_row-Limit :
    (arg : CreateStandingOrderParams) → Keeps StandingsValid (insert_standing_order arg)
unfolding insert_standing_order new_uuid
create_row-Limit arg =
    Keeps-bind StandingsValid new_uuid (λ id. query (insert_standing id arg)) (λ env w h. h)
      (λ id. Keeps-query StandingsValid (insert_standing id arg) (λ db v. insert-Limit id arg db v))

audit-Limit :
    (owner_id id : ℕ) (event_type : Text) (data_ : List (Text × EventValue))
    → Keeps StandingsValid (audit owner_id id event_type data_)
unfolding audit audit_with_queries create_audit_event
audit-Limit owner_id id event_type data_ =
    exec_tx-Keeps _
      (OkKeeps-query _ (λ db v. record { limited = v.limited; distinct = v.distinct }))

module _ (D : Decimals) (input : CreateStandingOrderInput) where
  abbrev pub recorded : StandingOrder → Tx StandingOrder
  recorded order =
      audit input.owner_id 0 (codes "STANDING_ORDER_CREATED")
        ((codes "standing_order_id", uuid order.id) ∷ [])
      >> pure order

  recorded-Limit : (order : StandingOrder) → Keeps StandingsValid (recorded order)
  recorded-Limit order =
      Keeps-bind StandingsValid
        (audit input.owner_id 0 (codes "STANDING_ORDER_CREATED")
          ((codes "standing_order_id", uuid order.id) ∷ []))
        (λ _. pure order) (audit-Limit input.owner_id 0 (codes "STANDING_ORDER_CREATED") _)
        (λ _ env w h. h)

  abbrev pub inserted : D.Decimal → NullUuid → Tx StandingOrder
  inserted amount beneficiary =
      insert_standing_order (standing_params D input amount beneficiary) >>= recorded

  abbrev pub destined : D.Decimal → Account → Result Account → Tx StandingOrder
  destined amount source destination =
      lift (standing_beneficiary source destination) >>= inserted amount

  abbrev pub charged : D.Decimal → Account → Tx StandingOrder
  charged amount source =
      attempt (get_account_by_iban input.beneficiary_iban) >>= destined amount source

  abbrev pub looked_up : D.Decimal → Tx StandingOrder
  looked_up amount = attempt (get_account input.source_account_id) >>= λ looked.
      lift (standing_source input.owner_id looked) >>= charged amount

  pub looked_up-Limit : (amount : D.Decimal) → Keeps StandingsValid (looked_up amount)
  looked_up-Limit amount =
      Keeps-bind StandingsValid (attempt (get_account input.source_account_id))
        (λ looked. lift (standing_source input.owner_id looked) >>= charged amount)
        (λ env w h. get_account-Kept StandingsValid input.source_account_id env w h)
        (λ looked.
          Keeps-bind StandingsValid (lift (standing_source input.owner_id looked)) (charged amount)
            (λ env w h. h)
            (λ source.
              Keeps-bind StandingsValid (attempt (get_account_by_iban input.beneficiary_iban))
                (destined amount source)
                (λ env w h. get_iban-Kept StandingsValid input.beneficiary_iban env w h)
                (λ destination.
                  Keeps-bind StandingsValid (lift (standing_beneficiary source destination))
                    (inserted amount) (λ env w h. h)
                    (λ beneficiary.
                      Keeps-bind StandingsValid
                        (insert_standing_order (standing_params D input amount beneficiary))
                        recorded (create_row-Limit (standing_params D input amount beneficiary))
                        recorded-Limit))))
