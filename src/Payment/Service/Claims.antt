-- ===== src/Payment/Service/Claims.antt =====
-- The rows of the worker's claim (ClaimDuePaymentOrders of
-- backend/postgres/sqlc/payments.sql.go): what holds of those it selects, returns and leaves.
use banking_go.Prelude.{
  ℕ, ◌≡◌, refl, Bool, true, List, [], ◌∷◌, All, if_both, length, arith, some, ◌==◌, Bool-cases, inl,
  inr, if◌then◌else◌,
}
use mathlib.Core.Path.{subst, sym}
use banking_go.Payment.Lifecycle.{processing}
use banking_go.Payment.Service.Valid.{replace_order-All}
use banking_go.Database.Tables.{PaymentOrder}
use banking_go.Database.Queries.Orders.{
  replace_order, is_due, claimed, runs_before, insert_due, select_due, claim_rows, claim_all,
}

module _ (P : PaymentOrder → Type 0) where
  pub insert_due-All :
      (o : PaymentOrder) (rest : List PaymentOrder) → P o → All P rest → All P (insert_due o rest)
  unfolding insert_due
  insert_due-All o [] h k = (h, tt)
  insert_due-All o (p ∷ rest) h k =
      if_both (All P) (runs_before p o) (p ∷ insert_due o rest) (o ∷ p ∷ rest)
        (k.0, insert_due-All o rest h k.1) (h, k)

  pub select_due-All :
      (now : ℕ) (orders : List PaymentOrder) → All P orders → All P (select_due now orders)
  unfolding select_due
  select_due-All now [] h = tt
  select_due-All now (o ∷ orders) h =
      if_both (All P) (is_due now o) (insert_due o (select_due now orders)) (select_due now orders)
        (insert_due-All o (select_due now orders) h.0 (select_due-All now orders h.1))
        (select_due-All now orders h.1)

  -- The table after the claim has its old rows and the returned ones.
  pub claim_all-All :
      (now : ℕ) (due orders : List PaymentOrder)
      → All P (claim_rows now due)
      → All P orders
      → All P (claim_all now due orders)
  unfolding claim_all claim_rows
  claim_all-All now [] orders h all = all
  claim_all-All now (o ∷ due) orders h all =
      claim_all-All now due _ h.1 (replace_order-All P (claimed now o) orders h.0 all)

pub claim_rows-All :
    (P Q : PaymentOrder → Type 0) (now : ℕ)
    → ((o : PaymentOrder) → P o → Q (claimed now o))
    → (due : List PaymentOrder) → All P due
    → All Q (claim_rows now due)
unfolding claim_rows
claim_rows-All P Q now k [] h = tt
claim_rows-All P Q now k (o ∷ due) h = (k o h.0, claim_rows-All P Q now k due h.1)

-- Every row that is selected is due.
pub due_selected :
    (now : ℕ) (orders : List PaymentOrder) → All (λ o. is_due now o ≡ true) (select_due now orders)
unfolding select_due
due_selected now [] = tt
due_selected now (o ∷ orders) = elim (Bool-cases (is_due now o)) [
  | inl due ↦ rw due (
      insert_due-All (λ p. is_due now p ≡ true) o (select_due now orders) due
        (due_selected now orders))
  | inr other ↦ rw other (due_selected now orders)
]

pub length-claim_rows :
    (now : ℕ) (due : List PaymentOrder) → length (claim_rows now due) ≡ length due
unfolding claim_rows
length-claim_rows now [] = refl
length-claim_rows now (o ∷ due) = ground (arith, length-claim_rows now due)

-- A row of this identifier is in processing since `now`.
abbrev pub Taken : ℕ → ℕ → PaymentOrder → Type 0
Taken now id q = q.id ≡ id → (q.status ≡ processing) × (q.processing_started_at ≡ some now)

replaced-Taken :
    (now : ℕ) (o : PaymentOrder) (orders : List PaymentOrder)
    → All (Taken now o.id) (replace_order (claimed now o) orders)
unfolding replace_order
replaced-Taken now o [] = tt
replaced-Taken now o (q ∷ orders) = (
  elim (Bool-cases (o.id == q.id)) [
    | inl e ↦
        subst (λ (b : Bool). Taken now o.id (if b then claimed now o else q)) (sym e)
          (λ same. (refl, refl))
    | inr e ↦
        subst (λ (b : Bool). Taken now o.id (if b then claimed now o else q)) (sym e)
          (λ same. absurd (ground arith))
  ],
  replaced-Taken now o orders,
)

claim_rows-Taken : (now id : ℕ) (due : List PaymentOrder) → All (Taken now id) (claim_rows now due)
unfolding claim_rows
claim_rows-Taken now id [] = tt
claim_rows-Taken now id (o ∷ due) = ((λ same. (refl, refl)), claim_rows-Taken now id due)

-- After the claim no row of a returned identifier waits any more.
pub claim_all-Taken :
    (now : ℕ) (due orders : List PaymentOrder)
    → All (λ r. All (Taken now r.id) (claim_all now due orders)) (claim_rows now due)
unfolding claim_all claim_rows
claim_all-Taken now [] orders = tt
claim_all-Taken now (o ∷ due) orders = (
  claim_all-All (Taken now o.id) now due (replace_order (claimed now o) orders)
      (claim_rows-Taken now o.id due) (replaced-Taken now o orders),
  claim_all-Taken now due (replace_order (claimed now o) orders),
)
