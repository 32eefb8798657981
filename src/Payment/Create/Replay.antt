-- ===== src/Payment/Create/Replay.antt =====
-- A created order is found again by the same request: the replay.
use mathlib.Core.Path.{subst}
use banking_go.Prelude.{
  ℕ, ◌+◌, ◌-◌, ◌*◌, ◌/◌, ◌≡◌, ◌⊎◌, refl, sym, Bool, true, false, not, ◌&&◌, ◌||◌, ◌==◌, some, ◌∷◌,
  Text, codes, text_eq, text_eq_refl, text_eq_sound, if_both, leb, trim_space-trim_space,
  trim_space-solid, is_space, if◌then◌else◌, arith, All, inl, inr, Bool-cases, [],
}
use banking_go.Errors.{Result, ok, err, Error}
use banking_go.Decimal.{Decimals}
use banking_go.Ledger.Money.{parse_eur_amount}
use banking_go.Payment.Create.{
  beneficiary_of, external_kind, internal_kind, execution_of, order_params,
}
use banking_go.Payment.Input.{
  CreatePaymentInput, normalize_input, validate_payment_input, bic_pattern, bic_from, is_past,
  is_schedule_type,
}
use banking_go.Payment.Intent.{same_payment_intent, equivalent_intent, same_execution, same_bool}
use banking_go.Payment.Payee.Names.{VopResult}
use banking_go.Payment.Reasons.{null_string_of}
use banking_go.Database.Tables.{Account, NullUuid, PaymentOrder}
use banking_go.Database.Queries.Orders.Insert.{new_order}

-- A column gives back an amount of whole cents as an equal number.
abbrev pub ReadsBack : Decimals → Type 0
ReadsBack D =
    (raw : Text) (amount : D.Decimal)
    → parse_eur_amount D raw ≡ ok amount
    → (stored : D.Decimal) × (D.from_numeric (D.numeric amount) ≡ some stored)
      × (D.equal stored amount ≡ true)

bic_from-solid : (i : ℕ) (s : Text) → bic_from i s ≡ true → All (λ c. is_space c ≡ false) s
unfolding bic_from is_space
bic_from-solid i [] h = tt
bic_from-solid i (c ∷ s) h = (ground arith, bic_from-solid (i + 1) s (ground arith))

module _ (D : Decimals) (input : CreatePaymentInput) (now : ℕ) {amount : D.Decimal}
    (valid : validate_payment_input D input now ≡ ok amount) where
  parsed : parse_eur_amount D input.amount ≡ ok amount
  unfolding validate_payment_input
  parsed = ground arith

  bic_checked :
      (text_eq input.beneficiary_bic [] ≡ true) ⊎ (bic_pattern input.beneficiary_bic ≡ true)
  unfolding validate_payment_input
  bic_checked = elim (Bool-cases (text_eq input.beneficiary_bic [])) [
    | inl e ↦ inl e
    | inr e ↦ inr (ground arith)
  ]

  scheduled_known : is_schedule_type input.schedule_type ≡ true
  unfolding validate_payment_input
  scheduled_known = ground arith

  -- The checks depend on the clock only by the execution time.
  pub valid_later :
      (later : ℕ)
      → (text_eq input.schedule_type (codes "SCHEDULED") && is_past input.requested_execution later)
        ≡ false
      → validate_payment_input D input later ≡ ok amount
  unfolding validate_payment_input
  valid_later later h = ground arith

-- Whether a stored kind and a requested transfer type go together, as the replay asks.
pub KindFits : CreatePaymentInput → Text → Type 0
KindFits input kind =
    (same_bool (text_eq kind (codes "SEPA_INSTANT")) (text_eq input.transfer_type (codes "INSTANT"))
      || (text_eq kind (codes "INTERNAL") || text_eq kind (codes "UMBUCHUNG")))
    ≡ true

or_true : (b : Bool) → (b || true) ≡ true
or_true true = refl
or_true false = refl

external-KindFits : (input : CreatePaymentInput) → KindFits input (external_kind input).1
unfolding KindFits text_eq
external-KindFits input = elim (Bool-cases (text_eq input.transfer_type (codes "INSTANT"))) [
  | inl e ↦ rw e refl
  | inr e ↦ rw e refl
]

internal-KindFits :
    (input : CreatePaymentInput) (destination : Account)
    → KindFits input (internal_kind input destination).1
unfolding KindFits text_eq
internal-KindFits input destination =
    let x = not (text_eq input.transfer_type (codes "INSTANT")) in
    if_both (KindFits input)
      (destination.owner_id.valid && destination.owner_id.uuid == input.owner_id)
      (codes "UMBUCHUNG") (codes "INTERNAL") (or_true x) (or_true x)

taken : (a b : NullUuid × Text) → ◌≡◌ {A = Result (NullUuid × Text)} (ok a) (ok b) → a ≡ b
taken a b e = cc

pub beneficiary_of-KindFits :
    (input : CreatePaymentInput) (source : Account) (destination : Result Account)
    (b : NullUuid × Text)
    → beneficiary_of input source destination ≡ ok b
    → KindFits input b.1
unfolding beneficiary_of
beneficiary_of-KindFits input source (ok destination) b e =
    elim (Bool-cases destination.is_system) [
      | inl sys ↦
          subst (λ (p : NullUuid × Text). KindFits input p.1)
            (taken (external_kind input) b (rw sys at e)) (external-KindFits input)
      | inr own ↦ elim (Bool-cases (destination.id == source.id)) [
        | inl same ↦ absurd (ground arith)
        | inr other ↦
            subst (λ (p : NullUuid × Text). KindFits input p.1)
              (taken (internal_kind input destination) b (rw (own, other) at e))
              (internal-KindFits input destination)
      ]
    ]
beneficiary_of-KindFits input source (err Error.no_rows) b e =
    subst (λ (p : NullUuid × Text). KindFits input p.1) (taken (external_kind input) b e)
      (external-KindFits input)
beneficiary_of-KindFits input source (err other) b e = absurd (ground arith)

bic_kept :
    (bic : Text)
    → (text_eq bic [] ≡ true) ⊎ (bic_pattern bic ≡ true)
    → (null_string_of bic).string ≡ bic
unfolding null_string_of bic_pattern
bic_kept bic (inl e) =
    let nothing : bic ≡ [] = text_eq_sound bic [] e in
    trim_space-solid bic (subst (All (λ c. is_space c ≡ false)) (sym nothing) tt)
bic_kept bic (inr e) = trim_space-solid bic (bic_from-solid 0 bic e)

not_immediate :
    (t : Text) → text_eq t (codes "SCHEDULED") ≡ true → text_eq t (codes "IMMEDIATE") ≡ false
unfolding text_eq
not_immediate t h =
    subst (λ s. text_eq s (codes "IMMEDIATE") ≡ false) (sym (text_eq_sound t _ h)) refl

-- Rounding to a microsecond moves a time by half of one at most.
rounded :
    (requested : ℕ)
    → (leb ((requested + 500) / 1_000 * 1_000 - requested) 1_000
        && leb (requested - (requested + 500) / 1_000 * 1_000) 1_000)
      ≡ true
rounded requested = ground arith

module _ (D : Decimals) (reads_back : ReadsBack D) (raw : CreatePaymentInput) (now : ℕ)
    {amount : D.Decimal} (valid : validate_payment_input D (normalize_input raw) now ≡ ok amount)
    (id created_at : ℕ) (b : NullUuid × Text) (fits : KindFits (normalize_input raw) b.1)
    (vop : VopResult) (nonce : Text) where
  abbrev input : CreatePaymentInput
  input = normalize_input raw

  abbrev row : PaymentOrder
  row = new_order id (order_params D input amount b vop created_at nonce)

  execution_kept :
      (if text_eq input.schedule_type (codes "SCHEDULED")
        then same_execution D (execution_of input created_at * 1_000) input.requested_execution
        else true)
      ≡ true
  execution_kept = elim (Bool-cases (text_eq input.schedule_type (codes "SCHEDULED"))) [
    | inr other ↦ rw other refl
    | inl planned ↦
        rw planned
          (rw (not_immediate input.schedule_type planned) (rounded input.requested_execution))
  ]

  purpose_kept : row.purpose.string ≡ input.purpose
  unfolding normalize_input null_string_of
  purpose_kept = trim_space-trim_space raw.purpose

  reference_kept : row.creditor_reference.string ≡ input.creditor_reference
  unfolding normalize_input null_string_of
  reference_kept = trim_space-trim_space raw.creditor_reference

  -- The row that a request has made stands for the same intent as the request.
  pub created-same_intent : same_payment_intent D row input amount ≡ true
  unfolding same_payment_intent equivalent_intent KindFits
  created-same_intent =
      let (stored, read, equal) = reads_back input.amount amount (parsed D input now valid) in
      rw read (
        ground (
          arith,
          purpose_kept,
          reference_kept,
          bic_kept input.beneficiary_bic (bic_checked D input now valid),
          execution_kept,
          text_eq_refl input.beneficiary_iban,
          text_eq_refl input.beneficiary_name,
          text_eq_refl input.beneficiary_bic,
          text_eq_refl input.schedule_type,
          text_eq_refl input.purpose,
          text_eq_refl input.creditor_reference,
        ))
