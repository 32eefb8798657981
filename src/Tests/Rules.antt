-- ===== src/Tests/Rules.antt =====
-- Amounts, posting plans and account numbers.
use banking_go.Prelude.{
  ℕ, ◌≡◌, ◌≤◌, ◌*◌, ◌^◌, ◌<◌, refl, true, false, some, pos, ◌≤ℤ◌, neg_ℤ, codes, trim_space,
  trim_left, is_space, text_eq, byte_len, arith,
}
use banking_go.Errors.{ok}
use banking_go.Account.Ownership.{customer_can_operate}
use banking_go.Account.Iban.{german_demo_iban, validate_iban}
use banking_go.Account.Iban.Checksum.{demo_iban, german_demo_iban_valid}
use banking_go.Ledger.Money.{max_eur_amount, parse_eur_amount, parse_eur_amount_cents}
use banking_go.Ledger.Posting.{
  AccountSnapshot, TransferPolicy, balanced, planned, plan_customer_transfer, Permitted,
  plan_customer_transfer_sound, plan_customer_transfer_balanced,
}
use banking_go.Payment.Payee.{levenshtein, levenshtein_rows, first_row, fill_row, last_of}
use banking_go.Payment.Payee.Distance.{distance, backwards, levenshtein-distance}
use banking_go.Tests.Numbers.{exact_decimals, exact_laws}

amount_parses : parse_eur_amount exact_decimals (codes " 12.50 ") ≡ ok (pos 125_000)
unfolding parse_eur_amount trim_space trim_left is_space text_eq byte_len neg_ℤ
amount_parses = refl

parse_eur_amount_cents_example :
    (exact_decimals.new_from_string (trim_space (codes " 12.50 ")) ≡ some (pos 125_000))
    × (byte_len (trim_space (codes " 12.50 ")) ≤ 18)
    × (true ≡ true)
    × ((n : ℕ) × (pos 125_000 ≡ pos (100 * n)) × (1 ≤ n))
    × (pos 125_000 ≤ℤ exact_decimals.numeric (max_eur_amount exact_decimals))
parse_eur_amount_cents_example =
    parse_eur_amount_cents exact_decimals exact_laws (codes " 12.50 ") amount_parses

small_number : 42 < 10 ^ 10
small_number = omega arith

german_demo_iban_valid_example :
    (german_demo_iban 42 ≡ ok (demo_iban 42)) × (validate_iban (demo_iban 42) ≡ ok tt)
german_demo_iban_valid_example = german_demo_iban_valid 42 small_number

abbrev snapshot : ℕ → ℕ → AccountSnapshot exact_decimals
snapshot id owner = record {
  available_balance = pos 900;
  currency = codes "EUR";
  status = codes "ACTIVE";
  id = id;
  owner_id = owner;
  owner_assigned = true;
  system = false;
}

abbrev free : TransferPolicy
free = record { require_destination_ownership = false; allow_system_destination = false }

transfer_planned :
    plan_customer_transfer exact_decimals 7 (snapshot 1 7) (snapshot 2 8) (pos 500) free
    ≡ ok (planned exact_decimals (snapshot 1 7) (snapshot 2 8) (pos 500))
unfolding plan_customer_transfer customer_can_operate text_eq
transfer_planned = refl

plan_customer_transfer_sound_example :
    Permitted exact_decimals 7 (snapshot 1 7) (snapshot 2 8) (pos 500) free
    × (planned exact_decimals (snapshot 1 7) (snapshot 2 8) (pos 500)
        ≡ planned exact_decimals (snapshot 1 7) (snapshot 2 8) (pos 500))
plan_customer_transfer_sound_example =
    plan_customer_transfer_sound exact_decimals 7 (snapshot 1 7) (snapshot 2 8) (pos 500) free
      transfer_planned

transfer_allowed : Permitted exact_decimals 7 (snapshot 1 7) (snapshot 2 8) (pos 500) free
unfolding customer_can_operate text_eq
transfer_allowed = record {
  positive = refl;
  distinct = λ e. omega arith;
  owned = refl;
  open_destination = refl;
  owned_destination = refl;
  active = refl;
  active_destination = refl;
  one_currency = refl;
  covered = refl;
}

plan_customer_transfer_balanced_example :
    balanced exact_decimals (planned exact_decimals (snapshot 1 7) (snapshot 2 8) (pos 500)) ≡ true
plan_customer_transfer_balanced_example =
    plan_customer_transfer_balanced exact_decimals exact_laws 7 (snapshot 1 7) (snapshot 2 8)
      (pos 500) free transfer_planned

levenshtein-distance_example :
    levenshtein (codes "Mayer") (codes "Maier")
    ≡ distance (backwards (codes "Mayer")) (backwards (codes "Maier"))
levenshtein-distance_example = levenshtein-distance (codes "Mayer") (codes "Maier")

one_letter : levenshtein (codes "Mayer") (codes "Maier") ≡ 1
unfolding levenshtein levenshtein_rows first_row fill_row last_of
one_letter = refl
