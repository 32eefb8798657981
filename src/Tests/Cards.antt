-- ===== src/Tests/Cards.antt =====
-- A card from its issue to its cancellation, with packages that hide nothing.
use banking_go.Prelude.{
  ℕ, ◌≡◌, ◌≤◌, refl, true, false, some, List, [], ◌∷◌, ◌++◌, Text, codes, text_eq, text_eq_refl,
  arith, replicate, ap, ◌∙◌, to_lower_text, trim_space, trim_left, is_space, to_lower, byte_len,
}
use banking_go.Errors.{ok, err}
use banking_go.Outbox.{done}
use banking_go.Account.Ownership.{customer_can_operate}
use banking_go.Calendar.{
  micros, month_start, month_days, days_before_year, date, carry_days, month_length, days_in,
  is_leap,
}
use banking_go.Card.Number.{
  generate_pan, random_digits, find_check_digit, valid_pan, luhn_sum, valid_cvc, normalize_pan,
  without_separators,
}
use banking_go.Card.Number.Check.{fair_bytes, generate_pan-valid}
use banking_go.Card.Secrets.{Secrets, SecretsLaws, encrypt, decrypt, fingerprint, read_bytes}
use banking_go.Card.Store.{
  CardEnv, CardTables, active, owned, statement, create_payment_card, card_checks, any_card,
  read_account, cancel_payment_card, cancel_rows, read_merchant, find_merchant,
  get_card_by_fingerprint, find_card,
}
use banking_go.Card.Store.Tokens.{
  upsert_merchant_card_token, any_token, get_card_by_merchant_token, join_token,
  touch_merchant_card_token, touch_rows,
}
use banking_go.Card.Service.{
  IssuedCard, AuthorizedCard, issue, issue_new, reveal, cancel, tokenize, tokenize_normalized,
  authorize, authorize_normalized, usable, matches_cvc, hex_encode, all_hex,
  card_credentials_unavailable,
}
use banking_go.Card.Reveal.{issue-reveal}
use banking_go.Card.Cancel.{cancel-authorize, cancel-reveal}
use banking_go.Card.Authorize.{Grounds}
use banking_go.Database.Tables.{Account, zero_account, null_uuid}
use banking_go.Database.Queries.Accounts.{find_account}

-- Forty characters before the password.
abbrev plain_hash : Text → Text
plain_hash text = replicate 40 36 ++ text

abbrev plain_secrets : Secrets
plain_secrets = record {
  mac = λ text. text;
  seal = λ nonce text. text;
  unseal = λ nonce bytes. some bytes;
  hash_password = λ salt text. ok (plain_hash text);
  matches_password = λ hash text. text_eq hash (plain_hash text);
}

plain_laws : SecretsLaws plain_secrets
plain_laws = record {
  unseal-seal = λ nonce text. refl;
  matches-hash = λ salt text hash h.
      let same : hash ≡ plain_hash text = ground arith in
      ap (λ (x : Text). text_eq x (plain_hash text)) same ∙ text_eq_refl (plain_hash text);
}

abbrev desk : CardEnv
desk = record {
  now = record { year = 2026; month = 3; day = 9; clock = 0 };
  calls = λ name. done;
  random = replicate 50 7;
  new_card = 70;
  new_token = 80;
  salt = 1;
  id_text = λ id. codes "card";
  is_ready = true;
}

abbrev own_account : Account
own_account = record zero_account {
  id = 5;
  owner_id = record null_uuid { uuid = 3; valid = true };
  currency = codes "EUR";
  status = codes "ACTIVE";
}

abbrev no_cards : CardTables
no_cards = record {
  cards = [];
  tokens = [];
  accounts = own_account ∷ [];
  merchants = record { id = codes "shop"; active = true } ∷ [];
}

abbrev first_card : IssuedCard
first_card = record {
  id = 70;
  account_id = 5;
  card_number = codes "4777777777777778";
  cvc = codes "777";
  brand = codes "visa";
  last4 = codes "7778";
  exp_month = 3;
  exp_year = 2029;
}

fourteen_fair : 14 ≤ fair_bytes (replicate 14 7)
unfolding fair_bytes
fourteen_fair = omega arith

generate_pan-valid_example :
    (pan : Text) × (rest : List ℕ) × (generate_pan (replicate 14 7) ≡ ok (pan, rest))
    × (valid_pan pan ≡ true)
generate_pan-valid_example = generate_pan-valid (replicate 14 7) fourteen_fair

abbrev with_card : CardTables
with_card = (issue plain_secrets desk 3 5 no_cards).1

first_issued : issue plain_secrets desk 3 5 no_cards ≡ (ok first_card, with_card)
unfolding issue issue_new generate_pan random_digits find_check_digit valid_pan luhn_sum encrypt
    fingerprint read_bytes create_payment_card card_checks any_card statement read_account
    find_account customer_can_operate date carry_days month_length days_in is_leap text_eq byte_len
first_issued = refl

issue-reveal_example : reveal plain_secrets desk 3 70 with_card ≡ (ok first_card, with_card)
issue-reveal_example =
    issue-reveal plain_secrets plain_laws desk desk refl refl 3 5 no_cards with_card first_card
      (λ e. ground arith) first_issued

-- Another card of the owner, which is cancelled once the shop has a token for the first.
abbrev with_two : CardTables
with_two = record with_card {
  cards =
      record {
        id = 60;
        owner_id = 3;
        account_id = 6;
        pan_fingerprint = [];
        last_four = codes "0000";
        brand = codes "visa";
        exp_month = 3;
        exp_year = 2029;
        cvc_hash = [];
        credential_version = 0;
        encrypted_pan = [];
        encrypted_cvc = [];
        status = active;
      }
      ∷ with_card.cards;
}

abbrev shop_token : Text
shop_token = hex_encode (replicate 32 7)

abbrev with_token : CardTables
with_token =
    (tokenize plain_secrets desk (codes "SHOP") (codes "4777-7777 77777778") (codes "777") 3 2029
      with_two).1

abbrev after_cancel : CardTables
after_cancel = (cancel plain_secrets desk 3 60 with_token).1

tokenized_first :
    (tokenize plain_secrets desk
      (codes "SHOP")
      (codes "4777-7777 77777778")
      (codes "777")
      3
      2029
      with_two).0
    ≡ ok (record {
      token = shop_token;
      brand = codes "visa";
      last4 = codes "7778";
      exp_month = 3;
      exp_year = 2029;
    })
unfolding issue issue_new generate_pan random_digits find_check_digit valid_pan luhn_sum encrypt
    decrypt fingerprint read_bytes create_payment_card card_checks any_card statement read_account
    find_account customer_can_operate date carry_days month_length days_in is_leap text_eq byte_len
    cancel cancel_payment_card cancel_rows tokenize tokenize_normalized normalize_pan
    without_separators trim_space trim_left is_space to_lower_text to_lower valid_cvc read_merchant
    find_merchant get_card_by_fingerprint find_card usable matches_cvc hex_encode
    upsert_merchant_card_token any_token
tokenized_first = refl

cancelled_other : cancel plain_secrets desk 3 60 with_token ≡ (ok tt, after_cancel)
unfolding issue issue_new generate_pan random_digits find_check_digit valid_pan luhn_sum encrypt
    decrypt fingerprint read_bytes create_payment_card card_checks any_card statement read_account
    find_account customer_can_operate date carry_days month_length days_in is_leap text_eq byte_len
    cancel cancel_payment_card cancel_rows tokenize tokenize_normalized normalize_pan
    without_separators trim_space trim_left is_space to_lower_text to_lower valid_cvc read_merchant
    find_merchant get_card_by_fingerprint find_card usable matches_cvc hex_encode
    upsert_merchant_card_token any_token
cancelled_other = refl

abbrev after_payment : CardTables
after_payment =
    (authorize plain_secrets desk (codes "shop") shop_token (codes "777") after_cancel).1

abbrev first_owner : AuthorizedCard
first_owner = record { owner_id = 3; account_id = 5; brand = codes "visa"; last4 = codes "7778" }

authorized_first :
    authorize plain_secrets desk (codes "shop") shop_token (codes "777") after_cancel
    ≡ (ok first_owner, after_payment)
unfolding issue issue_new generate_pan random_digits find_check_digit valid_pan luhn_sum encrypt
    decrypt fingerprint read_bytes create_payment_card card_checks any_card statement read_account
    find_account customer_can_operate date carry_days month_length days_in is_leap text_eq byte_len
    cancel cancel_payment_card cancel_rows tokenize tokenize_normalized normalize_pan
    without_separators trim_space trim_left is_space to_lower_text to_lower valid_cvc read_merchant
    find_merchant get_card_by_fingerprint find_card usable matches_cvc hex_encode
    upsert_merchant_card_token any_token authorize authorize_normalized all_hex
    get_card_by_merchant_token join_token touch_merchant_card_token touch_rows micros month_start
    month_days days_before_year
authorized_first = refl

cancel-authorize_example :
    Grounds plain_secrets desk
      (λ c. owned 3 60 c ≡ false)
      after_cancel
      (to_lower_text (trim_space (codes "shop")))
      (trim_space shop_token)
      (trim_space (codes "777"))
      first_owner
cancel-authorize_example =
    cancel-authorize plain_secrets desk desk 3 60 (codes "shop") shop_token (codes "777")
      first_owner with_token after_cancel after_payment cancelled_other authorized_first

cancel-reveal_example :
    reveal plain_secrets desk 3 60 after_cancel ≡ (err card_credentials_unavailable, after_cancel)
cancel-reveal_example =
    cancel-reveal plain_secrets desk desk 3 60 with_token after_cancel cancelled_other
