-- ===== src/Payment/Reasons.antt =====
-- backend/internal/payment/payments.go: the texts that a booking leaves on its order and entries.
use banking_go.Prelude.{
  ℕ, zero, suc, Bool, true, false, not, ◌||◌, ◌&&◌, ◌==◌, List, [], ◌∷◌, Text, codes, text_eq,
  trim_space, to_lower_text, if◌then◌else◌,
}
use banking_go.Errors.{Error}
use banking_go.Database.Tables.{NullString}

-- `nullString`
unfoldable pub null_string_of : Text → NullString
null_string_of value =
    let trimmed = trim_space value in record { string = trimmed; valid = not (text_eq trimmed []) }

-- `errors.Is` looks through `%w`; the sentinels are compared by identity.
unfoldable pub reject_code : Error → Text
reject_code Error.insufficient_funds = codes "AM04"
reject_code Error.account_blocked = codes "AC06"
reject_code Error.currency_mismatch = codes "CURR"
reject_code (Error.wrapped _ e) = reject_code e
reject_code _ = codes "TECH"

unfoldable pub public_failure_reason : Error → Text
public_failure_reason Error.insufficient_funds = codes "Nicht ausreichende Deckung"
public_failure_reason Error.account_blocked = codes "Konto ist nicht aktiv"
public_failure_reason Error.currency_mismatch = codes "Währung wird nicht unterstützt"
public_failure_reason Error.same_account_transfer = codes "Quell- und Zielkonto sind identisch"
public_failure_reason (Error.wrapped _ e) = public_failure_reason e
public_failure_reason _ = codes "Technischer Verarbeitungsfehler"

unfoldable pub has_prefix : Text → Text → Bool
has_prefix [] value = true
has_prefix (c ∷ prefix) [] = false
has_prefix (c ∷ prefix) (d ∷ value) = c == d && has_prefix prefix value

-- `strings.Contains`
unfoldable pub contains : Text → Text → Bool
contains [] word = has_prefix word []
contains (c ∷ value) word = has_prefix word (c ∷ value) || contains value word

unfoldable pub contains_any : Text → List Text → Bool
contains_any value [] = false
contains_any value (word ∷ words) = contains value word || contains_any value words

-- The map literal, in the order that it is written in.
abbrev pub categories : List (Text × List Text)
categories =
    (codes "Wohnen", codes "miete" ∷ codes "wohnung" ∷ codes "strom" ∷ [])
    ∷ (codes "Lebensmittel", codes "markt" ∷ codes "supermarkt" ∷ codes "lebensmittel" ∷ [])
    ∷ (codes "Mobilität", codes "bahn" ∷ codes "ticket" ∷ codes "verkehr" ∷ codes "tanken" ∷ [])
    ∷ (
      codes "Abonnements",
      codes "abo" ∷ codes "netflix" ∷ codes "spotify" ∷ codes "subscription" ∷ [],
    )
    ∷ (codes "Gehalt", codes "gehalt" ∷ codes "lohn" ∷ [])
    ∷ []

unfoldable pub nth_category : ℕ → List (Text × List Text) → Text × List Text
nth_category n [] = ([], [])
nth_category zero (c ∷ rest) = c
nth_category (suc n) (c ∷ rest) = nth_category n rest

unfoldable pub first_category : List ℕ → Text → Text
first_category [] value = codes "Sonstiges"
first_category (n ∷ order) value =
    let rest = first_category order value in
    let (category, words) = nth_category n categories in
    if contains_any value words then category else rest

-- `categorizePurpose`; `order` is the order in which the map is ranged over.
unfoldable pub categorize_purpose : List ℕ → Text → Text
categorize_purpose order purpose = first_category order (to_lower_text purpose)
