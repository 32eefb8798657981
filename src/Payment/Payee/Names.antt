-- ===== src/Payment/Payee/Names.antt =====
-- backend/internal/payment/vop.go: the comparison of two names. The letter tables of Go's package
-- `unicode` are a parameter.
use banking_go.Prelude.{
  ℕ, ◌/◌, Bool, true, false, not, ◌&&◌, ◌||◌, ◌==◌, leb, ltb, List, [], ◌∷◌, Text, codes, text_eq,
  trim_space, is_space, length, Option, none, some, if◌then◌else◌, max, map, ℤ, pos, negsuc, ◌+ℤ◌,
  eqb_ℤ,
}
use mathlib.Core.List.{reverse}
use banking_go.Payment.Payee.{levenshtein}

-- `unicode.IsLetter(r) || unicode.IsDigit(r)`, and `unicode.ToLower`.
pub record Letters : Type 0 where
  pub is_word : ℕ → Bool
  pub lower : ℕ → ℕ

pub record VopResult : Type 0 where
  pub result : Text
  pub suggested_name : Option Text

-- `strings.Fields` from the word read so far, which is kept backwards.
unfoldable pub fields_from : Text → Text → List Text
fields_from word [] = if text_eq word [] then [] else reverse word ∷ []
fields_from word (c ∷ s) =
    let rest = fields_from (if is_space c then [] else c ∷ word) s in
    if is_space c && not (text_eq word []) then reverse word ∷ rest else rest

unfoldable pub fields : Text → List Text
fields s = fields_from [] s

-- `counts[token] += delta`; a missing key counts 0.
unfoldable pub count_token : Text → ℤ → List (Text × ℤ) → List (Text × ℤ)
count_token token delta [] = (token, delta) ∷ []
count_token token delta ((key, n) ∷ counts) =
    let rest = (key, n) ∷ count_token token delta counts in
    if text_eq key token then (key, n +ℤ delta) ∷ counts else rest

unfoldable pub count_tokens : ℤ → List Text → List (Text × ℤ) → List (Text × ℤ)
count_tokens delta [] counts = counts
count_tokens delta (token ∷ tokens) counts =
    count_tokens delta tokens (count_token token delta counts)

unfoldable pub all_zero : List (Text × ℤ) → Bool
all_zero [] = true
all_zero ((key, n) ∷ counts) = eqb_ℤ n (pos 0) && all_zero counts

abbrev pub same_tokens : List Text → List Text → Bool
same_tokens a b =
    if not (length a == length b) || ltb (length a) 2
    then false
    else all_zero (count_tokens (negsuc 0) b (count_tokens (pos 1) a []))

unfoldable pub same_name_tokens : Text → Text → Bool
same_name_tokens a b = same_tokens (fields a) (fields b)

module _ (letters : Letters) where
  -- The loop of `normalizePersonName`: `space` says that a blank was written last, `empty` that
  -- nothing was.
  unfoldable pub normalize_from : Bool → Bool → Text → Text
  normalize_from space empty [] = []
  normalize_from space empty (r ∷ s) =
      let word = letters.is_word r in
      let blank = not word && not space && not empty in
      let rest =
        normalize_from (if word then false else if blank then true else space)
          (empty && not word && not blank) s in
      if word then r ∷ rest else if blank then b' ' ∷ rest else rest

  unfoldable pub normalize_person_name : Text → Text
  normalize_person_name value =
      trim_space (normalize_from false true (map letters.lower (trim_space value)))

  abbrev pub verdict : Text → VopResult
  verdict result = record { result = result; suggested_name = none }

  -- The comparison of two normal forms.
  unfoldable pub compare_names : Text → Text → Text → VopResult
  compare_names provided actual actual_name =
      if text_eq provided actual
      then verdict (codes "MATCH")
      else if leb (levenshtein provided actual) (max 2 (length actual / 5))
          || same_name_tokens provided actual
      then record { result = codes "CLOSE_MATCH"; suggested_name = some (trim_space actual_name) }
      else verdict (codes "NO_MATCH")

  unfoldable pub evaluate_vop : Text → Text → Bool → VopResult
  evaluate_vop provided_name actual_name available =
      if not available || text_eq (normalize_person_name provided_name) []
      then verdict (codes "OTHER")
      else compare_names (normalize_person_name provided_name) (normalize_person_name actual_name)
          actual_name
