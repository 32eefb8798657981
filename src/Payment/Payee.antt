-- ===== src/Payment/Payee.antt =====
-- backend/internal/payment/vop.go: the edit distance of two names.
pub mod Distance
pub mod Lookup
pub mod Names
use banking_go.Prelude.{ℕ, suc, ◌+◌, List, [], ◌∷◌, ◌==◌, Text, length, min, if◌then◌else◌}

abbrev pub cost : ℕ → ℕ → ℕ
cost a b = if a == b then 0 else 1

-- The row that `previous` starts as: 0, 1, … , up to the length of `b`.
unfoldable pub first_row : ℕ → Text → List ℕ
first_row j [] = j ∷ []
first_row j (_ ∷ b) = j ∷ first_row (suc j) b

-- The inner loop, from `current[j]`, `previous[j:]` and `b[j:]`: the rest of the row.
unfoldable pub fill_row : ℕ → ℕ → List ℕ → Text → List ℕ
fill_row a left (p ∷ q ∷ previous) (b ∷ rest) =
    let next = min (left + 1) (min (q + 1) (p + cost a b)) in
    next ∷ fill_row a next (q ∷ previous) rest
fill_row a left _ _ = []

-- The outer loop, from the index `i`.
unfoldable pub levenshtein_rows : ℕ → List ℕ → Text → Text → List ℕ
levenshtein_rows i previous [] b = previous
levenshtein_rows i previous (c ∷ a) b =
    levenshtein_rows (suc i) (suc i ∷ fill_row c (suc i) previous b) a b

-- `previous[len(b)]`
unfoldable pub last_of : List ℕ → ℕ
last_of [] = 0
last_of (n ∷ []) = n
last_of (_ ∷ n ∷ row) = last_of (n ∷ row)

abbrev pub distance_loop : Text → Text → ℕ
distance_loop a b = last_of (levenshtein_rows 0 (first_row 0 b) a b)

unfoldable pub levenshtein : Text → Text → ℕ
levenshtein [] b = length b
levenshtein (c ∷ a) b = distance_loop (c ∷ a) b
