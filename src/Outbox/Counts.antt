-- ===== src/Outbox/Counts.antt =====
-- How many rows of the outbox wait, are open or are published, under the statements of
-- backend/internal/platform/outbox/outbox.go.
use banking_go.Prelude.{
  ℕ, zero, suc, ◌+◌, ◌≤◌, ◌≡◌, refl, ap, Bool, true, false, not, ◌==◌, if◌then◌else◌, List, [], ◌∷◌,
  length, take, arith,
}
use banking_go.Outbox.{
  OutboxRow, is_published, is_candidate, update_rows, is_open, marked, ids_of, candidates,
  insert_candidate, count_rows,
}

-- How often an identifier is in a list.
unfoldable pub tally : ℕ → List ℕ → ℕ
tally id [] = 0
tally id (x ∷ xs) = (if id == x then 1 else 0) + tally id xs

pub count_implied :
    (p q : OutboxRow → Bool)
    → ((r : OutboxRow) → p r ≡ true → q r ≡ true)
    → (rows : List OutboxRow) → count_rows p rows ≤ count_rows q rows
unfolding count_rows
count_implied p q k [] = omega arith
count_implied p q k (r ∷ rows) = let e = count_implied p q k rows in let i = k r in ground arith

-- An update that does not change what is counted.
pub count-update_rows :
    (p guard : OutboxRow → Bool) (change : OutboxRow → OutboxRow)
    → ((r : OutboxRow) → guard r ≡ true → p (change r) ≡ p r)
    → (rows : List OutboxRow) → count_rows p (update_rows guard change rows) ≡ count_rows p rows
unfolding count_rows update_rows
count-update_rows p guard change k [] = refl
count-update_rows p guard change k (r ∷ rows) =
    let e = count-update_rows p guard change k rows in let i = k r in ground arith

pub tally-take :
    (id n : ℕ) (rows : List OutboxRow) → tally id (ids_of (take n rows)) ≤ tally id (ids_of rows)
unfolding tally ids_of
tally-take id zero rows = omega arith
tally-take id (suc n) [] = omega arith
tally-take id (suc n) (r ∷ rows) = let e = tally-take id n rows in ground arith

tally-insert_candidate :
    (id : ℕ) (r : OutboxRow) (rows : List OutboxRow)
    → tally id (ids_of (insert_candidate r rows)) ≡ tally id (ids_of (r ∷ rows))
unfolding tally ids_of insert_candidate
tally-insert_candidate id r [] = refl
tally-insert_candidate id r (s ∷ rows) = let e = tally-insert_candidate id r rows in ground arith

-- A row that waits is open.
pub tally-candidates :
    (id now : ℕ) (rows : List OutboxRow)
    → tally id (ids_of (candidates now rows)) ≤ count_rows (is_open id) rows
unfolding tally ids_of candidates count_rows is_candidate
tally-candidates id now [] = omega arith
tally-candidates id now (r ∷ rows) =
    let e = tally-candidates id now rows in
    let i = tally-insert_candidate id r (candidates now rows) in ground arith

length-insert_candidate :
    (r : OutboxRow) (rows : List OutboxRow) → length (insert_candidate r rows) ≡ suc (length rows)
unfolding insert_candidate
length-insert_candidate r [] = refl
length-insert_candidate r (s ∷ rows) = let e = length-insert_candidate r rows in ground arith

pub length-candidates :
    (now : ℕ) (rows : List OutboxRow)
    → length (candidates now rows) ≡ count_rows (is_candidate now) rows
unfolding candidates count_rows
length-candidates now [] = refl
length-candidates now (r ∷ rows) =
    let e = length-candidates now rows in
    let i = length-insert_candidate r (candidates now rows) in ground arith

pub length-ids_of : (rows : List OutboxRow) → length (ids_of rows) ≡ length rows
unfolding ids_of
length-ids_of [] = refl
length-ids_of (r ∷ rows) = ap suc (length-ids_of rows)

pub count-marked :
    (id now : ℕ) (rows : List OutboxRow)
    → count_rows (is_open id) (update_rows (is_open id) (marked now) rows) ≡ 0
unfolding count_rows update_rows
count-marked id now [] = refl
count-marked id now (r ∷ rows) = let e = count-marked id now rows in ground arith

pub count-marked_apart :
    (j id now : ℕ) (rows : List OutboxRow)
    → (j == id) ≡ false
    → count_rows (is_open j) (update_rows (is_open id) (marked now) rows)
      ≡ count_rows (is_open j) rows
count-marked_apart j id now rows apart =
    count-update_rows (is_open j) (is_open id) (marked now) (λ r g. ground arith) rows

pub backlog-marked :
    (id now : ℕ) (rows : List OutboxRow)
    → count_rows (λ r. not (is_published r)) (update_rows (is_open id) (marked now) rows)
        + count_rows (is_open id) rows
      ≡ count_rows (λ r. not (is_published r)) rows
unfolding count_rows update_rows
backlog-marked id now [] = refl
backlog-marked id now (r ∷ rows) = let e = backlog-marked id now rows in ground arith
