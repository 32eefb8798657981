-- ===== src/Payment/Payee/Distance.antt =====
-- The loop over rows computes the edit distance by its recursive definition.
use banking_go.Prelude.{
  ℕ, suc, ◌+◌, ◌≡◌, refl, sym, ap, ◌∙◌, List, [], ◌∷◌, Text, length, min, arith,
}
use banking_go.Payment.Payee.{cost, first_row, fill_row, levenshtein_rows, last_of, levenshtein}

-- The fewest insertions, deletions and replacements from one text to the other.
unfoldable pub distance : Text → Text → ℕ
distance [] b = length b
distance (x ∷ a) [] = suc (length a)
distance (x ∷ a) (y ∷ b) =
    min (distance (x ∷ a) b + 1) (min (distance a (y ∷ b) + 1) (distance a b + cost x y))

-- The texts read backwards, onto what was read before.
unfoldable pub onto : Text → Text → Text
onto [] read = read
onto (c ∷ rest) read = onto rest (c ∷ read)

abbrev pub backwards : Text → Text
backwards s = onto s []

-- The distances of `a` to each prefix of a text, read backwards.
unfoldable prefixes : Text → Text → Text → List ℕ
prefixes a read [] = distance a read ∷ []
prefixes a read (c ∷ rest) = distance a read ∷ prefixes a (c ∷ read) rest

distance-empty : (a : Text) → distance a [] ≡ length a
unfolding distance
distance-empty [] = refl
distance-empty (x ∷ a) = refl

distance-step :
    (x : ℕ) (a : Text) (y : ℕ) (b : Text)
    → distance (x ∷ a) (y ∷ b)
      ≡ min (distance (x ∷ a) b + 1) (min (distance a (y ∷ b) + 1) (distance a b + cost x y))
unfolding distance
distance-step x a y b = refl

first_row-prefixes : (read rest : Text) → first_row (length read) rest ≡ prefixes [] read rest
unfolding first_row prefixes distance
first_row-prefixes read [] = refl
first_row-prefixes read (c ∷ rest) =
    ap (λ row. length read ∷ row) (first_row-prefixes (c ∷ read) rest)

-- The rest of a row, after its first distance.
unfoldable later : Text → Text → Text → List ℕ
later a read [] = []
later a read (c ∷ rest) = prefixes a (c ∷ read) rest

prefixes-later : (a read rest : Text) → prefixes a read rest ≡ distance a read ∷ later a read rest
unfolding prefixes later
prefixes-later a read [] = refl
prefixes-later a read (c ∷ rest) = refl

fill_row-later :
    (x : ℕ) (a read rest : Text)
    → fill_row x (distance (x ∷ a) read) (distance a read ∷ later a read rest) rest
      ≡ later (x ∷ a) read rest
unfolding fill_row later
fill_row-later x a read [] = refl
fill_row-later x a read (y ∷ rest) = rw (prefixes-later a (y ∷ read) rest) (
    rw (prefixes-later (x ∷ a) (y ∷ read) rest) (
      rw (← distance-step x a y read)
        (ap (λ row. distance (x ∷ a) (y ∷ read) ∷ row) (fill_row-later x a (y ∷ read) rest))))

next_row-prefixes :
    (c : ℕ) (done b : Text) (n : ℕ)
    → n ≡ distance (c ∷ done) []
    → n ∷ fill_row c n (prefixes done [] b) b ≡ prefixes (c ∷ done) [] b
next_row-prefixes c done b n e = rw e (
    rw (prefixes-later done [] b) (
      rw (prefixes-later (c ∷ done) [] b)
        (ap (λ row. distance (c ∷ done) [] ∷ row) (fill_row-later c done [] b))))

rows-prefixes :
    (a done b : Text)
    → levenshtein_rows (length done) (prefixes done [] b) a b ≡ prefixes (onto a done) [] b
unfolding levenshtein_rows onto
rows-prefixes [] done b = refl
rows-prefixes (c ∷ a) done b =
    rw (next_row-prefixes c done b (suc (length done)) (sym (distance-empty (c ∷ done))))
      (rows-prefixes a (c ∷ done) b)

last-prefixes : (a read rest : Text) → last_of (prefixes a read rest) ≡ distance a (onto rest read)
unfolding last_of prefixes onto
last-prefixes a read [] = refl
last-prefixes a read (c ∷ rest) =
    ap (λ row. last_of (distance a read ∷ row)) (prefixes-later a (c ∷ read) rest)
    ∙ ap last_of (sym (prefixes-later a (c ∷ read) rest))
    ∙ last-prefixes a (c ∷ read) rest

length-onto : (rest read : Text) → length (onto rest read) ≡ length rest + length read
unfolding onto
length-onto [] read = omega arith
length-onto (c ∷ rest) read = omega (arith, length-onto rest (c ∷ read))

-- The loop over rows computes the edit distance, by the recursive definition, of the two texts read
-- backwards.
pub levenshtein-distance : (a b : Text) → levenshtein a b ≡ distance (backwards a) (backwards b)
unfolding levenshtein
levenshtein-distance [] b = unfold onto distance in omega (arith, length-onto b [])
levenshtein-distance (c ∷ a) b =
    rw (first_row-prefixes [] b)
      (ap last_of (rows-prefixes (c ∷ a) [] b) ∙ last-prefixes (onto (c ∷ a) []) [] b)
