-- ===== src/Prelude/Trim.antt =====
-- `strings.TrimSpace` leaves a trimmed text alone.
use mathlib.Core.Path.{◌≡◌, refl, sym, ap, ◌∙◌}
use mathlib.Core.Logic.{inl, inr}
use mathlib.Core.Bool.{false}
use mathlib.Core.List.{[], ◌∷◌, ◌++◌, reverse, reverse-append, reverse-reverse}
use banking_go.Prelude.Tests.{Bool-cases}
use banking_go.Prelude.Lists.{All, All-reverse}
use banking_go.Prelude.Strings.{Text, is_space, trim_left, trim_space}

-- No space at the front.
abbrev StartsClean : Text → Type 0
StartsClean [] = Unit {0}
StartsClean (c ∷ s) = is_space c ≡ false

trim_left-StartsClean : (s : Text) → StartsClean (trim_left s)
unfolding trim_left
trim_left-StartsClean [] = tt
trim_left-StartsClean (c ∷ s) = elim (Bool-cases (is_space c)) [
  | inl blank ↦ rw blank (trim_left-StartsClean s)
  | inr solid ↦ rw solid solid
]

pub StartsClean-trim_left : (s : Text) → StartsClean s → trim_left s ≡ s
unfolding trim_left
StartsClean-trim_left [] h = refl
StartsClean-trim_left (c ∷ s) h = rw h

-- What is trimmed is a front part.
trimmed_front : (s : Text) → (front : Text) × (s ≡ front ++ trim_left s)
unfolding trim_left
trimmed_front [] = ([], refl)
trimmed_front (c ∷ s) = elim (Bool-cases (is_space c)) [
  | inl blank ↦ (let (front, e) = trimmed_front s in (c ∷ front, rw blank (ap (λ t. c ∷ t) e)))
  | inr solid ↦ ([], rw solid refl)
]

-- A front part of a clean text is clean.
prefix-StartsClean : (s rest : Text) → StartsClean (s ++ rest) → StartsClean s
prefix-StartsClean [] rest h = tt
prefix-StartsClean (c ∷ s) rest h = h

module _ (u : Text) (clean : StartsClean u) where
  cut : Text
  cut = reverse (trim_left (reverse u))

  cut-StartsClean : StartsClean cut
  unfolding cut
  cut-StartsClean =
      let (front, e) = trimmed_front (reverse u) in
      let split : u ≡ reverse (trim_left (reverse u)) ++ reverse front =
        sym (reverse-reverse u) ∙ ap reverse e ∙ reverse-append front (trim_left (reverse u)) in
      prefix-StartsClean (reverse (trim_left (reverse u))) (reverse front) (rw split at clean)

-- A text with no space at either end is trimmed to itself.
trim_space-clean : (s : Text) → StartsClean s → StartsClean (reverse s) → trim_space s ≡ s
unfolding trim_space
trim_space-clean s front back =
    rw (StartsClean-trim_left s front)
      (rw (StartsClean-trim_left (reverse s) back) (reverse-reverse s))

pub trim_space-trim_space : (s : Text) → trim_space (trim_space s) ≡ trim_space s
unfolding trim_space cut
trim_space-trim_space s =
    let u = trim_left s in
    let back : StartsClean (reverse (reverse (trim_left (reverse u)))) =
      rw (reverse-reverse (trim_left (reverse u))) (trim_left-StartsClean (reverse u)) in
    trim_space-clean (reverse (trim_left (reverse u))) (cut-StartsClean u (trim_left-StartsClean s))
      back

All-StartsClean : (s : Text) → All (λ c. is_space c ≡ false) s → StartsClean s
All-StartsClean [] h = tt
All-StartsClean (c ∷ s) h = h.0

-- A text without spaces is trimmed to itself.
pub trim_space-solid : (s : Text) → All (λ c. is_space c ≡ false) s → trim_space s ≡ s
trim_space-solid s h =
    trim_space-clean s (All-StartsClean s h)
      (All-StartsClean (reverse s) (All-reverse (λ c. is_space c ≡ false) s h))
