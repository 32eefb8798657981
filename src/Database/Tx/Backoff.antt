-- ===== src/Database/Tx/Backoff.antt =====
-- The wait before a retry.
use native.Mathlib.Nat.{pow-succ', one-le-pow}
use banking_go.Prelude.{ℕ, zero, suc, ◌*◌, ◌^◌, ◌≤◌, ◌≡◌, ap, inl, inr, arith, min, leb, Bool-cases}
use banking_go.Database.Tx.{retry_wait, retry_wait_from}

grows : (b n : ℕ) → 1000 ≤ b → 1000 ≤ b * 2 ^ n
grows b n h = grind (arith, one-le-pow n 2 (omega arith))

doubled : (b n : ℕ) → b * 2 ^ suc n ≡ b * 2 * 2 ^ n
doubled b n = omega (arith, ap (λ (t : ℕ). b * t) (pow-succ' 2 n))

capped : (base n : ℕ) → base ≤ 1000 → retry_wait_from base n ≡ min (base * 2 ^ n) 1000
unfolding retry_wait_from
capped base zero h = omega arith
capped base (suc n) h = elim (Bool-cases (leb 1000 (base * 2))) [
  | inl top ↦ rw (top, doubled base n) (omega (arith, grows (base * 2) n (ground arith)))
  | inr low ↦ rw (low, doubled base n) (capped (base * 2) n (ground arith))
]

-- The wait before a retry is 50 ms doubled with each attempt, and at most a second.
pub retry_wait_closed : (attempt : ℕ) → retry_wait attempt ≡ min (50 * 2 ^ attempt) 1000
unfolding retry_wait
retry_wait_closed attempt = capped 50 attempt (omega arith)
