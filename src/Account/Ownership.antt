-- ===== src/Account/Ownership.antt =====
-- backend/internal/account/ownership.go. A `uuid.UUID` is a number, and `uuid.Nil` is 0: the program
-- only compares identifiers.
use banking_go.Prelude.{ℕ, ◌≡◌, ◌≢◌, Bool, true, false, not, ◌&&◌, arith, ◌==◌}

abbrev pub uuid_nil : ℕ
uuid_nil = 0

unfoldable pub customer_can_operate : ℕ → ℕ → Bool → Bool → Bool
customer_can_operate requester_id owner_id owner_assigned account_is_system =
    not (requester_id == uuid_nil)
    && owner_assigned
    && not account_is_system
    && owner_id == requester_id

-- A customer can operate an account only when the requester is not the nil identifier, the
-- account has an owner, it is no system account, and the owner is the requester.
pub customer_can_operate_sound :
    (requester_id owner_id : ℕ) (assigned sys : Bool)
    → customer_can_operate requester_id owner_id assigned sys ≡ true
    → (requester_id ≢ 0) × (assigned ≡ true) × (sys ≡ false) × (owner_id ≡ requester_id)
unfolding customer_can_operate
customer_can_operate_sound r o assigned sys h =
    (ground arith, ground arith, ground arith, ground arith)
