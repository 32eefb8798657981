-- ===== src/Database/Tx/Atomic.antt =====
-- The outcomes of a transaction (ExecTx of backend/internal/platform/database/store.go): all of its
-- body or nothing, which one being unknown only where the commit was not answered.
use mathlib.Core.Path.{subst, subst₂}
use banking_go.Prelude.{
  arith, ℕ, zero, suc, ◌+◌, ◌-◌, ◌≡◌, ◌≢◌, refl, sym, ap, Bool, true, false, Option, none, some,
  ltb, if◌then◌else◌, ◌⊎◌, inl, inr,
}
use banking_go.Errors.{Result, ok, err, Error}
use banking_go.Database.Tables.{Database}
use banking_go.Database.Tx.{
  Env, World, Tx, Fault, sqlstate, lost, unanswered, rollback, Mode, auto, open_tx, aborted,
  commit_in, settle, begin, exec_tx_once, after_wait, after_failure, after_attempt, exec_tx_loop,
  exec_tx, sleep_with_context, is_serialization_error, max_attempts,
}

-- A run of `body` that succeeded on the contents `before` and left `after`.
abbrev pub Ran : {A : Type 0} → Tx A → Env → Database → A → Database → Type 0
Ran body env before a after =
    (t : ℕ) × (c : Option Error) × (u : World) × (body env
        (record { db = before; tick = t; mode = open_tx; captured = c })
      ≡ (ok a, u))
    × (u.mode ≢ aborted)
    × (u.db ≡ after)

-- Nothing has changed, or the commit of a run that succeeded was not answered.
abbrev pub Undone : {A : Type 0} → Tx A → Env → Database → Error → Database → Type 0
Undone {A} body env before e after =
    (after ≡ before)
    ⊎ ((e ≡ Error.wrapped "commit failed" Error.driver) × (a : A) × Ran body env before a after)

module _ {A : Type 0} (env : Env) (body : Tx A) (before : Database) where
  -- What holds of a transaction's outcome.
  abbrev Settled : Result A → World → Type 0
  Settled (ok a) w = Ran body env before a w.db
  Settled (err e) w = Undone body env before e w.db

  settle-Settled :
      (t : ℕ) (c : Option Error) (r : Result A) (w : World)
      → body env (record { db = before; tick = t; mode = open_tx; captured = c }) ≡ (r, w)
      → Settled (settle before env r w).0 (settle before env r w).1
  settle-Settled t c (ok a) w h = committed w.mode refl (env.faults w.tick)
    where
      committed :
          (mode : Mode)
          → w.mode ≡ mode
          → (f : Option Fault)
          → Settled (commit_in mode before a w f).0 (commit_in mode before a w f).1
      committed aborted m f = inl refl
      committed open_tx m none = (t, c, w, h, (λ e. cc), refl)
      committed open_tx m (some (sqlstate _)) = inl refl
      committed open_tx m (some lost) = inl refl
      committed open_tx m (some unanswered) = inr (refl, a, (t, c, w, h, (λ e. cc), refl))
      committed auto m none = (t, c, w, h, (λ e. cc), refl)
      committed auto m (some (sqlstate _)) = inl refl
      committed auto m (some lost) = inl refl
      committed auto m (some unanswered) = inr (refl, a, (t, c, w, h, (λ e. cc), refl))
  settle-Settled t c (err e) w h = undone (env.faults w.tick)
    where
      undone :
          (f : Option Fault)
          → Settled (rollback {A = A} before e w f).0 (rollback {A = A} before e w f).1
      undone none = inl refl
      undone (some _) = inl refl

  begin-Settled :
      (t : ℕ) (mode : Mode) (c : Option Error) (f : Option Fault)
      → let w : World = record { db = before; tick = t; mode = mode; captured = c } in
        Settled (begin body env w f).0 (begin body env w f).1
  begin-Settled t mode c none =
      let (r, u) = body env (record { db = before; tick = suc t; mode = open_tx; captured = c }) in
      settle-Settled (suc t) c r u refl
  begin-Settled t mode c (some _) = inl refl

  once-Settled :
      (w : World) → w.db ≡ before → Settled (exec_tx_once body env w).0 (exec_tx_once body env w).1
  unfolding exec_tx_once
  once-Settled w same =
      subst
        (λ (d : Database).
          let v : World = record { db = d; tick = w.tick; mode = w.mode; captured = w.captured } in
          Settled (begin body env v (env.faults w.tick)).0 (begin body env v (env.faults w.tick)).1)
        (sym same) (begin-Settled w.tick w.mode w.captured (env.faults w.tick))

  module _ (attempt : ℕ) (rest : Error → Tx A)
      (next : (e : Error) (u : World)
        → u.db ≡ before
        → Settled (rest e env u).0 (rest e env u).1) where
    after_failure-Settled :
        (again due : Bool) (e : Error) (w : World)
        → (w.db ≡ before) ⊎ (again ≡ false)
        → Undone body env before e w.db
        → Settled
            (after_failure again due attempt rest e env w).0
            (after_failure again due attempt rest e env w).1
    unfolding sleep_with_context
    after_failure-Settled false due e w k h = h
    after_failure-Settled true due e w (inr never) h = absurd (ground arith)
    after_failure-Settled true false e w (inl back) h = next e w back
    after_failure-Settled true true e w (inl back) h =
        waited (if env.cancelled w.tick then err Error.context_done else ok tt)
      where
        v : World
        v = record w { tick = suc w.tick }

        waited :
            (r : Result (Unit {0}))
            → Settled (after_wait rest e env r v).0 (after_wait rest e env r v).1
        waited (ok _) = next e v back
        waited (err _) = inl back

    -- An unanswered commit is not tried again.
    not_again :
        (e : Error) (w : World)
        → Undone body env before e w.db
        → (w.db ≡ before) ⊎ (is_serialization_error e ≡ false)
    unfolding is_serialization_error
    not_again e w (inl back) = inl back
    not_again e w (inr (unknown, _, _)) = inr (ap is_serialization_error unknown)

    after_attempt-Settled :
        (r : Result A) (w : World)
        → Settled r w
        → Settled (after_attempt attempt rest env r w).0 (after_attempt attempt rest env r w).1
    after_attempt-Settled (ok a) w h = h
    after_attempt-Settled (err e) w h =
        after_failure-Settled (is_serialization_error e) (ltb attempt (max_attempts - 1)) e w
          (not_again e w h) h

  loop-Settled :
      (remaining attempt : ℕ) (last : Error) (w : World)
      → w.db ≡ before
      → Settled
          (exec_tx_loop remaining attempt body last env w).0
          (exec_tx_loop remaining attempt body last env w).1
  unfolding exec_tx_loop
  loop-Settled zero attempt last w h = inl h
  loop-Settled (suc remaining) attempt last w h =
      let (r, u) = exec_tx_once body env w in
      after_attempt-Settled attempt (exec_tx_loop remaining (attempt + 1) body)
        (loop-Settled remaining (attempt + 1)) r u (once-Settled w h)

module _ {A : Type 0} (env : Env) (body : Tx A) (w : World) where
  settled : Settled env body w.db (exec_tx body env w).0 (exec_tx body env w).1
  unfolding exec_tx
  settled = loop-Settled env body w.db max_attempts 0 (Error.plain "") w refl

  outcome : (r : Result A) (w' : World) → exec_tx body env w ≡ (r, w') → Settled env body w.db r w'
  outcome r w' h =
      subst₂ (Settled env body w.db) (ap (λ (p : Result A × World). p.0) h)
        (ap (λ (p : Result A × World). p.1) h) settled

  -- Whatever fails (the start, a statement, the body's own checks, the rollback, the commit, or
  -- ten attempts one after the other), a transaction that returns an error leaves the contents as
  -- they were; only if the connection was lost during the commit, and the error says so, they may be
  -- those of one whole run of the body.
  pub exec_tx_atomic :
      {e : Error} {w' : World} → exec_tx body env w ≡ (err e, w') → Undone body env w.db e w'.db
  exec_tx_atomic {e} {w'} h = outcome (err e) w' h

  -- A transaction that succeeds has run its body to success in an open transaction on the
  -- contents before it, and its contents are those that this run left.
  pub exec_tx-Ran :
      {a : A} {w' : World} → exec_tx body env w ≡ (ok a, w') → Ran body env w.db a w'.db
  exec_tx-Ran {a} {w'} h = outcome (ok a) w' h
