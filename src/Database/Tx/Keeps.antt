-- ===== src/Database/Tx/Keeps.antt =====
-- Invariants of the database: what a block keeps when it succeeds, a transaction keeps always.
use banking_go.Prelude.{
  ℕ, ◌≡◌, refl, sym, ap, ◌∙◌, arith, String, Option, some, none, Bool, true, false, if◌then◌else◌,
  inl, inr,
}
use mathlib.Core.Path.{subst}
use banking_go.Errors.{Result, ok, err, Error}
use banking_go.Database.Tables.{Database}
use banking_go.Database.Tx.{
  resume, Fault, run_in, Mode, auto, aborted, Env, World, open_tx, Tx, pure, lift, query, exec_tx,
  ◌>>=◌, wrap_error, fail_if,
}
use banking_go.Database.Tx.Atomic.{exec_tx_atomic, exec_tx-Ran, Ran, Undone}
use banking_go.Database.Tx.Inversion.{bind_ok, query_ok, lift_ok}

-- Whatever its outcome, `m` keeps `P` of the database.
abbrev pub Keeps : {A : Type 0} → (Database → Type 0) → Tx A → Type 0
Keeps P m = (env : Env) (w : World) → P w.db → P (m env w).1.db

-- Where `m` succeeds it keeps `P`.
pub record OkKeeps {A : Type 0} (P : Database → Type 0) (m : Tx A) : Type 0 where
  pub at : (env : Env) (w : World) (a : A) (w' : World) → P w.db → m env w ≡ (ok a, w') → P w'.db

module _ {A : Type 0} (P : Database → Type 0) where
  module _ (body : Tx A) (env : Env) (w : World) (h : P w.db)
      (k : (t : ℕ) (c : Option Error) (a : A) (u : World)
        → body env (record { db = w.db; tick = t; mode = open_tx; captured = c }) ≡ (ok a, u)
        → P u.db) where
    ran_keeps : (a : A) (after : Database) → Ran body env w.db a after → P after
    ran_keeps a after (t, c, u, ran, _, same) = subst P same (k t c a u ran)

    undone_keeps : (e : Error) (after : Database) → Undone body env w.db e after → P after
    undone_keeps e after (inl back) = subst P (sym back) h
    undone_keeps e after (inr (_, a, ran)) = ran_keeps a after ran

    -- What holds before a transaction and after a successful run of its body holds after it.
    pub exec_tx_keeps : (r : Result A) (u : World) → exec_tx body env w ≡ (r, u) → P u.db
    exec_tx_keeps (ok a) u e = ran_keeps a u.db (exec_tx-Ran env body w e)
    exec_tx_keeps (err x) u e = undone_keeps x u.db (exec_tx_atomic env body w e)

module _ {A : Type 0} {P : Database → Type 0} where
  -- A transaction keeps what its body keeps in success.
  pub exec_tx-Keeps : (body : Tx A) → OkKeeps P body → Keeps P (exec_tx body)
  exec_tx-Keeps body k env w h =
      exec_tx_keeps P body env w h
        (λ t c a u ran.
          k.at env (record { db = w.db; tick = t; mode = open_tx; captured = c }) a u h ran)
        (exec_tx body env w).0 (exec_tx body env w).1 refl

  pub OkKeeps-query :
      (q : Database → Result A × Database)
      → ((db : Database) → P db → P (q db).1)
      → OkKeeps P (query q)
  OkKeeps-query q k = record {
    at = λ env w a w' h e. subst P (sym (query_ok env w q e).1) (k w.db h);
  }

  pub OkKeeps-lift : (r : Result A) → OkKeeps P (lift r)
  OkKeeps-lift r = record {
    at = λ env w a w' h e. subst (λ (u : World). P u.db) (sym (lift_ok env w r e).1) h;
  }

  pub OkKeeps-pure : (a : A) → OkKeeps P (pure a)
  OkKeeps-pure a = OkKeeps-lift (ok a)

  pub OkKeeps-if :
      (b : Bool) (m n : Tx A) → OkKeeps P m → OkKeeps P n → OkKeeps P (if b then m else n)
  OkKeeps-if true m n km kn = km
  OkKeeps-if false m n km kn = kn

module _ {A B : Type 0} {P : Database → Type 0} where
  pub OkKeeps-bind :
      (m : Tx A) (f : A → Tx B) → OkKeeps P m → ((a : A) → OkKeeps P (f a)) → OkKeeps P (m >>= f)
  OkKeeps-bind m f km kf = record {
    at = λ env w b w' h e.
        let (a, v, first, rest) = bind_ok m f env w e in
        (kf a).at env v b w' (km.at env w a v h first) rest;
  }

module _ {A : Type 0} where
  wrapped_ok :
      (message : String) (m : Tx A) (env : Env) (w : World) (r : Result A) (u : World)
      → m env w ≡ (r, u)
      → {a : A} {w' : World} → wrap_error message m env w ≡ (ok a, w')
      → m env w ≡ (ok a, w')
  wrapped_ok message m env w (ok b) u e {a} {w'} h = ground arith
  wrapped_ok message m env w (err x) u e {a} {w'} h = absurd (ground arith)

module _ {A : Type 0} {P : Database → Type 0} where
  pub OkKeeps-wrap : (message : String) (m : Tx A) → OkKeeps P m → OkKeeps P (wrap_error message m)
  OkKeeps-wrap message m k = record {
    at = λ env w a w' h e.
        k.at env w a w' h (wrapped_ok message m env w (m env w).0 (m env w).1 refl e);
  }

pub OkKeeps-fail_if : {P : Database → Type 0} (b : Bool) (e : Error) → OkKeeps P (fail_if b e)
OkKeeps-fail_if b e = OkKeeps-lift (if b then err e else ok tt)

-- A step that leaves the contents alone.
pub OkKeeps-still :
    {A : Type 0} {P : Database → Type 0} (m : Tx A)
    → ((env : Env) (w : World) → (m env w).1.db ≡ w.db)
    → OkKeeps P m
OkKeeps-still {A} {P} m still = record {
  at = λ env w a w' h e. subst P (sym (still env w) ∙ ap (λ (p : Result A × World). p.1.db) e) h;
}

-- Steps that keep a property whatever their outcome.
module _ {A B : Type 0} (P : Database → Type 0) where
  resumed :
      (f : A → Tx B)
      → ((a : A) → Keeps P (f a))
      → (env : Env) (r : Result A) (w : World) → P w.db
      → P (resume f env (r, w)).1.db
  resumed f k env (ok a) w h = k a env w h
  resumed f k env (err e) w h = h

  pub Keeps-bind :
      (m : Tx A) (f : A → Tx B) → Keeps P m → ((a : A) → Keeps P (f a)) → Keeps P (m >>= f)
  Keeps-bind m f km kf env w h = resumed f kf env (m env w).0 (m env w).1 (km env w h)

module _ {A : Type 0} (P : Database → Type 0) (q : Database → Result A × Database)
    (k : (db : Database) → P db → P (q db).1) where
  statement_keeps :
      (mode : Mode) (w : World) (f : Option Fault) → P w.db → P (run_in mode q w f).1.db
  statement_keeps auto w none h = k w.db h
  statement_keeps auto w (some f) h = h
  statement_keeps open_tx w none h = k w.db h
  statement_keeps open_tx w (some f) h = h
  statement_keeps aborted w f h = h

  pub Keeps-query : Keeps P (query q)
  unfolding query
  Keeps-query env w h = statement_keeps w.mode w (env.faults w.tick) h
