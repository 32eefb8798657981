-- ===== src/Database/Tx/Inversion.antt =====
-- What a step that succeeded has done.
use banking_go.Prelude.{◌≡◌, refl, sym, ap, ◌∙◌, arith}
use banking_go.Errors.{Result, ok, err}
use banking_go.Database.Tables.{Database}
use banking_go.Database.Tx.{Env, World, Tx, query, resume, ◌>>=◌, lift}

module _ {A B : Type 0} (m : Tx A) (f : A → Tx B) (env : Env) (w : World) where
  continued :
      (r : Result A) (u : World)
      → m env w ≡ (r, u)
      → {b : B} {w' : World} → (m >>= f) env w ≡ (ok b, w')
      → (a : A) × (v : World) × (m env w ≡ (ok a, v)) × (f a env v ≡ (ok b, w'))
  continued (ok a) u e h = (a, u, e, sym (ap (resume f env) e) ∙ h)
  continued (err x) u e h = absurd (failed (sym (ap (resume f env) e) ∙ h))
    where
      failed : {b : B} {w' : World} → ¬ (◌≡◌ {A = Result B × World} (err x, u) (ok b, w'))
      failed k = ground arith

  -- A block that succeeded has a first step that did, and a rest that did from there.
  pub bind_ok :
      {b : B} {w' : World}
      → (m >>= f) env w ≡ (ok b, w')
      → (a : A) × (v : World) × (m env w ≡ (ok a, v)) × (f a env v ≡ (ok b, w'))
  bind_ok h = continued (m env w).0 (m env w).1 refl h

module _ {A : Type 0} (env : Env) (w : World) where
  pub query_ok :
      (q : Database → Result A × Database) {a : A} {u : World}
      → query q env w ≡ (ok a, u)
      → ((q w.db).0 ≡ ok a) × (u.db ≡ (q w.db).1)
  unfolding query
  query_ok q h = (ground arith, ground arith)

  pub lift_ok : (r : Result A) {a : A} {u : World} → lift r env w ≡ (ok a, u) → (r ≡ ok a) × (u ≡ w)
  lift_ok r h = (ground arith, ground arith)
