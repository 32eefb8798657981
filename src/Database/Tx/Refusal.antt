-- ===== src/Database/Tx/Refusal.antt =====
-- What a block leaves that fails inside a transaction: its contents untouched, or a transaction that
-- can only be rolled back.
use banking_go.Prelude.{◌≡◌, ◌⊎◌, inr, refl, Bool, true, false, if◌then◌else◌, Option, none, some}
use banking_go.Errors.{Result, ok, err}
use banking_go.Database.Tables.{Database}
use banking_go.Database.Tx.{
  Fault, run_in, Env, World, open_tx, aborted, Tx, query, lift, resume, ◌>>=◌,
}

abbrev pub Refusal : {A : Type 0} → Database → Result A → World → Type 0
Refusal db (ok a) w = Unit
Refusal db (err e) w = (w.mode ≡ aborted) ⊎ (w.db ≡ db)

-- In an open transaction on `db`, `m` fails only so.
pub record Clean {A : Type 0} (db : Database) (m : Tx A) : Type 0 where
  pub at :
      (env : Env) (w : World) → w.db ≡ db → w.mode ≡ open_tx → Refusal db (m env w).0 (m env w).1

abbrev pub Unmoved : {A : Type 0} → Database → Result A → World → Type 0
Unmoved db (ok a) w = (w.db ≡ db) × (w.mode ≡ open_tx)
Unmoved db (err e) w = w.db ≡ db

-- `m` only reads.
pub record Reads {A : Type 0} (db : Database) (m : Tx A) : Type 0 where
  pub at :
      (env : Env) (w : World) → w.db ≡ db → w.mode ≡ open_tx → Unmoved db (m env w).0 (m env w).1

module _ {A B : Type 0} {db : Database} where
  Clean-rest :
      (f : A → Tx B)
      → ((a : A) → Clean db (f a))
      → (env : Env) (r : Result A) (w : World) → Unmoved db r w
      → Refusal db (resume f env (r, w)).0 (resume f env (r, w)).1
  Clean-rest f k env (ok a) w h = (k a).at env w h.0 h.1
  Clean-rest f k env (err e) w h = inr h

  pub Clean-bind :
      (m : Tx A) (f : A → Tx B) → Reads db m → ((a : A) → Clean db (f a)) → Clean db (m >>= f)
  Clean-bind m f r k = record {
    at = λ env w e o. Clean-rest f k env (m env w).0 (m env w).1 (r.at env w e o);
  }

  read_rest :
      (f : A → Tx B)
      → ((a : A) → Reads db (f a))
      → (env : Env) (r : Result A) (w : World) → Unmoved db r w
      → Unmoved db (resume f env (r, w)).0 (resume f env (r, w)).1
  read_rest f k env (ok a) w h = (k a).at env w h.0 h.1
  read_rest f k env (err e) w h = h

  pub Reads-bind :
      (m : Tx A) (f : A → Tx B) → Reads db m → ((a : A) → Reads db (f a)) → Reads db (m >>= f)
  Reads-bind m f r k = record {
    at = λ env w e o. read_rest f k env (m env w).0 (m env w).1 (r.at env w e o);
  }

module _ {A : Type 0} {db : Database} where
  lifted : (r : Result A) (w : World) → w.db ≡ db → w.mode ≡ open_tx → Unmoved db r w
  lifted (ok a) w e o = (e, o)
  lifted (err x) w e o = e

  pub Reads-lift : (r : Result A) → Reads db (lift r)
  Reads-lift r = record { at = λ env w e o. lifted r w e o }

  pub Reads-if : (b : Bool) (m n : Tx A) → Reads db m → Reads db n → Reads db (if b then m else n)
  Reads-if true m n km kn = km
  Reads-if false m n km kn = kn

  module _ (f : Database → Result A) where
    read-Unmoved :
        (w : World) (fault : Option Fault) (r : Result A)
        → f w.db ≡ r
        → w.db ≡ db
        → w.mode ≡ open_tx
        → Unmoved db
            (run_in w.mode (λ d. (f d, d)) w fault).0
            (run_in w.mode (λ d. (f d, d)) w fault).1
    read-Unmoved w none (ok a) h e o = rw o (rw h (e, refl))
    read-Unmoved w none (err x) h e o = rw o (rw h e)
    read-Unmoved w (some x) r h e o = rw o e

    -- A query that leaves the contents alone only reads.
    pub Reads-query : Reads db (query (λ d. (f d, d)))
    unfolding query
    Reads-query = record { at = λ env w e o. read-Unmoved w (env.faults w.tick) (f w.db) refl e o }
