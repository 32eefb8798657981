-- ===== src/Card/Steps.antt =====
-- What a successful run of a chain of steps says of each of them.
use banking_go.Prelude.{◌≡◌, refl, sym, ap, Bool, true, false, not, if◌then◌else◌, arith, ◌∷◌}
use banking_go.Errors.{Result, ok, err, Error, fail_if}
use banking_go.Outbox.{by_call, Call, done, failed, lost}
use banking_go.Card.Store.{
  CardEnv, CardTables, Rows, Statement, statement, PaymentCard, create_card, create_payment_card,
  card_checks, any_card, card_clash,
}
use banking_go.Card.Service.{next, pure, replace_error}

module _ {B : Type 0} {b : B} {t : CardTables} where
  pub next-ok :
      {A : Type 0} (rest : A → Rows B) (p : Result A × CardTables)
      → next rest p ≡ (ok b, t)
      → (a : A) × (s : CardTables) × (p ≡ (ok a, s)) × (rest a s ≡ (ok b, t))
  next-ok rest (ok a, s) h = (a, s, refl, h)
  next-ok rest (err e, s) h = absurd (ground arith)

  pub answer-ok : (a : B) (s : CardTables) → pure (ok a) s ≡ (ok b, t) → (a ≡ b) × (s ≡ t)
  answer-ok a s h = (ground arith, ap (λ (p : Result B × CardTables). p.1) h)

  pub pure-ok :
      {A : Type 0} (rest : A → Rows B) (r : Result A) (s : CardTables)
      → next rest (pure r s) ≡ (ok b, t)
      → (a : A) × (r ≡ ok a) × (rest a s ≡ (ok b, t))
  pure-ok rest (ok a) s h = (a, refl, h)
  pure-ok rest (err e) s h = absurd (ground arith)

  pub or_fail-ok :
      (e : Error) (p : Result B × CardTables) → replace_error e p ≡ (ok b, t) → p ≡ (ok b, t)
  or_fail-ok e (ok a, s) h = h
  or_fail-ok e (err _, s) h = absurd (ground arith)

  pub by_call-ok :
      (c : Call) (e : Error) (s u : CardTables) (p : Result B × CardTables)
      → by_call c (err e, s) (err e, u) p ≡ (ok b, t)
      → p ≡ (ok b, t)
  by_call-ok failed e s u p h = absurd (ground arith)
  by_call-ok lost e s u p h = absurd (ground arith)
  by_call-ok done e s u p h = h

  pub statement-ok :
      (env : CardEnv) (name : Statement) (body : Rows B) (db : CardTables)
      → statement env name body db ≡ (ok b, t)
      → body db ≡ (ok b, t)
  unfolding statement
  statement-ok env name body db h = by_call-ok (env.calls name) Error.driver db _ (body db) h

  pub check-ok :
      (test : Bool) (e : Error) (rest : Rows B) (s : CardTables)
      → next (λ (u : Unit {0}). rest) (pure (fail_if (not test) e) s) ≡ (ok b, t)
      → (test ≡ true) × (rest s ≡ (ok b, t))
  check-ok true e rest s h = (refl, h)
  check-ok false e rest s h = absurd (ground arith)

module _ (card made : PaymentCard) (db t : CardTables) where
  abbrev inserted : Bool → Bool → Result PaymentCard × CardTables
  inserted checks clash =
      if not checks
      then (err (Error.pq 23514), db)
      else if clash
      then (err (Error.pq 23505), db)
      else (ok card, record db { cards = card ∷ db.cards })

  inserted-ok :
      (checks clash : Bool)
      → inserted checks clash ≡ (ok made, t)
      → (made ≡ card) × (t ≡ record db { cards = card ∷ db.cards })
  inserted-ok true false h =
      (ground arith, sym (ap (λ (p : Result PaymentCard × CardTables). p.1) h))
  inserted-ok true true h = absurd (ground arith)
  inserted-ok false clash h = absurd (ground arith)

  -- An insert that succeeds puts the row in front.
  pub create_payment_card-ok :
      (env : CardEnv)
      → create_payment_card env card db ≡ (ok made, t)
      → (made ≡ card) × (t ≡ record db { cards = card ∷ db.cards })
  unfolding create_payment_card
  create_payment_card-ok env h =
      inserted-ok (card_checks card) (any_card (card_clash card) db.cards)
        (statement-ok env create_card _ db h)
