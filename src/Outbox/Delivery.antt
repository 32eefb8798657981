-- ===== src/Outbox/Delivery.antt =====
-- At-least-once delivery (Runner.Flush and Writer.Enqueue of
-- backend/internal/platform/outbox/outbox.go).
use banking_go.Prelude.{
  ℕ, ◌≡◌, refl, sym, Bool, true, not, if◌then◌else◌, Bool-cases, inl, inr, List, [], ◌∷◌, All,
  if_both, arith,
}
use mathlib.Core.Path.{subst}
use banking_go.Errors.{Result, ok, err}
use banking_go.Outbox.{
  proceed, new_row, OutboxRow, Outbox, Cycle, Call, is_published, update_rows, contains, is_open,
  marked, released, leased, mark_rows, lease_batch, release_rows, mark_published, release, publish,
  after_release, after_publish, after_claim, by_call_all, flush_events, claim_batch, flush, enqueue,
  ids_of,
}

-- The broker has taken the event of a row that is marked published.
pub Delivered : List ℕ → OutboxRow → Type 0
Delivered taken r = is_published r ≡ true → contains r.event_id taken ≡ true

pub AllDelivered : Outbox → Type 0
AllDelivered s = All (Delivered s.taken) s.rows

-- A step that marks nothing the broker has not taken, and loses no event.
pub record Safe (s t : Outbox) : Type 0 where
  pub delivers : AllDelivered s → AllDelivered t
  pub keeps : (id : ℕ) → contains id (ids_of s.rows) ≡ true → contains id (ids_of t.rows) ≡ true

Safe-refl : (s : Outbox) → Safe s s
Safe-refl s = record { delivers = λ h. h; keeps = λ id h. h }

Safe-trans : (s t u : Outbox) → Safe s t → Safe t u → Safe s u
Safe-trans s t u h k = record {
  delivers = λ a. k.delivers (h.delivers a);
  keeps = λ id a. k.keeps id (h.keeps id a);
}

update_rows-All :
    (P : OutboxRow → Type 0) (guard : OutboxRow → Bool) (change : OutboxRow → OutboxRow)
    → ((r : OutboxRow) → guard r ≡ true → P r → P (change r))
    → (rows : List OutboxRow) → All P rows
    → All P (update_rows guard change rows)
unfolding update_rows
update_rows-All P guard change k [] h = tt
update_rows-All P guard change k (r ∷ rows) h = (
  elim (Bool-cases (guard r)) [
    | inl e ↦ subst (λ (b : Bool). P (if b then change r else r)) (sym e) (k r e h.0)
    | inr e ↦ subst (λ (b : Bool). P (if b then change r else r)) (sym e) h.0
  ],
  update_rows-All P guard change k rows h.1,
)

cong_cons : {x y : ℕ} {xs ys : List ℕ} → x ≡ y → xs ≡ ys → x ∷ xs ≡ y ∷ ys
cong_cons e k = cc

-- An update that keeps identifiers.
ids_of-update_rows :
    (guard : OutboxRow → Bool) (change : OutboxRow → OutboxRow)
    → ((r : OutboxRow) → (change r).event_id ≡ r.event_id)
    → (rows : List OutboxRow) → ids_of (update_rows guard change rows) ≡ ids_of rows
unfolding ids_of update_rows
ids_of-update_rows guard change k [] = refl
ids_of-update_rows guard change k (r ∷ rows) =
    cong_cons (if_both (λ q. q.event_id ≡ r.event_id) (guard r) (change r) r (k r) refl)
      (ids_of-update_rows guard change k rows)

updated-Safe :
    (guard : OutboxRow → Bool) (change : OutboxRow → OutboxRow) (s : Outbox)
    → ((r : OutboxRow) → (change r).event_id ≡ r.event_id)
    → ((r : OutboxRow) → guard r ≡ true → Delivered s.taken r → Delivered s.taken (change r))
    → Safe s (record s { rows = update_rows guard change s.rows })
unfolding AllDelivered
updated-Safe guard change s same k = record {
  delivers = λ h. update_rows-All (Delivered s.taken) guard change k s.rows h;
  keeps = λ id h.
      subst (λ (ids : List ℕ). contains id ids ≡ true)
        (sym (ids_of-update_rows guard change same s.rows)) h;
}

lease_batch-Safe : (c : Cycle) (s : Outbox) → Safe s (lease_batch c s)
unfolding Delivered
lease_batch-Safe c s = updated-Safe _ (leased _) s (λ r. refl) (λ r g h. h)

release_rows-Safe : (c : Cycle) (id : ℕ) (s : Outbox) → Safe s (release_rows c id s)
unfolding Delivered
release_rows-Safe c id s = updated-Safe _ (released _) s (λ r. refl) (λ r g h. h)

mark_rows-Safe :
    (c : Cycle) (id : ℕ) (s : Outbox) → contains id s.taken ≡ true → Safe s (mark_rows c id s)
unfolding Delivered
mark_rows-Safe c id s taken =
    updated-Safe (is_open id) (marked c.now) s (λ r. refl)
      (λ r g h published.
        let e : id ≡ r.event_id = ground arith in
        subst (λ (x : ℕ). contains x s.taken ≡ true) e taken)

taken_more :
    (id : ℕ) (taken : List ℕ) (rows : List OutboxRow)
    → All (Delivered taken) rows
    → All (Delivered (id ∷ taken)) rows
unfolding Delivered contains
taken_more id taken [] h = tt
taken_more id taken (r ∷ rows) h =
    (λ published. let k = h.0 published in ground arith, taken_more id taken rows h.1)

-- What the broker takes in addition marks nothing.
taken-Safe : (id : ℕ) (s : Outbox) → Safe s (record s { taken = id ∷ s.taken })
unfolding AllDelivered
taken-Safe id s = record { delivers = λ h. taken_more id s.taken s.rows h; keeps = λ id h. h }

publish-Safe : (c : Cycle) (id : ℕ) (s : Outbox) → Safe s (publish c id s).1
unfolding publish
publish-Safe c id s =
    by_call_all (λ (p : Result (Unit {0}) × Outbox). Safe s p.1) (c.publish id) _ _ _ (Safe-refl s)
      (taken-Safe id s) (taken-Safe id s)

-- An event whose publication is reported is taken.
publish-taken :
    (c : Cycle) (id : ℕ) (s : Outbox)
    → (publish c id s).0 ≡ ok tt
    → contains id (publish c id s).1.taken ≡ true
unfolding publish contains
publish-taken c id s h = ground arith

release-Safe : (c : Cycle) (id : ℕ) (s : Outbox) → Safe s (release c id s).1
unfolding release
release-Safe c id s =
    by_call_all (λ (p : Result (Unit {0}) × Outbox). Safe s p.1) (c.release id) _ _ _ (Safe-refl s)
      (release_rows-Safe c id s) (release_rows-Safe c id s)

mark_published-Safe :
    (c : Cycle) (id : ℕ) (s : Outbox)
    → contains id s.taken ≡ true
    → Safe s (mark_published c id s).1
unfolding mark_published
mark_published-Safe c id s h =
    by_call_all (λ (p : Result (Unit {0}) × Outbox). Safe s p.1) (c.mark id) _ _ _ (Safe-refl s)
      (mark_rows-Safe c id s h) (mark_rows-Safe c id s h)

claim_batch-Safe : (c : Cycle) (s : Outbox) → Safe s (claim_batch c s).1
unfolding claim_batch
claim_batch-Safe c s =
    by_call_all (λ (p : Result (List ℕ) × Outbox). Safe s p.1) c.claim _ _ _ (Safe-refl s)
      (lease_batch-Safe c s) (lease_batch-Safe c s)

after_release-Safe :
    (s : Outbox) (p : Result (Unit {0}) × Outbox) → Safe s p.1 → Safe s (after_release p).1
after_release-Safe s (err e, t) h = h
after_release-Safe s (ok _, t) h = h

module _ (rest : Outbox → Result (Unit {0}) × Outbox) (k : (s : Outbox) → Safe s (rest s).1) where
  proceed-Safe :
      (s : Outbox) (p : Result (Unit {0}) × Outbox) → Safe s p.1 → Safe s (proceed rest p).1
  proceed-Safe s (ok _, t) h = Safe-trans s t _ h (k t)
  proceed-Safe s (err e, t) h = h

  after_publish-Safe :
      (c : Cycle) (id : ℕ) (r : Result (Unit {0})) (s : Outbox)
      → (r ≡ ok tt → contains id s.taken ≡ true)
      → Safe s (after_publish c id rest r s).1
  after_publish-Safe c id (err e) s h = after_release-Safe s _ (release-Safe c id s)
  after_publish-Safe c id (ok tt) s h = proceed-Safe s _ (mark_published-Safe c id s (h refl))

flush_events-Safe : (c : Cycle) (events : List ℕ) (s : Outbox) → Safe s (flush_events c events s).1
unfolding flush_events
flush_events-Safe c [] s = Safe-refl s
flush_events-Safe c (id ∷ events) s = Safe-trans s (publish c id s).1 _ (publish-Safe c id s) (
    after_publish-Safe (flush_events c events) (flush_events-Safe c events) c id (publish c id s).0
      (publish c id s).1 (publish-taken c id s))

after_claim-Safe : (c : Cycle) (r : Result (List ℕ)) (s : Outbox) → Safe s (after_claim c r s).1
after_claim-Safe c (ok events) s = flush_events-Safe c events s
after_claim-Safe c (err e) s = Safe-refl s

flush-Safe : (c : Cycle) (s : Outbox) → Safe s (flush c s).1
unfolding flush
flush-Safe c s =
    if_both (λ (p : Result (Unit {0}) × Outbox). Safe s p.1) (not c.enabled) _ _ (Safe-refl s)
      (Safe-trans s (claim_batch c s).1 _ (claim_batch-Safe c s)
        (after_claim-Safe c (claim_batch c s).0 (claim_batch c s).1))

-- A new row is not published.
added-Safe : (c : Cycle) (id : ℕ) (s : Outbox) → Safe s (record s { rows = new_row c id ∷ s.rows })
unfolding AllDelivered Delivered ids_of contains
added-Safe c id s = record {
  delivers = λ h. (λ published. ground arith, h);
  keeps = λ x h. ground arith;
}

enqueue-Safe : (c : Cycle) (insert : Call) (id : ℕ) (s : Outbox) → Safe s (enqueue c insert id s).1
unfolding enqueue
enqueue-Safe c insert id s =
    if_both (λ (p : Result (Unit {0}) × Outbox). Safe s p.1) (not (c.validates id)) _ _
      (Safe-refl s)
      (if_both (λ (p : Result (Unit {0}) × Outbox). Safe s p.1) (contains id (ids_of s.rows)) _ _
        (Safe-refl s)
        (by_call_all (λ (p : Result (Unit {0}) × Outbox). Safe s p.1) insert _ _ _ (Safe-refl s)
          (Safe-refl s) (added-Safe c id s)))

-- The outbox over time: any number of events is written, and any number of cycles runs, each with its
-- own failures.
pub data Reached (s : Outbox) : Outbox → Type 0 where
  start : Reached s s
  enqueued :
      (c : Cycle) (insert : Call) (id : ℕ) {t : Outbox}
      → Reached s t
      → Reached s (enqueue c insert id t).1
  flushed : (c : Cycle) {t : Outbox} → Reached s t → Reached s (flush c t).1

-- Whatever fails, a row that is marked as published has its event taken by the broker, and no event
-- that was written is lost.
pub outbox_history-Safe : (s t : Outbox) → Reached s t → Safe s t
outbox_history-Safe s t start = Safe-refl s
outbox_history-Safe s t (enqueued c insert id r) =
    Safe-trans s _ _ (outbox_history-Safe s _ r) (enqueue-Safe c insert id _)
outbox_history-Safe s t (flushed c r) =
    Safe-trans s _ _ (outbox_history-Safe s _ r) (flush-Safe c _)
