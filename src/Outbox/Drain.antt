-- ===== src/Outbox/Drain.antt =====
-- What a cycle without failures does (Runner.Flush, ClaimBatch and MarkPublished of
-- backend/internal/platform/outbox/outbox.go).
use banking_go.Prelude.{
  ℕ, suc, ◌+◌, ◌≤◌, min, ◌≡◌, refl, ◌∙◌, ap, Bool, true, not, ◌==◌, if◌then◌else◌, Bool-cases, inl,
  inr, List, [], ◌∷◌, length, length-take, take, arith,
}
use banking_go.Errors.{Result, ok, err, Error}
use banking_go.Outbox.Counts.{
  tally, count_implied, count-update_rows, tally-take, tally-candidates, length-candidates,
  length-ids_of, count-marked, count-marked_apart, backlog-marked,
}
use banking_go.Outbox.{
  OutboxRow, Outbox, Cycle, done, is_published, is_candidate, is_open, leased, mark_rows,
  lease_batch, mark_published, publish, proceed, has_id, after_publish, after_claim, flush_events,
  claim_batch, scan, batch, flush, candidates, count_rows, backlog, default_batch,
}

-- The rows in another order.
abbrev pub Arranges : (List ℕ → List ℕ) → Type 0
Arranges arrange =
    (ids : List ℕ)
    → (length (arrange ids) ≡ length ids) × ((id : ℕ) → tally id (arrange ids) ≡ tally id ids)

-- The identifier is the table's primary key.
abbrev pub Keyed : List OutboxRow → Type 0
Keyed rows = (id : ℕ) → count_rows (has_id id) rows ≤ 1

-- A cycle in which every call succeeds.
pub record Clean (c : Cycle) : Type 0 where
  pub publisher : c.enabled ≡ true
  pub claims : c.claim ≡ done
  pub arranges : Arranges c.arrange
  pub valid : (id : ℕ) → c.validates id ≡ true
  pub publishes : (id : ℕ) → c.publish id ≡ done
  pub marks : (id : ℕ) → c.mark id ≡ done

module _ (c : Cycle) (clean : Clean c) where
  publish_done : (id : ℕ) (s : Outbox) → publish c id s ≡ (ok tt, record s { taken = id ∷ s.taken })
  unfolding publish
  publish_done id s = let e = clean.publishes id in ground arith

  mark_done :
      (id : ℕ) (s : Outbox)
      → count_rows (is_open id) s.rows ≡ 1
      → mark_published c id s ≡ (ok tt, mark_rows c id s)
  unfolding mark_published
  mark_done id s h = let e = clean.marks id in ground arith

  -- Each event that is open once, in a list without repetitions, is marked.
  flush_events_drains :
      (events : List ℕ) (s : Outbox)
      → ((j : ℕ) → tally j events ≤ count_rows (is_open j) s.rows)
      → ((j : ℕ) → count_rows (is_open j) s.rows ≤ 1)
      → ((flush_events c events s).0 ≡ ok tt)
        × (backlog (flush_events c events s).1 + length events ≡ backlog s)
  unfolding flush_events backlog tally
  flush_events_drains [] s h k = (refl, omega arith)
  flush_events_drains (id ∷ events) s h k =
      let once : count_rows (is_open id) s.rows ≡ 1 =
        let a = h id in let b = k id in ground arith in
      let t : Outbox = mark_rows c id (record s { taken = id ∷ s.taken }) in
      let rest =
        flush_events_drains events t
          (λ j. elim (Bool-cases (j == id)) [
            | inl e ↦
                let a = h id in let b = k id in let m = count-marked id c.now s.rows in ground arith
            | inr e ↦ let a = h j in let m = count-marked_apart j id c.now s.rows e in ground arith
          ])
          (λ j. elim (Bool-cases (j == id)) [
            | inl e ↦ let m = count-marked id c.now s.rows in ground arith
            | inr e ↦ let a = k j in let m = count-marked_apart j id c.now s.rows e in ground arith
          ]) in
      let step : flush_events c (id ∷ events) s ≡ flush_events c events t =
        ap (λ (p : Result (Unit {0}) × Outbox). after_publish c id (flush_events c events) p.0 p.1)
          (publish_done id s)
        ∙ ap (proceed (flush_events c events))
            (mark_done id (record s { taken = id ∷ s.taken }) once) in
      (
        ap (λ (p : Result (Unit {0}) × Outbox). p.0) step ∙ rest.0,
        let b = backlog-marked id c.now s.rows in
            ap (λ (p : Result (Unit {0}) × Outbox). backlog p.1 + suc (length events)) step
            ∙ omega (arith, rest.1, b, once),
      )

  scan_all : (ids : List ℕ) → scan c.validates ids ≡ ok ids
  unfolding scan
  scan_all [] = refl
  scan_all (id ∷ ids) = let e = scan_all ids in let v = clean.valid id in ground arith

  claim_done :
      (s : Outbox) → claim_batch c s ≡ (ok (c.arrange (batch c.now s.rows)), lease_batch c s)
  unfolding claim_batch
  claim_done s =
      let e = scan_all (c.arrange (batch c.now s.rows)) in let k = clean.claims in ground arith

  count-lease_batch :
      (id : ℕ) (s : Outbox)
      → count_rows (is_open id) (lease_batch c s).rows ≡ count_rows (is_open id) s.rows
  count-lease_batch id s = count-update_rows (is_open id) _ (leased _) (λ r g. refl) s.rows

  backlog-lease_batch : (s : Outbox) → backlog (lease_batch c s) ≡ backlog s
  unfolding backlog
  backlog-lease_batch s =
      count-update_rows (λ r. not (is_published r)) _ (leased _) (λ r g. refl) s.rows

  length-batch :
      (s : Outbox)
      → length (c.arrange (batch c.now s.rows))
        ≡ min default_batch (count_rows (is_candidate c.now) s.rows)
  unfolding batch
  length-batch s =
      (clean.arranges (batch c.now s.rows)).0
      ∙ length-ids_of (take default_batch (candidates c.now s.rows))
      ∙ length-take default_batch (candidates c.now s.rows)
      ∙ ap (min default_batch) (length-candidates c.now s.rows)

  tally-batch :
      (j : ℕ) (s : Outbox)
      → tally j (c.arrange (batch c.now s.rows)) ≤ count_rows (is_open j) s.rows
  unfolding batch
  tally-batch j s =
      let a = (clean.arranges (batch c.now s.rows)).1 j in
      let b = tally-take j default_batch (candidates c.now s.rows) in
      let d = tally-candidates j c.now s.rows in omega (arith, a, b, d)

  -- A cycle without failures reports success and publishes a whole batch: as many rows as wait without
  -- a running lease, 25 at most, leave the backlog. The identifier is the table's key.
  pub flush_drains :
      (s : Outbox)
      → Keyed s.rows
      → ((flush c s).0 ≡ ok tt)
        × (backlog (flush c s).1 + min default_batch (count_rows (is_candidate c.now) s.rows)
            ≡ backlog s)
  unfolding flush
  flush_drains s key =
      let events : List ℕ = c.arrange (batch c.now s.rows) in
      let t : Outbox = lease_batch c s in
      let single : (j : ℕ) → count_rows (is_open j) t.rows ≤ 1 = λ j.
        let a = count_implied (is_open j) (has_id j) (λ r g. ground arith) s.rows in
        omega (arith, a, key j, count-lease_batch j s) in
      let waiting : (j : ℕ) → tally j events ≤ count_rows (is_open j) t.rows =
        λ j. let a = tally-batch j s in omega (arith, a, count-lease_batch j s) in
      let done = flush_events_drains events t waiting single in
      let step : flush c s ≡ flush_events c events t =
        ap
          (λ (b : Bool).
            if not b
            then (err (Error.plain "RabbitMQ publisher is disabled"), s)
            else after_claim c (claim_batch c s).0 (claim_batch c s).1)
          clean.publisher
        ∙ ap (λ (p : Result (List ℕ) × Outbox). after_claim c p.0 p.1) (claim_done s) in
      (
        ap (λ (p : Result (Unit {0}) × Outbox). p.0) step ∙ done.0,
        ap
              (λ (p : Result (Unit {0}) × Outbox).
                backlog p.1 + min default_batch (count_rows (is_candidate c.now) s.rows))
              step
            ∙ omega (arith, done.1, length-batch s, backlog-lease_batch s),
      )
