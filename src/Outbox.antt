-- ===== src/Outbox.antt =====
-- backend/internal/platform/outbox/outbox.go: committed events wait in a table until the broker has
-- confirmed them. The broker, the connection and the clock are an environment of each cycle; what a
-- process that dies leaves behind is what the cycle leaves that fails at its next call.
pub mod Counts
pub mod Delivery
pub mod Drain
use banking_go.Prelude.{
  ℕ, ◌+◌, ◌*◌, Bool, true, false, not, ◌&&◌, ◌||◌, ◌==◌, ltb, Option, none, some, List, [], ◌∷◌,
  take, Text, codes, if◌then◌else◌,
}
use banking_go.Errors.{Result, ok, err, Error}

-- The columns that the publisher reads or writes. The stored envelope is known by its identifier.
pub record OutboxRow : Type 0 where
  pub event_id : ℕ
  pub created_at : ℕ
  pub published_at : Option ℕ
  pub lease_until : Option ℕ
  pub publish_attempts : ℕ
  pub last_error : Text

-- The table, and the events that the broker has taken, the last first.
pub record Outbox : Type 0 where
  pub rows : List OutboxRow
  pub taken : List ℕ

-- A call that succeeds, fails, or takes effect and is reported as failed.
pub data Call : Type 0 where
  done failed lost : Call

-- What follows a call that failed, was lost, or was done.
abbrev pub by_call {ℓ} : {A : Type ℓ} → Call → A → A → A → A
by_call failed x y z = x
by_call lost x y z = y
by_call done x y z = z

pub by_call_all {ℓ κ} :
    {A : Type ℓ} (P : A → Type κ) (c : Call) (x y z : A) → P x → P y → P z → P (by_call c x y z)
by_call_all P failed x y z h k l = h
by_call_all P lost x y z h k l = k
by_call_all P done x y z h k l = l

pub record Cycle : Type 0 where
  pub now : ℕ
  -- `Publisher.Enabled`
  pub enabled : Bool
  pub claim : Call
  -- the order in which `UPDATE … RETURNING` gives its rows, which SQL leaves open
  pub arrange : List ℕ → List ℕ
  -- `EventEnvelope.Validate` on what is stored under an identifier
  pub validates : ℕ → Bool
  pub publish : ℕ → Call
  pub mark : ℕ → Call
  pub release : ℕ → Call

abbrev pub default_batch : ℕ
default_batch = 25

-- Microseconds.
abbrev pub default_lease : ℕ
default_lease = 30_000_000

abbrev pub is_published : OutboxRow → Bool
is_published r = elim r.published_at [ none ↦ false | some _ ↦ true ]

abbrev pub lease_expired : ℕ → Option ℕ → Bool
lease_expired now none = true
lease_expired now (some lease_until) = ltb lease_until now

-- WHERE published_at IS NULL AND (lease_until IS NULL OR lease_until < CURRENT_TIMESTAMP)
unfoldable pub is_candidate : ℕ → OutboxRow → Bool
is_candidate now r = not (is_published r) && lease_expired now r.lease_until

-- ORDER BY created_at, id
abbrev pub row_before : OutboxRow → OutboxRow → Bool
row_before a b =
    ltb a.created_at b.created_at || (a.created_at == b.created_at && ltb a.event_id b.event_id)

unfoldable pub insert_candidate : OutboxRow → List OutboxRow → List OutboxRow
insert_candidate r [] = r ∷ []
insert_candidate r (s ∷ rest) =
    let later = s ∷ insert_candidate r rest in if row_before s r then later else r ∷ s ∷ rest

unfoldable pub candidates : ℕ → List OutboxRow → List OutboxRow
candidates now [] = []
candidates now (r ∷ rows) =
    let rest = candidates now rows in if is_candidate now r then insert_candidate r rest else rest

unfoldable pub ids_of : List OutboxRow → List ℕ
ids_of [] = []
ids_of (r ∷ rows) = r.event_id ∷ ids_of rows

unfoldable pub contains : ℕ → List ℕ → Bool
contains id [] = false
contains id (x ∷ xs) = id == x || contains id xs

unfoldable pub update_rows :
    (OutboxRow → Bool) → (OutboxRow → OutboxRow) → List OutboxRow → List OutboxRow
update_rows guard change [] = []
update_rows guard change (r ∷ rows) =
    (if guard r then change r else r) ∷ update_rows guard change rows

unfoldable pub count_rows : (OutboxRow → Bool) → List OutboxRow → ℕ
count_rows guard [] = 0
count_rows guard (r ∷ rows) = (if guard r then 1 else 0) + count_rows guard rows

abbrev pub has_id : ℕ → OutboxRow → Bool
has_id id r = id == r.event_id

abbrev pub new_row : Cycle → ℕ → OutboxRow
new_row c id = record {
  event_id = id;
  created_at = c.now;
  published_at = none;
  lease_until = none;
  publish_attempts = 0;
  last_error = [];
}

-- `Writer.Enqueue` in a transaction that commits; the insert fails with `failed`, and on a taken key.
unfoldable pub enqueue : Cycle → Call → ℕ → Outbox → Result (Unit {0}) × Outbox
enqueue c insert id s =
    if not (c.validates id)
    then (err (Error.plain "validate outbox event"), s)
    else if contains id (ids_of s.rows)
    then (err (Error.plain "insert outbox event"), s)
    else (by_call insert (err (Error.plain "insert outbox event"), s)
        (err (Error.plain "insert outbox event"), s)
        (ok tt, record s { rows = new_row c id ∷ s.rows }))

-- SELECT count(*) … WHERE published_at IS NULL
unfoldable pub backlog : Outbox → ℕ
backlog s = count_rows (λ r. not (is_published r)) s.rows

abbrev pub leased : ℕ → OutboxRow → OutboxRow
leased until r = record r {
  lease_until = some until;
  publish_attempts = r.publish_attempts + 1;
  last_error = [];
}

unfoldable pub batch : ℕ → List OutboxRow → List ℕ
batch now rows = ids_of (take default_batch (candidates now rows))

abbrev pub lease_batch : Cycle → Outbox → Outbox
lease_batch c s = record s {
  rows =
      update_rows (λ r. contains r.event_id (batch c.now s.rows)) (leased (c.now + default_lease))
        s.rows;
}

-- The loop over the returned rows.
unfoldable pub scan : (ℕ → Bool) → List ℕ → Result (List ℕ)
scan validates [] = ok []
scan validates (id ∷ ids) =
    let rest = scan validates ids in
    if validates id
    then (elim rest [ ok scanned ↦ ok (id ∷ scanned) | err e ↦ err e ])
    else err (Error.plain "stored outbox event is invalid")

unfoldable pub claim_batch : Cycle → Outbox → Result (List ℕ) × Outbox
claim_batch c s =
    by_call c.claim (err (Error.plain "claim outbox events"), s)
      (err (Error.plain "claim outbox events"), lease_batch c s)
      (scan c.validates (c.arrange (batch c.now s.rows)), lease_batch c s)

-- WHERE id = $1 AND published_at IS NULL
abbrev pub is_open : ℕ → OutboxRow → Bool
is_open id r = id == r.event_id && not (is_published r)

abbrev pub marked : ℕ → OutboxRow → OutboxRow
marked now r = record r { published_at = some now; lease_until = none; last_error = [] }

abbrev pub mark_rows : Cycle → ℕ → Outbox → Outbox
mark_rows c id s = record s { rows = update_rows (is_open id) (marked c.now) s.rows }

unfoldable pub mark_published : Cycle → ℕ → Outbox → Result (Unit {0}) × Outbox
mark_published c id s =
    by_call (c.mark id) (err (Error.plain "mark outbox event published"), s)
      (err (Error.plain "mark outbox event published"), mark_rows c id s)
      (
        if count_rows (is_open id) s.rows == 1
            then ok tt
            else err (Error.plain "outbox event was not publishable"),
        mark_rows c id s,
      )

abbrev pub released : ℕ → OutboxRow → OutboxRow
released until r = record r { lease_until = some until; last_error = codes "broker publish failed" }

abbrev pub release_rows : Cycle → ℕ → Outbox → Outbox
release_rows c id s = record s {
  rows = update_rows (is_open id) (released (c.now + 1_000_000)) s.rows;
}

unfoldable pub release : Cycle → ℕ → Outbox → Result (Unit {0}) × Outbox
release c id s =
    by_call (c.release id) (err (Error.plain "release outbox event"), s)
      (err (Error.plain "release outbox event"), release_rows c id s) (ok tt, release_rows c id s)

-- The broker takes the event of a call that was lost as well.
unfoldable pub publish : Cycle → ℕ → Outbox → Result (Unit {0}) × Outbox
publish c id s =
    by_call (c.publish id) (err (Error.plain "publish"), s)
      (err (Error.plain "publish"), record s { taken = id ∷ s.taken })
      (ok tt, record s { taken = id ∷ s.taken })

-- What `Flush` returns once a publish has failed.
abbrev pub after_release : Result (Unit {0}) × Outbox → Result (Unit {0}) × Outbox
after_release (err e, s) = (err e, s)
after_release (ok _, s) = (err (Error.plain "publish outbox event"), s)

-- The loop goes on, or returns the error.
abbrev pub proceed :
    (Outbox → Result (Unit {0}) × Outbox) → Result (Unit {0}) × Outbox → Result (Unit {0}) × Outbox
proceed rest (ok _, s) = rest s
proceed rest (err e, s) = (err e, s)

-- The rest of a round, once the event is published or not; `rest` is the next round.
abbrev pub after_publish :
    Cycle
    → ℕ
    → (Outbox → Result (Unit {0}) × Outbox)
    → Result (Unit {0})
    → Outbox
    → Result (Unit {0}) × Outbox
after_publish c id rest (err _) s = after_release (release c id s)
after_publish c id rest (ok _) s = proceed rest (mark_published c id s)

unfoldable pub flush_events : Cycle → List ℕ → Outbox → Result (Unit {0}) × Outbox
flush_events c [] s = (ok tt, s)
flush_events c (id ∷ events) s =
    let (r, t) = publish c id s in after_publish c id (flush_events c events) r t

abbrev pub after_claim : Cycle → Result (List ℕ) → Outbox → Result (Unit {0}) × Outbox
after_claim c (ok events) s = flush_events c events s
after_claim c (err e) s = (err e, s)

unfoldable pub flush : Cycle → Outbox → Result (Unit {0}) × Outbox
flush c s =
    if not c.enabled
    then (err (Error.plain "RabbitMQ publisher is disabled"), s)
    else let (r, t) = claim_batch c s in after_claim c r t
