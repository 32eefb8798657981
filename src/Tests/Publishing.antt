-- ===== src/Tests/Publishing.antt =====
-- Cycles of the outbox publisher, one without failures and one whose acknowledgement is lost.
use banking_go.Prelude.{ℕ, ◌+◌, ◌≡◌, refl, true, min, none, [], ◌∷◌, arith}
use banking_go.Errors.{ok}
use banking_go.Outbox.{
  OutboxRow, Outbox, Cycle, done, lost, flush, enqueue, backlog, count_rows, is_candidate,
  default_batch, contains, ids_of, flush_events, claim_batch, batch, candidates, insert_candidate,
  scan, publish, mark_published, update_rows,
}
use banking_go.Outbox.Delivery.{Safe, start, enqueued, flushed, outbox_history-Safe}
use banking_go.Outbox.Drain.{Clean, Keyed, flush_drains}

abbrev calm : Cycle
calm = record {
  now = 100_000_000;
  enabled = true;
  claim = done;
  arrange = λ ids. ids;
  validates = λ id. true;
  publish = λ id. done;
  mark = λ id. done;
  release = λ id. done;
}

calm-Clean : Clean calm
calm-Clean = record {
  publisher = refl;
  claims = refl;
  arranges = λ ids. (refl, λ id. refl);
  valid = λ id. refl;
  publishes = λ id. refl;
  marks = λ id. refl;
}

-- The broker has confirmed, but the table does not say so.
abbrev interrupted : Cycle
interrupted = record calm { mark = λ id. lost }

abbrev waiting_row : ℕ → ℕ → OutboxRow
waiting_row id created = record {
  event_id = id;
  created_at = created;
  published_at = none;
  lease_until = none;
  publish_attempts = 0;
  last_error = [];
}

abbrev two_waiting : Outbox
two_waiting = record { rows = waiting_row 4 20 ∷ waiting_row 9 10 ∷ []; taken = [] }

two_waiting-Keyed : Keyed two_waiting.rows
unfolding count_rows
two_waiting-Keyed id = ground arith

-- The older event is published first.
two_taken : (flush calm two_waiting).1.taken ≡ 4 ∷ 9 ∷ []
unfolding flush flush_events claim_batch batch candidates insert_candidate is_candidate scan publish
    mark_published update_rows ids_of contains count_rows
two_taken = refl

flush_drains_example :
    ((flush calm two_waiting).0 ≡ ok tt)
    × (backlog (flush calm two_waiting).1
          + min default_batch (count_rows (is_candidate 100_000_000) two_waiting.rows)
        ≡ backlog two_waiting)
flush_drains_example = flush_drains calm calm-Clean two_waiting two_waiting-Keyed

outbox_history-Safe_example :
    Safe two_waiting (flush calm (flush interrupted (enqueue calm done 5 two_waiting).1).1).1
outbox_history-Safe_example =
    outbox_history-Safe two_waiting _
      (flushed calm (flushed interrupted (enqueued calm done 5 start)))
