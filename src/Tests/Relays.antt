-- ===== src/Tests/Relays.antt =====
-- services/tasks/internal/outbox: a pass over three rows, one of them refused, one met by an outage.
use golang_basics.Base.{
  ℕ, ◌*◌, ◌==◌, ◌≡◌, refl, inl, inr, true, false, none, some, List, [], ◌∷◌, if◌then◌else◌,
}
use golang_basics.Base.Int.{pos}
use golang_basics.Tasks.Store.{committed}
use golang_basics.Outbox.Relay.{
  Config, Row, acknowledged, rejected, outage, Turn, not_published, Pass, Database, select_batch,
  relay_batch, relay_once, due_rows, update_row, delete_rows, has_id,
}
use golang_basics.Outbox.Relay.Keeps.{IsSent, relay_once-keeps}
use golang_basics.Outbox.Relay.Order.{IsReadyPrefix, sent_prefix, relay_batch-order}

abbrev cfg : Config
cfg = record {
  poll_interval = pos 1000;
  batch_size = pos 100;
  max_backoff = pos 30000;
  max_attempts = pos 10;
  reject_backoff = pos 1000;
}

abbrev row : ℕ → Row ℕ
row i = record { id = i; rejections = 0; next_attempt_at = none; last_error = none; event = i * 7 }

abbrev rows : List (Row ℕ)
rows = row 1 ∷ row 2 ∷ row 3 ∷ row 4 ∷ []

abbrev turns : ℕ → Turn
turns i = record {
  ctx_done = false;
  outcome = if i == 1 then acknowledged else if i == 2 then rejected else outage;
  text = [];
  update_ok = true;
}

abbrev healthy : Database
healthy = record {
  begin_ok = true;
  lock = some true;
  select_ok = true;
  delete_ok = true;
  commit = committed;
}

relay_once_test :
    (relay_once cfg 50 healthy turns rows).1
    ≡ record { sent = 1; taken = 2; failure = some not_published }
unfolding relay_once select_batch due_rows relay_batch update_row delete_rows has_id
relay_once_test = refl

relay_once-keeps_example : IsSent turns (relay_once cfg 50 healthy turns rows).0 (row 2)
relay_once-keeps_example = relay_once-keeps turns cfg 50 healthy rows (row 2) (inr (inl refl))

abbrev start : Pass ℕ
start = record { table = rows; done = []; tried = []; taken = 0; failure = none }

relay_batch-order_example :
    ((relay_batch cfg 50 turns (select_batch cfg 50 rows) start).tried
      ≡ sent_prefix turns (select_batch cfg 50 rows))
    × IsReadyPrefix cfg 50 100 rows (select_batch cfg 50 rows)
relay_batch-order_example = relay_batch-order turns cfg 50 rows start refl
