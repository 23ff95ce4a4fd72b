-- ===== src/Outbox/Relay.antt =====
-- services/tasks/internal/outbox/relay.go: one pass over the table of events, and the wait after it.
pub mod Keeps
pub mod Order
use golang_basics.Base.{
  ℕ, zero, suc, ◌+◌, ◌-◌, ◌*◌, ◌/◌, ◌%◌, ◌^◌, min, Bool, true, false, ◌&&◌, ◌||◌, not, Option, none,
  some, List, [], ◌∷◌, ◌++◌, length, take, ltb, leb, ◌==◌, if◌then◌else◌,
}
use golang_basics.Base.Int.{ℤ, pos, pos_part, leb_ℤ}
use golang_basics.Resilient.Config.{second}
use golang_basics.Kafka.Processing as Processing
use golang_basics.Tasks.Store.{Commit, committed, refused, lost}

pub record Config : Type 0 where
  pub poll_interval : ℤ
  pub batch_size : ℤ
  pub max_backoff : ℤ
  pub max_attempts : ℤ
  pub reject_backoff : ℤ

abbrev pub max_reject_delay : ℕ
max_reject_delay = 3600 * second

abbrev or_default : ℤ → ℕ → ℤ
or_default z n = if leb_ℤ z (pos 0) then pos n else z

unfoldable pub with_defaults : Config → Config
with_defaults c = record {
  poll_interval = or_default c.poll_interval second;
  batch_size = or_default c.batch_size 100;
  max_backoff = or_default c.max_backoff (30 * second);
  max_attempts = or_default c.max_attempts 10;
  reject_backoff = or_default c.reject_backoff second;
}

-- A row of the table; the other columns are its event.
pub record Row (E : Type 0) : Type 0 where
  pub id : ℕ
  pub rejections : ℕ
  pub next_attempt_at : Option ℕ
  pub last_error : Option (List ℕ)
  pub event : E

-- `kafka.Rejected` tells an error of the record from an outage.
pub data Outcome : Type 0 where
  acknowledged rejected outage : Outcome

-- What happens to a row when its turn comes: whether `ctx` is done, how the publish ends and with
-- which text (cut as `truncate` cuts it), and whether the UPDATE that records a failure succeeds.
pub record Turn : Type 0 where
  pub ctx_done : Bool
  pub outcome : Outcome
  pub text : List ℕ
  pub update_ok : Bool

pub data RelayError : Type 0 where
  no_begin no_lock no_batch no_update not_published no_delete no_commit : RelayError

-- The loop's variables, with the ids it published or tried to, in order.
pub record Pass (E : Type 0) : Type 0 where
  pub table : List (Row E)
  pub done : List ℕ
  pub tried : List ℕ
  pub taken : ℕ
  pub failure : Option RelayError

abbrev pub is_past : Option ℕ → ℕ → Bool
is_past none now = true
is_past (some t) now = leb t now

unfoldable pub has_id : List ℕ → ℕ → Bool
has_id [] i = false
has_id (j ∷ js) i = if j == i then true else has_id js i

module _ {E : Type 0} where
  -- The WHERE clause of the batch, and the batch of a table that is ordered by id.
  abbrev pub is_due : Config → ℕ → Row E → Bool
  is_due cfg now r = ltb r.rejections (pos_part cfg.max_attempts) && is_past r.next_attempt_at now

  unfoldable pub due_rows : Config → ℕ → List (Row E) → List (Row E)
  due_rows cfg now [] = []
  due_rows cfg now (r ∷ rs) =
      let rest = due_rows cfg now rs in if is_due cfg now r then r ∷ rest else rest

  unfoldable pub select_batch : Config → ℕ → List (Row E) → List (Row E)
  select_batch cfg now rs = take (pos_part cfg.batch_size) (due_rows cfg now rs)

  -- UPDATE outbox SET … WHERE id = i
  unfoldable pub update_row : ℕ → (Row E → Row E) → List (Row E) → List (Row E)
  update_row i f [] = []
  update_row i f (r ∷ rs) = (if r.id == i then f r else r) ∷ update_row i f rs

  -- DELETE FROM outbox WHERE id = ANY(done)
  unfoldable pub delete_rows : List ℕ → List (Row E) → List (Row E)
  delete_rows done [] = []
  delete_rows done (r ∷ rs) =
      let rest = delete_rows done rs in if has_id done r.id then rest else r ∷ rest

  abbrev pub reject_row : Config → ℕ → List ℕ → Row E → Row E
  reject_row cfg now text r = record r {
    rejections = r.rejections + 1;
    last_error = some (text);
    next_attempt_at =
        some (now + min (pos_part cfg.reject_backoff * 2 ^ r.rejections) max_reject_delay);
  }

  abbrev pub fail_row : List ℕ → Row E → Row E
  fail_row text r = record r { last_error = some (text) }

  abbrev pub published : ℕ → Pass E → Pass E
  published i p = record p {
    done = p.done ++ (i ∷ []);
    tried = p.tried ++ (i ∷ []);
    taken = p.taken + 1;
  }

  abbrev pub rejects : Config → ℕ → Turn → ℕ → Pass E → Pass E
  rejects cfg now t i p = record p {
    table = if t.update_ok then update_row i (reject_row cfg now t.text) p.table else p.table;
    tried = p.tried ++ (i ∷ []);
    taken = p.taken + 1;
    failure = if t.update_ok then p.failure else some no_update;
  }

  abbrev pub breaks : Turn → ℕ → Pass E → Pass E
  breaks t i p = record p {
    table = if t.update_ok then update_row i (fail_row t.text) p.table else p.table;
    tried = p.tried ++ (i ∷ []);
    failure = some not_published;
  }

  -- `on` is the rest of the loop after an acknowledged row, `aside` after a rejected one.
  abbrev pub after_publish : Outcome → Config → ℕ → Turn → ℕ → Pass E → Pass E → Pass E → Pass E
  after_publish acknowledged cfg now t i p on aside = on
  after_publish rejected cfg now t i p on aside =
      if t.update_ok then aside else rejects cfg now t i p
  after_publish outage cfg now t i p on aside = breaks t i p

  unfoldable pub relay_batch : Config → ℕ → (ℕ → Turn) → List (Row E) → Pass E → Pass E
  relay_batch cfg now turns [] p = p
  relay_batch cfg now turns (x ∷ xs) p =
      let t = turns x.id in
      let on = relay_batch cfg now turns xs (published x.id p) in
      let aside = relay_batch cfg now turns xs (rejects cfg now t x.id p) in
      if t.ctx_done then p else after_publish t.outcome cfg now t x.id p on aside

-- What the database answers to the statements of a pass; `lock` is `none` where the query fails.
pub record Database : Type 0 where
  pub begin_ok : Bool
  pub lock : Option Bool
  pub select_ok : Bool
  pub delete_ok : Bool
  pub commit : Commit

pub record Relayed : Type 0 where
  pub sent : ℕ
  pub taken : ℕ
  pub failure : Option RelayError

abbrev pub fails_with : RelayError → Relayed
fails_with e = record { sent = 0; taken = 0; failure = some e }

abbrev pub nothing : Relayed
nothing = record { sent = 0; taken = 0; failure = none }

module _ {E : Type 0} where
  -- A commit whose answer is lost has taken effect.
  abbrev pub end_commit : Commit → List (Row E) → List (Row E) → Relayed → List (Row E) × Relayed
  end_commit committed before after r = (after, r)
  end_commit refused before after r = (before, fails_with no_commit)
  end_commit lost before after r = (after, fails_with no_commit)

  -- The end of a pass: the transaction's table takes effect with its commit only.
  abbrev pub finish_pass : Database → List (Row E) → Pass E → List (Row E) × Relayed
  finish_pass db before p =
      if not (length p.done == 0) && not db.delete_ok
      then (before, fails_with no_delete)
      else end_commit db.commit before (delete_rows p.done p.table)
          (record { sent = length p.done; taken = p.taken; failure = p.failure })

  abbrev pub with_lock :
      Option Bool → Config → ℕ → Database → (ℕ → Turn) → List (Row E) → List (Row E) × Relayed
  with_lock none cfg now db turns rows = (rows, fails_with no_lock)
  with_lock (some false) cfg now db turns rows = (rows, nothing)
  with_lock (some true) cfg now db turns rows =
      let start : Pass E = record {
        table = rows;
        done = [];
        tried = [];
        taken = 0;
        failure = none;
      } in
      let batch = select_batch cfg now rows in
      if not db.select_ok
      then (rows, fails_with no_batch)
      else if length batch == 0
      then (rows, nothing)
      else finish_pass db rows (relay_batch cfg now turns batch start)

  -- A pass of a relay that has a publisher.
  unfoldable pub relay_once :
      Config → ℕ → Database → (ℕ → Turn) → List (Row E) → List (Row E) × Relayed
  relay_once cfg now db turns rows =
      if not db.begin_ok
      then (rows, fails_with no_begin)
      else with_lock db.lock cfg now db turns rows

-- interval·2^(n-1) capped and halved at random, as the consumer's backoff of its retry n - 1.
unfoldable pub backoff : (ℕ → ℕ) → ℕ → ℕ → ℕ → ℕ
backoff rand n interval max_delay = Processing.backoff rand (n - 1) interval max_delay

abbrev pub wait_after : Option RelayError → Config → (ℕ → ℕ) → ℕ → ℕ → ℕ × ℕ
wait_after (some e) cfg rand failures taken = (
  failures + 1,
  backoff rand (failures + 1) (pos_part cfg.poll_interval) (pos_part cfg.max_backoff),
)
wait_after none cfg rand failures taken =
    if taken == pos_part cfg.batch_size then (0, 0) else (0, pos_part cfg.poll_interval)

-- The failures in a row and the wait, after a pass of `Run`.
unfoldable pub after_pass : Config → (ℕ → ℕ) → ℕ → Relayed → ℕ × ℕ
after_pass cfg rand failures r = wait_after r.failure cfg rand failures r.taken
