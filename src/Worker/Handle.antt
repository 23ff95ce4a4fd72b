-- ===== src/Worker/Handle.antt =====
-- services/consumer/internal/worker/worker.go: one event, applied at most once while it is remembered.
pub mod Once
use golang_basics.Base.{
  ℕ, suc, ◌+◌, Bool, true, false, ◌||◌, ◌&&◌, not, Option, none, some, List, [], ◌∷◌, String,
  str_eq, is_empty, if◌then◌else◌,
}
use golang_basics.Base.Int.{ℤ, pos, leb_ℤ}
use golang_basics.Worker.Lru.{Lru, new_lru, contains, add}

abbrev pub task_created : String
task_created = "task.created"

abbrev pub task_updated : String
task_updated = "task.updated"

abbrev pub task_deleted : String
task_deleted = "task.deleted"

abbrev pub default_dedupe_size : ℤ
default_dedupe_size = pos 10000

-- The fields of a decoded event, a missing one being empty.
pub record TaskEvent : Type 0 where
  pub event_id : String
  pub event_type : String
  pub id : String
  pub task_id : String
  pub task : Option String

abbrev pub of_task : Option String → String
of_task none = ""
of_task (some id) = id

unfoldable pub task_id : TaskEvent → String
task_id e =
    if not (is_empty e.id)
    then e.id
    else if not (is_empty e.task_id)
    then e.task_id
    else of_task e.task

-- What a delivery brings: the decoded payload (`none` where it does not decode), its two headers as
-- texts, and the error of `inject`, where there is one.
pub record Delivery (E : Type 0) : Type 0 where
  pub decoded : Option TaskEvent
  pub type_header : Option String
  pub id_header : Option String
  pub injected : Option E

pub data HandleError (E : Type 0) : Type 0 where
  undecodable : HandleError E
  unknown_type : String → HandleError E
  inject_error : E → HandleError E

-- `applied` are the events counted by type and logged, the last ones first.
pub record Applied : Type 0 where
  pub event_type : String
  pub event_id : String
  pub task_id : String

pub record Worker : Type 0 where
  pub seen : Lru
  pub duplicates : ℕ
  pub rejected : ℕ
  pub applied : List Applied

unfoldable pub new_worker : ℤ → Worker
new_worker dedupe_size = record {
  seen = new_lru (if leb_ℤ dedupe_size (pos 0) then default_dedupe_size else dedupe_size);
  duplicates = 0;
  rejected = 0;
  applied = [];
}

abbrev pub or_text : Option String → String → String
or_text none t = t
or_text (some h) t = h

abbrev pub type_of : TaskEvent → Option String → String
type_of e header = let t = or_text header e.event_type in if is_empty t then task_created else t

abbrev pub id_of : TaskEvent → Option String → String
id_of e header = let id = or_text header "" in if is_empty id then e.event_id else id

abbrev pub is_known : String → Bool
is_known t = str_eq t task_created || str_eq t task_updated || str_eq t task_deleted

abbrev pub remember : String → Lru → Lru
remember id seen = if is_empty id then seen else add seen id

-- `eventID != "" && w.seen.contains(eventID)`
abbrev pub is_duplicate : String → Lru → Lru × Bool
is_duplicate id seen = if is_empty id then (seen, false) else contains seen id

module _ {E : Type 0} where
  -- The part of `Handle` after the duplicate check.
  abbrev pub apply_event :
      Option E → TaskEvent → String → String → Worker → Worker × Option (HandleError E)
  apply_event (some e) evt t id w = (w, some (inject_error e))
  apply_event none evt t id w = (
    record w {
      seen = remember id w.seen;
      applied = record { event_type = t; event_id = id; task_id = task_id evt } ∷ w.applied;
    },
    none,
  )

  abbrev pub skip_or_apply :
      Option E → TaskEvent → String → String → Lru × Bool → Worker → Worker × Option (HandleError E)
  skip_or_apply injected evt t id (seen, true) w =
      (record w { seen = seen; duplicates = w.duplicates + 1 }, none)
  skip_or_apply injected evt t id (seen, false) w =
      apply_event injected evt t id (record w { seen = seen })

  abbrev pub handle_event :
      Option E → TaskEvent → String → String → Worker → Worker × Option (HandleError E)
  handle_event injected evt t id w =
      if is_known t
      then skip_or_apply injected evt t id (is_duplicate id w.seen) w
      else (record w { rejected = w.rejected + 1 }, some (unknown_type t))

  abbrev pub handle_decoded :
      Option TaskEvent → Delivery E → Worker → Worker × Option (HandleError E)
  handle_decoded none d w = (record w { rejected = w.rejected + 1 }, some undecodable)
  handle_decoded (some evt) d w =
      handle_event d.injected evt (type_of evt d.type_header) (id_of evt d.id_header) w

  unfoldable pub handle : Delivery E → Worker → Worker × Option (HandleError E)
  handle d w = handle_decoded d.decoded d w
