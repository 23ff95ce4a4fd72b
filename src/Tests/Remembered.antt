-- ===== src/Tests/Remembered.antt =====
-- services/consumer/internal/worker: events delivered, repeated and forgotten.
use golang_basics.Base.{ℕ, ◌+◌, ◌≡◌, ◌≢◌, refl, none, some, [], ◌∷◌, arith}
use golang_basics.Base.Int.{pos}
use golang_basics.Worker.Lru.{Lru, has, all_but_back, contains, add}
use golang_basics.Worker.Lru.Recent.{distinct, IsLru}
use golang_basics.Worker.Handle.{TaskEvent, Delivery, Worker, handle}
use golang_basics.Worker.Handle.Once.{handle_all, handle-repeated}

abbrev two_ids : Lru
two_ids = record { size = pos 2; order = "b" ∷ "a" ∷ []; items = "a" ∷ "b" ∷ [] }

two_ids-IsLru : IsLru two_ids
unfolding has distinct
two_ids-IsLru = (λ id. ground arith, refl, omega arith)

add_test : (add two_ids "c").order ≡ "c" ∷ "b" ∷ []
unfolding add has all_but_back
add_test = refl

abbrev event : TaskEvent
event = record {
  event_id = "e1";
  event_type = "task.updated";
  id = "";
  task_id = "t1";
  task = none;
}

abbrev delivery : Delivery ℕ
delivery = record { decoded = some event; type_header = none; id_header = none; injected = none }

abbrev broken_delivery : Delivery ℕ
broken_delivery = record { decoded = none; type_header = none; id_header = none; injected = none }

abbrev worker : Worker
worker = record { seen = two_ids; duplicates = 0; rejected = 0; applied = [] }

broken-fails : (handle broken_delivery worker).1 ≢ none
unfolding handle
broken-fails = ground arith

delivery-applied : (handle delivery worker).1 ≡ none
unfolding handle contains has
delivery-applied = refl

abbrev between : Worker
between = handle_all (broken_delivery ∷ []) (handle delivery worker).0

handle-repeated_example :
    ((handle delivery between).1 ≡ none)
    × ((handle delivery between).0.applied ≡ between.applied)
    × ((handle delivery between).0.duplicates ≡ between.duplicates + 1)
handle-repeated_example =
    handle-repeated event delivery worker (broken_delivery ∷ []) refl refl two_ids-IsLru
      (omega arith) delivery-applied
