-- ===== src/Worker/Handle/Once.antt =====
-- services/consumer/internal/worker/worker.go: what a failed and what a repeated delivery leave.
use golang_basics.Base.{
  ℕ, zero, suc, ◌+◌, ◌≤◌, ◌<◌, ◌≡◌, ◌≢◌, refl, ap, ◌∙◌, inl, inr, Bool, true, false, Option, none,
  some, List, [], ◌∷◌, String, is_empty, eq_refl, take, length, if-P, Option-cases, Bool-cases,
  arith,
}
use golang_basics.Base.Int.{pos_part}
use golang_basics.Worker.Lru.{Lru, has, remove, contains, add}
use golang_basics.Worker.Lru.Recent.{IsLru, add-recent}
use golang_basics.Worker.Lru.Nearest.{IsNear, same-IsNear, contains-IsNear, add-IsNear, has-take}
use golang_basics.Worker.Handle.{
  TaskEvent, Delivery, HandleError, unknown_type, Worker, type_of, id_of, is_known, apply_event,
  skip_or_apply, is_duplicate, handle_event, handle_decoded, handle,
}

is_duplicate-new :
    (id : String) (l : Lru) → (is_duplicate id l).1 ≡ false → (is_duplicate id l).0 ≡ l
unfolding contains
is_duplicate-new id l h = ground arith

in_front :
    (id : String) (xs : List String) (n : ℕ) → 1 ≤ n → has (take 1 (take n (id ∷ xs))) id ≡ true
unfolding has
in_front id xs zero h = elim h [ ]
in_front id xs (suc n) h = ground (arith, eq_refl id)

remembered :
    (l : Lru) (id : String)
    → IsLru l
    → 1 ≤ pos_part l.size
    → has (take 1 (add l id).order) id ≡ true
remembered l id s h =
    let (r, e) = add-recent l id s h in
    ap (λ xs. has (take 1 xs) id) e ∙ in_front id (remove l.order id) (pos_part l.size) h

module _ {E : Type 0} where
  -- What a failure leaves.
  abbrev IsKept : Worker → Worker × Option (HandleError E) → Type 0
  IsKept w r =
      (r.1 ≢ none)
      → (r.0.seen ≡ w.seen) × (r.0.applied ≡ w.applied) × (r.0.duplicates ≡ w.duplicates)

  skip_or_apply-IsKept :
      (injected : Option E) (evt : TaskEvent) (t id : String) (r : Lru × Bool) (w : Worker)
      → (r.1 ≡ false → r.0 ≡ w.seen)
      → IsKept w (skip_or_apply injected evt t id r w)
  skip_or_apply-IsKept injected evt t id (seen, true) w same h = absurd (h refl)
  skip_or_apply-IsKept none evt t id (seen, false) w same h = absurd (h refl)
  skip_or_apply-IsKept (some e) evt t id (seen, false) w same h = (same refl, refl, refl)

  handle_decoded-IsKept :
      (o : Option TaskEvent) (d : Delivery E) (w : Worker) → IsKept w (handle_decoded o d w)
  handle_decoded-IsKept none d w h = (refl, refl, refl)
  handle_decoded-IsKept (some evt) d w h =
      let id = id_of evt d.id_header in
      let t = type_of evt d.type_header in
      elim (Bool-cases (is_known t)) [
        | inl k ↦
            (let g : (skip_or_apply d.injected evt t id (is_duplicate id w.seen) w).1 ≢ none =
                simp k at h in
              simp k (
                skip_or_apply-IsKept d.injected evt t id (is_duplicate id w.seen) w
                  (is_duplicate-new id w.seen) g))
        | inr k ↦ simp k (refl, refl, refl)
      ]

  -- A delivery that fails, because it does not decode, has an unknown type or meets the injected
  -- error, leaves the remembered ids, the applied events and the count of duplicates as they were,
  -- so that the retry is handled afresh.
  handle-failed :
      (d : Delivery E) (w : Worker)
      → (handle d w).1 ≢ none
      → ((handle d w).0.seen ≡ w.seen)
        × ((handle d w).0.applied ≡ w.applied)
        × ((handle d w).0.duplicates ≡ w.duplicates)
  unfolding handle
  handle-failed d w h = handle_decoded-IsKept d.decoded d w h

  skip_or_apply-remembers :
      (injected : Option E) (evt : TaskEvent) (t id : String) (w : Worker)
      → IsLru w.seen
      → 1 ≤ pos_part w.seen.size
      → is_empty id ≡ false
      → (skip_or_apply injected evt t id (is_duplicate id w.seen) w).1 ≡ none
      → has (take 1 (skip_or_apply injected evt t id (is_duplicate id w.seen) w).0.seen.order) id
        ≡ true
  unfolding contains has
  skip_or_apply-remembers injected evt t id w s h n g = elim (Bool-cases (has w.seen.items id)) [
    | inl k ↦ simp (n, k) (simp (eq_refl id) refl)
    | inr k ↦ simp (n, k) (applied-remembers injected (simp (n, k) at g))
  ]
    where
      applied-remembers :
          (o : Option E)
          → (apply_event o evt t id w).1 ≡ none
          → has (take 1 (apply_event o evt t id w).0.seen.order) id ≡ true
      applied-remembers (some e) g = ground arith
      applied-remembers none g = simp n (remembered w.seen id s h)

  handle_event-again :
      (injected : Option E) (evt : TaskEvent) (t id : String) (w : Worker)
      → is_known t ≡ true
      → is_empty id ≡ false
      → has w.seen.items id ≡ true
      → ((handle_event injected evt t id w).1 ≡ none)
        × ((handle_event injected evt t id w).0.applied ≡ w.applied)
        × ((handle_event injected evt t id w).0.duplicates ≡ w.duplicates + 1)
  unfolding contains
  handle_event-again injected evt t id w k n h = simp (k, n, h) (refl, refl, refl)

  handle_event-repeated :
      (injected : Option E) (evt : TaskEvent) (t id : String) (w : Worker)
      → is_empty id ≡ false
      → IsLru w.seen
      → 1 ≤ pos_part w.seen.size
      → (handle_event injected evt t id w).1 ≡ none
      → (is_known t ≡ true)
        × (has (take 1 (handle_event injected evt t id w).0.seen.order) id ≡ true)
  handle_event-repeated injected evt t id w n s h g = elim (Bool-cases (is_known t)) [
    | inr k ↦
        (let bad : ◌≡◌ {A = Option (HandleError E)} (some (unknown_type t)) none = simp k at g in
          ground (arith, bad))
    | inl k ↦
        (let g' : (skip_or_apply injected evt t id (is_duplicate id w.seen) w).1 ≡ none =
            simp k at g in
          (k, simp k (skip_or_apply-remembers injected evt t id w s h n g')))
  ]

  apply_event-IsNear :
      (injected : Option E) (evt : TaskEvent) (t id : String) (w : Worker)
      → IsLru w.seen
      → 1 ≤ pos_part w.seen.size
      → IsNear w.seen (apply_event injected evt t id w).0.seen
  apply_event-IsNear (some e) evt t id w s h = same-IsNear w.seen s
  apply_event-IsNear none evt t id w s h =
      if-P (IsNear w.seen) (is_empty id) w.seen (add w.seen id) (λ e. same-IsNear w.seen s)
        (λ e. add-IsNear w.seen id s h)

  -- A delivery pushes no remembered id back by more than one place.
  skip_or_apply-IsNear :
      (injected : Option E) (evt : TaskEvent) (t id : String) (w : Worker)
      → IsLru w.seen
      → 1 ≤ pos_part w.seen.size
      → IsNear w.seen (skip_or_apply injected evt t id (is_duplicate id w.seen) w).0.seen
  unfolding contains
  skip_or_apply-IsNear injected evt t id w s h = elim (Bool-cases (is_empty id)) [
    | inl e ↦ simp e (apply_event-IsNear injected evt t id w s h)
    | inr e ↦ elim (Bool-cases (has w.seen.items id)) [
      | inl k ↦ simp (e, k) (simp k at (contains-IsNear w.seen id s))
      | inr k ↦ simp (e, k) (apply_event-IsNear injected evt t id w s h)
    ]
  ]

  handle-IsNear :
      (d : Delivery E) (w : Worker)
      → IsLru w.seen
      → 1 ≤ pos_part w.seen.size
      → IsNear w.seen (handle d w).0.seen
  unfolding handle
  handle-IsNear d w s h = elim (Option-cases d.decoded) [
    | inl e ↦ simp e (same-IsNear w.seen s)
    | inr (evt, e) ↦ simp e (
        if-P {A = Worker × Option (HandleError E)} (λ r. IsNear w.seen r.0.seen)
          (is_known (type_of evt d.type_header)) _ _
          (λ k.
            skip_or_apply-IsNear d.injected evt (type_of evt d.type_header) (id_of evt d.id_header)
              w s h)
          (λ k. same-IsNear w.seen s))
  ]

  -- The worker after other deliveries, the first ones first.
  pub handle_all : List (Delivery E) → Worker → Worker
  handle_all [] w = w
  handle_all (d ∷ ds) w = handle_all ds (handle d w).0

  handle_all-near :
      (ds : List (Delivery E)) (w : Worker) (n : ℕ) (y : String)
      → IsLru w.seen
      → n + length ds ≤ pos_part w.seen.size
      → 1 ≤ n
      → has (take n w.seen.order) y ≡ true
      → has (handle_all ds w).seen.items y ≡ true
  unfolding handle_all
  handle_all-near [] w n y s h p g = s.0 y ∙ has-take n w.seen.order y g
  handle_all-near (d ∷ ds) w n y s h p g =
      let near = handle-IsNear d w s (omega (arith, h, p)) in
      let same : pos_part (handle d w).0.seen.size ≡ pos_part w.seen.size =
        ap pos_part near.sized in
      handle_all-near ds (handle d w).0 (suc n) y near.formed (omega (arith, h, same)) (omega arith)
        (near.moved n y (omega (arith, h)) g)

  handle-repeated_front :
      (evt : TaskEvent) (d : Delivery E) (w : Worker)
      → d.decoded ≡ some evt
      → is_empty (id_of evt d.id_header) ≡ false
      → IsLru w.seen
      → 1 ≤ pos_part w.seen.size
      → (handle d w).1 ≡ none
      → (is_known (type_of evt d.type_header) ≡ true)
        × (has (take 1 (handle d w).0.seen.order) (id_of evt d.id_header) ≡ true)
  unfolding handle
  handle-repeated_front evt d w de n s h g = simp de (
      handle_event-repeated d.injected evt (type_of evt d.type_header) (id_of evt d.id_header) w n s
        h (simp de at g))

  handle-again :
      (evt : TaskEvent) (d : Delivery E) (w : Worker)
      → d.decoded ≡ some evt
      → is_known (type_of evt d.type_header) ≡ true
      → is_empty (id_of evt d.id_header) ≡ false
      → has w.seen.items (id_of evt d.id_header) ≡ true
      → ((handle d w).1 ≡ none)
        × ((handle d w).0.applied ≡ w.applied)
        × ((handle d w).0.duplicates ≡ w.duplicates + 1)
  unfolding handle
  handle-again evt d w de k n h = simp de (
      handle_event-again d.injected evt (type_of evt d.type_header) (id_of evt d.id_header) w k n h)

  -- A delivery that decodes, has an id and was handled without an error, by a worker whose set of ids
  -- is well-formed and has room for one: when it comes again at once, it is acknowledged as a
  -- duplicate and applied no second time.

  -- A delivery that decodes, has an id and was handled without an error, by a worker whose set of ids
  -- is well-formed: when it comes again after fewer other deliveries than the set has room for,
  -- whatever comes of those, it is acknowledged as a duplicate and applied no second time.
  pub handle-repeated :
      (evt : TaskEvent) (d : Delivery E) (w : Worker) (ds : List (Delivery E))
      → d.decoded ≡ some evt
      → is_empty (id_of evt d.id_header) ≡ false
      → IsLru w.seen
      → length ds < pos_part w.seen.size
      → (handle d w).1 ≡ none
      → let w' = handle_all ds (handle d w).0 in
        ((handle d w').1 ≡ none)
        × ((handle d w').0.applied ≡ w'.applied)
        × ((handle d w').0.duplicates ≡ w'.duplicates + 1)
  handle-repeated evt d w ds de n s h g =
      let w1 = (handle d w).0 in
      let near = handle-IsNear d w s (omega (arith, h)) in
      let same : pos_part w1.seen.size ≡ pos_part w.seen.size = ap pos_part near.sized in
      let (k, front) = handle-repeated_front evt d w de n s (omega (arith, h)) g in
      handle-again evt d (handle_all ds w1) de k n (
        handle_all-near ds w1 1 (id_of evt d.id_header) near.formed (omega (arith, h, same))
          (omega arith) front)
