-- ===== src/Rdkafka/Poll/Survivors.antt =====
-- libs/kafka-rdkafka/rdkafka.go: which of the records that arrive are returned.
use mathlib.Core.List.{append_assoc, append-nil}
use golang_basics.Base.{
  ℕ, ◌+◌, ◌≤◌, ◌≡◌, ◌≢◌, refl, ap, sym, subst, ◌∙◌, ◌⊎◌, inl, inr, true, false, List, [], ◌∷◌, ◌++◌,
  length, ltb, All, Bool-cases, if◌then◌else◌, arith,
}
use golang_basics.Kafka.Partitions.{TopicPartition, contains_partition, Mark}
use golang_basics.Rdkafka.Poll.Dropping.{
  drop_gone-nil, kept_lem, drop_gone-append, drop_gone-drop_gone, drop_gone-none,
}
use golang_basics.Rdkafka.Poll.{
  Event, nothing, message, partition_error, statistics, client_error, fatal_error, Round, records,
  drop_gone, kept, is_none, poll_rounds, poll,
}

-- All that the rounds take away.
abbrev pub gone : List Round → List TopicPartition
gone [] = []
gone (r ∷ rs) = r.revoked ++ gone rs

-- A record that arrives is kept if no round from its own on takes its partition away.
abbrev pub arrived : List TopicPartition → Event → List Mark
arrived later (message m) = if contains_partition later m.at then [] else m ∷ []
arrived later nothing = []
arrived later partition_error = []
arrived later statistics = []
arrived later client_error = []
arrived later fatal_error = []

abbrev pub survivors : List Round → List Mark
survivors [] = []
survivors (r ∷ rs) = arrived (r.revoked ++ gone rs) r.event ++ survivors rs

-- librdkafka runs the rebalance callback that takes partitions away in a call that returns an event
-- after which the code drops their records, and no fatal error comes.
abbrev pub IsHeeded : List TopicPartition → Event → Type 0
IsHeeded revoked nothing = revoked ≡ []
IsHeeded revoked (message m) = Unit
IsHeeded revoked partition_error = revoked ≡ []
IsHeeded revoked statistics = Unit
IsHeeded revoked client_error = Unit
IsHeeded revoked fatal_error = ⊥

-- Why Poll returns: the context has ended, it has enough, or it has some and nothing is queued.
abbrev pub IsEnd : ℕ → List Mark → List Round → Type 0
IsEnd limit out [] = Unit
IsEnd limit out (r ∷ rs) =
    (limit ≤ length out) ⊎ (r.is_done ≡ true) ⊎ ((r.event ≡ nothing) × (is_none out ≡ false))

abbrev final : List Mark → List Round → List Mark
final out taken = drop_gone (gone taken) out ++ survivors taken

abbrev head_or : Round → List Round → Round
head_or d [] = d
head_or d (r ∷ rs) = r

abbrev tail_of : List Round → List Round
tail_of [] = []
tail_of (r ∷ rs) = rs

record Takes (limit : ℕ) (rs : List Round) (out : List Mark) (errs : ℕ) : Type 0 where
  taken : List Round
  left : List Round
  errors : ℕ
  all : rs ≡ taken ++ left
  result : poll_rounds limit rs [] out errs ≡ records (final out taken) errors
  end : IsEnd limit (final out taken) left
  ongoing :
      (pre post : List Round) (r : Round)
      → taken ≡ pre ++ (r ∷ post)
      → IsEnd limit (final out pre) (r ∷ [])
      → ⊥

final-nil : (out : List Mark) → final out [] ≡ out
final-nil out = append-nil (drop_gone [] out) ∙ drop_gone-nil out

final_empty : (taken : List Round) → final [] taken ≡ survivors taken
unfolding drop_gone
final_empty taken = refl

no_middle : (pre post : List Round) (r : Round) → [] ≡ pre ++ (r ∷ post) → ⊥
no_middle [] post r q = cc
no_middle (x ∷ pre) post r q = cc

-- Of a list that begins with `r`, a part is `r` and a part of the rest, or comes before `r`.
first_of : {r x : Round} {rs xs : List Round} → (r ∷ rs) ≡ (x ∷ xs) → (r ≡ x) × (rs ≡ xs)
first_of {r = r} {rs = rs} q = (ap (λ l. head_or r l) q, ap tail_of q)

stop :
    (limit : ℕ) (rs : List Round) (out : List Mark) (errs : ℕ)
    → poll_rounds limit rs [] out errs ≡ records out errs
    → IsEnd limit out rs
    → Takes limit rs out errs
stop limit rs out errs e s = record {
  taken = [];
  left = rs;
  errors = errs;
  all = refl;
  result = rw (final-nil out) e;
  end = rw (final-nil out) s;
  ongoing = λ pre post r q. absurd (no_middle pre post r q);
}

-- No call before the last was one after which Poll returns.
later_ongoing :
    (limit : ℕ) (r : Round) (out out' : List Mark) (taken : List Round)
    → ((ts : List Round) → final out' ts ≡ final out (r ∷ ts))
    → (IsEnd limit out (r ∷ []) → ⊥)
    → ((pre post : List Round) (x : Round)
        → taken ≡ pre ++ (x ∷ post)
        → IsEnd limit (final out' pre) (x ∷ [])
        → ⊥)
    → (pre post : List Round) (x : Round) → (r ∷ taken) ≡ pre ++ (x ∷ post)
    → IsEnd limit (final out pre) (x ∷ [])
    → ⊥
later_ongoing limit r out out' taken f more rest [] post x q s = more (
    subst (λ y. IsEnd limit out (y ∷ [])) (sym (first_of q).0)
      (subst (λ o. IsEnd limit o (x ∷ [])) (final-nil out) s))
later_ongoing limit r out out' taken f more rest (y ∷ pre) post x q s =
    let (e, g) = first_of q in
    rest pre post x g (
      subst (λ o. IsEnd limit o (x ∷ [])) (sym (f pre))
        (subst (λ z. IsEnd limit (final out (z ∷ pre)) (x ∷ [])) (sym e) s))

go_on :
    (limit : ℕ) (r : Round) (rs : List Round) (out out' : List Mark) (errs errs' : ℕ)
    → poll_rounds limit (r ∷ rs) [] out errs ≡ poll_rounds limit rs [] out' errs'
    → ((taken : List Round) → final out' taken ≡ final out (r ∷ taken))
    → (IsEnd limit out (r ∷ []) → ⊥)
    → Takes limit rs out' errs'
    → Takes limit (r ∷ rs) out errs
go_on limit r rs out out' errs errs' e f more t = record {
  taken = r ∷ t.taken;
  left = t.left;
  errors = t.errors;
  all = ap (λ x. r ∷ x) t.all;
  result = e ∙ t.result ∙ ap (λ x. records x t.errors) (f t.taken);
  end = subst (λ x. IsEnd limit x t.left) (f t.taken) t.end;
  ongoing = later_ongoing limit r out out' t.taken f more t.ongoing;
}

-- A pass ends by dropping what it took away.
final-kept :
    (r : Round) (out new : List Mark) (taken : List Round)
    → arrived (r.revoked ++ gone taken) r.event ≡ drop_gone (r.revoked ++ gone taken) new
    → final (kept r.revoked (out ++ new)) taken ≡ final out (r ∷ taken)
final-kept r out new taken e =
    rw
      (
        kept_lem r.revoked (out ++ new),
        drop_gone-drop_gone r.revoked (gone taken) (out ++ new),
        drop_gone-append (r.revoked ++ gone taken) out new,
        e,
        append_assoc (drop_gone (r.revoked ++ gone taken) out)
            (drop_gone (r.revoked ++ gone taken) new) (survivors taken),
      )
      refl

arrived-message :
    (g : List TopicPartition) (m : Mark) → arrived g (message m) ≡ drop_gone g (m ∷ [])
unfolding drop_gone
arrived-message g m = refl

final-cleared :
    (r : Round) (out : List Mark) (taken : List Round)
    → arrived (r.revoked ++ gone taken) r.event ≡ []
    → final (kept r.revoked out) taken ≡ final out (r ∷ taken)
final-cleared r out taken e =
    rw (append-nil out) at
      (final-kept r out [] taken (e ∙ drop_gone-none (r.revoked ++ gone taken)))

final-same :
    (r : Round) (out : List Mark) (taken : List Round)
    → r.revoked ≡ []
    → arrived (r.revoked ++ gone taken) r.event ≡ []
    → final out taken ≡ final out (r ∷ taken)
final-same r out taken g e = rw (e, g) refl

message-ne : {m : Mark} → message m ≢ nothing
message-ne e = cc

partition_error-ne : partition_error ≢ nothing
partition_error-ne e = cc

statistics-ne : statistics ≢ nothing
statistics-ne e = cc

client_error-ne : client_error ≢ nothing
client_error-ne e = cc

-- A call before which Poll may not return, when its event is another or nothing has come yet.
goes :
    (limit : ℕ) (r : Round) (out : List Mark)
    → ltb (length out) limit ≡ true
    → r.is_done ≡ false
    → ((r.event ≡ nothing) → is_none out ≡ true)
    → IsEnd limit out (r ∷ [])
    → ⊥
goes limit r out l d n (inl e) = ground arith
goes limit r out l d n (inr (inl e)) = ground arith
goes limit r out l d n (inr (inr (e, f))) = let g = n e in ground arith

event-taken :
    (limit : ℕ) (r : Round) (rs : List Round) (out : List Mark) (errs : ℕ) (e : Event)
    → r.event ≡ e
    → ltb (length out) limit ≡ true
    → r.is_done ≡ false
    → IsHeeded r.revoked e
    → ((o : List Mark) (n : ℕ) → Takes limit rs o n)
    → Takes limit (r ∷ rs) out errs
unfolding poll_rounds
event-taken limit r rs out errs nothing q l d h ih = elim (Bool-cases (is_none out)) [
  | inl n ↦
      go_on limit r rs out out errs errs (rw (l, d, q, n, h, poll_rounds) refl)
        (λ t. final-same r out t h (rw q refl)) (goes limit r out l d (λ e. n)) (ih out errs)
  | inr n ↦ stop limit (r ∷ rs) out errs (rw (l, d, q, n, poll_rounds) refl) (inr (inr (q, n)))
]
event-taken limit r rs out errs (message m) q l d h ih =
    go_on limit r rs out (kept r.revoked (out ++ (m ∷ []))) errs errs
      (rw (l, d, q, poll_rounds) refl)
      (λ t. final-kept r out (m ∷ []) t (rw q (arrived-message (r.revoked ++ gone t) m)))
      (goes limit r out l d (λ e. absurd (message-ne (sym q ∙ e))))
      (ih (kept r.revoked (out ++ (m ∷ []))) errs)
event-taken limit r rs out errs partition_error q l d h ih =
    go_on limit r rs out out errs (errs + 1) (rw (l, d, q, h, poll_rounds) refl)
      (λ t. final-same r out t h (rw q refl))
      (goes limit r out l d (λ e. absurd (partition_error-ne (sym q ∙ e)))) (ih out (errs + 1))
event-taken limit r rs out errs statistics q l d h ih =
    go_on limit r rs out (kept r.revoked out) errs errs (rw (l, d, q, poll_rounds) refl)
      (λ t. final-cleared r out t (rw q refl))
      (goes limit r out l d (λ e. absurd (statistics-ne (sym q ∙ e))))
      (ih (kept r.revoked out) errs)
event-taken limit r rs out errs client_error q l d h ih =
    go_on limit r rs out (kept r.revoked out) errs (errs + 1) (rw (l, d, q, poll_rounds) refl)
      (λ t. final-cleared r out t (rw q refl))
      (goes limit r out l d (λ e. absurd (client_error-ne (sym q ∙ e))))
      (ih (kept r.revoked out) (errs + 1))
event-taken limit r rs out errs fatal_error q l d h ih = absurd h

rounds-taken :
    (limit : ℕ) (rs : List Round) (out : List Mark) (errs : ℕ)
    → All (λ r. IsHeeded r.revoked r.event) rs
    → Takes limit rs out errs
unfolding poll_rounds
rounds-taken limit [] out errs u = stop limit [] out errs refl tt
rounds-taken limit (r ∷ rs) out errs (h, u) = elim (Bool-cases (ltb (length out) limit)) [
  | inl l ↦ elim (Bool-cases r.is_done) [
    | inl d ↦ stop limit (r ∷ rs) out errs (rw (l, d, poll_rounds) refl) (inr (inl d))
    | inr d ↦
        event-taken limit r rs out errs r.event refl l d h (λ o n. rounds-taken limit rs o n u)
  ]
  | inr l ↦ stop limit (r ∷ rs) out errs (rw (l, poll_rounds) refl) (inl (ground arith))
]

-- Where each revocation comes in a call of librdkafka's that returns a record, statistics or an
-- error of the client, and none of them is fatal: Poll returns, in order, exactly the records whose
-- partition was not taken away in their call or a later one, of the calls up to the first before which
-- the context had ended, or the records kept so far were enough, or that returned nothing when there
-- were some, or of all calls when there is none such.
pub poll-survivors :
    (limit : ℕ) (rounds : List Round)
    → All (λ r. IsHeeded r.revoked r.event) rounds
    → (taken left : List Round) × (errs : ℕ) × (rounds ≡ taken ++ left)
      × (poll false limit rounds ≡ records (survivors taken) errs)
      × IsEnd limit (survivors taken) left
      × ((pre post : List Round) (r : Round)
          → taken ≡ pre ++ (r ∷ post)
          → IsEnd limit (survivors pre) (r ∷ [])
          → ⊥)
unfolding poll
poll-survivors limit rounds u =
    let t = rounds-taken limit rounds [] 0 u in
    let e = final_empty t.taken in
    (
      t.taken,
      t.left,
      t.errors,
      t.all,
      t.result ∙ ap (λ x. records x t.errors) e,
      subst (λ x. IsEnd limit x t.left) e t.end,
      λ pre post r q s.
          t.ongoing pre post r q (subst (λ x. IsEnd limit x (r ∷ [])) (sym (final_empty pre)) s),
    )
