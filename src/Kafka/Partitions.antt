-- ===== src/Kafka/Partitions.antt =====
-- libs/kafka/consumer.go: the consumer's two maps, keyed by topic and partition.
use golang_basics.Base.{
  ℕ, ◌≡◌, refl, ap, Bool, true, false, ◌&&◌, Option, none, some, List, [], ◌∷◌, String, str_eq,
  eq_iff, eq_refl, ◌==◌, if◌then◌else◌, arith,
}

pub record TopicPartition : Type 0 where
  pub topic : String
  pub partition : ℕ

-- Key equality of the Go maps.
unfoldable pub same : TopicPartition → TopicPartition → Bool
same p q = str_eq p.topic q.topic && (p.partition == q.partition)

unfoldable pub contains_partition : List TopicPartition → TopicPartition → Bool
contains_partition [] p = false
contains_partition (q ∷ ps) p = if same q p then true else contains_partition ps p

-- A map entry.
pub record Mark : Type 0 where
  pub at : TopicPartition
  pub offset : ℕ

-- `m[p]`, `delete(m, p)`, `m[p] = off`, and `delete(s, p)` for a map that is a set.
unfoldable pub lookup : List Mark → TopicPartition → Option ℕ
lookup [] p = none
lookup (m ∷ ms) p = if same m.at p then some m.offset else lookup ms p

unfoldable pub erase : List Mark → TopicPartition → List Mark
erase [] p = []
erase (m ∷ ms) p = let rest = erase ms p in if same m.at p then rest else m ∷ rest

unfoldable pub put : List Mark → TopicPartition → ℕ → List Mark
unfolding erase
put ms p off = record { at = p; offset = off } ∷ erase ms p

unfoldable pub drop_partition : List TopicPartition → TopicPartition → List TopicPartition
drop_partition [] p = []
drop_partition (q ∷ ps) p = let rest = drop_partition ps p in if same q p then rest else q ∷ rest

unfoldable pub add_partition : List TopicPartition → TopicPartition → List TopicPartition
unfolding drop_partition
add_partition ps p = p ∷ drop_partition ps p

-- `for _, p := range parts { delete(m, p) }`
unfoldable pub erase_all : List Mark → List TopicPartition → List Mark
unfolding erase
erase_all ms [] = ms
erase_all ms (p ∷ ps) = erase_all (erase ms p) ps

unfoldable pub drop_all : List TopicPartition → List TopicPartition → List TopicPartition
unfolding drop_partition
drop_all qs [] = qs
drop_all qs (p ∷ ps) = drop_all (drop_partition qs p) ps

unfoldable pub add_all : List TopicPartition → List TopicPartition → List TopicPartition
unfolding add_partition
add_all qs [] = qs
add_all qs (p ∷ ps) = add_all (add_partition qs p) ps

pub same_refl : (p : TopicPartition) → same p p ≡ true
unfolding same
same_refl p = ground (arith, eq_refl p.topic)

pub same→eq : (p q : TopicPartition) → same p q ≡ true → p ≡ q
unfolding same
same→eq p q h = ground (arith, eq_iff p.topic q.topic)

-- `same` is an equivalence, so equal keys have the same entries.
pub same-left : (p q r : TopicPartition) → same p q ≡ true → same p r ≡ same q r
same-left p q r h = ap (λ x. same x r) (same→eq p q h)

same-right : (p q r : TopicPartition) → same p q ≡ true → same r p ≡ same r q
same-right p q r h = ap (same r) (same→eq p q h)

pub same-contains :
    (qs : List TopicPartition) (p q : TopicPartition)
    → same p q ≡ true
    → contains_partition qs p ≡ contains_partition qs q
same-contains qs p q h = ap (contains_partition qs) (same→eq p q h)

pub same-lookup :
    (ms : List Mark) (p q : TopicPartition) → same p q ≡ true → lookup ms p ≡ lookup ms q
same-lookup ms p q h = ap (lookup ms) (same→eq p q h)

pub contains-drop_partition :
    (qs : List TopicPartition) (p r : TopicPartition)
    → contains_partition (drop_partition qs p) r
      ≡ (if same p r then false else contains_partition qs r)
unfolding contains_partition drop_partition
contains-drop_partition [] p r = ground arith
contains-drop_partition (q ∷ qs) p r =
    ground (arith, contains-drop_partition qs p r, same-left q p r, same-right p r q)

pub lookup-erase :
    (ms : List Mark) (p r : TopicPartition)
    → lookup (erase ms p) r ≡ (if same p r then none else lookup ms r)
unfolding lookup erase
lookup-erase [] p r = ground arith
lookup-erase (m ∷ ms) p r =
    ground (arith, lookup-erase ms p r, same-left m.at p r, same-right p r m.at)

pub lookup-put :
    (ms : List Mark) (p r : TopicPartition) (off : ℕ)
    → lookup (put ms p off) r ≡ (if same p r then some off else lookup ms r)
unfolding lookup put
lookup-put ms p r off = ground (arith, lookup-erase ms p r)

pub contains-add_partition :
    (qs : List TopicPartition) (p r : TopicPartition)
    → contains_partition (add_partition qs p) r
      ≡ (if same p r then true else contains_partition qs r)
unfolding contains_partition add_partition
contains-add_partition qs p r = ground (arith, contains-drop_partition qs p r)

pub contains-drop_all :
    (qs ps : List TopicPartition) (r : TopicPartition)
    → contains_partition (drop_all qs ps) r
      ≡ (if contains_partition ps r then false else contains_partition qs r)
unfolding contains_partition drop_all
contains-drop_all qs [] r = refl
contains-drop_all qs (p ∷ ps) r =
    ground (arith, contains-drop_all (drop_partition qs p) ps r, contains-drop_partition qs p r)

pub lookup-erase_all :
    (ms : List Mark) (ps : List TopicPartition) (r : TopicPartition)
    → lookup (erase_all ms ps) r ≡ (if contains_partition ps r then none else lookup ms r)
unfolding contains_partition erase_all
lookup-erase_all ms [] r = refl
lookup-erase_all ms (p ∷ ps) r =
    ground (arith, lookup-erase_all (erase ms p) ps r, lookup-erase ms p r)

pub contains-add_all :
    (qs ps : List TopicPartition) (r : TopicPartition)
    → contains_partition (add_all qs ps) r
      ≡ (if contains_partition ps r then true else contains_partition qs r)
unfolding contains_partition add_all
contains-add_all qs [] r = refl
contains-add_all qs (p ∷ ps) r =
    ground (arith, contains-add_all (add_partition qs p) ps r, contains-add_partition qs p r)
