-- ===== src/Rdkafka/Poll/Dropping.antt =====
-- libs/kafka-rdkafka/rdkafka.go: the records of partitions that were taken away, dropped.
use golang_basics.Base.{◌≡◌, refl, ap, sym, ◌||◌, List, [], ◌∷◌, ◌++◌, arith}
use golang_basics.Kafka.Partitions.{TopicPartition, contains_partition, Mark}
use golang_basics.Rdkafka.Poll.{drop_gone, kept}

pub contains_partition-append :
    (ps qs : List TopicPartition) (p : TopicPartition)
    → contains_partition (ps ++ qs) p ≡ (contains_partition ps p || contains_partition qs p)
unfolding contains_partition
contains_partition-append [] qs p = refl
contains_partition-append (q ∷ ps) qs p = ground (arith, contains_partition-append ps qs p)

pub drop_gone-nil : (ms : List Mark) → drop_gone [] ms ≡ ms
unfolding drop_gone contains_partition
drop_gone-nil [] = refl
drop_gone-nil (m ∷ ms) = ap (λ x. m ∷ x) (drop_gone-nil ms)

pub kept_lem : (g : List TopicPartition) (ms : List Mark) → kept g ms ≡ drop_gone g ms
kept_lem [] ms = sym (drop_gone-nil ms)
kept_lem (p ∷ ps) ms = refl

pub drop_gone-append :
    (g : List TopicPartition) (ms ns : List Mark)
    → drop_gone g (ms ++ ns) ≡ drop_gone g ms ++ drop_gone g ns
unfolding drop_gone
drop_gone-append g [] ns = refl
drop_gone-append g (m ∷ ms) ns = ground (arith, drop_gone-append g ms ns)

pub drop_gone-drop_gone :
    (g h : List TopicPartition) (ms : List Mark)
    → drop_gone h (drop_gone g ms) ≡ drop_gone (g ++ h) ms
unfolding drop_gone
drop_gone-drop_gone g h [] = refl
drop_gone-drop_gone g h (m ∷ ms) =
    ground (arith, drop_gone-drop_gone g h ms, contains_partition-append g h m.at)

pub drop_gone-none : (g : List TopicPartition) → [] ≡ drop_gone g []
unfolding drop_gone
drop_gone-none g = refl
