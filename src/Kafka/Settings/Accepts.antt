-- ===== src/Kafka/Settings/Accepts.antt =====
-- libs/kafka/config.go: what an accepted configuration is.
use golang_basics.Base.{
  ℕ, ◌*◌, ◌%◌, ◌^◌, ◌≤◌, ◌≡◌, refl, Bool, true, false, not, ◌&&◌, ◌||◌, Option, none, some, List,
  [], ◌∷◌, ◌++◌, is_empty, arith, if◌then◌else◌,
}
use golang_basics.Base.Int.{ℤ, pos, negsuc, pos_part, neg_part, ltb_ℤ}
use golang_basics.Kafka.Settings.{Settings, Host, with_defaults}
use golang_basics.Kafka.Settings.Checks.{
  Problem, problem_if, one_of, negatives, protocol_of, has_password, sasl_problems, sasl_incomplete,
  sasl_no_mechanism, negative_buffer, sizes, unknown_mechanism, uses_ssl, kib, wrapped,
  protocol_problems, validate_security, validate_buffers, problems, validate, mechanisms,
}

both_nil : (xs ys : List Problem) → xs ++ ys ≡ [] → (xs ≡ []) × (ys ≡ [])
both_nil [] ys h = (refl, h)
both_nil (x ∷ xs) ys h = ground arith

problem_if-nil : (b : Bool) (p : Problem) → problem_if b p ≡ [] → b ≡ false
problem_if-nil true p h = ground arith
problem_if-nil false p h = refl

mechanism_case :
    (known none_given incomplete : Bool) (p q r : Problem)
    → (if known
        then problem_if incomplete p
        else problem_if none_given q ++ problem_if (not none_given) r)
      ≡ []
    → incomplete ≡ false
mechanism_case true n i p q r h = problem_if-nil i p h
mechanism_case false true i p q r h = ground arith
mechanism_case false false i p q r h = ground arith

-- Credentials and keys are those that the protocol uses: with SASL a user and a password, without it
-- none of them, and without TLS no certificate.
abbrev pub IsSecured : Settings → Bool × Bool → Type 0
IsSecured c (sasl, tls) =
    (sasl ≡ true → (is_empty c.sasl_username ≡ false) × (has_password c ≡ true))
    × (sasl ≡ false → (is_empty c.sasl_username ≡ true) × (has_password c ≡ false))
    × (tls ≡ false → uses_ssl c ≡ false)

split : (u p : Bool) → (u || not p) ≡ false → (u ≡ false) × (p ≡ true)
split true p h = ground arith
split false true h = (refl, refl)
split false false h = ground arith

split_off : (m u p : Bool) → (m || not u || p) ≡ false → (u ≡ true) × (p ≡ false)
split_off true u p h = ground arith
split_off false true p h = (refl, h)
split_off false false p h = ground arith

without : (t u : Bool) → (not t && u) ≡ false → t ≡ false → u ≡ false
without true u h e = ground arith
without false u h e = h

sasl_problems-secured :
    (c : Settings) (sasl : Bool)
    → sasl_problems c sasl ≡ []
    → (sasl ≡ true → (is_empty c.sasl_username ≡ false) × (has_password c ≡ true))
      × (sasl ≡ false → (is_empty c.sasl_username ≡ true) × (has_password c ≡ false))
sasl_problems-secured c true h =
    let k =
      mechanism_case (one_of mechanisms c.sasl_mechanism) (is_empty c.sasl_mechanism)
        (is_empty c.sasl_username || not (has_password c)) sasl_incomplete sasl_no_mechanism
        unknown_mechanism h in
    (λ e. split (is_empty c.sasl_username) (has_password c) k, λ e. ground arith)
sasl_problems-secured c false h =
    let k =
      problem_if-nil
        (not (is_empty c.sasl_mechanism) || not (is_empty c.sasl_username) || has_password c) _ h in
    (
      λ e. ground arith,
      λ e.
          split_off (not (is_empty c.sasl_mechanism)) (is_empty c.sasl_username) (has_password c) k,
    )

protocol_problems-IsSecured :
    (o : Host) (c : Settings) (p : Option (Bool × Bool))
    → protocol_problems o c p ≡ []
    → (u : Bool × Bool) × (p ≡ some u) × IsSecured c u
protocol_problems-IsSecured o c none h = ground arith
protocol_problems-IsSecured o c (some (sasl, tls)) h =
    let (h1, h2) = both_nil _ _ h in
    let (s, h3) = both_nil _ _ h2 in
    let (t, h4) = both_nil _ _ h3 in
    let (on, off) = sasl_problems-secured c sasl s in
    (
      (sasl, tls),
      refl,
      (on, off, without tls (uses_ssl c) (problem_if-nil (not tls && uses_ssl c) _ t)),
    )

nonneg : (z : ℤ) → ltb_ℤ z (pos 0) ≡ false → neg_part z ≡ 0
nonneg (pos n) h = refl
nonneg (negsuc n) h = ground arith

-- The bounds of an accepted configuration.
abbrev pub IsBounded : Settings → Type 0
IsBounded c =
    (pos_part c.message_max_bytes ≤ pos_part c.producer_queue_max_kbytes * 1024)
    × (pos_part c.message_max_bytes ≤ pos_part c.consumer_fetch_max_bytes)
    × (pos_part c.consumer_partition_fetch_max_bytes ≤ pos_part c.consumer_fetch_max_bytes)

le_of : (a b : ℤ) → ltb_ℤ a (pos 0) ≡ false → ltb_ℤ b a ≡ false → pos_part a ≤ pos_part b
le_of (pos a) (pos b) h l = ground arith
le_of (negsuc a) b h l = ground arith
le_of (pos a) (negsuc b) h l = ground arith

wrapped-pos_part-le : (r : ℕ) → pos_part (wrapped r) ≤ r
wrapped-pos_part-le r = ground arith

-- A size that overflows comes out smaller, so that a record that fits in it fits in the true size.
kib-pos_part-le : (z : ℤ) → ltb_ℤ z (pos 0) ≡ false → pos_part (kib z) ≤ pos_part z * 1024
kib-pos_part-le (pos n) h = let w = wrapped-pos_part-le (n * 1024 % 2 ^ 64) in omega arith
kib-pos_part-le (negsuc n) h = ground arith

abbrev AreNatural : List ℤ → Type 0
AreNatural [] = Unit
AreNatural (z ∷ zs) = (ltb_ℤ z (pos 0) ≡ false) × AreNatural zs

negatives-AreNatural : (p : Problem) (zs : List ℤ) → negatives p zs ≡ [] → AreNatural zs
unfolding negatives
negatives-AreNatural p [] h = tt
negatives-AreNatural p (z ∷ zs) h =
    let (one, rest) = both_nil (problem_if (ltb_ℤ z (pos 0)) p) (negatives p zs) h in
    (problem_if-nil (ltb_ℤ z (pos 0)) p one, negatives-AreNatural p zs rest)

validate_buffers-IsBounded : (c : Settings) → validate_buffers c ≡ [] → IsBounded c
unfolding validate_buffers
validate_buffers-IsBounded c h =
    let (n, h1) = both_nil (negatives negative_buffer (sizes c)) _ h in
    let (q, h2) = both_nil _ _ h1 in
    let (f, h3) = both_nil _ _ h2 in
    let (p, h4) = both_nil _ _ h3 in
    let (kq, s1) = negatives-AreNatural negative_buffer (sizes c) n in
    let (km, s2) = s1 in
    let (mm, s3) = s2 in
    let (kc, s4) = s3 in
    let (fm, s5) = s4 in
    let (pm, s6) = s5 in
    (
      (let fits =
            le_of c.message_max_bytes (kib c.producer_queue_max_kbytes) mm (problem_if-nil _ _ q) in
          let size = kib-pos_part-le c.producer_queue_max_kbytes kq in omega arith),
      le_of c.message_max_bytes c.consumer_fetch_max_bytes mm (problem_if-nil _ _ f),
      le_of c.consumer_partition_fetch_max_bytes c.consumer_fetch_max_bytes pm
          (problem_if-nil _ _ p),
    )

-- A configuration that Validate accepts, with the defaults it then has, uses a known protocol, has
-- a user and a password when the protocol has SASL and neither when it has not, no setting of TLS
-- when the protocol has no TLS, and buffers that the largest record fits in, although the code's
-- product of kilobytes may overflow.
pub validate-safe :
    (o : Host) (c : Settings)
    → (validate o c).0 ≡ []
    → let c' = (validate o c).1 in
      ((u : Bool × Bool) × (protocol_of c'.security_protocol ≡ some u) × IsSecured c' u)
      × IsBounded c'
unfolding validate problems validate_security
validate-safe o c h =
    let c' = with_defaults o c in
    let (h1, h2) = both_nil _ _ h in
    let (h3, h4) = both_nil _ _ h2 in
    let (s, h5) = both_nil _ _ h4 in
    let (b, h6) = both_nil _ _ h5 in
    (
      protocol_problems-IsSecured o c' (protocol_of c'.security_protocol) s,
      validate_buffers-IsBounded c' b,
    )
