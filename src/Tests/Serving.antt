-- ===== src/Tests/Serving.antt =====
-- A server behind one proxy, its log, and a writer that behaves as net/http documents.
use golang_basics.Base.{
  ℕ, ◌+◌, trim_space, ◌≤◌, ◌<◌, ◌≡◌, refl, ◌⊎◌, inl, true, false, Option, none, some, List, [], ◌∷◌,
  ◌++◌, String, runes, ltb, ◌==◌, All, length, if◌then◌else◌, arith,
}
use golang_basics.Base.Int.{ℤ, pos}
use golang_basics.Httpx.Sampling.{
  SamplingHandler, Record, new_sampling_handler, time_of, is_sampled, slot, handle, handle_all, inc,
}
use golang_basics.Httpx.Sampling.Share.{share, counted_in, left_alone, sampled-share}
use golang_basics.Httpx.Request.{
  Network, is_trusted, client_ip, Incoming, Bytes, entry, new_request_id, join, split, split_from,
  walk_hops, hex,
}
use golang_basics.Httpx.Request.Hops.{HasEnd, client_ip-forged}
use golang_basics.Httpx.Answer.{
  Problem, Asked, Writer, op_header, returned, panicked, wrap, rw_ops, rw_op, rw_header,
  info_status, recovery, handled,
}
use golang_basics.Httpx.Answer.Seen.{answered, panics, handled-seen}

abbrev fnv : String → ℕ
fnv s = 0

abbrev line : ℤ → ℕ → Record
line level t = record {
  level = level;
  message = "request";
  time = t;
  debugging = false;
  clock = 99;
}

abbrev burst : List Record
burst =
    line (pos 0) 10
    ∷ (line (pos 0) 11
        ∷ (line (pos 8) 12 ∷ (line (pos 0) 13 ∷ (line (pos 0) 14 ∷ (line (pos 0) 15 ∷ [])))))

abbrev sampler : SamplingHandler
sampler = new_sampling_handler (pos 2) (pos 2) (pos 1000)

-- Of five lines the first two pass and the fourth, and the error passes too.
burst_test : length (handle_all fnv sampler burst).1 ≡ 4
unfolding handle_all handle slot inc is_sampled time_of new_sampling_handler
burst_test = refl

within : All (λ r. (10 ≤ time_of r) × (time_of r < 10 + sampler.tick)) burst
unfolding time_of new_sampling_handler
within = omega arith

positive : 1 ≤ sampler.thereafter
unfolding new_sampling_handler
positive = omega arith

expired : (sampler.counters 128).reset_at ≤ 10
unfolding new_sampling_handler
expired = omega arith

sampled-share_example :
    (counted_in fnv 128 (handle_all fnv sampler burst).1
      ≡ share sampler.initial sampler.thereafter (counted_in fnv 128 burst))
    × (left_alone (handle_all fnv sampler burst).1 ≡ left_alone burst)
sampled-share_example = sampled-share fnv 128 10 sampler burst positive expired within (omega arith)

-- One letter is an address, and p that of the proxy.
abbrev letter : List ℕ → Option ℕ
letter [] = none
letter (c ∷ []) = some c
letter (c ∷ d ∷ cs) = none

abbrev site : Network
site = record { Addr = ℕ; parse = letter; proxies = (λ a. a == b'p') ∷ [] }

forged_test : client_ip site (runes "x" ∷ (runes "c,p" ∷ [])) (some b'p') true ≡ some b'c'
unfolding client_ip walk_hops join split_from trim_space
forged_test = refl

ended : HasEnd site (split (join (runes "c,p" ∷ [])))
unfolding join split_from trim_space
ended = inl refl

client_ip-forged_example :
    (client_ip site ((runes "x" ∷ []) ++ (runes "c,p" ∷ [])) (some b'p') true
      ≡ client_ip site (runes "c,p" ∷ []) (some b'p') true)
    × ((client_ip site (runes "c,p" ∷ []) (some b'p') true ≡ some b'p')
        ⊎ (is_trusted site (client_ip site (runes "c,p" ∷ []) (some b'p') true) ≡ false))
client_ip-forged_example =
    client_ip-forged site (some b'p') true (runes "x") (runes "c,p") [] [] ended

abbrev random : Bytes
random = record { b0 = 0; b1 = 1; b2 = 2; b3 = 3; b4 = 4; b5 = 5; b6 = 254; b7 = 255 }

abbrev stranger : Incoming site
stranger = record {
  peer = some b'c';
  request_id = runes "chosen";
  request_timeout = [];
  forwarded_for = runes "x" ∷ [];
}

stranger_test : (entry site (pos 0) (pos 0) stranger random).id ≡ runes "000102030405feff"
unfolding entry new_request_id hex
stranger_test = refl

-- The status sent, if any.
abbrev send : ℕ → Option ℕ → Option ℕ
send code none = if ltb code 200 then none else some code
send code (some s) = some s

send-final :
    (code : ℕ) (w : Option ℕ) → 200 ≤ code → code < 1000 → w ≡ none → send code w ≡ some code
send-final code none lo hi e = ground arith
send-final code (some s) lo hi e = cc

send-again :
    (code s : ℕ) (w : Option ℕ) → 200 ≤ code → code < 1000 → w ≡ some s → send code w ≡ some s
send-again code s none lo hi e = cc
send-again code s (some t) lo hi e = e

send-some : (w : Option ℕ) (s : ℕ) → w ≡ some s → send 200 w ≡ some s
send-some none s e = cc
send-some (some t) s e = e

abbrev wire : Writer
wire = record {
  W = Option ℕ;
  write_header = send;
  write = λ b w. (length b, send 200 w);
  flush = λ w. send 200 w;
  sent = λ w. w;
  sent-final = send-final;
  sent-again = send-again;
  sent-write = λ b w s e. send-some w s e;
  sent-flush = λ w s e. send-some w s e;
}

abbrev asked : Asked
asked = record { path = "/tasks"; id = "1" }

abbrev body : Problem → Option (List ℕ)
body p = some (b'{' ∷ (b'}' ∷ []))

-- An informational header is kept as the status of a request that was answered with 200.
early_hints_test :
    (info_status wire false
        (handled wire body asked (op_header 103 ∷ (op_header 200 ∷ [])) returned 0 none)
      ≡ 103)
    × ((handled wire body asked (op_header 103 ∷ (op_header 200 ∷ [])) returned 0 none).rw.inner
        ≡ some 200)
unfolding info_status handled recovery rw_ops rw_op rw_header
early_hints_test = (refl, refl)

handled-seen_example :
    (info_status wire false (handled wire body asked [] panicked 4 none)
      ≡ answered wire ((handled wire body asked [] panicked 4 none).rw.inner))
    × (panicked ≡ panicked
        → (rw_ops wire [] (wrap wire none)).inner ≡ none
        → (handled wire body asked [] panicked 4 none).rw.inner ≡ some 500)
    × ((handled wire body asked [] panicked 4 none).unhandled ≡ 4 + panics wire panicked)
handled-seen_example = handled-seen wire body asked [] panicked 4 none refl tt (λ e. cc)
