-- ===== src/Rdkafka/Producer.antt =====
-- libs/kafka-rdkafka/rdkafka.go: the producer's clients, which a fatal error replaces while calls,
-- other errors and Close go on. A step is one section under the lock, or one close of a client.
pub mod Places
pub mod Safe
use golang_basics.Base.{
  ℕ, zero, suc, ◌+◌, ◌≡◌, ◌≢◌, Bool, true, false, List, [], ◌∷◌, ◌==◌, if◌then◌else◌, IsIn,
}

-- Close has not begun, has set `closed`, has closed the client, has returned.
pub data Stage : Type 0 where
  is_open closing client_closed returned : Stage

-- Clients are numbered as they are created. `calls` has the client of every call that holds the lock
-- for reading, `replacing` the failed client of every replace under way before its section, and
-- `retired` that of every one after it, which it is about to close.
pub record Producer : Type 0 where
  pub created : ℕ
  pub cl : ℕ
  pub stage : Stage
  pub calls : List ℕ
  pub replacing : List ℕ
  pub retired : List ℕ
  pub destroyed : List ℕ

-- newProducer
abbrev pub new_producer : Producer
new_producer = record {
  created = 1;
  cl = 0;
  stage = is_open;
  calls = [];
  replacing = [];
  retired = [];
  destroyed = [];
}

abbrev pub is_closed : Stage → Bool
is_closed is_open = false
is_closed closing = true
is_closed client_closed = true
is_closed returned = true

-- Without the first of its kind.
unfoldable pub remove : ℕ → List ℕ → List ℕ
remove i [] = []
remove i (j ∷ js) = if j == i then js else j ∷ remove i js

-- produce and Ping, when they take the lock: after Close they call no client.
unfoldable pub enter : Producer → Producer
enter p = if is_closed p.stage then p else record p { calls = p.cl ∷ p.calls }

unfoldable pub leave : ℕ → Producer → Producer
unfolding remove
leave i p = record p { calls = remove i p.calls }

unfoldable pub start_replace : ℕ → Producer → Producer
start_replace failed p =
    if is_closed p.stage then p else record p { replacing = failed ∷ p.replacing }

-- The section of replace: whether librdkafka gives a new client is an argument.
unfoldable pub replace : Bool → ℕ → Producer → Producer
unfolding remove
replace ok failed p =
    let ended = record p { replacing = remove failed p.replacing } in
    if is_closed p.stage
    then ended
    else if p.cl == failed
    then (if ok
        then record ended { cl = p.created; created = p.created + 1; retired = failed ∷ p.retired }
        else ended)
    else ended

-- `failed.Close()`
unfoldable pub retire : ℕ → Producer → Producer
unfolding remove
retire failed p = record p { retired = remove failed p.retired; destroyed = failed ∷ p.destroyed }

-- Close, when it takes the lock, when it closes the client, and when what it waits for has ended.
unfoldable pub begin_close : Producer → Producer
begin_close p = if is_closed p.stage then p else record p { stage = closing }

unfoldable pub close_client : Producer → Producer
close_client p = record p { stage = client_closed; destroyed = p.cl ∷ p.destroyed }

unfoldable pub end_close : Producer → Producer
end_close p = record p { stage = returned }

-- A section under the write lock runs while no call holds the lock.
pub data Step : Producer → Producer → Type 0 where
  entered : (p : Producer) → Step p (enter p)
  left : (p : Producer) (i : ℕ) → IsIn i p.calls → Step p (leave i p)
  failed : (p : Producer) (i : ℕ) → p.calls ≡ [] → Step p (start_replace i p)
  replaced :
      (p : Producer) (ok : Bool) (i : ℕ)
      → p.calls ≡ []
      → IsIn i p.replacing
      → Step p (replace ok i p)
  retires : (p : Producer) (i : ℕ) → IsIn i p.retired → Step p (retire i p)
  closes : (p : Producer) → p.calls ≡ [] → Step p (begin_close p)
  destroys : (p : Producer) → p.stage ≡ closing → Step p (close_client p)
  returns :
      (p : Producer)
      → p.stage ≡ client_closed
      → p.replacing ≡ []
      → p.retired ≡ []
      → Step p (end_close p)

pub data Reach (s : Producer) : Producer → Type 0 where
  here : Reach s s
  next : {t u : Producer} → Reach s t → Step t u → Reach s u
