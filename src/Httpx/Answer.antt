-- ===== src/Httpx/Answer.antt =====
-- libs/httpx/middleware.go and problem.go: how a request is answered, by the handler, by a problem or
-- after a panic, and what the access log says of it.
pub mod Seen
use golang_basics.Base.{
  ℕ, zero, suc, ◌+◌, Bool, true, false, ◌&&◌, ◌||◌, Option, none, some, List, [], ◌∷◌, ◌++◌, String,
  str_eq, is_empty, ltb, leb, ◌==◌, if◌then◌else◌, ◌≡◌, ◌≤◌, ◌<◌,
}
use golang_basics.Base.Int.{ℤ, pos, negsuc}

-- RFC 9457. Extensions are names with JSON values; what a cause says is not part of the answer.
pub record Problem : Type 0 where
  pub kind : String
  pub title : String
  pub status : ℤ
  pub detail : String
  pub instance_uri : String
  pub extensions : List (String × String)
  pub cause : Option String

unfoldable pub problem_status : Problem → ℕ
problem_status p = elim p.status [
  | pos n ↦ if ltb n 100 || ltb 999 n then 500 else n
  | negsuc n ↦ 500
]

abbrev pub new_problem : ℕ → String → Problem
new_problem status detail = record {
  kind = "";
  title = "";
  status = pos status;
  detail = detail;
  instance_uri = "";
  extensions = [];
  cause = none;
}

abbrev with_cause : String → Problem → Problem
with_cause e p = record p { cause = some e }

abbrev has_extension : String → List (String × String) → Bool
has_extension k [] = false
has_extension k ((j, v) ∷ xs) = str_eq j k || has_extension k xs

abbrev with_request_id_extension : String → Problem → Problem
with_request_id_extension id p =
    if is_empty id || has_extension "request_id" p.extensions
    then p
    else record p { extensions = p.extensions ++ (("request_id", id) ∷ []) }

-- The path and the id of a request.
pub record Asked : Type 0 where
  pub path : String
  pub id : String

-- `WriteProblem`, before it calls `writeProblem`, which finds nothing more to fill in.
abbrev pub filled : Asked → Problem → Problem
filled r p =
    with_request_id_extension r.id
      (if is_empty p.instance_uri then record p { instance_uri = r.path } else p)

-- `writeProblem` on its own.
abbrev pub filled_once : Asked → Problem → Problem
filled_once r p =
    if is_empty p.instance_uri
    then with_request_id_extension r.id (record p { instance_uri = r.path })
    else p

-- What errors.As and errors.Is find in an error: a problem, or the end of a context.
pub data Failure : Type 0 where
  a_problem : Problem → Failure
  deadline_exceeded canceled other : String → Failure

-- `WriteError`: `gone` says that the request's own context was canceled.
unfoldable pub problem_of : Bool → Failure → Problem
problem_of gone (a_problem p) = p
problem_of gone (deadline_exceeded e) = with_cause e (new_problem 504 "the request took too long")
problem_of gone (canceled e) =
    if gone
    then with_cause e
        (record (new_problem 499 "the client went away") { title = "Client Closed Request" })
    else with_cause e (new_problem 500 "internal error")
problem_of gone (other e) = with_cause e (new_problem 500 "internal error")

-- net/http's writer: a status is sent once, with the first final header or the first write or flush;
-- any number of informational headers may come before.
pub record Writer : Type 1 where
  pub W : Type 0
  pub write_header : ℕ → W → W
  pub write : List ℕ → W → ℕ × W
  pub flush : W → W
  pub sent : W → Option ℕ
  pub sent-final :
      (code : ℕ) (w : W)
      → 200 ≤ code
      → code < 1000
      → sent w ≡ none
      → sent (write_header code w) ≡ some code
  pub sent-again :
      (code s : ℕ) (w : W)
      → 200 ≤ code
      → code < 1000
      → sent w ≡ some s
      → sent (write_header code w) ≡ some s
  pub sent-write : (b : List ℕ) (w : W) (s : ℕ) → sent w ≡ some s → sent (write b w).1 ≡ some s
  pub sent-flush : (w : W) (s : ℕ) → sent w ≡ some s → sent (flush w) ≡ some s

-- What a handler does with the writer, and how it ends: an abort is http.ErrAbortHandler.
pub data Op : Type 0 where
  op_header : ℕ → Op
  op_write : List ℕ → Op
  op_flush : Op

pub data End : Type 0 where
  returned panicked aborted : End

-- slog's levels of an access log line.
pub data Line : Type 0 where
  request slow_request failed_request : Line

module _ (net : Writer) where
  open net use {W, write_header, write, flush, sent}

  -- A status of 0 is none.
  pub record ResponseWriter : Type 0 where
    pub status : ℕ
    pub bytes : ℕ
    pub wrote_header : Bool
    pub inner : W

  abbrev pub wrap : W → ResponseWriter
  wrap w = record { status = 0; bytes = 0; wrote_header = false; inner = w }

  unfoldable pub rw_header : ℕ → ResponseWriter → ResponseWriter
  rw_header code rw =
      if rw.wrote_header
      then record rw { inner = write_header code rw.inner }
      else record rw { status = code; wrote_header = true; inner = write_header code rw.inner }

  abbrev pub with_header : ResponseWriter → ResponseWriter
  with_header rw = if rw.wrote_header then rw else rw_header 200 rw

  unfoldable pub rw_write : List ℕ → ResponseWriter → ResponseWriter
  rw_write b rw =
      let rw' = with_header rw in
      let (n, w) = write b rw'.inner in record rw' { bytes = rw'.bytes + n; inner = w }

  unfoldable pub rw_flush : ResponseWriter → ResponseWriter
  rw_flush rw = let rw' = with_header rw in record rw' { inner = flush rw'.inner }

  unfoldable pub rw_op : Op → ResponseWriter → ResponseWriter
  rw_op (op_header code) rw = rw_header code rw
  rw_op (op_write b) rw = rw_write b rw
  rw_op op_flush rw = rw_flush rw

  unfoldable pub rw_ops : List Op → ResponseWriter → ResponseWriter
  rw_ops [] rw = rw
  rw_ops (o ∷ os) rw = rw_ops os (rw_op o rw)

  -- The shared state of a request that the log reads, and the counter of recovered panics.
  pub record ReqInfo : Type 0 where
    pub rw : ResponseWriter
    pub is_aborted : Bool
    pub unhandled : ℕ

  -- `reqInfo.status`
  unfoldable pub info_status : Bool → ReqInfo → ℕ
  info_status gone i =
      if i.is_aborted
      then 499
      else if i.rw.status == 0
      then (if gone then 499 else 200)
      else i.rw.status

  -- json.Marshal of a problem is an argument.
  module _ (marshal : Problem → Option (List ℕ)) where
    unfoldable pub write_problem : Problem → List Op
    write_problem p = elim (marshal p) [
      | none ↦ op_header 500 ∷ []
      | some body ↦ op_header (problem_status p) ∷ (op_write body ∷ [])
    ]

    unfoldable pub write_error : Asked → Bool → Failure → List Op
    write_error r gone e = write_problem (filled r (problem_of gone e))

    -- `recovery`, from the writer and the end that the handler left.
    unfoldable pub recovery : Asked → End → ReqInfo → ReqInfo
    recovery r returned i = i
    recovery r aborted i = record i { is_aborted = true }
    recovery r panicked i =
        let counted = record i { unhandled = i.unhandled + 1 } in
        if i.rw.wrote_header then counted else record counted {
          rw = rw_ops (write_problem (filled_once r (new_problem 500 "internal error"))) i.rw;
        }

    -- What stands when the log is written: entry, the handler, recovery.
    unfoldable pub handled : Asked → List Op → End → ℕ → W → ReqInfo
    handled r ops how unhandled w =
        recovery r how
          (record { rw = rw_ops ops (wrap w); is_aborted = false; unhandled = unhandled })

  -- `accessLog`'s level; a limit of 0 is none.
  unfoldable pub log_line : ℕ → ℕ → ℕ → Line
  log_line slow latency status =
      if leb 500 status
      then failed_request
      else if ltb 0 slow && ltb slow latency
      then slow_request
      else request
