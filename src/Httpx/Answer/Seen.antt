-- ===== src/Httpx/Answer/Seen.antt =====
-- libs/httpx/middleware.go: the status that the log and the metrics have is the one that was sent.
use golang_basics.Base.{
  ℕ, ◌+◌, ◌≤◌, ◌<◌, ◌≡◌, ◌≢◌, refl, ap, ◌∙◌, ◌⊎◌, inl, inr, true, false, Option, none, some, List,
  [], ◌∷◌, All, Option-cases, if-P, arith,
}
use golang_basics.Httpx.Answer.{
  Problem, problem_status, new_problem, Asked, filled_once, Writer, Op, op_header, op_write,
  op_flush, End, returned, panicked, aborted, ResponseWriter, wrap, rw_header, rw_write, rw_flush,
  rw_op, rw_ops, with_header, ReqInfo, info_status, write_problem, recovery, handled,
}

-- No informational header: the code keeps the status of one as that of the response.
abbrev pub IsFinal : Op → Type 0
IsFinal (op_header code) = (200 ≤ code) × (code < 1000)
IsFinal (op_write b) = Unit
IsFinal op_flush = Unit

module _ (net : Writer) where
  open net use {W, sent}

  abbrev IsUntouched : ResponseWriter net → Type 0
  IsUntouched x = (x.wrote_header ≡ false) × (x.status ≡ 0) × (sent x.inner ≡ none)

  abbrev HasSent : ResponseWriter net → Type 0
  HasSent x = (x.wrote_header ≡ true) × (200 ≤ x.status) × (sent x.inner ≡ some x.status)

  rw_header-HasSent :
      (code : ℕ) (x : ResponseWriter net)
      → 200 ≤ code
      → code < 1000
      → IsUntouched x ⊎ HasSent x
      → HasSent (rw_header net code x)
  unfolding rw_header
  rw_header-HasSent code x lo hi (inl (w, s, e)) =
      let g = net.sent-final code x.inner lo hi e in ground arith
  rw_header-HasSent code x lo hi (inr (w, s, e)) =
      let g = net.sent-again code x.status x.inner lo hi e in ground arith

  with_header-HasSent :
      (x : ResponseWriter net) → IsUntouched x ⊎ HasSent x → HasSent (with_header net x)
  with_header-HasSent x (inl (w, s, e)) =
      if-P HasSent x.wrote_header x (rw_header net 200 x) (λ t. cc)
        (λ t. rw_header-HasSent 200 x (omega arith) (omega arith) (inl (w, s, e)))
  with_header-HasSent x (inr v) =
      if-P HasSent x.wrote_header x (rw_header net 200 x) (λ t. v) (λ t. cc)

  rw_op-HasSent :
      (o : Op) (x : ResponseWriter net)
      → IsFinal o
      → IsUntouched x ⊎ HasSent x
      → HasSent (rw_op net o x)
  unfolding rw_op rw_write rw_flush
  rw_op-HasSent (op_header code) x (lo, hi) v = rw_header-HasSent code x lo hi v
  rw_op-HasSent (op_write b) x u v =
      let (w, s, e) = with_header-HasSent x v in
      (w, s, net.sent-write b (with_header net x).inner (with_header net x).status e)
  rw_op-HasSent op_flush x u v =
      let (w, s, e) = with_header-HasSent x v in
      (w, s, net.sent-flush (with_header net x).inner (with_header net x).status e)

  rw_ops-HasSent :
      (os : List Op) (x : ResponseWriter net)
      → All IsFinal os
      → HasSent x
      → HasSent (rw_ops net os x)
  unfolding rw_ops
  rw_ops-HasSent [] x u v = v
  rw_ops-HasSent (o ∷ os) x (f, u) v =
      rw_ops-HasSent os (rw_op net o x) u (rw_op-HasSent o x f (inr v))

  rw_ops-sent :
      (os : List Op) (x : ResponseWriter net)
      → All IsFinal os
      → IsUntouched x
      → IsUntouched (rw_ops net os x) ⊎ HasSent (rw_ops net os x)
  unfolding rw_ops
  rw_ops-sent [] x u v = inl v
  rw_ops-sent (o ∷ os) x (f, u) v =
      inr (rw_ops-HasSent os (rw_op net o x) u (rw_op-HasSent o x f (inl v)))

  abbrev pub panics : End → ℕ
  panics panicked = 1
  panics returned = 0
  panics aborted = 0

  -- net/http sends 200 for a handler that returns without an answer.
  abbrev pub answered : Option ℕ → ℕ
  answered none = 200
  answered (some code) = code

  module _ (marshal : Problem → Option (List ℕ)) (r : Asked) where
    write_problem-500 :
        (x : ResponseWriter net) (p : Problem)
        → problem_status p ≡ 500
        → IsUntouched x
        → HasSent (rw_ops net (write_problem net marshal p) x)
          × ((rw_ops net (write_problem net marshal p) x).status ≡ 500)
    unfolding write_problem rw_ops rw_op rw_header rw_write
    write_problem-500 x p e (w, s, h) =
        let final = net.sent-final 500 x.inner (omega arith) (omega arith) h in
        elim (Option-cases (marshal p)) [
          | inl m ↦ rw (m, write_problem) (ground arith)
          | inr (body, m) ↦
              let kept = net.sent-write body (net.write_header 500 x.inner) 500 final in
              rw (m, write_problem, e) (ground arith)
        ]

    filled-500 : problem_status (filled_once r (new_problem 500 "internal error")) ≡ 500
    unfolding problem_status
    filled-500 = ground arith

    status-answered :
        (i : ReqInfo net)
        → i.is_aborted ≡ false
        → IsUntouched i.rw ⊎ HasSent i.rw
        → info_status net false i ≡ answered (sent i.rw.inner)
    unfolding info_status
    status-answered i a (inl (w, s, e)) = rw (a, s, e) refl
    status-answered i a (inr (w, s, e)) = ground arith

    -- What is to hold of the log, after a panic that left the writer `before`.
    abbrev IsSeen : W → ℕ → ReqInfo net → Type 0
    IsSeen before unhandled i =
        (info_status net false i ≡ answered (sent i.rw.inner))
        × (panicked ≡ panicked → sent before ≡ none → sent i.rw.inner ≡ some 500)
        × (i.unhandled ≡ unhandled + 1)

    -- A request whose handler returns or panics, and sends no informational header: while its context
    -- is not canceled the status that is logged and counted is the one that the client gets; a panic
    -- before anything was written is answered with 500, and each panic is counted once.
    pub handled-seen :
        (ops : List Op) (how : End) (unhandled : ℕ) (w : W)
        → sent w ≡ none
        → All IsFinal ops
        → how ≢ aborted
        → let i = handled net marshal r ops how unhandled w in
          let before = (rw_ops net ops (wrap net w)).inner in
          (info_status net false i ≡ answered (sent i.rw.inner))
          × (how ≡ panicked → sent before ≡ none → sent i.rw.inner ≡ some 500)
          × (i.unhandled ≡ unhandled + panics how)
    unfolding handled recovery
    handled-seen ops returned unhandled w h f n = (
      status-answered (handled net marshal r ops returned unhandled w) refl
          (rw_ops-sent ops (wrap net w) f (refl, refl, h)),
      (λ t u. cc),
      omega arith,
    )
    handled-seen ops panicked unhandled w h f n =
        let before = rw_ops net ops (wrap net w) in
        let sync = rw_ops-sent ops (wrap net w) f (refl, refl, h) in
        let written : ReqInfo net = record {
          rw = before;
          is_aborted = false;
          unhandled = unhandled + 1;
        } in
        let problem =
          write_problem net marshal (filled_once r (new_problem 500 "internal error")) in
        let added : ReqInfo net = record {
          rw = rw_ops net problem before;
          is_aborted = false;
          unhandled = unhandled + 1;
        } in
        if-P (IsSeen before.inner unhandled) before.wrote_header written added
          (λ t. elim sync [
            | inl (u, s, e) ↦ cc
            | inr v ↦ (status-answered written refl (inr v), λ q u. cc, refl)
          ])
          (λ t. elim sync [
            | inl v ↦
                let (g, c) =
                  write_problem-500 before (filled_once r (new_problem 500 "internal error"))
                    filled-500 v in
                (status-answered added refl (inr g), λ q u. g.2 ∙ ap some c, refl)
            | inr v ↦ cc
          ])
    handled-seen ops aborted unhandled w h f n = absurd (n refl)
