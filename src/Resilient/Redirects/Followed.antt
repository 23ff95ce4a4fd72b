-- ===== src/Resilient/Redirects/Followed.antt =====
-- libs/resilient-http-client/transport.go: where a chain of redirects can lead.
use golang_basics.Base.{
  ℕ, zero, suc, ◌+◌, ◌≤◌, ◌≡◌, Bool, true, false, Option, List, [], ◌∷◌, ◌++◌, String, str_eq,
  length, length-append, All, arith,
}
use golang_basics.Base.Int.{pos}
use golang_basics.Resilient.Redirects.{Url, follow, redirect_policy}

module _ (equal_fold : String → String → Bool) (check : Option (Url → List Url → Bool)) where
  -- Each of the requests was let through after those before it.
  abbrev pub AllFollowed : ℕ → Url → List Url → List Url → Type 0
  AllFollowed n orig before [] = Unit
  AllFollowed n orig before (r ∷ rs) =
      (redirect_policy equal_fold check (pos n) false r orig before ≡ follow)
      × AllFollowed n orig (before ++ (r ∷ [])) rs

  abbrev pub IsHome : Url → Url → Type 0
  IsHome orig r =
      (equal_fold r.host orig.host ≡ true)
      × (str_eq orig.scheme "https" ≡ true → str_eq r.scheme "https" ≡ true)

  redirect_policy-IsHome :
      (n : ℕ) (r orig : Url) (before : List Url)
      → redirect_policy equal_fold check (pos n) false r orig before ≡ follow
      → IsHome orig r × (length before + 1 ≤ n)
  unfolding redirect_policy
  redirect_policy-IsHome zero r orig before h = cc
  redirect_policy-IsHome (suc n) r orig before h = ((ground arith, λ e. ground arith), ground arith)

  followed :
      (n : ℕ) (orig : Url) (before rs : List Url)
      → length before ≤ n
      → AllFollowed n orig before rs
      → All (IsHome orig) rs × (length before + length rs ≤ n)
  followed n orig before [] h u = (tt, omega arith)
  followed n orig before (r ∷ rs) h (f, u) =
      let (home, few) = redirect_policy-IsHome n r orig before f in
      let (homes, all) =
        followed n orig (before ++ (r ∷ [])) rs (omega (arith, length-append before (r ∷ []))) u in
      ((home, homes), omega (arith, length-append before (r ∷ [])))

  -- Where other hosts are not allowed, a client that follows the policy makes at most maxRedirects
  -- redirects of a request, each to the host of the request, and from https to https only.
  followed-IsHome :
      (n : ℕ) (orig : Url) (rs : List Url)
      → AllFollowed n orig [] rs
      → All (IsHome orig) rs × (length rs ≤ n)
  followed-IsHome n orig rs u =
      let (homes, few) = followed n orig [] rs (omega arith) u in (homes, omega arith)
