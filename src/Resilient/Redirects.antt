-- ===== src/Resilient/Redirects.antt =====
-- libs/resilient-http-client/transport.go: which redirects the client follows.
pub mod Followed
use golang_basics.Base.{
  ℕ, zero, suc, Bool, true, false, not, ◌&&◌, Option, none, some, List, [], ◌∷◌, ◌++◌, String,
  str_eq, length, ◌≡◌, if◌then◌else◌,
}
use golang_basics.Base.Int.{ℤ, pos, negsuc, ltb_ℤ}

pub record Url : Type 0 where
  pub scheme : String
  pub host : String

-- To follow, to use the last response (http.ErrUseLastResponse), or the policy's refusals and one of
-- the caller's own check.
pub data Verdict : Type 0 where
  follow use_last too_many cross_host downgraded refused : Verdict

abbrev is_zero : ℤ → Bool
is_zero (pos zero) = true
is_zero (pos (suc n)) = false
is_zero (negsuc n) = false

-- strings.EqualFold and the caller's CheckRedirect, which answers whether it has no error, are
-- arguments.
module _ (equal_fold : String → String → Bool) (check : Option (Url → List Url → Bool)) where
  abbrev ask_next : Url → List Url → Verdict
  ask_next req via = elim check [ none ↦ follow | some f ↦ if f req via then follow else refused ]

  -- The request before every redirect is the first of `via`, of which there is always one.
  unfoldable pub redirect_policy : ℤ → Bool → Url → Url → List Url → Verdict
  redirect_policy max_redirects any_host req orig later =
      let next = ask_next req (orig ∷ later) in
      if is_zero max_redirects
      then use_last
      else if ltb_ℤ max_redirects (pos (length (orig ∷ later)))
      then too_many
      else if any_host
      then next
      else if not (equal_fold req.host orig.host)
      then cross_host
      else if str_eq orig.scheme "https" && not (str_eq req.scheme "https")
      then downgraded
      else next
