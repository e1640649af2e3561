-- ===== src/Workflow/Reasons.antt =====
-- The seven reasons for which a failure of the environment may be retried for free.
use chum.Base.{
  ℕ, suc, ◌≤◌, ◌<◌, ◌≡◌, sym, inl, inr, true, false, List, [], ◌∷◌, arith, if◌then◌else◌,
  Bool-cases,
}
use chum.Text.{Text, text, text_eq, text_eq_iff, one_of}
use chum.Failure.{extract_infra_reason}

-- Every text that `extractInfraReason` can return.
abbrev pub reasons : List Text
reasons =
    text "golangci-lint parallel lock (another instance running)"
    ∷ text "golangci-lint config/runtime error (exit 3)"
    ∷ text "semgrep config/download error (exit 7)"
    ∷ text "required tool not found in PATH"
    ∷ text "disk full"
    ∷ text "git lock contention"
    ∷ text "infrastructure/environment error"
    ∷ []

pub reason_known : (lower : Text) → one_of reasons (extract_infra_reason lower) ≡ true
unfolding extract_infra_reason text_eq
reason_known lower = ground arith

-- How many reasons have not given a free pass yet.
unfoldable pub unseen : List Text → List Text → ℕ
unseen seen [] = 0
unseen seen (r ∷ rs) = let n = unseen seen rs in if one_of seen r then n else suc n

unseen-cons-le : (x : Text) (seen rs : List Text) → unseen (x ∷ seen) rs ≤ unseen seen rs
unfolding unseen
unseen-cons-le x seen [] = omega arith
unseen-cons-le x seen (r ∷ rs) = ground (arith, unseen-cons-le x seen rs)

pub unseen-cons-lt :
    (x : Text) (seen rs : List Text)
    → one_of rs x ≡ true
    → one_of seen x ≡ false
    → unseen (x ∷ seen) rs < unseen seen rs
unfolding unseen
unseen-cons-lt x seen [] h k = cc
unseen-cons-lt x seen (r ∷ rs) h k = elim (Bool-cases (text_eq x r)) [
  | inl e ↦
      let same : x ≡ r = (text_eq_iff x r).0 e in
      let e' : text_eq r x ≡ true = (text_eq_iff r x).1 (sym same) in
      let k' : one_of seen r ≡ false = rw same at k in
      ground (arith, unseen-cons-le x seen rs, e', k')
  | inr e ↦ ground (arith, e, unseen-cons-lt x seen rs (rw e at h) k)
]
