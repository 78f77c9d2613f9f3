-- ===== src/Diff/Base.antt =====
-- .opencode/lib/review-diff.ts: `resolveBaseRefWithDivergence`. Git is a function of its arguments:
-- the repository does not change while a diff is captured.
pub mod Chosen
use complytime_providers.Prelude.{
  Text, txt, Bool, true, false, Option, none, some, List, [], ◌∷◌, if◌then◌else◌, Result, ok, err,
}
use complytime_providers.Review.Votes.{is_cons}

pub data BaseRef : Type 0 where
  upstream_main origin_main main : BaseRef

unfoldable pub base_ref_text : BaseRef → Text
unfolding txt
base_ref_text upstream_main = txt "upstream/main"
base_ref_text origin_main = txt "origin/main"
base_ref_text main = txt "main"

abbrev pub base_ref_candidates : List BaseRef
base_ref_candidates = upstream_main ∷ origin_main ∷ main ∷ []

-- `exec(args, cwd)` in the directory of the repository: the output, or the message it throws.
abbrev pub GitExec : Type 0
GitExec = List Text → Result Text

-- `source` is `ref`.
pub record BaseRefResolution : Type 0 where
  pub ref : BaseRef
  pub sha : Text
  pub head_sha : Text
  pub diverged : Bool

unfoldable pub rev_parse : Text → List Text
unfolding txt
rev_parse name = txt "rev-parse" ∷ txt "--verify" ∷ name ∷ []

unfoldable pub is_ancestor : Text → List Text
unfolding txt
is_ancestor sha = txt "merge-base" ∷ txt "--is-ancestor" ∷ sha ∷ txt "HEAD" ∷ []

-- `head_sha` and `diverged`
unfoldable pub resolve_head_state : GitExec → Text → Text × Bool
unfolding rev_parse is_ancestor txt
resolve_head_state exec base_sha = elim (exec (rev_parse (txt "HEAD"))) [
  | err message ↦ ([], false)
  | ok head_sha ↦ elim (exec (is_ancestor base_sha)) [
    | err message ↦ (head_sha, true)
    | ok output ↦ (head_sha, false)
  ]
]

unfoldable pub resolved : GitExec → BaseRef → Text → BaseRefResolution
unfolding resolve_head_state
resolved exec candidate sha = record {
  ref = candidate;
  sha = sha;
  head_sha = (resolve_head_state exec sha).0;
  diverged = (resolve_head_state exec sha).1;
}

-- The loop over the candidates.
unfoldable pub resolve_among : GitExec → List BaseRef → Option BaseRefResolution
unfolding rev_parse base_ref_text resolved
resolve_among exec [] = none
resolve_among exec (candidate ∷ candidates) =
    let others = resolve_among exec candidates in
    elim (exec (rev_parse (base_ref_text candidate))) [
      | err message ↦ others
      | ok sha ↦ if is_cons sha then some (resolved exec candidate sha) else others
    ]

unfoldable pub resolve_base_ref_with_divergence : GitExec → Option BaseRefResolution
unfolding resolve_among
resolve_base_ref_with_divergence exec = resolve_among exec base_ref_candidates
