-- ===== src/Diff/Base/Chosen.antt =====
-- .opencode/lib/review-diff.ts: which candidate `resolveBaseRefWithDivergence` takes.
use complytime_providers.Prelude.{
  ◌≡◌, refl, Bool, false, Option, none, some, List, [], ◌∷◌, find, Result, ok, err, arith, Text,
}
use complytime_providers.Review.Votes.{is_cons}
use complytime_providers.Diff.Base.{
  BaseRef, base_ref_text, base_ref_candidates, GitExec, BaseRefResolution, rev_parse, resolved,
  resolve_among, resolve_base_ref_with_divergence,
}

-- Git resolves the candidate, and to a commit that is not empty.
abbrev resolves : Result Text → Bool
resolves (ok sha) = is_cons sha
resolves (err message) = false

unfoldable is_available : GitExec → BaseRef → Bool
unfolding rev_parse base_ref_text
is_available exec ref = resolves (exec (rev_parse (base_ref_text ref)))

abbrev ref_of : Option BaseRefResolution → Option BaseRef
ref_of none = none
ref_of (some r) = some r.ref

resolve_among-find :
    (exec : GitExec) (refs : List BaseRef)
    → ref_of (resolve_among exec refs) ≡ find (is_available exec) refs
unfolding resolve_among is_available resolved
resolve_among-find exec [] = refl
resolve_among-find exec (r ∷ refs) = ground (arith, resolve_among-find exec refs)

-- The base is the first of upstream/main, origin/main and main that git resolves, and there is none
-- if git resolves none of them.
resolve_base_ref_with_divergence-find :
    (exec : GitExec)
    → ref_of (resolve_base_ref_with_divergence exec) ≡ find (is_available exec) base_ref_candidates
unfolding resolve_base_ref_with_divergence
resolve_base_ref_with_divergence-find exec = resolve_among-find exec base_ref_candidates
