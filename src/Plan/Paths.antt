-- ===== src/Plan/Paths.antt =====
-- .opencode/plugins/review-dispatch/index.ts: `normalizePath`, `classifyPath`, `componentForPath`.
use complytime_providers.Prelude.{
  ℕ, Text, txt, ◌==◌, Bool, true, false, not, ◌&&◌, ◌||◌, none, some, List, [], ◌∷◌, ◌++◌, any,
  nat_eq, if◌then◌else◌, includes, Result, ok, err, Runtime, forward_slashes, split, starts_with,
  ends_with, contains, drop, at_last_slash, reverse,
}
use complytime_providers.Review.Votes.{is_cons}
use complytime_providers.Plan.Policy.{
  Category, security, cli_ux, test_quality, documentation, ci_cd, dependencies, plain,
}

-- A segment that `normalizePath` refuses: "", "." or "..".
abbrev pub is_dots : Text → Bool
is_dots [] = true
is_dots (c ∷ []) = nat_eq c b'.'
is_dots (c ∷ d ∷ []) = nat_eq c b'.' && nat_eq d b'.'
is_dots _ = false

unfoldable pub normalize_path : Runtime → Text → Result Text
unfolding forward_slashes split starts_with contains txt
normalize_path js input =
    let normalized = forward_slashes input in
    if starts_with normalized (txt "/")
      || contains normalized (0 ∷ [])
      || any is_dots (split b'/' normalized)
    then err (txt "invalid changed-file path " ++ js.stringify input)
    else ok normalized

-- What stands behind the last `/`.
unfoldable pub base_name : Text → Text
unfolding at_last_slash
base_name path = elim (at_last_slash path) [ none ↦ path | some (before, behind) ↦ behind ]

-- `/_spec\.[^/]+$/`
unfoldable pub is_spec : Text → Bool
unfolding starts_with contains txt
is_spec [] = false
is_spec (c ∷ s) =
    (starts_with (c ∷ s) (txt "_spec.")
      && is_cons (drop 6 (c ∷ s))
      && not (contains (drop 6 (c ∷ s)) (txt "/")))
    || is_spec s

-- `/(^|\/)(a|b|…)(\/|$)/`: a segment of the path is one of the names.
unfoldable pub has_segment : Text → List Text → Bool
unfolding split includes ◌==◌
has_segment path names = any (includes names) (split b'/' path)

unfoldable pub classify_path : Runtime → Text → Category
unfolding base_name is_spec has_segment starts_with ends_with contains includes ◌==◌ txt
classify_path js path =
    let lower = js.lower path in
    let base = base_name lower in
    if ends_with base (txt "_test.go")
      || ends_with base (txt "_test.py")
      || contains lower (txt "/__tests__/")
      || is_spec base
    then test_quality
    else if has_segment lower (txt "cmd" ∷ txt "cli" ∷ [])
    then cli_ux
    else if has_segment lower (txt "api" ∷ txt "handler" ∷ txt "middleware" ∷ txt "routes" ∷ [])
    then security
    else if ends_with base (txt ".md")
        || starts_with lower (txt "docs/")
        || contains lower (txt "/docs/")
    then documentation
    else if starts_with lower (txt ".github/workflows/") || starts_with base (txt "dockerfile")
    then ci_cd
    else if includes (txt "go.mod" ∷ txt "package.json" ∷ txt "requirements.txt" ∷ []) base
    then dependencies
    else plain

abbrev or_root : Text → Text
or_root [] = txt "<root>"
or_root (c ∷ s) = c ∷ s

-- `s.slice(0, -n)`
abbrev drop_end : ℕ → Text → Text
drop_end n s = reverse (drop n (reverse s))

unfoldable pub component_for_path : Text → Text
unfolding at_last_slash ends_with txt
component_for_path path = elim (at_last_slash path) [
  | none ↦ txt "<root>"
  | some (parent, behind) ↦
      if ends_with parent (txt "/__tests__") then or_root (drop_end 10 parent) else parent
]
