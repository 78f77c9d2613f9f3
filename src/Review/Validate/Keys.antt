-- ===== src/Review/Validate/Keys.antt =====
-- .opencode/plugins/review-dispatch/index.ts: the keys that the semantic validation compares.
use complytime_providers.Prelude.{
  ℕ, Text, txt, ◌==◌, Bool, true, false, ◌&&◌, Option, none, some, List, [], ◌∷◌, ◌++◌, length,
  nat_eq, if◌then◌else◌, or_else, set_of, sort, decimal, Runtime, trim, collapse_spaces,
  forward_slashes, starts_with, drop,
}
use complytime_providers.Review.Model.{Source, source_text, Finding, Run, PlanEntry}

-- `if (c) errors.push(message)`
abbrev pub when : Bool → Text → List Text
when true message = message ∷ []
when false message = []

abbrev pub same_text : Option Text → Option Text → Bool
same_text none none = true
same_text (some a) (some b) = a == b
same_text _ _ = false

-- `uniqueSorted`
unfoldable pub unique_sorted : List Text → List Text
unfolding set_of sort
unique_sorted values = sort (set_of values)

-- `value.agent + "\0" + value.source + "\0" + value.sequence`
unfoldable pub plan_identity : Text → Source → ℕ → Text
unfolding source_text decimal
plan_identity agent source sequence = agent ++ 0 ∷ source_text source ++ 0 ∷ decimal sequence

abbrev pub entry_identity : PlanEntry → Text
entry_identity e = plan_identity e.agent e.source e.sequence

abbrev pub run_identity : Run → Text
run_identity r = plan_identity r.agent r.source r.sequence

-- `s.replace(/^\.\//, "")`
unfoldable pub strip_dot_slash : Text → Text
unfolding starts_with txt
strip_dot_slash s = if starts_with s (txt "./") then drop 2 s else s

unfoldable pub normalized_finding_key : Runtime → Option Text → Text → Text
unfolding strip_dot_slash forward_slashes trim collapse_spaces txt
normalized_finding_key js file root_cause =
    let path =
      js.lower (strip_dot_slash (forward_slashes (js.nfc (or_else file (txt "<none>"))))) in
    path ++ 0 ∷ js.lower (collapse_spaces (trim (js.nfc root_cause)))

abbrev pub finding_key : Runtime → Finding → Text
finding_key js f = normalized_finding_key js f.file f.root_cause

equal_texts : List Text → List Text → Bool
equal_texts [] [] = true
equal_texts (x ∷ xs) (y ∷ ys) = x == y && equal_texts xs ys
equal_texts _ _ = false

-- every element of the first list stands at its place in the second
all_at : List Text → List Text → Bool
all_at [] ys = true
all_at (x ∷ xs) [] = false
all_at (x ∷ xs) (y ∷ ys) = x == y && all_at xs ys

unfoldable pub equal_sets : List Text → List Text → Bool
unfolding all_at unique_sorted
equal_sets left right =
    nat_eq (length left) (length right) && all_at (unique_sorted left) (unique_sorted right)

abbrev pub about : Text → Text → Text → Text
about before id after = before ++ id ++ after
