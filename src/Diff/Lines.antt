-- ===== src/Diff/Lines.antt =====
-- .opencode/lib/review-diff.ts: lines of text, the counts of `git diff --numstat`, and the diff of a
-- new file.
use complytime_providers.Prelude.{
  ends_line, ℕ, ◌+◌, ◌-◌, ◌*◌, Text, txt, ◌==◌, Bool, not, ◌&&◌, Option, none, some, List, [], ◌∷◌,
  ◌++◌, map, length, filter, any, all, leb, nat_eq, if◌then◌else◌, decimal, split, join,
}
use complytime_providers.Review.Votes.{is_cons}

pub record FileChange : Type 0 where
  pub path : Text
  pub additions : ℕ
  pub deletions : ℕ

is_named : Text → Bool
unfolding ◌==◌ txt
is_named segment = is_cons segment && not (segment == txt ".")

unfoldable pub normalize_relative_path : Text → Text
unfolding split join is_named txt
normalize_relative_path value = join (txt "/") (filter is_named (split b'/' value))

-- `text.split("\n").filter(Boolean)`
unfoldable pub list_lines : Text → List Text
unfolding split
list_lines text = filter is_cons (split 10 text)

-- `pop()` if the last line is empty
unfoldable pub drop_last_empty : List Text → List Text
drop_last_empty [] = []
drop_last_empty (line ∷ []) = if is_cons line then line ∷ [] else []
drop_last_empty (line ∷ next ∷ lines) = line ∷ drop_last_empty (next ∷ lines)

unfoldable pub body_lines : Text → List Text
unfolding split drop_last_empty
body_lines content = drop_last_empty (split 10 content)

unfoldable pub count_content_lines : Text → ℕ
unfolding body_lines
count_content_lines content = if is_cons content then length (body_lines content) else 0

-- The parts before and behind the first tab.
unfoldable pub at_tab : Text → Option (Text × Text)
at_tab [] = none
at_tab (c ∷ s) =
    let later = at_tab s in
    if nat_eq c 9
    then some ([], s)
    else elim later [ none ↦ none | some (before, behind) ↦ some (c ∷ before, behind) ]

abbrev is_digit : ℕ → Bool
is_digit c = leb b'0' c && leb c b'9'

-- `Number(digits)`
number_of : ℕ → Text → ℕ
number_of n [] = n
number_of n (c ∷ s) = number_of (10 * n + (c - b'0')) s

-- A count: `\d+`, or `-` for a binary file, which counts as 0.
unfoldable pub count_of : Text → Option ℕ
unfolding number_of
count_of [] = none
count_of (c ∷ s) =
    if all is_digit (c ∷ s)
    then some (number_of 0 (c ∷ s))
    else if nat_eq c b'-' && not (is_cons s)
    then some 0
    else none

change_of : Option ℕ → Option ℕ → Text → Option FileChange
change_of (some additions) (some deletions) path =
    if is_cons path && not (any ends_line path)
    then some (record { path = path; additions = additions; deletions = deletions })
    else none
change_of _ _ path = none

-- `/^(\d+|-)\t(\d+|-)\t(.+)$/`
unfoldable pub numstat_line : Text → Option FileChange
unfolding at_tab count_of change_of
numstat_line line = elim (at_tab line) [
  | none ↦ none
  | some (added, behind) ↦ elim (at_tab behind) [
    | none ↦ none
    | some (deleted, path) ↦ change_of (count_of added) (count_of deleted) path
  ]
]

-- The lines that match.
unfoldable pub numstat_lines : List Text → List FileChange
unfolding numstat_line
numstat_lines [] = []
numstat_lines (line ∷ lines) = elim (numstat_line line) [
  | none ↦ numstat_lines lines
  | some change ↦ change ∷ numstat_lines lines
]

unfoldable pub parse_numstat : Text → List FileChange
unfolding numstat_lines list_lines
parse_numstat text = numstat_lines (list_lines text)

-- The hunk of a new file, without lines if it is empty.
hunk : List Text → List Text
unfolding decimal txt
hunk [] = []
hunk (line ∷ lines) =
    (txt "@@ -0,0 +1," ++ decimal (length (line ∷ lines)) ++ txt " @@")
    ∷ map (λ (l : Text). b'+' ∷ l) (line ∷ lines)

unfoldable pub render_new_file_diff : Text → Text → Text
unfolding hunk body_lines join txt
render_new_file_diff path content = join (10 ∷ []) (
    (txt "diff --git a/" ++ path ++ txt " b/" ++ path)
    ∷ txt "new file mode 100644"
    ∷ txt "--- /dev/null"
    ∷ (txt "+++ b/" ++ path)
    ∷ hunk (body_lines content))
