-- ===== src/Workflow/Tasks.antt =====
-- .opencode/plugins/uf-workflow/index.ts: the lines of tasks.md, `parseTasksText`, `findTaskLine`,
-- `countUncheckedCheckboxes`, and the tools `parse_tasks` and `mark_task_complete`.
pub mod Boxes
pub mod Lines
pub mod Marking
pub mod Written
pub mod ByLines
pub mod Outline
use complytime_providers.Prelude.{
  ℕ, suc, ◌+◌, Text, txt, ◌==◌, Bool, true, false, not, ◌&&◌, ◌||◌, Option, none, some, List, [],
  ◌∷◌, ◌++◌, map, length, any, filter, count, take, drop, nat_eq, if◌then◌else◌, is_space, trim,
  split, starts_with, ends_line,
}
use complytime_providers.Review.Votes.{is_cons}

pub record TaskLineMatch : Type 0 where
  pub indent : Text
  pub checked : Bool
  pub id : Text
  pub rest : Text

-- One carriage return less at the end.
unfoldable pub normalize_line : Text → Text
normalize_line [] = []
normalize_line (c ∷ []) = if nat_eq c 13 then [] else c ∷ []
normalize_line (c ∷ d ∷ s) = c ∷ normalize_line (d ∷ s)

-- `[ \t]`
abbrev pub is_blank : ℕ → Bool
is_blank c = nat_eq c 32 || nat_eq c 9

unfoldable pub skip_blanks : Text → Text
skip_blanks [] = []
skip_blanks (c ∷ s) = if is_blank c then skip_blanks s else c ∷ s

-- The characters at the start that pass the test, and what follows them.
unfoldable pub span : (ℕ → Bool) → Text → Text × Text
span p [] = ([], [])
span p (c ∷ s) = let (front, behind) = span p s in if p c then (c ∷ front, behind) else ([], c ∷ s)

-- `(?:[ \t]+(.*))?$`
unfoldable pub line_rest : Text → Option Text
unfolding skip_blanks
line_rest [] = some []
line_rest (c ∷ s) =
    let rest = skip_blanks s in if is_blank c && not (any ends_line rest) then some rest else none

-- `(\S+)` and what follows
unfoldable pub task_of : Text → Bool → Text → Option TaskLineMatch
unfolding span line_rest is_space
task_of indent checked s =
    let (id, behind) = span (λ c. not (is_space c)) s in
    if is_cons id
    then elim (line_rest behind) [
      | none ↦ none
      | some rest ↦ some (record { indent = indent; checked = checked; id = id; rest = rest })
    ]
    else none

-- `[ xX]`
abbrev pub is_box : ℕ → Bool
is_box c = nat_eq c 32 || nat_eq c b'x' || nat_eq c b'X'

-- `- \[([ xX])\][ \t]+` and what follows
unfoldable pub box_of : Text → Text → Option TaskLineMatch
unfolding task_of skip_blanks
box_of indent (d ∷ s ∷ o ∷ c ∷ e ∷ b ∷ more) =
    if nat_eq d b'-' && nat_eq s 32 && nat_eq o b'[' && is_box c && nat_eq e b']' && is_blank b
    then task_of indent (not (nat_eq c 32)) (skip_blanks more)
    else none
box_of indent _ = none

-- `TASK_LINE_PATTERN` on the normalised line
unfoldable pub match_task_line : Text → Option TaskLineMatch
unfolding normalize_line span box_of is_space
match_task_line raw_line =
    let (indent, body) = span is_space (normalize_line raw_line) in box_of indent body

-- `PHASE_HEADING_PATTERN`, trimmed
unfoldable pub phase_heading : Text → Option Text
unfolding trim
phase_heading (h ∷ i ∷ b ∷ s) =
    if nat_eq h b'#' && nat_eq i b'#' && is_blank b && is_cons s && not (any ends_line s)
    then some (trim s)
    else none
phase_heading _ = none

pub record ParsedTask : Type 0 where
  pub id : Text
  pub description : Text
  pub parallel : Bool
  pub done : Bool

pub record ParsedPhase : Type 0 where
  pub phase : Text
  pub tasks : List ParsedTask

pub record ParseTasksData : Type 0 where
  pub phases : List ParsedPhase
  pub total_tasks : ℕ
  pub done_count : ℕ
  pub all_done : Bool

abbrev starts_blank : Text → Bool
starts_blank [] = true
starts_blank (c ∷ s) = is_blank c

-- `PARALLEL_MARKER_PATTERN`
unfoldable pub has_parallel_marker : Text → Bool
unfolding starts_with txt
has_parallel_marker rest = starts_with rest (txt "[P]") && starts_blank (drop 3 rest)

unfoldable pub task_description : Text → Text
unfolding has_parallel_marker skip_blanks
task_description rest = if has_parallel_marker rest then skip_blanks (drop 3 rest) else rest

abbrev pub parsed_task : TaskLineMatch → ParsedTask
parsed_task m = record {
  id = m.id;
  description = task_description m.rest;
  parallel = has_parallel_marker m.rest;
  done = m.checked;
}

-- One more task of the current phase, which is the last one; without a phase it is dropped.
unfoldable pub push_task : List ParsedPhase → ParsedTask → List ParsedPhase
push_task [] t = []
push_task (p ∷ []) t = record p { tasks = p.tasks ++ t ∷ [] } ∷ []
push_task (p ∷ q ∷ ps) t = p ∷ push_task (q ∷ ps) t

-- What a line that is no heading adds.
unfoldable pub add_task : List ParsedPhase → Option TaskLineMatch → List ParsedPhase
unfolding push_task
add_task phases none = phases
add_task phases (some m) = if is_cons m.indent then phases else push_task phases (parsed_task m)

unfoldable pub parse_line : List ParsedPhase → Text → List ParsedPhase
unfolding phase_heading match_task_line normalize_line add_task
parse_line phases raw_line =
    let line = normalize_line raw_line in
    elim (phase_heading line) [
      | some heading ↦ phases ++ record { phase = heading; tasks = [] } ∷ []
      | none ↦ add_task phases (match_task_line line)
    ]

unfoldable pub parse_lines : List ParsedPhase → List Text → List ParsedPhase
unfolding parse_line
parse_lines phases [] = phases
parse_lines phases (line ∷ lines) = parse_lines (parse_line phases line) lines

unfoldable pub count_tasks : List ParsedPhase → ℕ
count_tasks [] = 0
count_tasks (p ∷ ps) = length p.tasks + count_tasks ps

abbrev pub is_done : ParsedTask → Bool
is_done t = t.done

unfoldable pub count_done : List ParsedPhase → ℕ
count_done [] = 0
count_done (p ∷ ps) = count is_done p.tasks + count_done ps

unfoldable pub parse_tasks_text : Text → ParseTasksData
unfolding parse_lines split count_tasks count_done
parse_tasks_text tasks_text =
    let phases = parse_lines [] (split 10 tasks_text) in
    record {
      phases = phases;
      total_tasks = count_tasks phases;
      done_count = count_done phases;
      all_done = nat_eq (count_done phases) (count_tasks phases);
    }

-- `match.indent === "" && !match.checked`
abbrev pub is_open : Option TaskLineMatch → Bool
is_open none = false
is_open (some m) = not (is_cons m.indent) && not m.checked

unfoldable pub count_unchecked_checkboxes : Text → ℕ
unfolding split match_task_line
count_unchecked_checkboxes tasks_text =
    count (λ line. is_open (match_task_line line)) (split 10 tasks_text)

pub data Found : Type 0 where
  flip_at : ℕ → Found
  already_complete : Found
  not_found : Found

-- Whether the line is that of a top-level task with the id.
abbrev pub has_id : Text → Option TaskLineMatch → Bool
has_id id none = false
has_id id (some m) = not (is_cons m.indent) && m.id == id

-- The loop of `findTaskLine`: the offset of the line, and whether a checked line was seen.
unfoldable pub find_among : Text → ℕ → Bool → List Text → Found
unfolding match_task_line
find_among id line_start seen [] = if seen then already_complete else not_found
find_among id line_start seen (line ∷ lines) =
    let m = match_task_line line in
    let later = find_among id (line_start + length line + 1) (seen || has_id id m) lines in
    if has_id id m && is_open m then flip_at (line_start + 3) else later

unfoldable pub find_task_line : Text → Text → Found
unfolding find_among split
find_task_line tasks_text id = find_among id 0 false (split 10 tasks_text)

-- `text.slice(0, at) + "x" + text.slice(at + 1)`
unfoldable pub check_at : ℕ → Text → Text
check_at at text = take at text ++ b'x' ∷ drop (at + 1) text

-- A file: missing, not readable, or its text.
pub data File : Type 0 where
  absent : File
  unreadable : (message : Text) → File
  contents : (text : Text) → File

pub data Code : Type 0 where
  tasks_file_not_found tasks_read_failed task_not_found tasks_write_failed : Code

pub data MarkOutcome : Type 0 where
  marked : (already_complete : Bool) → MarkOutcome
  not_marked : Code → MarkOutcome

-- What writing the file comes to: it holds the new text, or the write throws a message, and leaves
-- in the place of the file what it may.
pub data WriteAnswer : Type 0 where
  written : WriteAnswer
  broken : (message : Text) → (left : File) → WriteAnswer

-- What follows the search, on the text of the file.
unfoldable pub mark_found : (Text → WriteAnswer) → Text → Found → MarkOutcome × File
unfolding check_at
mark_found write_text text not_found = (not_marked task_not_found, contents text)
mark_found write_text text already_complete = (marked true, contents text)
mark_found write_text text (flip_at at) = elim (write_text (check_at at text)) [
  | written ↦ (marked false, contents (check_at at text))
  | broken message left ↦ (not_marked tasks_write_failed, left)
]

-- The body of `mark_task_complete`, behind the checks of its arguments.
unfoldable pub mark_task_complete : (Text → WriteAnswer) → Text → File → MarkOutcome × File
unfolding find_task_line mark_found
mark_task_complete write_text id absent = (not_marked tasks_file_not_found, absent)
mark_task_complete write_text id (unreadable message) =
    (not_marked tasks_read_failed, unreadable message)
mark_task_complete write_text id (contents text) =
    mark_found write_text text (find_task_line text id)
