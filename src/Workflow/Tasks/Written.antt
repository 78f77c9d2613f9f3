-- ===== src/Workflow/Tasks/Written.antt =====
-- .opencode/plugins/uf-workflow/index.ts: what `mark_task_complete` leaves in the file.
use complytime_providers.Prelude.{
  ℕ, zero, suc, ◌+◌, ◌<◌, ◌≡◌, refl, ap, sym, ◌∙◌, inl, inr, Text, Bool, true, false, ◌&&◌, ◌||◌,
  Option, none, some, List, [], ◌∷◌, length, All, any, count, if◌then◌else◌, split, arith,
  Bool-cases,
}
use complytime_providers.Review.Votes.{is_cons}
use complytime_providers.Workflow.Tasks.{
  TaskLineMatch, match_task_line, is_open, has_id, Found, flip_at, already_complete, not_found,
  find_among, find_task_line, check_at, count_unchecked_checkboxes, File, contents, MarkOutcome,
  marked, not_marked, task_not_found, WriteAnswer, written, mark_found, mark_task_complete,
}
use complytime_providers.Workflow.Tasks.Lines.{
  IsLine, unlines, split-All, join-split, split-join, split_shape,
}
use complytime_providers.Workflow.Tasks.Boxes.{match_task_line-check_at, checked_match}
use complytime_providers.Workflow.Tasks.Marking.{
  check_at-suc, check_at-zero, open_lines_long, check_first, check_first_cons, find_among-check,
}

check_at-IsLine : (line : Text) (k : ℕ) → k < length line → IsLine line → IsLine (check_at k line)
check_at-IsLine [] k short h = absurd (omega (arith, short))
check_at-IsLine (c ∷ line) zero long h = rw (check_at-zero) (ground (arith, h))
check_at-IsLine (c ∷ line) (suc k) long h =
    rw (check_at-suc)
      (ground (arith, h, check_at-IsLine line k (omega (arith, long)) (ground (arith, h))))

check_first-All :
    (id : Text) (lines : List Text) → All IsLine lines → All IsLine (check_first id lines)
check_first-All id [] h = h
check_first-All id (line ∷ lines) h =
    elim (Bool-cases (has_id id (match_task_line line) && is_open (match_task_line line))) [
      | inl here ↦
          rw (here) (check_at-IsLine line 3 (open_lines_long line (ground (arith, here))) h.0, h.1)
      | inr other ↦ rw (other) (h.0, check_first-All id lines h.1)
    ]

split-unlines :
    (lines : List Text) → All IsLine lines → is_cons lines ≡ true → split 10 (unlines lines) ≡ lines
split-unlines [] h some_line = absurd cc
split-unlines (line ∷ lines) h some_line = split-join line lines h

check_first-is_cons :
    (id : Text) (lines : List Text) → is_cons lines ≡ true → is_cons (check_first id lines) ≡ true
check_first-is_cons id [] h = h
check_first-is_cons id (line ∷ lines) h = check_first_cons id line lines

split-is_cons : (s : Text) → is_cons (split 10 s) ≡ true
split-is_cons s = let (line, lines, e) = split_shape s in ap is_cons e

-- The offset found, checked, is the text of the lines with the first open one checked.
pub check_at-unlines :
    (text id : Text) (n : ℕ)
    → find_task_line text id ≡ flip_at n
    → check_at n text ≡ unlines (check_first id (split 10 text))
unfolding find_task_line
check_at-unlines text id n h =
    let (k, at, e, _) = find_among-check id 0 false (split 10 text) n h in
    let here : n ≡ k = omega (arith, at) in
    ap (λ q. check_at q text) here ∙ ap (check_at k) (sym (join-split text)) ∙ sym e

-- The offset found, checked: the lines are the same, but for the first open one of the task.
pub split-check_at :
    (text id : Text) (n : ℕ)
    → find_task_line text id ≡ flip_at n
    → split 10 (check_at n text) ≡ check_first id (split 10 text)
split-check_at text id n h =
    ap (split 10) (check_at-unlines text id n h)
    ∙ split-unlines (check_first id (split 10 text))
        (check_first-All id (split 10 text) (split-All text))
        (check_first-is_cons id (split 10 text) (split-is_cons text))

-- The lines with an open box, counted.
abbrev count_open : List Text → ℕ
count_open lines = count (λ line. is_open (match_task_line line)) lines

is_open-checked : (m : Option TaskLineMatch) → is_open (checked_match m) ≡ false
is_open-checked none = refl
is_open-checked (some m) = ground arith

find_among-count :
    (id : Text) (start : ℕ) (seen : Bool) (lines : List Text) (n : ℕ)
    → find_among id start seen lines ≡ flip_at n
    → count_open (check_first id lines) + 1 ≡ count_open lines
unfolding find_among
find_among-count id start seen [] n h = absurd (ground (arith, h))
find_among-count id start seen (line ∷ lines) n h =
    let m = match_task_line line in
    elim (Bool-cases (has_id id m && is_open m)) [
      | inl here ↦
          let open_line : is_open m ≡ true = ground (arith, here) in
          let checked = ap is_open (match_task_line-check_at line open_line) ∙ is_open-checked m in
          rw (here) (rw (open_line, checked) (omega arith))
      | inr other ↦ rw (other) (
          omega (
            arith,
            find_among-count id (start + length line + 1) (seen || has_id id m) lines n
                (rw (other) at h),
          ))
    ]

pub count_unchecked_checkboxes-check_at :
    (text id : Text) (n : ℕ)
    → find_task_line text id ≡ flip_at n
    → count_unchecked_checkboxes (check_at n text) + 1 ≡ count_unchecked_checkboxes text
unfolding find_task_line count_unchecked_checkboxes
count_unchecked_checkboxes-check_at text id n h =
    rw (split-check_at text id n h) (find_among-count id 0 false (split 10 text) n h)

-- A marking that reports success has found a box, and the new text is in the file.
mark_found-marked :
    (write_text : Text → WriteAnswer) (text : Text) (found : Found) (file : File)
    → mark_found write_text text found ≡ (marked false, file)
    → (n : ℕ) × (found ≡ flip_at n) × (file ≡ contents (check_at n text))
unfolding mark_found
mark_found-marked write_text text not_found file h = absurd cc
mark_found-marked write_text text already_complete file h = absurd cc
mark_found-marked write_text text (flip_at at) file h = ground (arith, h)

-- When `mark_task_complete` reports that it has checked a box, the file holds the same lines as
-- before, but for the first open line of the task, in which the fourth character is now an x.
pub mark_task_complete-lines :
    (write_text : Text → WriteAnswer) (id text : Text) (file : File)
    → mark_task_complete write_text id (contents text) ≡ (marked false, file)
    → (after : Text) × (file ≡ contents after) × (split 10 after ≡ check_first id (split 10 text))
unfolding mark_task_complete
mark_task_complete-lines write_text id text file h =
    let (n, found, e) = mark_found-marked write_text text (find_task_line text id) file h in
    (check_at n text, e, split-check_at text id n found)

-- When `mark_task_complete` reports that it has checked a box, the file has exactly one unchecked
-- box less than before.
pub mark_task_complete-count :
    (write_text : Text → WriteAnswer) (id text after : Text)
    → mark_task_complete write_text id (contents text) ≡ (marked false, contents after)
    → count_unchecked_checkboxes after + 1 ≡ count_unchecked_checkboxes text
unfolding mark_task_complete
mark_task_complete-count write_text id text after h =
    let (n, found, e) =
      mark_found-marked write_text text (find_task_line text id) (contents after) h in
    let same : after ≡ check_at n text = cc in
    rw (same) (count_unchecked_checkboxes-check_at text id n found)

-- Whether a line is one of the task, and whether it is open too.
abbrev pub line_of : Text → Text → Bool
line_of id line = has_id id (match_task_line line)

abbrev pub open_line_of : Text → Text → Bool
open_line_of id line = has_id id (match_task_line line) && is_open (match_task_line line)

-- The outcome for a result of the search, when no write fails.
abbrev outcome_of : Found → MarkOutcome
outcome_of not_found = not_marked task_not_found
outcome_of already_complete = marked true
outcome_of (flip_at n) = marked false

pub find_among-outcome :
    (id : Text) (start : ℕ) (seen : Bool) (lines : List Text)
    → outcome_of (find_among id start seen lines) ≡ (
        if any (open_line_of id) lines
        then marked false
        else if seen || any (line_of id) lines
        then marked true
        else not_marked task_not_found)
unfolding find_among
find_among-outcome id start seen [] = ground arith
find_among-outcome id start seen (line ∷ lines) =
    ground (arith, find_among-outcome id (start + length line + 1) (seen || line_of id line) lines)

mark_found-outcome :
    (write_text : Text → WriteAnswer) (text : Text) (found : Found)
    → ((new : Text) → write_text new ≡ written)
    → (mark_found write_text text found).0 ≡ outcome_of found
unfolding mark_found
mark_found-outcome write_text text not_found h = refl
mark_found-outcome write_text text already_complete h = refl
mark_found-outcome write_text text (flip_at at) h = rw (h (check_at at text), mark_found) refl

-- When no write fails, `mark_task_complete` on a file checks a box exactly if some line is an open
-- one of the task, reports that the task is complete already if lines of the task are there and
-- none of them is open, and reports that the task is not found if there is none.
pub mark_task_complete-outcome :
    (write_text : Text → WriteAnswer) (id text : Text)
    → ((new : Text) → write_text new ≡ written)
    → (mark_task_complete write_text id (contents text)).0 ≡ (
        if any (open_line_of id) (split 10 text)
        then marked false
        else if any (line_of id) (split 10 text)
        then marked true
        else not_marked task_not_found)
unfolding mark_task_complete find_task_line
mark_task_complete-outcome write_text id text writes =
    mark_found-outcome write_text text (find_task_line text id) writes
    ∙ find_among-outcome id 0 false (split 10 text)
