-- ===== src/Workflow/Tasks/ByLines.antt =====
-- .opencode/plugins/uf-workflow/index.ts: `mark_task_complete` by the lines of the file.
use complytime_providers.Prelude.{
  ℕ, ◌≡◌, refl, ◌∙◌, inl, inr, ◌⊎◌, Text, true, false, any, if◌then◌else◌, split, arith,
}
use complytime_providers.Workflow.Tasks.{
  Found, flip_at, already_complete, not_found, find_task_line, check_at, File, contents, absent,
  unreadable, MarkOutcome, marked, not_marked, task_not_found, tasks_write_failed,
  tasks_file_not_found, tasks_read_failed, WriteAnswer, written, broken, mark_found,
  mark_task_complete,
}
use complytime_providers.Workflow.Tasks.Lines.{unlines}
use complytime_providers.Workflow.Tasks.Marking.{check_first}
use complytime_providers.Workflow.Tasks.Written.{
  check_at-unlines, find_among-outcome, line_of, open_line_of,
}

-- What a write of a new text makes of the file, and the outcome.
abbrev pub after_write : WriteAnswer → Text → MarkOutcome × File
after_write written new = (marked false, contents new)
after_write (broken message left) new = (not_marked tasks_write_failed, left)

-- `mark_task_complete` by the lines of the file: only if a line is an open one of the task, it is
-- written, with the box of the first such line checked.
abbrev pub by_lines : (Text → WriteAnswer) → Text → File → MarkOutcome × File
by_lines write_text id absent = (not_marked tasks_file_not_found, absent)
by_lines write_text id (unreadable message) = (not_marked tasks_read_failed, unreadable message)
by_lines write_text id (contents text) =
    let lines = split 10 text in
    let new = unlines (check_first id lines) in
    if any (open_line_of id) lines
    then after_write (write_text new) new
    else if any (line_of id) lines
    then (marked true, contents text)
    else (not_marked task_not_found, contents text)

WriteAnswer-cases :
    (answer : WriteAnswer)
    → (answer ≡ written) ⊎ ((message : Text) × (left : File) × (answer ≡ broken message left))
WriteAnswer-cases written = inl refl
WriteAnswer-cases (broken message left) = inr (message, left, refl)

after_write-mark_found :
    (write_text : Text → WriteAnswer) (text : Text) (n : ℕ)
    → mark_found write_text text (flip_at n)
      ≡ after_write (write_text (check_at n text)) (check_at n text)
unfolding mark_found
after_write-mark_found write_text text n = elim (WriteAnswer-cases (write_text (check_at n text))) [
  | inl done ↦ rw (done, mark_found) refl
  | inr (message, left, failed) ↦ rw (failed, mark_found) refl
]

found-by_lines :
    (write_text : Text → WriteAnswer) (id text : Text) (found : Found)
    → find_task_line text id ≡ found
    → mark_found write_text text found ≡ by_lines write_text id (contents text)
unfolding mark_found find_task_line
found-by_lines write_text id text not_found h =
    ground (arith, h, find_among-outcome id 0 false (split 10 text))
found-by_lines write_text id text already_complete h =
    ground (arith, h, find_among-outcome id 0 false (split 10 text))
found-by_lines write_text id text (flip_at n) h =
    let new : check_at n text ≡ unlines (check_first id (split 10 text)) =
      check_at-unlines text id n h in
    let some_open : any (open_line_of id) (split 10 text) ≡ true =
      ground (arith, h, find_among-outcome id 0 false (split 10 text)) in
    after_write-mark_found write_text text n ∙ rw (some_open, new) refl

-- Whatever the file and the write are, `mark_task_complete` does what is done by the lines of the
-- file: an absent or unreadable file is reported and left; if a line is an open one of the task, the
-- text with the first such line checked is written, and the file is what that write leaves, also
-- where it fails; otherwise nothing is written, and the outcome is whether a line is of the task.
pub mark_task_complete-by_lines :
    (write_text : Text → WriteAnswer) (id : Text) (file : File)
    → mark_task_complete write_text id file ≡ by_lines write_text id file
unfolding mark_task_complete
mark_task_complete-by_lines write_text id absent = refl
mark_task_complete-by_lines write_text id (unreadable message) = refl
mark_task_complete-by_lines write_text id (contents text) =
    found-by_lines write_text id text (find_task_line text id) refl
