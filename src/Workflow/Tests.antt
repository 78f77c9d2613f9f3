-- ===== src/Workflow/Tests.antt =====
-- .opencode/plugins/uf-workflow/index.ts and .opencode/lib/uf-workflow-types.ts: examples.
use complytime_providers.Prelude.{
  ◌+◌, ◌≡◌, refl, Text, txt, true, false, if◌then◌else◌, any, split, ◌==◌,
}
use complytime_providers.Workflow.Tasks.{
  contents, WriteAnswer, written, broken, marked, not_marked, task_not_found, mark_task_complete,
  count_unchecked_checkboxes,
}
use complytime_providers.Workflow.Tasks.{parse_tasks_text}
use complytime_providers.Workflow.Tasks.Outline.{outline, parse_tasks_text-mark_task_complete}
use complytime_providers.Workflow.Tasks.Marking.{check_first}
use complytime_providers.Workflow.Tasks.ByLines.{mark_task_complete-by_lines, by_lines}
use complytime_providers.Workflow.Tasks.Written.{
  mark_task_complete-lines, mark_task_complete-count, mark_task_complete-outcome, line_of,
  open_line_of,
}

-- A file of two tasks, of which the first is complete.
abbrev two_tasks : Text
two_tasks = txt "## Phase\n- [x] 1.1 Read\n- [ ] 1.2 [P] Write\n"

abbrev two_tasks_done : Text
two_tasks_done = txt "## Phase\n- [x] 1.1 Read\n- [x] 1.2 [P] Write\n"

abbrev writes : Text → WriteAnswer
writes new = written

mark_task_complete-lines_example :
    (after : Text) × (contents two_tasks_done ≡ contents after)
    × (split 10 after ≡ check_first (txt "1.2") (split 10 two_tasks))
unfolding mark_task_complete txt split ◌==◌
mark_task_complete-lines_example =
    mark_task_complete-lines writes (txt "1.2") two_tasks (contents two_tasks_done) refl

mark_task_complete-count_example :
    count_unchecked_checkboxes two_tasks_done + 1 ≡ count_unchecked_checkboxes two_tasks
unfolding mark_task_complete txt split ◌==◌
mark_task_complete-count_example =
    mark_task_complete-count writes (txt "1.2") two_tasks two_tasks_done refl

-- A write that fails, and leaves the file cut short.
abbrev cuts : Text → WriteAnswer
cuts new = broken (txt "ENOSPC") (contents (txt "## Phase"))

mark_task_complete-by_lines_example :
    mark_task_complete cuts (txt "1.2") (contents two_tasks)
    ≡ by_lines cuts (txt "1.2") (contents two_tasks)
mark_task_complete-by_lines_example =
    mark_task_complete-by_lines cuts (txt "1.2") (contents two_tasks)

mark_task_complete-outcome_example :
    (mark_task_complete writes (txt "2.1") (contents two_tasks)).0 ≡ (
      if any (open_line_of (txt "2.1")) (split 10 two_tasks)
      then marked false
      else if any (line_of (txt "2.1")) (split 10 two_tasks)
      then marked true
      else not_marked task_not_found)
mark_task_complete-outcome_example =
    mark_task_complete-outcome writes (txt "2.1") two_tasks (λ new. refl)

parse_tasks_text-mark_task_complete_example :
    (outline (parse_tasks_text two_tasks_done).phases ≡ outline (parse_tasks_text two_tasks).phases)
    × ((parse_tasks_text two_tasks_done).total_tasks ≡ (parse_tasks_text two_tasks).total_tasks)
unfolding mark_task_complete txt split ◌==◌
parse_tasks_text-mark_task_complete_example =
    parse_tasks_text-mark_task_complete writes (txt "1.2") two_tasks two_tasks_done refl
