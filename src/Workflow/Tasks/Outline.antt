-- ===== src/Workflow/Tasks/Outline.antt =====
-- .opencode/plugins/uf-workflow/index.ts: what `parse_tasks` reports before and after a marking.
use complytime_providers.Prelude.{
  ℕ, ◌≡◌, refl, sym, ap, ◌∙◌, inl, inr, Text, Bool, true, false, not, ◌&&◌, Option, none, some,
  List, [], ◌∷◌, ◌++◌, map, length, nat_eq, is_space, split, Bool-cases, Option-cases, arith,
}
use complytime_providers.Review.Votes.{is_cons}
use complytime_providers.Workflow.Tasks.{
  WriteAnswer, TaskLineMatch, ParsedTask, ParsedPhase, parsed_task, push_task, add_task, parse_line,
  parse_lines, count_tasks, parse_tasks_text, phase_heading, normalize_line, skip_blanks, task_of,
  box_of, match_task_line, is_open, has_id, check_at, contents, marked, mark_task_complete,
}
use complytime_providers.Workflow.Tasks.Boxes.{
  checked_match, task_of-checked, match_task_line_top, match_task_line_indented,
  match_task_line_short,
}
use complytime_providers.Workflow.Tasks.Marking.{check_first}
use complytime_providers.Workflow.Tasks.Written.{mark_task_complete-lines}

-- The phases with every task unchecked.
abbrev pub undone : ParsedTask → ParsedTask
undone t = record t { done = false }

abbrev pub outline_phase : ParsedPhase → ParsedPhase
outline_phase p = record p { tasks = map undone p.tasks }

abbrev pub outline : List ParsedPhase → List ParsedPhase
outline phases = map outline_phase phases

map-append {ℓ κ} :
    {A : Type ℓ} {B : Type κ} (f : A → B) (xs ys : List A) → map f (xs ++ ys) ≡ map f xs ++ map f ys
map-append f [] ys = refl
map-append f (x ∷ xs) ys = ap (λ q. f x ∷ q) (map-append f xs ys)

outline-push_task :
    (ps : List ParsedPhase) (t : ParsedTask)
    → outline (push_task ps t) ≡ push_task (outline ps) (undone t)
unfolding push_task
outline-push_task [] t = refl
outline-push_task (p ∷ []) t =
    ap (λ q. record p { tasks = q } ∷ []) (map-append undone p.tasks (t ∷ []))
outline-push_task (p ∷ q ∷ ps) t =
    ap (λ rest. outline_phase p ∷ rest) (outline-push_task (q ∷ ps) t)

-- What a task line adds to phases of the same outline, whether it is checked or not.
add_task-checked :
    (ps : List ParsedPhase) (m : Option TaskLineMatch)
    → outline (add_task ps (checked_match m)) ≡ outline (add_task ps m)
unfolding add_task
add_task-checked ps none = refl
add_task-checked ps (some m) = elim (Bool-cases (is_cons m.indent)) [
  | inl inner ↦ rw (inner) refl
  | inr top ↦ rw (top) (
      outline-push_task ps (parsed_task (record m { checked = true }))
      ∙ sym (outline-push_task ps (parsed_task m)))
]

add_task-outline :
    (ps qs : List ParsedPhase) (m : Option TaskLineMatch)
    → outline ps ≡ outline qs
    → outline (add_task ps m) ≡ outline (add_task qs m)
unfolding add_task
add_task-outline ps qs none h = h
add_task-outline ps qs (some m) h = elim (Bool-cases (is_cons m.indent)) [
  | inl inner ↦ rw (inner) h
  | inr top ↦ rw (top) (
      outline-push_task ps (parsed_task m)
      ∙ ap (λ r. push_task r (undone (parsed_task m))) h
      ∙ sym (outline-push_task qs (parsed_task m)))
]

parse_line-outline :
    (ps qs : List ParsedPhase) (line : Text)
    → outline ps ≡ outline qs
    → outline (parse_line ps line) ≡ outline (parse_line qs line)
unfolding parse_line
parse_line-outline ps qs line h = elim (Option-cases (phase_heading (normalize_line line))) [
  | inl none_here ↦
      rw (none_here, parse_line) (add_task-outline ps qs (match_task_line (normalize_line line)) h)
  | inr (heading, e) ↦
      let new : List ParsedPhase = record { phase = heading; tasks = [] } ∷ [] in
      rw (e, parse_line)
        (map-append outline_phase ps new
          ∙ ap (λ r. r ++ outline new) h
          ∙ sym (map-append outline_phase qs new))
]

parse_lines-outline :
    (ps qs : List ParsedPhase) (lines : List Text)
    → outline ps ≡ outline qs
    → outline (parse_lines ps lines) ≡ outline (parse_lines qs lines)
unfolding parse_lines
parse_lines-outline ps qs [] h = h
parse_lines-outline ps qs (line ∷ lines) h =
    parse_lines-outline (parse_line ps line) (parse_line qs line) lines
      (parse_line-outline ps qs line h)

task_of_open :
    (indent : Text) (checked : Bool) (s : Text)
    → is_open (task_of indent checked s) ≡ true
    → checked ≡ false
unfolding task_of
task_of_open indent checked s h = ground (arith, h)

-- The box of a line with an open one.
box_of-box :
    (c1 c2 c3 c4 c5 : ℕ) (body : Text)
    → is_open (box_of [] (c1 ∷ c2 ∷ c3 ∷ c4 ∷ c5 ∷ body)) ≡ true
    → (c1 ≡ b'-') × (c4 ≡ 32) × (is_cons body ≡ true)
unfolding box_of
box_of-box c1 c2 c3 c4 c5 [] h = cc
box_of-box c1 c2 c3 c4 c5 (b ∷ more) h =
    ground (arith, h, task_of_open [] (not (nat_eq c4 32)) (skip_blanks more))

box_of-space :
    (c1 c2 c3 c5 : ℕ) (body : Text)
    → box_of [] (c1 ∷ c2 ∷ c3 ∷ b'x' ∷ c5 ∷ body)
      ≡ checked_match (box_of [] (c1 ∷ c2 ∷ c3 ∷ 32 ∷ c5 ∷ body))
unfolding box_of
box_of-space c1 c2 c3 c5 [] = refl
box_of-space c1 c2 c3 c5 (b ∷ more) = ground (arith, task_of-checked [] false (skip_blanks more))

normalize_line_deep :
    (c1 c2 c3 c4 c5 : ℕ) (body : Text)
    → is_cons body ≡ true
    → normalize_line (c1 ∷ c2 ∷ c3 ∷ c4 ∷ c5 ∷ body) ≡ c1 ∷ c2 ∷ c3 ∷ c4 ∷ c5 ∷ normalize_line body
unfolding normalize_line
normalize_line_deep c1 c2 c3 c4 c5 [] h = cc
normalize_line_deep c1 c2 c3 c4 c5 (b ∷ more) h = refl

-- A task line is no heading, and is matched once more from its first character.
parse_line-task :
    (ps : List ParsedPhase) (line : Text) (c2 c3 c4 c5 : ℕ) (body : Text)
    → normalize_line line ≡ b'-' ∷ c2 ∷ c3 ∷ c4 ∷ c5 ∷ body
    → is_cons body ≡ true
    → parse_line ps line ≡ add_task ps (box_of [] (b'-' ∷ c2 ∷ c3 ∷ c4 ∷ c5 ∷ normalize_line body))
unfolding parse_line phase_heading is_space
parse_line-task ps line c2 c3 c4 c5 body e some_body =
    let again =
      match_task_line_top (normalize_line line) b'-' (c2 ∷ c3 ∷ c4 ∷ c5 ∷ normalize_line body)
        (ap normalize_line e ∙ normalize_line_deep b'-' c2 c3 c4 c5 body some_body) refl in
    let plain : phase_heading (normalize_line line) ≡ none = ap phase_heading e in
    rw (plain, again, parse_line) refl

parse_line-check_six :
    (ps : List ParsedPhase) (c1 c2 c3 c4 c5 c6 : ℕ) (s : Text)
    → is_open (match_task_line (c1 ∷ c2 ∷ c3 ∷ c4 ∷ c5 ∷ c6 ∷ s)) ≡ true
    → outline (parse_line ps (check_at 3 (c1 ∷ c2 ∷ c3 ∷ c4 ∷ c5 ∷ c6 ∷ s)))
      ≡ outline (parse_line ps (c1 ∷ c2 ∷ c3 ∷ c4 ∷ c5 ∷ c6 ∷ s))
unfolding normalize_line check_at
parse_line-check_six ps c1 c2 c3 c4 c5 c6 s h =
    let line = c1 ∷ c2 ∷ c3 ∷ c4 ∷ c5 ∷ c6 ∷ s in
    let body = normalize_line (c6 ∷ s) in
    elim (Bool-cases (is_space c1)) [
      | inl indented ↦
          let shut = match_task_line_indented line c1 (c2 ∷ c3 ∷ c4 ∷ c5 ∷ body) refl indented in
          absurd cc
      | inr top ↦
          let old = match_task_line_top line c1 (c2 ∷ c3 ∷ c4 ∷ c5 ∷ body) refl top in
          let (dash, space, some_body) =
            box_of-box c1 c2 c3 c4 c5 body (sym (ap is_open old) ∙ h) in
          let before =
            parse_line-task ps line c2 c3 c4 c5 body (ap (λ q. q ∷ c2 ∷ c3 ∷ c4 ∷ c5 ∷ body) dash)
              some_body in
          let after =
            parse_line-task ps (c1 ∷ c2 ∷ c3 ∷ b'x' ∷ c5 ∷ c6 ∷ s) c2 c3 b'x' c5 body
              (ap (λ q. q ∷ c2 ∷ c3 ∷ b'x' ∷ c5 ∷ body) dash) some_body in
          let deep = normalize_line body in
          ap outline after
          ∙ ap (λ m. outline (add_task ps m)) (box_of-space b'-' c2 c3 c5 deep)
          ∙ add_task-checked ps (box_of [] (b'-' ∷ c2 ∷ c3 ∷ 32 ∷ c5 ∷ deep))
          ∙ ap (λ q. outline (add_task ps (box_of [] (b'-' ∷ c2 ∷ c3 ∷ q ∷ c5 ∷ deep)))) (sym space)
          ∙ sym (ap outline before)
    ]

parse_line-check_at :
    (ps : List ParsedPhase) (line : Text)
    → is_open (match_task_line line) ≡ true
    → outline (parse_line ps (check_at 3 line)) ≡ outline (parse_line ps line)
parse_line-check_at ps (c1 ∷ c2 ∷ c3 ∷ c4 ∷ c5 ∷ c6 ∷ s) h =
    parse_line-check_six ps c1 c2 c3 c4 c5 c6 s h
parse_line-check_at ps line h = let shut = match_task_line_short line (omega arith) in absurd cc

parse_lines-check_first :
    (id : Text) (ps : List ParsedPhase) (lines : List Text)
    → outline (parse_lines ps (check_first id lines)) ≡ outline (parse_lines ps lines)
unfolding parse_lines
parse_lines-check_first id ps [] = refl
parse_lines-check_first id ps (line ∷ lines) =
    let m = match_task_line line in
    elim (Bool-cases (has_id id m && is_open m)) [
      | inl here ↦ rw (here) (
          parse_lines-outline (parse_line ps (check_at 3 line)) (parse_line ps line) lines
            (parse_line-check_at ps line (ground (arith, here))))
      | inr behind ↦ rw (behind) (parse_lines-check_first id (parse_line ps line) lines)
    ]

length-map {ℓ κ} :
    {A : Type ℓ} {B : Type κ} (f : A → B) (xs : List A) → length (map f xs) ≡ length xs
length-map f [] = refl
length-map f (x ∷ xs) = omega (arith, length-map f xs)

count_tasks-outline : (ps : List ParsedPhase) → count_tasks (outline ps) ≡ count_tasks ps
unfolding count_tasks
count_tasks-outline [] = refl
count_tasks-outline (p ∷ ps) = omega (arith, length-map undone p.tasks, count_tasks-outline ps)

-- When `mark_task_complete` reports that it has checked a box, `parse_tasks` reports the same phases
-- with the same tasks as before, but for whether they are done, and as many tasks.
pub parse_tasks_text-mark_task_complete :
    (write_text : Text → WriteAnswer) (id text after : Text)
    → mark_task_complete write_text id (contents text) ≡ (marked false, contents after)
    → (outline (parse_tasks_text after).phases ≡ outline (parse_tasks_text text).phases)
      × ((parse_tasks_text after).total_tasks ≡ (parse_tasks_text text).total_tasks)
unfolding parse_tasks_text
parse_tasks_text-mark_task_complete write_text id text after h =
    let (new, e, lines) = mark_task_complete-lines write_text id text (contents after) h in
    let same : after ≡ new = cc in
    let phases : outline (parse_lines [] (split 10 after))
        ≡ outline (parse_lines [] (split 10 text)) =
      ap (λ q. outline (parse_lines [] (split 10 q))) same
      ∙ ap (λ q. outline (parse_lines [] q)) lines
      ∙ parse_lines-check_first id [] (split 10 text) in
    (
      phases,
      sym (count_tasks-outline (parse_lines [] (split 10 after)))
          ∙ ap count_tasks phases
          ∙ count_tasks-outline (parse_lines [] (split 10 text)),
    )
