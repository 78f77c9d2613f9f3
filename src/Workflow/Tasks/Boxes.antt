-- ===== src/Workflow/Tasks/Boxes.antt =====
-- .opencode/plugins/uf-workflow/index.ts: one line of tasks.md, before and after its box is checked.
use complytime_providers.Prelude.{
  ℕ, ◌≡◌, refl, Text, Bool, true, false, not, Option, none, some, [], ◌∷◌, length, ap, sym, ◌∙◌,
  ◌<◌, ◌≤◌, inl, inr, Bool-cases, nat_eq, is_space, arith,
}
use complytime_providers.Workflow.Tasks.{
  TaskLineMatch, normalize_line, skip_blanks, span, task_of, box_of, match_task_line, is_open,
  check_at,
}

-- The same task, checked.
abbrev pub checked_match : Option TaskLineMatch → Option TaskLineMatch
checked_match none = none
checked_match (some m) = some (record m { checked = true })

pub task_of-checked :
    (indent : Text) (checked : Bool) (s : Text)
    → task_of indent true s ≡ checked_match (task_of indent checked s)
unfolding task_of
task_of-checked indent checked s = ground arith

box_of-checked :
    (c1 c2 c3 c4 c5 : ℕ) (body : Text)
    → is_open (box_of [] (c1 ∷ c2 ∷ c3 ∷ c4 ∷ c5 ∷ body)) ≡ true
    → box_of [] (c1 ∷ c2 ∷ c3 ∷ b'x' ∷ c5 ∷ body)
      ≡ checked_match (box_of [] (c1 ∷ c2 ∷ c3 ∷ c4 ∷ c5 ∷ body))
unfolding box_of
box_of-checked c1 c2 c3 c4 c5 [] h = cc
box_of-checked c1 c2 c3 c4 c5 (b ∷ more) h =
    ground (arith, task_of-checked [] (not (nat_eq c4 32)) (skip_blanks more))

-- An indented line is not open.
task_of-indented :
    (c : ℕ) (s t : Text) (checked : Bool) → is_open (task_of (c ∷ s) checked t) ≡ false
unfolding task_of
task_of-indented c s t checked = ground arith

box_of-indented : (c : ℕ) (s t : Text) → is_open (box_of (c ∷ s) t) ≡ false
unfolding box_of
box_of-indented c s (c1 ∷ c2 ∷ c3 ∷ c4 ∷ c5 ∷ b ∷ more) =
    ground (arith, task_of-indented c s (skip_blanks more) (not (nat_eq c4 32)))
box_of-indented c s _ = refl

-- A line that starts with a character other than white space is matched from there.
pub match_task_line_top :
    (line : Text) (c : ℕ) (s : Text)
    → normalize_line line ≡ c ∷ s
    → is_space c ≡ false
    → match_task_line line ≡ box_of [] (c ∷ s)
unfolding match_task_line span
match_task_line_top line c s e top = rw (e, top, match_task_line) refl

pub match_task_line_indented :
    (line : Text) (c : ℕ) (s : Text)
    → normalize_line line ≡ c ∷ s
    → is_space c ≡ true
    → is_open (match_task_line line) ≡ false
unfolding match_task_line span
match_task_line_indented line c s e indented =
    rw (e, indented, match_task_line) (box_of-indented c (span is_space s).0 (span is_space s).1)

match_task_line-check_six :
    (c1 c2 c3 c4 c5 c6 : ℕ) (s : Text)
    → is_open (match_task_line (c1 ∷ c2 ∷ c3 ∷ c4 ∷ c5 ∷ c6 ∷ s)) ≡ true
    → match_task_line (check_at 3 (c1 ∷ c2 ∷ c3 ∷ c4 ∷ c5 ∷ c6 ∷ s))
      ≡ checked_match (match_task_line (c1 ∷ c2 ∷ c3 ∷ c4 ∷ c5 ∷ c6 ∷ s))
unfolding check_at normalize_line
match_task_line-check_six c1 c2 c3 c4 c5 c6 s h =
    let line = c1 ∷ c2 ∷ c3 ∷ c4 ∷ c5 ∷ c6 ∷ s in
    let body = normalize_line (c6 ∷ s) in
    elim (Bool-cases (is_space c1)) [
      | inl indented ↦
          let shut = match_task_line_indented line c1 (c2 ∷ c3 ∷ c4 ∷ c5 ∷ body) refl indented in cc
      | inr top ↦
          let old = match_task_line_top line c1 (c2 ∷ c3 ∷ c4 ∷ c5 ∷ body) refl top in
          match_task_line_top (c1 ∷ c2 ∷ c3 ∷ b'x' ∷ c5 ∷ c6 ∷ s) c1 (c2 ∷ c3 ∷ b'x' ∷ c5 ∷ body)
            refl top
          ∙ box_of-checked c1 c2 c3 c4 c5 body (sym (ap is_open old) ∙ h)
          ∙ sym (ap checked_match old)
    ]

box_of_short : (indent s : Text) → length s < 6 → is_open (box_of indent s) ≡ false
unfolding box_of
box_of_short indent [] h = refl
box_of_short indent (c1 ∷ []) h = refl
box_of_short indent (c1 ∷ c2 ∷ []) h = refl
box_of_short indent (c1 ∷ c2 ∷ c3 ∷ []) h = refl
box_of_short indent (c1 ∷ c2 ∷ c3 ∷ c4 ∷ []) h = refl
box_of_short indent (c1 ∷ c2 ∷ c3 ∷ c4 ∷ c5 ∷ []) h = refl
box_of_short indent (c1 ∷ c2 ∷ c3 ∷ c4 ∷ c5 ∷ c6 ∷ s) h = ground arith

length-normalize_line : (s : Text) → length (normalize_line s) ≤ length s
unfolding normalize_line
length-normalize_line [] = omega arith
length-normalize_line (c ∷ []) = ground arith
length-normalize_line (c ∷ d ∷ s) = ground (arith, length-normalize_line (d ∷ s))

length-span : (p : ℕ → Bool) (s : Text) → length (span p s).1 ≤ length s
unfolding span
length-span p [] = omega arith
length-span p (c ∷ s) = ground (arith, length-span p s)

-- A short line is not open.
pub match_task_line_short : (line : Text) → length line < 6 → is_open (match_task_line line) ≡ false
unfolding match_task_line
match_task_line_short line h =
    box_of_short (span is_space (normalize_line line)).0 (span is_space (normalize_line line)).1
      (omega (arith, length-span is_space (normalize_line line), length-normalize_line line))

-- Checking the box of an open line checks its task, and changes nothing else of it.
pub match_task_line-check_at :
    (line : Text)
    → is_open (match_task_line line) ≡ true
    → match_task_line (check_at 3 line) ≡ checked_match (match_task_line line)
match_task_line-check_at (c1 ∷ c2 ∷ c3 ∷ c4 ∷ c5 ∷ c6 ∷ s) h =
    match_task_line-check_six c1 c2 c3 c4 c5 c6 s h
match_task_line-check_at line h = let shut = match_task_line_short line (omega arith) in cc
