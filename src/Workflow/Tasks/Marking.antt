-- ===== src/Workflow/Tasks/Marking.antt =====
-- .opencode/plugins/uf-workflow/index.ts: the text that `mark_task_complete` writes, by lines.
use complytime_providers.Prelude.{
  ℕ, zero, suc, ◌+◌, ◌<◌, ◌≡◌, refl, ap, sym, ◌∙◌, inl, inr, Text, Bool, true, ◌&&◌, ◌||◌, List, [],
  ◌∷◌, ◌++◌, length, if◌then◌else◌, arith, Bool-cases, ltb,
}
use complytime_providers.Review.Votes.{is_cons}
use complytime_providers.Workflow.Tasks.{
  match_task_line, is_open, has_id, flip_at, find_among, check_at,
}
use complytime_providers.Workflow.Tasks.Lines.{unlines, unlines-append, unlines-one}
use complytime_providers.Workflow.Tasks.Boxes.{match_task_line_short}

-- The lines with the first open line of the task checked.
abbrev pub check_first : Text → List Text → List Text
check_first id [] = []
check_first id (line ∷ lines) =
    let m = match_task_line line in
    if has_id id m && is_open m then check_at 3 line ∷ lines else line ∷ check_first id lines

pub check_at-suc : (k c : ℕ) (s : Text) → check_at (suc k) (c ∷ s) ≡ c ∷ check_at k s
unfolding check_at
check_at-suc k c s = let later : suc k + 1 ≡ suc (k + 1) = omega arith in rw (later) refl

check_at-behind :
    (line s : Text) (k n : ℕ) → n ≡ length line + k → check_at n (line ++ s) ≡ line ++ check_at k s
check_at-behind [] s k n e = ap (λ q. check_at q s) (omega (arith, e))
check_at-behind (c ∷ line) s k n e =
    let before : n ≡ suc (length line + k) = omega (arith, e) in
    rw (before, check_at-suc) (ap (λ q. c ∷ q) (check_at-behind line s k (length line + k) refl))

pub check_at-zero : (c : ℕ) (s : Text) → check_at 0 (c ∷ s) ≡ b'x' ∷ s
unfolding check_at
check_at-zero c s = refl

check_at-within :
    (line s : Text) (k : ℕ) → k < length line → check_at k (line ++ s) ≡ check_at k line ++ s
check_at-within [] s k h = absurd (omega (arith, h))
check_at-within (c ∷ line) s zero h = rw (check_at-zero c (line ++ s), check_at-zero c line) refl
check_at-within (c ∷ line) s (suc k) h =
    rw (check_at-suc k c (line ++ s), check_at-suc k c line)
      (ap (λ q. c ∷ q) (check_at-within line s k (omega (arith, h))))

-- A box that is checked in the lines behind one.
unlines-behind :
    (line next : Text) (lines changed : List Text) (k n : ℕ)
    → n ≡ length line + suc k
    → unlines changed ≡ check_at k (unlines (next ∷ lines))
    → is_cons changed ≡ true
    → unlines (line ∷ changed) ≡ check_at n (unlines (line ∷ next ∷ lines))
unlines-behind line next lines [] k n at e some_line = absurd (cc)
unlines-behind line next lines (new ∷ changed) k n at e some_line =
    rw (unlines-append line new changed, unlines-append line next lines, e)
      (sym (
        check_at-behind line (10 ∷ unlines (next ∷ lines)) (suc k) n at
        ∙ ap (λ q. line ++ q) (check_at-suc k 10 (unlines (next ∷ lines)))))

-- The box of the line in front of others.
unlines-within :
    (line : Text) (lines : List Text) (k : ℕ)
    → k < length line
    → unlines (check_at k line ∷ lines) ≡ check_at k (unlines (line ∷ lines))
unlines-within line [] k h =
    unlines-one (check_at k line) ∙ ap (check_at k) (sym (unlines-one line))
unlines-within line (next ∷ lines) k h =
    rw (unlines-append (check_at k line) next lines, unlines-append line next lines)
      (sym (check_at-within line (10 ∷ unlines (next ∷ lines)) k h))

pub open_lines_long : (line : Text) → is_open (match_task_line line) ≡ true → 3 < length line
open_lines_long line h = elim (Bool-cases (ltb (length line) 6)) [
  | inl short ↦ let shut = match_task_line_short line (ground (arith, short)) in absurd cc
  | inr long ↦ ground (arith, long)
]

pub check_first_cons :
    (id line : Text) (lines : List Text) → is_cons (check_first id (line ∷ lines)) ≡ true
check_first_cons id line lines = ground arith

find_behind :
    (id line : Text) (lines : List Text) (start n : ℕ)
    → ((k : ℕ) × (n ≡ start + length line + 1 + k)
        × (unlines (check_first id lines) ≡ check_at k (unlines lines))
        × (is_cons lines ≡ true))
    → (k : ℕ) × (n ≡ start + k)
      × (unlines (line ∷ check_first id lines) ≡ check_at k (unlines (line ∷ lines)))
      × (is_cons (line ∷ lines) ≡ true)
find_behind id line [] start n (k, at, e, more) = absurd cc
find_behind id line (next ∷ lines) start n (k, at, e, more) = (
  length line + suc k,
  omega (arith, at),
  unlines-behind line next lines (check_first id (next ∷ lines)) k (length line + suc k) refl e
      (check_first_cons id next lines),
  refl,
)

flip_at_injective : (m n : ℕ) → flip_at m ≡ flip_at n → m ≡ n
flip_at_injective m n h = cc

-- The offset that the search reports is that of the first open line of the task.
pub find_among-check :
    (id : Text) (start : ℕ) (seen : Bool) (lines : List Text) (n : ℕ)
    → find_among id start seen lines ≡ flip_at n
    → (k : ℕ) × (n ≡ start + k)
      × (unlines (check_first id lines) ≡ check_at k (unlines lines))
      × (is_cons lines ≡ true)
unfolding find_among
find_among-check id start seen [] n h = absurd (ground (arith, h))
find_among-check id start seen (line ∷ lines) n h =
    let m = match_task_line line in
    elim (Bool-cases (has_id id m && is_open m)) [
      | inl here ↦
          let long = open_lines_long line (ground (arith, here)) in
          let at = flip_at_injective (start + 3) n (rw (here) at h) in
          (3, sym at, rw (here) (unlines-within line lines 3 long), refl)
      | inr other ↦ rw (other) (
          find_behind id line lines start n (
            find_among-check id (start + length line + 1) (seen || has_id id m) lines n
              (rw (other) at h)))
    ]
