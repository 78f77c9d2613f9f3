-- ===== src/Diff/Capture/Budget.antt =====
-- .opencode/lib/review-diff.ts: the loop of `captureReviewDiff` and its budgets.
use complytime_providers.Prelude.{
  Result-cases, ℕ, ◌+◌, ◌≤◌, ◌<◌, ◌≡◌, refl, ap, ◌∙◌, inl, inr, Text, false, List, [], ◌∷◌, ◌++◌,
  length, All, All-append, length-append, ltb, leb, contains, ok, err, Bool-cases, arith,
}
use mathlib.Core.List.{append_assoc}
use complytime_providers.Diff.Lines.{FileChange}
use complytime_providers.Diff.Capture.{
  Reason, Stat, Dependencies, max_captured_files, max_file_bytes, max_total_new_file_bytes, Loop,
  exclude, new_file, keep, read_candidate, capture_file, capture_files,
}

-- A file that may be captured, with the counts of its content.
pub record IsCaptured (deps : Dependencies) (c : FileChange) : Type 0 where
  pub stat : Stat
  pub content : Text
  pub found : deps.stat_file c.path ≡ ok stat
  pub no_symlink : stat.is_symlink ≡ false
  pub small : stat.size ≤ max_file_bytes
  pub readable : deps.read_file c.path ≡ ok content
  pub is_text : contains content (0 ∷ []) ≡ false
  pub counted : c ≡ new_file c.path content

abbrev size_at : Dependencies → Text → ℕ
size_at deps path = elim (deps.stat_file path) [ err message ↦ 0 | ok stat ↦ stat.size ]

-- The sizes of the files, together.
abbrev pub sizes : Dependencies → List FileChange → ℕ
sizes deps [] = 0
sizes deps (c ∷ cs) = size_at deps c.path + sizes deps cs

sizes-append :
    (deps : Dependencies) (xs ys : List FileChange)
    → sizes deps (xs ++ ys) ≡ sizes deps xs + sizes deps ys
sizes-append deps [] ys = omega arith
sizes-append deps (x ∷ xs) ys = omega (arith, sizes-append deps xs ys)

-- The loop has added files to those given, within the budgets, and counted them.
pub record IsWithin (deps : Dependencies) (given : List FileChange) (l : Loop) : Type 0 where
  pub new : List FileChange
  pub added : l.files ≡ given ++ new
  pub number : length new ≡ l.captured_count
  pub few : l.captured_count ≤ max_captured_files
  pub bytes : sizes deps new ≡ l.total_new_bytes
  pub little : l.total_new_bytes ≤ max_total_new_file_bytes
  pub each : All (IsCaptured deps) new

exclude-IsWithin :
    (deps : Dependencies) (given : List FileChange) (l : Loop) (path : Text) (reason : Reason)
    → IsWithin deps given l
    → IsWithin deps given (exclude l path reason)
exclude-IsWithin deps given l path reason w = record {
  new = w.new;
  added = w.added;
  number = w.number;
  few = w.few;
  bytes = w.bytes;
  little = w.little;
  each = w.each;
}

keep-IsWithin :
    (deps : Dependencies) (given : List FileChange) (l : Loop) (path content : Text) (stat : Stat)
    → IsCaptured deps (new_file path content)
    → deps.stat_file path ≡ ok stat
    → l.captured_count < max_captured_files
    → l.total_new_bytes + stat.size ≤ max_total_new_file_bytes
    → IsWithin deps given l
    → IsWithin deps given (keep l path stat.size content)
keep-IsWithin deps given l path content stat c found room space w =
    let one = new_file path content ∷ [] in
    let here : size_at deps path ≡ stat.size = rw (found, size_at) refl in
    record {
      new = w.new ++ one;
      added = ap (λ (fs : List FileChange). fs ++ one) w.added ∙ append_assoc given w.new one;
      number = length-append w.new one ∙ ground (arith, w.number);
      few = room;
      bytes = sizes-append deps w.new one ∙ ground (arith, here, w.bytes);
      little = space;
      each = All-append (IsCaptured deps) w.new one w.each (c, tt);
    }

-- Reading a file for which there is room keeps within the budgets.
read-IsWithin :
    (deps : Dependencies) (given : List FileChange) (l : Loop) (path : Text) (stat : Stat)
    → deps.stat_file path ≡ ok stat
    → stat.is_symlink ≡ false
    → stat.size ≤ max_file_bytes
    → l.captured_count < max_captured_files
    → l.total_new_bytes + stat.size ≤ max_total_new_file_bytes
    → IsWithin deps given l
    → IsWithin deps given (read_candidate deps l path stat.size)
unfolding read_candidate
read-IsWithin deps given l path stat found plain small room space w =
    elim (Result-cases (deps.read_file path)) [
      | inl (m, lost) ↦ rw (lost, read_candidate) (exclude-IsWithin deps given l path _ w)
      | inr (content, readable) ↦ elim (Bool-cases (contains content (0 ∷ []))) [
        | inl binary ↦
            rw (readable, binary, read_candidate) (exclude-IsWithin deps given l path _ w)
        | inr text ↦
            rw (readable, text, read_candidate)
              (keep-IsWithin deps given l path content stat
                (record {
                  stat = stat;
                  content = content;
                  found = found;
                  no_symlink = plain;
                  small = small;
                  readable = readable;
                  is_text = text;
                  counted = refl;
                })
                found room space w)
      ]
    ]

-- One round keeps within the budgets.
capture_file-IsWithin :
    (deps : Dependencies) (given : List FileChange) (l : Loop) (path : Text)
    → IsWithin deps given l
    → IsWithin deps given (capture_file deps l path)
unfolding capture_file
capture_file-IsWithin deps given l path w =
    let out : (reason : Reason) → IsWithin deps given (exclude l path reason) =
      λ reason. exclude-IsWithin deps given l path reason w in
    elim (Bool-cases (leb max_captured_files l.captured_count)) [
      | inl full ↦ rw (full, capture_file) (out _)
      | inr room ↦ elim (Result-cases (deps.stat_file path)) [
        | inl (m, lost) ↦ rw (room, lost, capture_file) (out _)
        | inr (stat, found) ↦ elim (Bool-cases stat.is_symlink) [
          | inl link ↦ rw (room, found, link, capture_file) (out _)
          | inr plain ↦ elim (Bool-cases (ltb max_file_bytes stat.size)) [
            | inl large ↦ rw (room, found, plain, large, capture_file) (out _)
            | inr small ↦
                elim (Bool-cases (ltb max_total_new_file_bytes (l.total_new_bytes + stat.size))) [
                  | inl much ↦ rw (room, found, plain, small, much, capture_file) (out _)
                  | inr space ↦
                      rw (room, found, plain, small, space, capture_file)
                        (read-IsWithin deps given l path stat found plain (ground arith)
                          (ground arith) (ground arith) w)
                ]
          ]
        ]
      ]
    ]

pub capture_files-IsWithin :
    (deps : Dependencies) (given : List FileChange) (l : Loop) (paths : List Text)
    → IsWithin deps given l
    → IsWithin deps given (capture_files deps l paths)
unfolding capture_files
capture_files-IsWithin deps given l [] w = w
capture_files-IsWithin deps given l (path ∷ paths) w =
    capture_files-IsWithin deps given (capture_file deps l path) paths
      (capture_file-IsWithin deps given l path w)
