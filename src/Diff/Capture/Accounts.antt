-- ===== src/Diff/Capture/Accounts.antt =====
-- .opencode/lib/review-diff.ts: the loop of `captureReviewDiff`, what it reports of its candidates.
use complytime_providers.Prelude.{
  Result-cases, ℕ, ◌+◌, ◌≡◌, inl, inr, Text, List, [], ◌∷◌, ◌++◌, map, ltb, leb, contains, occurs,
  Bool-cases, arith,
}
use complytime_providers.Diff.Lines.{FileChange}
use complytime_providers.Diff.Capture.{
  ExcludedFile, Reason, new_file, keep, max_file_bytes, Dependencies, max_captured_files,
  max_total_new_file_bytes, Loop, exclude, read_candidate, capture_file, capture_files,
}

abbrev pub change_paths : List FileChange → List Text
change_paths cs = map (λ (c : FileChange). c.path) cs

abbrev pub excluded_paths : List ExcludedFile → List Text
excluded_paths es = map (λ (e : ExcludedFile). e.path) es

abbrev seen : Loop → Text → ℕ
seen l x = occurs (change_paths l.files) x + occurs (excluded_paths l.excluded) x

occurs-change_paths :
    (fs gs : List FileChange) (x : Text)
    → occurs (change_paths (fs ++ gs)) x ≡ occurs (change_paths fs) x + occurs (change_paths gs) x
occurs-change_paths [] gs x = omega arith
occurs-change_paths (f ∷ fs) gs x = ground (arith, occurs-change_paths fs gs x)

occurs-excluded_paths :
    (es ds : List ExcludedFile) (x : Text)
    → occurs (excluded_paths (es ++ ds)) x
      ≡ occurs (excluded_paths es) x + occurs (excluded_paths ds) x
occurs-excluded_paths [] ds x = omega arith
occurs-excluded_paths (e ∷ es) ds x = ground (arith, occurs-excluded_paths es ds x)

read_candidate-cases {κ} :
    (P : Loop → Type κ) (deps : Dependencies) (l : Loop) (path : Text) (size : ℕ)
    → ((reason : Reason) → P (exclude l path reason))
    → ((size : ℕ) (content : Text) → P (keep l path size content))
    → P (read_candidate deps l path size)
unfolding read_candidate
read_candidate-cases P deps l path size out kept = elim (Result-cases (deps.read_file path)) [
  | inl (m, lost) ↦ rw (lost, read_candidate) (out _)
  | inr (content, readable) ↦ elim (Bool-cases (contains content (0 ∷ []))) [
    | inl binary ↦ rw (readable, binary, read_candidate) (out _)
    | inr text ↦ rw (readable, text, read_candidate) (kept size content)
  ]
]

-- A round excludes its candidate or captures it.
capture_file-cases {κ} :
    (P : Loop → Type κ) (deps : Dependencies) (l : Loop) (path : Text)
    → ((reason : Reason) → P (exclude l path reason))
    → ((size : ℕ) (content : Text) → P (keep l path size content))
    → P (capture_file deps l path)
unfolding capture_file
capture_file-cases P deps l path out kept =
    elim (Bool-cases (leb max_captured_files l.captured_count)) [
      | inl full ↦ rw (full, capture_file) (out _)
      | inr room ↦ elim (Result-cases (deps.stat_file path)) [
        | inl (m, lost) ↦ rw (room, lost, capture_file) (out _)
        | inr (stat, found) ↦ elim (Bool-cases stat.is_symlink) [
          | inl link ↦ rw (room, found, link, capture_file) (out _)
          | inr plain ↦ elim (Bool-cases (ltb max_file_bytes stat.size)) [
            | inl large ↦ rw (room, found, plain, large, capture_file) (out _)
            | inr small ↦
                elim (Bool-cases (ltb max_total_new_file_bytes (l.total_new_bytes + stat.size))) [
                  | inl much ↦ rw (room, found, plain, small, much, capture_file) (out _)
                  | inr space ↦
                      rw (room, found, plain, small, space, capture_file)
                        (read_candidate-cases P deps l path stat.size out kept)
                ]
          ]
        ]
      ]
    ]

-- One round reports its candidate once.
seen-capture_file :
    (deps : Dependencies) (l : Loop) (path x : Text)
    → seen (capture_file deps l path) x ≡ seen l x + occurs (path ∷ []) x
seen-capture_file deps l path x =
    capture_file-cases (λ (m : Loop). seen m x ≡ seen l x + occurs (path ∷ []) x) deps l path
      (λ reason.
        ground (
          arith,
          occurs-excluded_paths l.excluded (record { path = path; reason = reason } ∷ []) x,
        ))
      (λ size content. ground (arith, occurs-change_paths l.files (new_file path content ∷ []) x))

-- Every candidate is either captured or reported as excluded, once, and what the loop started with
-- stays.
pub capture_files-occurs :
    (deps : Dependencies) (l : Loop) (paths : List Text) (x : Text)
    → occurs (change_paths (capture_files deps l paths).files) x
        + occurs (excluded_paths (capture_files deps l paths).excluded) x
      ≡ occurs (change_paths l.files) x + occurs (excluded_paths l.excluded) x + occurs paths x
unfolding capture_files
capture_files-occurs deps l [] x = omega arith
capture_files-occurs deps l (path ∷ paths) x = ground (
  arith,
  capture_files-occurs deps (capture_file deps l path) paths x,
  seen-capture_file deps l path x,
)
