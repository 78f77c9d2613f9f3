-- ===== src/Diff/Capture.antt =====
-- .opencode/lib/review-diff.ts: `captureReviewDiff`. The file system, the identifiers and the length
-- of a text in UTF-8 are parameters.

pub mod Budget
pub mod Accounts
pub mod Sections
pub mod Reported
use complytime_providers.Prelude.{
  ℕ, suc, ◌+◌, ◌*◌, Text, txt, Bool, true, false, not, Option, none, some, List, [], ◌∷◌, ◌++◌, map,
  length, filter, ltb, leb, if◌then◌else◌, includes, sort, decimal, join, contains, Result, ok, err,
  ◌>>=◌,
}
use complytime_providers.Review.Votes.{is_cons}
use complytime_providers.Diff.Base.{
  BaseRefResolution, GitExec, base_ref_text, base_ref_candidates, resolve_base_ref_with_divergence,
}
use complytime_providers.Diff.Lines.{
  FileChange, normalize_relative_path, list_lines, count_content_lines, parse_numstat,
  render_new_file_diff,
}

pub data Reason : Type 0 where
  file_budget file_symlink file_too_large total_bytes_budget : Reason
  binary_file stat_failed read_failed : Reason

pub record ExcludedFile : Type 0 where
  pub path : Text
  pub reason : Reason

pub data Mode : Type 0 where
  base_mode uncommitted_local : Mode

pub record ReviewDiffResult : Type 0 where
  pub mode : Mode
  pub base : Option BaseRefResolution
  pub fallback_reason : Option Text
  pub diff_path : Text
  pub diff_bytes : ℕ
  pub files : List FileChange
  pub total_files : ℕ
  pub total_additions : ℕ
  pub total_deletions : ℕ
  pub excluded : List ExcludedFile

pub data ErrorCode : Type 0 where
  git_error diff_too_large io_error : ErrorCode

-- A failure is not retryable.
pub data Outcome : Type 0 where
  captured : ReviewDiffResult → Outcome
  failed : (code : ErrorCode) (message : Text) → Outcome

pub record Stat : Type 0 where
  pub is_symlink : Bool
  pub size : ℕ

-- `stat_file` and `read_file` take a path of the repository, which the source resolves against the
-- working directory; `diff_path` is the path of the new patch file.
pub record Dependencies : Type 0 where
  pub exec : GitExec
  pub diff_path : Text
  pub stat_file : Text → Result Stat
  pub read_file : Text → Result Text
  pub write_diff_file : Text → Text → Result (Unit {0})
  pub byte_length : Text → ℕ

abbrev pub max_captured_files : ℕ
max_captured_files = 200

abbrev pub max_file_bytes : ℕ
max_file_bytes = 256 * 1024

abbrev pub max_total_new_file_bytes : ℕ
max_total_new_file_bytes = 1024 * 1024

abbrev pub max_diff_bytes : ℕ
max_diff_bytes = 8 * 1024 * 1024

-- The variables of the loop over the candidates.
pub record Loop : Type 0 where
  pub sections : List Text
  pub files : List FileChange
  pub excluded : List ExcludedFile
  pub captured_count : ℕ
  pub total_new_bytes : ℕ

abbrev pub exclude : Loop → Text → Reason → Loop
exclude l path reason = record l {
  excluded = l.excluded ++ record { path = path; reason = reason } ∷ [];
}

abbrev pub new_file : Text → Text → FileChange
new_file path content = record {
  path = path;
  additions = count_content_lines content;
  deletions = 0;
}

abbrev pub keep : Loop → Text → ℕ → Text → Loop
keep l path size content = record {
  sections = l.sections ++ render_new_file_diff path content ∷ [];
  files = l.files ++ new_file path content ∷ [];
  excluded = l.excluded;
  captured_count = suc l.captured_count;
  total_new_bytes = l.total_new_bytes + size;
}

-- The end of a round, for a candidate that the budgets admit.
unfoldable pub read_candidate : Dependencies → Loop → Text → ℕ → Loop
unfolding contains
read_candidate deps l path size = elim (deps.read_file path) [
  | err message ↦ exclude l path read_failed
  | ok content ↦
      if contains content (0 ∷ []) then exclude l path binary_file else keep l path size content
]

-- One round, for one candidate.
unfoldable pub capture_file : Dependencies → Loop → Text → Loop
unfolding read_candidate
capture_file deps l path =
    if leb max_captured_files l.captured_count
    then exclude l path file_budget
    else elim (deps.stat_file path) [
      | err message ↦ exclude l path stat_failed
      | ok stat ↦
          if stat.is_symlink
          then exclude l path file_symlink
          else if ltb max_file_bytes stat.size
          then exclude l path file_too_large
          else if ltb max_total_new_file_bytes (l.total_new_bytes + stat.size)
          then exclude l path total_bytes_budget
          else read_candidate deps l path stat.size
    ]

unfoldable pub capture_files : Dependencies → Loop → List Text → Loop
unfolding capture_file
capture_files deps l [] = l
capture_files deps l (path ∷ paths) = capture_files deps (capture_file deps l path) paths

-- The untracked and the ignored files under the directory, sorted.
unfoldable pub candidates_under : GitExec → Text → Result (List Text)
unfolding list_lines includes sort txt
candidates_under exec feature_dir = do
  others ←
      exec
        (txt "ls-files" ∷ txt "--others" ∷ txt "--exclude-standard" ∷ txt "--" ∷ feature_dir ∷ [])
  more ← exec (
      txt "ls-files"
      ∷ txt "--others"
      ∷ txt "--ignored"
      ∷ txt "--exclude-standard"
      ∷ txt "--"
      ∷ feature_dir
      ∷ [])
  let untracked = list_lines others
  let ignored = list_lines more
  ok (sort (untracked ++ filter (λ path. not (includes untracked path)) ignored))

-- The tracked diff, its counts, and the message of the call that failed.
pub record Tracked : Type 0 where
  pub diff : Text
  pub numstat : Text
  pub failure : Option Text

unfoldable pub tracked_changes : GitExec → Text → Tracked
unfolding txt
tracked_changes exec target = elim (exec (txt "diff" ∷ txt "--no-renames" ∷ target ∷ [])) [
  | err message ↦ record { diff = []; numstat = []; failure = some message }
  | ok diff ↦ elim (exec (txt "diff" ∷ txt "--no-renames" ∷ txt "--numstat" ∷ target ∷ [])) [
    | err message ↦ record { diff = diff; numstat = []; failure = some message }
    | ok numstat ↦ record { diff = diff; numstat = numstat; failure = none }
  ]
]

unfoldable pub no_base_reason : Text
unfolding base_ref_text join txt
no_base_reason =
    txt "no resolvable base ref (tried "
    ++ join (txt ", ") (map base_ref_text base_ref_candidates)
    ++ txt ")"

unfoldable pub diverged_reason : BaseRefResolution → Text
unfolding base_ref_text txt
diverged_reason base =
    txt "base "
    ++ base_ref_text base.ref
    ++ txt
        " is not an ancestor of HEAD (stale fork); diffing against it would inject foreign-commit noise"

-- The mode, the revision to compare with, and the reason for falling back.
unfoldable pub choose_mode : Option BaseRefResolution → Mode × Text × Option Text
unfolding no_base_reason diverged_reason txt
choose_mode none = (uncommitted_local, txt "HEAD", some no_base_reason)
choose_mode (some base) =
    if base.diverged
    then (uncommitted_local, txt "HEAD", some (diverged_reason base))
    else (base_mode, base.sha, none)

sum_of : (FileChange → ℕ) → List FileChange → ℕ
sum_of f [] = 0
sum_of f (x ∷ xs) = f x + sum_of f xs

abbrev pub start : Tracked → Loop
start tracked = record {
  sections = if is_cons tracked.diff then tracked.diff ∷ [] else [];
  files = parse_numstat tracked.numstat;
  excluded = [];
  captured_count = 0;
  total_new_bytes = 0;
}

-- What follows the loop: the size check and the writing of the patch.
unfoldable pub finish :
    Dependencies → Mode → Option BaseRefResolution → Option Text → Loop → Outcome
unfolding join sum_of decimal txt
finish deps mode base reason l =
    let combined = join (10 ∷ []) l.sections in
    let diff_bytes = deps.byte_length combined in
    if ltb max_diff_bytes diff_bytes
    then failed diff_too_large
        (txt "captured diff exceeds " ++ decimal max_diff_bytes ++ txt " bytes")
    else elim (deps.write_diff_file deps.diff_path combined) [
      | err message ↦ failed io_error (txt "failed to write diff file: " ++ message)
      | ok _ ↦ captured (record {
        mode = mode;
        base = base;
        fallback_reason = reason;
        diff_path = deps.diff_path;
        diff_bytes = diff_bytes;
        files = l.files;
        total_files = length l.files;
        total_additions = sum_of (λ (f : FileChange). f.additions) l.files;
        total_deletions = sum_of (λ (f : FileChange). f.deletions) l.files;
        excluded = l.excluded;
      })
    ]

-- The reason to record once the tracked changes were asked for.
unfoldable pub reason_after : Option Text → Option Text → Option Text
unfolding txt
reason_after reason none = reason
reason_after none (some message) =
    some (txt "uncommitted-local mode; tracked diff unavailable (" ++ message ++ txt ")")
reason_after (some reason) (some message) =
    some (reason ++ txt "; tracked diff unavailable (" ++ message ++ txt ")")

abbrev pub stops : Mode → Option Text → Option Text
stops base_mode failure = failure
stops uncommitted_local failure = none

-- `input.feature_dir`, if any, has passed the check of the tool's arguments.
unfoldable pub capture_review_diff : Dependencies → Option Text → Outcome
unfolding resolve_base_ref_with_divergence choose_mode tracked_changes reason_after candidates_under
    capture_files finish normalize_relative_path txt
capture_review_diff deps feature_dir =
    let base = resolve_base_ref_with_divergence deps.exec in
    let (mode, target, fallback) = choose_mode base in
    let tracked = tracked_changes deps.exec target in
    let reason = reason_after fallback tracked.failure in
    elim (stops mode tracked.failure) [
      | some message ↦
          failed git_error (txt "git diff against " ++ target ++ txt " failed: " ++ message)
      | none ↦ elim feature_dir [
        | none ↦ finish deps mode base reason (start tracked)
        | some dir ↦
            let under = normalize_relative_path dir in
            elim (candidates_under deps.exec under) [
              | err message ↦
                  failed git_error
                    (txt "git ls-files under " ++ under ++ txt " failed: " ++ message)
              | ok candidates ↦
                  finish deps mode base reason (capture_files deps (start tracked) candidates)
            ]
      ]
    ]
