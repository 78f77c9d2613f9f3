-- ===== src/Diff/Tests.antt =====
-- The theorems on the capture of a diff, at a repository with two new files.
use complytime_providers.Prelude.{
  ◌+◌, ◌≡◌, refl, Text, txt, ◌==◌, ◌||◌, none, some, List, [], ◌∷◌, ◌++◌, length, occurs, includes,
  if◌then◌else◌, ok, err,
}
use complytime_providers.Diff.Base.{GitExec}
use complytime_providers.Diff.Lines.{parse_numstat, render_new_file_diff}
use complytime_providers.Diff.Capture.{
  Outcome, captured, ReviewDiffResult, Dependencies, uncommitted_local, capture_review_diff,
  capture_files, start, tracked_changes,
}
use complytime_providers.Diff.Capture.Accounts.{change_paths, excluded_paths, capture_files-occurs}
use complytime_providers.Diff.Capture.Reported.{IsBounded, capture_review_diff-IsBounded}

abbrev first : List Text → Text
first [] = []
first (arg ∷ args) = arg

-- `main` alone is resolved; one file is untracked, and one is ignored.
abbrev exec : GitExec
exec args =
    if first args == txt "rev-parse"
    then (if includes args (txt "main") || includes args (txt "HEAD")
        then ok (txt "abc")
        else err [])
    else if first args == txt "ls-files"
    then (if includes args (txt "--ignored")
        then ok (txt "b.txt" ++ 10 ∷ [])
        else ok (txt "a.txt" ++ 10 ∷ []))
    else if includes args (txt "--numstat")
    then ok (txt "1" ++ 9 ∷ txt "2" ++ 9 ∷ txt "x.go" ++ 10 ∷ [])
    else ok (txt "diff")

-- The ignored file is a symbolic link.
abbrev deps : Dependencies
deps = record {
  exec = exec;
  diff_path = txt "/tmp/review-diff-1.patch";
  stat_file = λ path. ok (record { is_symlink = path == txt "b.txt"; size = 3 });
  read_file = λ _. ok (txt "hi" ++ 10 ∷ []);
  write_diff_file = λ _ _. ok tt;
  byte_length = length;
}

abbrev nothing_captured : ReviewDiffResult
nothing_captured = record {
  mode = uncommitted_local;
  base = none;
  fallback_reason = none;
  diff_path = [];
  diff_bytes = 0;
  files = [];
  total_files = 0;
  total_additions = 0;
  total_deletions = 0;
  excluded = [];
}

abbrev the_result : Outcome → ReviewDiffResult
the_result (captured r) = r
the_result _ = nothing_captured

abbrev small_diff : ReviewDiffResult
small_diff = the_result (capture_review_diff deps (some (txt "specs/1")))

abbrev two_paths : List Text
two_paths = txt "a.txt" ∷ txt "b.txt" ∷ []

capture_files-occurs_example :
    occurs
        (change_paths
          (capture_files deps (start (tracked_changes exec (txt "abc"))) two_paths).files)
        (txt "b.txt")
      + occurs
          (excluded_paths
            (capture_files deps (start (tracked_changes exec (txt "abc"))) two_paths).excluded)
          (txt "b.txt")
    ≡ 1
unfolding tracked_changes txt ◌==◌ includes parse_numstat
capture_files-occurs_example =
    capture_files-occurs deps (start (tracked_changes exec (txt "abc"))) two_paths (txt "b.txt")

capture_review_diff-IsBounded_example : IsBounded deps small_diff
unfolding capture_review_diff txt ◌==◌ includes render_new_file_diff
capture_review_diff-IsBounded_example =
    capture_review_diff-IsBounded deps (some (txt "specs/1")) refl
