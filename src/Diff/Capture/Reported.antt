-- ===== src/Diff/Capture/Reported.antt =====
-- .opencode/lib/review-diff.ts: the result of `captureReviewDiff`.
use complytime_providers.Prelude.{
  Result-cases, txt, ok, none, if◌then◌else◌, ◌≤◌, ◌≡◌, refl, sym, ◌∙◌, inl, inr, Text, false,
  Option, some, List, [], ◌∷◌, ◌++◌, length, All, ltb, join, Bool-cases, Option-cases, arith,
}
use mathlib.Core.List.{append-nil}
use complytime_providers.Review.Votes.{is_cons}
use complytime_providers.Diff.Base.{BaseRefResolution, resolve_base_ref_with_divergence}
use complytime_providers.Diff.Lines.{FileChange, normalize_relative_path, parse_numstat}
use complytime_providers.Diff.Capture.{
  Mode, ReviewDiffResult, captured, failed, ErrorCode, Dependencies, max_captured_files,
  max_total_new_file_bytes, max_diff_bytes, Loop, capture_files, candidates_under, tracked_changes,
  choose_mode, start, finish, reason_after, stops, capture_review_diff,
}
use complytime_providers.Diff.Capture.Budget.{IsCaptured, sizes, IsWithin, capture_files-IsWithin}
use complytime_providers.Diff.Capture.Sections.{sections-capture_files}

absurd_by {κ} :
    {P : Type κ} {code : ErrorCode} {message : Text} {r : ReviewDiffResult}
    → failed code message ≡ captured r
    → P
absurd_by h = cc

module _ (deps : Dependencies) where
  abbrev pub the_base : Option BaseRefResolution
  the_base = resolve_base_ref_with_divergence deps.exec

  -- The changes of tracked files, against the revision that the mode chooses.
  abbrev pub tracked_files : List FileChange
  tracked_files = parse_numstat (tracked_changes deps.exec (choose_mode the_base).1).numstat

  -- What a captured diff is held to: next to the tracked files a bounded number of new ones.
  pub record IsBounded (r : ReviewDiffResult) : Type 0 where
    pub new : List FileChange
    pub added : r.files ≡ tracked_files ++ new
    pub few : length new ≤ max_captured_files
    pub little : sizes deps new ≤ max_total_new_file_bytes
    pub each : All (IsCaptured deps) new
    pub fits : r.diff_bytes ≤ max_diff_bytes

  record IsFinished (mode : Mode) (base : Option BaseRefResolution) (l : Loop)
      (r : ReviewDiffResult) : Type 0 where
    files : r.files ≡ l.files
    fits : r.diff_bytes ≤ max_diff_bytes
    same_mode : r.mode ≡ mode
    same_base : r.base ≡ base
    saved : deps.write_diff_file r.diff_path (join (10 ∷ []) l.sections) ≡ ok tt

  finish-IsFinished :
      (mode : Mode) (base : Option BaseRefResolution) (reason : Option Text) (l : Loop)
      {r : ReviewDiffResult}
      → finish deps mode base reason l ≡ captured r
      → IsFinished mode base l r
  unfolding finish
  finish-IsFinished mode base reason l {r} h =
      let combined = join (10 ∷ []) l.sections in
      elim (Bool-cases (ltb max_diff_bytes (deps.byte_length combined))) [
        | inl large ↦ ground arith
        | inr fits ↦ elim (Result-cases (deps.write_diff_file deps.diff_path combined)) [
          | inl (m, lost) ↦ ground arith
          | inr (u, written) ↦ ground arith
        ]
      ]

  abbrev the_mode : Mode
  the_mode = (choose_mode the_base).0

  start-IsWithin :
      IsWithin deps tracked_files (start (tracked_changes deps.exec (choose_mode the_base).1))
  start-IsWithin = record {
    new = [];
    added = sym (append-nil tracked_files);
    number = refl;
    few = omega arith;
    bytes = refl;
    little = omega arith;
    each = tt;
  }

  -- The tracked diff is asked for where the mode needs it, and the loop only adds to it.
  record IsStarted (l : Loop) : Type 0 where
    answered : stops the_mode (tracked_changes deps.exec (choose_mode the_base).1).failure ≡ none
    more : List Text
    extended :
        l.sections ≡ (start (tracked_changes deps.exec (choose_mode the_base).1)).sections ++ more

  -- A captured diff is finished from a loop within the budgets.
  capture_review_diff-eq-captured :
      (feature_dir : Option Text) {r : ReviewDiffResult}
      → capture_review_diff deps feature_dir ≡ captured r
      → (l : Loop) × IsWithin deps tracked_files l × IsFinished the_mode the_base l r × IsStarted l
  unfolding capture_review_diff
  capture_review_diff-eq-captured feature_dir {r} h =
      let tracked = tracked_changes deps.exec (choose_mode the_base).1 in
      let reason = reason_after (choose_mode the_base).2 tracked.failure in
      elim (Option-cases (stops the_mode tracked.failure)) [
        | inr (m, stopped) ↦ absurd_by (rw (stopped, capture_review_diff) at h)
        | inl going ↦ elim (Option-cases feature_dir) [
          | inl nothing ↦ (
            start tracked,
            start-IsWithin,
            finish-IsFinished the_mode the_base reason (start tracked)
                (rw (going, nothing, capture_review_diff) at h),
            record {
              answered = going;
              more = [];
              extended = sym (append-nil (start tracked).sections);
            },
          )
          | inr (dir, given) ↦
              elim (Result-cases (candidates_under deps.exec (normalize_relative_path dir))) [
                | inl (m, lost) ↦ absurd_by (rw (going, given, lost, capture_review_diff) at h)
                | inr (paths, found) ↦ (
                  capture_files deps (start tracked) paths,
                  capture_files-IsWithin deps tracked_files (start tracked) paths start-IsWithin,
                  finish-IsFinished the_mode the_base reason
                      (capture_files deps (start tracked) paths)
                      (rw (going, given, found, capture_review_diff) at h),
                  let (more, extended) = sections-capture_files deps (start tracked) paths in
                      record { answered = going; more = more; extended = extended },
                )
              ]
        ]
      ]

  -- A captured diff lists the tracked files, against the revision that the mode chooses, and behind
  -- them at most 200 new files, of at most 1 MiB together, each a readable text file of at most
  -- 256 KiB that is no symbolic link, with the counts of its content; the diff has at most 8 MiB.
  pub capture_review_diff-IsBounded :
      (feature_dir : Option Text) {r : ReviewDiffResult}
      → capture_review_diff deps feature_dir ≡ captured r
      → IsBounded r
  capture_review_diff-IsBounded feature_dir h =
      let (l, w, f, s) = capture_review_diff-eq-captured feature_dir h in
      record {
        new = w.new;
        added = f.files ∙ w.added;
        few = omega (arith, w.number, w.few);
        little = omega (arith, w.bytes, w.little);
        each = w.each;
        fits = f.fits;
      }

  -- What a diff against a base is held to: the base is resolved, and has not diverged from HEAD; the
  -- tracked files are those that git counts against its commit, and the patch that is written starts
  -- with what git prints against it.
  pub record IsGrounded (r : ReviewDiffResult) : Type 0 where
    pub base : BaseRefResolution
    pub reported : r.base ≡ some base
    pub resolved_so : the_base ≡ some base
    pub together : base.diverged ≡ false
    pub diff : Text
    pub numstat : Text
    pub printed : deps.exec (txt "diff" ∷ txt "--no-renames" ∷ base.sha ∷ []) ≡ ok diff
    pub counted :
        deps.exec (txt "diff" ∷ txt "--no-renames" ∷ txt "--numstat" ∷ base.sha ∷ []) ≡ ok numstat
    pub new : List FileChange
    pub listed : r.files ≡ parse_numstat numstat ++ new
    pub more : List Text
    pub saved :
        deps.write_diff_file r.diff_path
          (join (10 ∷ []) ((if is_cons diff then diff ∷ [] else []) ++ more))
        ≡ ok tt
