-- ===== src/Plan/Profiles/Counts.antt =====
-- .opencode/plugins/review-dispatch/index.ts: what `profileDiff` counts and finds.
use complytime_providers.Prelude.{
  ℕ, ◌+◌, ◌≤◌, ◌≡◌, refl, sym, ◌∙◌, inl, inr, Text, Bool, true, false, ◌||◌, List, [], ◌∷◌, ◌++◌,
  length, length-append, any, includes, ltb, IsUnique, add, add-IsUnique, Runtime, forward_slashes,
  ok, err, >>=-eq-ok, Bool-cases, arith,
}
use mathlib.Core.Path.{subst}
use complytime_providers.Plan.Paths.{normalize_path}
use complytime_providers.Plan.Profiles.{
  DiffProfile, ChangedFile, diff_tier, max_safe_integer, Scan, empty_scan, scanned,
  path_is_sensitive, path_is_user_facing, scan_path, scan_files, summarize, profile_diff,
}

normalize_path-eq-ok :
    (js : Runtime) (input : Text) {path : Text}
    → normalize_path js input ≡ ok path
    → path ≡ forward_slashes input
unfolding normalize_path
normalize_path-eq-ok js input h = ground arith

-- A round that succeeds is for a path not seen before, and the total stays safe.
record HasScanned (js : Runtime) (s : Scan) (path : Text) (changed : ℕ) (s' : Scan) : Type 0 where
  fresh : includes s.seen_paths path ≡ false
  safe : s.lines + changed ≤ max_safe_integer
  result : scanned js s path changed ≡ s'

scan_path-HasScanned :
    (js : Runtime) (s : Scan) (path : Text) (changed : ℕ) {s' : Scan}
    → scan_path js s path changed ≡ ok s'
    → HasScanned js s path changed s'
unfolding scan_path
scan_path-HasScanned js s path changed {s'} h = elim (Bool-cases (includes s.seen_paths path)) [
  | inl again ↦ let h' : err _ ≡ ok s' = rw (again, scan_path) at h in cc h'
  | inr fresh ↦ elim (Bool-cases (ltb max_safe_integer (s.lines + changed))) [
    | inl large ↦ let h' : err _ ≡ ok s' = rw (fresh, large, scan_path) at h in cc h'
    | inr safe ↦
        let h' : ok (scanned js s path changed) ≡ ok s' = rw (fresh, safe, scan_path) at h in
        record { fresh = fresh; safe = ground arith; result = cc h' }
  ]
]

-- The lines that are added or deleted, together.
abbrev pub total_lines : List ChangedFile → ℕ
total_lines [] = 0
total_lines (f ∷ fs) = f.additions + f.deletions + total_lines fs

-- A test of the normalised path of a file.
abbrev pub at_path : (Text → Bool) → ChangedFile → Bool
at_path p f = p (forward_slashes f.path)

-- The state of the loop behind the files.
record HasScannedAll (js : Runtime) (s : Scan) (fs : List ChangedFile) (s' : Scan) : Type 0 where
  lines : s'.lines ≡ s.lines + total_lines fs
  files : length s'.seen_paths ≡ length s.seen_paths + length fs
  unique : IsUnique s.seen_paths → IsUnique s'.seen_paths
  safe : s.lines ≤ max_safe_integer → s'.lines ≤ max_safe_integer
  sensitive :
      s'.security_sensitive ≡ (s.security_sensitive || any (at_path (path_is_sensitive js)) fs)
  facing : s'.user_facing ≡ (s.user_facing || any (at_path (path_is_user_facing js)) fs)

or_false : (b : Bool) → b ≡ (b || false)
or_false true = refl
or_false false = refl

or_assoc : (a b c : Bool) → ((a || b) || c) ≡ (a || (b || c))
or_assoc true b c = refl
or_assoc false b c = refl

IsUnique-append_fresh :
    (s : List Text) (x : Text) → includes s x ≡ false → IsUnique s → IsUnique (s ++ x ∷ [])
unfolding add
IsUnique-append_fresh s x fresh u =
    let e : add s x ≡ s ++ x ∷ [] = rw (fresh, add) refl in rw (← e) (add-IsUnique s x u)

scan_files-HasScannedAll :
    (js : Runtime) (s : Scan) (fs : List ChangedFile) {s' : Scan}
    → scan_files js s fs ≡ ok s'
    → HasScannedAll js s fs s'
unfolding scan_files
scan_files-HasScannedAll js s [] {s'} h =
    let e : s ≡ s' = cc h in
    subst (HasScannedAll js s []) e (record {
      lines = omega arith;
      files = omega arith;
      unique = λ u. u;
      safe = λ le. le;
      sensitive = or_false s.security_sensitive;
      facing = or_false s.user_facing;
    })
scan_files-HasScannedAll js s (f ∷ fs) {s'} h =
    let changed = f.additions + f.deletions in
    let (path, normal, rest) = >>=-eq-ok (normalize_path js f.path) _ h in
    let (next, round, more) = >>=-eq-ok (scan_path js s path changed) _ rest in
    let p = normalize_path-eq-ok js f.path normal in
    let one = scan_path-HasScanned js s path changed round in
    let all : HasScannedAll js (scanned js s path changed) fs s' =
      scan_files-HasScannedAll js (scanned js s path changed) fs
        (subst (λ (n : Scan). scan_files js n fs ≡ ok s') (sym one.result) more) in
    record {
      lines = omega (arith, all.lines);
      files = ground (arith, all.files, length-append s.seen_paths (path ∷ []));
      unique = λ u. all.unique (IsUnique-append_fresh s.seen_paths path one.fresh u);
      safe = λ le. all.safe one.safe;
      sensitive = all.sensitive ∙ or_assoc s.security_sensitive _ _ ∙ rw p refl;
      facing = all.facing ∙ or_assoc s.user_facing _ _ ∙ rw p refl;
    }

-- What a profile says of the changed files.
pub record IsProfile (js : Runtime) (files : List ChangedFile) (p : DiffProfile) : Type 0 where
  pub lines : p.lines ≡ total_lines files
  pub safe : p.lines ≤ max_safe_integer
  pub number : p.files ≡ length files
  pub sensitive : p.security_sensitive ≡ any (at_path (path_is_sensitive js)) files
  pub facing : p.user_facing ≡ any (at_path (path_is_user_facing js)) files
  pub tier : p.tier ≡ diff_tier (total_lines files) (length files) p.components p.security_sensitive

-- The profile of a diff counts every file and every line that is added or deleted, within the safe
-- integers; it is security-sensitive, or user-facing, exactly if the normalised path of some file is;
-- and its tier is that of these counts.
pub profile_diff-IsProfile :
    (js : Runtime) (files : List ChangedFile) {p : DiffProfile}
    → profile_diff js files ≡ ok p
    → IsProfile js files p
unfolding profile_diff summarize
profile_diff-IsProfile js files {p} h =
    let (s, scan, e) = >>=-eq-ok (scan_files js empty_scan files) _ h in
    let all = scan_files-HasScannedAll js empty_scan files scan in
    let same : summarize s ≡ p = cc e in
    let lines : s.lines ≡ total_lines files = all.lines ∙ omega arith in
    let number : length s.seen_paths ≡ length files = all.files ∙ omega arith in
    subst (IsProfile js files) same (record {
      lines = lines;
      safe = all.safe (omega arith);
      number = number;
      sensitive = all.sensitive;
      facing = all.facing;
      tier = rw (lines, number) refl;
    })
