-- ===== src/Dispatch/Redispatch/Once.antt =====
-- .opencode/plugins/review-dispatch/index.ts: each file is a target of `redispatch_failed_runs` once.
use complytime_providers.Prelude.{
  ℕ, ◌+◌, ◌≤◌, ◌≡◌, sym, ap, ◌∙◌, inl, inr, Text, ◌==◌, ==_iff, Bool, true, false, Option, none,
  some, List, [], ◌∷◌, count, filter, All, keys, IsUnique, IsUnique-occurs, occurs, occurs-sort,
  count-filter, count-sort_by, get, Runtime, Bool-cases, arith,
}
use mathlib.Core.Path.{subst}
use complytime_providers.Review.Consolidate.{PersistedRun}
use complytime_providers.Dispatch.Folder.{
  RunFile, run_file, garbled, Folder, LoadedRun, add_loaded, loaded_of, is_run_name, run_names,
}
use complytime_providers.Dispatch.Targets.{resolve_recovery_targets, is_target}
use complytime_providers.Dispatch.Redispatch.{ordered_targets, runs_before}
use complytime_providers.Dispatch.Archive.{superseded_name}
use complytime_providers.Dispatch.Redispatch.Active.{archived_name, superseded_name_lem}
use complytime_providers.Dispatch.Redispatch.Kept.{is_failed, AllOwn}

-- No two run files have one name in the archive.
-- No two run files have one name in the archive.
abbrev pub IsSeparate : Folder → Type 0
IsSeparate folder =
    (name other : Text) (run run' : PersistedRun)
    → get folder name ≡ some (run_file run)
    → get folder other ≡ some (run_file run')
    → archived_name run ≡ archived_name run'
    → name ≡ other

-- No target is the file of the name, or goes to the place in the archive.
abbrev pub Spares : Text → Text → List LoadedRun → Type 0
Spares name place targets =
    All (λ (t : LoadedRun). ((t.file == name) ≡ false) × ((superseded_name t.run == place) ≡ false))
      targets

-- Behind the target that is the file of the name, none is, or goes to its place.
abbrev pub IsOnce : Text → List LoadedRun → Type 0
IsOnce name [] = Unit
IsOnce name (t ∷ ts) =
    ((t.file == name) ≡ true → Spares name (superseded_name t.run) ts) × IsOnce name ts

-- How many targets are the file of a name.
abbrev number : Text → List LoadedRun → ℕ
number name targets = count (λ (t : LoadedRun). t.file == name) targets

number-add_loaded :
    (name file : Text) (o : Option RunFile) (rest : List LoadedRun)
    → number name (add_loaded file o rest) ≤ number name (add_loaded file o []) + number name rest
number-add_loaded name file none rest = omega arith
number-add_loaded name file (some garbled) rest = omega arith
number-add_loaded name file (some (run_file run)) rest = ground arith

number_one :
    (name file : Text) (o : Option RunFile)
    → number name (add_loaded file o []) ≤ occurs (file ∷ []) name
number_one name file none = ground arith
number_one name file (some garbled) = ground arith
number_one name file (some (run_file run)) = ground arith

number-loaded_of :
    (folder : Folder) (names : List Text) (name : Text)
    → number name (loaded_of folder names) ≤ occurs names name
unfolding loaded_of
number-loaded_of folder [] name = omega arith
number-loaded_of folder (n ∷ names) name = ground (
  arith,
  number-add_loaded name n (get folder n) (loaded_of folder names),
  number_one name n (get folder n),
  number-loaded_of folder names name,
)

-- Each file is a target once.
number-ordered_targets :
    (js : Runtime) (folder : Folder) (agents : Option (List Text)) (name : Text)
    → IsUnique (keys folder)
    → number name (ordered_targets js (loaded_of folder (run_names folder)) agents) ≤ 1
unfolding ordered_targets resolve_recovery_targets run_names
number-ordered_targets js folder agents name u =
    let p : LoadedRun → Bool = λ (t : LoadedRun). t.file == name in
    let names = filter is_run_name (keys folder) in
    let loaded = loaded_of folder (run_names folder) in
    omega (
      arith,
      count-sort_by p (runs_before js) (filter (is_target agents is_failed) loaded),
      count-filter p (is_target agents is_failed) loaded,
      number-loaded_of folder (run_names folder) name,
      occurs-sort names name,
      count-filter (λ (n : Text). n == name) is_run_name (keys folder),
      IsUnique-occurs (keys folder) u name,
    )

Spares-of_number :
    (folder : Folder) (t : LoadedRun) (ts : List LoadedRun)
    → IsSeparate folder
    → get folder t.file ≡ some (run_file t.run)
    → AllOwn folder ts
    → number t.file ts ≡ 0
    → Spares t.file (superseded_name t.run) ts
Spares-of_number folder t [] separate there own none_left = tt
Spares-of_number folder t (s ∷ ts) separate there own none_left =
    let other : (s.file == t.file) ≡ false = ground arith in
    (
      (
        other,
        elim (Bool-cases (superseded_name s.run == superseded_name t.run)) [
          | inl same ↦
              let e = (==_iff (superseded_name s.run) (superseded_name t.run)).0 same in
              let f : s.file ≡ t.file =
                separate s.file t.file s.run t.run own.0.0.0 there
                  (sym (superseded_name_lem s.run) ∙ e ∙ superseded_name_lem t.run) in
              ground (arith, other, f, ==_iff s.file t.file)
          | inr apart ↦ apart
        ],
      ),
      Spares-of_number folder t ts separate there own.1 (ground arith),
    )

IsOnce-of_number :
    (folder : Folder) (name : Text) (targets : List LoadedRun)
    → IsSeparate folder
    → AllOwn folder targets
    → number name targets ≤ 1
    → IsOnce name targets
IsOnce-of_number folder name [] separate own few = tt
IsOnce-of_number folder name (t ∷ ts) separate own few = (
  λ here.
      let e : t.file ≡ name = (==_iff t.file name).0 here in
      let none_left : number name ts ≡ 0 = ground (arith, here, few) in
      subst (λ (n : Text). Spares n (superseded_name t.run) ts) e
        (Spares-of_number folder t ts separate own.0.0.0 own.1
          (ap (λ (n : Text). number n ts) e ∙ none_left)),
  IsOnce-of_number folder name ts separate own.1 (ground (arith, few)),
)

pub ordered_targets-IsOnce :
    (js : Runtime) (folder : Folder) (agents : Option (List Text)) (name : Text)
    → IsUnique (keys folder)
    → IsSeparate folder
    → AllOwn folder (ordered_targets js (loaded_of folder (run_names folder)) agents)
    → IsOnce name (ordered_targets js (loaded_of folder (run_names folder)) agents)
ordered_targets-IsOnce js folder agents name u separate own =
    IsOnce-of_number folder name (ordered_targets js (loaded_of folder (run_names folder)) agents)
      separate own (number-ordered_targets js folder agents name u)
