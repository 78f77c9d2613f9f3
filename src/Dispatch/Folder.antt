-- ===== src/Dispatch/Folder.antt =====
-- .opencode/plugins/review-dispatch/index.ts: the run files in the folder of a dispatch session, and
-- `loadDispatchRunFiles`.
pub mod Names
use complytime_providers.Prelude.{
  ℕ, ◌+◌, ◌-◌, ◌≡◌, refl, Text, txt, ◌==◌, ==_iff, Bool, true, false, ◌&&◌, ◌||◌, Option, none,
  some, List, [], ◌∷◌, ◌++◌, reverse, length, filter, take, drop, if◌then◌else◌, includes, Assoc,
  get, put, keys, sort, starts_with, ends_with, Bool-cases, arith,
}
use mathlib.Core.List.{reverse-append}
use complytime_providers.Review.Consolidate.{PersistedRun}

-- What reading a file gives: the run that its JSON text stands for, or an error.
pub data RunFile : Type 0 where
  run_file : (run : PersistedRun) → RunFile
  garbled : RunFile

-- The files of a folder, by name.
abbrev pub Folder : Type 0
Folder = Assoc RunFile

module _ {ℓ} {V : Type ℓ} where
  unfoldable pub remove : Assoc V → Text → Assoc V
  unfolding ◌==◌
  remove [] k = []
  remove ((j, v) ∷ m) k = if j == k then remove m k else (j, v) ∷ remove m k

  pub get-remove :
      (m : Assoc V) (k j : Text) → get (remove m k) j ≡ (if k == j then none else get m j)
  unfolding remove get
  get-remove [] k j = ground arith
  get-remove ((i, v) ∷ m) k j = ground (arith, ==_iff k j, ==_iff i k, ==_iff i j, get-remove m k j)

-- `rename(from, to)`, where `from` is there: it takes the place of `to`.
unfoldable pub move : Folder → Text → Text → RunFile → Folder
unfolding remove put
move folder from to file = put (remove folder from) to file

-- `name.startsWith("run-") && name.endsWith(".json")`
unfoldable pub is_run_name : Text → Bool
unfolding starts_with ends_with txt
is_run_name name = starts_with name (txt "run-") && ends_with name (txt ".json")

unfoldable pub run_names : Folder → List Text
unfolding is_run_name sort
run_names folder = sort (filter is_run_name (keys folder))

pub record LoadedRun : Type 0 where
  pub file : Text
  pub run : PersistedRun

-- `loaded.push`, where the file is read.
abbrev pub add_loaded : Text → Option RunFile → List LoadedRun → List LoadedRun
add_loaded name (some (run_file run)) rest = record { file = name; run = run } ∷ rest
add_loaded name (some garbled) rest = rest
add_loaded name none rest = rest

unfoldable pub loaded_of : Folder → List Text → List LoadedRun
unfolding get
loaded_of folder [] = []
loaded_of folder (name ∷ names) = add_loaded name (get folder name) (loaded_of folder names)

unfoldable pub unreadable_of : Folder → List Text → List Text
unfolding get
unreadable_of folder [] = []
unreadable_of folder (name ∷ names) =
    let rest = unreadable_of folder names in
    elim (get folder name) [ some (run_file run) ↦ rest | _ ↦ name ∷ rest ]

pub record LoadedRuns : Type 0 where
  pub loaded : List LoadedRun
  pub unreadable_files : List Text

load_named : Folder → List Text → Option LoadedRuns
unfolding loaded_of unreadable_of
load_named folder [] = none
load_named folder (name ∷ names) = some (record {
  loaded = loaded_of folder (name ∷ names);
  unreadable_files = unreadable_of folder (name ∷ names);
})

-- `listed` is whether `readdir` succeeds.
unfoldable pub load_dispatch_run_files : Bool → Folder → Option LoadedRuns
unfolding load_named run_names
load_dispatch_run_files false folder = none
load_dispatch_run_files true folder = load_named folder (run_names folder)

-- A temporary name is no run name.
abbrev pub temporary_path : Text → Text → Text
temporary_path file run_id = file ++ b'.' ∷ (run_id ++ txt ".tmp")

pub is_run_name-temporary_path :
    (file run_id : Text) → is_run_name (temporary_path file run_id) ≡ false
unfolding is_run_name ends_with starts_with txt
is_run_name-temporary_path file run_id =
    simp
      (
        reverse-append file (b'.' ∷ (run_id ++ txt ".tmp")),
        reverse-append (b'.' ∷ run_id) (txt ".tmp"),
      )
      (ground arith)
