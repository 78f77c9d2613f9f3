-- ===== src/Dispatch/Folder/Names.antt =====
-- .opencode/plugins/review-dispatch/index.ts: which files of a session's folder are read as runs, and
-- what a write beside them changes of that.
use complytime_providers.Prelude.{
  ◌≡◌, refl, ◌∙◌, ◌⊎◌, inl, inr, Bool, Text, ◌==◌, ==_iff, true, false, ◌&&◌, Option, is_some, none,
  some, List, [], ◌∷◌, filter, All, includes, includes-sort, get, put, keys, get-put, arith,
}
use complytime_providers.Dispatch.Folder.{
  RunFile, run_file, garbled, Folder, remove, get-remove, is_run_name, is_run_name-temporary_path,
  run_names, LoadedRun, add_loaded, loaded_of, unreadable_of, load_named, load_dispatch_run_files,
  temporary_path,
}

abbrev pub IsNamed : Text → Type 0
IsNamed name = is_run_name name ≡ true

-- A loaded run stands in the folder under its name.
abbrev pub IsLoaded : Folder → LoadedRun → Type 0
IsLoaded folder entry = (get folder entry.file ≡ some (run_file entry.run)) × IsNamed entry.file

pub temporary_path-ne :
    (file run_id name : Text) → IsNamed name → (temporary_path file run_id == name) ≡ false
temporary_path-ne file run_id name h =
    ground (arith, ==_iff (temporary_path file run_id) name, is_run_name-temporary_path file run_id)

includes-filter_run_name :
    (names : List Text) (name : Text)
    → includes (filter is_run_name names) name ≡ (is_run_name name && includes names name)
unfolding includes
includes-filter_run_name [] name = ground arith
includes-filter_run_name (n ∷ names) name =
    ground (arith, includes-filter_run_name names name, ==_iff n name)

-- The names of the runs are the run names among those of the files.
pub includes-run_names :
    (folder : Folder) (name : Text)
    → includes (run_names folder) name ≡ (is_run_name name && includes (keys folder) name)
unfolding run_names
includes-run_names folder name =
    includes-sort (filter is_run_name (keys folder)) name
    ∙ includes-filter_run_name (keys folder) name

All-of_includes :
    (names : List Text)
    → ((name : Text) → includes names name ≡ true → IsNamed name)
    → All IsNamed names
unfolding includes
All-of_includes [] h = tt
All-of_includes (n ∷ names) h =
    (h n (ground (arith, ==_iff n n)), All-of_includes names (λ name k. h name (ground arith)))

pub run_names-IsNamed : (folder : Folder) → All IsNamed (run_names folder)
run_names-IsNamed folder =
    All-of_includes (run_names folder) (λ name h. ground (arith, includes-run_names folder name))

add_loaded-IsLoaded :
    (folder : Folder) (name : Text) (o : Option RunFile) (rest : List LoadedRun)
    → get folder name ≡ o
    → IsNamed name
    → All (IsLoaded folder) rest
    → All (IsLoaded folder) (add_loaded name o rest)
add_loaded-IsLoaded folder name none rest e h k = k
add_loaded-IsLoaded folder name (some garbled) rest e h k = k
add_loaded-IsLoaded folder name (some (run_file run)) rest e h k = ((e, h), k)

pub loaded_of-IsLoaded :
    (folder : Folder) (names : List Text)
    → All IsNamed names
    → All (IsLoaded folder) (loaded_of folder names)
unfolding loaded_of
loaded_of-IsLoaded folder [] h = tt
loaded_of-IsLoaded folder (n ∷ names) h =
    add_loaded-IsLoaded folder n (get folder n) (loaded_of folder names) refl h.0
      (loaded_of-IsLoaded folder names h.1)

-- A file under another name than a run's, and one in the place of a file, change no run's name.
pub names-put_other :
    (folder : Folder) (k : Text) (v : RunFile)
    → is_run_name k ≡ false
    → filter is_run_name (keys (put folder k v)) ≡ filter is_run_name (keys folder)
unfolding put
names-put_other [] k v h = rw h
names-put_other ((j, w) ∷ m) k v h = ground (arith, names-put_other m k v h)

pub names-remove_other :
    (folder : Folder) (k : Text)
    → is_run_name k ≡ false
    → filter is_run_name (keys (remove folder k)) ≡ filter is_run_name (keys folder)
unfolding remove
names-remove_other [] k h = refl
names-remove_other ((j, w) ∷ m) k h = ground (arith, names-remove_other m k h, ==_iff j k)

pub keys-put_there :
    (folder : Folder) (k : Text) (v : RunFile)
    → includes (keys folder) k ≡ true
    → keys (put folder k v) ≡ keys folder
unfolding put includes
keys-put_there [] k v h = ground arith
keys-put_there ((j, w) ∷ m) k v h = ground (arith, keys-put_there m k v)

pub includes-of_get :
    (folder : Folder) (k : Text) {v : RunFile}
    → get folder k ≡ some v
    → includes (keys folder) k ≡ true
unfolding get includes
includes-of_get [] k h = ground arith
includes-of_get ((j, w) ∷ m) k {v = v} h = ground (arith, includes-of_get m k {v = v})

pub get-of_includes :
    (folder : Folder) (k : Text) → includes (keys folder) k ≡ true → is_some (get folder k) ≡ true
unfolding get includes
get-of_includes [] k h = cc
get-of_includes ((j, w) ∷ m) k h = ground (arith, get-of_includes m k)

-- Reading under another name than the one that is written.
pub get-put_other :
    (folder : Folder) (k name : Text) (v : RunFile)
    → (k == name) ≡ false
    → get (put folder k v) name ≡ get folder name
get-put_other folder k name v h = get-put folder k name v ∙ rw h

pub get-remove_other :
    (folder : Folder) (k name : Text)
    → (k == name) ≡ false
    → get (remove folder k) name ≡ get folder name
get-remove_other folder k name h = get-remove folder k name ∙ rw h

-- The runs that are loaded, if some are.
load_named-cases :
    (folder : Folder) (names : List Text)
    → ((load_named folder names ≡ none) × (names ≡ []))
      ⊎ (load_named folder names
          ≡ some (record {
            loaded = loaded_of folder names;
            unreadable_files = unreadable_of folder names;
          }))
unfolding load_named
load_named-cases folder [] = inl (refl, refl)
load_named-cases folder (name ∷ names) = inr refl

pub load_dispatch_run_files-cases :
    (listed : Bool) (folder : Folder)
    → ((load_dispatch_run_files listed folder ≡ none) × (listed ≡ true → run_names folder ≡ []))
      ⊎ (load_dispatch_run_files listed folder
          ≡ some (record {
            loaded = loaded_of folder (run_names folder);
            unreadable_files = unreadable_of folder (run_names folder);
          }))
unfolding load_dispatch_run_files
load_dispatch_run_files-cases false folder = inl (refl, λ h. cc)
load_dispatch_run_files-cases true folder = elim (load_named-cases folder (run_names folder)) [
  | inl (absent, empty) ↦ inl (absent, λ h. empty)
  | inr there ↦ inr there
]
