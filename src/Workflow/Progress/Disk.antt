-- ===== src/Workflow/Progress/Disk.antt =====
-- .opencode/plugins/uf-workflow/index.ts: the file of a progress state, `statePath`, `readState`,
-- `writeState` and `deleteState`, on a disk.
use complytime_providers.Prelude.{
  Text, txt, ◌==◌, Bool, true, false, ◌&&◌, ◌||◌, Option, none, some, List, [], ◌∷◌, ◌++◌,
  if◌then◌else◌, starts_with, split, Assoc, Result, ok, err, ◌>>=◌,
}
use complytime_providers.Workflow.Progress.State.{ProgressState}

-- An absolute path: its segments.
abbrev pub FilePath : Type 0
FilePath = List Text

-- The path without its last segment.
unfoldable pub parent : FilePath → FilePath
parent [] = []
parent (p ∷ []) = []
parent (p ∷ q ∷ ps) = p ∷ parent (q ∷ ps)

-- One segment of `path.resolve`.
unfoldable pub step_into : FilePath → Text → FilePath
unfolding parent ◌==◌ txt
step_into base segment =
    if segment == txt "" || segment == txt "."
    then base
    else if segment == txt ".."
    then parent base
    else base ++ segment ∷ []

unfoldable pub step_along : FilePath → List Text → FilePath
unfolding step_into
step_along base [] = base
step_along base (segment ∷ segments) = step_along (step_into base segment) segments

-- `path.resolve(base, path)`
unfoldable pub resolve : FilePath → Text → FilePath
unfolding step_along split starts_with
resolve base path = step_along (if starts_with path (b'/' ∷ []) then [] else base) (split b'/' path)

-- The path as a text.
unfoldable pub path_text : FilePath → Text
path_text [] = []
path_text (segment ∷ path) = b'/' ∷ (segment ++ path_text path)

unfoldable pub progress_root : FilePath → FilePath
unfolding resolve txt
progress_root cwd = resolve cwd (txt ".uf/progress")

-- The check that a path stays below the folder.
unfoldable pub checked_path : FilePath → FilePath → Result FilePath
unfolding path_text starts_with txt
checked_path root path =
    if starts_with (path_text path) (path_text root ++ txt "/")
    then ok path
    else err (txt "Path traversal blocked: resolved path escapes .uf/progress/")

unfoldable pub state_path : FilePath → Text → Text → Result FilePath
unfolding progress_root resolve checked_path txt
state_path cwd key sanitized_command =
    checked_path (progress_root cwd)
      (resolve (resolve (progress_root cwd) key) (sanitized_command ++ txt ".json"))

-- What `lstatSync` finds at a path, or its error.
pub data Entry : Type 0 where
  missing link folder : Entry
  file : (text : Text) → Entry
  denied : (message : Text) → Entry

abbrev pub Disk : Type 0
Disk = FilePath → Entry

unfoldable pub same_path : FilePath → FilePath → Bool
unfolding ◌==◌
same_path [] [] = true
same_path [] (q ∷ qs) = false
same_path (p ∷ ps) [] = false
same_path (p ∷ ps) (q ∷ qs) = p == q && same_path ps qs

unfoldable pub is_above : FilePath → FilePath → Bool
unfolding ◌==◌
is_above [] qs = true
is_above (p ∷ ps) [] = false
is_above (p ∷ ps) (q ∷ qs) = p == q && is_above ps qs

-- The disk with another entry at one path.
unfoldable pub set_entry : Disk → FilePath → Entry → Disk
unfolding same_path
set_entry disk path entry other = if same_path path other then entry else disk other

abbrev made_folder : Bool → Entry → Entry
made_folder true missing = folder
made_folder above entry = entry

-- `mkdirSync` with `recursive`, where it does not throw.
unfoldable pub make_folders : Disk → FilePath → Disk
unfolding is_above
make_folders disk path other = made_folder (is_above other path) (disk other)

-- What Node answers: the text of a state and the state of a text, the errors of the calls on the
-- file system (`none` where a call succeeds), and what a write that throws leaves.
pub record Node (Value : Type 0) : Type 0 where
  pub stringify_state : ProgressState Value → Text
  pub parse_state : Text → Result (ProgressState Value)
  pub parse_data : Text → Result (Assoc Value)
  pub folder_error : Disk → FilePath → Option Text
  pub write_error : Disk → FilePath → Option (Text × Entry)
  pub remove_error : Disk → FilePath → Option Text
  pub read_folder_error : Text

module _ {Value : Type 0} (node : Node Value) (cwd : FilePath) where
  unfoldable pub read_entry : Entry → Result (Option (ProgressState Value))
  unfolding txt
  read_entry missing = ok none
  read_entry link = err (txt "Refusing to read symlinked state file")
  read_entry folder = err node.read_folder_error
  read_entry (file text) = node.parse_state text >>= λ state. ok (some state)
  read_entry (denied message) = err message

  unfoldable pub read_state : Disk → Text → Text → Result (Option (ProgressState Value))
  unfolding state_path read_entry
  read_state disk key sanitized_command =
      state_path cwd key sanitized_command >>= λ path. read_entry (disk path)

  -- The call of `writeFileSync`.
  unfoldable pub write_file : Disk → FilePath → Text → Result (Unit {0}) × Disk
  unfolding set_entry
  write_file disk path text = elim (node.write_error disk path) [
    | none ↦ (ok tt, set_entry disk path (file text))
    | some (message, left) ↦ (err message, set_entry disk path left)
  ]

  -- What follows the look at the folder of the file.
  unfoldable pub write_into : Disk → FilePath → Text → Result (Unit {0}) × Disk
  unfolding make_folders write_file parent
  write_into disk path text = elim (node.folder_error disk (parent path)) [
    | some message ↦ (err message, disk)
    | none ↦ write_file (make_folders disk (parent path)) path text
  ]

  unfoldable pub write_below : Disk → FilePath → Text → Entry → Result (Unit {0}) × Disk
  unfolding write_into txt
  write_below disk path text link = (err (txt "Refusing to write into symlinked directory"), disk)
  write_below disk path text (denied message) = (err message, disk)
  write_below disk path text entry = write_into disk path text

  unfoldable pub write_state : Disk → Text → Text → ProgressState Value → Result (Unit {0}) × Disk
  unfolding state_path write_below parent txt
  write_state disk key sanitized_command state = elim (state_path cwd key sanitized_command) [
    | err message ↦ (err message, disk)
    | ok path ↦ write_below disk path (node.stringify_state state ++ txt "\n") (disk (parent path))
  ]

  -- The call of `rmSync`.
  unfoldable pub remove_file : Disk → FilePath → Result (Unit {0}) × Disk
  unfolding set_entry
  remove_file disk path = elim (node.remove_error disk path) [
    | some message ↦ (err message, disk)
    | none ↦ (ok tt, set_entry disk path missing)
  ]

  unfoldable pub delete_entry : Disk → FilePath → Entry → Result (Unit {0}) × Disk
  unfolding path_text remove_file txt
  delete_entry disk path missing = (ok tt, disk)
  delete_entry disk path link =
      (err (txt "Refusing to delete symlinked state file: " ++ path_text path), disk)
  delete_entry disk path (denied message) = (err message, disk)
  delete_entry disk path entry = remove_file disk path

  unfoldable pub delete_state : Disk → Text → Text → Result (Unit {0}) × Disk
  unfolding state_path delete_entry
  delete_state disk key sanitized_command = elim (state_path cwd key sanitized_command) [
    | err message ↦ (err message, disk)
    | ok path ↦ delete_entry disk path (disk path)
  ]
