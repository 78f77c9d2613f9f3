-- ===== src/Review/Finalize.antt =====
-- .opencode/plugins/review-dispatch/index.ts: `cleanupTemporary` and `persistEnvelope`, on the folder
-- of the dispatch artifacts.
pub mod Kept
pub mod Published
use complytime_providers.Prelude.{
  ℕ, zero, suc, ◌-◌, Text, txt, ◌==◌, Bool, true, false, Option, none, some, List, [], ◌∷◌, ◌++◌,
  if◌then◌else◌, is_some, Result, ok, err,
}

-- An error of a call: EEXIST, ENOENT, or another one.
pub data Fault : Type 0 where
  already_exists absent : Fault
  other : (message : Text) → Fault

-- The files of the folder, by name.
abbrev pub Folder : Type 0
Folder = Text → Option Text

unfoldable pub put_file : Folder → Text → Text → Folder
unfolding ◌==◌
put_file folder name text asked = if name == asked then some text else folder asked

unfoldable pub drop_file : Folder → Text → Folder
unfolding ◌==◌
drop_file folder name asked = if name == asked then none else folder asked

-- What the injected calls answer in each attempt (`none` where a call succeeds): the fresh
-- identifiers, the text that a write that fails leaves, and the text of the envelope under an
-- identifier.
pub record Calls : Type 0 where
  pub make_folder : ℕ → Option Fault
  pub restrict_folder : ℕ → Option Fault
  pub temporary_id : ℕ → Result Text
  pub open_new : ℕ → Option Fault
  pub write : ℕ → Option Fault
  pub left : ℕ → Text
  pub sync : ℕ → Option Fault
  pub close : ℕ → Option Fault
  pub restrict : ℕ → Option Fault
  pub link : ℕ → Option Fault
  pub unlink : ℕ → Option Fault
  pub clean_up : ℕ → Option Fault
  pub next_id : ℕ → Result Text
  pub envelope_text : Text → Text

unfoldable pub target_name : Text → Text
unfolding txt
target_name correlation_id = correlation_id ++ txt ".json"

unfoldable pub temporary_name : Text → Text → Text
unfolding txt
temporary_name correlation_id uuid = b'.' ∷ (correlation_id ++ b'.' ∷ (uuid ++ txt ".tmp"))

-- The first call of some in a row that throws.
unfoldable pub first_fault : List (Option Fault) → Option Fault
first_fault [] = none
first_fault (none ∷ faults) = first_fault faults
first_fault (some fault ∷ faults) = some fault

-- Where the block behind `try` has ended: the error, if there is one, whether the target is linked,
-- the temporary file that is still to be removed, and the folder.
pub record Tried : Type 0 where
  pub fault : Option Fault
  pub published : Bool
  pub temporary : Option Text
  pub folder : Folder

-- What `unlink` gives in `cleanupTemporary`: an error, but not that the file is absent, is passed on.
unfoldable pub cleaned : Option Fault → Folder → Text → Option Fault × Folder
unfolding drop_file
cleaned none folder temporary = (none, drop_file folder temporary)
cleaned (some absent) folder temporary = (none, folder)
cleaned (some fault) folder temporary = (some fault, folder)

module _ (calls : Calls) (attempt : ℕ) where
  -- The last call, which removes the temporary file.
  unfoldable pub finish_up : Folder → Text → Tried
  unfolding drop_file
  finish_up folder temporary = elim (calls.unlink attempt) [
    | some fault ↦ record {
      fault = some fault;
      published = true;
      temporary = some temporary;
      folder = folder;
    }
    | none ↦ record {
      fault = none;
      published = true;
      temporary = none;
      folder = drop_file folder temporary;
    }
  ]

  abbrev pub failed_with : Fault → Folder → Text → Tried
  failed_with fault folder temporary = record {
    fault = some fault;
    published = false;
    temporary = some temporary;
    folder = folder;
  }

  -- `link`, which refuses a target that is there.
  unfoldable pub link_target : Folder → Text → Text → Text → Tried
  unfolding finish_up put_file
  link_target folder temporary target text =
      elim (if is_some (folder target) then some already_exists else calls.link attempt) [
        | some fault ↦ failed_with fault folder temporary
        | none ↦ finish_up (put_file folder target text) temporary
      ]

  -- The calls on the open file, and what follows them.
  unfoldable pub fill_file : Folder → Text → Text → Text → Tried
  unfolding link_target first_fault put_file
  fill_file folder temporary target text = elim (calls.write attempt) [
    | some fault ↦ failed_with fault (put_file folder temporary (calls.left attempt)) temporary
    | none ↦
        elim (first_fault
          (calls.sync attempt ∷ calls.close attempt ∷ calls.restrict attempt ∷ [])) [
            | some fault ↦ failed_with fault (put_file folder temporary text) temporary
            | none ↦ link_target (put_file folder temporary text) temporary target text
          ]
  ]

  -- `open` with the flag `wx`, which refuses a file that is there.
  unfoldable pub open_temporary : Folder → Text → Text → Text → Tried
  unfolding fill_file
  open_temporary folder temporary target text =
      elim (if is_some (folder temporary) then some already_exists else calls.open_new attempt) [
        | some fault ↦ failed_with fault folder temporary
        | none ↦ fill_file folder temporary target text
      ]

  -- The block behind `try`.
  unfoldable pub try_persist : Text → Folder → Tried
  unfolding open_temporary temporary_name target_name
  try_persist correlation_id folder = elim (calls.temporary_id attempt) [
    | err message ↦ record {
      fault = some (other message);
      published = false;
      temporary = none;
      folder = folder;
    }
    | ok uuid ↦
        open_temporary folder (temporary_name correlation_id uuid) (target_name correlation_id)
          (calls.envelope_text correlation_id)
  ]

  unfoldable pub cleanup_temporary : Option Text → Folder → Option Fault × Folder
  unfolding cleaned
  cleanup_temporary none folder = (none, folder)
  cleanup_temporary (some temporary) folder = cleaned (calls.clean_up attempt) folder temporary

-- What follows an attempt: it is done, it throws, or it is repeated under another identifier.
pub data Next : Type 0 where
  done retry : Next
  throws : (fault : Fault) → (cleanup : Option Fault) → Next

abbrev pub is_collision : Fault → Bool
is_collision already_exists = true
is_collision fault = false

-- The block behind `catch`, after the clean-up.
unfoldable pub next_of : Option Fault → Option Fault → Bool → Next
next_of none cleanup published = done
next_of (some fault) (some cleanup) published = throws fault (some cleanup)
next_of (some fault) none published =
    if published then done else if is_collision fault then retry else throws fault none

-- One attempt.
unfoldable pub attempt_once : Calls → ℕ → Text → Folder → Next × Folder
unfolding try_persist cleanup_temporary next_of first_fault
attempt_once calls attempt correlation_id folder =
    elim (first_fault (calls.make_folder attempt ∷ calls.restrict_folder attempt ∷ [])) [
      | some fault ↦ (throws fault none, folder)
      | none ↦
          let tried = try_persist calls attempt correlation_id folder in
          let (cleanup, after) = cleanup_temporary calls attempt tried.temporary tried.folder in
          if is_some tried.fault
          then (next_of tried.fault cleanup tried.published, after)
          else (done, tried.folder)
    ]

abbrev pub max_correlation_attempts : ℕ
max_correlation_attempts = 32

-- `persistEnvelope`, with the number of collisions that may still follow: the identifier of the
-- artifact.
unfoldable pub persist_from : Calls → ℕ → ℕ → Text → Folder → Option Text × Folder
unfolding attempt_once
persist_from calls zero attempt correlation_id folder =
    let (next, after) = attempt_once calls attempt correlation_id folder in
    elim next [
      | done ↦ (some correlation_id, after)
      | retry ↦ (none, after)
      | throws fault cleanup ↦ (none, after)
    ]
persist_from calls (suc more) attempt correlation_id folder =
    let (next, after) = attempt_once calls attempt correlation_id folder in
    elim next [
      | done ↦ (some correlation_id, after)
      | throws fault cleanup ↦ (none, after)
      | retry ↦ elim (calls.next_id attempt) [
        | err message ↦ (none, after)
        | ok fresh ↦ persist_from calls more (suc attempt) fresh after
      ]
    ]

unfoldable pub persist_envelope : Calls → Text → Folder → Option Text × Folder
unfolding persist_from
persist_envelope calls correlation_id folder =
    persist_from calls (max_correlation_attempts - 1) 0 correlation_id folder
