-- ===== src/Dispatch/Consolidating.antt =====
-- .opencode/plugins/review-dispatch/index.ts: `readRunFiles`, and the tool `consolidate_dispatch` for a
-- session, up to the call of the finalizer.
pub mod Recovered
pub mod Warned
use complytime_providers.Prelude.{
  Text, Bool, true, false, Option, none, some, List, [], ◌∷◌, ◌++◌, map, if◌then◌else◌, get,
  Runtime,
}
use complytime_providers.Review.Model.{Payload}
use complytime_providers.Review.Consolidate.{
  Proposal, PersistedRun, success_runs, Metadata, consolidate, Orphaned, orphaned_warnings,
}
use complytime_providers.Dispatch.Folder.{RunFile, run_file, garbled, Folder, run_names}

pub record RunFileRead : Type 0 where
  pub file : Text
  pub run : Option PersistedRun

abbrev pub run_of_file : Option RunFile → Option PersistedRun
run_of_file (some (run_file run)) = some run
run_of_file _ = none

unfoldable pub read_files : Folder → List Text → List RunFileRead
unfolding get
read_files folder [] = []
read_files folder (name ∷ names) =
    record { file = name; run = run_of_file (get folder name) } ∷ read_files folder names

unfoldable pub read_run_files : Bool → Folder → Option (List RunFileRead)
unfolding read_files run_names
read_run_files false folder = none
read_run_files true folder = some (read_files folder (run_names folder))

-- The file of the session's metadata: not readable as JSON, refused by its schema, or its value.
pub data MetadataFile : Type 0 where
  no_metadata : MetadataFile
  invalid_metadata : (message : Text) → MetadataFile
  valid_metadata : (metadata : Metadata) → MetadataFile

pub record TaggedProposal : Type 0 where
  pub agent : Text
  pub proposal : Proposal

tag_proposals : Text → List Proposal → List TaggedProposal
tag_proposals agent [] = []
tag_proposals agent (p ∷ ps) = record { agent = agent; proposal = p } ∷ tag_proposals agent ps

unfoldable pub collect_proposals : List PersistedRun → List TaggedProposal
unfolding tag_proposals
collect_proposals [] = []
collect_proposals (run ∷ runs) = tag_proposals run.agent run.proposals ++ collect_proposals runs

-- The outputs of the tool.
pub data ConsolidateOutput : Type 0 where
  session_not_found metadata_missing no_run_files : ConsolidateOutput
  metadata_invalid : (message : Text) → ConsolidateOutput
  read_failed : (file : Text) → ConsolidateOutput
  consolidated :
      (payload : Payload)
      → (proposals : List TaggedProposal) → (warnings : List Orphaned) → ConsolidateOutput

-- The runs, or the first file that was not read.
pub data Parsed : Type 0 where
  parsed : (runs : List PersistedRun) → Parsed
  unparsed : (file : Text) → Parsed

add_run : PersistedRun → Parsed → Parsed
add_run run (parsed runs) = parsed (run ∷ runs)
add_run run (unparsed file) = unparsed file

unfoldable pub parse_runs : List RunFileRead → Parsed
unfolding add_run
parse_runs [] = parsed []
parse_runs (result ∷ results) =
    let rest = parse_runs results in
    elim result.run [ none ↦ unparsed result.file | some run ↦ add_run run rest ]

unfoldable pub consolidate_parsed : Runtime → Metadata → Parsed → ConsolidateOutput
unfolding consolidate collect_proposals success_runs orphaned_warnings
consolidate_parsed js metadata (unparsed file) = read_failed file
consolidate_parsed js metadata (parsed runs) =
    consolidated (consolidate js metadata runs) (collect_proposals (success_runs runs))
      (orphaned_warnings runs)

consolidate_reads : Runtime → Metadata → Option (List RunFileRead) → ConsolidateOutput
unfolding parse_runs consolidate_parsed
consolidate_reads js metadata none = session_not_found
consolidate_reads js metadata (some []) = no_run_files
consolidate_reads js metadata (some (result ∷ results)) =
    consolidate_parsed js metadata (parse_runs (result ∷ results))

unfoldable pub consolidate_dispatch : Runtime → Bool → MetadataFile → Folder → ConsolidateOutput
unfolding read_run_files consolidate_reads
consolidate_dispatch js listed (invalid_metadata message) folder = metadata_invalid message
consolidate_dispatch js listed no_metadata folder =
    if listed then metadata_missing else session_not_found
consolidate_dispatch js listed (valid_metadata metadata) folder =
    consolidate_reads js metadata (read_run_files listed folder)
