-- ===== src/Dispatch/Consolidating/Warned.antt =====
-- .opencode/plugins/review-dispatch/index.ts: the warnings of
-- `consolidate_dispatch` behind `discard_orphaned_submissions`.
use complytime_providers.Prelude.{
  ◌≡◌, refl, ◌∙◌, Text, Bool, true, false, Option, none, some, List, [], ◌∷◌, All, get, Runtime,
  arith,
}
use complytime_providers.Review.Consolidate.{PersistedRun, Metadata, Orphaned, orphaned_warnings}
use complytime_providers.Dispatch.Folder.{RunFile, run_file, garbled, Folder, run_names}
use complytime_providers.Dispatch.Folder.Names.{IsNamed, run_names-IsNamed}
use complytime_providers.Dispatch.Discard.{DiscardCalls, discard_orphaned_submissions}
use complytime_providers.Dispatch.Discard.Cleared.{
  has_orphans, is_orphaned, Succeeds, discard_orphaned_submissions-cleared,
}
use complytime_providers.Dispatch.Consolidating.{
  RunFileRead, run_of_file, read_files, read_run_files, MetadataFile, no_metadata, invalid_metadata,
  valid_metadata, ConsolidateOutput, consolidated, Parsed, parsed, unparsed, add_run, parse_runs,
  consolidate_parsed, consolidate_reads, consolidate_dispatch,
}

abbrev pub warnings_of : ConsolidateOutput → List Orphaned
warnings_of (consolidated payload proposals warnings) = warnings
warnings_of output = []

abbrev parsed_warnings : Parsed → List Orphaned
parsed_warnings (parsed runs) = orphaned_warnings runs
parsed_warnings (unparsed file) = []

warnings_of-consolidate_parsed :
    (js : Runtime) (metadata : Metadata) (p : Parsed)
    → warnings_of (consolidate_parsed js metadata p) ≡ parsed_warnings p
unfolding consolidate_parsed
warnings_of-consolidate_parsed js metadata (parsed runs) = refl
warnings_of-consolidate_parsed js metadata (unparsed file) = refl

parsed_warnings-add_run :
    (run : PersistedRun) (rest : Parsed)
    → has_orphans run ≡ false
    → parsed_warnings rest ≡ []
    → parsed_warnings (add_run run rest) ≡ []
unfolding add_run orphaned_warnings
parsed_warnings-add_run run (parsed runs) h k = ground arith
parsed_warnings-add_run run (unparsed file) h k = refl

parsed_warnings-cleared :
    (folder : Folder) (names : List Text)
    → ((name : Text) → IsNamed name → is_orphaned (get folder name) ≡ false)
    → All IsNamed names
    → parsed_warnings (parse_runs (read_files folder names)) ≡ []
unfolding parse_runs read_files orphaned_warnings
parsed_warnings-cleared folder [] cleared h = refl
parsed_warnings-cleared folder (n ∷ names) cleared h =
    warned (get folder n) (cleared n h.0) (parsed_warnings-cleared folder names cleared h.1)
  where
    warned :
        (o : Option RunFile)
        → is_orphaned o ≡ false
        → parsed_warnings (parse_runs (read_files folder names)) ≡ []
        → parsed_warnings
            (parse_runs (record { file = n; run = run_of_file o } ∷ read_files folder names))
          ≡ []
    warned none k rest = refl
    warned (some garbled) k rest = refl
    warned (some (run_file run)) k rest =
        parsed_warnings-add_run run (parse_runs (read_files folder names)) k rest

warnings_of-consolidate_reads :
    (js : Runtime) (metadata : Metadata) (results : List RunFileRead)
    → parsed_warnings (parse_runs results) ≡ []
    → warnings_of (consolidate_reads js metadata (some results)) ≡ []
unfolding consolidate_reads
warnings_of-consolidate_reads js metadata [] h = refl
warnings_of-consolidate_reads js metadata (result ∷ results) h =
    warnings_of-consolidate_parsed js metadata (parse_runs (result ∷ results)) ∙ h

-- When no agents are given and no call fails, a consolidation after the discard warns of nothing.
pub warnings_of-consolidate_dispatch :
    (js : Runtime) (listed : Bool) (metadata : MetadataFile) (calls : DiscardCalls)
    (folder : Folder)
    → Succeeds calls
    → warnings_of
        (consolidate_dispatch js listed metadata (discard_orphaned_submissions calls none folder).1)
      ≡ []
unfolding consolidate_dispatch read_run_files
warnings_of-consolidate_dispatch js true no_metadata calls folder ok = refl
warnings_of-consolidate_dispatch js false no_metadata calls folder ok = refl
warnings_of-consolidate_dispatch js listed (invalid_metadata message) calls folder ok = refl
warnings_of-consolidate_dispatch js false (valid_metadata metadata) calls folder ok =
    unfold consolidate_reads in refl
warnings_of-consolidate_dispatch js true (valid_metadata metadata) calls folder ok =
    let after = (discard_orphaned_submissions calls none folder).1 in
    warnings_of-consolidate_reads js metadata (read_files after (run_names after)) (
      parsed_warnings-cleared after (run_names after)
        (λ name h. discard_orphaned_submissions-cleared calls folder name ok h)
        (run_names-IsNamed after))
