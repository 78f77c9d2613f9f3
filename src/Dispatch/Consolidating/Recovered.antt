-- ===== src/Dispatch/Consolidating/Recovered.antt =====
-- .opencode/plugins/review-dispatch/index.ts: `consolidate_dispatch` behind
-- `discard_orphaned_submissions`.
use complytime_providers.Prelude.{
  suc, ◌+◌, ◌≡◌, refl, sym, ap, ◌∙◌, length, count, Option-cases, inl, inr, Text, Bool, true, false,
  Option, none, some, List, [], ◌∷◌, map, All, if◌then◌else◌, get, Runtime, arith,
}
use complytime_providers.Review.Model.{Kind, Status, success, failed, skipped, cancelled}
use complytime_providers.Review.Consolidate.{
  PersistedRun, success_runs, dispatch_run, count_runs, Metadata, consolidate, has_status,
  workflow_kind,
}
use complytime_providers.Dispatch.Folder.{RunFile, Folder, run_names}
use complytime_providers.Dispatch.Folder.Names.{IsNamed, run_names-IsNamed}
use complytime_providers.Dispatch.Discard.{DiscardCalls, is_success, discard_orphaned_submissions}
use complytime_providers.Dispatch.Discard.Kept.{IsKept, discard_orphaned_submissions-IsKept}
use complytime_providers.Dispatch.Discard.Names.{run_names-discard}
use complytime_providers.Dispatch.Consolidating.{
  RunFileRead, run_of_file, read_files, read_run_files, MetadataFile, no_metadata, invalid_metadata,
  valid_metadata, ConsolidateOutput, consolidated, Parsed, parsed, unparsed, add_run, parse_runs,
  consolidate_parsed, consolidate_reads, consolidate_dispatch,
}

-- What consolidation sees of a run: nothing of what a run without success has submitted.
seen : PersistedRun → PersistedRun
seen run =
    if is_success run
    then run
    else record run { findings = []; proposals = []; discarded_submissions = none }

abbrev seen_run : Option PersistedRun → Option PersistedRun
seen_run none = none
seen_run (some run) = some (seen run)

abbrev seen_read : RunFileRead → RunFileRead
seen_read result = record result { run = seen_run result.run }

abbrev seen_parsed : Parsed → Parsed
seen_parsed (parsed runs) = parsed (map seen runs)
seen_parsed (unparsed file) = unparsed file

seen_parsed-add_run :
    (run : PersistedRun) (rest : Parsed)
    → seen_parsed (add_run run rest) ≡ add_run (seen run) (seen_parsed rest)
unfolding add_run
seen_parsed-add_run run (parsed runs) = refl
seen_parsed-add_run run (unparsed file) = refl

parse_runs-seen :
    (results : List RunFileRead)
    → parse_runs (map seen_read results) ≡ seen_parsed (parse_runs results)
unfolding parse_runs
parse_runs-seen [] = refl
parse_runs-seen (result ∷ results) = elim (Option-cases result.run) [
  | inl absent ↦ rw absent refl
  | inr (run, there) ↦ rw there (
      ap (add_run (seen run)) (parse_runs-seen results)
      ∙ sym (seen_parsed-add_run run (parse_runs results)))
]

success_runs-seen : (runs : List PersistedRun) → success_runs (map seen runs) ≡ success_runs runs
unfolding success_runs seen
success_runs-seen [] = refl
success_runs-seen (run ∷ runs) = ground (arith, success_runs-seen runs)

dispatch_run-seen :
    (kind : Kind) (run : PersistedRun) → dispatch_run kind (seen run) ≡ dispatch_run kind run
unfolding dispatch_run seen
dispatch_run-seen kind run = ground arith

map-dispatch_run-seen :
    (kind : Kind) (runs : List PersistedRun)
    → map (dispatch_run kind) (map seen runs) ≡ map (dispatch_run kind) runs
map-dispatch_run-seen kind [] = refl
map-dispatch_run-seen kind (run ∷ runs) =
    cc (dispatch_run-seen kind run, map-dispatch_run-seen kind runs)

has_status-seen : (s : Status) (run : PersistedRun) → has_status s (seen run) ≡ has_status s run
unfolding seen
has_status-seen s run = ground arith

count-seen :
    (s : Status) (runs : List PersistedRun)
    → count (has_status s) (map seen runs) ≡ count (has_status s) runs
count-seen s [] = refl
count-seen s (run ∷ runs) =
    rw (has_status-seen s run)
      (ap (λ n. (if has_status s run then 1 else 0) + n) (count-seen s runs))

length-seen : (runs : List PersistedRun) → length (map seen runs) ≡ length runs
length-seen [] = refl
length-seen (run ∷ runs) = ap suc (length-seen runs)

count_runs-seen : (runs : List PersistedRun) → count_runs (map seen runs) ≡ count_runs runs
unfolding count_runs
count_runs-seen runs =
    rw
      (
        length-seen runs,
        count-seen success runs,
        count-seen failed runs,
        count-seen skipped runs,
        count-seen cancelled runs,
      )
      refl

consolidate-seen :
    (js : Runtime) (metadata : Metadata) (runs : List PersistedRun)
    → consolidate js metadata (map seen runs) ≡ consolidate js metadata runs
unfolding consolidate
consolidate-seen js metadata runs =
    rw
      (
        success_runs-seen runs,
        count_runs-seen runs,
        map-dispatch_run-seen (workflow_kind metadata.command) runs,
      )
      refl

-- Reading a kept file shows consolidation the same run.
run_of_file-IsKept :
    (at : Text) (before after : Option RunFile)
    → IsKept at before after
    → seen_run (run_of_file after) ≡ seen_run (run_of_file before)
unfolding seen
run_of_file-IsKept at before after (inl same) = rw same refl
run_of_file-IsKept at before after (inr (run, old, bad, new)) = rw (old, new) (rw bad refl)

read_files-kept :
    (at : Text) (folder after : Folder) (names : List Text)
    → ((name : Text) → IsNamed name → IsKept at (get folder name) (get after name))
    → All IsNamed names
    → map seen_read (read_files after names) ≡ map seen_read (read_files folder names)
unfolding read_files
read_files-kept at folder after [] kept h = refl
read_files-kept at folder after (n ∷ names) kept h = cc (
  run_of_file-IsKept at (get folder n) (get after n) (kept n h.0),
  read_files-kept at folder after names kept h.1,
)

-- The output without what it warns of.
abbrev pub without_warnings : ConsolidateOutput → ConsolidateOutput
without_warnings (consolidated payload proposals warnings) = consolidated payload proposals []
without_warnings output = output

consolidate_parsed-seen :
    (js : Runtime) (metadata : Metadata) (p : Parsed)
    → without_warnings (consolidate_parsed js metadata (seen_parsed p))
      ≡ without_warnings (consolidate_parsed js metadata p)
unfolding consolidate_parsed
consolidate_parsed-seen js metadata (unparsed file) = refl
consolidate_parsed-seen js metadata (parsed runs) =
    rw (consolidate-seen js metadata runs, success_runs-seen runs) refl

consolidate_reads-seen :
    (js : Runtime) (metadata : Metadata) (results : List RunFileRead)
    → without_warnings (consolidate_reads js metadata (some (map seen_read results)))
      ≡ without_warnings (consolidate_reads js metadata (some results))
unfolding consolidate_reads
consolidate_reads-seen js metadata [] = refl
consolidate_reads-seen js metadata (result ∷ results) =
    ap (λ p. without_warnings (consolidate_parsed js metadata p))
      (parse_runs-seen (result ∷ results))
    ∙ consolidate_parsed-seen js metadata (parse_runs (result ∷ results))

-- Discarding changes nothing of what consolidation gives but its warnings: the payload, the
-- collected proposals, and every failure stay, whatever agents are given and whatever calls fail.
pub consolidate_dispatch-discard :
    (js : Runtime) (listed : Bool) (metadata : MetadataFile) (calls : DiscardCalls)
    (agents : Option (List Text)) (folder : Folder)
    → without_warnings (
        consolidate_dispatch js listed metadata
          (discard_orphaned_submissions calls agents folder).1)
      ≡ without_warnings (consolidate_dispatch js listed metadata folder)
unfolding consolidate_dispatch read_run_files
consolidate_dispatch-discard js listed no_metadata calls agents folder = refl
consolidate_dispatch-discard js listed (invalid_metadata message) calls agents folder = refl
consolidate_dispatch-discard js false (valid_metadata metadata) calls agents folder = refl
consolidate_dispatch-discard js true (valid_metadata metadata) calls agents folder =
    let after = (discard_orphaned_submissions calls agents folder).1 in
    let names = run_names folder in
    let output = λ (results : List RunFileRead).
      without_warnings (consolidate_reads js metadata (some results)) in
    rw (run_names-discard calls agents folder) (
      sym (consolidate_reads-seen js metadata (read_files after names))
      ∙ ap output (
          read_files-kept calls.discarded_at folder after names
            (discard_orphaned_submissions-IsKept calls agents folder) (run_names-IsNamed folder))
      ∙ consolidate_reads-seen js metadata (read_files folder names))
