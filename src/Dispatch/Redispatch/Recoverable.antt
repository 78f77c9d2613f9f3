-- ===== src/Dispatch/Redispatch/Recoverable.antt =====
-- .opencode/plugins/review-dispatch/index.ts: what the loop of `redispatch_failed_runs` makes of one
-- run file.
use complytime_providers.Prelude.{
  ◌≡◌, refl, sym, ap, ◌∙◌, inl, inr, ◌⊎◌, Text, ◌==◌, ==_iff, some, List, [], ◌∷◌, ◌++◌, get,
  Bool-cases, arith,
}
use mathlib.Core.Path.{subst}
use complytime_providers.Review.Model.{PlanEntry}
use complytime_providers.Review.Consolidate.{PersistedRun}
use complytime_providers.Dispatch.Folder.{RunFile, run_file, Folder, LoadedRun}
use complytime_providers.Dispatch.Folder.Names.{IsNamed}
use complytime_providers.Dispatch.Redispatch.{redispatch_target, redispatch_targets}
use complytime_providers.Dispatch.Archive.{
  RedispatchRunResult, Session, RedispatchCalls, superseded_name,
}
use complytime_providers.Dispatch.Redispatch.Active.{archived_name, superseded_name_lem, IsArchived}
use complytime_providers.Dispatch.Redispatch.Kept.{
  AllOwn, redispatch_target-Elsewhere, redispatch_target-SparesArchive, redispatch_target-IsSafe,
}
-- No two run files have one name in the archive.
use complytime_providers.Dispatch.Redispatch.Once.{Spares, IsOnce}

-- The file is under its name, or it is the file of a run that is in the archive, and a result tells so.
abbrev pub IsRecoverable : Text → RunFile → List RedispatchRunResult → Session → Type 0
IsRecoverable name file results after =
    (get after.folder name ≡ some file)
    ⊎ ((prior : PersistedRun) × (file ≡ run_file prior)
        × (result : RedispatchRunResult) × (before : List RedispatchRunResult) × (behind : List
            RedispatchRunResult)
        × (results ≡ before ++ result ∷ behind)
        × IsArchived name prior result after)

IsArchived-moved :
    (name : Text) (prior : PersistedRun) (result : RedispatchRunResult) (before after : Session)
    → get after.folder name ≡ get before.folder name
    → get after.archive (archived_name prior) ≡ get before.archive (archived_name prior)
    → IsArchived name prior result before
    → IsArchived name prior result after
IsArchived-moved name prior result before after same kept h = record {
  stored = kept ∙ h.stored;
  of_agent = h.of_agent;
  of_run = h.of_run;
  placed = h.placed;
  either = elim h.either [
    | inl (run, outcome, new, there) ↦ inl (run, outcome, new, same ∙ there)
    | inr failed ↦ inr failed
  ];
}

module _ (calls : RedispatchCalls) (plan : List PlanEntry) (folder : Folder) (name : Text)
    (named : IsNamed name) where
  redispatch_targets-Spares :
      (targets : List LoadedRun) (session : Session) (place : Text)
      → AllOwn folder targets
      → Spares name place targets
      → let after = (redispatch_targets calls plan targets session).1 in
        (get after.folder name ≡ get session.folder name)
        × (get after.archive place ≡ get session.archive place)
  unfolding redispatch_targets
  redispatch_targets-Spares [] session place own apart = (refl, refl)
  redispatch_targets-Spares (t ∷ ts) session place own apart =
      let next = (redispatch_target calls plan t session).1 in
      let (same, kept) = redispatch_targets-Spares ts next place own.1 apart.1 in
      (
        same
            ∙ redispatch_target-Elsewhere calls t own.0.1 own.0.0.1 plan session name named
                (ground (arith, apart.0.0)),
        kept
            ∙ redispatch_target-SparesArchive calls t own.0.1 own.0.0.1 plan session place
                apart.0.1,
      )

  -- The file after the round of its own target, and what that round says, last to the end.
  last :
      (t : LoadedRun) (ts : List LoadedRun) (result : RedispatchRunResult) (next : Session)
      → AllOwn folder ts
      → Spares name (superseded_name t.run) ts
      → (get next.folder name ≡ some (run_file t.run)) ⊎ IsArchived name t.run result next
      → let (results, after) = redispatch_targets calls plan ts next in
        IsRecoverable name (run_file t.run) (result ∷ results) after
  last t ts result next own apart h =
      let (same, kept) = redispatch_targets-Spares ts next (superseded_name t.run) own apart in
      elim h [
        | inl there ↦ inl (same ∙ there)
        | inr archived ↦ inr (
          t.run,
          refl,
          result,
          [],
          (redispatch_targets calls plan ts next).0,
          refl,
          IsArchived-moved name t.run result next (redispatch_targets calls plan ts next).1 same
              (subst
                (λ (p : Text).
                  get (redispatch_targets calls plan ts next).1.archive p ≡ get next.archive p)
                (superseded_name_lem t.run) kept)
              archived,
        )
      ]

  pub redispatch_targets-IsRecoverable :
      (targets : List LoadedRun) (session : Session) (file : RunFile)
      → AllOwn folder targets
      → IsOnce name targets
      → get folder name ≡ some file
      → get session.folder name ≡ some file
      → let (results, after) = redispatch_targets calls plan targets session in
        IsRecoverable name file results after
  unfolding redispatch_targets
  redispatch_targets-IsRecoverable [] session file own once given there = inl there
  redispatch_targets-IsRecoverable (t ∷ ts) session file own once given there =
      let result = (redispatch_target calls plan t session).0 in
      let next = (redispatch_target calls plan t session).1 in
      elim (Bool-cases (t.file == name)) [
        | inl here ↦
            let e : t.file ≡ name = (==_iff t.file name).0 here in
            let is : some (run_file t.run) ≡ some file =
              sym own.0.0.0 ∙ ap (get folder) e ∙ given in
            let loaded : run_file t.run ≡ file = cc is in
            let safe =
              redispatch_target-IsSafe calls t own.0.1 own.0.0.1 plan session
                (ap (get session.folder) e ∙ there ∙ sym is) in
            subst
              (λ (f : RunFile).
                IsRecoverable name f (result ∷ (redispatch_targets calls plan ts next).0)
                  (redispatch_targets calls plan ts next).1)
              loaded
              (last t ts result next own.1 (once.0 here) (
                subst
                  (λ (n : Text).
                    (get next.folder n ≡ some (run_file t.run)) ⊎ IsArchived n t.run result next)
                  e safe))
        | inr apart ↦
            let same : get next.folder name ≡ some file =
              redispatch_target-Elsewhere calls t own.0.1 own.0.0.1 plan session name named
                (ground (arith, apart))
              ∙ there in
            elim (redispatch_targets-IsRecoverable ts next file own.1 once.1 given same) [
              | inl still ↦ inl still
              | inr (prior, f, r, before, behind, listed, archived) ↦
                  inr
                    (prior, f, r, result ∷ before, behind, ap (λ rs. result ∷ rs) listed, archived)
            ]
      ]
