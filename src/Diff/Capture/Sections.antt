-- ===== src/Diff/Capture/Sections.antt =====
-- .opencode/lib/review-diff.ts: git's answers on the tracked files, and the sections of the patch.
use complytime_providers.Prelude.{
  Result-cases, txt, ok, none, ◌⊎◌, ap, ◌≡◌, refl, sym, ◌∙◌, inl, inr, Text, List, [], ◌∷◌, ◌++◌,
  arith,
}
use mathlib.Core.List.{append-nil, append_assoc}
use complytime_providers.Diff.Base.{GitExec}
use complytime_providers.Diff.Lines.{render_new_file_diff}
use complytime_providers.Diff.Capture.{
  Dependencies, Loop, read_candidate, capture_file, capture_files, tracked_changes,
}

-- The answers of git to the two questions, if none has failed.
pub tracked_changes-answered :
    (exec : GitExec) (target : Text)
    → (tracked_changes exec target).failure ≡ none
    → (diff : Text) × (numstat : Text) × (exec (txt "diff" ∷ txt "--no-renames" ∷ target ∷ [])
        ≡ ok diff)
      × (exec (txt "diff" ∷ txt "--no-renames" ∷ txt "--numstat" ∷ target ∷ []) ≡ ok numstat)
      × (tracked_changes exec target ≡ record { diff = diff; numstat = numstat; failure = none })
unfolding tracked_changes
tracked_changes-answered exec target h =
    elim (Result-cases (exec (txt "diff" ∷ txt "--no-renames" ∷ target ∷ []))) [
      | inl (m, lost) ↦ ground (arith, lost)
      | inr (diff, printed) ↦
          elim (Result-cases
            (exec (txt "diff" ∷ txt "--no-renames" ∷ txt "--numstat" ∷ target ∷ []))) [
              | inl (m, lost) ↦ ground (arith, printed, lost)
              | inr (numstat, counted) ↦
                  (diff, numstat, printed, counted, rw (printed, counted, tracked_changes) refl)
            ]
    ]

-- A round adds the section of a new file, or none.
sections-capture_file :
    (deps : Dependencies) (l : Loop) (path : Text)
    → (more : List Text) × ((capture_file deps l path).sections ≡ l.sections ++ more)
unfolding capture_file read_candidate
sections-capture_file deps l path =
    let same : (m : List Text) → m ≡ l.sections → (more : List Text) × (m ≡ l.sections ++ more) =
      λ m e. ([], e ∙ sym (append-nil l.sections)) in
    let round = capture_file deps l path in
    elim (Result-cases (deps.stat_file path)) [
      | inl (m, lost) ↦ same round.sections (ground (arith, lost))
      | inr (stat, found) ↦ elim (Result-cases (deps.read_file path)) [
        | inl (m, lost) ↦ same round.sections (ground (arith, found, lost))
        | inr (content, readable) ↦
            let section = render_new_file_diff path content in
            let cases : (round.sections ≡ l.sections)
                ⊎ (round.sections ≡ l.sections ++ section ∷ []) =
              ground (arith, found, readable) in
            elim cases [ inl e ↦ same round.sections e | inr e ↦ (section ∷ [], e) ]
      ]
    ]

pub sections-capture_files :
    (deps : Dependencies) (l : Loop) (paths : List Text)
    → (more : List Text) × ((capture_files deps l paths).sections ≡ l.sections ++ more)
unfolding capture_files
sections-capture_files deps l [] = ([], sym (append-nil l.sections))
sections-capture_files deps l (path ∷ paths) =
    let (here, e) = sections-capture_file deps l path in
    let (rest, d) = sections-capture_files deps (capture_file deps l path) paths in
    (here ++ rest, d ∙ ap (λ (s : List Text). s ++ rest) e ∙ append_assoc l.sections here rest)
