-- ===== src/Workflow/Gate/Admitted.antt =====
-- .opencode/plugins/uf-workflow/index.ts: the branches that uf_unleash_branch_gate lets pass.
use complytime_providers.Prelude.{
  ◌≡◌, ◌⊎◌, refl, ap, inl, inr, Text, txt, ◌==◌, Bool, true, false, ◌||◌, none, some, [], ◌++◌,
  is_some, starts_with, Assoc, Result, ok, err, Result-cases, Bool-cases,
}
use mathlib.Core.Path.{subst}
use complytime_providers.Workflow.Names.{sanitize_slug}
use complytime_providers.Workflow.Progress.State.{ProgressState}
use complytime_providers.Workflow.Progress.Disk.{FilePath, Disk, Node}
use complytime_providers.Workflow.Progress.Tools.{upsert_checkpoint_step}
use complytime_providers.Workflow.Resume.Detect.{WorkflowTier, openspec, speckit, quick}
use complytime_providers.Workflow.Gate.{
  BranchType, opsx, speckit_branch, quick_branch, other_branch, after_number_from, branch_type_of,
  classify_branch, GateCode, BranchGateData, openspec_dir, speckit_dir, gate_result, GateDecision,
  stopped, admitted, gate_of_type, gate_decision, GateResult, passed, refused, gate_error,
  record_gate, after_decision, branch_gate,
}

-- What a tier needs of the branch and of the files.
abbrev pub IsAdmitted : (Text → Bool) → Text → BranchGateData → WorkflowTier → Type 0
IsAdmitted file_exists branch found openspec =
    (starts_with branch (txt "opsx/") ≡ true)
    × (file_exists (found.feature_dir ++ txt "tasks.md") ≡ true)
IsAdmitted file_exists branch found speckit =
    (is_some (after_number_from false branch) ≡ true)
    × (file_exists (found.feature_dir ++ txt "spec.md") ≡ true)
IsAdmitted file_exists branch found quick =
    (starts_with branch (txt "quick/") ≡ true) × (found.feature_dir ≡ [])

-- What the classification says of a branch.
abbrev IsOfType : Text → BranchType → Type 0
IsOfType branch opsx = starts_with branch (txt "opsx/") ≡ true
IsOfType branch speckit_branch = is_some (after_number_from false branch) ≡ true
IsOfType branch quick_branch = starts_with branch (txt "quick/") ≡ true
IsOfType branch other_branch = Unit

branch_type_of-IsOfType : (branch : Text) → IsOfType branch (branch_type_of branch).0
unfolding branch_type_of
branch_type_of-IsOfType branch = elim (Bool-cases (starts_with branch (txt "opsx/"))) [
  | inl o ↦ rw (o, branch_type_of) o
  | inr o ↦ elim (Bool-cases (starts_with branch (txt "quick/"))) [
    | inl q ↦ rw (o, q, branch_type_of) q
    | inr q ↦ elim (Bool-cases (is_some (after_number_from false branch))) [
      | inl s ↦ rw (o, q, s, branch_type_of) s
      | inr s ↦ rw (o, q, s, branch_type_of) tt
    ]
  ]
]

stopped_not_admitted :
    {code : GateCode} {found : BranchGateData} → ¬ (stopped code ≡ admitted found)
stopped_not_admitted h = cc

admitted_injective : {a b : BranchGateData} → admitted a ≡ admitted b → a ≡ b
admitted_injective h = cc

-- The branch of the data, and what its tier needs.
abbrev pub IsOpen : (Text → Bool) → Text → BranchGateData → Type 0
IsOpen file_exists branch found =
    (found.branch ≡ branch) × IsAdmitted file_exists branch found found.workflow_tier

gate_of_type-IsOpen :
    (file_exists : Text → Bool) (branch : Text) (type : BranchType) (name : Text)
    (found : BranchGateData)
    → IsOfType branch type
    → gate_of_type file_exists branch type name ≡ admitted found
    → IsOpen file_exists branch found
unfolding gate_of_type
gate_of_type-IsOpen file_exists branch opsx name found t h =
    elim (Bool-cases (file_exists (openspec_dir name ++ txt "tasks.md"))) [
      | inr gone ↦ absurd (stopped_not_admitted (rw (gone, gate_of_type) at h))
      | inl there ↦
          subst (IsOpen file_exists branch) (admitted_injective (rw (there, gate_of_type) at h))
            (refl, (t, there))
    ]
gate_of_type-IsOpen file_exists branch speckit_branch name found t h =
    elim (Bool-cases (file_exists (speckit_dir branch ++ txt "spec.md"))) [
      | inr gone ↦ absurd (stopped_not_admitted (rw (gone, gate_of_type) at h))
      | inl there ↦
          subst (IsOpen file_exists branch) (admitted_injective (rw (there, gate_of_type) at h))
            (refl, (t, there))
    ]
gate_of_type-IsOpen file_exists branch quick_branch name found t h =
    subst (IsOpen file_exists branch) (admitted_injective h) (refl, (t, refl))
gate_of_type-IsOpen file_exists branch other_branch name found t h = absurd (stopped_not_admitted h)

gate_decision-IsOpen :
    (file_exists : Text → Bool) (branch : Text) (found : BranchGateData)
    → gate_decision file_exists branch ≡ admitted found
    → ((branch == txt "main" || branch == txt "master") ≡ false) × IsOpen file_exists branch found
unfolding gate_decision classify_branch
gate_decision-IsOpen file_exists branch found h =
    elim (Bool-cases (branch == txt "main" || branch == txt "master")) [
      | inl main ↦ absurd (stopped_not_admitted (rw (main, gate_decision) at h))
      | inr side ↦ (
        side,
        gate_of_type-IsOpen file_exists branch (branch_type_of branch).0 (branch_type_of branch).1
            found (branch_type_of-IsOfType branch) (rw (side, gate_decision) at h),
      )
    ]

decision-cases :
    (decision : GateDecision)
    → ((code : GateCode) × (decision ≡ stopped code))
      ⊎ ((found : BranchGateData) × (decision ≡ admitted found))
decision-cases (stopped code) = inl (code, refl)
decision-cases (admitted found) = inr (found, refl)

refused_not_passed : {code : GateCode} {found : BranchGateData} → ¬ (refused code ≡ passed found)
refused_not_passed h = cc

error_not_passed : {message : Text} {found : BranchGateData} → ¬ (gate_error message ≡ passed found)
error_not_passed h = cc

gate_result-passed :
    {State : Type 0} (found result : BranchGateData) (outcome : Result State) (disk after : Disk)
    → ◌≡◌ {A = GateResult × Disk} (gate_result found outcome, disk) (passed result, after)
    → (found ≡ result)
      × (saved : State) × ◌≡◌ {A = Result State × Disk} (outcome, disk) (ok saved, after)
gate_result-passed found result (err message) disk after h =
    absurd (error_not_passed (ap (λ q. q.0) h))
gate_result-passed found result (ok saved) disk after h =
    let value : passed found ≡ passed result = ap (λ q. q.0) h in
    (cc, saved, ap (λ (d : Disk). (ok saved, d)) (ap (λ q. q.1) h))

module _ {Value : Type 0} (node : Node Value) (cwd : FilePath) (now : Text)
    (encode : WorkflowTier → Text → Assoc Value) where
  record_gate-passed :
      (disk : Disk) (found result : BranchGateData) (after : Disk)
      → record_gate node cwd now encode disk found ≡ (passed result, after)
      → (found ≡ result)
        × (key : Text) × (saved : ProgressState Value) × (sanitize_slug found.branch ≡ ok key)
        × (upsert_checkpoint_step node cwd now disk key
              (txt "uf.unleash")
              (txt "branch-safety-gate")
              (some (encode found.workflow_tier found.feature_dir))
              none
            ≡ (ok saved, after))
  unfolding record_gate
  record_gate-passed disk found result after h = elim (Result-cases (sanitize_slug found.branch)) [
    | inl (message, e) ↦ absurd (error_not_passed (ap (λ q. q.0) (rw (e, record_gate) at h)))
    | inr (key, e) ↦
        let (outcome, left) =
          upsert_checkpoint_step node cwd now disk key (txt "uf.unleash") (txt "branch-safety-gate")
            (some (encode found.workflow_tier found.feature_dir)) none in
        let (same, saved, written) =
          gate_result-passed found result outcome left after (rw (e, record_gate) at h) in
        (same, key, saved, e, written)
  ]

  -- What the checkpoint of the gate has saved.
  abbrev pub IsRecorded : Disk → BranchGateData → Disk → Type 0
  IsRecorded disk found after =
      (key : Text) × (saved : ProgressState Value) × (sanitize_slug found.branch ≡ ok key)
      × (upsert_checkpoint_step node cwd now disk key (txt "uf.unleash") (txt "branch-safety-gate")
            (some (encode found.workflow_tier found.feature_dir)) none
          ≡ (ok saved, after))

  -- When the gate lets a branch pass, that is git's branch, it is neither main nor master, it is named
  -- as its tier asks, the file that the tier needs is in the feature folder (quick needs none and has no
  -- folder), and the step is recorded under the branch's slug.
  pub branch_gate-IsOpen :
      (file_exists : Text → Bool) (disk : Disk) (branch : Result Text) (found : BranchGateData)
      (after : Disk)
      → branch_gate node cwd now encode file_exists disk branch ≡ (passed found, after)
      → (name : Text) × (branch ≡ ok name)
        × ((name == txt "main" || name == txt "master") ≡ false)
        × IsOpen file_exists name found
        × IsRecorded disk found after
  unfolding branch_gate after_decision
  branch_gate-IsOpen file_exists disk (err message) found after h =
      absurd (error_not_passed (ap (λ q. q.0) h))
  branch_gate-IsOpen file_exists disk (ok name) found after h =
      elim (decision-cases (gate_decision file_exists name)) [
        | inl (code, e) ↦ absurd (refused_not_passed (ap (λ q. q.0) (rw (e, branch_gate) at h)))
        | inr (seen, e) ↦
            let (side, open_to) = gate_decision-IsOpen file_exists name seen e in
            let (same, key, saved, k, written) =
              record_gate-passed disk seen found after (rw (e, branch_gate) at h) in
            (
              name,
              refl,
              side,
              subst (IsOpen file_exists name) same open_to,
              subst (λ q. IsRecorded disk q after) same (key, saved, k, written),
            )
      ]
