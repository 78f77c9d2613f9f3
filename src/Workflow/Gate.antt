-- ===== src/Workflow/Gate.antt =====
-- .opencode/lib/branch-classification.ts: `classifyBranch`; and of .opencode/plugins/uf-workflow/index.ts,
-- the tool uf_unleash_branch_gate.
pub mod Admitted
mod Tests
use complytime_providers.Prelude.{
  ℕ, Text, txt, ◌==◌, Bool, true, false, ◌&&◌, ◌||◌, Option, none, some, List, [], ◌∷◌, ◌++◌,
  if◌then◌else◌, nat_eq, drop, starts_with, or_else, is_some, Assoc, Result, ok, err, ◌>>=◌,
}
use complytime_providers.Workflow.Names.{is_digit, sanitize_slug}
use complytime_providers.Workflow.Progress.State.{ProgressState}
use complytime_providers.Workflow.Progress.Disk.{FilePath, Disk, Node}
use complytime_providers.Workflow.Progress.Tools.{
  ToolResult, failure, to_tool_result, upsert_checkpoint_step,
}
use complytime_providers.Workflow.Resume.Detect.{WorkflowTier, openspec, speckit, quick}

pub data BranchType : Type 0 where
  opsx speckit_branch quick_branch other_branch : BranchType

pub record BranchClassification : Type 0 where
  pub branch_type : BranchType
  pub change_name : Text
  pub is_main : Bool

-- What follows `^\d+-`, where a text starts so.
unfoldable pub after_number_from : Bool → Text → Option Text
after_number_from some_digit [] = none
after_number_from some_digit (c ∷ s) =
    let rest = after_number_from true s in
    if is_digit c then rest else if some_digit && nat_eq c b'-' then some s else none

unfoldable pub branch_type_of : Text → BranchType × Text
unfolding starts_with after_number_from txt
branch_type_of branch =
    if starts_with branch (txt "opsx/")
    then (opsx, drop 5 branch)
    else if starts_with branch (txt "quick/")
    then (quick_branch, drop 6 branch)
    else if is_some (after_number_from false branch)
    then (speckit_branch, or_else (after_number_from false branch) [])
    else (other_branch, branch)

unfoldable pub classify_branch : Text → BranchClassification
unfolding branch_type_of ◌==◌ txt
classify_branch branch = record {
  branch_type = (branch_type_of branch).0;
  change_name = (branch_type_of branch).1;
  is_main = branch == txt "main" || branch == txt "master";
}

pub data GateCode : Type 0 where
  on_main no_tasks no_spec unrecognized_branch : GateCode

pub record BranchGateData : Type 0 where
  pub branch : Text
  pub workflow_tier : WorkflowTier
  pub feature_dir : Text
  pub change_name : Text

abbrev pub openspec_dir : Text → Text
openspec_dir change_name = txt "openspec/changes/" ++ change_name ++ txt "/"

abbrev pub speckit_dir : Text → Text
speckit_dir branch = txt "specs/" ++ branch ++ txt "/"

abbrev pub gate_data : Text → WorkflowTier → Text → Text → BranchGateData
gate_data branch tier folder change_name = record {
  branch = branch;
  workflow_tier = tier;
  feature_dir = folder;
  change_name = change_name;
}

pub data GateDecision : Type 0 where
  stopped : GateCode → GateDecision
  admitted : BranchGateData → GateDecision

-- The tier of a branch that is not main, with what the tier needs: a file of the feature folder.
unfoldable pub gate_of_type : (Text → Bool) → Text → BranchType → Text → GateDecision
unfolding txt
gate_of_type file_exists branch opsx name =
    if file_exists (openspec_dir name ++ txt "tasks.md")
    then admitted (gate_data branch openspec (openspec_dir name) name)
    else stopped no_tasks
gate_of_type file_exists branch speckit_branch name =
    if file_exists (speckit_dir branch ++ txt "spec.md")
    then admitted (gate_data branch speckit (speckit_dir branch) name)
    else stopped no_spec
gate_of_type file_exists branch quick_branch name = admitted (gate_data branch quick [] name)
gate_of_type file_exists branch other_branch name = stopped unrecognized_branch

unfoldable pub gate_decision : (Text → Bool) → Text → GateDecision
unfolding classify_branch gate_of_type
gate_decision file_exists branch =
    let c = classify_branch branch in
    if c.is_main
    then stopped on_main
    else gate_of_type file_exists branch c.branch_type c.change_name

pub data GateResult : Type 0 where
  passed : BranchGateData → GateResult
  refused : GateCode → GateResult
  gate_error : (message : Text) → GateResult

abbrev pub gate_result : BranchGateData → {State : Type 0} → Result State → GateResult
gate_result found (err message) = gate_error message
gate_result found (ok state) = passed found

module _ {Value : Type 0} (node : Node Value) (cwd : FilePath) (now : Text)
    (encode : WorkflowTier → Text → Assoc Value) where
  -- The checkpoint of the gate.
  unfoldable pub record_gate : Disk → BranchGateData → GateResult × Disk
  unfolding sanitize_slug upsert_checkpoint_step txt
  record_gate disk found = elim (sanitize_slug found.branch) [
    | err message ↦ (gate_error message, disk)
    | ok key ↦
        let (outcome, after) =
          upsert_checkpoint_step node cwd now disk key (txt "uf.unleash") (txt "branch-safety-gate")
            (some (encode found.workflow_tier found.feature_dir)) none in
        (gate_result found outcome, after)
  ]

  unfoldable pub after_decision : Disk → GateDecision → GateResult × Disk
  unfolding record_gate
  after_decision disk (stopped code) = (refused code, disk)
  after_decision disk (admitted found) = record_gate disk found

  -- The tool, for the branch that git prints, or its error.
  unfoldable pub branch_gate : (Text → Bool) → Disk → Result Text → GateResult × Disk
  unfolding gate_decision after_decision
  branch_gate file_exists disk (err message) = (gate_error message, disk)
  branch_gate file_exists disk (ok branch) = after_decision disk (gate_decision file_exists branch)
