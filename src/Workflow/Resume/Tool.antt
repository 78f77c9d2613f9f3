-- ===== src/Workflow/Resume/Tool.antt =====
-- .opencode/plugins/uf-workflow/index.ts: the tool uf_unleash_detect_resume, behind the checks of its
-- arguments, from its probes to the checkpoint that it records.
use complytime_providers.Prelude.{
  ℕ, Text, txt, Bool, false, Option, none, some, List, Assoc, Runtime, Result, ok, err, ◌>>=◌,
}
use complytime_providers.Workflow.Names.{sanitize_slug}
use complytime_providers.Workflow.Progress.State.{ProgressState, resolve_key}
use complytime_providers.Workflow.Progress.Disk.{FilePath, Disk, Node, read_state}
use complytime_providers.Workflow.Progress.Tools.{
  ToolResult, failure, to_tool_result, upsert_checkpoint_step,
}
use complytime_providers.Workflow.Resume.Artifacts.{
  ArtifactStore, ArtifactSummary, read_dispatch_artifacts, most_recent_artifact,
}
use complytime_providers.Workflow.Resume.Detect.{
  WorkflowTier, Feature, Git, ResumeStep, DetectResumeData, resume_data, step_statuses_of,
  spec_review_probe, implement_probe, claimed_steps, folder_of, given_of,
}

abbrev pub unleash : Text
unleash = txt "uf.unleash"

-- What the detection is given: the JSON of the data that it records is made by `encode`.
pub record World (Value : Type 0) : Type 0 where
  pub runtime : Runtime
  pub decode_utf8 : List ℕ → Text
  pub git : Git
  pub store : ArtifactStore
  pub node : Node Value
  pub cwd : FilePath
  pub now : Text
  pub encode : WorkflowTier → Text → Option ResumeStep → Bool → Assoc Value

module _ {Value : Type 0} (world : World Value) where
  -- The data of the result, for what has been read.
  unfoldable pub detected_data :
      WorkflowTier
      → Option Feature
      → List Text
      → Text
      → Option ArtifactSummary
      → Bool
      → DetectResumeData
  unfolding resume_data step_statuses_of implement_probe
  detected_data tier feature claimed head_sha code_artifact spec_done =
      resume_data tier (step_statuses_of tier feature claimed head_sha code_artifact spec_done)
        (implement_probe tier claimed feature).0 claimed

  -- The key of the state, and the data of the result.
  abbrev pub Detection : Type 0
  Detection = Text × DetectResumeData

  -- The spec review, and the data.
  unfoldable pub judged :
      WorkflowTier
      → Option Feature
      → Text
      → Text
      → Text
      → Option (ProgressState Value)
      → List ArtifactSummary
      → Result Detection
  unfolding most_recent_artifact spec_review_probe detected_data txt
  judged tier feature branch head_sha key prior artifacts =
      elim (spec_review_probe world.decode_utf8 world.git tier
        (most_recent_artifact artifacts (txt "specs") branch) head_sha (folder_of feature)) [
          | err message ↦ err message
          | ok spec_done ↦ ok (
            key,
            detected_data tier feature (claimed_steps prior) head_sha
                (most_recent_artifact artifacts (txt "code") branch) spec_done,
          )
        ]

  -- The reads in their order, and what follows them.
  unfoldable pub detected : Disk → WorkflowTier → Option Feature → Result Detection
  unfolding resolve_key sanitize_slug read_state read_dispatch_artifacts judged txt
  detected disk tier feature = world.git.branch >>= λ branch. world.git.head_sha >>= λ head_sha.
      resolve_key world.git.branch none >>= λ key. sanitize_slug unleash >>= λ cmd.
      read_state world.node world.cwd disk key cmd >>= λ prior.
      read_dispatch_artifacts world.runtime world.store >>= λ artifacts.
      judged tier feature branch head_sha key prior artifacts

  unfoldable pub detect_resume :
      Disk → WorkflowTier → Option Feature → ToolResult DetectResumeData × Disk
  unfolding detected upsert_checkpoint_step txt
  detect_resume disk tier feature =
      let code = txt "RESUME_DETECT_ERROR" in
      elim (detected disk tier feature) [
        | err message ↦ (failure message false code, disk)
        | ok (key, found) ↦
            let (outcome, after) =
              upsert_checkpoint_step world.node world.cwd world.now disk key unleash
                (txt "resumability-detection")
                (some (world.encode tier (given_of feature) found.resume_from found.all_complete))
                none in
            (to_tool_result code (outcome >>= λ _. ok found), after)
      ]
