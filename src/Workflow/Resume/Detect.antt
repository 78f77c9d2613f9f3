-- ===== src/Workflow/Resume/Detect.antt =====
-- .opencode/plugins/uf-workflow/index.ts: the body of uf_unleash_detect_resume, behind the checks of
-- its arguments.
use complytime_providers.Prelude.{
  ℕ, Text, txt, ◌==◌, Bool, true, false, not, ◌&&◌, ◌||◌, Option, none, some, List, [], ◌∷◌,
  if◌then◌else◌, nat_eq, all, find, includes, Result, ok, ◌>>=◌,
}
use complytime_providers.Workflow.Tasks.{count_unchecked_checkboxes}
use complytime_providers.Workflow.Progress.State.{ProgressState}
use complytime_providers.Workflow.Resume.Artifacts.{ArtifactSummary, is_approving_verdict}
use complytime_providers.Workflow.Resume.Probes.{
  count_clarification_markers, has_clarifications, Ancestry, is_ancestor_or_equal,
  spec_artifacts_dirty,
}

pub data WorkflowTier : Type 0 where
  openspec speckit quick : WorkflowTier

abbrev pub is_quick : WorkflowTier → Bool
is_quick quick = true
is_quick tier = false

pub data ResumeStep : Type 0 where
  clarify plan tasks spec_review implement code_review : ResumeStep

abbrev pub resume_step_order : List ResumeStep
resume_step_order = clarify ∷ plan ∷ tasks ∷ spec_review ∷ implement ∷ code_review ∷ []

pub record StepStatuses : Type 0 where
  pub clarify_done : Bool
  pub plan_done : Bool
  pub tasks_done : Bool
  pub spec_review_done : Bool
  pub implement_done : Bool
  pub code_review_done : Bool

abbrev pub is_step_done : StepStatuses → ResumeStep → Bool
is_step_done s clarify = s.clarify_done
is_step_done s plan = s.plan_done
is_step_done s tasks = s.tasks_done
is_step_done s spec_review = s.spec_review_done
is_step_done s implement = s.implement_done
is_step_done s code_review = s.code_review_done

pub record CheckpointClaims : Type 0 where
  pub spec_review_claim : Bool
  pub code_review_claim : Bool
  pub implement_claims : Option (Bool × Bool)

pub record DetectResumeData : Type 0 where
  pub step_statuses : StepStatuses
  pub resume_from : Option ResumeStep
  pub all_complete : Bool
  pub unchecked_count : Option ℕ
  pub checkpoint_claims : CheckpointClaims

-- The files of the feature folder, by name, and the folder as the caller has named it.
pub record Feature : Type 0 where
  pub given : Text
  pub folder : Text
  pub file_exists : Text → Bool
  pub read_text : Text → Option Text

-- What git answers.
pub record Git : Type 0 where
  pub branch : Result Text
  pub head_sha : Result Text
  pub merge_base : Text → Text → Ancestry
  pub status : Text → Result Text

-- Whether clarify is done, given spec.md and whether plan.md is there.
unfoldable pub clarified : Option Text → Bool → Bool
unfolding count_clarification_markers has_clarifications
clarified none plan_done = false
clarified (some spec_text) plan_done =
    nat_eq (count_clarification_markers spec_text) 0 && (has_clarifications spec_text || plan_done)

-- The steps before the spec review: clarify, plan and tasks.
unfoldable pub spec_steps : WorkflowTier → Option Feature → Bool × Bool × Bool
unfolding clarified txt
spec_steps openspec feature = (true, true, true)
spec_steps quick feature = (true, true, true)
spec_steps speckit none = (false, false, false)
spec_steps speckit (some feature) =
    let plan_done = feature.file_exists (txt "plan.md") in
    (
      clarified (feature.read_text (txt "spec.md")) plan_done,
      plan_done,
      feature.file_exists (txt "tasks.md"),
    )

unfoldable pub unchecked_of : Option Text → Option ℕ
unfolding count_unchecked_checkboxes
unchecked_of none = none
unchecked_of (some tasks_text) = some (count_unchecked_checkboxes tasks_text)

abbrev pub is_zero : Option ℕ → Bool
is_zero none = false
is_zero (some count) = nat_eq count 0

-- The implement probe: the count of unchecked boxes, and whether implement is done.
unfoldable pub implement_probe : WorkflowTier → List Text → Option Feature → Option ℕ × Bool
unfolding unchecked_of includes txt
implement_probe quick claimed feature =
    (none, includes claimed (txt "implement") && includes claimed (txt "quick-pre-flight"))
implement_probe tier claimed none = (none, false)
implement_probe tier claimed (some feature) =
    let count = unchecked_of (feature.read_text (txt "tasks.md")) in (count, is_zero count)

unfoldable pub code_review_probe : Option ArtifactSummary → Text → Bool
unfolding is_approving_verdict ◌==◌
code_review_probe none head_sha = false
code_review_probe (some artifact) head_sha =
    is_approving_verdict artifact.verdict && artifact.head_sha == head_sha

module _ (decode_utf8 : List ℕ → Text) (git : Git) where
  -- The review of the specs, when its artifact approves.
  unfoldable pub fresh_specs : ArtifactSummary → Text → Text → Result Bool
  unfolding is_ancestor_or_equal spec_artifacts_dirty
  fresh_specs artifact head_sha folder =
      is_ancestor_or_equal git.merge_base artifact.head_sha head_sha >>= λ fresh.
      if fresh
      then (spec_artifacts_dirty decode_utf8 git.status folder >>= λ dirty. ok (not dirty))
      else ok false

  unfoldable pub spec_review_probe :
      WorkflowTier → Option ArtifactSummary → Text → Text → Result Bool
  unfolding fresh_specs is_approving_verdict
  spec_review_probe quick artifact head_sha folder = ok true
  spec_review_probe tier none head_sha folder = ok false
  spec_review_probe tier (some artifact) head_sha folder =
      if is_approving_verdict artifact.verdict
      then fresh_specs artifact head_sha folder
      else ok false

abbrev pub given_of : Option Feature → Text
given_of none = []
given_of (some feature) = feature.given

abbrev pub folder_of : Option Feature → Text
folder_of none = []
folder_of (some feature) = feature.folder

module _ {Value : Type 0} where
  abbrev pub claimed_steps : Option (ProgressState Value) → List Text
  claimed_steps none = []
  claimed_steps (some state) = state.completed_steps

-- `find`, over the steps in order
unfoldable pub resume_data : WorkflowTier → StepStatuses → Option ℕ → List Text → DetectResumeData
unfolding includes txt
resume_data tier statuses unchecked claimed = record {
  step_statuses = statuses;
  resume_from = find (λ step. not (is_step_done statuses step)) resume_step_order;
  all_complete = all (is_step_done statuses) resume_step_order;
  unchecked_count = unchecked;
  checkpoint_claims = record {
    spec_review_claim = includes claimed (txt "spec-review");
    code_review_claim = includes claimed (txt "code-review");
    implement_claims =
        if is_quick tier
        then some (includes claimed (txt "implement"), includes claimed (txt "quick-pre-flight"))
        else none;
  };
}

unfoldable pub step_statuses_of :
    WorkflowTier → Option Feature → List Text → Text → Option ArtifactSummary → Bool → StepStatuses
unfolding spec_steps implement_probe code_review_probe
step_statuses_of tier feature claimed head_sha code_artifact spec_done = record {
  clarify_done = (spec_steps tier feature).0;
  plan_done = (spec_steps tier feature).1;
  tasks_done = (spec_steps tier feature).2;
  spec_review_done = spec_done;
  implement_done = (implement_probe tier claimed feature).1;
  code_review_done = code_review_probe code_artifact head_sha;
}
