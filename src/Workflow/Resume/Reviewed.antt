-- ===== src/Workflow/Resume/Reviewed.antt =====
-- .opencode/plugins/uf-workflow/index.ts: when uf_unleash_detect_resume takes a workflow as complete.
use complytime_providers.Prelude.{
  ◌≡◌, refl, ap, ◌∙◌, inl, inr, Text, txt, ==_iff, Bool, true, Option, none, some, List, Result, ok,
  Result-cases, ◌>>=◌, >>=-eq-ok, arith,
}
use complytime_providers.Workflow.Names.{sanitize_slug}
use complytime_providers.Workflow.Progress.State.{ProgressState, resolve_key}
use complytime_providers.Workflow.Progress.Disk.{Disk, read_state}
use complytime_providers.Workflow.Progress.Tools.{success, upsert_checkpoint_step}
use complytime_providers.Workflow.Progress.Readback.{to_tool_result-success, not_failure}
use complytime_providers.Workflow.Progress.Store.{not_err}
use complytime_providers.Workflow.Resume.Artifacts.{
  ArtifactSummary, read_dispatch_artifacts, most_recent_artifact, is_approving_verdict,
}
use complytime_providers.Workflow.Resume.Detect.{
  WorkflowTier, Feature, DetectResumeData, resume_data, step_statuses_of, spec_review_probe,
  code_review_probe, claimed_steps, folder_of, given_of,
}
use complytime_providers.Workflow.Resume.Tool.{
  World, unleash, detected_data, judged, detected, detect_resume,
}

-- The review that covers the code at HEAD: the most recent one of the branch, of the code, and
-- approving.
abbrev pub IsReviewed : {Value : Type 0} → World Value → Type 0
IsReviewed world =
    (branch : Text) × (head_sha : Text) × (artifacts : List ArtifactSummary)
    × (artifact : ArtifactSummary) × (world.git.branch ≡ ok branch)
    × (world.git.head_sha ≡ ok head_sha)
    × (read_dispatch_artifacts world.runtime world.store ≡ ok artifacts)
    × (most_recent_artifact artifacts (txt "code") branch ≡ some artifact)
    × (is_approving_verdict artifact.verdict ≡ true)
    × (artifact.head_sha ≡ head_sha)

code_review_probe-done :
    (o : Option ArtifactSummary) (head_sha : Text)
    → code_review_probe o head_sha ≡ true
    → (artifact : ArtifactSummary) × (o ≡ some artifact)
      × (is_approving_verdict artifact.verdict ≡ true)
      × (artifact.head_sha ≡ head_sha)
unfolding code_review_probe
code_review_probe-done none head_sha h = cc
code_review_probe-done (some a) head_sha h =
    (a, refl, ground (arith, h), (==_iff a.head_sha head_sha).0 (ground (arith, h)))

ok-injective {ℓ} : {A : Type ℓ} {a b : A} → ok a ≡ ok b → a ≡ b
ok-injective h = cc

module _ {Value : Type 0} (world : World Value) where
  detected_data_complete :
      (tier : WorkflowTier) (feature : Option Feature) (claimed : List Text) (head_sha : Text)
      (o : Option ArtifactSummary) (spec_done : Bool)
      → (detected_data world tier feature claimed head_sha o spec_done).all_complete ≡ true
      → code_review_probe o head_sha ≡ true
  unfolding detected_data resume_data step_statuses_of
  detected_data_complete tier feature claimed head_sha o spec_done h = ground (arith, h)

  judged_complete :
      (tier : WorkflowTier) (feature : Option Feature) (branch head_sha key : Text)
      (prior : Option (ProgressState Value)) (artifacts : List ArtifactSummary) (key' : Text)
      (found : DetectResumeData)
      → judged world tier feature branch head_sha key prior artifacts ≡ ok (key', found)
      → found.all_complete ≡ true
      → code_review_probe (most_recent_artifact artifacts (txt "code") branch) head_sha ≡ true
  unfolding judged
  judged_complete tier feature branch head_sha key prior artifacts key' found h complete =
      elim (Result-cases (
        spec_review_probe world.decode_utf8 world.git tier
          (most_recent_artifact artifacts (txt "specs") branch) head_sha (folder_of feature))) [
            | inl (message, e) ↦ absurd (not_err (rw (e, judged) at h))
            | inr (spec_done, e) ↦
                let o = most_recent_artifact artifacts (txt "code") branch in
                let same : detected_data world tier feature (claimed_steps prior) head_sha o
                      spec_done
                    ≡ found =
                  ap (λ q. q.1) (ok-injective (rw (e, judged) at h)) in
                detected_data_complete tier feature (claimed_steps prior) head_sha o spec_done
                  (ap (λ q. q.all_complete) same ∙ complete)
          ]

  detected_complete :
      (disk : Disk) (tier : WorkflowTier) (feature : Option Feature) (key : Text)
      (found : DetectResumeData)
      → detected world disk tier feature ≡ ok (key, found)
      → found.all_complete ≡ true
      → IsReviewed world
  unfolding detected
  detected_complete disk tier feature key found h complete =
      let (branch, b, h1) = >>=-eq-ok world.git.branch _ h in
      let (head_sha, s, h2) = >>=-eq-ok world.git.head_sha _ h1 in
      let (key', k, h3) = >>=-eq-ok (resolve_key world.git.branch none) _ h2 in
      let (cmd, c, h4) = >>=-eq-ok (sanitize_slug unleash) _ h3 in
      let (prior, p, h5) = >>=-eq-ok (read_state world.node world.cwd disk key' cmd) _ h4 in
      let (artifacts, r, h6) = >>=-eq-ok (read_dispatch_artifacts world.runtime world.store) _ h5 in
      let (artifact, newest, approving, at_head) =
        code_review_probe-done (most_recent_artifact artifacts (txt "code") branch) head_sha (
          judged_complete tier feature branch head_sha key' prior artifacts key found h6
            complete) in
      (branch, head_sha, artifacts, artifact, b, s, r, newest, approving, at_head)

  -- When the detection reports that every step of a workflow is complete, the most recent review
  -- of the code among the dispatch artifacts of the current branch approves, and it covers the commit
  -- at HEAD: no checkpoint can stand for that review.
  pub detect_resume-IsReviewed :
      (disk : Disk) (tier : WorkflowTier) (feature : Option Feature) (found : DetectResumeData)
      (after : Disk)
      → detect_resume world disk tier feature ≡ (success found, after)
      → found.all_complete ≡ true
      → IsReviewed world
  unfolding detect_resume
  detect_resume-IsReviewed disk tier feature found after h complete =
      elim (Result-cases (detected world disk tier feature)) [
        | inl (message, e) ↦ absurd (not_failure (ap (λ q. q.0) (rw (e, detect_resume) at h)))
        | inr ((key, seen), e) ↦
            let (outcome, left) =
              upsert_checkpoint_step world.node world.cwd world.now disk key unleash
                (txt "resumability-detection")
                (some (world.encode tier (given_of feature) seen.resume_from seen.all_complete))
                none in
            let returned : ◌≡◌ {A = Result DetectResumeData} (outcome >>= λ _. ok seen) (ok found) =
              ap (λ q. q.0)
                (to_tool_result-success (txt "RESUME_DETECT_ERROR") (outcome >>= λ _. ok seen) left
                  found after (rw (e, detect_resume) at h)) in
            let (_, _, same) = >>=-eq-ok outcome (λ _. ok seen) returned in
            detected_complete disk tier feature key seen e
              (ap (λ q. q.all_complete) (ok-injective same) ∙ complete)
      ]
