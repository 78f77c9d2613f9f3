-- ===== src/Workflow/Resume/Tests.antt =====
-- .opencode/plugins/uf-workflow/index.ts: the detection of the step to resume from, on examples.
use complytime_providers.Prelude.{refl, Text, txt, true, none, some, [], ◌∷◌, Runtime, ok, text_leb}
use complytime_providers.Workflow.Names.{collapse_dots, dash_slashes, is_safe}
use complytime_providers.Workflow.Progress.State.{ProgressState}
use complytime_providers.Workflow.Progress.Disk.{Disk, Node, file}
use complytime_providers.Workflow.Resume.Artifacts.{
  ArtifactSummary, Envelope, names, most_recent_artifact,
}
use complytime_providers.Workflow.Resume.Probes.{yes}
use complytime_providers.Workflow.Resume.Detect.{quick, DetectResumeData}
use complytime_providers.Workflow.Resume.Tool.{World, detected_data, detect_resume}
use complytime_providers.Workflow.Resume.Reviewed.{IsReviewed, detect_resume-IsReviewed}
use complytime_providers.Workflow.Resume.Newest.{IsChosen, most_recent_artifact-IsChosen}

abbrev ascii : Runtime
ascii = record {
  lower = λ s. s;
  nfc = λ s. s;
  locale_leb = text_leb;
  date_parse = λ s. some 5;
  stringify = λ s. s;
}

abbrev quick_branch : Text
quick_branch = txt "quick-fix"

abbrev head_commit : Text
head_commit = txt "abc123"

abbrev gated : ProgressState Text
gated = record {
  command = txt "uf.unleash";
  branch = quick_branch;
  key = quick_branch;
  current_step = txt "quick-pre-flight";
  completed_steps = txt "implement" ∷ txt "quick-pre-flight" ∷ [];
  data_fields = [];
  phases = none;
  created_at = txt "1";
  updated_at = txt "2";
}

-- A codec for this state only, on a file system on which no call throws.
abbrev gated_node : Node Text
gated_node = record {
  stringify_state = λ state. txt "{}";
  parse_state = λ text. ok gated;
  parse_data = λ text. ok [];
  folder_error = λ disk path. none;
  write_error = λ disk path. none;
  remove_error = λ disk path. none;
  read_folder_error = txt "EISDIR";
}

abbrev approval : Envelope
approval = record {
  artifact_type = some (txt "review-dispatch");
  mode = some (txt "code");
  verdict = some (txt "APPROVE");
  branch = some quick_branch;
  head_sha = some head_commit;
  timestamp = some (txt "today");
}

abbrev approved : ArtifactSummary
approved = record {
  source = txt "a.json";
  mode = txt "code";
  branch = quick_branch;
  head_sha = head_commit;
  verdict = txt "APPROVE";
  written_at = 5;
}

abbrev reviewed_world : World Text
reviewed_world = record {
  runtime = ascii;
  decode_utf8 = λ bytes. bytes;
  git = record {
    branch = ok quick_branch;
    head_sha = ok head_commit;
    merge_base = λ a b. yes;
    status = λ folder. ok [];
  };
  store = record { listing = names (txt "a.json" ∷ []); read_json = λ name. some approval };
  node = gated_node;
  cwd = txt "srv" ∷ [];
  now = txt "3";
  encode = λ tier folder step complete. [];
}

abbrev gated_disk : Disk
gated_disk path = file (txt "{}")

abbrev all_done : DetectResumeData
all_done =
    detected_data reviewed_world quick none gated.completed_steps head_commit (some approved) true

detect_resume-IsReviewed_example : IsReviewed reviewed_world
unfolding detect_resume detected_data txt collapse_dots dash_slashes is_safe
detect_resume-IsReviewed_example =
    detect_resume-IsReviewed reviewed_world gated_disk quick none all_done
      (detect_resume reviewed_world gated_disk quick none).1 refl refl

most_recent_artifact-IsChosen_example :
    IsChosen
      (txt "code")
      quick_branch
      (approved ∷ [])
      (most_recent_artifact (approved ∷ []) (txt "code") quick_branch)
most_recent_artifact-IsChosen_example =
    most_recent_artifact-IsChosen (approved ∷ []) (txt "code") quick_branch
