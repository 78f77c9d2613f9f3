-- ===== src/Workflow/Gate/Tests.antt =====
-- .opencode/plugins/uf-workflow/index.ts: the branch gate on an example.
use complytime_providers.Prelude.{
  ◌≡◌, refl, Text, txt, ◌==◌, false, ◌||◌, none, [], ◌∷◌, ok, starts_with,
}
use complytime_providers.Workflow.Names.{collapse_dots, dash_slashes, is_safe}
use complytime_providers.Workflow.Progress.Disk.{Disk, Node, missing}
use complytime_providers.Workflow.Resume.Detect.{quick}
use complytime_providers.Workflow.Gate.{BranchGateData, branch_gate}
use complytime_providers.Workflow.Gate.Admitted.{IsOpen, IsRecorded, branch_gate-IsOpen}

-- Nothing is read here, and no call throws.
abbrev silent_node : Node Text
silent_node = record {
  stringify_state = λ state. txt "{}";
  parse_state = λ text. ok (record {
    command = [];
    branch = [];
    key = [];
    current_step = [];
    completed_steps = [];
    data_fields = [];
    phases = none;
    created_at = [];
    updated_at = [];
  });
  parse_data = λ text. ok [];
  folder_error = λ disk path. none;
  write_error = λ disk path. none;
  remove_error = λ disk path. none;
  read_folder_error = txt "EISDIR";
}

abbrev no_files : Disk
no_files path = missing

abbrev quick_fix : BranchGateData
quick_fix = record {
  branch = txt "quick/fix";
  workflow_tier = quick;
  feature_dir = [];
  change_name = txt "fix";
}

abbrev gated_disk : Disk
gated_disk =
    (branch_gate silent_node (txt "srv" ∷ []) (txt "1") (λ tier folder. []) (λ path. false) no_files
      (ok (txt "quick/fix"))).1

branch_gate-IsOpen_example :
    (name : Text) × (ok (txt "quick/fix") ≡ ok name)
    × ((name == txt "main" || name == txt "master") ≡ false)
    × IsOpen (λ path. false) name quick_fix
    × IsRecorded silent_node
        (txt "srv" ∷ [])
        (txt "1")
        (λ tier folder. [])
        no_files
        quick_fix
        gated_disk
unfolding branch_gate txt ◌==◌ starts_with collapse_dots dash_slashes is_safe
branch_gate-IsOpen_example =
    branch_gate-IsOpen silent_node (txt "srv" ∷ []) (txt "1") (λ tier folder. []) (λ path. false)
      no_files (ok (txt "quick/fix")) quick_fix gated_disk refl
