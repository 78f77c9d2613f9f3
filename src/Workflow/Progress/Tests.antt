-- ===== src/Workflow/Progress/Tests.antt =====
-- .opencode/plugins/uf-workflow/index.ts: the progress tools on examples.
use complytime_providers.Prelude.{
  ◌≡◌, sym, refl, Text, txt, false, Option, none, some, [], ◌∷◌, Result, ok, arith, is_ok,
}
use mathlib.Core.Path.{subst}
use complytime_providers.Workflow.Names.{sanitize_slug, dash_slashes, is_safe, collapse_dots}
use complytime_providers.Workflow.Names.Slugs.{IsSlug, sanitize_slug-IsSlug}
use complytime_providers.Workflow.Progress.State.{ProgressState}
use complytime_providers.Workflow.Progress.Disk.{
  FilePath, Disk, Node, missing, link, state_path, read_state, delete_state,
}
use complytime_providers.Workflow.Progress.Tools.{
  CheckpointArgs, upsert_checkpoint_step, checkpoint, get_progress, success,
}
use complytime_providers.Workflow.Progress.Paths.{slug_path, state_path-slug_path}
use complytime_providers.Workflow.Progress.Steps.{IsProgress, IfAny}
use complytime_providers.Workflow.Progress.Readback.{
  get_progress-checkpoint, upsert_checkpoint_step-IsProgress,
}
use complytime_providers.Workflow.Progress.Guards.{upsert_checkpoint_step-link}

abbrev project : FilePath
project = txt "srv" ∷ txt "app" ∷ []

abbrev main_slug : Text
main_slug = txt "main"

abbrev command_slug : Text
command_slug = txt "uf.unleash"

abbrev noon : Text
noon = txt "12:00"

abbrev planned : ProgressState Text
planned = record {
  command = command_slug;
  branch = main_slug;
  key = main_slug;
  current_step = txt "plan";
  completed_steps = txt "plan" ∷ [];
  data_fields = [];
  phases = none;
  created_at = noon;
  updated_at = noon;
}

-- A codec for this state only, on a file system on which no call throws.
abbrev one_state : Node Text
one_state = record {
  stringify_state = λ state. txt "{}";
  parse_state = λ text. ok planned;
  parse_data = λ text. ok [];
  folder_error = λ disk path. none;
  write_error = λ disk path. none;
  remove_error = λ disk path. none;
  read_folder_error = txt "EISDIR";
}

abbrev empty_disk : Disk
empty_disk path = missing

abbrev plan_args : CheckpointArgs
plan_args = record {
  command = command_slug;
  step = txt "plan";
  data_text = none;
  key = none;
  phase = none;
}

abbrev planned_disk : Disk
planned_disk = (checkpoint one_state project (ok main_slug) noon empty_disk plan_args).1

sanitize_slug-IsSlug_example : IsSlug (txt "opsx-a.b")
unfolding sanitize_slug txt collapse_dots dash_slashes is_safe
sanitize_slug-IsSlug_example = sanitize_slug-IsSlug (txt "opsx/a..b") (txt "opsx-a.b") refl

main_slug-IsSlug : IsSlug main_slug
unfolding is_safe txt
main_slug-IsSlug = (refl, omega arith, refl, refl)

command_slug-IsSlug : IsSlug command_slug
unfolding is_safe txt
command_slug-IsSlug = (refl, omega arith, refl, refl)

state_path-slug_path_example :
    state_path project main_slug command_slug ≡ ok (slug_path project main_slug command_slug)
state_path-slug_path_example =
    state_path-slug_path project main_slug command_slug main_slug-IsSlug command_slug-IsSlug

get_progress-checkpoint_example :
    get_progress one_state project (ok main_slug) planned_disk command_slug none
    ≡ success (some planned)
unfolding checkpoint txt collapse_dots dash_slashes is_safe
get_progress-checkpoint_example =
    get_progress-checkpoint one_state project (ok main_slug) noon empty_disk plan_args planned
      planned_disk refl refl

abbrev linked_disk : Disk
linked_disk path = link

upsert_checkpoint_step-link_example :
    (is_ok
        (upsert_checkpoint_step one_state project noon linked_disk main_slug command_slug
          (txt "plan")
          none
          none).0
      ≡ false)
    × ((upsert_checkpoint_step one_state project noon linked_disk main_slug command_slug
          (txt "plan")
          none
          none).1
        ≡ linked_disk)
    × (is_ok (delete_state one_state project linked_disk main_slug command_slug).0 ≡ false)
    × ((delete_state one_state project linked_disk main_slug command_slug).1 ≡ linked_disk)
unfolding sanitize_slug txt collapse_dots dash_slashes is_safe
upsert_checkpoint_step-link_example =
    upsert_checkpoint_step-link one_state project noon linked_disk main_slug command_slug
      (txt "plan") command_slug none none main_slug-IsSlug refl refl

IfAny-none :
    (prior : Option (ProgressState Text))
    → ◌≡◌ {A = Result (Option (ProgressState Text))} (ok none) (ok prior)
    → IfAny IsProgress prior
IfAny-none none h = tt
IfAny-none (some s) h = cc

no_prior :
    (cmd : Text) (prior : Option (ProgressState Text))
    → sanitize_slug command_slug ≡ ok cmd
    → read_state one_state project empty_disk main_slug cmd ≡ ok prior
    → IfAny IsProgress prior
unfolding sanitize_slug read_state txt collapse_dots dash_slashes is_safe
no_prior cmd prior c r =
    let same : command_slug ≡ cmd = cc in
    IfAny-none prior
      (subst (λ q. read_state one_state project empty_disk main_slug q ≡ ok prior) (sym same) r)

upsert_checkpoint_step-IsProgress_example : IsProgress planned
unfolding upsert_checkpoint_step txt collapse_dots dash_slashes is_safe
upsert_checkpoint_step-IsProgress_example =
    upsert_checkpoint_step-IsProgress one_state project noon empty_disk main_slug command_slug
      (txt "plan") none none planned
      (upsert_checkpoint_step one_state project noon empty_disk main_slug command_slug (txt "plan")
        none none).1
      tt (λ cmd prior c r. no_prior cmd prior c r) refl
