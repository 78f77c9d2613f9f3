-- ===== src/Review/Outcome/Tests.antt =====
-- .opencode/plugins/review-dispatch/index.ts: an artifact that is persisted, beside another one.
use complytime_providers.Prelude.{ℕ, ◌≡◌, refl, Text, txt, ◌==◌, none, some, [], ◌++◌, Result, ok}
use mathlib.Core.Path.{subst}
use complytime_providers.Review.Finalize.{Folder, Calls, put_file, target_name, persist_envelope}
use complytime_providers.Review.Finalize.Kept.{persist_envelope-Holds}
use complytime_providers.Review.Finalize.Published.{IsId}
use complytime_providers.Review.Consolidate.{consolidate}
use complytime_providers.Review.Validate.OfPayload.{validate_payload_semantics}
use complytime_providers.Review.Tests.{js, metadata}
use complytime_providers.Review.Outcome.{finalize_review_dispatch}
use complytime_providers.Review.Outcome.Closed.{IsClosed, finalize_review_dispatch-IsClosed}

-- Calls that succeed; the second identifier is free.
abbrev sound_calls : Calls
sound_calls = record {
  make_folder = λ n. none;
  restrict_folder = λ n. none;
  temporary_id = λ n. ok (txt "t");
  open_new = λ n. none;
  write = λ n. none;
  left = λ n. [];
  sync = λ n. none;
  close = λ n. none;
  restrict = λ n. none;
  link = λ n. none;
  unlink = λ n. none;
  clean_up = λ n. none;
  next_id = λ n. ok (txt "b");
  envelope_text = λ id. txt "envelope of " ++ id;
}

-- A folder in which the artifact of the first identifier is there already.
abbrev one_artifact : Folder
one_artifact = put_file (λ name. none) (txt "a.json") (txt "older")

persist_envelope-Holds_example :
    (persist_envelope sound_calls (txt "a") one_artifact).1 (txt "a.json") ≡ some (txt "older")
unfolding put_file txt ◌==◌
persist_envelope-Holds_example =
    persist_envelope-Holds sound_calls (txt "a") one_artifact (txt "a.json") (txt "older") refl refl

fresh_IsId : (n : ℕ) (fresh : Text) → ◌≡◌ {A = Result Text} (ok (txt "b")) (ok fresh) → IsId fresh
unfolding txt target_name
fresh_IsId n fresh h = let same : txt "b" ≡ fresh = cc in subst IsId same refl

finalize_review_dispatch-IsClosed_example :
    IsClosed
      (consolidate js metadata [])
      (validate_payload_semantics js (consolidate js metadata []) (txt "abc"))
      sound_calls
      one_artifact
      (finalize_review_dispatch js
        (consolidate js metadata [])
        (txt "abc")
        (txt "a")
        sound_calls
        one_artifact)
unfolding txt target_name
finalize_review_dispatch-IsClosed_example =
    finalize_review_dispatch-IsClosed js (consolidate js metadata []) sound_calls (txt "abc")
      (txt "a") one_artifact fresh_IsId refl
