-- ===== src/Review/Outcome/Closed.antt =====
-- .opencode/plugins/review-dispatch/index.ts: what `finalizeReviewDispatch` reports, and what it has
-- written then.
use complytime_providers.Prelude.{
  ℕ, ◌≡◌, refl, Text, Option, none, some, List, [], ◌∷◌, Runtime, ok,
}
use complytime_providers.Review.Model.{inconclusive, Payload}
use complytime_providers.Review.Validate.OfPayload.{validate_payload_semantics}
use complytime_providers.Review.Finalize.{Folder, Calls, target_name, persist_envelope}
use complytime_providers.Review.Finalize.Published.{IsId, persist_envelope-published}
use complytime_providers.Review.Outcome.{
  invalid_payload, not_persisted, Finalized, finalized, failed, after_persist, after_checks,
  finalize_review_dispatch,
}

-- A finalization that is reported stands for a payload that passes every check and whose envelope is
-- in the artifact that is named, with the payload's verdict; one that has failed is inconclusive,
-- and one that has failed in the checks has written nothing.
abbrev pub IsClosed : Payload → List Text → Calls → Folder → Finalized × Folder → Type 0
IsClosed payload errors calls folder (finalized verdict id artifact review, after) =
    (errors ≡ [])
    × (verdict ≡ payload.verdict)
    × (artifact ≡ target_name id)
    × (after artifact ≡ some (calls.envelope_text id))
IsClosed payload errors calls folder
      (failed verdict id assessment (invalid_payload messages), after) =
    (verdict ≡ inconclusive) × (messages ≡ errors) × (after ≡ folder)
IsClosed payload errors calls folder (failed verdict id assessment not_persisted, after) =
    (verdict ≡ inconclusive) × (errors ≡ [])

module _ (js : Runtime) (payload : Payload) (calls : Calls) where
  after_persist-IsClosed :
      (id : Text) (folder : Folder) (persisted : Option Text) (after : Folder)
      → ((published : Text)
          → persisted ≡ some published
          → after (target_name published) ≡ some (calls.envelope_text published))
      → IsClosed payload [] calls folder (after_persist js payload id (persisted, after))
  unfolding after_persist
  after_persist-IsClosed id folder none after h = (refl, refl)
  after_persist-IsClosed id folder (some published) after h = (refl, refl, refl, h published refl)

  after_checks-IsClosed :
      (id : Text) (folder : Folder) (errors : List Text)
      → ((n : ℕ) (fresh : Text) → calls.next_id n ≡ ok fresh → IsId fresh)
      → IsId id
      → IsClosed payload errors calls folder (after_checks js payload id calls folder errors)
  unfolding after_checks
  after_checks-IsClosed id folder [] fresh_ids shown =
      let (persisted, after) = persist_envelope calls id folder in
      after_persist-IsClosed id folder persisted after (λ published e.
        persist_envelope-published calls id folder published after fresh_ids shown
          (λ i. (e i, after)))
  after_checks-IsClosed id folder (message ∷ errors) fresh_ids shown = (refl, refl, refl)

  -- A finalization that is reported stands for a payload that passes every check and whose envelope
  -- is in the artifact that is named, with the payload's verdict; one that has failed is
  -- inconclusive, and one that has failed in the checks reports their messages and leaves the folder
  -- as it was. No identifier, neither the first one nor a fresh one, may start with a dot or be empty.
  pub finalize_review_dispatch-IsClosed :
      (commit id : Text) (folder : Folder)
      → ((n : ℕ) (fresh : Text) → calls.next_id n ≡ ok fresh → IsId fresh)
      → IsId id
      → IsClosed payload
          (validate_payload_semantics js payload commit)
          calls
          folder
          (finalize_review_dispatch js payload commit id calls folder)
  unfolding finalize_review_dispatch
  finalize_review_dispatch-IsClosed commit id folder fresh_ids shown =
      after_checks-IsClosed id folder (validate_payload_semantics js payload commit) fresh_ids shown
