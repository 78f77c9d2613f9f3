-- ===== src/Review/Finalize/Published.antt =====
-- .opencode/plugins/review-dispatch/index.ts: the artifact that `persistEnvelope` publishes.
use complytime_providers.Prelude.{
  ℕ, zero, suc, ◌≡◌, refl, ap, inl, inr, Text, ◌==◌, ==_iff, Bool, true, false, Option, none, some,
  [], ◌∷◌, if◌then◌else◌, is_some, Option-cases, Result-cases, ok,
}
use mathlib.Core.Path.{subst}
use complytime_providers.Review.Finalize.{
  Fault, already_exists, absent, other, Folder, put_file, Calls, target_name, temporary_name,
  first_fault, Tried, failed_with, finish_up, link_target, fill_file, open_temporary, try_persist,
  cleanup_temporary, done, throws, next_of, attempt_once, persist_from, persist_envelope,
}
use complytime_providers.Review.Finalize.Kept.{
  is_hidden, temporary_name_hidden, IsApart, finish_up-Safe, cleanup_temporary-Holds, Next-cases,
}

put_file-same : (folder : Folder) (name text : Text) → put_file folder name text name ≡ some text
unfolding put_file
put_file-same folder name text = rw ((==_iff name name).1 refl) refl

module _ (calls : Calls) (attempt : ℕ) (target text : Text) where
  -- What is published holds the text, the temporary file is another one, and a block without an error
  -- has published.
  abbrev IsPublishing : Tried → Type 0
  IsPublishing tried =
      (tried.published ≡ true → tried.folder target ≡ some text)
      × (is_some tried.fault ≡ false → tried.published ≡ true)
      × IsApart calls attempt target text tried.temporary

  finish_up-IsPublishing :
      (folder : Folder) (temporary : Text)
      → (temporary == target) ≡ false
      → folder target ≡ some text
      → IsPublishing (finish_up calls attempt folder temporary)
  unfolding finish_up
  finish_up-IsPublishing folder temporary apart h =
      let (held, left) = finish_up-Safe calls attempt target text folder temporary apart h in
      elim (Option-cases (calls.unlink attempt)) [
        | inl fine ↦ ((λ p. held), (λ f. rw (fine, finish_up) refl), left)
        | inr (fault, e) ↦ ((λ p. held), (λ f. rw (e, finish_up) refl), left)
      ]

  failed_with-IsPublishing :
      (fault : Fault) (folder : Folder) (temporary : Text)
      → (temporary == target) ≡ false
      → IsPublishing (failed_with calls attempt fault folder temporary)
  failed_with-IsPublishing fault folder temporary apart =
      ((λ p. absurd cc), (λ f. absurd cc), apart)

  link_target-IsPublishing :
      (folder : Folder) (temporary : Text)
      → (temporary == target) ≡ false
      → IsPublishing (link_target calls attempt folder temporary target text)
  unfolding link_target
  link_target-IsPublishing folder temporary apart =
      elim (Option-cases
        (if is_some (folder target) then some already_exists else calls.link attempt)) [
          | inr (fault, e) ↦
              rw (e, link_target) (failed_with-IsPublishing fault folder temporary apart)
          | inl fine ↦
              rw (fine, link_target)
                (finish_up-IsPublishing (put_file folder target text) temporary apart
                  (put_file-same folder target text))
        ]

  fill_file-IsPublishing :
      (folder : Folder) (temporary : Text)
      → (temporary == target) ≡ false
      → IsPublishing (fill_file calls attempt folder temporary target text)
  unfolding fill_file
  fill_file-IsPublishing folder temporary apart =
      let filled = put_file folder temporary text in
      elim (Option-cases (calls.write attempt)) [
        | inr (fault, e) ↦
            rw (e, fill_file)
              (failed_with-IsPublishing fault (put_file folder temporary (calls.left attempt))
                temporary apart)
        | inl fine ↦
            elim (Option-cases (
              first_fault
                (calls.sync attempt ∷ calls.close attempt ∷ calls.restrict attempt ∷ []))) [
                  | inr (fault, e) ↦
                      rw (fine, e, fill_file)
                        (failed_with-IsPublishing fault filled temporary apart)
                  | inl fine2 ↦
                      rw (fine, fine2, fill_file) (link_target-IsPublishing filled temporary apart)
                ]
      ]

  open_temporary-IsPublishing :
      (folder : Folder) (temporary : Text)
      → (temporary == target) ≡ false
      → IsPublishing (open_temporary calls attempt folder temporary target text)
  unfolding open_temporary
  open_temporary-IsPublishing folder temporary apart =
      elim (Option-cases
        (if is_some (folder temporary) then some already_exists else calls.open_new attempt)) [
          | inr (fault, e) ↦
              rw (e, open_temporary) (failed_with-IsPublishing fault folder temporary apart)
          | inl fine ↦ rw (fine, open_temporary) (fill_file-IsPublishing folder temporary apart)
        ]

-- An identifier whose artifact is no hidden file.
abbrev pub IsId : Text → Type 0
IsId id = is_hidden (target_name id) ≡ false

throws_not_done : (fault : Fault) (cleanup : Option Fault) → ¬ (throws fault cleanup ≡ done)
throws_not_done fault cleanup h = cc

not_found : {name : Text} → ¬ (none ≡ some name)
not_found h = cc

module _ (calls : Calls) where
  persisted :
      (id published : Text) (left after : Folder)
      → ◌≡◌ {A = Option Text × Folder} (some id, left) (some published, after)
      → left (target_name id) ≡ some (calls.envelope_text id)
      → after (target_name published) ≡ some (calls.envelope_text published)
  persisted id published left after h e =
      let found : some id ≡ some published = ap (λ q. q.0) h in
      let same : id ≡ published = cc in
      let later : left ≡ after = ap (λ q. q.1) h in
      subst (λ (q : Folder). q (target_name published) ≡ some (calls.envelope_text published)) later
        (subst (λ q. left (target_name q) ≡ some (calls.envelope_text q)) same e)

  try_persist-IsPublishing :
      (attempt : ℕ) (id : Text) (folder : Folder)
      → IsId id
      → IsPublishing calls attempt
          (target_name id)
          (calls.envelope_text id)
          (try_persist calls attempt id folder)
  unfolding try_persist
  try_persist-IsPublishing attempt id folder shown =
      elim (Result-cases (calls.temporary_id attempt)) [
        | inl (message, e) ↦ rw (e, try_persist) ((λ p. absurd cc), (λ f. absurd cc), tt)
        | inr (uuid, e) ↦
            rw (e, try_persist)
              (open_temporary-IsPublishing calls attempt (target_name id) (calls.envelope_text id)
                folder (temporary_name id uuid)
                (temporary_name_hidden id uuid (target_name id) shown))
      ]

  next_of-done :
      (fault : Fault) (cleanup : Option Fault) (published : Bool)
      → next_of (some fault) cleanup published ≡ done
      → published ≡ true
  unfolding next_of
  next_of-done fault (some cleanup) published h = cc
  next_of-done fault none true h = refl
  next_of-done already_exists none false h = cc
  next_of-done absent none false h = cc
  next_of-done (other message) none false h = cc

  attempt_once-done :
      (attempt : ℕ) (id : Text) (folder : Folder)
      → IsId id
      → (attempt_once calls attempt id folder).0 ≡ done
      → (attempt_once calls attempt id folder).1 (target_name id) ≡ some (calls.envelope_text id)
  unfolding attempt_once
  attempt_once-done attempt id folder shown h =
      let tried = try_persist calls attempt id folder in
      let (held, sound, apart) = try_persist-IsPublishing attempt id folder shown in
      elim (Option-cases
        (first_fault (calls.make_folder attempt ∷ calls.restrict_folder attempt ∷ []))) [
          | inr (fault, e) ↦ absurd (throws_not_done fault none (rw (e, attempt_once) at h))
          | inl fine ↦ elim (Option-cases tried.fault) [
            | inl none_left ↦
                rw (fine, none_left, attempt_once) (held (sound (ap is_some none_left)))
            | inr (fault, e) ↦
                let published =
                  next_of-done fault
                    (cleanup_temporary calls attempt tried.temporary tried.folder).0 tried.published
                    (rw (fine, e, attempt_once) at h) in
                rw (fine, e, attempt_once)
                  (cleanup_temporary-Holds calls attempt (target_name id) (calls.envelope_text id)
                    tried.temporary tried.folder apart (held published))
          ]
        ]

  persist_from-published :
      (more attempt : ℕ) (id : Text) (folder : Folder) (published : Text) (after : Folder)
      → ((n : ℕ) (fresh : Text) → calls.next_id n ≡ ok fresh → IsId fresh)
      → IsId id
      → ◌≡◌ {A = Option Text × Folder}
          (persist_from calls more attempt id folder)
          (some published, after)
      → after (target_name published) ≡ some (calls.envelope_text published)
  unfolding persist_from
  persist_from-published zero attempt id folder published after fresh_ids shown h =
      elim (Next-cases (attempt_once calls attempt id folder).0) [
        | inl e ↦
            persisted id published (attempt_once calls attempt id folder).1 after
              (rw (e, persist_from) at h) (attempt_once-done attempt id folder shown e)
        | inr (inl e) ↦ absurd (not_found (ap (λ q. q.0) (rw (e, persist_from) at h)))
        | inr (inr (fault, cleanup, e)) ↦
            absurd (not_found (ap (λ q. q.0) (rw (e, persist_from) at h)))
      ]
  persist_from-published (suc more) attempt id folder published after fresh_ids shown h =
      let left = (attempt_once calls attempt id folder).1 in
      elim (Next-cases (attempt_once calls attempt id folder).0) [
        | inl e ↦
            persisted id published left after (rw (e, persist_from) at h)
              (attempt_once-done attempt id folder shown e)
        | inr (inr (fault, cleanup, e)) ↦
            absurd (not_found (ap (λ q. q.0) (rw (e, persist_from) at h)))
        | inr (inl e) ↦ elim (Result-cases (calls.next_id attempt)) [
          | inl (message, n) ↦ absurd (not_found (ap (λ q. q.0) (rw (e, n, persist_from) at h)))
          | inr (fresh, n) ↦
              persist_from-published more (suc attempt) fresh left published after fresh_ids
                (fresh_ids attempt fresh n) (rw (e, n, persist_from) at h)
        ]
      ]

  -- When an envelope is persisted, the artifact under the identifier that is returned holds it; no
  -- identifier, neither the first one nor a fresh one, may start with a dot or be empty.
  pub persist_envelope-published :
      (id : Text) (folder : Folder) (published : Text) (after : Folder)
      → ((n : ℕ) (fresh : Text) → calls.next_id n ≡ ok fresh → IsId fresh)
      → IsId id
      → ◌≡◌ {A = Option Text × Folder} (persist_envelope calls id folder) (some published, after)
      → after (target_name published) ≡ some (calls.envelope_text published)
  unfolding persist_envelope
  persist_envelope-published id folder published after fresh_ids shown h =
      persist_from-published 31 0 id folder published after fresh_ids shown h
