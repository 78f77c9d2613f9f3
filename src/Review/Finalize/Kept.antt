-- ===== src/Review/Finalize/Kept.antt =====
-- .opencode/plugins/review-dispatch/index.ts: the artifacts that `persistEnvelope` leaves alone.
use complytime_providers.Prelude.{
  ℕ, zero, suc, ◌≡◌, ◌⊎◌, refl, ap, ◌∙◌, inl, inr, Text, ◌==◌, ==_iff, Bool, false, Option, none,
  some, [], ◌∷◌, if◌then◌else◌, nat_eq, is_some, Bool-cases, Option-cases, Result-cases, arith,
}
use complytime_providers.Review.Finalize.{
  Fault, already_exists, absent, other, Folder, put_file, drop_file, Calls, target_name,
  temporary_name, first_fault, Tried, finish_up, link_target, fill_file, open_temporary,
  try_persist, cleaned, cleanup_temporary, Next, done, retry, throws, attempt_once, persist_from,
  persist_envelope,
}

-- The name of a temporary file starts with a dot.
abbrev pub is_hidden : Text → Bool
is_hidden [] = false
is_hidden (c ∷ s) = nat_eq c b'.'

pub temporary_name_hidden :
    (id uuid name : Text) → is_hidden name ≡ false → (temporary_name id uuid == name) ≡ false
unfolding temporary_name ◌==◌
temporary_name_hidden id uuid [] h = refl
temporary_name_hidden id uuid (c ∷ s) h = ground (arith, h)

pub put_file-other :
    (folder : Folder) (name text asked : Text)
    → (name == asked) ≡ false
    → put_file folder name text asked ≡ folder asked
unfolding put_file
put_file-other folder name text asked h = rw (h) refl

drop_file-other :
    (folder : Folder) (name asked : Text)
    → (name == asked) ≡ false
    → drop_file folder name asked ≡ folder asked
unfolding drop_file
drop_file-other folder name asked h = rw (h) refl

-- A file that is there is another one than a file that is not.
other_name :
    (folder : Folder) (target name text : Text)
    → folder name ≡ some text
    → is_some (folder target) ≡ false
    → (target == name) ≡ false
other_name folder target name text there free = elim (Bool-cases (target == name)) [
  | inr apart ↦ apart
  | inl same ↦
      let e = ap (λ q. is_some (folder q)) ((==_iff target name).0 same) in
      ground (arith, e, free, ap is_some there)
]

module _ (calls : Calls) (attempt : ℕ) (name kept : Text) where
  -- Whether the file is there with its text.
  abbrev pub Holds : Folder → Type 0
  Holds folder = folder name ≡ some kept

  -- The file is there, and a temporary file that is still to be removed is another one.
  abbrev pub IsApart : Option Text → Type 0
  IsApart none = Unit
  IsApart (some temporary) = (temporary == name) ≡ false

  abbrev pub Safe : Tried → Type 0
  Safe tried = Holds tried.folder × IsApart tried.temporary

  pub finish_up-Safe :
      (folder : Folder) (temporary : Text)
      → (temporary == name) ≡ false
      → Holds folder
      → Safe (finish_up calls attempt folder temporary)
  unfolding finish_up
  finish_up-Safe folder temporary apart h = elim (Option-cases (calls.unlink attempt)) [
    | inl fine ↦ rw (fine, finish_up) (drop_file-other folder temporary name apart ∙ h, tt)
    | inr (fault, e) ↦ rw (e, finish_up) (h, apart)
  ]

  link_target-Safe :
      (folder : Folder) (temporary target text : Text)
      → (temporary == name) ≡ false
      → Holds folder
      → Safe (link_target calls attempt folder temporary target text)
  unfolding link_target
  link_target-Safe folder temporary target text apart h =
      elim (Bool-cases (is_some (folder target))) [
        | inl taken ↦ rw (taken, link_target) (h, apart)
        | inr free ↦ elim (Option-cases (calls.link attempt)) [
          | inr (fault, e) ↦ rw (free, e, link_target) (h, apart)
          | inl fine ↦
              rw (free, fine, link_target)
                (finish_up-Safe (put_file folder target text) temporary apart (
                  put_file-other folder target text name (other_name folder target name kept h free)
                  ∙ h))
        ]
      ]

  fill_file-Safe :
      (folder : Folder) (temporary target text : Text)
      → (temporary == name) ≡ false
      → Holds folder
      → Safe (fill_file calls attempt folder temporary target text)
  unfolding fill_file
  fill_file-Safe folder temporary target text apart h =
      let filled = put_file-other folder temporary text name apart ∙ h in
      elim (Option-cases (calls.write attempt)) [
        | inr (fault, e) ↦
            rw (e, fill_file)
              (put_file-other folder temporary (calls.left attempt) name apart ∙ h, apart)
        | inl fine ↦
            elim (Option-cases (
              first_fault
                (calls.sync attempt ∷ calls.close attempt ∷ calls.restrict attempt ∷ []))) [
                  | inr (fault, e) ↦ rw (fine, e, fill_file) (filled, apart)
                  | inl fine2 ↦
                      rw (fine, fine2, fill_file)
                        (link_target-Safe (put_file folder temporary text) temporary target text
                          apart filled)
                ]
      ]

  open_temporary-Safe :
      (folder : Folder) (temporary target text : Text)
      → (temporary == name) ≡ false
      → Holds folder
      → Safe (open_temporary calls attempt folder temporary target text)
  unfolding open_temporary
  open_temporary-Safe folder temporary target text apart h =
      elim (Option-cases
        (if is_some (folder temporary) then some already_exists else calls.open_new attempt)) [
          | inr (fault, e) ↦ rw (e, open_temporary) (h, apart)
          | inl fine ↦
              rw (fine, open_temporary) (fill_file-Safe folder temporary target text apart h)
        ]

  cleaned-Holds :
      (answer : Option Fault) (folder : Folder) (temporary : Text)
      → (temporary == name) ≡ false
      → Holds folder
      → Holds (cleaned answer folder temporary).1
  unfolding cleaned
  cleaned-Holds none folder temporary apart h = drop_file-other folder temporary name apart ∙ h
  cleaned-Holds (some absent) folder temporary apart h = h
  cleaned-Holds (some already_exists) folder temporary apart h = h
  cleaned-Holds (some (other message)) folder temporary apart h = h

  pub cleanup_temporary-Holds :
      (temporary : Option Text) (folder : Folder)
      → IsApart temporary
      → Holds folder
      → Holds (cleanup_temporary calls attempt temporary folder).1
  unfolding cleanup_temporary
  cleanup_temporary-Holds none folder apart h = h
  cleanup_temporary-Holds (some temporary) folder apart h =
      cleaned-Holds (calls.clean_up attempt) folder temporary apart h

  try_persist-Safe :
      (id : Text) (folder : Folder)
      → is_hidden name ≡ false
      → Holds folder
      → Safe (try_persist calls attempt id folder)
  unfolding try_persist
  try_persist-Safe id folder shown h = elim (Result-cases (calls.temporary_id attempt)) [
    | inl (message, e) ↦ rw (e, try_persist) (h, tt)
    | inr (uuid, e) ↦
        rw (e, try_persist)
          (open_temporary-Safe folder (temporary_name id uuid) (target_name id)
            (calls.envelope_text id) (temporary_name_hidden id uuid name shown) h)
  ]

  attempt_once-Holds :
      (id : Text) (folder : Folder)
      → is_hidden name ≡ false
      → Holds folder
      → Holds (attempt_once calls attempt id folder).1
  unfolding attempt_once
  attempt_once-Holds id folder shown h =
      let tried = try_persist calls attempt id folder in
      let (held, apart) = try_persist-Safe id folder shown h in
      elim (Option-cases
        (first_fault (calls.make_folder attempt ∷ calls.restrict_folder attempt ∷ []))) [
          | inr (fault, e) ↦ rw (e, attempt_once) h
          | inl fine ↦ elim (Bool-cases (is_some tried.fault)) [
            | inr sound ↦ rw (fine, sound, attempt_once) held
            | inl faulty ↦
                rw (fine, faulty, attempt_once)
                  (cleanup_temporary-Holds tried.temporary tried.folder apart held)
          ]
        ]

pub Next-cases :
    (next : Next)
    → (next ≡ done)
      ⊎ (next ≡ retry)
      ⊎ ((fault : Fault) × (cleanup : Option Fault) × (next ≡ throws fault cleanup))
Next-cases done = inl refl
Next-cases retry = inr (inl refl)
Next-cases (throws fault cleanup) = inr (inr (fault, cleanup, refl))

persist_from-Holds :
    (calls : Calls) (more attempt : ℕ) (id : Text) (folder : Folder) (name kept : Text)
    → is_hidden name ≡ false
    → folder name ≡ some kept
    → (persist_from calls more attempt id folder).1 name ≡ some kept
unfolding persist_from
persist_from-Holds calls zero attempt id folder name kept shown h =
    let held = attempt_once-Holds calls attempt name kept id folder shown h in
    elim (Next-cases (attempt_once calls attempt id folder).0) [
      | inl e ↦ rw (e, persist_from) held
      | inr (inl e) ↦ rw (e, persist_from) held
      | inr (inr (fault, cleanup, e)) ↦ rw (e, persist_from) held
    ]
persist_from-Holds calls (suc more) attempt id folder name kept shown h =
    let held = attempt_once-Holds calls attempt name kept id folder shown h in
    let after = (attempt_once calls attempt id folder).1 in
    elim (Next-cases (attempt_once calls attempt id folder).0) [
      | inl e ↦ rw (e, persist_from) held
      | inr (inr (fault, cleanup, e)) ↦ rw (e, persist_from) held
      | inr (inl e) ↦ elim (Result-cases (calls.next_id attempt)) [
        | inl (message, n) ↦ rw (e, n, persist_from) held
        | inr (fresh, n) ↦
            rw (e, n, persist_from)
              (persist_from-Holds calls more (suc attempt) fresh after name kept shown held)
      ]
    ]

-- Persisting an envelope never changes or removes a file that is there, whatever calls fail, but
-- for files whose names start with a dot.
pub persist_envelope-Holds :
    (calls : Calls) (id : Text) (folder : Folder) (name kept : Text)
    → is_hidden name ≡ false
    → folder name ≡ some kept
    → (persist_envelope calls id folder).1 name ≡ some kept
unfolding persist_envelope
persist_envelope-Holds calls id folder name kept shown h =
    persist_from-Holds calls 31 0 id folder name kept shown h
