-- ===== src/Workflow/Progress/Paths.antt =====
-- .opencode/plugins/uf-workflow/index.ts: the paths that `statePath` computes for slugs.
use complytime_providers.Prelude.{
  ◌≡◌, refl, sym, ap, ◌∙◌, inl, inr, Text, txt, ◌==◌, ==_iff, true, false, [], ◌∷◌, ◌++◌, all,
  all-append, if◌then◌else◌, nat_eq, starts_with, starts_with-append, split, ok, Bool-cases, arith,
}
use mathlib.Core.List.{append_assoc, append_cancel_left, append_cancel_right}
use complytime_providers.Workflow.Names.{is_safe}
use complytime_providers.Workflow.Names.Slugs.{IsSlug}
use complytime_providers.Workflow.Progress.Disk.{
  FilePath, step_into, step_along, resolve, path_text, progress_root, checked_path, state_path,
}

-- The path of a state, segment by segment.
abbrev pub file_name : Text → Text
file_name cmd = cmd ++ txt ".json"

abbrev pub slug_tail : Text → Text → FilePath
slug_tail key cmd = if key == txt "." then file_name cmd ∷ [] else key ∷ file_name cmd ∷ []

abbrev pub slug_path : FilePath → Text → Text → FilePath
slug_path cwd key cmd = progress_root cwd ++ slug_tail key cmd

split-safe : (s : Text) → all is_safe s ≡ true → split b'/' s ≡ s ∷ []
unfolding split is_safe
split-safe [] h = refl
split-safe (c ∷ s) h =
    let rest = split-safe s (ground (arith, h)) in
    let other : nat_eq c b'/' ≡ false = ground (arith, h) in rw (rest, other) refl

starts_with-safe : (s : Text) → all is_safe s ≡ true → starts_with s (b'/' ∷ []) ≡ false
unfolding starts_with is_safe
starts_with-safe [] h = refl
starts_with-safe (c ∷ s) h = ground (arith, h)

-- A safe text is one segment.
resolve-safe :
    (base : FilePath) (s : Text) → all is_safe s ≡ true → resolve base s ≡ step_into base s
unfolding resolve step_along
resolve-safe base s h = rw (starts_with-safe s h, split-safe s h) refl

step_into-key :
    (base : FilePath) (key : Text)
    → IsSlug key
    → step_into base key ≡ (if key == txt "." then base else base ++ key ∷ [])
unfolding step_into ◌==◌ txt
step_into-key base [] h = cc
step_into-key base (c ∷ []) h = ground (arith, h)
step_into-key base (c ∷ d ∷ s) (_, _, _, dots) = ground (arith, dots)

step_into-file_name :
    (base : FilePath) (cmd : Text)
    → IsSlug cmd
    → step_into base (file_name cmd) ≡ base ++ file_name cmd ∷ []
unfolding step_into ◌==◌ txt
step_into-file_name base [] h = cc
step_into-file_name base (c ∷ []) h = ground arith
step_into-file_name base (c ∷ d ∷ []) h = ground arith
step_into-file_name base (c ∷ d ∷ e ∷ s) h = ground arith

file_name-safe : (cmd : Text) → IsSlug cmd → all is_safe (file_name cmd) ≡ true
unfolding is_safe txt
file_name-safe cmd (_, _, safe, _) = all-append is_safe cmd (txt ".json") ∙ ground (arith, safe)

resolve-slug_path :
    (cwd : FilePath) (key cmd : Text)
    → IsSlug key
    → IsSlug cmd
    → resolve (resolve (progress_root cwd) key) (file_name cmd) ≡ slug_path cwd key cmd
resolve-slug_path cwd key cmd slug_key slug_cmd =
    let root = progress_root cwd in
    let inner = if key == txt "." then root else root ++ key ∷ [] in
    let at_key : resolve root key ≡ inner =
      resolve-safe root key slug_key.2 ∙ step_into-key root key slug_key in
    ap (λ q. resolve q (file_name cmd)) at_key
    ∙ resolve-safe inner (file_name cmd) (file_name-safe cmd slug_cmd)
    ∙ step_into-file_name inner cmd slug_cmd
    ∙ elim (Bool-cases (key == txt ".")) [
      | inl dot ↦ rw (dot) refl
      | inr other ↦ rw (other) (append_assoc root (key ∷ []) (file_name cmd ∷ []))
    ]

path_text-append : (p q : FilePath) → path_text (p ++ q) ≡ path_text p ++ path_text q
unfolding path_text
path_text-append [] q = refl
path_text-append (s ∷ p) q =
    ap (λ t. b'/' ∷ (s ++ t)) (path_text-append p q)
    ∙ ap (λ t. b'/' ∷ t) (sym (append_assoc s (path_text p) (path_text q)))

-- A path below another one starts with its text and a slash.
starts_with-path_text :
    (p : FilePath) (s : Text) (q : FilePath)
    → starts_with (path_text (p ++ s ∷ q)) (path_text p ++ b'/' ∷ []) ≡ true
unfolding path_text
starts_with-path_text p s q =
    let front = path_text p ++ b'/' ∷ [] in
    let behind = s ++ path_text q in
    let whole : path_text (p ++ s ∷ q) ≡ front ++ behind =
      path_text-append p (s ∷ q) ∙ sym (append_assoc (path_text p) (b'/' ∷ []) behind) in
    ap (λ t. starts_with t front) whole ∙ starts_with-append front behind

checked_path-below :
    (root : FilePath) (s : Text) (q : FilePath)
    → checked_path root (root ++ s ∷ q) ≡ ok (root ++ s ∷ q)
unfolding checked_path txt
checked_path-below root s q = rw (starts_with-path_text root s q) refl

checked_path-slug_path :
    (cwd : FilePath) (key cmd : Text)
    → checked_path (progress_root cwd) (slug_path cwd key cmd) ≡ ok (slug_path cwd key cmd)
unfolding checked_path
checked_path-slug_path cwd key cmd = elim (Bool-cases (key == txt ".")) [
  | inl dot ↦ rw (dot) (checked_path-below (progress_root cwd) (file_name cmd) [])
  | inr other ↦ rw (other) (checked_path-below (progress_root cwd) key (file_name cmd ∷ []))
]

-- For slugs, `statePath` never refuses: the path is that of the state, below the folder of all
-- progress states.
pub state_path-slug_path :
    (cwd : FilePath) (key cmd : Text)
    → IsSlug key
    → IsSlug cmd
    → state_path cwd key cmd ≡ ok (slug_path cwd key cmd)
unfolding state_path
state_path-slug_path cwd key cmd slug_key slug_cmd =
    ap (checked_path (progress_root cwd)) (resolve-slug_path cwd key cmd slug_key slug_cmd)
    ∙ checked_path-slug_path cwd key cmd

slug_tail_injective :
    (key cmd key' cmd' : Text)
    → slug_tail key cmd ≡ slug_tail key' cmd'
    → (key ≡ key') × (cmd ≡ cmd')
slug_tail_injective key cmd key' cmd' h =
    let same : (a b : Text) → file_name a ≡ file_name b → a ≡ b =
      λ a b e. append_cancel_right a b (txt ".json") e in
    elim (Bool-cases (key == txt ".")) [
      | inl dot ↦ elim (Bool-cases (key' == txt ".")) [
        | inl dot' ↦
            let e : file_name cmd ∷ [] ≡ file_name cmd' ∷ [] = rw (dot, dot') at h in
            ((==_iff key (txt ".")).0 dot ∙ sym ((==_iff key' (txt ".")).0 dot'), same cmd cmd' cc)
        | inr other' ↦
            let e : file_name cmd ∷ [] ≡ key' ∷ file_name cmd' ∷ [] = rw (dot, other') at h in
            absurd cc
      ]
      | inr other ↦ elim (Bool-cases (key' == txt ".")) [
        | inl dot' ↦
            let e : key ∷ file_name cmd ∷ [] ≡ file_name cmd' ∷ [] = rw (other, dot') at h in
            absurd cc
        | inr other' ↦
            let e : key ∷ file_name cmd ∷ [] ≡ key' ∷ file_name cmd' ∷ [] =
              rw (other, other') at h in
            (cc, same cmd cmd' cc)
      ]
    ]

-- Different slugs have different paths.
pub slug_path_injective :
    (cwd : FilePath) (key cmd key' cmd' : Text)
    → slug_path cwd key cmd ≡ slug_path cwd key' cmd'
    → (key ≡ key') × (cmd ≡ cmd')
slug_path_injective cwd key cmd key' cmd' h =
    slug_tail_injective key cmd key' cmd'
      (append_cancel_left (progress_root cwd) (slug_tail key cmd) (slug_tail key' cmd') h)
