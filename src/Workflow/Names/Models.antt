-- ===== src/Workflow/Names/Models.antt =====
-- .opencode/lib/uf-workflow-types.ts: the names that `normalizeModelName` returns.
use complytime_providers.Prelude.{
  ◌≡◌, ◌⊎◌, inl, inr, refl, ap, ◌∙◌, Text, Bool, true, false, ◌&&◌, [], ◌∷◌, reverse, trim, all,
  nat_eq, Bool-cases,
}
use mathlib.Core.List.{reverse-reverse}
use complytime_providers.Workflow.Names.{
  is_digit, is_safe, unknown_model, strip_date, strip_versions, stripped_name, after_slash,
  before_at, is_cons_text, checked_name, normalize_model_name,
}

-- Whether a name, given backwards, ends with a digit, a dash and a digit.
abbrev pub ends_in_version : Text → Bool
ends_in_version (c ∷ d ∷ e ∷ s) = is_digit c && nat_eq d b'-' && is_digit e
ends_in_version r = false

strip_versions_done : (r : Text) → ends_in_version (strip_versions r) ≡ false
unfolding strip_versions
strip_versions_done [] = refl
strip_versions_done (c ∷ []) = refl
strip_versions_done (c ∷ d ∷ []) = refl
strip_versions_done (c ∷ d ∷ e ∷ s) =
    elim (Bool-cases (is_digit c && nat_eq d b'-' && is_digit e)) [
      | inl version ↦ rw (version) (strip_versions_done (e ∷ s))
      | inr other ↦ rw (other) other
    ]

-- The name is the default, or it is not empty, of safe characters only, and without a version at
-- its end.
abbrev pub IsModelName : Text → Type 0
IsModelName name =
    (name ≡ unknown_model)
    ⊎ ((is_cons_text name ≡ true)
        × (all is_safe name ≡ true)
        × (ends_in_version (reverse name) ≡ false))

stripped_name_done : (raw : Text) → ends_in_version (reverse (stripped_name raw)) ≡ false
unfolding stripped_name
stripped_name_done raw =
    let r = strip_date (reverse (before_at (after_slash raw))) in
    ap ends_in_version (reverse-reverse (strip_versions r)) ∙ strip_versions_done r

checked_name-IsModelName :
    (name : Text) → ends_in_version (reverse name) ≡ false → IsModelName (checked_name name)
unfolding checked_name
checked_name-IsModelName name done = elim (Bool-cases (is_cons_text name)) [
  | inr empty ↦ rw (empty) (inl refl)
  | inl shown ↦ elim (Bool-cases (all is_safe name)) [
    | inr invalid ↦ rw (shown, invalid) (inl refl)
    | inl valid ↦ rw (shown, valid) (inr (shown, valid, done))
  ]
]

-- A normalized model name is the default name, or it is not empty, has only ASCII letters, digits,
-- dots, underscores and dashes, and does not end with a digit, a dash and a digit.
pub normalize_model_name-IsModelName : (raw : Text) → IsModelName (normalize_model_name raw)
unfolding normalize_model_name
normalize_model_name-IsModelName raw = elim (Bool-cases (is_cons_text (trim raw))) [
  | inr blank ↦ rw (blank) (inl refl)
  | inl shown ↦ rw (shown) (checked_name-IsModelName (stripped_name raw) (stripped_name_done raw))
]
