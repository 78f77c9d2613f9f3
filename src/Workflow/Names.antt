-- ===== src/Workflow/Names.antt =====
-- .opencode/lib/uf-workflow-types.ts: `sanitizeSlug` and `normalizeModelName`.
pub mod Slugs
pub mod Models
use complytime_providers.Prelude.{
  ℕ, suc, Text, txt, ◌==◌, Bool, true, false, not, ◌&&◌, ◌||◌, Option, none, some, List, [], ◌∷◌,
  ◌++◌, map, length, all, any, filter, take, drop, nat_eq, leb, ltb, if◌then◌else◌, is_space, trim,
  reverse, at_last_slash, Result, ok, err,
}

-- `[0-9]`, `\d`
abbrev pub is_digit : ℕ → Bool
is_digit c = leb 48 c && leb c 57

-- `[a-zA-Z0-9._-]`
unfoldable pub is_safe : ℕ → Bool
is_safe c =
    (leb 97 c && leb c 122)
    || (leb 65 c && leb c 90)
    || is_digit c
    || nat_eq c b'.'
    || nat_eq c b'_'
    || nat_eq c b'-'

-- `.replace(/\//g, "-")`
unfoldable pub dash_slashes : Text → Text
dash_slashes s = map (λ c. if nat_eq c b'/' then b'-' else c) s

-- `.replace(/\.{2,}/g, ".")`
unfoldable pub collapse_dots : Text → Text
collapse_dots [] = []
collapse_dots (c ∷ []) = c ∷ []
collapse_dots (c ∷ d ∷ s) =
    let rest = collapse_dots (d ∷ s) in if nat_eq c b'.' && nat_eq d b'.' then rest else c ∷ rest

abbrev pub max_slug_length : ℕ
max_slug_length = 100

-- `.slice(0, 100).replace(/[\x00-\x1f]/g, "?")`
unfoldable pub shown_input : Text → Text
shown_input input = map (λ c. if leb c 31 then b'?' else c) (take 100 input)

-- The characters of the slug.
abbrev pub slug_text : Text → Text
slug_text input = take max_slug_length (collapse_dots (filter is_safe (dash_slashes input)))

-- An empty result is refused.
unfoldable pub slug_result : Text → Text → Result Text
unfolding shown_input txt
slug_result input [] = err (
    txt "Invalid input: \"" ++ shown_input input ++ txt "\" produces empty slug after sanitization")
slug_result input (c ∷ s) = ok (c ∷ s)

unfoldable pub sanitize_slug : Text → Result Text
unfolding slug_result
sanitize_slug input = slug_result input (slug_text input)

abbrev pub unknown_model : Text
unfolding txt
unknown_model = txt "unknown-model"

-- The part before the first `@`.
unfoldable pub before_at : Text → Text
before_at [] = []
before_at (c ∷ s) = let rest = before_at s in if nat_eq c b'@' then [] else c ∷ rest

unfoldable pub after_slash : Text → Text
unfolding at_last_slash
after_slash s = elim (at_last_slash s) [ some (before, behind) ↦ behind | none ↦ s ]

-- `/-\d{8}$/` removed from a name that is given backwards.
unfoldable pub strip_date : Text → Text
strip_date r =
    if nat_eq (length (take 8 r)) 8 && all is_digit (take 8 r)
    then elim (drop 8 r) [ [] ↦ r | c ∷ s ↦ if nat_eq c b'-' then s else r ]
    else r

-- The loop over `/\d-\d$/`, on a name that is given backwards.
unfoldable pub strip_versions : Text → Text
strip_versions (c ∷ d ∷ e ∷ s) =
    let rest = strip_versions (e ∷ s) in
    if is_digit c && nat_eq d b'-' && is_digit e then rest else c ∷ d ∷ e ∷ s
strip_versions r = r

-- Steps 1 to 4.
unfoldable pub stripped_name : Text → Text
unfolding after_slash before_at strip_date strip_versions
stripped_name raw = reverse (strip_versions (strip_date (reverse (before_at (after_slash raw)))))

abbrev pub is_cons_text : Text → Bool
is_cons_text [] = false
is_cons_text (c ∷ s) = true

-- Steps 5 and 6.
unfoldable pub checked_name : Text → Text
unfolding is_safe
checked_name name =
    if not (is_cons_text name) || not (all is_safe name) then unknown_model else name

unfoldable pub normalize_model_name : Text → Text
unfolding trim stripped_name checked_name
normalize_model_name raw =
    if is_cons_text (trim raw) then checked_name (stripped_name raw) else unknown_model
