-- ===== src/Workflow/Names/Slugs.antt =====
-- .opencode/lib/uf-workflow-types.ts: the slugs that `sanitizeSlug` returns.
use complytime_providers.Prelude.{
  ℕ, zero, suc, ◌≤◌, ◌≡◌, refl, sym, ap, ◌∙◌, inl, inr, Text, Bool, true, false, not, ◌&&◌, [], ◌∷◌,
  length, all, filter, take, nat_eq, ok, arith, Bool-cases,
}
use mathlib.Core.Path.{subst}
use complytime_providers.Workflow.Names.{
  is_safe, dash_slashes, collapse_dots, slug_text, slug_result, sanitize_slug,
}

-- No two dots in a row.
abbrev pub has_no_dots : Text → Bool
has_no_dots [] = true
has_no_dots (c ∷ []) = true
has_no_dots (c ∷ d ∷ s) = not (nat_eq c b'.' && nat_eq d b'.') && has_no_dots (d ∷ s)

abbrev pub is_cons_slug : Text → Bool
is_cons_slug [] = false
is_cons_slug (c ∷ s) = true

-- What a slug promises: it is not empty, at most 100 characters long, and of safe characters, no
-- two dots in a row among them.
abbrev pub IsSlug : Text → Type 0
IsSlug s =
    (is_cons_slug s ≡ true) × (length s ≤ 100) × (all is_safe s ≡ true) × (has_no_dots s ≡ true)

all-filter : (p : ℕ → Bool) (s : Text) → all p (filter p s) ≡ true
all-filter p [] = refl
all-filter p (c ∷ s) = ground (arith, all-filter p s)

all-collapse_dots : (p : ℕ → Bool) (s : Text) → all p s ≡ true → all p (collapse_dots s) ≡ true
unfolding collapse_dots
all-collapse_dots p [] h = refl
all-collapse_dots p (c ∷ []) h = h
all-collapse_dots p (c ∷ d ∷ s) h = ground (arith, h, all-collapse_dots p (d ∷ s))

-- The first character stays in front.
abbrev head_is : ℕ → Text → Bool
head_is c [] = false
head_is c (d ∷ s) = nat_eq c d

head_is_other : (c e : ℕ) (s : Text) → head_is c s ≡ true → head_is e s ≡ nat_eq e c
head_is_other c e [] h = cc
head_is_other c e (d ∷ s) h = let same : c ≡ d = ground (arith, h) in rw (same) refl

collapse_dots_head : (c : ℕ) (s : Text) → head_is c (collapse_dots (c ∷ s)) ≡ true
unfolding collapse_dots
collapse_dots_head c [] = ground arith
collapse_dots_head c (d ∷ s) = elim (Bool-cases (nat_eq c b'.' && nat_eq d b'.')) [
  | inl dots ↦
      rw (dots)
        (head_is_other d c (collapse_dots (d ∷ s)) (collapse_dots_head d s) ∙ ground (arith, dots))
  | inr other ↦ rw (other) (ground arith)
]

has_no_dots-cons :
    (c : ℕ) (s : Text)
    → has_no_dots s ≡ true
    → (nat_eq c b'.' && head_is b'.' s) ≡ false
    → has_no_dots (c ∷ s) ≡ true
has_no_dots-cons c [] h k = refl
has_no_dots-cons c (d ∷ s) h k = ground (arith, h, k)

has_no_dots-collapse_dots : (s : Text) → has_no_dots (collapse_dots s) ≡ true
unfolding collapse_dots
has_no_dots-collapse_dots [] = refl
has_no_dots-collapse_dots (c ∷ []) = refl
has_no_dots-collapse_dots (c ∷ d ∷ s) =
    let before = has_no_dots-collapse_dots (d ∷ s) in
    elim (Bool-cases (nat_eq c b'.' && nat_eq d b'.')) [
      | inl dots ↦ rw (dots) before
      | inr other ↦ rw (other) (
          has_no_dots-cons c (collapse_dots (d ∷ s)) before (
            ground (
              arith,
              other,
              head_is_other d b'.' (collapse_dots (d ∷ s)) (collapse_dots_head d s),
            )))
    ]

all-take : (p : ℕ → Bool) (n : ℕ) (s : Text) → all p s ≡ true → all p (take n s) ≡ true
all-take p zero s h = refl
all-take p (suc n) [] h = refl
all-take p (suc n) (c ∷ s) h = ground (arith, h, all-take p n s)

has_no_dots-take : (n : ℕ) (s : Text) → has_no_dots s ≡ true → has_no_dots (take n s) ≡ true
has_no_dots-take zero s h = refl
has_no_dots-take (suc n) [] h = refl
has_no_dots-take (suc zero) (c ∷ []) h = refl
has_no_dots-take (suc (suc n)) (c ∷ []) h = refl
has_no_dots-take (suc zero) (c ∷ d ∷ s) h = refl
has_no_dots-take (suc (suc n)) (c ∷ d ∷ s) h = ground (arith, h, has_no_dots-take (suc n) (d ∷ s))

length-take : (n : ℕ) (s : Text) → length (take n s) ≤ n
length-take zero s = omega arith
length-take (suc n) [] = omega arith
length-take (suc n) (c ∷ s) = omega (arith, length-take n s)

-- A text without two dots in a row is left alone, as is one of safe characters.
collapse_dots_same : (s : Text) → has_no_dots s ≡ true → collapse_dots s ≡ s
unfolding collapse_dots
collapse_dots_same [] h = refl
collapse_dots_same (c ∷ []) h = refl
collapse_dots_same (c ∷ d ∷ s) h = ground (arith, h, collapse_dots_same (d ∷ s))

filter_same : (s : Text) → all is_safe s ≡ true → filter is_safe s ≡ s
filter_same [] h = refl
filter_same (c ∷ s) h = ground (arith, h, filter_same s)

dash_slashes_same : (s : Text) → all is_safe s ≡ true → dash_slashes s ≡ s
unfolding dash_slashes is_safe
dash_slashes_same [] h = refl
dash_slashes_same (c ∷ s) h = ground (arith, h, dash_slashes_same s)

take_same : (n : ℕ) (s : Text) → length s ≤ n → take n s ≡ s
take_same zero [] h = refl
take_same zero (c ∷ s) h = absurd (omega (arith, h))
take_same (suc n) [] h = refl
take_same (suc n) (c ∷ s) h = ap (λ q. c ∷ q) (take_same n s (omega (arith, h)))

slug_text_safe : (input : Text) → all is_safe (slug_text input) ≡ true
slug_text_safe input = all-take is_safe 100 (collapse_dots (filter is_safe (dash_slashes input))) (
    all-collapse_dots is_safe (filter is_safe (dash_slashes input))
      (all-filter is_safe (dash_slashes input)))

slug_text_dots : (input : Text) → has_no_dots (slug_text input) ≡ true
slug_text_dots input =
    has_no_dots-take 100 (collapse_dots (filter is_safe (dash_slashes input)))
      (has_no_dots-collapse_dots (filter is_safe (dash_slashes input)))

slug_result-eq-ok :
    (input result s : Text)
    → slug_result input result ≡ ok s
    → (result ≡ s) × (is_cons_slug s ≡ true)
unfolding slug_result
slug_result-eq-ok input [] s h = cc
slug_result-eq-ok input (c ∷ r) s h =
    let same : c ∷ r ≡ s = cc in (same, ap is_cons_slug (sym same))

-- A slug that `sanitizeSlug` returns is not empty, has at most 100 characters, and is made of ASCII
-- letters, digits, dots, underscores and dashes, with no two dots in a row.
pub sanitize_slug-IsSlug : (input s : Text) → sanitize_slug input ≡ ok s → IsSlug s
unfolding sanitize_slug
sanitize_slug-IsSlug input s h =
    let (e, some_text) = slug_result-eq-ok input (slug_text input) s h in
    let parts : (length s ≤ 100) × (all is_safe s ≡ true) × (has_no_dots s ≡ true) =
      subst (λ q. (length q ≤ 100) × (all is_safe q ≡ true) × (has_no_dots q ≡ true)) e
        (
          length-take 100 (collapse_dots (filter is_safe (dash_slashes input))),
          slug_text_safe input,
          slug_text_dots input,
        ) in
    (some_text, parts.0, parts.1, parts.2)

slug_text_same :
    (s : Text) → all is_safe s ≡ true → length s ≤ 100 → has_no_dots s ≡ true → slug_text s ≡ s
slug_text_same s safe short dots =
    ap (λ q. take 100 (collapse_dots (filter is_safe q))) (dash_slashes_same s safe)
    ∙ ap (λ q. take 100 (collapse_dots q)) (filter_same s safe)
    ∙ ap (take 100) (collapse_dots_same s dots)
    ∙ take_same 100 s short

pub sanitize_slug_same : (s : Text) → IsSlug s → sanitize_slug s ≡ ok s
unfolding sanitize_slug slug_result
sanitize_slug_same [] h = cc
sanitize_slug_same (c ∷ s) (_, short, safe, dots) =
    ap (slug_result (c ∷ s)) (slug_text_same (c ∷ s) safe short dots)

-- Sanitizing a slug once more gives the same slug.
pub sanitize_slug-sanitize_slug :
    (input s : Text) → sanitize_slug input ≡ ok s → sanitize_slug s ≡ ok s
sanitize_slug-sanitize_slug input s h = sanitize_slug_same s (sanitize_slug-IsSlug input s h)
