-- ===== src/Workflow/Tasks/Lines.antt =====
-- .opencode/plugins/uf-workflow/index.ts: the lines of a text, as `split("\n")` finds them.
use complytime_providers.Prelude.{
  ℕ, ◌≡◌, refl, ap, sym, ◌∙◌, inl, inr, Text, false, List, [], ◌∷◌, ◌++◌, any, All, nat_eq, split,
  join, arith, Bool-cases,
}
use mathlib.Core.Path.{subst}
use mathlib.Core.List.{append_assoc}

-- A text without a line feed.
abbrev pub IsLine : Text → Type 0
IsLine s = any (λ c. nat_eq c 10) s ≡ false

-- The text of the lines.
abbrev pub unlines : List Text → Text
unlines lines = join (10 ∷ []) lines

pub split_shape : (s : Text) → (line : Text) × (lines : List Text) × (split 10 s ≡ line ∷ lines)
unfolding split
split_shape [] = ([], [], refl)
split_shape (c ∷ s) =
    let (line, lines, e) = split_shape s in
    elim (Bool-cases (nat_eq c 10)) [
      | inl feed ↦ ([], split 10 s, rw (feed) refl)
      | inr other ↦ (c ∷ line, lines, rw (other, e) refl)
    ]

split-empty : split 10 [] ≡ [] ∷ []
unfolding split
split-empty = refl

split-feed : (s : Text) → split 10 (10 ∷ s) ≡ [] ∷ split 10 s
unfolding split
split-feed s = refl

split-front :
    (c : ℕ) (s line : Text) (lines : List Text)
    → nat_eq c 10 ≡ false
    → split 10 s ≡ line ∷ lines
    → split 10 (c ∷ s) ≡ (c ∷ line) ∷ lines
unfolding split
split-front c s line lines other e = rw (other, e) refl

unlines-front :
    (c : ℕ) (line : Text) (lines : List Text)
    → unlines ((c ∷ line) ∷ lines) ≡ c ∷ unlines (line ∷ lines)
unfolding join
unlines-front c line [] = refl
unlines-front c line (next ∷ lines) = refl

pub unlines-one : (line : Text) → unlines (line ∷ []) ≡ line
unfolding join
unlines-one line = refl

pub unlines-append :
    (line next : Text) (lines : List Text)
    → unlines (line ∷ next ∷ lines) ≡ line ++ 10 ∷ unlines (next ∷ lines)
unfolding join
unlines-append line next lines = append_assoc line (10 ∷ []) (unlines (next ∷ lines))

unlines-feed :
    (line : Text) (lines : List Text) → unlines ([] ∷ line ∷ lines) ≡ 10 ∷ unlines (line ∷ lines)
unfolding join
unlines-feed line lines = refl

-- The lines of a text hold no line feed.
pub split-All : (s : Text) → All IsLine (split 10 s)
split-All [] = rw (split-empty) (refl, tt)
split-All (c ∷ s) =
    let (line, lines, e) = split_shape s in
    let before : All IsLine (line ∷ lines) = subst (λ parts. All IsLine parts) e (split-All s) in
    elim (Bool-cases (nat_eq c 10)) [
      | inl feed ↦
          let at_feed : c ≡ 10 = ground (arith, feed) in rw (at_feed, split-feed, e) (refl, before)
      | inr other ↦
          rw (split-front c s line lines other e) (ground (arith, other, before.0), before.1)
    ]

pub join-split : (s : Text) → unlines (split 10 s) ≡ s
join-split [] = ap unlines split-empty ∙ unlines-one []
join-split (c ∷ s) =
    let (line, lines, e) = split_shape s in
    let before = sym (ap unlines e) ∙ join-split s in
    elim (Bool-cases (nat_eq c 10)) [
      | inl feed ↦
          let at_feed : c ≡ 10 = ground (arith, feed) in
          rw (at_feed, split-feed, e, unlines-feed, before) refl
      | inr other ↦ rw (split-front c s line lines other e, unlines-front, before) refl
    ]

split-line : (line : Text) → IsLine line → split 10 line ≡ line ∷ []
split-line [] h = split-empty
split-line (c ∷ s) h = split-front c s s [] (ground arith) (split-line s (ground arith))

split-append : (line s : Text) → IsLine line → split 10 (line ++ 10 ∷ s) ≡ line ∷ split 10 s
split-append [] s h = split-feed s
split-append (c ∷ line) s h =
    split-front c (line ++ 10 ∷ s) line (split 10 s) (ground arith)
      (split-append line s (ground arith))

-- Lines that hold no line feed are found again in their text.
pub split-join :
    (line : Text) (lines : List Text)
    → All IsLine (line ∷ lines)
    → split 10 (unlines (line ∷ lines)) ≡ line ∷ lines
split-join line [] h = ap (split 10) (unlines-one line) ∙ split-line line h.0
split-join line (next ∷ lines) h =
    ap (split 10) (unlines-append line next lines)
    ∙ split-append line (unlines (next ∷ lines)) h.0
    ∙ ap (λ q. line ∷ q) (split-join next lines h.1)
