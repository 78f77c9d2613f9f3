-- ===== src/Workflow/Resume/Newest.antt =====
-- .opencode/plugins/uf-workflow/index.ts: the artifact that `mostRecentArtifact` chooses.
use complytime_providers.Prelude.{
  ◌<◌, ◌≡◌, ◌⊎◌, is_some, text_leb, ==_iff, refl, sym, ap, inl, inr, Text, true, false, ◌&&◌,
  Option, none, some, List, [], ◌∷◌, ◌++◌, All, text_leb-total, text_leb_trans, Bool-cases, arith,
}
use mathlib.Core.Path.{subst}
use complytime_providers.Workflow.Resume.Artifacts.{
  ArtifactSummary, is_newer, is_for, most_recent_from, most_recent_artifact,
}

-- No artifact is newer than one that is newer than it.
is_newer_asym : (a b : ArtifactSummary) → is_newer a (some b) ≡ true → is_newer b (some a) ≡ false
unfolding is_newer
is_newer_asym a b h = ground (arith, h, text_leb-total a.source b.source)

is_newer_irrefl : (a : ArtifactSummary) → is_newer a (some a) ≡ false
is_newer_irrefl a = elim (Bool-cases (is_newer a (some a))) [
  | inl newer ↦ is_newer_asym a a newer
  | inr same ↦ same
]

is_newer_trans :
    (a b c : ArtifactSummary)
    → is_newer a (some b) ≡ false
    → is_newer b (some c) ≡ false
    → is_newer a (some c) ≡ false
unfolding is_newer
is_newer_trans a b c h k = ground (arith, h, k, text_leb_trans a.source b.source c.source)

-- What was the best so far is not newer than the result.
abbrev IsNotNewer : Option ArtifactSummary → ArtifactSummary → Type 0
IsNotNewer none a = Unit
IsNotNewer (some b) a = is_newer b (some a) ≡ false

-- No candidate for the mode and the branch replaces it.
abbrev IsUnbeaten : Text → Text → List ArtifactSummary → ArtifactSummary → Type 0
IsUnbeaten mode branch candidates a =
    All (λ c. (is_for mode branch c && is_newer c (some a)) ≡ false) candidates

not_newer_than :
    (mode branch : Text) (best : Option ArtifactSummary) (c a : ArtifactSummary)
    → (is_for mode branch c && is_newer c best) ≡ false
    → IsNotNewer best a
    → (is_for mode branch c && is_newer c (some a)) ≡ false
unfolding is_newer
not_newer_than mode branch none c a h k = ground (arith, h)
not_newer_than mode branch (some b) c a h k = ground (arith, h, k, is_newer_trans c b a)

replaced :
    (best : Option ArtifactSummary) (c a : ArtifactSummary)
    → is_newer c best ≡ true
    → is_newer c (some a) ≡ false
    → IsNotNewer best a
replaced none c a h k = tt
replaced (some b) c a h k = is_newer_trans b c a (is_newer_asym c b h) k

most_recent_from-IsUnbeaten :
    (mode branch : Text) (best : Option ArtifactSummary) (candidates : List ArtifactSummary)
    (a : ArtifactSummary)
    → most_recent_from mode branch best candidates ≡ some a
    → IsNotNewer best a × IsUnbeaten mode branch candidates a
unfolding most_recent_from
most_recent_from-IsUnbeaten mode branch best [] a h =
    (subst (λ o. IsNotNewer o a) (sym h) (is_newer_irrefl a), tt)
most_recent_from-IsUnbeaten mode branch best (c ∷ candidates) a h =
    elim (Bool-cases (is_for mode branch c && is_newer c best)) [
      | inl taken ↦
          let (below, rest) =
            most_recent_from-IsUnbeaten mode branch (some c) candidates a (rw (taken) at h) in
          (replaced best c a (ground (arith, taken)) below, (ground (arith, below), rest))
      | inr kept ↦
          let (below, rest) =
            most_recent_from-IsUnbeaten mode branch best candidates a (rw (kept) at h) in
          (below, (not_newer_than mode branch best c a kept below, rest))
    ]

-- Where the result stands among the candidates.
abbrev pub IsAmong : Text → Text → List ArtifactSummary → ArtifactSummary → Type 0
IsAmong mode branch candidates a =
    (before : List ArtifactSummary) × (behind : List ArtifactSummary) × (candidates
      ≡ before ++ a ∷ behind)
    × (a.mode ≡ mode)
    × (a.branch ≡ branch)

IsAmong-behind :
    (mode branch : Text) (c a : ArtifactSummary) (candidates : List ArtifactSummary)
    → IsAmong mode branch candidates a
    → IsAmong mode branch (c ∷ candidates) a
IsAmong-behind mode branch c a candidates (before, behind, e, f, g) =
    (c ∷ before, behind, ap (λ q. c ∷ q) e, f, g)

most_recent_from-IsAmong :
    (mode branch : Text) (best : Option ArtifactSummary) (candidates : List ArtifactSummary)
    (a : ArtifactSummary)
    → most_recent_from mode branch best candidates ≡ some a
    → (best ≡ some a) ⊎ IsAmong mode branch candidates a
unfolding most_recent_from is_for
most_recent_from-IsAmong mode branch best [] a h = inl h
most_recent_from-IsAmong mode branch best (c ∷ candidates) a h =
    elim (Bool-cases (is_for mode branch c && is_newer c best)) [
      | inl taken ↦
          elim (most_recent_from-IsAmong mode branch (some c) candidates a (rw (taken) at h)) [
            | inl same ↦
                let here : c ≡ a = cc in
                inr (
                  [],
                  candidates,
                  ap (λ q. q ∷ candidates) here,
                  subst (λ (q : ArtifactSummary). q.mode ≡ mode) here
                      (ground (arith, taken, ==_iff c.mode mode)),
                  subst (λ (q : ArtifactSummary). q.branch ≡ branch) here
                      (ground (arith, taken, ==_iff c.branch branch)),
                )
            | inr among ↦ inr (IsAmong-behind mode branch c a candidates among)
          ]
      | inr kept ↦ elim (most_recent_from-IsAmong mode branch best candidates a (rw (kept) at h)) [
        | inl same ↦ inl same
        | inr among ↦ inr (IsAmong-behind mode branch c a candidates among)
      ]
    ]

not_none : (a : ArtifactSummary) → ¬ (none ≡ some a)
not_none a h = cc

-- Every candidate of the mode and the branch was written before it, or at the same time under a name
-- that is not behind its own in the order of the code units.
abbrev pub IsNewest : Text → Text → List ArtifactSummary → ArtifactSummary → Type 0
IsNewest mode branch candidates a =
    All
      (λ (c : ArtifactSummary).
        c.mode ≡ mode
        → c.branch ≡ branch
        → (c.written_at < a.written_at)
          ⊎ ((c.written_at ≡ a.written_at) × (text_leb c.source a.source ≡ true)))
      candidates

IsUnbeaten-IsNewest :
    (mode branch : Text) (candidates : List ArtifactSummary) (a : ArtifactSummary)
    → IsUnbeaten mode branch candidates a
    → IsNewest mode branch candidates a
unfolding is_newer is_for
IsUnbeaten-IsNewest mode branch [] a h = tt
IsUnbeaten-IsNewest mode branch (c ∷ candidates) a h = (
  λ m b. ground (arith, h.0, ==_iff c.mode mode, ==_iff c.branch branch, m, b),
  IsUnbeaten-IsNewest mode branch candidates a h.1,
)

-- No candidate is of the mode and the branch.
abbrev pub IsAbsent : Text → Text → List ArtifactSummary → Type 0
IsAbsent mode branch candidates =
    All (λ (c : ArtifactSummary). ¬ ((c.mode ≡ mode) × (c.branch ≡ branch))) candidates

most_recent_from-is_some :
    (mode branch : Text) (b : ArtifactSummary) (candidates : List ArtifactSummary)
    → is_some (most_recent_from mode branch (some b) candidates) ≡ true
unfolding most_recent_from
most_recent_from-is_some mode branch b [] = refl
most_recent_from-is_some mode branch b (c ∷ candidates) =
    elim (Bool-cases (is_for mode branch c && is_newer c (some b))) [
      | inl taken ↦ rw taken (most_recent_from-is_some mode branch c candidates)
      | inr kept ↦ rw kept (most_recent_from-is_some mode branch b candidates)
    ]

most_recent_from-IsAbsent :
    (mode branch : Text) (candidates : List ArtifactSummary)
    → most_recent_from mode branch none candidates ≡ none
    → IsAbsent mode branch candidates
unfolding most_recent_from is_newer is_for
most_recent_from-IsAbsent mode branch [] h = tt
most_recent_from-IsAbsent mode branch (c ∷ candidates) h =
    elim (Bool-cases (is_for mode branch c)) [
      | inl fits ↦
          absurd (ground (arith, fits, h, most_recent_from-is_some mode branch c candidates))
      | inr other ↦ (
        λ (m, b). ground (arith, other, ==_iff c.mode mode, ==_iff c.branch branch, m, b),
        most_recent_from-IsAbsent mode branch candidates (rw other at h),
      )
    ]

-- What the choice among the candidates comes to.
abbrev pub IsChosen : Text → Text → List ArtifactSummary → Option ArtifactSummary → Type 0
IsChosen mode branch candidates none = IsAbsent mode branch candidates
IsChosen mode branch candidates (some a) =
    IsAmong mode branch candidates a × IsNewest mode branch candidates a

most_recent_from-IsChosen :
    (candidates : List ArtifactSummary) (mode branch : Text) (chosen : Option ArtifactSummary)
    → most_recent_from mode branch none candidates ≡ chosen
    → IsChosen mode branch candidates chosen
most_recent_from-IsChosen candidates mode branch none h =
    most_recent_from-IsAbsent mode branch candidates h
most_recent_from-IsChosen candidates mode branch (some a) h =
    let unbeaten = (most_recent_from-IsUnbeaten mode branch none candidates a h).1 in
    elim (most_recent_from-IsAmong mode branch none candidates a h) [
      | inl absent ↦ absurd (not_none a absent)
      | inr among ↦ (among, IsUnbeaten-IsNewest mode branch candidates a unbeaten)
    ]

-- If there is a most recent artifact, it is one of the candidates, for the mode and the branch asked
-- for, and every candidate for them was written before it, or at the same time under a name that is
-- not behind its own; if there is none, no candidate is for them.
pub most_recent_artifact-IsChosen :
    (candidates : List ArtifactSummary) (mode branch : Text)
    → IsChosen mode branch candidates (most_recent_artifact candidates mode branch)
unfolding most_recent_artifact
most_recent_artifact-IsChosen candidates mode branch =
    most_recent_from-IsChosen candidates mode branch (most_recent_artifact candidates mode branch)
      refl
