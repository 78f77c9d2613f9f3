-- ===== src/Review/Votes/Majority.antt =====
-- .opencode/plugins/review-dispatch/index.ts: `triageMajority`.
use complytime_providers.Prelude.{◌*◌, ◌<◌, ◌≤◌, ◌↔◌, ◌≡◌, refl, List, [], ◌∷◌, map, length, arith}
use complytime_providers.Review.Model.{Verdict, valid, invalid, needs_clarification}
use complytime_providers.Review.Votes.{tally, triage_majority}

-- VALID for INVALID and INVALID for VALID.
abbrev pub opposite : Verdict → Verdict
opposite valid = invalid
opposite invalid = valid
opposite v = v

length-opposite : (vs : List Verdict) → length (map opposite vs) ≡ length vs
length-opposite [] = refl
length-opposite (v ∷ vs) = ground (arith, length-opposite vs)

-- The votes for a verdict, among the opposite votes.
tally-opposite :
    (v : Verdict) (vs : List Verdict) → tally v (map opposite vs) ≡ tally (opposite v) vs
unfolding tally
tally-opposite v [] = refl
tally-opposite v (w ∷ vs) = ground (arith, tally-opposite v vs)

-- The majority treats VALID and INVALID alike: the opposite votes have the opposite majority.
pub triage_majority-opposite :
    (vs : List Verdict) → triage_majority (map opposite vs) ≡ opposite (triage_majority vs)
unfolding triage_majority
triage_majority-opposite vs = ground (
  arith,
  length-opposite vs,
  tally-opposite needs_clarification vs,
  tally-opposite valid vs,
  tally-opposite invalid vs,
)

-- The majority is VALID exactly if more votes are VALID than INVALID and no more than half of all
-- votes ask for clarification.
triage_majority-valid :
    (vs : List Verdict)
    → (triage_majority vs ≡ valid)
      ↔ ((tally invalid vs < tally valid vs) × (2 * tally needs_clarification vs ≤ length vs))
unfolding triage_majority
triage_majority-valid vs = (λ h. (ground arith, ground arith), λ (more, few). ground arith)
