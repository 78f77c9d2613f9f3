-- ===== src/Plan/Cap/Filling.antt =====
-- .opencode/plugins/review-dispatch/index.ts: `applyTierCap`, what it keeps and what it skips.
use complytime_providers.Prelude.{
  ℕ, zero, suc, ◌+◌, ◌-◌, ◌≤◌, ◌≡◌, refl, sym, ap, ◌∙◌, inl, inr, Text, ==_iff, true, some, List,
  [], ◌∷◌, ◌++◌, map, length, count, take, length-take, take-append, ltb, leb, if◌then◌else◌,
  includes, add, sort, Assoc, get, keys, values, Bool-cases, arith, length-append, includes-append,
  includes-sort, IsUnique, length-sort, occurs, occurs-append, occurs-sort, includes-occurs,
  IsUnique-occurs, IsUnique-of_occurs, includes_append_false,
}
use mathlib.Core.List.{append_assoc, append-nil}
use complytime_providers.Review.Model.{Tier, PlanEntry}
use complytime_providers.Plan.Relevance.{Code, always_required}
use complytime_providers.Plan.Cap.{
  agents_in, by_priority, fill, cap_entry, skipped_beyond, is_required, effective_cap,
  apply_tier_cap,
}

take_nil : (n : ℕ) (keep : List Text) → keep ≡ keep ++ take n []
take_nil zero keep = sym (append-nil keep)
take_nil (suc n) keep = sym (append-nil keep)

IsUnique-without :
    (xs : List Text) (x : Text) (ys : List Text) → IsUnique (xs ++ x ∷ ys) → IsUnique (xs ++ ys)
IsUnique-without xs x ys h = IsUnique-of_occurs (xs ++ ys) λ y.
    ground (
      arith,
      IsUnique-occurs (xs ++ x ∷ ys) h y,
      occurs-append xs (x ∷ ys) y,
      occurs-append xs ys y,
    )

-- Filling up to the cap takes the first agents.
fill-append-take :
    (cap : ℕ) (keep agents : List Text)
    → IsUnique (keep ++ agents)
    → fill cap keep agents ≡ keep ++ take (cap - length keep) agents
unfolding fill add
fill-append-take cap keep [] u = take_nil (cap - length keep) keep
fill-append-take cap keep (a ∷ agents) u = elim (Bool-cases (ltb (length keep) cap)) [
  | inl room ↦
      let fresh = includes_append_false keep agents a u in
      let u' : IsUnique ((keep ++ a ∷ []) ++ agents) = rw append_assoc u in
      let n : cap - length keep ≡ suc (cap - length (keep ++ a ∷ [])) =
        ground (arith, length-append keep (a ∷ [])) in
      rw (room, fresh, n)
        (fill-append-take cap (keep ++ a ∷ []) agents u'
          ∙ append_assoc keep (a ∷ []) (take (cap - length (keep ++ a ∷ [])) agents))
  | inr full ↦
      let n : cap - length keep ≡ zero = ground arith in
      rw full (fill-append-take cap keep agents (IsUnique-without keep a agents u) ∙ rw n)
]

fill-take : (cap : ℕ) (agents : List Text) → IsUnique agents → fill cap [] agents ≡ take cap agents
fill-take most agents u =
    fill-append-take most [] agents u ∙ ap (λ (n : ℕ). take n agents) (omega arith)

-- The buckets hold every agent once.
occurs-agents_in :
    (m : Assoc Code) (x : Text)
    → occurs (agents_in 0 m) x
        + occurs (agents_in 1 m) x
        + occurs (agents_in 2 m) x
        + occurs (agents_in 3 m) x
      ≡ occurs (keys m) x
unfolding agents_in
occurs-agents_in [] x = refl
occurs-agents_in ((a, c) ∷ m) x = ground (arith, occurs-agents_in m x)

pub occurs-by_priority : (m : Assoc Code) (x : Text) → occurs (by_priority m) x ≡ occurs (keys m) x
unfolding by_priority
occurs-by_priority m x = simp (occurs-append, occurs-sort) (omega (arith, occurs-agents_in m x))

pub by_priority-IsUnique : (m : Assoc Code) → IsUnique (keys m) → IsUnique (by_priority m)
by_priority-IsUnique m u =
    IsUnique-of_occurs (by_priority m)
      λ x. omega (arith, IsUnique-occurs (keys m) u x, occurs-by_priority m x)

length-agents_in_zero : (m : Assoc Code) → length (agents_in 0 m) ≡ count is_required (values m)
unfolding agents_in
length-agents_in_zero [] = refl
length-agents_in_zero ((a, c) ∷ m) = ground (arith, length-agents_in_zero m)

length-agents_in :
    (m : Assoc Code)
    → length (agents_in 0 m)
        + length (agents_in 1 m)
        + length (agents_in 2 m)
        + length (agents_in 3 m)
      ≡ length m
unfolding agents_in
length-agents_in [] = refl
length-agents_in ((a, c) ∷ m) = ground (arith, length-agents_in m)

length-by_priority : (m : Assoc Code) → length (by_priority m) ≡ length m
unfolding by_priority
length-by_priority m = simp (length-append, length-sort) (omega (arith, length-agents_in m))

includes-agents_in_zero :
    (m : Assoc Code) (agent : Text)
    → get m agent ≡ some always_required
    → includes (agents_in 0 m) agent ≡ true
unfolding agents_in get includes
includes-agents_in_zero [] agent h = cc
includes-agents_in_zero ((a, c) ∷ m) agent h =
    ground (arith, ==_iff a agent, includes-agents_in_zero m agent)

abbrev pub entry_agents : List PlanEntry → List Text
entry_agents es = map (λ (e : PlanEntry). e.agent) es

occurs-skipped_beyond :
    (cap : ℕ) (tier : Tier) (keep agents : List Text) (x : Text)
    → occurs (entry_agents (skipped_beyond cap tier keep agents)) x
      ≡ (if includes keep x then 0 else occurs agents x)
unfolding skipped_beyond cap_entry
occurs-skipped_beyond cap tier keep [] x = ground arith
occurs-skipped_beyond cap tier keep (a ∷ agents) x =
    ground (arith, occurs-skipped_beyond cap tier keep agents x, ==_iff a x)

occurs-take : (n : ℕ) (xs : List Text) (x : Text) → occurs (take n xs) x ≤ occurs xs x
occurs-take zero xs x = omega arith
occurs-take (suc n) [] x = omega arith
occurs-take (suc n) (y ∷ xs) x = ground (arith, occurs-take n xs x)

length-keys {ℓ} : {V : Type ℓ} (m : Assoc V) → length (keys m) ≡ length m
length-keys [] = refl
length-keys ((k, v) ∷ m) = ap suc (length-keys m)

length-filter-le : (m : Assoc Code) → count is_required (values m) ≤ length m
length-filter-le [] = omega arith
length-filter-le ((k, c) ∷ m) = ground (arith, length-filter-le m)

includes-keys_of_get :
    (m : Assoc Code) (agent : Text) (c : Code)
    → get m agent ≡ some c
    → includes (keys m) agent ≡ true
unfolding get includes
includes-keys_of_get [] agent c h = cc
includes-keys_of_get ((a, d) ∷ m) agent c h = ground (arith, includes-keys_of_get m agent c)

-- `selected` is a `Map`, so its keys are distinct.
module _ (selected : Assoc Code) (tier : Tier) (cap : ℕ) (u : IsUnique (keys selected)) where
  keep_lem : (apply_tier_cap selected tier cap).0 ≡ (
      if leb (length selected) (effective_cap selected cap)
      then keys selected
      else take (effective_cap selected cap) (by_priority selected))
  unfolding apply_tier_cap
  keep_lem = ground (
    arith,
    fill-take (effective_cap selected cap) (by_priority selected) (by_priority-IsUnique selected u),
  )

  -- Of a map with distinct keys every selected agent is either kept or reported as skipped, once,
  -- and no other agent is.
  pub apply_tier_cap-occurs :
      (x : Text)
      → occurs (apply_tier_cap selected tier cap).0 x
          + occurs (entry_agents (apply_tier_cap selected tier cap).1) x
        ≡ occurs (keys selected) x
  unfolding apply_tier_cap
  apply_tier_cap-occurs x =
      let most = effective_cap selected cap in
      let order = by_priority selected in
      let kept = take most order in
      ground (
        arith,
        fill-take most order (by_priority-IsUnique selected u),
        occurs-skipped_beyond most tier kept order x,
        occurs-by_priority selected x,
        IsUnique-occurs (keys selected) u x,
        includes-occurs kept x,
        occurs-take most order x,
      )

  -- Of a map with distinct keys the number of agents kept is the effective cap, or that of all agents
  -- if they are fewer.
  length-apply_tier_cap : length (apply_tier_cap selected tier cap).0 ≡ (
      if leb (length selected) (effective_cap selected cap)
      then length selected
      else effective_cap selected cap)
  length-apply_tier_cap = rw keep_lem (
      ground (
        arith,
        length-keys selected,
        length-by_priority selected,
        length-take (effective_cap selected cap) (by_priority selected),
      ))

  required_first :
      (agent : Text)
      → get selected agent ≡ some always_required
      → includes (take (effective_cap selected cap) (by_priority selected)) agent ≡ true
  unfolding by_priority effective_cap
  required_first agent h =
      let first = sort (agents_in 0 selected) in
      let rest =
        sort (agents_in 1 selected)
        ++ (sort (agents_in 2 selected) ++ sort (agents_in 3 selected)) in
      let short : length first ≤ effective_cap selected cap =
        ground (arith, length-sort (agents_in 0 selected), length-agents_in_zero selected) in
      rw (take-append (effective_cap selected cap) first rest short, includes-append)
        (ground (
          arith,
          includes-sort (agents_in 0 selected) agent,
          includes-agents_in_zero selected agent h,
        ))

  -- Of a map with distinct keys the tier cap never drops an agent that is always required.
  pub apply_tier_cap-keeps_required :
      (agent : Text)
      → get selected agent ≡ some always_required
      → includes (apply_tier_cap selected tier cap).0 agent ≡ true
  apply_tier_cap-keeps_required agent h = rw keep_lem (
      ground (arith, required_first agent h, includes-keys_of_get selected agent always_required h))
