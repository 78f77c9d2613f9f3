-- ===== src/Prelude/Sets.antt =====
-- The `Set` and the `Map` of JavaScript, in insertion order, and `sort`.
use Prim.Native.Nat.{ℕ, suc, ◌+◌, ◌≤◌}
use mathlib.Core.Path.{◌≡◌, refl, ap, ◌∙◌}
use mathlib.Core.Logic.{inl, inr}
use mathlib.Core.Bool.{Bool, true, false, not, ◌&&◌, ◌||◌}
use mathlib.Core.Option.{Option, none, some}
use mathlib.Core.List.{List, [], ◌∷◌, ◌++◌, Perm}
use mathlib.Core.List.Perm
use native.Mathlib.Omega.{arith}
use complytime_providers.Prelude.Tests.{ltb, if◌then◌else◌, Bool-cases}
use complytime_providers.Prelude.Lists.{All, length, filter, count, count-append}
use complytime_providers.Prelude.Strings.{Text, ◌==◌, ==_iff, ==-refl, text_leb}

-- `xs.includes(x)`, and `has` of a set
unfoldable pub includes : List Text → Text → Bool
includes [] x = false
includes (y ∷ ys) x = y == x || includes ys x

-- `set.add(x)`
unfoldable pub add : List Text → Text → List Text
unfolding includes
add s x = if includes s x then s else s ++ x ∷ []

unfoldable pub add_all : List Text → List Text → List Text
unfolding add
add_all s [] = s
add_all s (x ∷ xs) = add_all (add s x) xs

-- `[...new Set(xs)]`
unfoldable pub set_of : List Text → List Text
unfolding add_all
set_of xs = add_all [] xs

pub includes-append :
    (xs ys : List Text) (x : Text) → includes (xs ++ ys) x ≡ (includes xs x || includes ys x)
unfolding includes
includes-append [] ys x = refl
includes-append (y ∷ xs) ys x = ground (arith, includes-append xs ys x)

pub includes-add : (s : List Text) (x y : Text) → includes (add s x) y ≡ (includes s y || x == y)
unfolding add includes
includes-add s x y = ground (arith, includes-append s (x ∷ []) y, ==_iff x y)

pub includes-add_all :
    (s xs : List Text) (y : Text) → includes (add_all s xs) y ≡ (includes s y || includes xs y)
unfolding add_all includes
includes-add_all s [] y = ground arith
includes-add_all s (x ∷ xs) y = ground (arith, includes-add_all (add s x) xs y, includes-add s x y)

pub includes-set_of : (xs : List Text) (y : Text) → includes (set_of xs) y ≡ includes xs y
unfolding set_of includes
includes-set_of xs y = includes-add_all [] xs y

-- No text stands twice.
abbrev pub IsUnique : List Text → Type 0
IsUnique [] = Unit
IsUnique (x ∷ xs) = (includes xs x ≡ false) × IsUnique xs

pub IsUnique-append_one :
    (xs : List Text) (x : Text) → IsUnique xs → includes xs x ≡ false → IsUnique (xs ++ x ∷ [])
unfolding includes
IsUnique-append_one [] x u h = (refl, tt)
IsUnique-append_one (y ∷ xs) x u h = (
  ground (arith, includes-append xs (x ∷ []) y, ==_iff x y, ==_iff y x),
  IsUnique-append_one xs x u.1 (ground arith),
)

pub add-IsUnique : (s : List Text) (x : Text) → IsUnique s → IsUnique (add s x)
unfolding add
add-IsUnique s x u = elim (Bool-cases (includes s x)) [
  | inl old ↦ rw old u
  | inr new ↦ rw new (IsUnique-append_one s x u new)
]

pub add_all-IsUnique : (s xs : List Text) → IsUnique s → IsUnique (add_all s xs)
unfolding add_all
add_all-IsUnique s [] u = u
add_all-IsUnique s (x ∷ xs) u = add_all-IsUnique (add s x) xs (add-IsUnique s x u)

pub set_of-IsUnique : (xs : List Text) → IsUnique (set_of xs)
unfolding set_of
set_of-IsUnique xs = add_all-IsUnique [] xs tt

-- A stable sort by a comparison; `sort()` compares code units.
insert_by {ℓ} : {A : Type ℓ} → (A → A → Bool) → A → List A → List A
insert_by le x [] = x ∷ []
insert_by le x (y ∷ ys) = if le x y then x ∷ y ∷ ys else y ∷ insert_by le x ys

unfoldable pub sort_by {ℓ} : {A : Type ℓ} → (A → A → Bool) → List A → List A
unfolding insert_by
sort_by le [] = []
sort_by le (x ∷ xs) = insert_by le x (sort_by le xs)

unfoldable pub sort : List Text → List Text
unfolding sort_by text_leb
sort xs = sort_by text_leb xs

insert_by-perm {ℓ} :
    {A : Type ℓ} (le : A → A → Bool) (x : A) (ys : List A) → Perm (insert_by le x ys) (x ∷ ys)
unfolding insert_by
insert_by-perm le x [] = Perm.rfl
insert_by-perm le x (y ∷ ys) = elim (Bool-cases (le x y)) [
  | inl here ↦ rw here Perm.rfl
  | inr later ↦ rw later (Perm.trans (Perm.cons y (insert_by-perm le x ys)) (Perm.swap x y ys))
]

pub sort_by-perm {ℓ} : {A : Type ℓ} (le : A → A → Bool) (xs : List A) → Perm (sort_by le xs) xs
unfolding sort_by
sort_by-perm le [] = Perm.rfl
sort_by-perm le (x ∷ xs) =
    Perm.trans (insert_by-perm le x (sort_by le xs)) (Perm.cons x (sort_by-perm le xs))

All-insert_by {ℓ} :
    {A : Type ℓ} (P : A → Type 0) (le : A → A → Bool) (x : A) (xs : List A)
    → P x
    → All P xs
    → All P (insert_by le x xs)
unfolding insert_by
All-insert_by P le x [] h k = (h, tt)
All-insert_by P le x (y ∷ ys) h k = elim (Bool-cases (le x y)) [
  | inl here ↦ rw here (h, k)
  | inr later ↦ rw later (k.0, All-insert_by P le x ys h k.1)
]

pub All-sort_by {ℓ} :
    {A : Type ℓ} (P : A → Type 0) (le : A → A → Bool) (xs : List A)
    → All P xs
    → All P (sort_by le xs)
unfolding sort_by
All-sort_by P le [] h = tt
All-sort_by P le (x ∷ xs) h = All-insert_by P le x (sort_by le xs) h.0 (All-sort_by P le xs h.1)

insert_by-length {ℓ} :
    {A : Type ℓ} (le : A → A → Bool) (x : A) (ys : List A)
    → length (insert_by le x ys) ≡ suc (length ys)
unfolding insert_by
insert_by-length le x [] = refl
insert_by-length le x (y ∷ ys) = ground (arith, insert_by-length le x ys)

pub length-sort_by {ℓ} :
    {A : Type ℓ} (le : A → A → Bool) (xs : List A) → length (sort_by le xs) ≡ length xs
unfolding sort_by
length-sort_by le [] = refl
length-sort_by le (x ∷ xs) = insert_by-length le x (sort_by le xs) ∙ ap suc (length-sort_by le xs)

includes-insert_by :
    (le : Text → Text → Bool) (x : Text) (ys : List Text) (z : Text)
    → includes (insert_by le x ys) z ≡ (x == z || includes ys z)
unfolding insert_by includes
includes-insert_by le x [] z = refl
includes-insert_by le x (y ∷ ys) z = ground (arith, includes-insert_by le x ys z)

pub includes-sort : (xs : List Text) (z : Text) → includes (sort xs) z ≡ includes xs z
unfolding sort includes
includes-sort [] z = refl
includes-sort (x ∷ xs) z =
    ground (arith, includes-insert_by text_leb x (sort_by text_leb xs) z, includes-sort xs z)

insert_by-IsUnique :
    (x : Text) (ys : List Text)
    → includes ys x ≡ false
    → IsUnique ys
    → IsUnique (insert_by text_leb x ys)
unfolding insert_by includes
insert_by-IsUnique x [] h u = (refl, tt)
insert_by-IsUnique x (y ∷ ys) h u = elim (Bool-cases (text_leb x y)) [
  | inl here ↦ rw here (h, u)
  | inr later ↦ rw later (
    ground (arith, includes-insert_by text_leb x ys y, ==_iff x y, ==_iff y x),
    insert_by-IsUnique x ys (ground arith) u.1,
  )
]

pub sort-IsUnique : (xs : List Text) → IsUnique xs → IsUnique (sort xs)
unfolding sort
sort-IsUnique [] u = tt
sort-IsUnique (x ∷ xs) u =
    insert_by-IsUnique x (sort_by text_leb xs) (includes-sort xs x ∙ u.0) (sort-IsUnique xs u.1)

pub length-sort : (xs : List Text) → length (sort xs) ≡ length xs
unfolding sort
length-sort xs = length-sort_by text_leb xs

-- `new Map()`, an association list in the order of the keys' first insertion.
abbrev pub Assoc {ℓ} : Type ℓ → Type ℓ
Assoc V = List (Text × V)

module _ {ℓ} {V : Type ℓ} where
  -- `map.get(k)`
  unfoldable pub get : Assoc V → Text → Option V
  get [] k = none
  get ((j, v) ∷ m) k = if j == k then some v else get m k

  -- `map.set(k, v)`
  unfoldable pub put : Assoc V → Text → V → Assoc V
  put [] k v = (k, v) ∷ []
  put ((j, w) ∷ m) k v = if j == k then (j, v) ∷ m else (j, w) ∷ put m k v

  -- `[...map.keys()]`
  abbrev pub keys : Assoc V → List Text
  keys [] = []
  keys ((k, v) ∷ m) = k ∷ keys m

  -- `[...map.values()]`
  abbrev pub values : Assoc V → List V
  values [] = []
  values ((k, v) ∷ m) = v ∷ values m

  pub get-put :
      (m : Assoc V) (k j : Text) (v : V) → get (put m k v) j ≡ (if k == j then some v else get m j)
  unfolding get put
  get-put [] k j v = refl
  get-put ((i, w) ∷ m) k j v = ground (arith, ==_iff k j, ==_iff i k, ==_iff i j, get-put m k j v)

  pub includes-keys-put :
      (m : Assoc V) (k j : Text) (v : V)
      → includes (keys (put m k v)) j ≡ (k == j || includes (keys m) j)
  unfolding includes put
  includes-keys-put [] k j v = refl
  includes-keys-put ((i, w) ∷ m) k j v =
      ground (arith, ==_iff k j, ==_iff i k, ==_iff i j, includes-keys-put m k j v)

  pub keys-put-IsUnique :
      (m : Assoc V) (k : Text) (v : V) → IsUnique (keys m) → IsUnique (keys (put m k v))
  unfolding put includes
  keys-put-IsUnique [] k v u = (refl, tt)
  keys-put-IsUnique ((i, w) ∷ m) k v u = elim (Bool-cases (i == k)) [
    | inl same ↦ rw same u
    | inr other ↦ rw other (
      ground (arith, includes-keys-put m k i v, ==_iff k i, ==_iff i k),
      keys-put-IsUnique m k v u.1,
    )
  ]

-- How often a text stands in a list.
abbrev pub occurs : List Text → Text → ℕ
occurs xs x = count (λ y. y == x) xs

pub occurs-append : (xs ys : List Text) (x : Text) → occurs (xs ++ ys) x ≡ occurs xs x + occurs ys x
occurs-append xs ys x = count-append (λ y. y == x) xs ys

occurs-insert_by :
    (le : Text → Text → Bool) (y : Text) (ys : List Text) (x : Text)
    → occurs (insert_by le y ys) x ≡ occurs (y ∷ ys) x
unfolding insert_by
occurs-insert_by le y [] x = refl
occurs-insert_by le y (z ∷ ys) x = ground (arith, occurs-insert_by le y ys x)

pub occurs-sort : (xs : List Text) (x : Text) → occurs (sort xs) x ≡ occurs xs x
unfolding sort
occurs-sort [] x = refl
occurs-sort (y ∷ xs) x =
    ground (arith, occurs-insert_by text_leb y (sort_by text_leb xs) x, occurs-sort xs x)

pub includes-occurs : (xs : List Text) (x : Text) → includes xs x ≡ ltb 0 (occurs xs x)
unfolding includes
includes-occurs [] x = refl
includes-occurs (y ∷ xs) x = ground (arith, includes-occurs xs x)

pub IsUnique-occurs : (xs : List Text) → IsUnique xs → (x : Text) → occurs xs x ≤ 1
IsUnique-occurs [] u x = omega arith
IsUnique-occurs (y ∷ xs) u x =
    ground (arith, includes-occurs xs y, IsUnique-occurs xs u.1 x, ==_iff y x)

pub IsUnique-of_occurs : (xs : List Text) → ((x : Text) → occurs xs x ≤ 1) → IsUnique xs
IsUnique-of_occurs [] h = tt
IsUnique-of_occurs (y ∷ xs) h = (
  ground (arith, includes-occurs xs y, h y, ==-refl y),
  IsUnique-of_occurs xs (λ x. ground (arith, h x)),
)

pub includes_append_false :
    (xs ys : List Text) (x : Text) → IsUnique (xs ++ x ∷ ys) → includes xs x ≡ false
includes_append_false xs ys x u = ground (
  arith,
  IsUnique-occurs (xs ++ x ∷ ys) u x,
  occurs-append xs (x ∷ ys) x,
  includes-occurs xs x,
  ==-refl x,
)

length-without :
    (xs : List Text) (x : Text) → length (filter (λ y. not (y == x)) xs) + occurs xs x ≡ length xs
length-without [] x = refl
length-without (y ∷ xs) x = ground (arith, length-without xs x)

includes-without :
    (xs : List Text) (x y : Text)
    → includes (filter (λ z. not (z == x)) xs) y ≡ (includes xs y && not (y == x))
unfolding includes
includes-without [] x y = ground arith
includes-without (z ∷ xs) x y = ground (arith, includes-without xs x y, ==_iff z y)

-- Texts without repetition that stand in a list are at most as many as its.
pub length-IsUnique :
    (xs ys : List Text)
    → IsUnique xs
    → ((x : Text) → includes xs x ≡ true → includes ys x ≡ true)
    → length xs ≤ length ys
unfolding includes
length-IsUnique [] ys u h = omega arith
length-IsUnique (x ∷ xs) ys u h =
    let rest = filter (λ y. not (y == x)) ys in
    let smaller : length xs ≤ length rest =
      length-IsUnique xs rest u.1
        (λ y k. ground (arith, includes-without ys x y, h y, k, u.0, ==_iff y x)) in
    ground (arith, smaller, length-without ys x, includes-occurs ys x, h x, ==-refl x)

count-insert_by {ℓ} :
    {A : Type ℓ} (p : A → Bool) (le : A → A → Bool) (x : A) (xs : List A)
    → count p (insert_by le x xs) ≡ count p (x ∷ xs)
unfolding insert_by
count-insert_by p le x [] = refl
count-insert_by p le x (y ∷ xs) = ground (arith, count-insert_by p le x xs)

pub count-sort_by {ℓ} :
    {A : Type ℓ} (p : A → Bool) (le : A → A → Bool) (xs : List A)
    → count p (sort_by le xs) ≡ count p xs
unfolding sort_by
count-sort_by p le [] = refl
count-sort_by p le (x ∷ xs) =
    ground (arith, count-insert_by p le x (sort_by le xs), count-sort_by p le xs)

pub count-filter {ℓ} :
    {A : Type ℓ} (p q : A → Bool) (xs : List A) → count p (filter q xs) ≤ count p xs
count-filter p q [] = omega arith
count-filter p q (x ∷ xs) = ground (arith, count-filter p q xs)
