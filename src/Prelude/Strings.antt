-- ===== src/Prelude/Strings.antt =====
-- A JavaScript string: its UTF-16 code units. Equality, the order of `Array.prototype.sort`, and
-- the operations on prefixes and separators that the source uses.
use Prim.Native.Nat.{ℕ, zero, suc, ◌+◌, ◌/◌, ◌%◌}
use Prim.Native.Char.{code}
use Prim.Native.String.{String}
use mathlib.Core.Path.{◌≡◌, refl}
use mathlib.Core.Logic.{◌↔◌}
use mathlib.Core.Bool.{Bool, true, false, ◌&&◌, ◌||◌}
use mathlib.Core.Option.{Option, none, some}
use mathlib.Core.List.{List, [], ◌∷◌, ◌++◌, reverse}
use native.Mathlib.Omega.{arith}
use complytime_providers.Prelude.Tests.{ltb, leb, nat_eq, if◌then◌else◌}

abbrev pub Text : Type 0
Text = List ℕ

-- The text of an ASCII literal.
unfoldable pub txt : String → Text
txt String.[] = []
txt (String.◌∷◌ c s) = code c ∷ txt s

-- `a === b`
infix 50 ◌==◌
unfoldable pub ◌==◌ : Text → Text → Bool
[] == [] = true
[] == (y ∷ ys) = false
(x ∷ xs) == [] = false
(x ∷ xs) == (y ∷ ys) = nat_eq x y && (xs == ys)

pub ==-sound : (a b : Text) → (a == b) ≡ true → a ≡ b
unfolding ◌==◌
==-sound [] [] h = refl
==-sound [] (y ∷ ys) h = ground arith
==-sound (x ∷ xs) [] h = ground arith
==-sound (x ∷ xs) (y ∷ ys) h = ground (arith, ==-sound xs ys)

pub ==-refl : (a : Text) → (a == a) ≡ true
unfolding ◌==◌
==-refl [] = refl
==-refl (x ∷ xs) = ground (arith, ==-refl xs)

-- Equality as a fact that `ground` reads in both directions.
pub ==_iff : (a b : Text) → ((a == b) ≡ true) ↔ (a ≡ b)
==_iff a b = (==-sound a b, λ e. ground (arith, ==-refl a))

-- The order of `sort()` with no comparator: by code units.
unfoldable pub text_leb : Text → Text → Bool
text_leb [] ys = true
text_leb (x ∷ xs) [] = false
text_leb (x ∷ xs) (y ∷ ys) = if ltb x y then true else nat_eq x y && text_leb xs ys

pub text_leb-total : (a b : Text) → text_leb a b ≡ false → text_leb b a ≡ true
unfolding text_leb
text_leb-total [] b h = ground arith
text_leb-total (x ∷ xs) [] h = refl
text_leb-total (x ∷ xs) (y ∷ ys) h = ground (arith, text_leb-total xs ys)

pub text_leb_trans :
    (a b c : Text) → text_leb a b ≡ true → text_leb b c ≡ true → text_leb a c ≡ true
unfolding text_leb
text_leb_trans [] b c h k = refl
text_leb_trans (x ∷ xs) [] c h k = ground arith
text_leb_trans (x ∷ xs) (y ∷ ys) [] h k = ground arith
text_leb_trans (x ∷ xs) (y ∷ ys) (z ∷ zs) h k = ground (arith, text_leb_trans xs ys zs)

-- `s.startsWith(p)`
unfoldable pub starts_with : Text → Text → Bool
starts_with s [] = true
starts_with [] (p ∷ ps) = false
starts_with (c ∷ s) (p ∷ ps) = nat_eq c p && starts_with s ps

-- `s.includes(p)`
unfoldable pub contains : Text → Text → Bool
unfolding starts_with
contains [] p = starts_with [] p
contains (c ∷ s) p = starts_with (c ∷ s) p || contains s p

pub starts_with-append : (p s : Text) → starts_with (p ++ s) p ≡ true
unfolding starts_with
starts_with-append [] s = refl
starts_with-append (c ∷ p) s = ground (arith, starts_with-append p s)

-- The digits of `String(n)`; the fuel `n` is more than the number of digits of `n`.
decimal_from : ℕ → ℕ → Text
decimal_from zero n = (48 + n % 10) ∷ []
decimal_from (suc f) n =
    let more = decimal_from f (n / 10) in
    if ltb n 10 then (48 + n) ∷ [] else more ++ (48 + n % 10) ∷ []

unfoldable pub decimal : ℕ → Text
unfolding decimal_from
decimal n = decimal_from n n

-- `\s` of a regular expression, and what `trim` removes.
unfoldable pub is_space : ℕ → Bool
is_space c =
    (leb 9 c && leb c 13)
    || nat_eq c 32
    || nat_eq c 160
    || nat_eq c 0x1680
    || (leb 0x2000 c && leb c 0x200a)
    || nat_eq c 0x2028
    || nat_eq c 0x2029
    || nat_eq c 0x202f
    || nat_eq c 0x205f
    || nat_eq c 0x3000
    || nat_eq c 0xfeff

unfoldable pub trim_start : Text → Text
unfolding is_space
trim_start [] = []
trim_start (c ∷ s) = if is_space c then trim_start s else c ∷ s

-- `s.trim()`
unfoldable pub trim : Text → Text
unfolding trim_start
trim s = reverse (trim_start (reverse (trim_start s)))

collapse_after : Bool → Text → Text
unfolding is_space
collapse_after spaced [] = []
collapse_after spaced (c ∷ s) =
    let rest = collapse_after (is_space c) s in
    if is_space c then (if spaced then rest else 32 ∷ rest) else c ∷ rest

-- `s.replace(/\s+/g, " ")`
unfoldable pub collapse_spaces : Text → Text
unfolding collapse_after
collapse_spaces s = collapse_after false s

-- `s.replaceAll("\\", "/")`
unfoldable pub forward_slashes : Text → Text
forward_slashes [] = []
forward_slashes (c ∷ s) = (if nat_eq c b'\\' then b'/' else c) ∷ forward_slashes s

-- A code unit in front of the first part.
onto_first : ℕ → List Text → List Text
onto_first c [] = []
onto_first c (part ∷ parts) = (c ∷ part) ∷ parts

-- `a.split(c)`, for a separator of one code unit
unfoldable pub split : ℕ → Text → List Text
unfolding onto_first
split sep [] = [] ∷ []
split sep (c ∷ s) =
    let parts = split sep s in if nat_eq c sep then [] ∷ parts else onto_first c parts

-- `parts.join(sep)`
unfoldable pub join : Text → List Text → Text
join sep [] = []
join sep (p ∷ []) = p
join sep (p ∷ q ∷ ps) = p ++ sep ++ join sep (q ∷ ps)

-- The parts of the runtime's tables that the source calls: case mapping, normalisation to NFC, the
-- collation of `localeCompare`, `Date.parse` (`none` for NaN, else milliseconds from the first
-- instant that a Date can hold), and `JSON.stringify` of a string.
pub record Runtime : Type 0 where
  pub lower : Text → Text
  pub nfc : Text → Text
  pub locale_leb : Text → Text → Bool
  pub date_parse : Text → Option ℕ
  pub stringify : Text → Text

-- `s.endsWith(p)`
unfoldable pub ends_with : Text → Text → Bool
unfolding starts_with
ends_with s p = starts_with (reverse s) (reverse p)

-- The parts before and behind the last `/`, if there is one.
unfoldable pub at_last_slash : Text → Option (Text × Text)
at_last_slash [] = none
at_last_slash (c ∷ s) = elim (at_last_slash s) [
  | some (before, behind) ↦ some (c ∷ before, behind)
  | none ↦ if nat_eq c b'/' then some ([], s) else none
]

-- The characters that `.` of a regular expression does not match.
abbrev pub ends_line : ℕ → Bool
ends_line c = nat_eq c 10 || nat_eq c 13 || nat_eq c 0x2028 || nat_eq c 0x2029
