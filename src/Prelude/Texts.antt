-- ===== src/Prelude/Texts.antt =====
-- Texts that the program only compares: action names, node keys, context keys.
use Prim.Native.String.{String}
use mathlib.Core.Bool.{Bool, true, false, ◌||◌, ◌&&◌}
use mathlib.Core.List.{List, [], ◌∷◌, reverse}
use Prim.Native.Nat.{ℕ, ◌+◌}
use Prim.Native.Char.{code}
use mathlib.Core.Option.{Option, none, some}
use burkham_wickmont_operati.Prelude.Tests.{if◌then◌else◌, leb, ◌==◌}
use burkham_wickmont_operati.Prelude.Lists.{all}
use native.Mathlib.Omega.{arith}
use mathlib.Core.Path.{◌≡◌}
pub use Prim.Native.String.{◌++◌ as str_append}
pub use text.Mathlib.Text.{◌==◌ as str_eq}
pub use text.Mathlib.TextEquality.{eq_iff}
pub use text.Mathlib.TextPositions.{eq_refl}

-- `list.includes(name)` on a list of texts
abbrev pub includes : List String → String → Bool
includes [] s = false
includes (x ∷ xs) s = str_eq s x || includes xs s

-- an own property of an object literal
module _ {ℓ} {V : Type ℓ} where
  abbrev pub own_property : List (String × V) → String → Option V
  own_property [] k = none
  own_property ((j, v) ∷ m) k = if str_eq k j then some v else own_property m k

-- What holds of every listed text holds of each text that the list includes.
pub all-includes :
    (p : String → Bool) (xs : List String) (a : String)
    → all p xs ≡ true
    → includes xs a ≡ true
    → p a ≡ true
all-includes p [] a h m = cc
all-includes p (x ∷ xs) a h m = ground (arith, eq_iff a x, all-includes p xs a)

-- The UTF-16 length of a text after `trim()`, over its code points.
abbrev pub codes : String → List ℕ
codes String.[] = []
codes (String.◌∷◌ c s) = code c ∷ codes s

-- ECMAScript white space and line terminators
unfoldable pub is_white_space : ℕ → Bool
is_white_space c =
    (leb 9 c && leb c 13)
    || (c == 32)
    || (c == 160)
    || (c == 0x1680)
    || (leb 0x2000 c && leb c 0x200a)
    || (c == 0x2028)
    || (c == 0x2029)
    || (c == 0x202f)
    || (c == 0x205f)
    || (c == 0x3000)
    || (c == 0xfeff)

abbrev drop_spaces : List ℕ → List ℕ
drop_spaces [] = []
drop_spaces (c ∷ cs) = if is_white_space c then drop_spaces cs else c ∷ cs

unfoldable pub trim : List ℕ → List ℕ
unfolding is_white_space
trim cs = reverse (drop_spaces (reverse (drop_spaces cs)))

abbrev utf16_length : List ℕ → ℕ
utf16_length [] = 0
utf16_length (c ∷ cs) = (if leb 0x10000 c then 2 else 1) + utf16_length cs

unfoldable pub trimmed_length : String → ℕ
unfolding trim
trimmed_length s = utf16_length (trim (codes s))

-- `s.trim() === ''`
unfoldable pub is_blank : String → Bool
unfolding trimmed_length
is_blank s = trimmed_length s == 0

abbrev pub begins : List ℕ → List ℕ → Bool
begins [] text = true
begins (c ∷ cs) [] = false
begins (c ∷ cs) (d ∷ ds) = (c == d) && begins cs ds

-- `text.includes(part)`
unfoldable pub has_part : List ℕ → List ℕ → Bool
has_part part [] = begins part []
has_part part (d ∷ ds) = begins part (d ∷ ds) || has_part part ds
