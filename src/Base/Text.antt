-- ===== src/Base/Text.antt =====
-- The text operations of the language that the program uses: `===`, `trim` and truthiness.
use Prim.Native.Char.{Char, code}
use Prim.Native.String.{String, ◌++◌}
use Prim.Native.Nat.{ℕ}
use mathlib.Core.Path.{◌≡◌, refl}
use mathlib.Core.Bool.{Bool, true, false, ◌||◌, ◌&&◌, not}
use mathlib.Core.Option.{Option, none, some}
use text.Mathlib.Text.{◌==◌}
use open_residency.Base.Tests
use open_residency.Base.Tests.{leb, if◌then◌else◌, Bool-cases}

-- `a === b` on strings
abbrev pub str_eq : String → String → Bool
str_eq a b = a == b

-- The white space and line terminators that `String.prototype.trim` removes.
abbrev in_range : ℕ → ℕ → ℕ → Bool
in_range lo hi c = leb lo c && leb c hi

unfoldable pub is_space : Char → Bool
is_space ch =
    let c = code ch in
    in_range 0x09 0x0d c
    || Tests.◌==◌ c 0x20
    || Tests.◌==◌ c 0xa0
    || Tests.◌==◌ c 0x1680
    || in_range 0x2000 0x200a c
    || in_range 0x2028 0x2029 c
    || Tests.◌==◌ c 0x202f
    || Tests.◌==◌ c 0x205f
    || Tests.◌==◌ c 0x3000
    || Tests.◌==◌ c 0xfeff

-- `!!s`: a string is falsy when it is empty.
abbrev pub truthy : String → Bool
truthy String.[] = false
truthy (String.◌∷◌ c s) = true

unfoldable pub trim_start : String → String
trim_start String.[] = String.[]
trim_start (String.◌∷◌ c s) = let rest = trim_start s in if is_space c then rest else String.◌∷◌ c s

unfoldable pub trim_end : String → String
trim_end String.[] = String.[]
trim_end (String.◌∷◌ c s) =
    let rest = trim_end s in
    if is_space c && not (truthy rest) then String.[] else String.◌∷◌ c rest

-- `s.trim()`
unfoldable pub trim : String → String
unfolding trim_start trim_end is_space
trim s = trim_start (trim_end s)

-- `!!o?.trim()`
abbrev pub given : Option String → Bool
given none = false
given (some s) = truthy (trim s)

-- `o!.trim()`, of a value that a guard has found to be there
abbrev pub trimmed : Option String → String
trimmed none = String.[]
trimmed (some s) = trim s

pub given-trimmed : (r : Option String) → given r ≡ true → truthy (trimmed r) ≡ true
given-trimmed none h = cc
given-trimmed (some s) h = h

trim_test : trim " \ta b\n" ≡ "a b"
unfolding trim
trim_test = refl

-- A template literal joins its parts.
infixr 65 ◌&◌
abbrev pub ◌&◌ : String → String → String
a & b = a ++ b
