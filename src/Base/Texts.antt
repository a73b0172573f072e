-- ===== src/Base/Texts.antt =====
-- Python's order of texts: by code points, a prefix first.
use Prim.Native.Char.{code}
use Prim.Native.String.{String}
use mathlib.Core.Path.{◌≡◌, refl, ap₂}
use mathlib.Core.Bool.{Bool, true, false}
use native.Mathlib.Omega.{arith}
use text.Mathlib.TextEquality.{Char-path}
use multi_agent_testbed.Base.Tests.{ltb, if◌then◌else◌}

-- `a <= b`
abbrev pub str_le : String → String → Bool
str_le String.[] t = true
str_le (String.◌∷◌ c s) String.[] = false
str_le (String.◌∷◌ c s) (String.◌∷◌ d t) =
    if ltb (code c) (code d) then true else if ltb (code d) (code c) then false else str_le s t

pub str_le_total : (a b : String) → str_le a b ≡ false → str_le b a ≡ true
str_le_total String.[] t h = ground arith
str_le_total (String.◌∷◌ c s) String.[] h = refl
str_le_total (String.◌∷◌ c s) (String.◌∷◌ d t) h = ground (arith, str_le_total s t)

pub str_le_trans : (a b c : String) → str_le a b ≡ true → str_le b c ≡ true → str_le a c ≡ true
str_le_trans String.[] b c h k = refl
str_le_trans (String.◌∷◌ x a) String.[] c h k = cc
str_le_trans (String.◌∷◌ x a) (String.◌∷◌ y b) String.[] h k = cc
str_le_trans (String.◌∷◌ x a) (String.◌∷◌ y b) (String.◌∷◌ z c) h k =
    ground (arith, str_le_trans a b c)

pub str_le_antisymm : (a b : String) → str_le a b ≡ true → str_le b a ≡ true → a ≡ b
str_le_antisymm String.[] String.[] h k = refl
str_le_antisymm String.[] (String.◌∷◌ y b) h k = cc
str_le_antisymm (String.◌∷◌ x a) String.[] h k = cc
str_le_antisymm (String.◌∷◌ x a) (String.◌∷◌ y b) h k =
    ap₂ String.◌∷◌ (Char-path x y (ground arith))
      (str_le_antisymm a b (ground arith) (ground arith))
