-- ===== src/Packs/Python.antt =====
-- What the packs use of Python: `strip`, and `str` and `float` of a JSON value.
use Prim.Native.Char.{Char, code}
use multi_agent_testbed.Base.{
  ◌*◌, String, Bool, true, false, ◌&&◌, ◌||◌, Option, none, some, [], ◌∷◌, ℤ, pos, if◌then◌else◌,
  leb, ◌==◌, str_eq, any, negsuc,
}
use multi_agent_testbed.Contracts.Ids.{
  Json, null, bool, num, real, text, not_finite, NotFinite, minus_infinite,
}

-- A float: a number, in millionths, or none.
pub data Float : Type 0 where
  finite : ℤ → Float
  special : NotFinite → Float

-- What `str` writes for a number or a container, and the float that `float` reads from a text;
-- `none` is the `ValueError`. The texts "nan" and "inf" are read as such.
pub record Python : Type 0 where
  pub repr : Json → String
  pub parse_float : String → Option Float

-- `str.isspace`, of one character
abbrev pub is_space : Char → Bool
is_space c =
    leb 9 (code c) && leb (code c) 13
    || leb 28 (code c) && leb (code c) 32
    || leb 8192 (code c) && leb (code c) 8202
    || any (λ n. n == code c) (133 ∷ 160 ∷ 5760 ∷ 8232 ∷ 8233 ∷ 8239 ∷ 8287 ∷ 12288 ∷ [])

abbrev pub strip_left : String → String
strip_left String.[] = ""
strip_left (String.◌∷◌ c s) = if is_space c then strip_left s else String.◌∷◌ c s

abbrev pub strip_right : String → String
strip_right String.[] = ""
strip_right (String.◌∷◌ c s) =
    let rest = strip_right s in if is_space c && str_eq rest "" then "" else String.◌∷◌ c rest

-- `str.strip`
abbrev pub strip : String → String
strip s = strip_right (strip_left s)

-- `str(value)`
abbrev pub str_of : Python → Json → String
str_of py (text s) = s
str_of py null = "None"
str_of py (bool true) = "True"
str_of py (bool false) = "False"
str_of py v = py.repr v

-- `float(value)`; `none` is the `TypeError` or `ValueError`.
abbrev pub float_of : Python → Json → Option Float
float_of py (num n) = some (finite (pos (n * 1000000)))
float_of py (real z) = some (finite z)
float_of py (not_finite x) = some (special x)
float_of py (bool true) = some (finite (pos 1000000))
float_of py (bool false) = some (finite (pos 0))
float_of py (text s) = py.parse_float s
float_of py _ = none

-- `x < 0`
abbrev pub is_below_zero : Float → Bool
is_below_zero (finite (negsuc n)) = true
is_below_zero (special minus_infinite) = true
is_below_zero _ = false

-- A float among the values of a dictionary.
abbrev pub float_json : Float → Json
float_json (finite z) = real z
float_json (special x) = not_finite x

abbrev pub is_null : Json → Bool
is_null null = true
is_null _ = false
