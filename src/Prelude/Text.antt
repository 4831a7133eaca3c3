-- ===== src/Prelude/Text.antt =====
-- Text operations of Python's `str` that the program applies to state names.
use Prim.Native.Nat.{ℕ, ◌-◌}
use Prim.Native.Char.{code}
use Prim.Native.String.{String}
use mathlib.Core.Bool.{Bool, true, false, ◌&&◌, ◌||◌}
use mathlib.Core.List.{List, [], ◌∷◌, map}
use ontobdc_core.Prelude.Tests.{◌==◌, leb, if◌then◌else◌}

-- The code points of a text.
abbrev pub codes : String → List ℕ
codes String.[] = []
codes (String.◌∷◌ c s) = code c ∷ codes s

unfoldable pub same_codes : List ℕ → List ℕ → Bool
same_codes [] [] = true
same_codes (x ∷ xs) (y ∷ ys) = (x == y) && same_codes xs ys
same_codes _ _ = false

module _ (drops : ℕ → Bool) where
  -- s.lstrip(chars), for the characters that `drops` accepts
  unfoldable pub lstrip : String → String
  lstrip String.[] = String.[]
  lstrip (String.◌∷◌ c s) = let rest = lstrip s in if drops (code c) then rest else String.◌∷◌ c s

  -- Are all characters dropped?
  unfoldable pub all_dropped : String → Bool
  all_dropped String.[] = true
  all_dropped (String.◌∷◌ c s) = drops (code c) && all_dropped s

  -- s.rstrip(chars)
  unfoldable pub rstrip : String → String
  rstrip String.[] = String.[]
  rstrip (String.◌∷◌ c s) =
      let rest = String.◌∷◌ c (rstrip s) in if all_dropped (String.◌∷◌ c s) then String.[] else rest

  unfoldable pub strip_by : String → String
  unfolding lstrip rstrip all_dropped
  strip_by s = rstrip (lstrip s)

-- The characters that `str.strip()` removes: `str.isspace` of one character.
unfoldable pub is_space : ℕ → Bool
is_space c =
    leb 9 c && leb c 13
    || leb 28 c && leb c 32
    || (c == 133)
    || (c == 160)
    || (c == 0x1680)
    || leb 0x2000 c && leb c 0x200a
    || (c == 0x2028)
    || (c == 0x2029)
    || (c == 0x202f)
    || (c == 0x205f)
    || (c == 0x3000)

-- s.strip()
unfoldable pub strip_spaces : String → String
unfolding strip_by is_space
strip_spaces s = strip_by is_space s

-- s.strip("_")
unfoldable pub strip_underscores : String → String
unfolding strip_by
strip_underscores s = strip_by (λ c. c == b'_') s

-- The code points of s.upper(), for ASCII texts.
unfoldable pub upper_codes : String → List ℕ
upper_codes s = map (λ c. if leb b'a' c && leb c b'z' then c - 32 else c) (codes s)
