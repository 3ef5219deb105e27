-- ===== src/Base/Text.antt =====
-- Python's `str.upper`, on ASCII texts.
use Prim.Native.Nat.{◌-◌}
use Prim.Native.Char.{Char, code}
use Prim.Native.String.{char_at}
use mathlib.Core.Bool.{◌&&◌}
use Prim.Native.String.{String}
use diep_lab.Base.Tests.{leb, if◌then◌else◌}

unfoldable pub upper_char : Char → Char
upper_char c =
    if leb b'a' (code c) && leb (code c) b'z'
    then char_at "ABCDEFGHIJKLMNOPQRSTUVWXYZ" (code c - b'a')
    else c

unfoldable pub upper : String → String
unfolding upper_char
upper String.[] = String.[]
upper (String.◌∷◌ c s) = String.◌∷◌ (upper_char c) (upper s)
