-- ===== src/Base/Utf8.antt =====
-- The UTF-8 bytes of a `str` read as characters, and `str::from_utf8`'s test.
use Prim.Native.Nat.{ℕ, zero, suc, ◌+◌, ◌-◌, ◌*◌}
use mathlib.Core.Bool.{Bool, ◌&&◌, ◌||◌}
use mathlib.Core.List.{List, [], ◌∷◌}
use blobyard_core.Base.Tests.{leb, ltb, ◌==◌, if◌then◌else◌}
use blobyard_core.Base.Lists.{any}
use blobyard_core.Base.Text.{Str}

-- How many bytes follow a first byte, and the bits that it carries.
tail_bytes : ℕ → ℕ
tail_bytes b = if ltb b 0x80 then 0 else if ltb b 0xe0 then 1 else if ltb b 0xf0 then 2 else 3

lead_bits : ℕ → ℕ
lead_bits b =
    if ltb b 0x80
    then b
    else if ltb b 0xe0
    then b - 0xc0
    else if ltb b 0xf0
    then b - 0xe0
    else b - 0xf0

emit : ℕ → ℕ → List ℕ → List ℕ
emit zero c cs = c ∷ cs
emit (suc n) c cs = cs

-- `n` bytes of the character are still to come, and `acc` holds its bits so far.
chars_from : ℕ → ℕ → Str → List ℕ
unfolding tail_bytes lead_bits emit
chars_from n acc [] = []
chars_from zero acc (b ∷ s) =
    emit (tail_bytes b) (lead_bits b) (chars_from (tail_bytes b) (lead_bits b) s)
chars_from (suc n) acc (b ∷ s) =
    emit n (acc * 64 + (b - 0x80)) (chars_from n (acc * 64 + (b - 0x80)) s)

-- `str::chars`, as scalar values.
unfoldable pub chars : Str → List ℕ
unfolding chars_from
chars s = chars_from 0 0 s

-- `char::is_control`: the category Cc.
abbrev pub is_control : ℕ → Bool
is_control c = ltb c 0x20 || (leb 0x7f c && leb c 0x9f)

-- `char::is_whitespace`: the property White_Space.
abbrev pub is_whitespace : ℕ → Bool
is_whitespace c =
    (leb 9 c && leb c 13)
    || c == 0x20
    || c == 0x85
    || c == 0xa0
    || c == 0x1680
    || (leb 0x2000 c && leb c 0x200a)
    || c == 0x2028
    || c == 0x2029
    || c == 0x202f
    || c == 0x205f
    || c == 0x3000

unfoldable pub has_control : Str → Bool
unfolding chars
has_control s = any is_control (chars s)

-- The bytes that may follow: how many, and the bounds of the next one. Zero low bound: none may.
lowest_next : ℕ → ℕ
lowest_next b = if b == 0xe0 then 0xa0 else if b == 0xf0 then 0x90 else 0x80

highest_next : ℕ → ℕ
highest_next b = if b == 0xed then 0x9f else if b == 0xf4 then 0x8f else 0xbf

is_lead : ℕ → Bool
is_lead b = ltb b 0x80 || (leb 0xc2 b && leb b 0xf4)

utf8_from : ℕ → ℕ → ℕ → Str → Bool
unfolding tail_bytes lowest_next highest_next is_lead
utf8_from n lo hi [] = n == 0
utf8_from zero lo hi (b ∷ s) =
    is_lead b && utf8_from (tail_bytes b) (lowest_next b) (highest_next b) s
utf8_from (suc n) lo hi (b ∷ s) = leb lo b && leb b hi && utf8_from n 0x80 0xbf s

unfoldable pub is_utf8 : Str → Bool
unfolding utf8_from
is_utf8 s = utf8_from 0 0 0 s
