-- ===== src/Prelude/Text.antt =====
-- Python's `str` as the native text: length in code points, `strip`, and `lower` on the ASCII
-- letters.
use Prim.Native.Char.{code}
use Prim.Native.Nat.{ℕ, zero, suc, ◌+◌, ◌≤◌}
use Prim.Native.String.{String}
use mathlib.Core.Path.{◌≡◌, refl}
use mathlib.Core.Bool.{Bool, true, false, ◌&&◌, ◌||◌}
use mathlib.Core.List.{List, [], ◌∷◌}
use native.Mathlib.Omega.{arith}
use sentinel_grc.Prelude.Tests.{leb, nat_beq, if◌then◌else◌}

-- `len(value)`
unfoldable pub length : String → ℕ
length String.[] = 0
length (String.◌∷◌ c s) = suc (length s)

-- `str.isspace` of one character, for all of Unicode.
unfoldable pub is_space : ℕ → Bool
is_space c =
    (leb 9 c && leb c 13)
    || (leb 28 c && leb c 32)
    || nat_beq c 0x85
    || nat_beq c 0xa0
    || nat_beq c 0x1680
    || (leb 0x2000 c && leb c 0x200a)
    || nat_beq c 0x2028
    || nat_beq c 0x2029
    || nat_beq c 0x202f
    || nat_beq c 0x205f
    || nat_beq c 0x3000

abbrev pub is_empty : String → Bool
is_empty String.[] = true
is_empty (String.◌∷◌ _ _) = false

-- `value.lstrip()` and `value.rstrip()`
unfoldable pub lstrip : String → String
lstrip String.[] = String.[]
lstrip (String.◌∷◌ c s) = let rest = lstrip s in if is_space (code c) then rest else String.◌∷◌ c s

unfoldable pub rstrip : String → String
rstrip String.[] = String.[]
rstrip (String.◌∷◌ c s) =
    let rest = rstrip s in
    if is_space (code c) && is_empty rest then String.[] else String.◌∷◌ c rest

-- `value.strip()`
unfoldable pub strip : String → String
unfolding lstrip rstrip is_space
strip s = rstrip (lstrip s)

length-lstrip : (s : String) → length (lstrip s) ≤ length s
unfolding length lstrip
length-lstrip String.[] = omega arith
length-lstrip (String.◌∷◌ c s) = ground (arith, length-lstrip s)

length-rstrip : (s : String) → length (rstrip s) ≤ length s
unfolding length rstrip
length-rstrip String.[] = omega arith
length-rstrip (String.◌∷◌ c s) = ground (arith, length-rstrip s)

pub length-strip : (s : String) → length (strip s) ≤ length s
unfolding strip
length-strip s = omega (arith, length-rstrip (lstrip s), length-lstrip s)

rstrip_idem : (s : String) → rstrip (rstrip s) ≡ rstrip s
unfolding rstrip
rstrip_idem String.[] = refl
rstrip_idem (String.◌∷◌ c s) = ground (arith, rstrip_idem s)

-- What `lstrip` leaves begins with no space, and `rstrip` keeps it so.
lstrip-rstrip : (s : String) → lstrip (rstrip (lstrip s)) ≡ rstrip (lstrip s)
unfolding lstrip rstrip
lstrip-rstrip String.[] = refl
lstrip-rstrip (String.◌∷◌ c s) = ground (arith, lstrip-rstrip s)

pub strip_idem : (s : String) → strip (strip s) ≡ strip s
unfolding strip
strip_idem s = rw lstrip-rstrip (rstrip_idem (lstrip s))

strip_example : strip "  a b " ≡ "a b"
unfolding strip
strip_example = refl

-- The code points of `value.lower()`. Of the characters that `lower` changes, only the ASCII
-- capitals turn into a letter of the words that this is compared with.
unfoldable pub lower : String → List ℕ
lower String.[] = []
lower (String.◌∷◌ c s) = let k = code c in (if leb 65 k && leb k 90 then k + 32 else k) ∷ lower s

abbrev pub codes_eq : List ℕ → List ℕ → Bool
codes_eq [] [] = true
codes_eq (a ∷ x) (b ∷ y) = nat_beq a b && codes_eq x y
codes_eq _ _ = false

-- `value.lower() == word`, for a word in lower case.
unfoldable pub lower_is : String → String → Bool
unfolding lower
lower_is s word = codes_eq (lower s) (lower word)

lower_is_example : lower_is "HiGh" "high" ≡ true
unfolding lower_is
lower_is_example = refl

-- `value[:n]`
unfoldable pub take : ℕ → String → String
take zero s = String.[]
take (suc n) String.[] = String.[]
take (suc n) (String.◌∷◌ c s) = String.◌∷◌ c (take n s)

abbrev pub is_hex_digit : ℕ → Bool
is_hex_digit c = (leb 48 c && leb c 57) || (leb 97 c && leb c 102)

unfoldable pub all_hex : String → Bool
all_hex String.[] = true
all_hex (String.◌∷◌ c s) = is_hex_digit (code c) && all_hex s

-- A full match of `[a-f0-9]{n}`.
unfoldable pub is_hex : ℕ → String → Bool
unfolding all_hex length
is_hex n s = nat_beq (length s) n && all_hex s
