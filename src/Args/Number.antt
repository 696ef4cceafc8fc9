-- ===== src/Args/Number.antt =====
-- `strtoull(s, nullptr, 0)` and `strtoul` of the C library, as both testbenches read numbers: blanks
-- and a sign, then a decimal, octal (`0`) or hexadecimal (`0x`) number up to the first other
-- character. A value past 64 bits gives 2 ^ 64 - 1, and a minus sign negates modulo 2 ^ 64.
use qinglong_core.Prelude.{
  ℕ, ◌+◌, ◌-◌, ◌*◌, ◌%◌, ◌^◌, leb, ltb, ◌==◌, if◌then◌else◌, Bool, false, ◌&&◌, ◌||◌, Bytes, [],
  ◌∷◌, Option, none, some,
}

abbrev is_blank : ℕ → Bool
is_blank c = c == 32 || (leb 9 c && leb c 13)

-- The value of a digit in bases up to 16; 99 for any other character.
unfoldable pub digit_of : ℕ → ℕ
digit_of c =
    if leb b'0' c && leb c b'9'
    then c - b'0'
    else if leb b'a' c && leb c b'f'
    then c - 87
    else if leb b'A' c && leb c b'F'
    then c - 55
    else 99

unfoldable pub scan : ℕ → Bytes → ℕ → ℕ
unfolding digit_of
scan base [] acc = acc
scan base (c ∷ s) acc =
    let more = scan base s (acc * base + digit_of c) in if ltb (digit_of c) base then more else acc

unfoldable pub starts_hex : Bytes → Bool
unfolding digit_of
starts_hex (x ∷ d ∷ s) = (x == b'x' || x == b'X') && ltb (digit_of d) 16
starts_hex _ = false

-- Past a leading `0`: hexadecimal, or octal.
unfoldable pub magnitude : Bytes → ℕ
unfolding scan starts_hex
magnitude [] = 0
magnitude (c ∷ []) = scan 10 (c ∷ []) 0
magnitude (c ∷ x ∷ s) =
    if c == b'0'
    then (if starts_hex (x ∷ s) then scan 16 s 0 else scan 8 (x ∷ s) 0)
    else scan 10 (c ∷ x ∷ s) 0

abbrev saturate : ℕ → ℕ
saturate v = if ltb v (2 ^ 64) then v else 2 ^ 64 - 1

abbrev negate : ℕ → ℕ
negate v = if ltb v (2 ^ 64) then (2 ^ 64 - v) % 2 ^ 64 else 2 ^ 64 - 1

unfoldable pub signed : Bytes → ℕ
unfolding magnitude
signed [] = 0
signed (c ∷ s) =
    if c == b'-'
    then negate (magnitude s)
    else if c == b'+'
    then saturate (magnitude s)
    else saturate (magnitude (c ∷ s))

unfoldable pub strtoull : Bytes → ℕ
unfolding signed
strtoull [] = 0
strtoull (c ∷ s) = let rest = strtoull s in if is_blank c then rest else signed (c ∷ s)

-- `s ? strtoull(s, nullptr, 0) : d`, for a pointer that may be null.
abbrev pub number_or : Option Bytes → ℕ → ℕ
number_or none d = d
number_or (some s) d = strtoull s
