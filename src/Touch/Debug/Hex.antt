-- ===== src/Touch/Debug/Hex.antt =====
-- hex_to_int and hex_to_u8 of packages/axs-touch/src/axs_debug.c, which are only called for two
-- digits, and the digits as they are printed.
use ugreen_frontpanel.Base.{
  ℕ, zero, suc, ◌+◌, ◌-◌, ◌*◌, ◌/◌, ◌%◌, ◌<◌, ◌≡◌, refl, ap, sym, ◌∙◌, ◌&&◌, List, [], ◌∷◌, leb,
  ltb, if◌then◌else◌, get_elem?, Option, none, some, arith,
}

-- The letters go on after `f`.
abbrev pub hex_digit : ℕ → Option ℕ
hex_digit c =
    if leb b'0' c && leb c b'9'
    then some (c - b'0')
    else if leb b'a' c && leb c b'z'
    then some (c - b'a' + 10)
    else if leb b'A' c && leb c b'Z'
    then some (c - b'A' + 10)
    else none

-- What hex_to_int gives: a number, -EINVAL, or a read outside the text.
pub data HexValue : Type 0 where
  value : ℕ → HexValue
  bad_digit : HexValue
  outside : HexValue

-- The loop of hex_to_int for the `i` characters from `offset` on, which goes backwards.
unfoldable pub hex_loop : ℕ → ℕ → ℕ → ℕ → List ℕ → HexValue
hex_loop zero base total offset buf = value total
hex_loop (suc i) base total offset buf = elim (get_elem? buf (offset + i)) [
  | none ↦ outside
  | some single ↦ elim (hex_digit single) [
    | none ↦ bad_digit
    | some digit ↦ hex_loop i (base * 16) (total + digit * base) offset buf
  ]
]

unfoldable pub hex_to_int : ℕ → ℕ → List ℕ → HexValue
hex_to_int offset size buf = hex_loop size 1 0 offset buf

-- -EINVAL as a `u8`.
abbrev pub byte_of : HexValue → Option ℕ
byte_of (value n) = some (n % 256)
byte_of bad_digit = some 234
byte_of outside = none

-- hex_to_u8 of two digits; `none` is a read outside the text.
unfoldable pub hex_to_u8 : ℕ → List ℕ → Option ℕ
hex_to_u8 offset buf = byte_of (hex_to_int offset 2 buf)

-- How a number below 16, and a byte, is written.
abbrev pub digit_char : ℕ → ℕ
digit_char n = if ltb n 10 then n + b'0' else n - 10 + b'a'

abbrev pub hex_byte : ℕ → List ℕ → List ℕ
hex_byte b rest = digit_char (b / 16) ∷ digit_char (b % 16) ∷ rest

abbrev pub hex_bytes : List ℕ → List ℕ → List ℕ
hex_bytes [] rest = rest
hex_bytes (b ∷ bs) rest = hex_byte b (hex_bytes bs rest)

hex_digit-digit_char : (n : ℕ) → n < 16 → hex_digit (digit_char n) ≡ some n
hex_digit-digit_char n h = ground arith

hex_loop_step :
    (i base total offset c d : ℕ) (buf : List ℕ)
    → get_elem? buf (offset + i) ≡ some c
    → hex_digit c ≡ some d
    → hex_loop (suc i) base total offset buf ≡ hex_loop i (base * 16) (total + d * base) offset buf
unfolding hex_loop
hex_loop_step i base total offset c d buf at digit = rw (at, digit, hex_loop) refl

pub hex_to_u8-hex_byte :
    (b offset : ℕ) (buf : List ℕ)
    → b < 256
    → get_elem? buf offset ≡ some (digit_char (b / 16))
    → get_elem? buf (offset + 1) ≡ some (digit_char (b % 16))
    → hex_to_u8 offset buf ≡ some b
unfolding hex_to_u8 hex_to_int hex_loop
hex_to_u8-hex_byte b offset buf h high low =
    let e : offset ≡ offset + 0 = omega arith in
    let low_digit = hex_digit-digit_char (b % 16) (omega arith) in
    let high_digit = hex_digit-digit_char (b / 16) (omega arith) in
    let high' : get_elem? buf (offset + 0) ≡ some (digit_char (b / 16)) =
      ap (get_elem? buf) (sym e) ∙ high in
    ap byte_of (
      hex_loop_step 1 1 0 offset (digit_char (b % 16)) (b % 16) buf low low_digit
      ∙ hex_loop_step 0 16 (0 + b % 16 * 1) offset (digit_char (b / 16)) (b / 16) buf high'
          high_digit)
    ∙ ap some (omega arith)
