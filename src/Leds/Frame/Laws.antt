-- ===== src/Leds/Frame/Laws.antt =====
-- The checksum: requests carry one that the test of an answer accepts, and it notices any change of
-- one byte.
use ugreen_frontpanel.Base.{
  ℕ, zero, suc, ◌+◌, ◌*◌, ◌/◌, ◌%◌, ◌≤◌, ◌<◌, ◌≡◌, ◌≢◌, refl, ap, ◌↔◌, inl, inr, Bool-cases, true,
  false, List, [], ◌∷◌, arith, ◌==◌, bit_and, bit_or, bit_and-low_byte, bit_and-second_byte,
  bit_or-shift, length, take, set, get_or,
}
use native.Mathlib.Decide.{dec_lt, ℕ_discrete}
use ugreen_frontpanel.Leds.Frame.{sum, request, is_intact}

abbrev pub AreBytes : List ℕ → Type 0
AreBytes [] = Unit
AreBytes (b ∷ bs) = (b < 256) × AreBytes bs

-- The checksum's bytes, as numbers.
crc_high : (n : ℕ) → bit_and n 0xff00 / 256 % 256 ≡ n / 256 % 256
crc_high n = omega (arith, bit_and-second_byte n)

crc_low : (n : ℕ) → bit_and n 0xff % 256 ≡ n % 256
crc_low n = omega (arith, bit_and-low_byte n)

==_refl : (n : ℕ) → (n == n) ≡ true
==_refl n = ground arith

crc_joined :
    (n : ℕ) → n < 65536 → bit_or (bit_and n 0xff00 / 256 % 256 * 256) (bit_and n 0xff % 256) ≡ n
crc_joined n h =
    rw (crc_high n, crc_low n)
      (rw (bit_or-shift 8 (n / 256 % 256) (n % 256) (omega arith)) (omega arith))

-- Of four payload bytes and a mode, the request is eleven bytes, and it passes the test that the
-- driver makes of an answer: the two directions use one checksum.
pub request-is_intact :
    (status d1 d2 d3 d4 : ℕ)
    → AreBytes (status ∷ d1 ∷ d2 ∷ d3 ∷ d4 ∷ [])
    → let frame = request status (d1 ∷ d2 ∷ d3 ∷ d4 ∷ []) in
      (length frame ≡ 11) × AreBytes frame × (is_intact frame ≡ true)
unfolding request is_intact
request-is_intact status d1 d2 d3 d4 h =
    let n = 160 + (1 + (0 + (0 + (status + (d1 + (d2 + (d3 + (d4 + 0)))))))) in
    let joined = crc_joined n (omega arith) in (refl, omega arith, rw joined (==_refl n))

-- A write at `i` changes a sum over the first `n` bytes where `i` lies among them, by the
-- difference, and not at all elsewhere.
sum-take-set :
    (n i v : ℕ) (bs : List ℕ)
    → i < n
    → i < length bs
    → sum (take n (set bs i v)) + get_or bs i 0 ≡ sum (take n bs) + v
sum-take-set zero i v bs h k = absurd (omega arith)
sum-take-set (suc n) i v [] h k = absurd (omega arith)
sum-take-set (suc n) zero v (b ∷ bs) h k = omega arith
sum-take-set (suc n) (suc i) v (b ∷ bs) h k =
    omega (arith, sum-take-set n i v bs (omega arith) (omega arith))

sum-take-set_beyond :
    (n i v : ℕ) (bs : List ℕ) → n ≤ i → sum (take n (set bs i v)) ≡ sum (take n bs)
sum-take-set_beyond zero i v bs h = refl
sum-take-set_beyond (suc n) i v [] h = refl
sum-take-set_beyond (suc n) zero v (b ∷ bs) h = absurd (omega arith)
sum-take-set_beyond (suc n) (suc i) v (b ∷ bs) h =
    omega (arith, sum-take-set_beyond n i v bs (omega arith))

get_or-set_self : (i v : ℕ) (bs : List ℕ) → i < length bs → get_or (set bs i v) i 0 ≡ v
get_or-set_self i v [] h = absurd (omega arith)
get_or-set_self zero v (b ∷ bs) h = refl
get_or-set_self (suc i) v (b ∷ bs) h = get_or-set_self i v bs (omega arith)

get_or-set_ne : (i j v : ℕ) (bs : List ℕ) → i ≢ j → get_or (set bs i v) j 0 ≡ get_or bs j 0
get_or-set_ne i j v [] h = refl
get_or-set_ne zero zero v (b ∷ bs) h = absurd (h refl)
get_or-set_ne zero (suc j) v (b ∷ bs) h = refl
get_or-set_ne (suc i) zero v (b ∷ bs) h = refl
get_or-set_ne (suc i) (suc j) v (b ∷ bs) h = get_or-set_ne i j v bs (λ e. h (ap suc e))

get_or-byte : (i : ℕ) (bs : List ℕ) → AreBytes bs → get_or bs i 0 < 256
get_or-byte i [] h = omega arith
get_or-byte zero (b ∷ bs) h = h.0
get_or-byte (suc i) (b ∷ bs) h = get_or-byte i bs h.1

-- The test as an equation between numbers.
is_intact_iff :
    (bs : List ℕ)
    → AreBytes bs
    → (is_intact bs ≡ true) ↔ (sum (take 9 bs) ≡ get_or bs 9 0 * 256 + get_or bs 10 0)
unfolding is_intact
is_intact_iff bs h =
    let joined = bit_or-shift 8 (get_or bs 9 0) (get_or bs 10 0) (get_or-byte 10 bs h) in
    (ground (arith, joined), ground (arith, joined))

set-AreBytes : (i v : ℕ) (bs : List ℕ) → v < 256 → AreBytes bs → AreBytes (set bs i v)
set-AreBytes i v [] k h = tt
set-AreBytes zero v (b ∷ bs) k h = (k, h.1)
set-AreBytes (suc i) v (b ∷ bs) k h = (h.0, set-AreBytes i v bs k h.1)

-- Two equations of the test, before and after a byte changed, clash: in the sum, in the high byte
-- of the checksum, or in the low one.
clash :
    (i v : ℕ) (bs : List ℕ)
    → length bs ≡ 11
    → AreBytes bs
    → i < 11
    → v < 256
    → v ≢ get_or bs i 0
    → sum (take 9 bs) ≡ get_or bs 9 0 * 256 + get_or bs 10 0
    → sum (take 9 (set bs i v)) ≡ get_or (set bs i v) 9 0 * 256 + get_or (set bs i v) 10 0
    → ⊥
clash i v bs len h low byte other before after = elim (dec_lt i 9) [
  | yes p ↦ other (
      omega (
        arith,
        sum-take-set 9 i v bs p (omega arith),
        get_or-set_ne i 9 v bs (omega arith),
        get_or-set_ne i 10 v bs (omega arith),
      ))
  | no p ↦ elim (ℕ_discrete i 9) [
    | yes q ↦ other (
        omega (
          arith,
          q,
          sum-take-set_beyond 9 i v bs (omega arith),
          ap (λ j. get_or bs j 0) q,
          get_or-set_self i v bs (omega arith),
          ap (λ j. get_or (set bs i v) j 0) q,
          get_or-set_ne i 10 v bs (omega arith),
        ))
    | no q ↦
        let last : i ≡ 10 = omega arith in
        other (
          omega (
            arith,
            sum-take-set_beyond 9 i v bs (omega arith),
            ap (λ j. get_or bs j 0) last,
            get_or-set_self i v bs (omega arith),
            ap (λ j. get_or (set bs i v) j 0) last,
            get_or-set_ne i 9 v bs (omega arith),
          ))
  ]
]

-- An answer of eleven bytes that passes the test fails it once any one of its bytes, a byte of the
-- checksum included, is another byte.
pub is_intact-set :
    (i v : ℕ) (bs : List ℕ)
    → length bs ≡ 11
    → AreBytes bs
    → i < 11
    → v < 256
    → v ≢ get_or bs i 0
    → is_intact bs ≡ true
    → is_intact (set bs i v) ≡ false
is_intact-set i v bs len h low byte other good = elim (Bool-cases (is_intact (set bs i v))) [
  | inr bad ↦ bad
  | inl same ↦
      let before = (is_intact_iff bs h).0 good in
      let after = (is_intact_iff (set bs i v) (set-AreBytes i v bs byte h)).0 same in
      absurd (clash i v bs len h low byte other before after)
]
