-- ===== src/Touch/Packet/Laws.antt =====
-- The packets tile the firmware.
use ugreen_frontpanel.Base.{
  ℕ, zero, suc, ◌+◌, ◌-◌, ◌*◌, ◌≤◌, ◌<◌, ◌≡◌, refl, List, [], ◌∷◌, true, arith, length, take, drop,
  get_or, head_or_nul, rest_of, ◌∙◌, sym,
}
use ugreen_frontpanel.Touch.Packet.{total_packets, current_size, slice, memcmp_eq}

pub drop-get_or : (a : ℕ) (xs : List ℕ) (i : ℕ) → get_or (drop a xs) i 0 ≡ get_or xs (a + i) 0
drop-get_or zero xs i = let e : 0 + i ≡ i = omega arith in rw e refl
drop-get_or (suc a) [] i = refl
drop-get_or (suc a) (x ∷ xs) i =
    let e : suc a + i ≡ suc (a + i) = omega arith in rw e (drop-get_or a xs i)

take-get_or : (n : ℕ) (xs : List ℕ) (i : ℕ) → i < n → get_or (take n xs) i 0 ≡ get_or xs i 0
take-get_or zero xs i h = absurd (omega arith)
take-get_or (suc n) [] i h = refl
take-get_or (suc n) (x ∷ xs) zero h = refl
take-get_or (suc n) (x ∷ xs) (suc i) h = take-get_or n xs i (omega arith)

pub length-drop : (a : ℕ) (xs : List ℕ) → length (drop a xs) ≡ length xs - a
length-drop zero xs = omega arith
length-drop (suc a) [] = omega arith
length-drop (suc a) (x ∷ xs) = omega (arith, length-drop a xs)

pub length-take : (n : ℕ) (xs : List ℕ) → n ≤ length xs → length (take n xs) ≡ n
length-take zero xs h = refl
length-take (suc n) [] h = absurd (omega arith)
length-take (suc n) (x ∷ xs) h = omega (arith, length-take n xs)

pub slice-get_or :
    (a n : ℕ) (xs : List ℕ) (i : ℕ) → i < n → get_or (slice a n xs) i 0 ≡ get_or xs (a + i) 0
slice-get_or a n xs i h = take-get_or n (drop a xs) i h ∙ drop-get_or a xs i

pub length-slice : (a n : ℕ) (xs : List ℕ) → a + n ≤ length xs → length (slice a n xs) ≡ n
length-slice a n xs h = length-take n (drop a xs) (omega (arith, length-drop a xs))

-- Where packet `num`, of those not yet sent, begins and ends.
pub record IsPacket (num total fw_len : ℕ) : Type 0 where
  pub size_bound : current_size num total fw_len ≤ 256
  pub begins : (num - 1) * 256 < fw_len
  pub inside : (num - 1) * 256 + current_size num total fw_len ≤ fw_len
  pub next : num < total → (num - 1) * 256 + current_size num total fw_len ≡ num * 256
  pub last : num ≡ total → (num - 1) * 256 + current_size num total fw_len ≡ fw_len

pub current_size-IsPacket :
    (num fw_len : ℕ)
    → 1 ≤ num
    → num ≤ total_packets fw_len
    → IsPacket num (total_packets fw_len) fw_len
unfolding total_packets current_size
current_size-IsPacket num fw_len first within = ground arith

-- Where the loop over the packets stands, with `left` of them to go.
abbrev pub cursor : ℕ → ℕ → ℕ → ℕ
cursor zero num fw_len = fw_len
cursor (suc left) num fw_len = (num - 1) * 256

pub cursor_next :
    (left num fw_len : ℕ)
    → 1 ≤ num
    → num + left ≡ total_packets fw_len
    → (num - 1) * 256 + current_size num (total_packets fw_len) fw_len
      ≡ cursor left (num + 1) fw_len
cursor_next zero num fw_len first count =
    (current_size-IsPacket num fw_len first (omega (arith, count))).last (omega (arith, count))
cursor_next (suc left) num fw_len first count = omega (
  arith,
  (current_size-IsPacket num fw_len first (omega (arith, count))).next (omega (arith, count)),
)

pub cursor_start : (fw_len : ℕ) → cursor (total_packets fw_len) 1 fw_len ≡ 0
cursor_start fw_len = start (total_packets fw_len) refl
  where
    start : (total : ℕ) → total ≡ total_packets fw_len → cursor total 1 fw_len ≡ 0
    start zero e = unfold total_packets in ground arith
    start (suc total) e = refl

head-get_or : (a : List ℕ) → head_or_nul a ≡ get_or a 0 0
head-get_or [] = refl
head-get_or (x ∷ a) = refl

rest-get_or : (a : List ℕ) (i : ℕ) → get_or (rest_of a) i 0 ≡ get_or a (suc i) 0
rest-get_or [] i = refl
rest-get_or (x ∷ a) i = refl

-- The two buffers agree on their first `n` bytes.
abbrev pub Agree : ℕ → List ℕ → List ℕ → Type 0
Agree n a b = (i : ℕ) → i < n → get_or a i 0 ≡ get_or b i 0

pub memcmp_eq-Agree : (n : ℕ) (a b : List ℕ) → memcmp_eq n a b ≡ true → Agree n a b
unfolding memcmp_eq
memcmp_eq-Agree zero a b h i lt = absurd (omega arith)
memcmp_eq-Agree (suc n) a b h zero lt = ground (arith, head-get_or a, head-get_or b)
memcmp_eq-Agree (suc n) a b h (suc i) lt = ground (
  arith,
  rest-get_or a i,
  rest-get_or b i,
  memcmp_eq-Agree n (rest_of a) (rest_of b) (ground arith) i (omega arith),
)

pub Agree-memcmp_eq : (n : ℕ) (a b : List ℕ) → Agree n a b → memcmp_eq n a b ≡ true
unfolding memcmp_eq
Agree-memcmp_eq zero a b h = refl
Agree-memcmp_eq (suc n) a b h = ground (
  arith,
  head-get_or a,
  head-get_or b,
  h 0 (omega arith),
  Agree-memcmp_eq n (rest_of a) (rest_of b)
      (λ i lt. rest-get_or a i ∙ h (suc i) (omega arith) ∙ sym (rest-get_or b i)),
)
