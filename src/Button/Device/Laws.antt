-- ===== src/Button/Device/Laws.antt =====
-- What hwinit does to the registers.
use ugreen_frontpanel.Base.{
  ℕ, ◌/◌, ◌%◌, ◌^◌, ◌≡◌, ◌≢◌, ap, ◌∙◌, Bool, true, ◌||◌, [], ◌∷◌, ◌==◌, if◌then◌else◌, some, codes,
  strcmp_eq, arith,
}
use ugreen_frontpanel.Button.Monitor.{Button, pin}
use ugreen_frontpanel.Button.Device.{Registers, as_input, write_register, hwinit}

abbrev pub mapped : Button → Button
mapped b = record b { base = true }

pin-as_input : (b : Button) (v : ℕ) → b.shift ≡ 16 → pin b (as_input v) ≡ pin b v
pin-as_input b v h = let e : as_input v / 2 ^ 16 % 2 ≡ v / 2 ^ 16 % 2 = omega arith in rw h e

as_input-bit : (v : ℕ) → as_input v / 2 ^ 23 % 2 ≡ 0
as_input-bit v = omega arith

-- The registers after hwinit on a DXP2800 GT.
abbrev after : ℕ → ℕ → Registers → Registers
after p r m = let m1 = write_register p (as_input (m p)) m in write_register r (as_input (m1 r)) m1

after_at_first : (p r : ℕ) (m : Registers) → p ≢ r → after p r m p ≡ as_input (m p)
after_at_first p r m apart = ground arith

after_at_second : (p r : ℕ) (m : Registers) → p ≢ r → after p r m r ≡ as_input (m r)
after_at_second p r m apart = ground arith

after_where :
    (p r a : ℕ) (m : Registers)
    → p ≢ r
    → after p r m a ≡ (if a == p || a == r then as_input (m a) else m a)
after_where p r a m apart = ground arith

hwinit_gt :
    (ioremap : ℕ → Bool) (p r : Button) (m : Registers)
    → ioremap p.phyaddr ≡ true
    → ioremap r.phyaddr ≡ true
    → hwinit ioremap (codes "DXP2800 GT") (p ∷ r ∷ []) m
      ≡ some (mapped p ∷ mapped r ∷ [], after p.phyaddr r.phyaddr m)
unfolding hwinit strcmp_eq
hwinit_gt ioremap p r m p_maps r_maps =
    let done =
      λ (x : Bool). some (record p { base = x } ∷ mapped r ∷ [], after p.phyaddr r.phyaddr m) in
    rw (p_maps, r_maps) (ap done p_maps)

-- On a DXP2800 GT, whose two buttons have pins at bit 16 of registers apart that can be mapped, hwinit
-- maps both, clears bit 23 of both registers and nothing else, and the bits that the timer
-- handler reads of them are what they were.
pub hwinit-pins :
    (ioremap : ℕ → Bool) (p r : Button) (m : Registers)
    → ioremap p.phyaddr ≡ true
    → ioremap r.phyaddr ≡ true
    → p.shift ≡ 16
    → r.shift ≡ 16
    → p.phyaddr ≢ r.phyaddr
    → (m' : Registers) × (hwinit ioremap (codes "DXP2800 GT") (p ∷ r ∷ []) m
        ≡ some (mapped p ∷ mapped r ∷ [], m'))
      × (m' p.phyaddr / 2 ^ 23 % 2 ≡ 0)
      × (m' r.phyaddr / 2 ^ 23 % 2 ≡ 0)
      × (pin p (m' p.phyaddr) ≡ pin p (m p.phyaddr))
      × (pin r (m' r.phyaddr) ≡ pin r (m r.phyaddr))
      × ((a : ℕ) → m' a ≡ (if a == p.phyaddr || a == r.phyaddr then as_input (m a) else m a))
hwinit-pins ioremap p r m p_maps r_maps p_bit r_bit apart =
    let first = after_at_first p.phyaddr r.phyaddr m apart in
    let second = after_at_second p.phyaddr r.phyaddr m apart in
    (
      after p.phyaddr r.phyaddr m,
      hwinit_gt ioremap p r m p_maps r_maps,
      ap (λ v. v / 2 ^ 23 % 2) first ∙ as_input-bit (m p.phyaddr),
      ap (λ v. v / 2 ^ 23 % 2) second ∙ as_input-bit (m r.phyaddr),
      ap (pin p) first ∙ pin-as_input p (m p.phyaddr) p_bit,
      ap (pin r) second ∙ pin-as_input r (m r.phyaddr) r_bit,
      λ a. after_where p.phyaddr r.phyaddr a m apart,
    )
