-- ===== src/Beeper/Slots/Laws.antt =====
-- What /proc/nas/sata_sw says of every product.
use ugreen_frontpanel.Base.{
  ℕ, zero, suc, ◌+◌, ◌^◌, ◌≡◌, refl, ◌∙◌, Bool, true, false, ◌||◌, not, List, [], ◌∷◌, map, arith,
  ◌==◌, if◌then◌else◌, Bool-cases, inl, inr, bit_and, codes, strcmp_eq, strncmp_eq, strcmp_eq_same,
  strncmp_eq_same, take,
}
use ugreen_frontpanel.Beeper.Slots.{
  DevInfo, dmi_get_product, map_slot, Locals, read_slot, Line, read_slots, sata_satate_read,
}

-- Equal products get the same table.
dmi_get_product_same : (p x : List ℕ) → strcmp_eq p x ≡ true → dmi_get_product p ≡ dmi_get_product x
unfolding dmi_get_product
dmi_get_product_same p x h = cc (
  strcmp_eq_same p x (codes "DXP2800") h,
  strcmp_eq_same p x (codes "DXP2800S") h,
  strcmp_eq_same p x (codes "DXP4800") h,
  strcmp_eq_same p x (codes "DXP4800S") h,
  strncmp_eq_same 7 p x (codes "DXP4800") h,
  strncmp_eq_same 7 p x (codes "DXP2800") h,
  strncmp_eq_same 12 p x (codes "DXP4800 Plus") h,
  strncmp_eq_same 11 p x (codes "DXP4800 Pro") h,
  strncmp_eq_same 7 p x (codes "DXP6800") h,
  strncmp_eq_same 7 p x (codes "DXP8800") h,
  strncmp_eq_same 6 p x (codes "FORT 6") h,
  strncmp_eq_same 7 p x (codes "iDX6012") h,
  strncmp_eq_same 7 p x (codes "iDX6011") h,
)

-- The products with U.2 slots.
abbrev pub has_u2 : List ℕ → Bool
has_u2 product = strcmp_eq product (codes "DXP2800 GT") || strcmp_eq product (codes "DXP4800 GT")

u2_rows :
    (dmi_get_product (codes "DXP2800 GT") ≡ (0, []))
    × (dmi_get_product (codes "DXP4800 GT") ≡ (0, []))
unfolding dmi_get_product strcmp_eq strncmp_eq
u2_rows = (refl, refl)

-- They have no row in the table.
has_u2-dmi_get_product :
    (product : List ℕ) → has_u2 product ≡ true → dmi_get_product product ≡ (0, [])
has_u2-dmi_get_product product h = elim (Bool-cases (strcmp_eq product (codes "DXP2800 GT"))) [
  | inl first ↦ dmi_get_product_same product (codes "DXP2800 GT") first ∙ u2_rows.0
  | inr not_first ↦
      dmi_get_product_same product (codes "DXP4800 GT") (ground (arith, not_first)) ∙ u2_rows.1
]

-- The lines of the slots from `i` on: ON where the slot's bit is set in its first register.
abbrev pub slot_lines : ℕ → (ℕ → ℕ) → List DevInfo → List Line
slot_lines i reg0 [] = []
slot_lines i reg0 (d ∷ ds) =
    (d.name, not (bit_and (reg0 i) (2 ^ d.shift) == 0)) ∷ slot_lines (i + 1) reg0 ds

abbrev pub all_mapped : List DevInfo → List DevInfo
all_mapped ds = map (map_slot (λ address. true)) ds

read_slots_lem :
    (product : List ℕ) (n i : ℕ) (ds : List DevInfo) (reg0 reg1 : ℕ → ℕ) (l : Locals)
    → has_u2 product ≡ false
    → (read_slots product i (take n (all_mapped ds)) reg0 reg1 l).0 ≡ slot_lines i reg0 (take n ds)
unfolding read_slots read_slot
read_slots_lem product zero i ds reg0 reg1 l h = refl
read_slots_lem product (suc n) i [] reg0 reg1 l h = refl
read_slots_lem product (suc n) i (d ∷ ds) reg0 reg1 l h =
    let l1 = read_slot product i (map_slot (λ address. true) d) (reg0 i) (reg1 i) l in
    ground (arith, read_slots_lem product n (i + 1) ds reg0 reg1 l1 h)

-- Once every register is mapped, the text has one line for each slot that the product has, ON where
-- the slot's bit is set in its register, whatever the stack held. On a product with U.2 slots, which
-- has no slot in the table, it has two lines and no other, and what they say is what the stack held.
pub sata_satate_read_lem :
    (product : List ℕ) (reg0 reg1 : ℕ → ℕ) (l : Locals)
    → let (sata_io_num, slots) = dmi_get_product product in
      sata_satate_read product sata_io_num (all_mapped slots) reg0 reg1 l ≡ (
        if has_u2 product
        then (codes "U.2_1", not (l.u2_v1 == 0)) ∷ (codes "U.2_2", not (l.u2_v2 == 0)) ∷ []
        else slot_lines 0 reg0 (take sata_io_num slots))
unfolding sata_satate_read read_slots
sata_satate_read_lem product reg0 reg1 l = elim (Bool-cases (has_u2 product)) [
  | inl with_u2 ↦ rw (has_u2-dmi_get_product product with_u2) (rw with_u2 refl)
  | inr without ↦
      let (sata_io_num, slots) = dmi_get_product product in
      rw without (read_slots_lem product sata_io_num 0 slots reg0 reg1 l without)
]
