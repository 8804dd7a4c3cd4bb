-- ===== src/Beeper/Slots.antt =====
-- The disk slots of packages/ugreen-sio/ug_sataio_beeper.c: the table of dmi_get_product, the
-- mapping of its registers, and sata_satate_read behind /proc/nas/sata_sw.
pub mod Laws
use ugreen_frontpanel.Base.{
  ℕ, zero, suc, ◌+◌, ◌^◌, Bool, true, false, ◌&&◌, ◌||◌, not, List, [], ◌∷◌, ◌++◌, ◌==◌,
  if◌then◌else◌, bit_and, bit_or, codes, strcmp_eq, strncmp_eq, take,
}

-- `base0` and `base1` hold where the registers are mapped.
pub record DevInfo : Type 0 where
  pub name : List ℕ
  pub shift : ℕ
  pub phyaddr0 : ℕ
  pub phyaddr1 : ℕ
  pub base0 : Bool
  pub base1 : Bool

abbrev pub sata : List ℕ → ℕ → DevInfo
sata name phyaddr0 = record {
  name = name;
  shift = 1;
  phyaddr0 = phyaddr0;
  phyaddr1 = 0;
  base0 = false;
  base1 = false;
}

abbrev pub slots_of_four : List DevInfo
slots_of_four =
    sata (codes "SATA1") 0xFD6A0930
    ∷ sata (codes "SATA2") 0xFD6A0940
    ∷ sata (codes "SATA3") 0xFD6A0950
    ∷ sata (codes "SATA4") 0xFD6A0960
    ∷ []

abbrev pub slots_of_eight : List DevInfo
slots_of_eight =
    sata (codes "SATA1") 0xFD6A0930
    ∷ sata (codes "SATA2") 0xFD6A0940
    ∷ sata (codes "SATA3") 0xFD6A0950
    ∷ sata (codes "SATA4") 0xFD6A0960
    ∷ sata (codes "SATA5") 0xFD6A0970
    ∷ sata (codes "SATA6") 0xFD6A0980
    ∷ sata (codes "SATA7") 0xFD6A0990
    ∷ sata (codes "SATA8") 0xFD6A09A0
    ∷ []

abbrev pub slots_of_idx : List DevInfo
slots_of_idx =
    sata (codes "SATA1") 0xE0D30850
    ∷ sata (codes "SATA2") 0xE0D30860
    ∷ sata (codes "SATA3") 0xE0D30870
    ∷ sata (codes "SATA4") 0xE0D30880
    ∷ sata (codes "SATA5") 0xE0D30890
    ∷ sata (codes "SATA6") 0xE0D308A0
    ∷ []

-- `sata_io_num`, which is 0 before, and the table, whose other entries are zero.
unfoldable pub dmi_get_product : List ℕ → ℕ × List DevInfo
dmi_get_product product =
    if strcmp_eq product (codes "DXP2800")
      || strcmp_eq product (codes "DXP2800S")
      || strcmp_eq product (codes "DXP4800")
      || strcmp_eq product (codes "DXP4800S")
    then (
      if strncmp_eq 7 product (codes "DXP4800")
          then 4
          else if strncmp_eq 7 product (codes "DXP2800")
          then 2
          else 0,
      slots_of_four,
    )
    else if strncmp_eq 12 product (codes "DXP4800 Plus")
        || strncmp_eq 11 product (codes "DXP4800 Pro")
    then (4, slots_of_four)
    else if strncmp_eq 7 product (codes "DXP6800")
        || strncmp_eq 7 product (codes "DXP8800")
        || strncmp_eq 6 product (codes "FORT 6")
    then (
      if strncmp_eq 7 product (codes "DXP8800")
          then 8
          else if strncmp_eq 7 product (codes "DXP6800") || strncmp_eq 6 product (codes "FORT 6")
          then 6
          else 0,
      slots_of_eight,
    )
    else if strncmp_eq 7 product (codes "iDX6012") || strncmp_eq 7 product (codes "iDX6011")
    then (6, slots_of_idx)
    else (0, [])

-- The mapping of the registers in hwinit, `ioremap` saying which address can be mapped.
abbrev pub map_slot : (ℕ → Bool) → DevInfo → DevInfo
map_slot ioremap d = record d {
  base0 = ioremap d.phyaddr0;
  base1 = if d.phyaddr1 == 0 then d.base1 else ioremap d.phyaddr1;
}

-- The variables of sata_satate_read that one round of its loop leaves to the next, `u2_v1` and
-- `u2_v2` being those of the U.2 slots. The code gives none of them a value at first.
pub record Locals : Type 0 where
  pub val : ℕ
  pub u2_v1 : ℕ
  pub u2_v2 : ℕ

abbrev pub to_int : Bool → ℕ
to_int b = if b then 1 else 0

-- `if (0 == i) u2_v1 = tmpv; else u2_v2 = tmpv;`
abbrev pub keep_u2 : ℕ → ℕ → Locals → Locals
keep_u2 i tmpv l = if i == 0 then record l { u2_v1 = tmpv } else record l { u2_v2 = tmpv }

-- One round of the loop, at slot `i`, where the slot's registers read `reg0` and `reg1`.
unfoldable pub read_slot : List ℕ → ℕ → DevInfo → ℕ → ℕ → Locals → Locals
read_slot product i d reg0 reg1 l =
    let val = if d.base0 then bit_and reg0 (2 ^ d.shift) else l.val in
    let val1 = bit_and reg1 (2 ^ d.shift) in
    if strcmp_eq product (codes "DXP2800 GT")
    then (if d.base1
        then record (keep_u2 i (to_int (val == 0 && not (val1 == 0))) l) {
          val = to_int (bit_or val val1 == 0);
        }
        else record l { val = to_int (val == 0) })
    else if strcmp_eq product (codes "DXP4800 GT")
    then (if d.base1
        then record (keep_u2 i (to_int (not (val == 0) && not (val1 == 0))) l) {
          val = to_int (not (val == 0) && val1 == 0);
        }
        else record l { val = val })
    else record l { val = val }

-- A line of the text: the name, and whether it says ON.
abbrev pub Line : Type 0
Line = List ℕ × Bool

-- The loop from slot `i` on: the lines and the variables at its end. `reg0 i` and `reg1 i` are what
-- the registers of slot `i` read.
unfoldable pub read_slots :
    List ℕ → ℕ → List DevInfo → (ℕ → ℕ) → (ℕ → ℕ) → Locals → List Line × Locals
unfolding read_slot
read_slots product i [] reg0 reg1 l = ([], l)
read_slots product i (d ∷ ds) reg0 reg1 l =
    let l1 = read_slot product i d (reg0 i) (reg1 i) l in
    let (lines, l2) = read_slots product (i + 1) ds reg0 reg1 l1 in
    ((d.name, not (l1.val == 0)) ∷ lines, l2)

-- sata_satate_read up to its text; `l` is what the stack holds.
unfoldable pub sata_satate_read : List ℕ → ℕ → List DevInfo → (ℕ → ℕ) → (ℕ → ℕ) → Locals → List Line
sata_satate_read product sata_io_num sata_info reg0 reg1 l =
    let (lines, l') = read_slots product 0 (take sata_io_num sata_info) reg0 reg1 l in
    if strcmp_eq product (codes "DXP2800 GT") || strcmp_eq product (codes "DXP4800 GT")
    then lines ++ ((codes "U.2_1", not (l'.u2_v1 == 0)) ∷ (codes "U.2_2", not (l'.u2_v2 == 0)) ∷ [])
    else lines
