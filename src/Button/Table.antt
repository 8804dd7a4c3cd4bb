-- ===== src/Button/Table.antt =====
-- The boards that my_dmi_callback of packages/ugreen-sio/ug_gpio_btn.c knows, for a DMI header of
-- type 1.
pub mod Laws
use ugreen_frontpanel.Base.{
  ℕ, Bool, true, false, ◌||◌, List, [], ◌∷◌, Option, none, some, if◌then◌else◌, codes, strcmp_eq,
  strncmp_eq,
}
use ugreen_frontpanel.Button.Monitor.{Key, key_f20, key_f24, Button}

-- `btnSatate[0]` and `btnSatate[1]`, with `.base = NULL`, `.seen = 0` and `.last_report = 0`.
abbrev pub power_button : ℕ → ℕ → ℕ → ℕ → Button
power_button phyaddr shift active prestate = record {
  code = key_f20;
  phyaddr = phyaddr;
  shift = shift;
  active = active;
  base = false;
  seen = 0;
  prestate = prestate;
  last_report = 0;
}

abbrev pub reset_button : ℕ → ℕ → Button
reset_button phyaddr shift = record {
  code = key_f24;
  phyaddr = phyaddr;
  shift = shift;
  active = 0;
  base = false;
  seen = 0;
  prestate = 1;
  last_report = 0;
}

-- An `if … else if …` chain as a list of its tests, in order, with what each one chooses.
abbrev pub first_match {ℓ} : {A : Type ℓ} → List (Bool × A) → Option A
first_match [] = none
first_match ((test, a) ∷ rest) = if test then some a else first_match rest

-- The chain from DH2600 on.
abbrev pub later_boards : List ℕ → List (Bool × (Button × Button))
later_boards product =
    (
      strncmp_eq 6 product (codes "DH2600"),
      (power_button 0xfd6d0b20 1 1 0, reset_button 0xfd6e0800 1),
    )
    ∷ (
      strncmp_eq 6 product (codes "DX4600") || strncmp_eq 6 product (codes "DX4700"),
      (power_button 0xfd6d0690 1 1 0, reset_button 0xfd6d0890 1),
    )
    ∷ (
      strcmp_eq product (codes "DXP4800 GT"),
      (power_button 0xfed81526 0 1 0, reset_button 0xfed81522 0),
    )
    ∷ (
      strcmp_eq product (codes "DXP2800 GT"),
      (power_button 0xfed81510 16 0 1, reset_button 0xfed8150c 16),
    )
    ∷ []

abbrev pub boards : List ℕ → List (Bool × (Button × Button))
boards product =
    (
      strcmp_eq product (codes "DXP4800")
          || strcmp_eq product (codes "DXP2800")
          || strcmp_eq product (codes "DXP2800S")
          || strcmp_eq product (codes "DXP4800S"),
      (power_button 0xfd6a0980 1 1 0, reset_button 0xfd6d0b50 1),
    )
    ∷ (
      strncmp_eq 12 product (codes "DXP4800 Plus") || strncmp_eq 11 product (codes "DXP4800 Pro"),
      (power_button 0xfd6a0980 1 1 0, reset_button 0xfd6d0a10 1),
    )
    ∷ (
      strncmp_eq 7 product (codes "DXP6800")
          || strncmp_eq 7 product (codes "DXP8800")
          || strncmp_eq 6 product (codes "FORT 6"),
      (power_button 0xfd6a0b40 1 1 0, reset_button 0xfd6d0a10 1),
    )
    ∷ (
      strncmp_eq 12 product (codes "DXP480T Plus"),
      (power_button 0xfd6e0810 1 1 0, reset_button 0xfd6e0770 1),
    )
    ∷ (
      strncmp_eq 7 product (codes "iDX6011") || strncmp_eq 7 product (codes "iDX6012"),
      (power_button 0xe0d20860 1 1 0, reset_button 0xe0d508a0 1),
    )
    ∷ later_boards product

-- `none`: the array keeps its zeros.
unfoldable pub board_buttons : List ℕ → Option (Button × Button)
board_buttons product = first_match (boards product)
