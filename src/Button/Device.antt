-- ===== src/Button/Device.antt =====
-- hwinit, hw_unioremap, ug_gpiokey_probe and ug_gpiokey_remove of packages/ugreen-sio/ug_gpio_btn.c.
pub mod Laws
use ugreen_frontpanel.Base.{
  ℕ, ◌+◌, ◌-◌, ◌*◌, ◌/◌, ◌%◌, ◌^◌, Bool, true, false, not, ◌&&◌, List, [], ◌∷◌, ◌==◌, if◌then◌else◌,
  Option, none, some, ℤ, pos, negsuc,
}
use ugreen_frontpanel.Button.Monitor.{Button, is_gt}

-- The registers of the pins, of 32 bits each.
abbrev pub Registers : Type 0
Registers = ℕ → ℕ

-- `val & ~(1 << 23)`
abbrev pub as_input : ℕ → ℕ
as_input val = val - val / 2 ^ 23 % 2 * 2 ^ 23

abbrev pub write_register : ℕ → ℕ → Registers → Registers
write_register addr val m a = if a == addr then val else m a

-- hwinit for the buttons that are left; `ioremap` is whether an address can be mapped, and `none` an
-- access through NULL.
unfoldable pub hwinit :
    (ℕ → Bool) → List ℕ → List Button → Registers → Option (List Button × Registers)
hwinit ioremap product [] m = some ([], m)
hwinit ioremap product (b ∷ bs) m =
    let mapped = ioremap b.phyaddr in
    let m' = if is_gt product then write_register b.phyaddr (as_input (m b.phyaddr)) m else m in
    let rest = hwinit ioremap product bs m' in
    if is_gt product && not mapped
    then none
    else elim rest [ none ↦ none | some (bs', m'') ↦ some (record b { base = mapped } ∷ bs', m'') ]

unfoldable pub hw_unioremap : List Button → List Button
hw_unioremap [] = []
hw_unioremap (b ∷ bs) = record b { base = false } ∷ hw_unioremap bs

-- `ug_key`; a device that cannot be registered is freed when the probe fails.
pub data InputDevice : Type 0 where
  absent freed registered : InputDevice

abbrev pub is_zero : ℤ → Bool
is_zero (pos n) = n == 0
is_zero (negsuc n) = false

pub record KeyDevice : Type 0 where
  pub buttons : List Button
  pub registers : Registers
  pub timer : Bool
  pub ug_key : InputDevice

-- `allocated` and `err` are the answers for the input device.
unfoldable pub ug_gpiokey_probe :
    (ℕ → Bool) → List ℕ → Bool → ℤ → KeyDevice → Option (ℤ × KeyDevice)
ug_gpiokey_probe ioremap product allocated err d =
    elim (hwinit ioremap product d.buttons d.registers) [
      | none ↦ none
      | some (bs, m) ↦
          let d' = record d { buttons = bs; registers = m; timer = true } in
          if not allocated
          then some (negsuc 11, record d' { ug_key = absent })
          else some (err, record d' { ug_key = if is_zero err then registered else freed })
    ]

-- The device is unregistered, and freed once more.
unfoldable pub ug_gpiokey_remove : KeyDevice → KeyDevice
unfolding hw_unioremap
ug_gpiokey_remove d = record d { buttons = hw_unioremap d.buttons; timer = false; ug_key = freed }
