-- ===== src/Sio/Wakeup.antt =====
-- Wake-up settings: g3wakeup_write, g3wakeup_read, lanwakeup_write and lanwakeup_read in
-- packages/ugreen-sio/ug_it55pro_functions.c.
pub mod Laws
use ugreen_frontpanel.Base.{
  ℕ, Bool, ◌||◌, not, List, ◌==◌, if◌then◌else◌, codes, strncmp_eq, length, Io, pure, ◌>>=◌, ◌>>◌,
  Result, ok, err, einval, ebusy, Ssize, count, error, fault,
}
use ugreen_frontpanel.Ec.Ports.{Ports}
use ugreen_frontpanel.Ec.Helper.{
  ec_request_ports, ec_release_ports, ec_read_memory, ec_write_memory,
}
use ugreen_frontpanel.ProcFile.{UserBuffer, Copied, line, refused, wild, copy_unchecked}

abbrev pub g3_wakeup_adr : ℕ
g3_wakeup_adr = 0x9A

abbrev pub lan_wakeup_adr : ℕ
lan_wakeup_adr = 0x99

module _ (hw : Ports) where
  unfoldable pub set_wakeup : ℕ → ℕ → ℕ → Io hw.World Ssize
  set_wakeup size address value =
      ec_request_ports hw
      >> ec_write_memory hw address value
      >> ec_release_ports hw
      >> pure (count size)

  unfoldable pub g3wakeup_write : UserBuffer → Io hw.World Ssize
  g3wakeup_write user = elim (copy_unchecked 8 user) [
    | line buf ↦
        if strncmp_eq 2 (codes "on") buf
        then set_wakeup (length user.bytes) g3_wakeup_adr 1
        else if strncmp_eq 3 (codes "off") buf
        then set_wakeup (length user.bytes) g3_wakeup_adr 0
        else pure (error ebusy)
    | refused e ↦ pure (error e)
    | wild ↦ pure fault
  ]

  -- Here the code takes the value of `strncmp` itself for its test, which is true where the texts
  -- differ.
  unfoldable pub lanwakeup_write : UserBuffer → Io hw.World Ssize
  lanwakeup_write user = elim (copy_unchecked 8 user) [
    | line buf ↦
        if not (strncmp_eq 2 (codes "on") buf)
        then set_wakeup (length user.bytes) lan_wakeup_adr 1
        else if not (strncmp_eq 3 (codes "off") buf)
        then set_wakeup (length user.bytes) lan_wakeup_adr 0
        else pure (error ebusy)
    | refused e ↦ pure (error e)
    | wild ↦ pure fault
  ]

  -- The status that is printed; `val` is 0 before the read.
  unfoldable pub read_status : ℕ → Io hw.World (Result ℕ)
  read_status address = do
    ec_request_ports hw
    r ← ec_read_memory hw address
    ec_release_ports hw
    let val = elim r as (λ x. ℕ) [ ok value ↦ value | err e ↦ 0 ]
    pure (if val == 0 || val == 1 then ok val else err einval)

  unfoldable pub g3wakeup_read : Io hw.World (Result ℕ)
  g3wakeup_read = read_status g3_wakeup_adr

  -- The code reads the address of the other setting.
  unfoldable pub lanwakeup_read : Io hw.World (Result ℕ)
  lanwakeup_read = read_status g3_wakeup_adr
