-- ===== src/Sio/PowerLevel.antt =====
-- The power level of /proc/it86/pwr: pwr_write and pwr_read in
-- packages/ugreen-sio/ug_it55pro_functions.c.
pub mod Laws
use ugreen_frontpanel.Base.{
  ℕ, List, leb, if◌then◌else◌, length, ℤ, pos, negsuc, Io, pure, ◌>>=◌, ◌>>◌, Result, ok, err,
  einval, Ssize, count, error, fault,
}
use ugreen_frontpanel.Ec.Ports.{Ports}
use ugreen_frontpanel.Ec.Helper.{
  ec_request_ports, ec_release_ports, ec_read_memory, ec_write_memory,
}
use ugreen_frontpanel.ProcFile.{UserBuffer, Copied, line, refused, wild, copy_unchecked}

abbrev pub ec_pwr_enable : ℕ
ec_pwr_enable = 0xA0

abbrev pub ec_pwr_value : ℕ
ec_pwr_value = 0xA1

-- What the kernel's `kstrtoint` makes of a buffer, for base 10: it stops at the first character that
-- is out of place, and reads past a buffer whose digits go on to its end.
pub data Parsed : Type 0 where
  number : ℤ → Parsed
  malformed : Parsed
  past_end : Parsed

module _ (hw : Ports) where
  -- pwr_write from `in_data` on.
  unfoldable pub set_level : ℕ → ℤ → Io hw.World Ssize
  set_level size (negsuc n) = pure (error einval)
  set_level size (pos level) =
      if leb 8 level
      then pure (error einval)
      else ec_request_ports hw
        >> ec_write_memory hw ec_pwr_enable 0x1
        >> ec_write_memory hw ec_pwr_value level
        >> ec_release_ports hw
        >> pure (count size)

  unfoldable pub pwr_write : (List ℕ → Parsed) → UserBuffer → Io hw.World Ssize
  pwr_write kstrtoint user = elim (copy_unchecked 8 user) [
    | line buf ↦ elim (kstrtoint buf) [
      | malformed ↦ pure (error einval)
      | past_end ↦ pure fault
      | number in_data ↦ set_level (length user.bytes) in_data
    ]
    | refused e ↦ pure (error e)
    | wild ↦ pure fault
  ]

  -- The level that pwr_read prints: 0 where the read fails.
  unfoldable pub pwr_read : Io hw.World ℕ
  pwr_read = do
    ec_request_ports hw
    r ← ec_read_memory hw ec_pwr_value
    ec_release_ports hw
    pure (elim r [ ok value ↦ value | err e ↦ 0 ])
