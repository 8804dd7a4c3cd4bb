-- ===== src/Sio/Startup/Laws.antt =====
-- The power status: what a write does to the register and what a read then reports.
use ugreen_frontpanel.Base.{
  ℕ, ◌/◌, ◌*◌, ◌+◌, ◌%◌, ◌≤◌, ◌≡◌, true, false, arith, ◌||◌, ◌==◌, if◌then◌else◌, bit_and, bit_or,
  bit_and-one, bit_or-one, bit_and-clear_one, codes, strncasecmp_eq, length, pad, ok, err, enodev,
  einval, count, error,
}
use ugreen_frontpanel.ProcFile.{UserBuffer, copy_line, trim_newline}
use ugreen_frontpanel.Sio.Startup.{
  PowerRegister, IsRegister, get_power_status, save_power_status, power_command, set_power_status,
}

module _ (reg : PowerRegister) (is : IsRegister reg) where
  open is use {value}

  get_power_status_lem :
      (w : reg.World)
      → ((get_power_status reg true w).0
          ≡ ok (if value w % 2 == 0 then codes "power on" else codes "power off"))
        × (value (get_power_status reg true w).1 ≡ value w)
  unfolding get_power_status
  get_power_status_lem w =
      ground (arith, is.read_value w, is.read_keeps w, bit_and-one (reg.ioread32 w).0)

  -- Writing 0 sets the last bit, writing 1 clears it, and any other status changes nothing.
  save_power_status-value :
      (status : ℕ) (w : reg.World)
      → value (save_power_status reg true status w).1 ≡ (
          if status == 0
          then value w / 2 * 2 + 1
          else if status == 1
          then value w / 2 * 2
          else value w)
  unfolding save_power_status
  save_power_status-value status w =
      let v = (reg.ioread32 w).0 in
      let u = (reg.ioread32 w).1 in
      ground (
        arith,
        is.read_value w,
        is.read_keeps w,
        is.value_bound w,
        bit_or-one v,
        bit_and-clear_one v,
        is.write_value (bit_or v 1) u,
        is.write_value (bit_and v 0xfffffffe) u,
      )

  -- With the register mapped, and a text of 1 to 11 bytes that can be read, whose line feed at the
  -- end is dropped: `on`, `off` and `last`, in any case, are taken, and any other text is refused
  -- with -EINVAL; a read then reports what `on` or `off` said, and else what it did before; and all
  -- other bits of the register are as they were.
  pub get_power_status-set_power_status :
      (user : UserBuffer) (w : reg.World)
      → user.readable ≡ true
      → 1 ≤ length user.bytes
      → length user.bytes ≤ 11
      → let n = length user.bytes in
        let buf = trim_newline n (pad 12 user.bytes) in
        let on = strncasecmp_eq 3 buf (codes "on") in
        let off = strncasecmp_eq 4 buf (codes "off") in
        let last = strncasecmp_eq 5 buf (codes "last") in
        let (r, w') = set_power_status reg true user w in
        (r ≡ (if on || off || last then count n else error einval))
        × ((get_power_status reg true w').0 ≡ (
            if on
            then ok (codes "power on")
            else if off
            then ok (codes "power off")
            else (get_power_status reg true w).0))
        × (value w' / 2 ≡ value w / 2)
  unfolding set_power_status copy_line power_command
  get_power_status-set_power_status user w readable some_bytes short =
      let turned_on = (save_power_status reg true 1 w).1 in
      let turned_off = (save_power_status reg true 0 w).1 in
      ground (
        arith,
        save_power_status-value 0 w,
        save_power_status-value 1 w,
        save_power_status-value 2 w,
        get_power_status_lem turned_on,
        get_power_status_lem turned_off,
        get_power_status_lem w,
        get_power_status_lem (save_power_status reg true 2 w).1,
      )

-- With the register not mapped, every text of 1 to 11 bytes that names a status is taken as if it
-- had been stored, though nothing is written; a read reports -ENODEV.
pub set_power_status_unmapped :
    (reg : PowerRegister) (user : UserBuffer) (w : reg.World)
    → user.readable ≡ true
    → 1 ≤ length user.bytes
    → length user.bytes ≤ 11
    → let n = length user.bytes in
      let buf = trim_newline n (pad 12 user.bytes) in
      (set_power_status reg false user w ≡ (
        if strncasecmp_eq 3 buf (codes "on")
              || strncasecmp_eq 4 buf (codes "off")
              || strncasecmp_eq 5 buf (codes "last")
            then count n
            else error einval,
        w,
      ))
      × (get_power_status reg false w ≡ (err enodev, w))
unfolding set_power_status copy_line power_command save_power_status get_power_status
set_power_status_unmapped reg user w readable some_bytes short = ground arith
