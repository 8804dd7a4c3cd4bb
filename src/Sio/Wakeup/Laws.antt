-- ===== src/Sio/Wakeup/Laws.antt =====
-- The wake-up settings: what each write stores, and what each read reports.
use ugreen_frontpanel.Base.{
  ℕ, ◌≤◌, ◌≡◌, true, false, ◌&&◌, arith, List, [], ◌∷◌, leb, ◌||◌, if◌then◌else◌, length, pad,
  codes, strncmp_eq, ok, err, count, error, einval, ebusy,
}
use ugreen_frontpanel.Ec.Ports.{Ports}
use ugreen_frontpanel.Ec.Helper.{ec_request_ports, ec_read_memory, ec_write_memory}
use ugreen_frontpanel.Ec.Device.{store, IsController}
use ugreen_frontpanel.Ec.Transfer.{
  ec_read_memory_lem, ec_write_memory_lem, ec_request_ports-memory, ec_release_ports-memory,
}
use ugreen_frontpanel.ProcFile.{UserBuffer, copy_unchecked}
use ugreen_frontpanel.Sio.Wakeup.{
  set_wakeup, g3wakeup_write, lanwakeup_write, read_status, g3wakeup_read, lanwakeup_read,
}

-- A text that begins with `on` does not begin with `off`.
on_not_off :
    (buf : List ℕ) → strncmp_eq 2 (codes "on") buf ≡ true → strncmp_eq 3 (codes "off") buf ≡ false
unfolding strncmp_eq
on_not_off [] h = cc
on_not_off (a ∷ []) h = ground arith
on_not_off (a ∷ b ∷ buf) h = ground arith

module _ (hw : Ports) (ec : IsController hw) where
  open ec use {memory}

  set_wakeup-memory :
      (n address value : ℕ) (w : hw.World)
      → ((set_wakeup hw n address value w).0 ≡ count n)
        × (memory (set_wakeup hw n address value w).1 ≡ store (memory w) address value)
  unfolding set_wakeup
  set_wakeup-memory n address value w =
      let w0 = (ec_request_ports hw w).1 in
      let w1 = (ec_write_memory hw address value w0).1 in
      ground (
        arith,
        ec_request_ports-memory hw ec w,
        ec_write_memory_lem hw ec address value w0,
        ec_release_ports-memory hw ec w1,
      )

  read_status_lem :
      (address : ℕ) (w : hw.World)
      → ((read_status hw address w).0
          ≡ (if leb (memory w address) 1 then ok (memory w address) else err einval))
        × (memory (read_status hw address w).1 ≡ memory w)
  unfolding read_status
  read_status_lem address w =
      let w0 = (ec_request_ports hw w).1 in
      let r = ec_read_memory hw address w0 in
      ground (
        arith,
        ec_request_ports-memory hw ec w,
        ec_read_memory_lem hw ec address w0,
        ec_release_ports-memory hw ec r.1,
      )

  -- For every write to the file: a text of at most eight bytes that can be read and begins with `on` or
  -- `off` is taken, stores 1 or 0 in the setting's byte and changes no other, and a read of the
  -- setting then reports that value. Another such text is refused with -EBUSY, and a longer one, or one
  -- that cannot be read, with -EINVAL; neither the memory nor what a read reports changes then.
  pub g3wakeup_read-write :
      (user : UserBuffer) (w : hw.World)
      → let (r, w') = g3wakeup_write hw user w in
        let copied = user.readable && leb (length user.bytes) 8 in
        let on = copied && strncmp_eq 2 (codes "on") (pad 8 user.bytes) in
        let off = copied && strncmp_eq 3 (codes "off") (pad 8 user.bytes) in
        (r ≡ (
          if on || off
          then count (length user.bytes)
          else if copied
          then error ebusy
          else error einval))
        × (memory w' ≡ (
            if on
            then store (memory w) 0x9A 1
            else if off
            then store (memory w) 0x9A 0
            else memory w))
        × ((g3wakeup_read hw w').0
            ≡ (if on then ok 1 else if off then ok 0 else (g3wakeup_read hw w).0))
  unfolding g3wakeup_write g3wakeup_read copy_unchecked
  g3wakeup_read-write user w =
      let n = length user.bytes in
      let on = (set_wakeup hw n 0x9A 1 w).1 in
      let off = (set_wakeup hw n 0x9A 0 w).1 in
      ground (
        arith,
        set_wakeup-memory n 0x9A 1 w,
        set_wakeup-memory n 0x9A 0 w,
        read_status_lem 0x9A on,
        read_status_lem 0x9A off,
      )

  -- lanwakeup_write takes every text of at most eight bytes that can be read: one that begins with
  -- `on` clears the setting, and any other, `off` and nonsense too, sets it.
  pub lanwakeup_write_lem :
      (user : UserBuffer) (w : hw.World)
      → user.readable ≡ true
      → length user.bytes ≤ 8
      → let (r, w') = lanwakeup_write hw user w in
        (r ≡ count (length user.bytes))
        × (memory w'
            ≡ store (memory w) 0x99 (if strncmp_eq 2 (codes "on") (pad 8 user.bytes) then 0 else 1))
  unfolding lanwakeup_write copy_unchecked
  lanwakeup_write_lem user w readable short = ground (
    arith,
    set_wakeup-memory (length user.bytes) 0x99 1 w,
    set_wakeup-memory (length user.bytes) 0x99 0 w,
    on_not_off (pad 8 user.bytes),
  )

  -- What lanwakeup_read reports is the other setting's byte: it is the same before and after any
  -- lanwakeup_write that succeeds, and it is what g3wakeup_read reports.
  pub lanwakeup_read-lanwakeup_write :
      (user : UserBuffer) (w : hw.World)
      → user.readable ≡ true
      → length user.bytes ≤ 8
      → ((lanwakeup_read hw (lanwakeup_write hw user w).1).0 ≡ (lanwakeup_read hw w).0)
        × ((lanwakeup_read hw w).0 ≡ (g3wakeup_read hw w).0)
  unfolding lanwakeup_read g3wakeup_read
  lanwakeup_read-lanwakeup_write user w readable short =
      let w' = (lanwakeup_write hw user w).1 in
      ground (
        arith,
        lanwakeup_write_lem user w readable short,
        read_status_lem 0x9A w,
        read_status_lem 0x9A w',
      )
