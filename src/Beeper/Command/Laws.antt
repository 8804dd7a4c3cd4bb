-- ===== src/Beeper/Command/Laws.antt =====
-- What a command typed into /proc/nas/beeper leads to.
use ugreen_frontpanel.Base.{
  ℕ, ◌+◌, ◌-◌, ◌≤◌, ◌<◌, ◌≡◌, refl, ◌∙◌, true, false, List, [], ◌∷◌, Option, none, some, arith,
  ◌==◌, if◌then◌else◌, codes, strncmp_eq, length, pad, count,
}
use ugreen_frontpanel.ProcFile.{UserBuffer, trim_newline, copy_line}
use ugreen_frontpanel.Ec.Ports.{Ports}
use ugreen_frontpanel.Beeper.Timer.{Beeper}
use ugreen_frontpanel.Beeper.Timer.Laws.{Switches, expire, expire_lem}
use ugreen_frontpanel.Beeper.Command.{
  either_case, timer_command, rep_command, beeper_command, beeper_write,
}

-- No command before them in the chain begins like `rep` or `timer `.
abbrev NoSwitch : List ℕ → Type 0
NoSwitch buf =
    (either_case 6 buf (codes "booton") (codes "BOOTON") ≡ false)
    × (either_case 7 buf (codes "bootoff") (codes "BOOTOFF") ≡ false)
    × (either_case 3 buf (codes "on") (codes "ON") ≡ false)
    × (either_case 4 buf (codes "off") (codes "OFF") ≡ false)
    × (either_case 4 buf (codes "one") (codes "ONE") ≡ false)

rep-NoSwitch :
    (buf : List ℕ)
    → strncmp_eq 3 buf (codes "rep ") ≡ true
    → NoSwitch buf × (strncmp_eq 6 buf (codes "timer ") ≡ false)
unfolding strncmp_eq
rep-NoSwitch [] h = cc
rep-NoSwitch (a ∷ buf) h = ground arith

timer-NoSwitch : (buf : List ℕ) → strncmp_eq 6 buf (codes "timer ") ≡ true → NoSwitch buf
unfolding strncmp_eq
timer-NoSwitch [] h = cc
timer-NoSwitch (a ∷ buf) h = ground arith

module _ (hw : Ports) (rounds : ℕ) (product : List ℕ) (scan_timer : List ℕ → Option (ℕ × ℕ))
    (scan_rep : List ℕ → Option (ℕ × ℕ × ℕ)) where
  beeper_write_rep :
      (user : UserBuffer) (times off on : ℕ) (b : Beeper) (w : hw.World)
      → user.readable ≡ true
      → 1 ≤ length user.bytes
      → length user.bytes ≤ 31
      → let buf = trim_newline (length user.bytes) (pad 32 user.bytes) in
        strncmp_eq 3 buf (codes "rep ") ≡ true
        → scan_rep buf ≡ some (times, off, on)
        → beeper_write hw rounds product scan_timer scan_rep user (b, w) ≡ (
            let (r, b') = rep_command (some (times, off, on)) (length user.bytes) b in
            some (r, b', w))
  unfolding beeper_write beeper_command copy_line
  beeper_write_rep user times off on b w readable some_bytes short word scanned =
      ground (arith, rep-NoSwitch (trim_newline (length user.bytes) (pad 32 user.bytes)) word)

  beeper_write_timer :
      (user : UserBuffer) (off on : ℕ) (b : Beeper) (w : hw.World)
      → user.readable ≡ true
      → 1 ≤ length user.bytes
      → length user.bytes ≤ 31
      → let buf = trim_newline (length user.bytes) (pad 32 user.bytes) in
        strncmp_eq 6 buf (codes "timer ") ≡ true
        → scan_timer buf ≡ some (off, on)
        → beeper_write hw rounds product scan_timer scan_rep user (b, w)
          ≡ (let (r, b') = timer_command (some (off, on)) (length user.bytes) b in some (r, b', w))
  unfolding beeper_write beeper_command copy_line
  beeper_write_timer user off on b w readable some_bytes short word scanned =
      ground (arith, timer-NoSwitch (trim_newline (length user.bytes) (pad 32 user.bytes)) word)

  -- On hardware whose beeper switches, from a state with no timer running in which `count` beeps of an
  -- earlier `rep` are still counted: a text of 1 to 31 bytes that can be read, begins with `rep` and
  -- holds a number of times above that count, and two delays from 20 to 99999, is taken whole and starts
  -- the timer at 100 ms. The timer's handler returns `k` times for each `k` up to the number of times
  -- less that count, after which the timer is off where `k` is all of them, and else is pending for the
  -- sum of the two delays. So the beeps are as many as were asked for where the count is 0, and else
  -- fewer.
  pub beeper_write-expire :
      (user : UserBuffer) (times off on k : ℕ) (b : Beeper) (w : hw.World)
      → Switches hw rounds product
      → user.readable ≡ true
      → 1 ≤ length user.bytes
      → length user.bytes ≤ 31
      → let buf = trim_newline (length user.bytes) (pad 32 user.bytes) in
        strncmp_eq 3 buf (codes "rep ") ≡ true
        → scan_rep buf ≡ some (times, off, on)
        → (20 ≤ off) × (off ≤ 99999) × (20 ≤ on) × (on ≤ 99999)
        → (b.timer_status ≡ 0) × (b.count < times)
        → 1 ≤ k
        → k ≤ times - b.count
        → let b' = record b {
          delay_off = off;
          delay_on = on;
          g_count = times;
          timer = some 100;
          timer_status = 1;
        } in
          (beeper_write hw rounds product scan_timer scan_rep user (b, w)
            ≡ some (count (length user.bytes), b', w))
          × ((s : Beeper × hw.World) × (expire hw rounds product k (b', w) ≡ some s)
              × (s.0.timer ≡ (if k == times - b.count then none else some (off + on)))
              × (s.0.timer_status ≡ (if k == times - b.count then 0 else 1)))
  unfolding rep_command
  beeper_write-expire user times off on k b w switches readable some_bytes short word scanned delays
        idle first last =
      let b' : Beeper = record b {
        delay_off = off;
        delay_on = on;
        g_count = times;
        timer = some 100;
        timer_status = 1;
      } in
      let (s, run, off_after, status_after, count_after) =
        expire_lem hw rounds product switches k (times - b.count) 100 b' w (ground arith) refl first
          last in
      (
        beeper_write_rep user times off on b w readable some_bytes short word scanned
            ∙ ground (arith, idle, delays),
        (s, run, off_after, status_after),
      )

  -- The same for a text that begins with `timer ` and holds the two delays, where an earlier `rep`
  -- has left a number of times, at least one, behind: the number stays, and the timer, asked for
  -- without one, is off after as many runs.
  pub beeper_write-expire_stale :
      (user : UserBuffer) (times off on : ℕ) (b : Beeper) (w : hw.World)
      → Switches hw rounds product
      → user.readable ≡ true
      → 1 ≤ length user.bytes
      → length user.bytes ≤ 31
      → let buf = trim_newline (length user.bytes) (pad 32 user.bytes) in
        strncmp_eq 6 buf (codes "timer ") ≡ true
        → scan_timer buf ≡ some (off, on)
        → (20 ≤ off) × (off ≤ 99999) × (20 ≤ on) × (on ≤ 99999)
        → (b.timer_status ≡ 0) × (b.count ≡ 0) × (b.g_count ≡ times)
        → 1 ≤ times
        → let b' = record b {
          delay_off = off;
          delay_on = on;
          timer = some 100;
          timer_status = 1;
        } in
          (beeper_write hw rounds product scan_timer scan_rep user (b, w)
            ≡ some (count (length user.bytes), b', w))
          × ((s : Beeper × hw.World) × (expire hw rounds product times (b', w) ≡ some s)
              × (s.0.timer ≡ none))
  unfolding timer_command
  beeper_write-expire_stale user times off on b w switches readable some_bytes short word scanned
        delays idle some_times =
      let b' : Beeper = record b {
        delay_off = off;
        delay_on = on;
        timer = some 100;
        timer_status = 1;
      } in
      let (s, run, off_after, status_after, count_after) =
        expire_lem hw rounds product switches times times 100 b' w (ground arith) refl some_times
          (omega arith) in
      (
        beeper_write_timer user off on b w readable some_bytes short word scanned
            ∙ ground (arith, idle, delays),
        (s, run, ground (arith, off_after)),
      )
