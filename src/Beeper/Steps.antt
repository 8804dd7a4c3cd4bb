-- ===== src/Beeper/Steps.antt =====
-- The beeper as a state machine: a step is a command typed into /proc/nas/beeper, the timer running
-- out, or the delayed work. Each runs as a whole.
pub mod Laws
use ugreen_frontpanel.Base.{
  ℕ, zero, suc, ◌+◌, ◌≤◌, ◌≡◌, refl, ap, Bool, true, false, ◌&&◌, ◌||◌, List, Option,
  some-injective, none, some, arith, ltb, ◌==◌, if◌then◌else◌, Ssize, Option-cases, inl, inr, codes,
  strncmp_eq, length,
}
use ugreen_frontpanel.ProcFile.{UserBuffer, Copied, line, refused, wild, copy_line}
use ugreen_frontpanel.Ec.Ports.{Ports}
use ugreen_frontpanel.Beeper.Speaker.{switch_beeper}
use ugreen_frontpanel.Beeper.Timer.{
  Beeper, stop_timer, after_beat, with_delays, set_beeper, beeper_timer_handle,
  beeper_delay_work_func,
}
use ugreen_frontpanel.Beeper.Command.{
  either_case, timer_command, rep_command, switch_command, beeper_command, beeper_write,
}

-- Every file variable is 0 when the module is loaded.
abbrev pub initial : Beeper
initial = record {
  timer_status = 0;
  delay_off = 0;
  delay_on = 0;
  g_count = 0;
  count = 0;
  timer = none;
  work = none;
}

abbrev pub is_pending : Option ℕ → ℕ
is_pending none = 0
is_pending (some d) = 1

abbrev pub remaining : Option ℕ → ℕ
remaining none = 0
remaining (some d) = d

-- The status says whether the timer is pending, and the delays are those that a command may set.
pub record IsValid (b : Beeper) : Type 0 where
  pub status_is : b.timer_status ≡ is_pending b.timer
  pub on_bound : b.delay_on ≤ 99999
  pub off_bound : b.delay_off ≤ 99999
  pub timer_bound : remaining b.timer ≤ 199998

module _ (hw : Ports) (rounds : ℕ) (product : List ℕ) (scan_timer : List ℕ → Option (ℕ × ℕ))
    (scan_rep : List ℕ → Option (ℕ × ℕ × ℕ)) where
  abbrev State : Type 0
  State = Beeper × hw.World

  pub data Step : State → State → Type 0 where
    typed :
        (user : UserBuffer) (r : Ssize) (s t : State)
        → beeper_write hw rounds product scan_timer scan_rep user s ≡ some (r, t.0, t.1)
        → Step s t
    expired :
        (d : ℕ) (s t : State)
        → s.0.timer ≡ some d
        → beeper_timer_handle hw rounds product s ≡ some t
        → Step s t
    worked :
        (d : ℕ) (s t : State)
        → s.0.work ≡ some d
        → beeper_delay_work_func hw rounds product s ≡ some t
        → Step s t

  pub data Steps : State → State → Type 0 where
    stay : (s : State) → Steps s s
    next : (s t u : State) → Step s t → Steps t u → Steps s u
