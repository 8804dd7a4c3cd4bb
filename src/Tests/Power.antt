-- ===== src/Tests/Power.antt =====
-- Runs of the touch driver with interrupts, and with the screen blanked and unblanked.
use ugreen_frontpanel.Base.{ℕ, ◌≡◌, refl, true, false, List, [], ◌∷◌, ℤ, pos, negsuc, length}
use ugreen_frontpanel.Touch.Bus.{TouchHw}
use ugreen_frontpanel.Touch.Registers.{initial_commands, axs_read_regs}
use ugreen_frontpanel.Touch.Registers.Form.{IsCommands, initial_commands-IsCommands}
use ugreen_frontpanel.Touch.Registers.Laws.{read_regs_afresh, axs_read_regs-afresh}
use ugreen_frontpanel.Touch.Power.{
  Driver, interrupt, run, blank, unblank, powerdown, resume_runs, handle,
}
use ugreen_frontpanel.Touch.Power.Laws.{IsPowered, run-IsPowered}
use ugreen_frontpanel.Touch.Power.Sleep.{powerdown-quiet}
use ugreen_frontpanel.Touch.Report.Laws.{apply_all}
use ugreen_frontpanel.Tests.Touch.{
  down_frame, up_frame, idle_driver, idle_panel, idle-IsTracked_start,
}

-- A bus that hands over one frame after the other.
abbrev next_frame : List ℕ → List (List ℕ) → ℤ × List ℕ × List (List ℕ)
next_frame buf [] = (negsuc 4, buf, [])
next_frame buf (f ∷ fs) = (pos (length buf), f, fs)

abbrev frames_hw : TouchHw
frames_hw = record {
  World = List (List ℕ);
  i2c_master_send = λ bytes w. (pos (length bytes), w);
  i2c_master_recv = λ buf w. next_frame buf w;
  gpio_direction_output = λ level w. w;
  gpio_set_value = λ level w. w;
  msleep = λ ms w. w;
  mdelay = λ ms w. w;
  usleep_range = λ low high w. w;
}

abbrev driver : Driver
driver = record {
  commands = initial_commands;
  touch = idle_driver;
  fw_loading = false;
  irq_disabled = false;
  irq_depth = 0;
  suspended = false;
  resume_queued = false;
}

abbrev driver-IsPowered : IsPowered driver idle_panel
driver-IsPowered = record {
  balanced = refl;
  asleep = refl;
  lifted = λ e. refl;
  tracked = idle-IsTracked_start;
}

run-IsPowered_example :
    let vs =
      interrupt ∷ blank powerdown ∷ interrupt ∷ blank unblank ∷ resume_runs ∷ interrupt ∷ [] in
    let ((d', w'), told) = run frames_hw vs (driver, down_frame ∷ up_frame ∷ []) in
    IsPowered d' (apply_all told idle_panel)
run-IsPowered_example =
    run-IsPowered frames_hw
      (interrupt ∷ blank powerdown ∷ interrupt ∷ blank unblank ∷ resume_runs ∷ interrupt ∷ [])
      driver (down_frame ∷ up_frame ∷ []) idle_panel driver-IsPowered

powerdown-quiet_example :
    let (s, told) = handle frames_hw (blank powerdown) (driver, down_frame ∷ up_frame ∷ []) in
    let ((d', w'), later) = run frames_hw (interrupt ∷ resume_runs ∷ blank powerdown ∷ []) s in
    (later ≡ []) × (d'.suspended ≡ true)
powerdown-quiet_example =
    powerdown-quiet frames_hw (interrupt ∷ resume_runs ∷ blank powerdown ∷ []) driver
      (down_frame ∷ up_frame ∷ []) idle_panel driver-IsPowered refl
      ((λ e. cc), ((λ e. cc), ((λ e. cc), tt)))

axs_read_regs-afresh_example :
    let (ret, buf', (c', w')) =
      axs_read_regs frames_hw (0x0a ∷ []) (0 ∷ 0 ∷ []) (initial_commands, (5 ∷ 6 ∷ []) ∷ []) in
    ((ret, buf', w') ≡ read_regs_afresh frames_hw (0x0a ∷ []) (0 ∷ 0 ∷ []) ((5 ∷ 6 ∷ []) ∷ []))
    × IsCommands c'
axs_read_regs-afresh_example =
    axs_read_regs-afresh frames_hw initial_commands (0x0a ∷ []) (0 ∷ 0 ∷ []) ((5 ∷ 6 ∷ []) ∷ [])
      initial_commands-IsCommands
