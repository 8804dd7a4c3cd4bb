-- ===== src/Touch/Power.antt =====
-- Interrupt, suspend and resume of packages/axs-touch/src/axs_core.c, for a kernel with CONFIG_FB. The
-- ESD and pen checks are compiled out by axs_config.h.
pub mod Laws
pub mod Sleep
use ugreen_frontpanel.Base.{
  ℕ, ◌+◌, ◌-◌, ◌==◌, Bool, true, false, not, List, [], ◌∷◌, ◌++◌, if◌then◌else◌, replicate,
  is_negative, Result, ok, err, eio,
}
use ugreen_frontpanel.Touch.Bus.{TouchHw}
use ugreen_frontpanel.Touch.Registers.{Commands, axs_read_buf}
use ugreen_frontpanel.Touch.Frame.{TsData}
use ugreen_frontpanel.Touch.Report.{Input, axs_ts_report_thread_handler, axs_release_all_finger}

-- `g_axs_data`, with the command buffers, how often the kernel has the interrupt disabled, and
-- whether `resume_work` is queued.
pub record Driver : Type 0 where
  pub commands : Commands
  pub touch : TsData
  pub fw_loading : Bool
  pub irq_disabled : Bool
  pub irq_depth : ℕ
  pub suspended : Bool
  pub resume_queued : Bool

unfoldable pub axs_irq_disable : Driver → Driver
axs_irq_disable d =
    if not d.irq_disabled then record d { irq_disabled = true; irq_depth = d.irq_depth + 1 } else d

unfoldable pub axs_irq_enable : Driver → Driver
axs_irq_enable d =
    if d.irq_disabled then record d { irq_disabled = false; irq_depth = d.irq_depth - 1 } else d

-- axs_release_all_finger on the driver, with what the input layer is told.
abbrev pub release_all : Driver → Driver × List Input
release_all d =
    let (touch, told) = axs_release_all_finger d.touch in (record d { touch = touch }, told)

unfoldable pub axs_ts_suspend : Driver → Driver × List Input
axs_ts_suspend d =
    let (d', told) = release_all (axs_irq_disable d) in
    if d.suspended
    then (d, [])
    else if d.fw_loading
    then (d, [])
    else (record d' { suspended = true }, told)

unfoldable pub axs_ts_resume : Driver → Driver × List Input
axs_ts_resume d =
    let (d', told) = release_all d in
    if not d.suspended then (d, []) else (record (axs_irq_enable d') { suspended = false }, told)

-- The value of `*blank` for an event FB_EVENT_BLANK.
pub data FbBlank : Type 0 where
  unblank powerdown other_blank : FbBlank

unfoldable pub axs_fb_notifier_callback : FbBlank → Driver → Driver × List Input
axs_fb_notifier_callback unblank d = (record d { resume_queued = true }, [])
axs_fb_notifier_callback powerdown d = axs_ts_suspend (record d { resume_queued = false })
axs_fb_notifier_callback other_blank d = (d, [])

-- axs_resume_work, which the kernel runs once where it is queued.
unfoldable pub axs_resume_work : Driver → Driver × List Input
axs_resume_work d =
    if d.resume_queued then axs_ts_resume (record d { resume_queued = false }) else (d, [])

module _ (hw : TouchHw) where
  open hw use {World}

  -- The read of axs_read_touchdata: 15 bytes, over a buffer of 0xff. Nobody looks at the error.
  unfoldable pub read_frame : Driver × World → Result (List ℕ) × (Driver × World)
  read_frame (d, w) =
      let (ret, buf, (commands, w')) = axs_read_buf hw (replicate 15 0xff) (d.commands, w) in
      (if is_negative ret then err eio else ok buf, (record d { commands = commands }, w'))

  unfoldable pub axs_ts_interrupt : Driver × World → (Driver × World) × List Input
  axs_ts_interrupt (d, w) =
      let (read, (d', w')) = read_frame (d, w) in
      let (touch, told) = axs_ts_report_thread_handler read d'.touch in
      if d.fw_loading then ((d, w), []) else ((record d' { touch = touch }, w'), told)

  -- What happens to the driver. The kernel holds an interrupt back while it is disabled.
  pub data TouchEvent : Type 0 where
    interrupt : TouchEvent
    blank : FbBlank → TouchEvent
    resume_runs : TouchEvent

  abbrev pub on_driver :
      (Driver → Driver × List Input) → Driver × World → (Driver × World) × List Input
  on_driver f (d, w) = let (d', told) = f d in ((d', w), told)

  abbrev pub handle : TouchEvent → Driver × World → (Driver × World) × List Input
  handle interrupt (d, w) = if d.irq_depth == 0 then axs_ts_interrupt (d, w) else ((d, w), [])
  handle (blank b) s = on_driver (axs_fb_notifier_callback b) s
  handle resume_runs s = on_driver axs_resume_work s

  abbrev pub run : List TouchEvent → Driver × World → (Driver × World) × List Input
  run [] s = (s, [])
  run (v ∷ vs) s =
      let (s', told) = handle v s in let (s'', later) = run vs s' in (s'', told ++ later)
