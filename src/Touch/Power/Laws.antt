-- ===== src/Touch/Power/Laws.antt =====
-- What holds of the driver over any events.
use ugreen_frontpanel.Base.{
  ◌+◌, ◌-◌, ◌≡◌, refl, sym, ◌∙◌, Bool, true, false, ◌||◌, List, [], ◌∷◌, ◌++◌, arith, if◌then◌else◌,
  ◌==◌, Bool-cases, inl, inr,
}
use ugreen_frontpanel.Touch.Bus.{TouchHw}
use ugreen_frontpanel.Touch.Frame.{TsData}
use ugreen_frontpanel.Touch.Report.{Input, axs_ts_report_thread_handler, axs_release_all_finger}
use ugreen_frontpanel.Touch.Report.Laws.{
  Panel, apply_all, IsTracked, release, handler-IsTracked, handle-IsTracked,
}
use ugreen_frontpanel.Touch.Power.{
  Driver, axs_irq_disable, axs_irq_enable, axs_ts_suspend, axs_ts_resume, FbBlank, unblank,
  powerdown, other_blank, axs_fb_notifier_callback, axs_resume_work, read_frame, axs_ts_interrupt,
  TouchEvent, interrupt, blank, resume_runs, handle, run,
}

-- The kernel's count is that of the driver's flag; the driver is suspended exactly while its
-- interrupt is disabled, and then has no touch; and the input layer is in step.
pub record IsPowered (d : Driver) (q : Panel) : Type 0 where
  pub balanced : d.irq_depth ≡ (if d.irq_disabled then 1 else 0)
  pub asleep : d.suspended ≡ d.irq_disabled
  pub lifted : d.suspended ≡ true → d.touch.touchs ≡ 0
  pub tracked : IsTracked d.touch q

apply_all-append :
    (xs ys : List Input) (q : Panel) → apply_all (xs ++ ys) q ≡ apply_all ys (apply_all xs q)
apply_all-append [] ys q = refl
apply_all-append (x ∷ xs) ys q = apply_all-append xs ys _

release-IsTracked :
    (d : TsData) (q : Panel)
    → IsTracked d q
    → IsTracked (axs_release_all_finger d).0 (apply_all (axs_release_all_finger d).1 q)
release-IsTracked d q tracked = handle-IsTracked release d q tracked

release-lifted : (d : TsData) → (axs_release_all_finger d).0.touchs ≡ 0
unfolding axs_release_all_finger
release-lifted d = refl

-- The branches of suspend and resume.
pub suspend_idle : (d : Driver) → (d.suspended || d.fw_loading) ≡ true → axs_ts_suspend d ≡ (d, [])
unfolding axs_ts_suspend
suspend_idle d h = ground arith

pub suspend_awake :
    (d : Driver)
    → d.suspended ≡ false
    → d.fw_loading ≡ false
    → d.irq_disabled ≡ false
    → axs_ts_suspend d ≡ (
      record d {
        touch = (axs_release_all_finger d.touch).0;
        irq_disabled = true;
        irq_depth = d.irq_depth + 1;
        suspended = true;
      },
      (axs_release_all_finger d.touch).1,
    )
unfolding axs_ts_suspend axs_irq_disable
suspend_awake d awake idle on = ground arith

pub resume_awake : (d : Driver) → d.suspended ≡ false → axs_ts_resume d ≡ (d, [])
unfolding axs_ts_resume
resume_awake d h = ground arith

resume_asleep :
    (d : Driver)
    → d.suspended ≡ true
    → d.irq_disabled ≡ true
    → axs_ts_resume d ≡ (
      record d {
        touch = (axs_release_all_finger d.touch).0;
        irq_disabled = false;
        irq_depth = d.irq_depth - 1;
        suspended = false;
      },
      (axs_release_all_finger d.touch).1,
    )
unfolding axs_ts_resume axs_irq_enable
resume_asleep d asleep off = ground arith

suspend-IsPowered :
    (d : Driver) (q : Panel)
    → IsPowered d q
    → IsPowered (axs_ts_suspend d).0 (apply_all (axs_ts_suspend d).1 q)
suspend-IsPowered d q v = elim (Bool-cases (d.suspended || d.fw_loading)) [
  | inl idle ↦ rw (suspend_idle d idle) v
  | inr awake ↦
      let on : d.irq_disabled ≡ false = ground (arith, v.asleep) in
      rw (suspend_awake d (ground arith) (ground arith) on) record {
        balanced = ground (arith, v.balanced);
        asleep = refl;
        lifted = λ _. release-lifted d.touch;
        tracked = release-IsTracked d.touch q v.tracked;
      }
]

resume-IsPowered :
    (d : Driver) (q : Panel)
    → IsPowered d q
    → IsPowered (axs_ts_resume d).0 (apply_all (axs_ts_resume d).1 q)
resume-IsPowered d q v = elim (Bool-cases d.suspended) [
  | inl asleep ↦
      let off : d.irq_disabled ≡ true = sym v.asleep ∙ asleep in
      rw (resume_asleep d asleep off) record {
        balanced = ground (arith, v.balanced);
        asleep = refl;
        lifted = λ e. release-lifted d.touch;
        tracked = release-IsTracked d.touch q v.tracked;
      }
  | inr awake ↦ rw (resume_awake d awake) v
]

-- A change of the queue is seen by none of it.
queue-IsPowered :
    (d : Driver) (q : Panel) (b : Bool)
    → IsPowered d q
    → IsPowered (record d { resume_queued = b }) q
queue-IsPowered d q b v = record {
  balanced = v.balanced;
  asleep = v.asleep;
  lifted = v.lifted;
  tracked = v.tracked;
}

callback-IsPowered :
    (b : FbBlank) (d : Driver) (q : Panel)
    → IsPowered d q
    → let (d', told) = axs_fb_notifier_callback b d in IsPowered d' (apply_all told q)
unfolding axs_fb_notifier_callback
callback-IsPowered unblank d q v = queue-IsPowered d q true v
callback-IsPowered powerdown d q v = suspend-IsPowered _ q (queue-IsPowered d q false v)
callback-IsPowered other_blank d q v = v

pub work_idle : (d : Driver) → d.resume_queued ≡ false → axs_resume_work d ≡ (d, [])
unfolding axs_resume_work
work_idle d h = ground arith

pub work_runs :
    (d : Driver)
    → d.resume_queued ≡ true
    → axs_resume_work d ≡ axs_ts_resume (record d { resume_queued = false })
unfolding axs_resume_work
work_runs d h = ground arith

work-IsPowered :
    (d : Driver) (q : Panel)
    → IsPowered d q
    → IsPowered (axs_resume_work d).0 (apply_all (axs_resume_work d).1 q)
work-IsPowered d q v = elim (Bool-cases d.resume_queued) [
  | inl queued ↦ rw (work_runs d queued) (resume-IsPowered _ q (queue-IsPowered d q false v))
  | inr idle ↦ rw (work_idle d idle) v
]

module _ (hw : TouchHw) where
  open hw use {World}

  pub interrupt_loading :
      (d : Driver) (w : World) → d.fw_loading ≡ true → axs_ts_interrupt hw (d, w) ≡ ((d, w), [])
  unfolding axs_ts_interrupt
  interrupt_loading d w h = ground arith

  interrupt_reads :
      (d : Driver) (w : World)
      → d.fw_loading ≡ false
      → let (read, (d', w')) = read_frame hw (d, w) in
        let (touch, told) = axs_ts_report_thread_handler read d.touch in
        axs_ts_interrupt hw (d, w)
        ≡ ((record d { commands = d'.commands; touch = touch }, w'), told)
  unfolding axs_ts_interrupt read_frame
  interrupt_reads d w h = ground arith

  interrupt-IsPowered :
      (d : Driver) (w : World) (q : Panel)
      → d.irq_depth ≡ 0
      → IsPowered d q
      → let ((d', w'), told) = axs_ts_interrupt hw (d, w) in IsPowered d' (apply_all told q)
  interrupt-IsPowered d w q on v = elim (Bool-cases d.fw_loading) [
    | inl loading ↦ rw (interrupt_loading d w loading) v
    | inr idle ↦ rw (interrupt_reads d w idle) record {
      balanced = v.balanced;
      asleep = v.asleep;
      lifted = λ e. absurd (ground (arith, v.balanced, v.asleep));
      tracked = handler-IsTracked (read_frame hw (d, w)).0 d.touch q v.tracked;
    }
  ]

  handle-IsPowered :
      (v : TouchEvent hw) (d : Driver) (w : World) (q : Panel)
      → IsPowered d q
      → let ((d', w'), told) = handle hw v (d, w) in IsPowered d' (apply_all told q)
  handle-IsPowered interrupt d w q powered = elim (Bool-cases (d.irq_depth == 0)) [
    | inl on ↦ rw on (interrupt-IsPowered d w q (ground arith) powered)
    | inr off ↦ rw off powered
  ]
  handle-IsPowered (blank b) d w q powered = callback-IsPowered b d q powered
  handle-IsPowered resume_runs d w q powered = work-IsPowered d q powered

  -- Over any interrupts, whatever the bus gives at them, any blanking and unblanking of the screen,
  -- and any runs of the resume work between them: the kernel's count of disabled interrupts is 1
  -- where the driver says so and else 0, the driver is suspended exactly while its interrupt is
  -- disabled, no touch is down while it is suspended, and the input layer is in step with the
  -- driver's mask, where all this held at first.
  pub run-IsPowered :
      (vs : List (TouchEvent hw)) (d : Driver) (w : World) (q : Panel)
      → IsPowered d q
      → let ((d', w'), told) = run hw vs (d, w) in IsPowered d' (apply_all told q)
  run-IsPowered [] d w q powered = powered
  run-IsPowered (v ∷ vs) d w q powered =
      let ((d', w'), told) = handle hw v (d, w) in
      rw (apply_all-append told (run hw vs (d', w')).1 q)
        (run-IsPowered vs d' w' (apply_all told q) (handle-IsPowered v d w q powered))
