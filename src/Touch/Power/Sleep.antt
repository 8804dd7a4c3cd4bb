-- ===== src/Touch/Power/Sleep.antt =====
-- A touch panel whose screen is off, or whose firmware is said to be loading.
use ugreen_frontpanel.Base.{
  ◌≡◌, ◌≢◌, refl, sym, ◌∙◌, true, false, List, [], ◌∷◌, arith, ◌==◌, Bool-cases, inl, inr,
}
use ugreen_frontpanel.Touch.Bus.{TouchHw}
use ugreen_frontpanel.Touch.Report.Laws.{Panel}
use ugreen_frontpanel.Touch.Power.{
  Driver, FbBlank, unblank, powerdown, other_blank, axs_fb_notifier_callback, axs_resume_work,
  TouchEvent, interrupt, blank, resume_runs, handle, run,
}
use ugreen_frontpanel.Touch.Power.Laws.{
  IsPowered, suspend_idle, suspend_awake, resume_awake, work_idle, work_runs, interrupt_loading,
}

module _ (hw : TouchHw) where
  open hw use {World}

  -- No event unblanks the screen.
  abbrev pub StaysDark : List (TouchEvent hw) → Type 0
  StaysDark [] = Unit {0}
  StaysDark (v ∷ vs) = (v ≢ blank unblank) × StaysDark vs

  record IsAsleep (d : Driver) : Type 0 where
    suspended_now : d.suspended ≡ true
    not_queued : d.resume_queued ≡ false
    disabled : d.irq_depth ≡ 1

  IsAsleep-step :
      (v : TouchEvent hw) (d : Driver) (w : World)
      → v ≢ blank unblank
      → IsAsleep d
      → let ((d', w'), told) = handle hw v (d, w) in (told ≡ []) × IsAsleep d'
  unfolding axs_fb_notifier_callback
  IsAsleep-step interrupt d w quiet a =
      let off : (d.irq_depth == 0) ≡ false = ground (arith, a.disabled) in rw off (refl, a)
  IsAsleep-step (blank unblank) d w quiet a = absurd (quiet refl)
  IsAsleep-step (blank powerdown) d w quiet a =
      let d' = record d { resume_queued = false } in
      rw (suspend_idle d' (ground (arith, a.suspended_now)))
        (refl, record { suspended_now = a.suspended_now; not_queued = refl; disabled = a.disabled })
  IsAsleep-step (blank other_blank) d w quiet a = (refl, a)
  IsAsleep-step resume_runs d w quiet a = rw (work_idle d a.not_queued) (refl, a)

  IsAsleep-run :
      (vs : List (TouchEvent hw)) (d : Driver) (w : World)
      → StaysDark vs
      → IsAsleep d
      → let ((d', w'), told) = run hw vs (d, w) in (told ≡ []) × IsAsleep d'
  IsAsleep-run [] d w dark a = (refl, a)
  IsAsleep-run (v ∷ vs) d w dark a =
      let one = IsAsleep-step v d w dark.0 a in
      let s = (handle hw v (d, w)).0 in
      let rest = IsAsleep-run vs s.0 s.1 dark.1 one.1 in (rw one.0 rest.0, rest.1)

  powerdown-IsAsleep :
      (d : Driver) (q : Panel)
      → d.fw_loading ≡ false
      → IsPowered d q
      → IsAsleep (axs_fb_notifier_callback powerdown d).0
  unfolding axs_fb_notifier_callback
  powerdown-IsAsleep d q idle v =
      let d' = record d { resume_queued = false } in
      elim (Bool-cases d.suspended) [
        | inl asleep ↦ rw (suspend_idle d' (ground arith)) record {
          suspended_now = asleep;
          not_queued = refl;
          disabled = ground (arith, v.balanced, v.asleep);
        }
        | inr awake ↦ rw (suspend_awake d' awake idle (sym v.asleep ∙ awake)) record {
          suspended_now = refl;
          not_queued = refl;
          disabled = ground (arith, v.balanced, v.asleep);
        }
      ]

  -- In a driver whose flags are in step with the kernel's count of disabled interrupts: once the
  -- screen is powered down while no firmware is loading, over any interrupts, resume works and screen
  -- events but an unblank, and short of a load of a firmware by hand, which enables the interrupt at
  -- its end, the panel stays suspended and the input layer is told nothing. No interrupt gets through,
  -- and a resume that was queued before is not run.
  pub powerdown-quiet :
      (vs : List (TouchEvent hw)) (d : Driver) (w : World) (q : Panel)
      → IsPowered d q
      → d.fw_loading ≡ false
      → StaysDark vs
      → let (s, told) = handle hw (blank powerdown) (d, w) in
        let ((d', w'), later) = run hw vs s in (later ≡ []) × (d'.suspended ≡ true)
  powerdown-quiet vs d w q powered idle dark =
      let slept =
        IsAsleep-run vs (axs_fb_notifier_callback powerdown d).0 w dark
          (powerdown-IsAsleep d q idle powered) in
      (slept.0, slept.1.suspended_now)

  -- A firmware is said to be loading, and the panel is not suspended.
  pub record IsStuck (d : Driver) : Type 0 where
    pub loading : d.fw_loading ≡ true
    pub awake : d.suspended ≡ false

  stuck_callback :
      (b : FbBlank) (d : Driver)
      → IsStuck d
      → let (d', told) = axs_fb_notifier_callback b d in (told ≡ []) × IsStuck d'
  unfolding axs_fb_notifier_callback
  stuck_callback unblank d a = (refl, record { loading = a.loading; awake = a.awake })
  stuck_callback powerdown d a =
      rw (suspend_idle (record d { resume_queued = false }) (ground (arith, a.loading)))
        (refl, record { loading = a.loading; awake = a.awake })
  stuck_callback other_blank d a = (refl, a)

  stuck_work :
      (d : Driver) → IsStuck d → ((axs_resume_work d).1 ≡ []) × IsStuck (axs_resume_work d).0
  stuck_work d a = elim (Bool-cases d.resume_queued) [
    | inl queued ↦
        rw (work_runs d queued, resume_awake (record d { resume_queued = false }) a.awake)
          (refl, record { loading = a.loading; awake = a.awake })
    | inr idle ↦ rw (work_idle d idle) (refl, a)
  ]

  stuck_step :
      (v : TouchEvent hw) (d : Driver) (w : World)
      → IsStuck d
      → let ((d', w'), told) = handle hw v (d, w) in (told ≡ []) × IsStuck d'
  stuck_step interrupt d w a = elim (Bool-cases (d.irq_depth == 0)) [
    | inl on ↦ rw (on, interrupt_loading hw d w a.loading) (refl, a)
    | inr off ↦ rw off (refl, a)
  ]
  stuck_step (blank b) d w a = stuck_callback b d a
  stuck_step resume_runs d w a = stuck_work d a

  -- While the flag says that a firmware is loading and the panel is not suspended, no event makes
  -- the driver tell the input layer anything, and neither changes.
  pub stuck_run :
      (vs : List (TouchEvent hw)) (d : Driver) (w : World)
      → IsStuck d
      → let ((d', w'), told) = run hw vs (d, w) in (told ≡ []) × IsStuck d'
  stuck_run [] d w a = (refl, a)
  stuck_run (v ∷ vs) d w a =
      let one = stuck_step v d w a in
      let s = (handle hw v (d, w)).0 in
      let rest = stuck_run vs s.0 s.1 one.1 in (rw one.0 rest.0, rest.1)
