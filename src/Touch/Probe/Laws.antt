-- ===== src/Touch/Probe/Laws.antt =====
-- What a probe that fails leaves, and what a removal gives back.
use ugreen_frontpanel.Base.{
  ℕ, ◌≡◌, ◌≢◌, ap, sym, ◌∙◌, inl, inr, Bool, Bool-cases, true, false, ◌&&◌, ◌==◌, if◌then◌else◌,
  none, some, ℤ, pos, arith,
}
use ugreen_frontpanel.Touch.Bus.{is_int}
use ugreen_frontpanel.Touch.Probe.{
  Answers, Held, axs_bus_init, axs_bus_exit, axs_input_init, axs_debug_remove_sysfs,
  axs_ts_probe_entry, exit_release_bus, exit_release_input, axs_ts_probe, axs_ts_remove,
}

abbrev pub nothing_but : ℕ → Held
nothing_but n = record {
  ts_data = false;
  pdata = false;
  ts_workqueue = false;
  bus_tx_buf = false;
  bus_rx_buf = false;
  input_dev = false;
  proc_dir = false;
  sysfs = false;
  debug_tx_buf = false;
  debug_rx_buf = false;
  fb_notif = false;
  irq = false;
  stray_frees = n;
}

-- The probe comes to its request of the interrupt.
abbrev pub comes_to_irq : Answers → Bool
comes_to_irq k =
    k.functionality
    && k.addr == 0x3b
    && k.kzalloc_data
    && k.kzalloc_pdata
    && k.create_workqueue
    && k.kzalloc_tx
    && k.kzalloc_rx
    && k.input_allocate
    && k.input_register

axs_ts_probe-released :
    (k : Answers)
    → comes_to_irq k ≡ false
    → record (axs_ts_probe k (nothing_but 0)).1 { stray_frees = 0 } ≡ nothing_but 0
unfolding axs_ts_probe exit_release_input exit_release_bus axs_bus_init axs_input_init
axs_ts_probe-released k early = ground arith

-- What a probe leaves whose interrupt is refused: the registered input device, and the files and the
-- notifier that were set up.
abbrev pub left_over : Answers → Held
left_over k = record (nothing_but 0) {
  input_dev = true;
  proc_dir = k.proc_create;
  sysfs = k.sysfs_create_group;
  debug_tx_buf = k.sysfs_create_group && k.kzalloc_debug_tx;
  debug_rx_buf = k.sysfs_create_group && k.kzalloc_debug_tx && k.kzalloc_debug_rx;
  fb_notif = k.fb_register;
}

-- What the probe holds before it requests the interrupt.
abbrev all_held : Answers → Held
all_held k = record (left_over k) {
  ts_data = true;
  pdata = true;
  ts_workqueue = true;
  bus_tx_buf = true;
  bus_rx_buf = true;
}

abbrev requested : Answers → Bool → ℤ × Held
requested k accepted =
    if accepted
    then (pos 0, record (all_held k) { irq = true })
    else (k.request_irq, record (left_over k) { stray_frees = 2 })

axs_ts_probe-irq :
    (k : Answers)
    → comes_to_irq k ≡ true
    → axs_ts_probe k (nothing_but 0) ≡ requested k (is_int 0 k.request_irq)
unfolding axs_ts_probe exit_release_input exit_release_bus axs_bus_init axs_input_init
    axs_ts_probe_entry
axs_ts_probe-irq k comes = ground arith

-- A probe that fails before it requests the interrupt leaves nothing held. One whose interrupt is
-- refused leaves the registered input device, and of the files of /proc and sysfs, the debug buffers
-- and the frame buffer's notifier those that were set up. How often a GPIO is freed that was not
-- requested is left out.
pub axs_ts_probe-left_over :
    (k : Answers)
    → (axs_ts_probe k (nothing_but 0)).0 ≢ pos 0
    → record (axs_ts_probe k (nothing_but 0)).1 { stray_frees = 0 }
      ≡ (if comes_to_irq k then left_over k else nothing_but 0)
axs_ts_probe-left_over k failed =
    let chosen : Bool → Held = λ b. if b then left_over k else nothing_but 0 in
    elim (Bool-cases (comes_to_irq k)) [
      | inr early ↦ axs_ts_probe-released k early ∙ ap chosen (sym early)
      | inl comes ↦ elim (Bool-cases (is_int 0 k.request_irq)) [
        | inl accepted ↦
            let e = axs_ts_probe-irq k comes ∙ ap (requested k) accepted in
            absurd (failed (ap (λ r. r.0) e))
        | inr refused ↦
            let e = axs_ts_probe-irq k comes ∙ ap (requested k) refused in
            ap (λ r. record r.1 { stray_frees = 0 }) e ∙ ap chosen (sym comes)
      ]
    ]

-- After a probe that returns 0 a removal gives back all that is held, unless the platform data could
-- not be allocated: then the driver's data, which the probe has freed, is NULL, and the removal reads
-- through it.
pub axs_ts_remove-axs_ts_probe :
    (k : Answers)
    → (axs_ts_probe k (nothing_but 0)).0 ≡ pos 0
    → axs_ts_remove (axs_ts_probe k (nothing_but 0)).1
      ≡ (if k.kzalloc_pdata then some (nothing_but 0) else none)
unfolding axs_ts_remove axs_ts_probe axs_bus_exit axs_debug_remove_sysfs exit_release_input
    exit_release_bus axs_bus_init axs_input_init axs_ts_probe_entry
axs_ts_remove-axs_ts_probe k worked = ground arith
