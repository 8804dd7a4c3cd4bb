-- ===== src/Tests/Probe.antt =====
-- Runs of the probe of the touch driver.
use ugreen_frontpanel.Base.{◌≡◌, ◌≢◌, refl, subst, true, false, some, ℤ, pos, negsuc}
use ugreen_frontpanel.Touch.Probe.{
  Answers, axs_ts_probe, axs_ts_remove, axs_bus_init, axs_input_init,
}
use ugreen_frontpanel.Touch.Probe.Laws.{
  nothing_but, axs_ts_probe-left_over, axs_ts_remove-axs_ts_probe,
}

abbrev willing : Answers
willing = record {
  functionality = true;
  addr = 0x3b;
  kzalloc_data = true;
  kzalloc_pdata = true;
  create_workqueue = true;
  kzalloc_tx = true;
  kzalloc_rx = true;
  input_allocate = true;
  input_register = true;
  proc_create = true;
  sysfs_create_group = true;
  kzalloc_debug_tx = true;
  kzalloc_debug_rx = false;
  fb_register = true;
  request_irq = pos 0;
}

-- The interrupt is in use.
abbrev busy : Answers
busy = record willing { request_irq = negsuc 15 }

abbrev IsErr : ℤ → Type 0
IsErr (negsuc n) = Unit {0}
IsErr (pos n) = ⊥

busy_fails : (axs_ts_probe busy (nothing_but 0)).0 ≢ pos 0
unfolding axs_ts_probe axs_bus_init axs_input_init
busy_fails e = subst IsErr e tt

axs_ts_probe-left_over_example :
    record (axs_ts_probe busy (nothing_but 0)).1 { stray_frees = 0 } ≡ record (nothing_but 0) {
      input_dev = true;
      proc_dir = true;
      sysfs = true;
      debug_tx_buf = true;
      fb_notif = true;
    }
axs_ts_probe-left_over_example = axs_ts_probe-left_over busy busy_fails

axs_ts_remove-axs_ts_probe_example :
    axs_ts_remove (axs_ts_probe willing (nothing_but 0)).1 ≡ some (nothing_but 0)
unfolding axs_ts_probe axs_bus_init axs_input_init
axs_ts_remove-axs_ts_probe_example = axs_ts_remove-axs_ts_probe willing refl
