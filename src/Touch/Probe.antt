-- ===== src/Touch/Probe.antt =====
-- axs_ts_probe and axs_ts_remove of packages/axs-touch/src/axs_core.c, with axs_bus_init,
-- axs_bus_exit, axs_input_init and the set-up of the debug files: what they acquire of the kernel and
-- give back, for a kernel with CONFIG_FB.
pub mod Laws
use ugreen_frontpanel.Base.{
  ℕ, zero, suc, ◌+◌, Bool, true, false, not, ◌==◌, if◌then◌else◌, Option, none, some, ℤ, pos,
  negsuc,
}
use ugreen_frontpanel.Touch.Bus.{is_int}

-- What the kernel answers to each call.
pub record Answers : Type 0 where
  pub functionality : Bool
  pub addr : ℕ
  pub kzalloc_data : Bool
  pub kzalloc_pdata : Bool
  pub create_workqueue : Bool
  pub kzalloc_tx : Bool
  pub kzalloc_rx : Bool
  pub input_allocate : Bool
  pub input_register : Bool
  pub proc_create : Bool
  pub sysfs_create_group : Bool
  pub kzalloc_debug_tx : Bool
  pub kzalloc_debug_rx : Bool
  pub fb_register : Bool
  pub request_irq : ℤ

-- What the driver holds. `input_dev` is a registered input device, `stray_frees` counts the GPIOs that
-- are freed though none was requested.
pub record Held : Type 0 where
  pub ts_data : Bool
  pub pdata : Bool
  pub ts_workqueue : Bool
  pub bus_tx_buf : Bool
  pub bus_rx_buf : Bool
  pub input_dev : Bool
  pub proc_dir : Bool
  pub sysfs : Bool
  pub debug_tx_buf : Bool
  pub debug_rx_buf : Bool
  pub fb_notif : Bool
  pub irq : Bool
  pub stray_frees : ℕ

unfoldable pub axs_bus_init : Answers → Held → Bool × Held
axs_bus_init k h =
    let h' = record h { bus_tx_buf = true } in
    if not k.kzalloc_tx
    then (false, h)
    else if not k.kzalloc_rx
    then (false, h')
    else (true, record h' { bus_rx_buf = true })

unfoldable pub axs_bus_exit : Held → Held
axs_bus_exit h = record h { bus_tx_buf = false; bus_rx_buf = false }

-- A device that cannot be registered is freed again.
unfoldable pub axs_input_init : Answers → Held → Bool × Held
axs_input_init k h =
    if not k.input_allocate
    then (false, h)
    else if not k.input_register
    then (false, h)
    else (true, record h { input_dev = true })

unfoldable pub axs_debug_create_sysfs : Answers → Held → Held
axs_debug_create_sysfs k h =
    let h1 = record h { sysfs = true } in
    let h2 = record h1 { debug_tx_buf = true } in
    if not k.sysfs_create_group
    then h
    else if not k.kzalloc_debug_tx
    then h1
    else if not k.kzalloc_debug_rx
    then h2
    else record h2 { debug_rx_buf = true }

unfoldable pub axs_debug_remove_sysfs : Held → Held
axs_debug_remove_sysfs h = record h { debug_tx_buf = false; debug_rx_buf = false; sysfs = false }

-- The results of these two calls are only logged.
unfoldable pub axs_ts_probe_entry : Answers → Held → Held
unfolding axs_debug_create_sysfs
axs_ts_probe_entry k h =
    axs_debug_create_sysfs k (if k.proc_create then record h { proc_dir = true } else h)

-- What follows the labels, from the last one on.
unfoldable pub exit_release_g_axs_data : Held → Held
exit_release_g_axs_data h = record h { ts_data = false }

unfoldable pub exit_release_gpio : Held → Held
unfolding exit_release_g_axs_data
exit_release_gpio h =
    exit_release_g_axs_data (record h { pdata = false; stray_frees = h.stray_frees + 2 })

unfoldable pub exit_release_bus : Held → Held
unfolding exit_release_gpio
exit_release_bus h =
    exit_release_gpio (record h { bus_tx_buf = false; bus_rx_buf = false; ts_workqueue = false })

-- input_free_device does not take a registered device from the kernel.
unfoldable pub exit_release_input : Held → Held
exit_release_input = exit_release_bus

-- What is returned and held. What axs_fwupg_get_ver_in_tp reads in between is only logged.
unfoldable pub axs_ts_probe : Answers → Held → ℤ × Held
axs_ts_probe k h =
    let h1 = record h { ts_data = true } in
    let h2 = record h1 { pdata = true } in
    let h3 = record h2 { ts_workqueue = true } in
    let (bus, h4) = axs_bus_init k h3 in
    let (input, h5) = axs_input_init k h4 in
    let h6 = axs_ts_probe_entry k h5 in
    let h7 = if k.fb_register then record h6 { fb_notif = true } else h6 in
    if not k.functionality
    then (negsuc 18, h)
    else if not (k.addr == 0x3b)
    then (negsuc 2, h)
    else if not k.kzalloc_data
    then (negsuc 11, h)
    else if not k.kzalloc_pdata
    then (pos 0, exit_release_g_axs_data h1)
    else if not k.create_workqueue
    then (negsuc 2, exit_release_gpio h2)
    else if not bus
    then (negsuc 11, exit_release_bus h4)
    else if not input
    then (negsuc 11, exit_release_bus h5)
    else if not (is_int 0 k.request_irq)
    then (k.request_irq, exit_release_input h7)
    else (pos 0, record h7 { irq = true })

-- `none` is a read through g_axs_data after kfree_safe has set it to NULL. Freeing what is not held does nothing here.
unfoldable pub axs_ts_remove : Held → Option Held
axs_ts_remove h =
    let h1 = axs_bus_exit (record (axs_debug_remove_sysfs h) { proc_dir = false }) in
    let h2 = record h1 { fb_notif = false; irq = false; input_dev = false; ts_workqueue = false } in
    if h.ts_data then some (record h2 { pdata = false; ts_data = false }) else none
