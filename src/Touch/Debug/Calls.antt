-- ===== src/Touch/Debug/Calls.antt =====
-- The calls of the files.
use ugreen_frontpanel.Base.{ℕ, Bool, List, [], ◌∷◌, replicate, Option, none, some}
use ugreen_frontpanel.Touch.Bus.{TouchHw}
use ugreen_frontpanel.Touch.Debug.{DebugState, axs_tprwreg_store, axs_proc_write, axs_proc_read}
use ugreen_frontpanel.Touch.Debug.Show.{
  Shown, axs_tprwreg_show, axs_diff_show, axs_rawdata_show, axs_debug_str_show,
}

-- The calls that the files make on the debug state.
pub data Call : Type 0 where
  tprwreg_show : Call
  tprwreg_store : List ℕ → Call
  diff_show : Call
  rawdata_show : Call
  debug_str_show : Call
  proc_write : Bool → List ℕ → Call
  proc_read : ℕ → Bool → Call

abbrev pub state_of : {World : Type 0} → Shown World → Option (DebugState × World)
state_of none = none
state_of (some (ret, text, s)) = some s

abbrev pub call : (hw : TouchHw) → Call → DebugState × hw.World → Option (DebugState × hw.World)
call hw tprwreg_show s = state_of (axs_tprwreg_show s)
call hw (tprwreg_store text) s = axs_tprwreg_store hw text s
call hw diff_show s = state_of (axs_diff_show hw s)
call hw rawdata_show s = state_of (axs_rawdata_show hw s)
call hw debug_str_show s = state_of (axs_debug_str_show hw s)
call hw (proc_write copied bytes) s = some (axs_proc_write hw copied bytes s).1
call hw (proc_read count copied) s = some (axs_proc_read hw count copied s).2

-- One call after the other; `none` is a read outside a buffer.
abbrev pub calls :
    (hw : TouchHw) → List Call → DebugState × hw.World → Option (DebugState × hw.World)
calls hw [] s = some s
calls hw (c ∷ cs) s = elim (call hw c s) [ none ↦ none | some s' ↦ calls hw cs s' ]

-- What axs_debug_create_sysfs allocates, and `s_rd_len` and `proc_opmode` before any call.
abbrev pub debug_start : DebugState
debug_start = record { tx = replicate 1024 0; rx = replicate 1024 0; rd_len = 0; proc_opmode = 0 }
