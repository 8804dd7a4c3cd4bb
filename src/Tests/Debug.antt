-- ===== src/Tests/Debug.antt =====
-- Runs of the files for debugging, with a controller that has a table of two rows and two columns.
use ugreen_frontpanel.Base.{
  ℕ, suc, ◌+◌, ◌≡◌, refl, ap, true, List, [], ◌∷◌, ◌++◌, arith, ◌==◌, if◌then◌else◌, length, get_or,
  replicate, pos, none, some, codes,
}
use ugreen_frontpanel.Touch.Bus.{
  TouchHw, axs_read_bytes, axs_write_bytes, axs_write_bytes_read_bytes,
}
use ugreen_frontpanel.Touch.Debug.{DebugState, axs_tprwreg_store, axs_proc_read, axs_proc_write}
use ugreen_frontpanel.Touch.Debug.Laws.{axs_tprwreg_store-hex_bytes}
use ugreen_frontpanel.Touch.Debug.Show.{show_table, axs_debug_str_show}
use ugreen_frontpanel.Touch.Debug.Table.{show_table-table_text}
use ugreen_frontpanel.Touch.Debug.Buffers.{IsClosed, KeepsLength}
use ugreen_frontpanel.Touch.Debug.Calls.{proc_write, proc_read, debug_start}
use ugreen_frontpanel.Touch.Debug.Closed.{calls-axs_debug_str_show}
use ugreen_frontpanel.Touch.Debug.Lists.{if-cases}
use ugreen_frontpanel.Touch.Debug.Text.{cell}

abbrev same : ℕ → List ℕ → List ℕ
same v [] = []
same v (b ∷ buf) = v ∷ same v buf

abbrev counting : ℕ → List ℕ → List ℕ
counting v [] = []
counting v (b ∷ buf) = v ∷ counting (v + 1) buf

length-same : (v : ℕ) (buf : List ℕ) → length (same v buf) ≡ length buf
length-same v [] = refl
length-same v (b ∷ buf) = ap suc (length-same v buf)

length-counting : (v : ℕ) (buf : List ℕ) → length (counting v buf) ≡ length buf
length-counting v [] = refl
length-counting v (b ∷ buf) = ap suc (length-counting (v + 1) buf)

-- The fifth byte of the last message chooses what is answered.
abbrev answer : ℕ → List ℕ → List ℕ
answer w buf = if w == 3 then same 2 buf else counting 5 buf

abbrev table_hw : TouchHw
table_hw = record {
  World = ℕ;
  i2c_master_send = λ bytes w. (pos (length bytes), get_or bytes 4 0);
  i2c_master_recv = λ buf w. (pos (length buf), answer w buf, w);
  gpio_direction_output = λ level w. w;
  gpio_set_value = λ level w. w;
  msleep = λ ms w. w;
  mdelay = λ ms w. w;
  usleep_range = λ low high w. w;
}

length-answer : (w : ℕ) (buf : List ℕ) → length (answer w buf) ≡ length buf
length-answer w buf =
    if-cases (λ l. length l ≡ length buf) (w == 3) (same 2 buf) (counting 5 buf)
      (λ e. length-same 2 buf) (λ e. length-counting 5 buf)

table_hw-KeepsLength : KeepsLength table_hw
table_hw-KeepsLength buf w = length-answer w buf

axs_tprwreg_store-hex_bytes_example :
    (axs_tprwreg_store table_hw (codes "w02130a!") (debug_start, 0)
      ≡ some (record debug_start { tx = 0x13 ∷ 0x0a ∷ replicate 1022 0 }, 0))
    × (axs_tprwreg_store table_hw (codes "r0202130a!") (debug_start, 0)
        ≡ some (
          record debug_start {
            tx = 0x13 ∷ 0x0a ∷ replicate 1022 0;
            rx = 5 ∷ 6 ∷ replicate 1022 0;
            rd_len = 2;
          },
          0,
        ))
unfolding axs_write_bytes axs_write_bytes_read_bytes
axs_tprwreg_store-hex_bytes_example =
    axs_tprwreg_store-hex_bytes table_hw 2 (0x13 ∷ 0x0a ∷ []) (codes "!") debug_start 0
      (omega arith, (omega arith, tt)) (omega arith) (omega arith) (omega arith)

show_table-table_text_example :
    show_table table_hw 0x82 (debug_start, 0)
    ≡ some (
      pos 22,
      codes "0x 5,0x 6,\n0x 7,0x 8,\n",
      (record debug_start { rx = 5 ∷ 6 ∷ 7 ∷ 8 ∷ replicate 1020 0 }, 0x82),
    )
unfolding cell axs_write_bytes_read_bytes
show_table-table_text_example =
    show_table-table_text table_hw 0x82 ((5 ∷ 6 ∷ []) ∷ (7 ∷ 8 ∷ []) ∷ []) debug_start 0 3 0x82 4
      (refl, (refl, tt)) (omega arith) refl refl

abbrev shown : DebugState
shown = record debug_start {
  tx = codes "r1234" ++ replicate 1019 0;
  rx = 5 ∷ 6 ∷ replicate 1022 0;
  proc_opmode = b'r';
}

calls-axs_debug_str_show_example :
    IsClosed shown.rx × ¬ (axs_debug_str_show table_hw (shown, 0) ≡ none)
unfolding axs_proc_read axs_proc_write axs_read_bytes axs_write_bytes
calls-axs_debug_str_show_example =
    calls-axs_debug_str_show table_hw table_hw-KeepsLength
      (proc_write true (codes "r1234") ∷ proc_read 2 true ∷ []) 0 (shown, 0) refl
