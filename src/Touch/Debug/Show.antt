-- ===== src/Touch/Debug/Show.antt =====
-- What the files of packages/axs-touch/src/axs_debug.c show.
use ugreen_frontpanel.Base.{
  ℕ, zero, suc, ◌+◌, ◌*◌, List, [], ◌∷◌, ◌++◌, if◌then◌else◌, get_or, take, drop, Option, none,
  some, ℤ, pos, negsuc, is_negative,
}
use ugreen_frontpanel.Touch.Bus.{TouchHw, axs_write_bytes_read_bytes}
use ugreen_frontpanel.Touch.Debug.{DebugState}
use ugreen_frontpanel.Touch.Debug.Text.{Page, page_of, snprintf, newline, show_cells, c_string}

-- A read outside a buffer, or the page, what is returned, and the state.
abbrev pub Shown : Type 0 → Type 0
Shown World = Option (ℤ × List ℕ × (DebugState × World))

unfoldable pub axs_tprwreg_show : {World : Type 0} → DebugState × World → Shown World
axs_tprwreg_show (d, w) = elim (show_cells d.rd_len 0 d.rx (page_of [])) [
  | none ↦ none
  | some p ↦
      let p' = snprintf newline p in some (pos p'.total, p'.text, (record d { rd_len = 0 }, w))
]

-- The loop over `i`, which finds the row `i` by `tx`, the count of rows.
unfoldable pub show_rows : ℕ → ℕ → ℕ → ℕ → List ℕ → Page → Option Page
show_rows zero i tx cols rx p = some p
show_rows (suc left) i tx cols rx p = elim (show_cells cols (i * tx) rx p) [
  | none ↦ none
  | some p' ↦ show_rows left (i + 1) tx cols rx (snprintf newline p')
]

-- `write_reg`
abbrev pub read_command : ℕ → List ℕ
read_command reg = 0x13 ∷ 0x31 ∷ 0x41 ∷ 0x51 ∷ reg ∷ []

-- `-EPERM`
abbrev pub not_permitted : ℤ
not_permitted = negsuc 0

module _ (hw : TouchHw) where
  open hw use {World}

  -- The second transfer, of `n` bytes into `debug_rx_buf`.
  abbrev pub read_rx : ℕ → ℕ → DebugState × World → ℤ × (DebugState × World)
  read_rx reg n (d, w) =
      let (ret, bytes, w') = axs_write_bytes_read_bytes hw (read_command reg) (take n d.rx) w in
      (ret, (record d { rx = bytes ++ drop n d.rx }, w'))

  abbrev pub print_table : ℕ → ℕ → DebugState × World → Shown World
  print_table tx cols (d, w) = elim (show_rows tx 0 tx cols d.rx (page_of [])) [
    | none ↦ none
    | some p ↦ some (pos p.total, p.text, (d, w))
  ]

  -- axs_diff_show and axs_rawdata_show differ in the register.
  unfoldable pub show_table : ℕ → DebugState × World → Shown World
  show_table reg (d, w) =
      let (ret, lens, w1) = axs_write_bytes_read_bytes hw (read_command 0x03) (0 ∷ 0 ∷ []) w in
      let tx = get_or lens 0 0 in
      let cols = get_or lens 1 0 in
      let (ret2, s2) = read_rx reg (tx * cols) (d, w1) in
      if is_negative ret
      then some (not_permitted, [], (d, w1))
      else if is_negative ret2
      then some (not_permitted, [], s2)
      else print_table tx cols s2

  unfoldable pub axs_diff_show : DebugState × World → Shown World
  axs_diff_show = show_table 0x82

  unfoldable pub axs_rawdata_show : DebugState × World → Shown World
  axs_rawdata_show = show_table 0x02

  abbrev pub print_string : DebugState × World → Shown World
  print_string (d, w) = elim (c_string d.rx) [
    | none ↦ none
    | some text ↦
        let p = snprintf (text ++ newline) (page_of []) in some (pos p.total, p.text, (d, w))
  ]

  unfoldable pub axs_debug_str_show : DebugState × World → Shown World
  axs_debug_str_show (d, w) =
      let (ret, lens, w1) = axs_write_bytes_read_bytes hw (read_command 0x83) (0 ∷ 0 ∷ []) w in
      let (ret2, s2) = read_rx 0x84 (get_or lens 0 0 * 256 + get_or lens 1 0) (d, w1) in
      if is_negative ret
      then some (not_permitted, [], (d, w1))
      else if is_negative ret2
      then some (not_permitted, [], s2)
      else print_string s2
