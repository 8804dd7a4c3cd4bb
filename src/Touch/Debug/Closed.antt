-- ===== src/Touch/Debug/Closed.antt =====
-- What the calls of the files leave of the receive buffer.
use ugreen_frontpanel.Base.{
  ℕ, ◌+◌, ◌*◌, ◌≡◌, refl, subst, Bool, true, false, List, [], ◌∷◌, ◌++◌, ltb, ◌==◌, if◌then◌else◌,
  length, take, get_or, head_or_nul, Option, none, some, pos, is_negative, arith,
}
use ugreen_frontpanel.Touch.Debug.Buffers.{
  IsClosed, KeepsLength, transfer-IsClosed, read-IsClosed, c_string-closed,
}
use ugreen_frontpanel.Touch.Bus.{TouchHw, axs_write_bytes_read_bytes}
use ugreen_frontpanel.Touch.Debug.{
  DebugState, fill_tx, read_register, write_register, axs_tprwreg_store, axs_proc_write,
  axs_proc_read,
}
use ugreen_frontpanel.Touch.Debug.Hex.{hex_to_u8}
use ugreen_frontpanel.Touch.Debug.Text.{c_string, show_cells, page_of, snprintf, newline}
use ugreen_frontpanel.Touch.Debug.Show.{
  show_rows, Shown, axs_tprwreg_show, axs_diff_show, axs_rawdata_show, axs_debug_str_show,
  show_table, read_rx, read_command, print_string, print_table,
}
use ugreen_frontpanel.Touch.Debug.Calls.{
  Call, tprwreg_show, tprwreg_store, diff_show, rawdata_show, debug_str_show, proc_write, proc_read,
  state_of, call, calls, debug_start,
}

-- The last byte of the receive buffer is still NUL.
abbrev pub After : {World : Type 0} → (DebugState → Type 0) → Option (DebugState × World) → Type 0
After P none = Unit {0}
After P (some s) = P s.0

abbrev pub RxIsClosed : DebugState → Type 0
RxIsClosed d = IsClosed d.rx

module _ {World : Type 0} where
  After-if :
      (x y : Option (DebugState × World)) (b : Bool)
      → After RxIsClosed x
      → After RxIsClosed y
      → After RxIsClosed (if b then x else y)
  After-if x y true on_true on_false = on_true
  After-if x y false on_true on_false = on_false

  shown_if :
      (x y : Shown World) (b : Bool)
      → After RxIsClosed (state_of x)
      → After RxIsClosed (state_of y)
      → After RxIsClosed (state_of (if b then x else y))
  shown_if x y true on_true on_false = on_true
  shown_if x y false on_true on_false = on_false

  After-elim :
      {A : Type 0} (f : A → Option (DebugState × World)) (o : Option A)
      → ((a : A) → After RxIsClosed (f a))
      → After RxIsClosed (elim o [ none ↦ none | some a ↦ f a ])
  After-elim f none h = tt
  After-elim f (some a) h = h a

  -- A file that stays inside its buffers.
  abbrev Inside : Shown World → Type 0
  Inside none = ⊥
  Inside (some (ret, text, s)) = RxIsClosed s.0

  Inside-if : (x y : Shown World) (b : Bool) → Inside x → Inside y → Inside (if b then x else y)
  Inside-if x y true on_true on_false = on_true
  Inside-if x y false on_true on_false = on_false

  Inside-After : (x : Shown World) → Inside x → After RxIsClosed (state_of x)
  Inside-After none h = absurd h
  Inside-After (some (ret, text, s)) h = h

  Inside-ne_none : (x : Shown World) → Inside x → ¬ (x ≡ none)
  Inside-ne_none x h e = subst Inside e h

  closed_if :
      {A : Type 0} (x y : A × (DebugState × World)) (b : Bool)
      → RxIsClosed x.1.0
      → RxIsClosed y.1.0
      → RxIsClosed (if b then x else y).1.0
  closed_if x y true on_true on_false = on_true
  closed_if x y false on_true on_false = on_false

module _ (hw : TouchHw) (keeps : KeepsLength hw) where
  open hw use {World}

  tprwreg_show-closed :
      (s : DebugState × World) → RxIsClosed s.0 → After RxIsClosed (state_of (axs_tprwreg_show s))
  unfolding axs_tprwreg_show
  tprwreg_show-closed (d, w) closed =
      elim (show_cells d.rd_len 0 d.rx (page_of []))
        as (λ o. After RxIsClosed (
          state_of (elim o [
            | none ↦ none
            | some p ↦
                let p' = snprintf newline p in
                some (pos p'.total, p'.text, (record d { rd_len = 0 }, w))
          ]))) [ none ↦ tt | some p ↦ closed ]

  print_table-closed :
      (tx cols : ℕ) (s : DebugState × World)
      → RxIsClosed s.0
      → After RxIsClosed (state_of (print_table hw tx cols s))
  print_table-closed tx cols (d, w) closed =
      elim (show_rows tx 0 tx cols d.rx (page_of []))
        as (λ o.
          After RxIsClosed
            (state_of (elim o [ none ↦ none | some p ↦ some (pos p.total, p.text, (d, w)) ]))) [
              | none ↦ tt
              | some p ↦ closed
            ]

  show_table-closed :
      (reg : ℕ) (s : DebugState × World)
      → RxIsClosed s.0
      → After RxIsClosed (state_of (show_table hw reg s))
  unfolding show_table
  show_table-closed reg (d, w) closed =
      let (ret, lens, w1) = axs_write_bytes_read_bytes hw (read_command 0x03) (0 ∷ 0 ∷ []) w in
      let tx = get_or lens 0 0 in
      let cols = get_or lens 1 0 in
      let (ret2, s2) = read_rx hw reg (tx * cols) (d, w1) in
      let closed' = transfer-IsClosed hw keeps (tx * cols) (read_command reg) d.rx w1 closed in
      shown_if _ _ (is_negative ret) closed
        (shown_if _ _ (is_negative ret2) closed' (print_table-closed tx cols s2 closed'))

  proc_read-closed :
      (count : ℕ) (copied : Bool) (s : DebugState × World)
      → RxIsClosed s.0
      → RxIsClosed (axs_proc_read hw count copied s).2.0
  unfolding axs_proc_read
  proc_read-closed count copied (d, w) closed =
      let closed' = read-IsClosed hw keeps count d.rx w closed in ground arith

  proc_write-closed :
      (copied : Bool) (bytes : List ℕ) (s : DebugState × World)
      → RxIsClosed s.0
      → RxIsClosed (axs_proc_write hw copied bytes s).1.0
  unfolding axs_proc_write
  proc_write-closed copied bytes (d, w) closed = ground arith

  write_register-closed :
      (buf : List ℕ) (s : DebugState × World)
      → RxIsClosed s.0
      → After RxIsClosed (write_register hw buf s)
  unfolding write_register
  write_register-closed buf (d, w) closed = ground arith

  read_register-closed :
      (buf : List ℕ) (s : DebugState × World)
      → RxIsClosed s.0
      → After RxIsClosed (read_register hw buf s)
  unfolding read_register
  read_register-closed buf (d, w) closed = After-elim _ (hex_to_u8 1 buf) (λ wt_len.
      After-elim _ (hex_to_u8 3 buf) (λ rd_len.
        After-elim _ (fill_tx wt_len 0 5 buf d.tx)
          (λ tx. transfer-IsClosed hw keeps rd_len (take wt_len tx) d.rx w closed)))

  store-closed :
      (text : List ℕ) (s : DebugState × World)
      → RxIsClosed s.0
      → After RxIsClosed (axs_tprwreg_store hw text s)
  unfolding axs_tprwreg_store
  store-closed text s closed =
      let buf = text ++ (0 ∷ []) in
      let written = write_register-closed buf s closed in
      let received = read_register-closed buf s closed in
      After-if _ _ (ltb (length text) 3) closed (
        After-if _ _ (head_or_nul text == b'w') written (
          After-if _ _ (head_or_nul text == b'r')
            (After-if _ _ (ltb (length text) 5) closed received) closed))

  print_string-Inside : (s : DebugState × World) → RxIsClosed s.0 → Inside (print_string hw s)
  print_string-Inside (d, w) closed =
      (elim (c_string d.rx)
          as (λ o.
            ¬ (o ≡ none)
            → Inside (elim o [
              | none ↦ none
              | some text ↦
                  let p = snprintf (text ++ newline) (page_of []) in
                  some (pos p.total, p.text, (d, w))
            ])) [ none ↦ λ h. absurd (h refl) | some text ↦ λ h. closed ])
        (c_string-closed 1023 d.rx closed.1)

  pub axs_debug_str_show-Inside :
      (s : DebugState × World) → RxIsClosed s.0 → Inside (axs_debug_str_show hw s)
  unfolding axs_debug_str_show
  axs_debug_str_show-Inside (d, w) closed =
      let (ret, lens, w1) = axs_write_bytes_read_bytes hw (read_command 0x83) (0 ∷ 0 ∷ []) w in
      let n = get_or lens 0 0 * 256 + get_or lens 1 0 in
      let (ret2, s2) = read_rx hw 0x84 n (d, w1) in
      let closed' = transfer-IsClosed hw keeps n (read_command 0x84) d.rx w1 closed in
      Inside-if _ _ (is_negative ret) closed
        (Inside-if _ _ (is_negative ret2) closed' (print_string-Inside s2 closed'))

  call-RxIsClosed :
      (c : Call) (s : DebugState × World) → RxIsClosed s.0 → After RxIsClosed (call hw c s)
  unfolding axs_diff_show axs_rawdata_show
  call-RxIsClosed tprwreg_show s closed = tprwreg_show-closed s closed
  call-RxIsClosed (tprwreg_store text) s closed = store-closed text s closed
  call-RxIsClosed diff_show s closed = show_table-closed 0x82 s closed
  call-RxIsClosed rawdata_show s closed = show_table-closed 0x02 s closed
  call-RxIsClosed debug_str_show s closed =
      Inside-After (axs_debug_str_show hw s) (axs_debug_str_show-Inside s closed)
  call-RxIsClosed (proc_write copied bytes) s closed = proc_write-closed copied bytes s closed
  call-RxIsClosed (proc_read count copied) s closed = proc_read-closed count copied s closed

  calls-RxIsClosed :
      (cs : List Call) (s : DebugState × World) → RxIsClosed s.0 → After RxIsClosed (calls hw cs s)
  calls-RxIsClosed [] s closed = closed
  calls-RxIsClosed (c ∷ cs) s closed =
      let next = call-RxIsClosed c s closed in
      (elim (call hw c s)
          as (λ o.
            After RxIsClosed o
            → After RxIsClosed (elim o [ none ↦ none | some s' ↦ calls hw cs s' ])) [
              | none ↦ λ h. tt
              | some s' ↦ λ h. calls-RxIsClosed cs s' h
            ])
        next

  -- After any calls on the buffers that kzalloc gave, each of which read inside its buffers,
  -- debug_rx_buf has its 1024 bytes with a NUL at the end, and axs_debug_str_show reads its string
  -- inside it, whatever the controller answers. The bus writes into the buffers that it is given only.
  pub calls-axs_debug_str_show :
      (cs : List Call) (w : World) (s : DebugState × World)
      → calls hw cs (debug_start, w) ≡ some s
      → IsClosed s.0.rx × ¬ (axs_debug_str_show hw s ≡ none)
  calls-axs_debug_str_show cs w s ran =
      let closed : RxIsClosed s.0 =
        subst (After RxIsClosed) ran (calls-RxIsClosed cs (debug_start, w) (refl, refl)) in
      (closed, Inside-ne_none (axs_debug_str_show hw s) (axs_debug_str_show-Inside s closed))
