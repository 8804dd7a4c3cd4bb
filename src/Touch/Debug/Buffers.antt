-- ===== src/Touch/Debug/Buffers.antt =====
-- The debug buffers keep their size, and `debug_rx_buf` its last NUL.
use ugreen_frontpanel.Base.{
  ℕ, zero, suc, ◌≤◌, ◌<◌, ◌≡◌, refl, ap, sym, ◌∙◌, subst, ◌||◌, List, [], ◌∷◌, ◌++◌, leb, ◌==◌,
  if◌then◌else◌, length, take, drop, get_elem?, none, some, some-injective, pos, ℤ, arith,
}
use native.Mathlib.Decide.{dec_le}
use ugreen_frontpanel.Touch.Debug.Lists.{
  length-take-drop, get_elem?-over, take-drop, take-short, if-cases,
}
use ugreen_frontpanel.Touch.Bus.{
  TouchHw, axs_write_bytes_read_bytes, axs_read_bytes, is_int, invalid, transfer_tries, recv_tries,
}
use ugreen_frontpanel.Touch.Debug.Text.{c_string}

-- `debug_rx_buf` has its size, and a NUL at its end.
abbrev pub IsClosed : List ℕ → Type 0
IsClosed rx = (length rx ≡ 1024) × (get_elem? rx 1023 ≡ some 0)

-- What the driver asks of i2c_master_recv: it writes into the buffer only.
abbrev pub KeepsLength : TouchHw → Type 0
KeepsLength hw = (buf : List ℕ) (w : hw.World) → length (hw.i2c_master_recv buf w).1 ≡ length buf

IsClosed-over :
    (n : ℕ) (rx bytes : List ℕ)
    → length bytes ≡ length (take n rx)
    → n ≤ 1023
    → IsClosed rx
    → IsClosed (bytes ++ drop n rx)
IsClosed-over n rx bytes h le closed =
    (length-take-drop n rx bytes h ∙ closed.0, get_elem?-over n 1023 rx bytes h le ∙ closed.1)

IsClosed-same : (n : ℕ) (rx : List ℕ) → IsClosed rx → IsClosed (take n rx ++ drop n rx)
IsClosed-same n rx closed = subst IsClosed (sym (take-drop n rx)) closed

below_end : (n : ℕ) (rx : List ℕ) → IsClosed rx → length (take n rx) < 1024 → n ≤ 1023
below_end n rx closed short = elim (dec_le n 1023) [
  | yes h ↦ h
  | no h ↦
      let whole = ap length (take-short n rx (omega (arith, closed.0, h))) in
      absurd (omega (arith, whole, closed.0, short))
]

-- A buffer that ends in a NUL is a string.
c_string_tail : (c : ℕ) (buf : List ℕ) → c_string (c ∷ buf) ≡ none → c_string buf ≡ none
unfolding c_string
c_string_tail c buf h = grind arith

c_string_nul : (buf : List ℕ) → ¬ (c_string (0 ∷ buf) ≡ none)
unfolding c_string
c_string_nul buf h = grind arith

pub c_string-closed : (k : ℕ) (rx : List ℕ) → get_elem? rx k ≡ some 0 → ¬ (c_string rx ≡ none)
c_string-closed k [] h e = grind arith
c_string-closed zero (c ∷ rx) h e =
    c_string_nul rx (subst (λ x. c_string (x ∷ rx) ≡ none) (some-injective c 0 h) e)
c_string-closed (suc k) (c ∷ rx) h e = c_string-closed k rx h (c_string_tail c rx e)

module _ (hw : TouchHw) (keeps : KeepsLength hw) where
  open hw use {World, i2c_master_send, i2c_master_recv}

  recv_tries-length :
      (tries : ℕ) (ret : ℤ) (buf : List ℕ) (w : World)
      → length (recv_tries hw tries ret buf w).1 ≡ length buf
  unfolding recv_tries
  recv_tries-length zero ret buf w = refl
  recv_tries-length (suc tries) ret buf w =
      let got = i2c_master_recv buf w in
      let again = recv_tries-length tries got.0 got.1 got.2 in
      let kept = keeps buf w in
      if-cases (λ r. length r.1 ≡ length buf) (is_int (length buf) got.0) (got.0, got.1, got.2)
        (recv_tries hw tries got.0 got.1 got.2) (λ e. kept) (λ e. again ∙ kept)

  transfer_tries-length :
      (tries : ℕ) (ret : ℤ) (cmd buf : List ℕ) (w : World)
      → length (transfer_tries hw tries ret cmd buf w).1 ≡ length buf
  unfolding transfer_tries
  transfer_tries-length zero ret cmd buf w = refl
  transfer_tries-length (suc tries) ret cmd buf w =
      let sent = i2c_master_send cmd w in
      let unsent = transfer_tries hw tries sent.0 cmd buf sent.1 in
      let got = i2c_master_recv buf (if length cmd == 0 then w else sent.1) in
      let again = transfer_tries hw tries got.0 cmd got.1 got.2 in
      let kept = keeps buf (if length cmd == 0 then w else sent.1) in
      let received = if is_int (length buf) got.0 then (got.0, got.1, got.2) else again in
      let P : ℤ × List ℕ × World → Type 0 = λ r. length r.1 ≡ length buf in
      if-cases P (length cmd == 0 || is_int (length cmd) sent.0) received unsent
        (λ e.
          if-cases P (is_int (length buf) got.0) (got.0, got.1, got.2) again (λ e2. kept)
            (λ e2. transfer_tries-length tries got.0 cmd got.1 got.2 ∙ kept))
        (λ e. transfer_tries-length tries sent.0 cmd buf sent.1)

  -- After a transfer into the start of `debug_rx_buf`.
  pub transfer-IsClosed :
      (n : ℕ) (cmd rx : List ℕ) (w : World)
      → IsClosed rx
      → IsClosed ((axs_write_bytes_read_bytes hw cmd (take n rx) w).1 ++ drop n rx)
  unfolding axs_write_bytes_read_bytes
  transfer-IsClosed n cmd rx w closed =
      let buf = take n rx in
      let P : ℤ × List ℕ × World → Type 0 = λ r. IsClosed (r.1 ++ drop n rx) in
      if-cases P (leb 1024 (length cmd) || leb 1024 (length buf)) (invalid, buf, w)
        (transfer_tries hw 1 (pos 0) cmd buf w) (λ e. IsClosed-same n rx closed)
        (λ e.
          IsClosed-over n rx (transfer_tries hw 1 (pos 0) cmd buf w).1
            (transfer_tries-length 1 (pos 0) cmd buf w) (below_end n rx closed (ground arith))
            closed)

  pub read-IsClosed :
      (n : ℕ) (rx : List ℕ) (w : World)
      → IsClosed rx
      → IsClosed ((axs_read_bytes hw (take n rx) w).1 ++ drop n rx)
  unfolding axs_read_bytes
  read-IsClosed n rx w closed =
      let buf = take n rx in
      let P : ℤ × List ℕ × World → Type 0 = λ r. IsClosed (r.1 ++ drop n rx) in
      if-cases P (leb 1024 (length buf)) (invalid, buf, w) (recv_tries hw 1 (pos 0) buf w)
        (λ e. IsClosed-same n rx closed)
        (λ e.
          IsClosed-over n rx (recv_tries hw 1 (pos 0) buf w).1 (recv_tries-length 1 (pos 0) buf w)
            (below_end n rx closed (ground arith)) closed)
