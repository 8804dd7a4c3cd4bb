-- ===== src/Touch/Registers/Laws.antt =====
-- The calls on the shared buffers do what calls with fresh commands would do.
use ugreen_frontpanel.Base.{
  ℕ, ◌+◌, ◌/◌, ◌%◌, ◌≤◌, ◌≡◌, refl, ap, ◌∙◌, Io, List, [], ◌∷◌, ◌++◌, arith, if◌then◌else◌, length,
  length-set, take, ℤ, pos, negsuc, is_negative,
}
use ugreen_frontpanel.Touch.Bus.{TouchHw, axs_write_bytes, axs_write_bytes_read_bytes}
use ugreen_frontpanel.Touch.Registers.{
  axs_write_buf, axs_read_buf, axs_read_regs, axs_read_sfr_reg, State, Commands, overwrite,
  clamp_len,
}
use ugreen_frontpanel.Touch.Packet.Laws.{length-take}
use ugreen_frontpanel.Touch.Registers.Form.{
  IsCommands, header, new_tail, register_frame, length-overwrite, fill_write_cmd_form, sent_form,
}

module _ (hw : TouchHw) where
  open hw use {World}

  -- The calls with commands built afresh.
  abbrev pub write_afresh : List ℕ → Io World ℤ
  write_afresh reg w =
      let (ret, w') = axs_write_bytes hw (register_frame reg) w in
      (if is_negative ret then ret else pos 0, w')

  abbrev pub read_command : ℕ → List ℕ
  read_command n = 0xb5 ∷ 0xab ∷ 0xa5 ∷ 0x5a ∷ 0 ∷ 0 ∷ (n / 256 % 256) ∷ (n % 256) ∷ 0 ∷ 0 ∷ 0 ∷ []

  abbrev pub read_afresh : List ℕ → World → ℤ × List ℕ × World
  read_afresh [] w = (pos 0, [], w)
  read_afresh (b ∷ buf) w =
      let (ret, buf', w') =
        axs_write_bytes_read_bytes hw (read_command (length (b ∷ buf))) (b ∷ buf) w in
      (if is_negative ret then ret else pos 0, buf', w')

  abbrev pub then_read : List ℕ → ℤ × World → ℤ × List ℕ × World
  then_read buf (ret, w) = if is_negative ret then (ret, buf, w) else read_afresh buf w

  abbrev pub read_regs_afresh : List ℕ → List ℕ → World → ℤ × List ℕ × World
  read_regs_afresh reg buf w = then_read buf (write_afresh reg w)

  abbrev pub sfr_frame : ℕ → ℕ → List ℕ
  sfr_frame sfr_reg n =
      0x5a ∷ 0xa5 ∷ 0xab ∷ 0xb5 ∷ 0 ∷ 0 ∷ (n / 256 % 256) ∷ (n % 256) ∷ 0 ∷ 0x80 ∷ sfr_reg ∷ []

  write_with :
      (c : Commands) (reg : List ℕ) (hi lo : ℕ) (tail : List ℕ) (w : World)
      → c.write_cmd ≡ header hi lo ++ tail
      → length tail ≡ 11
      → let (ret, (c', w')) = axs_write_buf hw reg (c, w) in
        ((ret, w') ≡ write_afresh reg w)
        × (c'.write_cmd
            ≡ header 0 (clamp_len (length reg) + 1)
              ++ new_tail (take (clamp_len (length reg)) reg) tail)
        × (c'.read_cmd ≡ c.read_cmd)
        × (c'.read_sfr_cmd ≡ c.read_sfr_cmd)
  unfolding axs_write_buf
  write_with c reg hi lo tail w form room = (
    rw (form, sent_form reg hi lo tail room) refl,
    rw form (fill_write_cmd_form reg hi lo tail),
    refl,
    refl,
  )

  pub axs_write_buf-afresh :
      (c : Commands) (reg : List ℕ) (w : World)
      → IsCommands c
      → let (ret, (c', w')) = axs_write_buf hw reg (c, w) in
        ((ret, w') ≡ write_afresh reg w) × IsCommands c'
  axs_write_buf-afresh c reg w v =
      let n = clamp_len (length reg) in
      let short : n ≤ 10 = ground arith in
      let whole : length (take n reg) ≡ n = length-take n reg (ground arith) in
      let written = write_with c reg v.len_hi v.len_lo v.tail w v.write_form v.tail_length in
      (
        written.0,
        record {
          len_hi = 0;
          len_lo = n + 1;
          tail = new_tail (take n reg) v.tail;
          read_hi = v.read_hi;
          read_lo = v.read_lo;
          sfr_hi = v.sfr_hi;
          sfr_lo = v.sfr_lo;
          sfr = v.sfr;
          write_form = written.1;
          tail_length =
              length-set (overwrite 0 (take n reg) v.tail) (length (take n reg)) 0
              ∙ length-overwrite 0 (take n reg) v.tail
              ∙ v.tail_length;
          read_form = written.2 ∙ v.read_form;
          sfr_form = written.3 ∙ v.sfr_form;
        },
      )

  pub axs_read_buf-afresh :
      (c : Commands) (buf : List ℕ) (w : World)
      → IsCommands c
      → let (ret, buf', (c', w')) = axs_read_buf hw buf (c, w) in
        ((ret, buf', w') ≡ read_afresh buf w) × IsCommands c'
  unfolding axs_read_buf
  axs_read_buf-afresh c [] w v = (refl, v)
  axs_read_buf-afresh c (b ∷ buf) w v = (
    rw v.read_form refl,
    record {
      len_hi = v.len_hi;
      len_lo = v.len_lo;
      tail = v.tail;
      read_hi = length (b ∷ buf) / 256 % 256;
      read_lo = length (b ∷ buf) % 256;
      sfr_hi = v.sfr_hi;
      sfr_lo = v.sfr_lo;
      sfr = v.sfr;
      write_form = v.write_form;
      tail_length = v.tail_length;
      read_form = rw v.read_form refl;
      sfr_form = v.sfr_form;
    },
  )

  pub axs_read_sfr_reg-afresh :
      (c : Commands) (sfr_reg b : ℕ) (buf : List ℕ) (w : World)
      → IsCommands c
      → let (ret, buf', (c', w')) = axs_read_sfr_reg hw sfr_reg (b ∷ buf) (c, w) in
        let (fresh, fresh_buf, fresh_w) =
          axs_write_bytes_read_bytes hw (sfr_frame sfr_reg (length (b ∷ buf))) (b ∷ buf) w in
        ◌≡◌ {A = ℤ × List ℕ × World}
          (ret, buf', w')
          ((if is_negative fresh then fresh else pos 0), fresh_buf, fresh_w)
        × IsCommands c'
  unfolding axs_read_sfr_reg
  axs_read_sfr_reg-afresh c sfr_reg b buf w v = (
    rw v.sfr_form refl,
    record {
      len_hi = v.len_hi;
      len_lo = v.len_lo;
      tail = v.tail;
      read_hi = v.read_hi;
      read_lo = v.read_lo;
      sfr_hi = length (b ∷ buf) / 256 % 256;
      sfr_lo = length (b ∷ buf) % 256;
      sfr = sfr_reg;
      write_form = v.write_form;
      tail_length = v.tail_length;
      read_form = v.read_form;
      sfr_form = rw v.sfr_form refl;
    },
  )

  -- The read that follows a write, where that succeeded.
  follow :
      (buf : List ℕ) (r : ℤ × State hw) (q : ℤ × World)
      → ◌≡◌ {A = ℤ × World} (r.0, r.1.1) q
      → IsCommands r.1.0
      → let t = if is_negative r.0 then (r.0, buf, r.1) else axs_read_buf hw buf r.1 in
        ◌≡◌ {A = ℤ × List ℕ × World} (t.0, t.1, t.2.1) (then_read buf q) × IsCommands t.2.0
  follow buf (pos k, (c, w)) q e v =
      let second = axs_read_buf-afresh c buf w v in (second.0 ∙ ap (then_read buf) e, second.1)
  follow buf (negsuc k, (c, w)) q e v = (ap (then_read buf) e, v)

  -- However the shared buffers were used before, a read of a register does what it would do with
  -- commands built afresh: the register, of which at most ten bytes are taken, with its length plus
  -- one and a NUL, and then a read command with the count of bytes, where the first succeeds. The
  -- buffers stay fit for the next call.
  pub axs_read_regs-afresh :
      (c : Commands) (reg buf : List ℕ) (w : World)
      → IsCommands c
      → let (ret, buf', (c', w')) = axs_read_regs hw reg buf (c, w) in
        ((ret, buf', w') ≡ read_regs_afresh reg buf w) × IsCommands c'
  unfolding axs_read_regs
  axs_read_regs-afresh c reg buf w v =
      let first = axs_write_buf-afresh c reg w v in
      follow buf (axs_write_buf hw reg (c, w)) (write_afresh reg w) first.0 first.1
