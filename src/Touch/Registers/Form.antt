-- ===== src/Touch/Registers/Form.antt =====
-- What the shared command buffers hold, and what is sent from them.
use ugreen_frontpanel.Base.{
  ℕ, suc, ◌+◌, ◌/◌, ◌%◌, ◌≤◌, ◌<◌, ◌≡◌, refl, ap, sym, ◌∙◌, List, [], ◌∷◌, ◌++◌, arith, length,
  length-set, take, drop, set,
}
use ugreen_frontpanel.Touch.Registers.{
  Commands, initial_commands, overwrite, clamp_len, fill_write_cmd,
}
use ugreen_frontpanel.Touch.Packet.Laws.{length-take}

-- The bytes of a command that no call changes, around those that each call sets.
pub record IsCommands (c : Commands) : Type 0 where
  pub len_hi : ℕ
  pub len_lo : ℕ
  pub tail : List ℕ
  pub read_hi : ℕ
  pub read_lo : ℕ
  pub sfr_hi : ℕ
  pub sfr_lo : ℕ
  pub sfr : ℕ
  pub write_form :
      c.write_cmd ≡ 0xb5 ∷ 0xab ∷ 0x5a ∷ 0xa5 ∷ len_hi ∷ len_lo ∷ 0 ∷ 0 ∷ 0 ∷ 0 ∷ 0 ∷ tail
  pub tail_length : length tail ≡ 11
  pub read_form :
      c.read_cmd ≡ 0xb5 ∷ 0xab ∷ 0xa5 ∷ 0x5a ∷ 0 ∷ 0 ∷ read_hi ∷ read_lo ∷ 0 ∷ 0 ∷ 0 ∷ []
  pub sfr_form :
      c.read_sfr_cmd ≡ 0x5a ∷ 0xa5 ∷ 0xab ∷ 0xb5 ∷ 0 ∷ 0 ∷ sfr_hi ∷ sfr_lo ∷ 0 ∷ 0x80 ∷ sfr ∷ []

pub initial_commands-IsCommands : IsCommands initial_commands
initial_commands-IsCommands = record {
  len_hi = 0;
  len_lo = 1;
  tail = _;
  read_hi = 0;
  read_lo = 1;
  sfr_hi = 0;
  sfr_lo = 1;
  sfr = 0;
  write_form = refl;
  tail_length = refl;
  read_form = refl;
  sfr_form = refl;
}

overwrite_under :
    (k : ℕ) (bytes : List ℕ) (x : ℕ) (buf : List ℕ)
    → overwrite (suc k) bytes (x ∷ buf) ≡ x ∷ overwrite k bytes buf
overwrite_under k [] x buf = refl
overwrite_under k (b ∷ bytes) x buf =
    let e : suc k + 1 ≡ suc (k + 1) = omega arith in
    rw e (overwrite_under (k + 1) bytes x (set buf k b))

overwrite_start :
    (bytes buf : List ℕ)
    → length bytes ≤ length buf
    → overwrite 0 bytes buf ≡ bytes ++ drop (length bytes) buf
overwrite_start [] buf h = refl
overwrite_start (b ∷ bytes) [] h = absurd (omega arith)
overwrite_start (b ∷ bytes) (x ∷ buf) h =
    overwrite_under 0 bytes b buf ∙ ap (λ l. b ∷ l) (overwrite_start bytes buf (omega arith))

-- The bytes that end with the NUL that is put after them.
terminated :
    (bytes buf : List ℕ)
    → length bytes < length buf
    → take (length bytes + 1) (set (bytes ++ drop (length bytes) buf) (length bytes) 0)
      ≡ bytes ++ (0 ∷ [])
terminated [] [] h = absurd (omega arith)
terminated [] (x ∷ buf) h = refl
terminated (b ∷ bytes) [] h = absurd (omega arith)
terminated (b ∷ bytes) (x ∷ buf) h =
    let e : suc (length bytes) + 1 ≡ suc (length bytes + 1) = omega arith in
    rw e (ap (λ l. b ∷ l) (terminated bytes buf (omega arith)))

overwrite_after :
    (pre bytes buf : List ℕ)
    → overwrite (length pre) bytes (pre ++ buf) ≡ pre ++ overwrite 0 bytes buf
overwrite_after [] bytes buf = refl
overwrite_after (x ∷ pre) bytes buf =
    overwrite_under (length pre) bytes x (pre ++ buf)
    ∙ ap (λ l. x ∷ l) (overwrite_after pre bytes buf)

pub set_after :
    (pre buf : List ℕ) (i v : ℕ) → set (pre ++ buf) (length pre + i) v ≡ pre ++ set buf i v
set_after [] buf i v = let e : 0 + i ≡ i = omega arith in rw e refl
set_after (x ∷ pre) buf i v =
    let e : suc (length pre) + i ≡ suc (length pre + i) = omega arith in
    rw e (ap (λ l. x ∷ l) (set_after pre buf i v))

pub take_after : (pre buf : List ℕ) (n : ℕ) → take (length pre + n) (pre ++ buf) ≡ pre ++ take n buf
take_after [] buf n = let e : 0 + n ≡ n = omega arith in rw e refl
take_after (x ∷ pre) buf n =
    let e : suc (length pre) + n ≡ suc (length pre + n) = omega arith in
    rw e (ap (λ l. x ∷ l) (take_after pre buf n))

pub length-overwrite : (k : ℕ) (bytes buf : List ℕ) → length (overwrite k bytes buf) ≡ length buf
length-overwrite k [] buf = refl
length-overwrite k (b ∷ bytes) buf =
    length-overwrite (k + 1) bytes (set buf k b) ∙ length-set buf k b

-- The first eleven bytes of a register command.
abbrev pub header : ℕ → ℕ → List ℕ
header hi lo = 0xb5 ∷ 0xab ∷ 0x5a ∷ 0xa5 ∷ hi ∷ lo ∷ 0 ∷ 0 ∷ 0 ∷ 0 ∷ 0 ∷ []

-- The register command as it is meant, built afresh.
abbrev pub register_frame : List ℕ → List ℕ
register_frame reg =
    let n = clamp_len (length reg) in
    0xb5 ∷ 0xab ∷ 0x5a ∷ 0xa5 ∷ 0 ∷ (n + 1) ∷ 0 ∷ 0 ∷ 0 ∷ 0 ∷ 0 ∷ (take n reg ++ (0 ∷ []))

-- The bytes after the header, once `bytes` and a NUL are copied over them.
abbrev pub new_tail : List ℕ → List ℕ → List ℕ
new_tail bytes tail = set (overwrite 0 bytes tail) (length bytes) 0

pub fill_write_cmd_form :
    (reg : List ℕ) (hi lo : ℕ) (tail : List ℕ)
    → let n = clamp_len (length reg) in
      fill_write_cmd reg (header hi lo ++ tail) ≡ header 0 (n + 1) ++ new_tail (take n reg) tail
unfolding fill_write_cmd
fill_write_cmd_form reg hi lo tail =
    let n = clamp_len (length reg) in
    let short : n ≤ 10 = ground arith in
    let whole : length (take n reg) ≡ n = length-take n reg (ground arith) in
    let hi0 : (n + 1) / 256 % 256 ≡ 0 = omega arith in
    let lo0 : (n + 1) % 256 ≡ n + 1 = omega arith in
    let sized = header ((n + 1) / 256 % 256) ((n + 1) % 256) in
    ap (λ l. set l (11 + n) 0) (overwrite_after sized (take n reg) tail)
    ∙ set_after sized (overwrite 0 (take n reg) tail) n 0
    ∙ rw (hi0, lo0, whole) refl

-- What is sent of it is the command as it is meant.
pub sent_form :
    (reg : List ℕ) (hi lo : ℕ) (tail : List ℕ)
    → length tail ≡ 11
    → take (12 + clamp_len (length reg)) (fill_write_cmd reg (header hi lo ++ tail))
      ≡ register_frame reg
sent_form reg hi lo tail room =
    let n = clamp_len (length reg) in
    let short : n ≤ 10 = ground arith in
    let whole : length (take n reg) ≡ n = length-take n reg (ground arith) in
    let count : 12 + n ≡ 11 + (n + 1) = omega arith in
    ap (take (12 + n)) (fill_write_cmd_form reg hi lo tail)
    ∙ ap (λ k. take k (header 0 (n + 1) ++ new_tail (take n reg) tail)) count
    ∙ take_after (header 0 (n + 1)) (new_tail (take n reg) tail) (n + 1)
    ∙ ap (λ l. header 0 (n + 1) ++ l)
        (ap (λ l. take (n + 1) (set l (length (take n reg)) 0))
            (overwrite_start (take n reg) tail (omega (arith, whole)))
          ∙ ap
              (λ k.
                take (k + 1)
                  (set (take n reg ++ drop (length (take n reg)) tail) (length (take n reg)) 0))
              (sym whole)
          ∙ terminated (take n reg) tail (omega (arith, whole)))
