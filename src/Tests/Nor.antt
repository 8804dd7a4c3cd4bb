-- ===== src/Tests/Nor.antt =====
-- A flash to run the touch driver against: its state is what it holds, whether a write is enabled,
-- the status reads for which it is busy, and what the next read answers.
use ugreen_frontpanel.Base.{
  ℕ, zero, suc, ◌+◌, ◌-◌, ◌*◌, ◌/◌, ◌%◌, ◌<◌, ◌≡◌, refl, ap, ◌∙◌, Bool, true, false, ◌&&◌, List, [],
  ◌∷◌, arith, ◌==◌, if◌then◌else◌, length, get_or, drop, pos,
}
use ugreen_frontpanel.Touch.Bus.{TouchHw}
use ugreen_frontpanel.Touch.Flash.Device.{
  Pending, other, status, page, Memory, program, IsFlash, status_byte, Finishing,
}
use Prim.Native.Nat.{min}

pub record Nor : Type 0 where
  pub memory : Memory
  pub enabled : Bool
  pub busy : ℕ
  pub pending : Pending

abbrev pub wait_of : Nor → ℕ
wait_of n = min n.busy 1999

abbrev pub address_of : List ℕ → ℕ
address_of bytes = get_or bytes 12 0 * 65536 + get_or bytes 13 0 * 256 + get_or bytes 14 0

-- A command that counts only where the flash is not busy and a write is enabled.
abbrev pub change : Memory → Nor → Nor
change m n =
    if wait_of n == 0 && n.enabled then record n { memory = m; busy = 3; pending = other } else n

abbrev pub on_flash : List ℕ → Nor → Nor
on_flash bytes n =
    let op = get_or bytes 11 0 in
    if op == 0x06
    then record n { enabled = if wait_of n == 0 then true else n.enabled }
    else if op == 0x05
    then record n { pending = status }
    else if op == 0xc7
    then change (λ _. 255) n
    else if op == 0x02
    then change (program (address_of bytes) (drop 15 bytes) n.memory) n
    else if op == 0x0b
    then record n { pending = page (address_of bytes) }
    else if op == 0x01
    then change n.memory n
    else n

-- Only messages with the flash's header are for it.
abbrev pub on_message : List ℕ → Nor → Nor
on_message bytes n =
    if get_or bytes 0 0 == 0xab then on_flash bytes n else record n { pending = other }

-- The answer fills the buffer.
abbrev pub page_from : ℕ → Memory → List ℕ → List ℕ
page_from addr m [] = []
page_from addr m (b ∷ buf) = m addr ∷ page_from (addr + 1) m buf

abbrev pub fill : ℕ → List ℕ → List ℕ
fill v [] = []
fill v (b ∷ buf) = v ∷ fill v buf

abbrev pub page_after_dummy : ℕ → Memory → List ℕ → List ℕ
page_after_dummy addr m [] = []
page_after_dummy addr m (b ∷ buf) = 0 ∷ page_from addr m buf

abbrev pub answer : Pending → Nor → List ℕ → List ℕ
answer other n buf = buf
answer status n buf = fill (status_byte (wait_of n) n.enabled) buf
answer (page addr) n buf = page_after_dummy addr n.memory buf

-- What a read leaves: the enable of a write goes when the write is done.
abbrev pub pass : Nor → Nor
pass n = record n { busy = wait_of n - 1; enabled = if wait_of n == 1 then false else n.enabled }

abbrev pub nor : TouchHw
nor = record {
  World = Nor;
  i2c_master_send = λ bytes n. (pos (length bytes), on_message bytes n);
  i2c_master_recv = λ buf n. (pos (length buf), answer n.pending n buf, pass n);
  gpio_direction_output = λ level n. n;
  gpio_set_value = λ level n. n;
  msleep = λ ms n. n;
  mdelay = λ ms n. n;
  usleep_range = λ low high n. n;
}

length-page_from :
    (addr : ℕ) (m : Memory) (buf : List ℕ) → length (page_from addr m buf) ≡ length buf
length-page_from addr m [] = refl
length-page_from addr m (b ∷ buf) = ap suc (length-page_from (addr + 1) m buf)

length-fill : (v : ℕ) (buf : List ℕ) → length (fill v buf) ≡ length buf
length-fill v [] = refl
length-fill v (b ∷ buf) = ap suc (length-fill v buf)

pub length-answer : (p : Pending) (n : Nor) (buf : List ℕ) → length (answer p n buf) ≡ length buf
length-answer other n buf = refl
length-answer status n buf = length-fill (status_byte (wait_of n) n.enabled) buf
length-answer (page addr) n [] = refl
length-answer (page addr) n (b ∷ buf) = ap suc (length-page_from addr n.memory buf)

page_from-get_or :
    (addr : ℕ) (m : Memory) (buf : List ℕ) (i : ℕ)
    → i < length buf
    → get_or (page_from addr m buf) i 0 ≡ m (addr + i)
page_from-get_or addr m [] i h = absurd (omega arith)
page_from-get_or addr m (b ∷ buf) zero h = ap m (omega arith)
page_from-get_or addr m (b ∷ buf) (suc i) h =
    page_from-get_or (addr + 1) m buf i (omega arith) ∙ ap m (omega arith)

pub page_value_of :
    (buf : List ℕ) (p : Pending) (addr i : ℕ) (n : Nor)
    → p ≡ page addr
    → i + 1 < length buf
    → get_or (answer p n buf) (i + 1) 0 ≡ n.memory (addr + i)
page_value_of [] p addr i n e h = absurd (omega arith)
page_value_of (b ∷ buf) p addr i n e h =
    let next : i + 1 ≡ suc i = omega arith in
    rw (e, next) (page_from-get_or addr n.memory buf i (omega arith))

pub status_value_of :
    (b : ℕ) (p : Pending) (n : Nor)
    → p ≡ status
    → answer p n (b ∷ []) ≡ status_byte (wait_of n) n.enabled ∷ []
status_value_of b p n e = rw e refl

pub change-Finishing :
    (m : Memory) (n : Nor) → Finishing (wait_of (change m n)) (change m n).enabled
change-Finishing m n = ground arith

pub pass-Finishing :
    (n : Nor) → Finishing (wait_of n) n.enabled → Finishing (wait_of (pass n)) (pass n).enabled
pass-Finishing n f = ground (arith, f)

pub change-memory :
    (m : Memory) (n : Nor) (b : ℕ) → wait_of n ≡ 0 → n.enabled ≡ true → (change m n).memory b ≡ m b
change-memory m n b idle on = rw (idle, on) refl

pub change-same : (n : Nor) → (change n.memory n).memory ≡ n.memory
change-same n = ground arith

-- The address is sent in three bytes.
pub address-bytes :
    (a : ℕ) → a < 16777216 → a / 65536 % 256 * 65536 + a / 256 % 256 * 256 + a % 256 ≡ a
address-bytes a h = omega arith

abbrev pub nor-IsFlash : IsFlash nor
nor-IsFlash = record {
  memory = λ n. n.memory;
  enabled = λ n. n.enabled;
  busy = wait_of;
  pending = λ n. n.pending;
  prompt = λ n. omega arith;
  sent = λ bytes n. refl;
  received = λ buf n. refl;
  recv_memory = λ buf n. refl;
  recv_busy = λ buf n. omega arith;
  status_memory = λ n. refl;
  status_busy = λ n. refl;
  status_pending = λ n. refl;
  status_value = λ b n e. status_value_of b n.pending n e;
  id_memory = λ n. refl;
  enable_memory = λ n. refl;
  enable_busy = λ n idle. idle;
  enable_enabled = λ n idle. rw idle refl;
  status_enabled = λ n. refl;
  recv_finishing = λ buf n f. pass-Finishing n f;
  setting_finishing = λ n. change-Finishing n.memory n;
  erase_finishing = λ n. change-Finishing (λ _. 255) n;
  program_finishing = λ size addr bytes n. change-Finishing (program _ bytes n.memory) n;
  mdelay_finishing = λ ms n f. f;
  usleep_finishing = λ a b n f. f;
  setting_memory = λ n. change-same n;
  erase_memory = λ n b idle on. change-memory (λ _. 255) n b idle on;
  program_memory = λ size addr bytes n b whole small inside start idle on.
      change-memory (program _ bytes n.memory) n b idle on
      ∙ ap (λ k. program k bytes n.memory b) (address-bytes addr inside);
  page_memory = λ size addr n. refl;
  page_busy = λ size addr n idle. idle;
  page_pending = λ size addr n small inside idle. ap page (address-bytes addr inside);
  recv_length = λ buf n. length-answer n.pending n buf;
  page_value = λ buf addr i n e h. page_value_of buf n.pending addr i n e h;
  mdelay_memory = λ ms n. refl;
  mdelay_busy = λ ms n. omega arith;
  mdelay_enabled = λ ms n idle. refl;
  msleep_memory = λ ms n. refl;
  msleep_busy = λ ms n. omega arith;
  usleep_memory = λ a b n. refl;
  usleep_busy = λ a b n. omega arith;
  direction_memory = λ level n. refl;
  value_memory = λ level n. refl;
  register_memory = λ rest n. refl;
}
