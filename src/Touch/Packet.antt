-- ===== src/Touch/Packet.antt =====
-- The frames that packages/axs-touch/src/axs_upgrade.c and axs_download.c send, and how they cut a
-- firmware into packets.
pub mod Laws
use ugreen_frontpanel.Base.{
  ℕ, ◌+◌, ◌-◌, ◌*◌, ◌/◌, ◌%◌, List, ◌∷◌, ◌==◌, if◌then◌else◌, take, drop, Bool, ℤ, is_negative,
  false, Io, zero, suc, true, ◌&&◌, head_or_nul, rest_of,
}

abbrev pub packet_len : ℕ
packet_len = 256

-- A frame: the counts of bytes that are written and read, an address of 24 bits, and what follows.
abbrev pub frame : ℕ → ℕ → ℕ → List ℕ → List ℕ
frame written read addr body =
    0xab
    ∷ 0xb5
    ∷ 0xa5
    ∷ 0x5a
    ∷ (written / 256 % 256)
    ∷ (written % 256)
    ∷ (read / 256 % 256)
    ∷ (read % 256)
    ∷ (addr / 65536 % 256)
    ∷ (addr / 256 % 256)
    ∷ (addr % 256)
    ∷ body

unfoldable pub total_packets : ℕ → ℕ
total_packets fw_len = fw_len / packet_len + (if fw_len % packet_len == 0 then 0 else 1)

unfoldable pub current_size : ℕ → ℕ → ℕ → ℕ
current_size num total fw_len = if num == total then fw_len - (num - 1) * packet_len else packet_len

-- `n` bytes at `addr`, as memcpy takes them.
abbrev pub slice : ℕ → ℕ → List ℕ → List ℕ
slice addr n bytes = take n (drop addr bytes)

-- `memcmp(a, b, n) == 0`
unfoldable pub memcmp_eq : ℕ → List ℕ → List ℕ → Bool
memcmp_eq zero a b = true
memcmp_eq (suc n) a b = head_or_nul a == head_or_nul b && memcmp_eq n (rest_of a) (rest_of b)

-- `ret = m; if (ret < 0) return false; k`
abbrev pub unless_negative : {W : Type 0} → Io W ℤ → Io W Bool → Io W Bool
unless_negative m k w = let (ret, w') = m w in if is_negative ret then (false, w') else k w'

-- The same where `m` reads into a buffer.
abbrev pub unless_unread : {W : Type 0} → (W → ℤ × List ℕ × W) → (List ℕ → Io W Bool) → Io W Bool
unless_unread m k w = let (ret, buf, w') = m w in if is_negative ret then (false, w') else k buf w'

-- `if (!m) return false; k`
abbrev pub unless_false : {W : Type 0} → Io W Bool → Io W Bool → Io W Bool
unless_false m k w = let (done, w') = m w in if done then k w' else (false, w')
