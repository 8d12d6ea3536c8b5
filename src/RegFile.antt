-- ===== src/RegFile.antt =====
-- A block of byte registers, `std::array<uint8_t, REG_BYTES> m_regs`, as the function from an offset
-- to its byte, and the `memcpy` calls on it. Words are little-endian, as on the hosts the models
-- run on. The array's size is checked by the code that indexes it (Tlm.antt).
pub mod Laws
use qbox_platform.Prelude.{
  ℕ, zero, suc, ◌+◌, ◌*◌, ◌/◌, ◌%◌, ◌<◌, List, [], ◌∷◌, ◌==◌, if◌then◌else◌,
}

abbrev pub RegBytes : Type 0
RegBytes = ℕ → ℕ

-- `m_regs.fill(0)`
unfoldable pub zeroed : RegBytes
zeroed i = 0

-- `memcpy(&value, &m_regs[offset], 4)`
unfoldable pub load32 : RegBytes → ℕ → ℕ
load32 m offset =
    m offset + 0x100 * m (offset + 1) + 0x10000 * m (offset + 2) + 0x1000000 * m (offset + 3)

unfoldable pub store8 : RegBytes → ℕ → ℕ → RegBytes
store8 m offset b i = if i == offset then b else m i

-- `memcpy(&m_regs[offset], &value, 4)`
unfoldable pub store32 : RegBytes → ℕ → ℕ → RegBytes
unfolding store8
store32 m offset value =
    store8
      (store8 (store8 (store8 m offset (value % 0x100)) (offset + 1) (value / 0x100 % 0x100))
        (offset + 2) (value / 0x10000 % 0x100))
      (offset + 3) (value / 0x1000000 % 0x100)

-- `memcpy(data, &m_regs[offset], len)`
unfoldable pub read_bytes : RegBytes → ℕ → ℕ → List ℕ
read_bytes m offset zero = []
read_bytes m offset (suc len) = m offset ∷ read_bytes m (offset + 1) len

-- `memcpy(&m_regs[offset], data, len)`
unfoldable pub write_bytes : RegBytes → ℕ → List ℕ → RegBytes
unfolding store8
write_bytes m offset [] = m
write_bytes m offset (b ∷ bs) = write_bytes (store8 m offset b) (offset + 1) bs

-- `uint32_t value = 0; memcpy(&value, data, 4)` on the bytes of a payload.
unfoldable pub word_of : List ℕ → ℕ
word_of [] = 0
word_of (b ∷ bs) = b + 0x100 * word_of bs

-- The bytes of a word, as `reinterpret_cast<const uint8_t*>(&value)` shows them.
unfoldable pub bytes_of : ℕ → List ℕ
bytes_of v = v % 0x100 ∷ v / 0x100 % 0x100 ∷ v / 0x10000 % 0x100 ∷ v / 0x1000000 % 0x100 ∷ []

-- Every register holds a byte.
abbrev pub IsBytes : RegBytes → Type 0
IsBytes m = (i : ℕ) → m i < 0x100
