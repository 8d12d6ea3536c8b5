-- ===== src/Kmu.antt =====
-- systemc-components/rse_kmu/include/rse_kmu.h: the key management unit of the RSE.
pub mod Registers
pub mod Bits
pub mod Export
mod Tests
use qbox_platform.Prelude.{
  ℕ, zero, suc, ◌+◌, ◌-◌, ◌*◌, ◌%◌, ◌^◌, Bool, ◌&&◌, Option, none, some, List, [], ◌∷◌, length,
  take, drop, get_or, ltb, leb, ◌==◌, if◌then◌else◌,
}
use qbox_platform.RegFile.{RegBytes, zeroed, store32, write_bytes}

-- `trace_filter` is "all" or empty (`every`), "key", or anything else.
pub data TraceFilter : Type 0 where
  every key other : TraceFilter

-- The `cci_param`s. `otp_image` is the content of the file, if there is one that can be opened.
pub record Config : Type 0 where
  pub trace : Bool
  pub trace_limit : ℕ
  pub trace_filter : TraceFilter
  pub otp_image : Option (List ℕ)
  pub build_config : ℕ
  pub hw_slot_config : ℕ
  pub hw_slot_export_address : ℕ
  pub initiator_bound : Bool

-- `bus_writes` are the words that left through the initiator socket, in order.
pub record Kmu : Type 0 where
  pub regs : RegBytes
  pub trace_count : ℕ
  pub bus_writes : List (ℕ × ℕ)

abbrev pub reg_bytes : ℕ
reg_bytes = 0x1000

abbrev pub kmubc : ℕ
kmubc = 0x000

abbrev pub kmuis : ℕ
kmuis = 0x004

abbrev pub kmuie : ℕ
kmuie = 0x008

abbrev pub kmuic : ℕ
kmuic = 0x00c

abbrev pub kmuprbgsi : ℕ
kmuprbgsi = 0x010

abbrev pub kmuksc_base : ℕ
kmuksc_base = 0x030

abbrev pub kmudkpa_base : ℕ
kmudkpa_base = 0x0b0

abbrev pub kmuksk_base : ℕ
kmuksk_base = 0x130

abbrev pub kmuis_kec : ℕ
kmuis_kec = 2 ^ 0

abbrev pub kmuksc_vks : ℕ
kmuksc_vks = 2 ^ 24

abbrev pub kmuksc_ksr : ℕ
kmuksc_ksr = 2 ^ 25

abbrev pub kmuksc_iks : ℕ
kmuksc_iks = 2 ^ 26

abbrev pub kmuksc_ksip : ℕ
kmuksc_ksip = 2 ^ 27

abbrev pub kmuksc_ek : ℕ
kmuksc_ek = 2 ^ 28

unfoldable pub is_slot_reg : ℕ → ℕ → Bool
is_slot_reg offset base = leb base offset && ltb offset (base + 32 * 4) && (offset - base) % 4 == 0

unfoldable pub is_key_reg : ℕ → Bool
is_key_reg offset = leb kmuksk_base offset && ltb offset (kmuksk_base + 32 * 32)

abbrev otp_offsets : List ℕ
otp_offsets = 0xffffffff ∷ 0x00 ∷ 0x20 ∷ 0x40 ∷ 0x60 ∷ 0x80 ∷ 0xa0 ∷ []

-- The loop over the slots; a short read is copied and ends it.
unfoldable pub load_slots : List ℕ → ℕ → ℕ → RegBytes → RegBytes
load_slots file zero slot m = m
load_slots file (suc rounds) slot m =
    let chunk = take 32 (drop (get_or otp_offsets slot 0) file) in
    let m' = write_bytes m (kmuksk_base + slot * 32) chunk in
    let rest = load_slots file rounds (slot + 1) m' in if length chunk == 32 then rest else m'

load_otp_hardware_keys : Option (List ℕ) → RegBytes → RegBytes
load_otp_hardware_keys none m = m
load_otp_hardware_keys (some file) m = load_slots file 6 1 m

unfoldable pub reset_slots : Config → ℕ → ℕ → RegBytes → RegBytes
reset_slots c zero slot m = m
reset_slots c (suc rounds) slot m = reset_slots c rounds (slot + 1) (
    store32 (store32 m (kmuksc_base + slot * 4) c.hw_slot_config) (kmudkpa_base + slot * 4)
      c.hw_slot_export_address)

-- `store32` of each pair in turn.
abbrev store_all : List (ℕ × ℕ) → RegBytes → RegBytes
store_all [] m = m
store_all ((o, v) ∷ rest) m = store_all rest (store32 m o v)

unfoldable pub reset_registers : Config → RegBytes
unfolding load_otp_hardware_keys
reset_registers c =
    let m =
      store_all
        ((kmubc, c.build_config) ∷ (kmuis, 0) ∷ (kmuie, 0) ∷ (kmuic, 0) ∷ (kmuprbgsi, 0) ∷ [])
        zeroed in
    store_all
      ((0x530, 0)
        ∷ (0x534, 0)
        ∷ (0x538, 0)
        ∷ (0xfd0, 0x04)
        ∷ (0xfe0, 0xf3)
        ∷ (0xfe4, 0xb0)
        ∷ (0xfe8, 0x1b)
        ∷ (0xfec, 0)
        ∷ (0xff0, 0x0d)
        ∷ (0xff4, 0xf0)
        ∷ (0xff8, 0x05)
        ∷ (0xffc, 0xb1)
        ∷ [])
      (load_otp_hardware_keys c.otp_image (reset_slots c 7 0 m))

-- `doreset`: the callback of the reset line.
unfoldable pub doreset : Config → Kmu → Bool → Kmu
doreset c s value = if value then record s { regs = reset_registers c } else s
