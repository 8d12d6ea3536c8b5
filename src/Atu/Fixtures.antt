-- ===== src/Atu/Fixtures.antt =====
-- Concrete registers and requests for the tests of the unit of rse_atu.h: two regions, the second
-- with a negative offset.
use qbox_platform.Prelude.{true, false, some, [], ◌∷◌}
use qbox_platform.RegFile.{RegBytes, IsBytes, zeroed, store32}
use qbox_platform.RegFile.Laws.{zeroed-IsBytes, store32-IsBytes}
use qbox_platform.Tlm.{Payload, read, incomplete}
use qbox_platform.Atu.{Config, Atu}

abbrev pub config : Config
config = record {
  trace = false;
  trace_limit = 64;
  trace_filter = [];
  trace_address_min = 0;
  trace_address_max = 0;
  build_config = 0xc1;
  permitted_security_domains = 0xf;
  enable_dmi = true;
  initiator_bound = true;
  translation_bound = true;
}

-- Two regions of 4 KiB pages: pages 1 to 2 with offset +0x10 pages, page 5 with offset -1 page.
abbrev pub mapped : RegBytes
mapped =
    store32
      (store32
        (store32
          (store32
            (store32
              (store32 (store32 (store32 (store32 zeroed 0x000 0xc1) 0x004 0x3) 0x020 1) 0x0a0 2)
              0x120 0x10)
            0x024 5)
          0x0a4 5)
        0x124 0xffffffff)
      0x1a4 0x000fffff

pub mapped-IsBytes : IsBytes mapped
mapped-IsBytes = store32-IsBytes _ 0x1a4 _ (
    store32-IsBytes _ 0x124 _ (
      store32-IsBytes _ 0x0a4 _ (
        store32-IsBytes _ 0x024 _ (
          store32-IsBytes _ 0x120 _ (
            store32-IsBytes _ 0x0a0 _ (
              store32-IsBytes _ 0x020 _
                (store32-IsBytes _ 0x004 _ (store32-IsBytes _ 0x000 _ zeroed-IsBytes))))))))

abbrev pub unit : Atu
unit = record { regs = mapped; trace_count = 0; invalidations = 0 }

abbrev pub request : Payload
request = record {
  command = read;
  address = 0x1010;
  bytes = some (0 ∷ 0 ∷ 0 ∷ 0 ∷ []);
  data_length = 4;
  response = incomplete;
  dmi_allowed = false;
}
