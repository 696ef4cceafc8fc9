-- ===== src/Tests/BusMaster.antt =====
-- The bus master on a write whose data is taken before its address.
use qinglong_core.Prelude.{◌≡◌, refl, Bool, true, false, List, [], ◌∷◌, ◌++◌}
use qinglong_core.Hw.Mmio.{Request}
use qinglong_core.Hw.BusMaster.{bus_edge, clock, reset_master}
use qinglong_core.Hw.BusMaster.Once.{
  Cycle, after_cycles, collect, write_addr, write_data, sent_addr, sent_data, open_addr, open_data,
  writes_once,
}

abbrev wanted : Request
wanted = record { valid = true; addr = 0xC0000004; wen = true; wdata = 72; wmask = 15 }

abbrev answer : Bool → Bool → Bool → Cycle
answer aw w bv = record {
  request = wanted;
  bus = record {
    awready = aw;
    wready = w;
    bvalid = bv;
    bresp = 0;
    arready = false;
    rvalid = false;
    rdata = 0;
    rresp = 0;
  };
}

abbrev one_write : List Cycle
one_write =
    answer true true false
    ∷ answer false true false
    ∷ answer true true false
    ∷ answer false false true
    ∷ []

sent_once :
    (collect (λ c m. sent_addr c.bus m) one_write reset_master ≡ 0xC0000004 ∷ [])
    × (collect (λ c m. sent_data c.bus m) one_write reset_master ≡ 72 ∷ [])
    × ((after_cycles one_write reset_master).rsp_valid ≡ true)
unfolding collect after_cycles clock bus_edge
sent_once = (refl, refl, refl)

writes_once_example :
    (collect (λ c m. write_addr c.request m) one_write reset_master
      ≡ collect (λ c m. sent_addr c.bus m) one_write reset_master
        ++ open_addr
            (after_cycles one_write reset_master).state
            (after_cycles one_write reset_master))
    × (collect (λ c m. write_data c.request m) one_write reset_master
        ≡ collect (λ c m. sent_data c.bus m) one_write reset_master
          ++ open_data
              (after_cycles one_write reset_master).state
              (after_cycles one_write reset_master))
writes_once_example = writes_once one_write
