-- ===== src/Hw/BusMaster/Once.antt =====
-- The bus master passes each write on once.
use qinglong_core.Prelude.{
  ℕ, ◌≡◌, refl, sym, ap, ◌∙◌, if◌then◌else◌, false, not, ◌&&◌, List, [], ◌∷◌, ◌++◌, append_assoc,
  append-nil, arith,
}
use qinglong_core.Hw.Mmio.{Request}
use qinglong_core.Hw.BusMaster.{
  BusState, BusMaster, BusInput, s_idle, s_write, s_write_b, s_read, s_read_r, in_write, accepts,
  aw_fires, w_fires, clock, bus_edge, defaults, reset_master,
}

-- The write of a request that is not on the address channel yet, in a state.
abbrev pub open_addr : BusState → BusMaster → List ℕ
open_addr s m = if in_write s && not m.aw_sent then m.addr ∷ [] else []

abbrev pub open_data : BusState → BusMaster → List ℕ
open_data s m = if in_write s && not m.w_sent then m.wdata ∷ [] else []

abbrev pub write_addr : Request → BusMaster → List ℕ
write_addr r m = if accepts r m && r.wen then r.addr ∷ [] else []

abbrev pub write_data : Request → BusMaster → List ℕ
write_data r m = if accepts r m && r.wen then r.wdata ∷ [] else []

abbrev pub sent_addr : BusInput → BusMaster → List ℕ
sent_addr b m = if aw_fires b m then m.addr ∷ [] else []

abbrev pub sent_data : BusInput → BusMaster → List ℕ
sent_data b m = if w_fires b m then m.wdata ∷ [] else []

abbrev after : Request → BusInput → BusState → BusMaster → BusMaster
after r b s m = bus_edge r b s m (defaults m)

-- In each state an edge moves at most the one open address.
edge_addr :
    (r : Request) (b : BusInput) (s : BusState) (m : BusMaster)
    → m.state ≡ s
    → open_addr s m ++ write_addr r m
      ≡ sent_addr b m ++ open_addr (after r b s m).state (after r b s m)
unfolding bus_edge
edge_addr r b s_idle m e = ground arith
edge_addr r b s_write m e = ground arith
edge_addr r b s_write_b m e = ground arith
edge_addr r b s_read m e = ground arith
edge_addr r b s_read_r m e = ground arith

edge_data :
    (r : Request) (b : BusInput) (s : BusState) (m : BusMaster)
    → m.state ≡ s
    → open_data s m ++ write_data r m
      ≡ sent_data b m ++ open_data (after r b s m).state (after r b s m)
unfolding bus_edge
edge_data r b s_idle m e = ground arith
edge_data r b s_write m e = ground arith
edge_data r b s_write_b m e = ground arith
edge_data r b s_read m e = ground arith
edge_data r b s_read_r m e = ground arith

-- The inputs of an edge.
pub record Cycle : Type 0 where
  pub request : Request
  pub bus : BusInput

abbrev pub next : Cycle → BusMaster → BusMaster
next c m = clock false c.request c.bus m

unfoldable pub after_cycles : List Cycle → BusMaster → BusMaster
after_cycles [] m = m
after_cycles (c ∷ cs) m = after_cycles cs (next c m)

-- A list that grows by what each edge gives.
unfoldable pub collect : (Cycle → BusMaster → List ℕ) → List Cycle → BusMaster → List ℕ
collect f [] m = []
collect f (c ∷ cs) m = f c m ++ collect f cs (next c m)

next_addr :
    (c : Cycle) (m : BusMaster)
    → open_addr m.state m ++ write_addr c.request m
      ≡ sent_addr c.bus m ++ open_addr (next c m).state (next c m)
unfolding clock
next_addr c m = edge_addr c.request c.bus m.state m refl

next_data :
    (c : Cycle) (m : BusMaster)
    → open_data m.state m ++ write_data c.request m
      ≡ sent_data c.bus m ++ open_data (next c m).state (next c m)
unfolding clock
next_data c m = edge_data c.request c.bus m.state m refl

-- What holds of every edge holds of many, for what comes in, goes out and is open.
collected :
    (come go : Cycle → BusMaster → List ℕ) (left : BusMaster → List ℕ)
    → ((c : Cycle) (m : BusMaster) → left m ++ come c m ≡ go c m ++ left (next c m))
    → (cs : List Cycle) (m : BusMaster)
    → left m ++ collect come cs m ≡ collect go cs m ++ left (after_cycles cs m)
unfolding collect after_cycles
collected come go left h [] m = append-nil (left m)
collected come go left h (c ∷ cs) m =
    let m1 = next c m in
    sym (append_assoc (left m) (come c m) (collect come cs m1))
    ∙ ap (λ (t : List ℕ). t ++ collect come cs m1) (h c m)
    ∙ append_assoc (go c m) (left m1) (collect come cs m1)
    ∙ ap (λ (t : List ℕ). go c m ++ t) (collected come go left h cs m1)
    ∙ sym (append_assoc (go c m) (collect go cs m1) (left (after_cycles cs m1)))

-- Behind a reset, for every behaviour of the core and of the bus: the addresses of the accepted write
-- requests are the addresses that went over the address channel, each once and in order, and at most
-- one more, which the master is still offering. The same holds of their data and the data channel.
pub writes_once :
    (cs : List Cycle)
    → (collect (λ c m. write_addr c.request m) cs reset_master
        ≡ collect (λ c m. sent_addr c.bus m) cs reset_master
          ++ open_addr (after_cycles cs reset_master).state (after_cycles cs reset_master))
      × (collect (λ c m. write_data c.request m) cs reset_master
          ≡ collect (λ c m. sent_data c.bus m) cs reset_master
            ++ open_data (after_cycles cs reset_master).state (after_cycles cs reset_master))
writes_once cs = (
  collected (λ c m. write_addr c.request m) (λ c m. sent_addr c.bus m) (λ m. open_addr m.state m)
      next_addr cs reset_master,
  collected (λ c m. write_data c.request m) (λ c m. sent_data c.bus m) (λ m. open_data m.state m)
      next_data cs reset_master,
)
