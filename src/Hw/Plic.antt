-- ===== src/Hw/Plic.antt =====
-- rtl/soc/plic.sv: the interrupt controller. `clock` is the block under `always_ff`: the registers
-- after a rising edge. A register with an index, or with a bit for each source, is a function.
pub mod Best
pub mod Sound
pub mod Once
use qinglong_core.Prelude.{
  ℕ, zero, suc, ◌+◌, ◌-◌, ◌*◌, ◌/◌, ◌%◌, ◌==◌, ltb, leb, if◌then◌else◌, Bool, true, false, not,
  ◌&&◌,
}
use qinglong_core.Hw.Mmio.{Request}
use qinglong_core.Hw.Vector.{Vector, bits_of, number, set_bit, put}

pub record Plic : Type 0 where
  pub prio : ℕ → ℕ
  pub pending : Vector
  pub inflight : Vector
  pub enable : ℕ → Vector
  pub threshold : ℕ → ℕ
  pub claimed_src : ℕ → ℕ
  pub rsp_valid : Bool
  pub rsp_rdata : ℕ
  pub rsp_fault : Bool

abbrev pub reset_plic : Plic
reset_plic = record {
  prio = λ s. 0;
  pending = λ s. false;
  inflight = λ s. false;
  enable = λ c s. false;
  threshold = λ c. 0;
  claimed_src = λ c. 0;
  rsp_valid = false;
  rsp_rdata = 0;
  rsp_fault = false;
}

-- NUM_SOURCES and NUM_CTX.
module _ (sources contexts : ℕ) where
  -- `for (int s = 1; s < NUM_SOURCES; s++)`, with `left` rounds to go.
  unfoldable pub pick_loop : Plic → ℕ → ℕ → ℕ → ℕ → ℕ → ℕ
  pick_loop p ctx zero s best_prio best_idx = best_idx
  pick_loop p ctx (suc left) s best_prio best_idx =
      let better =
        p.enable ctx s
        && p.pending s
        && ltb (p.threshold ctx) (p.prio s)
        && ltb best_prio (p.prio s) in
      pick_loop p ctx left (s + 1) (if better then p.prio s else best_prio)
        (if better then s else best_idx)

  unfoldable pub pick_best_src : Plic → ℕ → ℕ
  pick_best_src p ctx = pick_loop p ctx (sources - 1) 1 0 0

  abbrev pub irq : Plic → ℕ → Bool
  irq p ctx = not (pick_best_src p ctx == 0)

  -- The address in the window of 16 MiB, and the registers of a context.
  abbrev pub off : Request → ℕ
  off r = r.addr % 16777216

  abbrev pub in_prio_window : Request → Bool
  in_prio_window r = ltb (off r) 0x1000

  abbrev pub in_pending : Request → Bool
  in_pending r = off r == 0x1000

  abbrev pub in_enable_window : Request → Bool
  in_enable_window r = leb 0x2000 (off r) && ltb (off r) (0x2000 + contexts * 0x80)

  abbrev pub in_ctx_window : Request → Bool
  in_ctx_window r = leb 0x200000 (off r) && ltb (off r) (0x200000 + contexts * 0x1000)

  abbrev pub prio_idx : Request → ℕ
  prio_idx r = off r / 4

  abbrev pub en_ctx : Request → ℕ
  en_ctx r = (off r - 0x2000) / 0x80

  abbrev pub ctx_idx : Request → ℕ
  ctx_idx r = (off r - 0x200000) / 0x1000

  abbrev pub ctx_off : Request → ℕ
  ctx_off r = (off r - 0x200000) % 0x1000

  -- What every edge does first: the response falls, and a source that is high and not in flight
  -- becomes pending.
  unfoldable pub gateway : Vector → Plic → Plic
  gateway lines p = record p {
    pending = λ s.
        if s == 0
        then false
        else if ltb s sources && lines s && not (p.inflight s)
        then true
        else p.pending s;
    rsp_valid = false;
    rsp_rdata = 0;
    rsp_fault = false;
  }

  abbrev pub answer : ℕ → Plic → Plic
  answer v p = record p { rsp_rdata = v }

  abbrev pub refuse : Plic → Plic
  refuse p = record p { rsp_fault = true }

  unfoldable pub access_prio : Request → Plic → Plic
  access_prio r p =
      if r.wen
      then (if ltb 0 (prio_idx r) && ltb (prio_idx r) sources && (r.wmask % 2 == 1)
          then record p { prio = put (prio_idx r) (r.wdata % 8) p.prio }
          else p)
      else answer (if ltb (prio_idx r) sources then p.prio (prio_idx r) else 0) p

  unfoldable pub access_enable : Request → Plic → Plic
  access_enable r p =
      if ltb (en_ctx r) contexts
      then (if r.wen
          then record p {
            enable =
                put (en_ctx r)
                  (set_bit 0 false (λ s.
                    if bits_of r.wmask (s / 8) then bits_of r.wdata s else p.enable (en_ctx r) s))
                  p.enable;
          }
          else answer (number sources (p.enable (en_ctx r))) p)
      else refuse p

  -- Reading gives the best source and takes it into service; `q` has what the registers held before
  -- the edge.
  unfoldable pub claim : Plic → ℕ → Plic → Plic
  claim q ctx p =
      let best = pick_best_src q ctx in
      if best == 0 then p else record p {
        pending = set_bit best false p.pending;
        inflight = set_bit best true p.inflight;
        claimed_src = put ctx best p.claimed_src;
        rsp_rdata = best;
      }

  unfoldable pub complete : Request → Plic → Plic
  complete r p =
      if ltb r.wdata sources && not (r.wdata == 0)
      then record p {
        inflight = set_bit r.wdata false p.inflight;
        claimed_src =
            if p.claimed_src (ctx_idx r) == r.wdata
            then put (ctx_idx r) 0 p.claimed_src
            else p.claimed_src;
      }
      else p

  unfoldable pub access_ctx : Plic → Request → Plic → Plic
  access_ctx q r p =
      if ltb (ctx_idx r) contexts
      then (if ctx_off r == 0
          then (if r.wen
              then (if r.wmask % 2 == 1
                  then record p { threshold = put (ctx_idx r) (r.wdata % 8) p.threshold }
                  else p)
              else answer (p.threshold (ctx_idx r)) p)
          else if ctx_off r == 4
          then (if r.wen then complete r p else claim q (ctx_idx r) p)
          else refuse p)
      else refuse p

  unfoldable pub access : Plic → Request → Plic → Plic
  access q r p =
      if in_prio_window r
      then access_prio r p
      else if in_pending r
      then (if r.wen then p else answer (number sources q.pending) p)
      else if in_enable_window r
      then access_enable r p
      else if in_ctx_window r
      then access_ctx q r p
      else refuse p

  unfoldable pub clock : Bool → Vector → Request → Plic → Plic
  clock rst lines r p =
      if rst
      then reset_plic
      else if r.valid
      then access p r (record (gateway lines p) { rsp_valid = true })
      else gateway lines p
