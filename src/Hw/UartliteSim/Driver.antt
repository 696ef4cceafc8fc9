-- ===== src/Hw/UartliteSim/Driver.antt =====
-- Between two accesses the simulated UART is a UART of the interface.
use qinglong_core.Prelude.{
  ℕ, zero, suc, ◌%◌, ◌/◌, ◌<◌, ◌≡◌, refl, ap, ap₂, ◌∙◌, ◌==◌, if◌then◌else◌, Bool, true, false,
  ◌&&◌, bit_and, [], ◌∷◌, ◌++◌, Bytes,
}
use qinglong_core.Hw.Uart.{Uart}
use qinglong_core.Hw.UartliteSim.{
  Beat, WriteInput, WriteSide, ReadInput, ReadSide, write_edge, read_edge,
}

-- The registers with no access in flight.
pub record Settled : Type 0 where
  pub ctrl_ie : Bool
  pub out : Bytes
  pub last_addr : ℕ
  pub last_beat : Beat
  pub last_araddr : ℕ
  pub last_rdata : ℕ

abbrev pub write_side : Settled → WriteSide
write_side s = record {
  aw_hs = false;
  w_hs = false;
  held_addr = s.last_addr;
  held_beat = s.last_beat;
  bvalid = false;
  ctrl_ie = s.ctrl_ie;
  out = s.out;
}

abbrev pub read_side : Settled → ReadSide
read_side s = record {
  ar_hs = false;
  held_araddr = s.last_araddr;
  rvalid = false;
  rdata = s.last_rdata;
}

-- What an access does, all four lanes enabled.
abbrev pub all_lanes : ℕ → Beat
all_lanes v = record { word = v; strb = 15 }

abbrev pub settled_write : ℕ → ℕ → Settled → Settled
settled_write a v s = record s {
  ctrl_ie = if a % 16 == 12 then v / 16 % 2 == 1 else s.ctrl_ie;
  out = s.out ++ (if a % 16 == 4 then v % 256 ∷ [] else []);
  last_addr = a;
  last_beat = all_lanes v;
}

abbrev pub settled_read : ℕ → Settled → ℕ × Settled
settled_read a s = (0, record s { last_araddr = a; last_rdata = 0 })

abbrev quiet : WriteInput
quiet = record { awvalid = false; awaddr = 0; wvalid = false; wbeat = all_lanes 0; bready = false }

abbrev send_addr : ℕ → WriteInput
send_addr a = record quiet { awvalid = true; awaddr = a }

abbrev send_data : ℕ → WriteInput
send_data v = record quiet { wvalid = true; wbeat = all_lanes v }

abbrev take : WriteInput
take = record quiet { bready = true }

unfoldable pub quiets : ℕ → WriteSide → WriteSide
quiets zero u = u
quiets (suc k) u = quiets k (write_edge false quiet u)

-- A write: the address, the data `j` edges behind it, and the response taken `k` edges after it rose.
unfoldable pub write_access : ℕ → ℕ → ℕ → ℕ → WriteSide → WriteSide
write_access j k a v u =
    let u1 = write_edge false (send_addr a) u in
    let u2 = write_edge false (send_data v) (quiets j u1) in
    write_edge false take (quiets k (write_edge false quiet u2))

abbrev quiet_read : ReadInput
quiet_read = record { arvalid = false; araddr = 0; rready = false }

abbrev send_araddr : ℕ → ReadInput
send_araddr a = record quiet_read { arvalid = true; araddr = a }

abbrev take_read : ReadInput
take_read = record quiet_read { rready = true }

unfoldable pub read_waits : ℕ → ReadSide → ReadSide
read_waits zero u = u
read_waits (suc k) u = read_waits k (read_edge false quiet_read u)

-- A read, up to the edge before its response is taken, and that edge.
unfoldable pub read_answer : ℕ → ℕ → ReadSide → ReadSide
read_answer k a u = read_waits k (read_edge false quiet_read (read_edge false (send_araddr a) u))

unfoldable pub read_access : ℕ → ℕ → ReadSide → ReadSide
unfolding read_answer
read_access k a u = read_edge false take_read (read_answer k a u)

abbrev addressed : ℕ → Settled → WriteSide
addressed a s = record (write_side s) { aw_hs = true; held_addr = a }

abbrev responding : WriteSide → WriteSide
responding u = record u { aw_hs = true; w_hs = true; bvalid = true }

abbrev answering : ℕ → ReadSide
answering a = record { ar_hs = true; held_araddr = a; rvalid = true; rdata = 0 }

-- Nothing moves while an access waits.
quiets-addressed : (j a : ℕ) (s : Settled) → quiets j (addressed a s) ≡ addressed a s
unfolding quiets write_edge
quiets-addressed zero a s = refl
quiets-addressed (suc j) a s = quiets-addressed j a s

quiets-responding : (k : ℕ) (u : WriteSide) → quiets k (responding u) ≡ responding u
unfolding quiets write_edge
quiets-responding zero u = refl
quiets-responding (suc k) u = quiets-responding k u

read_waits-answering : (k a : ℕ) → read_waits k (answering a) ≡ answering a
unfolding read_waits read_edge
read_waits-answering zero a = refl
read_waits-answering (suc k) a = read_waits-answering k a

address_edge : (a : ℕ) (s : Settled) → write_edge false (send_addr a) (write_side s) ≡ addressed a s
unfolding write_edge
address_edge a s = refl

and_true : (b : Bool) → (b && true) ≡ b
and_true true = refl
and_true false = refl

data_edge :
    (a v : ℕ) (s : Settled)
    → write_edge false quiet (write_edge false (send_data v) (addressed a s))
      ≡ responding (write_side (settled_write a v s))
unfolding write_edge
data_edge a v s =
    ap₂
      (λ (x y : Bool). responding (
        write_side (record s {
          ctrl_ie = if x then v / 16 % 2 == 1 else s.ctrl_ie;
          out = s.out ++ (if y then v % 256 ∷ [] else []);
          last_addr = a;
          last_beat = all_lanes v;
        })))
      (and_true (a % 16 == 12)) (and_true (a % 16 == 4))

take_edge : (u : Settled) → write_edge false take (responding (write_side u)) ≡ write_side u
unfolding write_edge
take_edge u = refl

read_answer_is : (k a : ℕ) (s : Settled) → read_answer k a (read_side s) ≡ answering a
unfolding read_answer read_edge
read_answer_is k a s = read_waits-answering k a

take_answer :
    (a : ℕ) (s : Settled) → read_edge false take_read (answering a) ≡ read_side (settled_read a s).1
unfolding read_edge
take_answer a s = refl

-- However long the data and the acceptance of the response are in coming, a write from a settled state
-- leads to the settled state that the interface's write gives; a read answers 0, with the value held
-- until it is taken, and leads to the settled state of the interface's read.
pub access-settled :
    (j k a v : ℕ) (s : Settled)
    → (write_access j k a v (write_side s) ≡ write_side (settled_write a v s))
      × ((read_answer k a (read_side s)).rvalid ≡ true)
      × ((read_answer k a (read_side s)).rdata ≡ (settled_read a s).0)
      × (read_access k a (read_side s) ≡ read_side (settled_read a s).1)
unfolding write_access read_access
access-settled j k a v s = (
  ap
        (λ (u : WriteSide).
          write_edge false take
            (quiets k (write_edge false quiet (write_edge false (send_data v) u))))
        (ap (quiets j) (address_edge a s) ∙ quiets-addressed j a s)
      ∙ ap (λ (u : WriteSide). write_edge false take (quiets k u)) (data_edge a v s)
      ∙ ap (write_edge false take) (quiets-responding k (write_side (settled_write a v s)))
      ∙ take_edge (settled_write a v s),
  ap (λ (u : ReadSide). u.rvalid) (read_answer_is k a s),
  ap (λ (u : ReadSide). u.rdata) (read_answer_is k a s),
  ap (read_edge false take_read) (read_answer_is k a s) ∙ take_answer a s,
)

pub never_waits : (bit_and 0 8 == 0) ≡ false → 0 < 0
never_waits h = cc

pub never_full : (v : ℕ) (s : Settled) → false ≡ true → (settled_write 4 v s).out ≡ s.out
never_full v s h = cc

-- STAT reads 0, so the UART always has room.
abbrev pub sim_uart : Uart
sim_uart = record {
  State = Settled;
  read = settled_read;
  write = settled_write;
  sent = λ s. s.out;
  full = λ s. false;
  busy = λ s. 0;
  read-sent = λ s. refl;
  read-full = λ s h. refl;
  read-busy = λ s h. never_waits h;
  write-sent = λ v s h. refl;
  write-full = never_full;
}
