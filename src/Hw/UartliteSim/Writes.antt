-- ===== src/Hw/UartliteSim/Writes.antt =====
-- However address and data of the writes arrive, the UART prints each pair once, in order.
use qinglong_core.Prelude.{
  ℕ, ◌≡◌, refl, sym, ap, ap₂, ◌∙◌, if◌then◌else◌, Bool, true, false, List, [], ◌∷◌, ◌++◌,
  append-nil, arith, Bool-cases, inl, inr,
}
use qinglong_core.Hw.UartliteSim.{
  Beat, WriteInput, WriteSide, takes_addr, takes_data, fires, answered, byte_of, write_edge,
}
use qinglong_core.Hw.UartliteSim.Pairs.{
  Log, log_edge, bytes_of, SameLength, bytes_of-snoc, SameLength-snoc,
}
use qinglong_core.Hw.UartliteSim.Channel.{
  channel_done, channel_goes, out_done, out_fires, out_waits, kept,
}

-- A write that is complete stays as it is until it is answered.
byte_kept :
    (i : WriteInput) (u : WriteSide)
    → u.aw_hs ≡ true
    → u.w_hs ≡ true
    → byte_of u.held_addr u.held_beat
      ≡ byte_of
          (if takes_addr i u then i.awaddr else u.held_addr)
          (if takes_data i u then i.wbeat else u.held_beat)
byte_kept i u a w =
    ap₂ byte_of (kept (takes_addr i u) i.awaddr u.held_addr (ground arith))
      (kept (takes_data i u) i.wbeat u.held_beat (ground arith))

-- What is printed is the finished pairs, and the pair whose response is pending.
record Prints (u : WriteSide) (l : Log) : Type 0 where
  done : List ℕ
  done_beats : List Beat
  same : SameLength done done_beats
  addrs_are : l.addrs ≡ done ++ (if u.aw_hs then u.held_addr ∷ [] else [])
  beats_are : l.beats ≡ done_beats ++ (if u.w_hs then u.held_beat ∷ [] else [])
  out_is :
      u.out ≡ bytes_of done done_beats ++ (if u.bvalid then byte_of u.held_addr u.held_beat else [])
  pending : u.bvalid ≡ true → (u.aw_hs ≡ true) × (u.w_hs ≡ true)

-- The same with a register that is known.
module _ (u : WriteSide) (l : Log) (p : Prints u l) (b : Bool) where
  addrs_as : u.aw_hs ≡ b → l.addrs ≡ p.done ++ (if b then u.held_addr ∷ [] else [])
  addrs_as e = p.addrs_are ∙ ap (λ (c : Bool). p.done ++ (if c then u.held_addr ∷ [] else [])) e

  beats_as : u.w_hs ≡ b → l.beats ≡ p.done_beats ++ (if b then u.held_beat ∷ [] else [])
  beats_as e =
      p.beats_are ∙ ap (λ (c : Bool). p.done_beats ++ (if c then u.held_beat ∷ [] else [])) e

  out_as :
      u.bvalid ≡ b
      → u.out ≡ bytes_of p.done p.done_beats ++ (if b then byte_of u.held_addr u.held_beat else [])
  out_as e =
      p.out_is
      ∙ ap
          (λ (c : Bool).
            bytes_of p.done p.done_beats ++ (if c then byte_of u.held_addr u.held_beat else []))
          e

edge-Prints :
    (i : WriteInput) (u : WriteSide) (l : Log)
    → Prints u l
    → Prints (write_edge false i u) (log_edge i u l)
unfolding write_edge
edge-Prints i u l p = elim (Bool-cases (answered i u)) [
  | inl a ↦
      let b : u.bvalid ≡ true = ground arith in
      let (fa, fw) = p.pending b in
      let addrs : l.addrs ≡ p.done ++ u.held_addr ∷ [] = addrs_as u l p true fa in
      let beats : l.beats ≡ p.done_beats ++ u.held_beat ∷ [] = beats_as u l p true fw in
      let out : u.out ≡ bytes_of (p.done ++ u.held_addr ∷ []) (p.done_beats ++ u.held_beat ∷ []) =
        out_as u l p true b
        ∙ sym (bytes_of-snoc p.done p.done_beats u.held_addr u.held_beat p.same) in
      record {
        done = p.done ++ u.held_addr ∷ [];
        done_beats = p.done_beats ++ u.held_beat ∷ [];
        same = SameLength-snoc p.done p.done_beats u.held_addr u.held_beat p.same;
        addrs_are =
            channel_done (answered i u) u.aw_hs (takes_addr i u) i.awaddr u.held_addr p.done l.addrs
              a (ground arith) addrs;
        beats_are =
            channel_done (answered i u) u.w_hs (takes_data i u) i.wbeat u.held_beat p.done_beats
              l.beats a (ground arith) beats;
        out_is = out_done (answered i u) (fires u) u.bvalid u.out _ _ _ a (ground arith) out;
        pending = λ h. ground arith;
      }
  | inr a ↦ record {
    done = p.done;
    done_beats = p.done_beats;
    same = p.same;
    addrs_are =
        channel_goes (answered i u) u.aw_hs (takes_addr i u) i.awaddr u.held_addr p.done l.addrs a
          (λ t. ground arith) p.addrs_are;
    beats_are =
        channel_goes (answered i u) u.w_hs (takes_data i u) i.wbeat u.held_beat p.done_beats l.beats
          a (λ t. ground arith) p.beats_are;
    out_is = elim (Bool-cases (fires u)) [
      | inl f ↦
          out_fires (answered i u) (fires u) u.bvalid u.out (bytes_of p.done p.done_beats) _ _ a f
            (let fb : u.bvalid ≡ false = ground arith in out_as u l p false fb)
            (byte_kept i u (ground arith) (ground arith))
      | inr f ↦
          out_waits (answered i u) (fires u) u.bvalid u.out (bytes_of p.done p.done_beats) _ _ a f
            p.out_is (λ b. byte_kept i u (p.pending b).0 (p.pending b).1)
    ];
    pending = λ h. elim (Bool-cases (fires u)) [
      | inl f ↦ (ground arith, ground arith)
      | inr f ↦
          let b : u.bvalid ≡ true = ground arith in
          let (fa, fw) = p.pending b in (ground arith, ground arith)
    ];
  }
]

unfoldable pub write_edges : List WriteInput → WriteSide → WriteSide
write_edges [] u = u
write_edges (i ∷ is) u = write_edges is (write_edge false i u)

unfoldable pub log_edges : List WriteInput → WriteSide → Log → Log
log_edges [] u l = l
log_edges (i ∷ is) u l = log_edges is (write_edge false i u) (log_edge i u l)

edges-Prints :
    (is : List WriteInput) (u : WriteSide) (l : Log)
    → Prints u l
    → Prints (write_edges is u) (log_edges is u l)
unfolding write_edges log_edges
edges-Prints [] u l p = p
edges-Prints (i ∷ is) u l p =
    edges-Prints is (write_edge false i u) (log_edge i u l) (edge-Prints i u l p)

abbrev pub no_log : Log
no_log = record { addrs = []; beats = [] }

-- The reset leaves nothing in flight.
reset-Prints : (i : WriteInput) (u : WriteSide) → u.out ≡ [] → Prints (write_edge true i u) no_log
unfolding write_edge bytes_of SameLength
reset-Prints i u e = record {
  done = [];
  done_beats = [];
  same = tt;
  addrs_are = refl;
  beats_are = refl;
  out_is = e;
  pending = λ h. cc;
}

settled_output :
    (u : WriteSide) (l : Log)
    → Prints u l
    → u.aw_hs ≡ u.bvalid
    → u.w_hs ≡ u.bvalid
    → u.out ≡ bytes_of l.addrs l.beats
settled_output u l p ea ew = elim (Bool-cases u.bvalid) [
  | inl b ↦
      out_as u l p true b
      ∙ sym (bytes_of-snoc p.done p.done_beats u.held_addr u.held_beat p.same)
      ∙ sym (ap₂ bytes_of (addrs_as u l p true (ea ∙ b)) (beats_as u l p true (ew ∙ b)))
  | inr b ↦
      out_as u l p false b
      ∙ append-nil (bytes_of p.done p.done_beats)
      ∙ sym (
          ap₂ bytes_of (addrs_as u l p false (ea ∙ b) ∙ append-nil p.done)
            (beats_as u l p false (ew ∙ b) ∙ append-nil p.done_beats))
]

-- Behind a reset, for every sequence of inputs: whatever order and delay the addresses, the data and
-- the acceptance of the responses have, whenever no write is half done the output is exactly one
-- byte for each accepted address with the data accepted at the same place, in that order, if it goes
-- to the transmit FIFO with its lowest lane enabled.
pub write_edges-bytes_of :
    (i : WriteInput) (is : List WriteInput) (u : WriteSide)
    → u.out ≡ []
    → (write_edges is (write_edge true i u)).aw_hs ≡ (write_edges is (write_edge true i u)).bvalid
    → (write_edges is (write_edge true i u)).w_hs ≡ (write_edges is (write_edge true i u)).bvalid
    → (write_edges is (write_edge true i u)).out
      ≡ bytes_of
          (log_edges is (write_edge true i u) no_log).addrs
          (log_edges is (write_edge true i u) no_log).beats
write_edges-bytes_of i is u e a w =
    settled_output _ _ (edges-Prints is (write_edge true i u) no_log (reset-Prints i u e)) a w
