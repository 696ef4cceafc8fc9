-- ===== src/Sw/Uartlite/Puts.antt =====
-- uartlite_puts on any UART that meets the interface.
use mathlib.Core.Path.{subst}
use qinglong_core.Prelude.{
  ℕ, zero, suc, ◌%◌, ◌<◌, ◌≡◌, refl, sym, ap, ◌∙◌, ◌==◌, Bool, true, false, bit_and, [], ◌∷◌, ◌++◌,
  append_assoc, append-nil, Bytes, IsByte, All, arith, Bool-cases, inl, inr,
}
use qinglong_core.Hw.Uart.{Uart}
use qinglong_core.Sw.Code.{Code, Op, wait_clear, store, word, each}
use qinglong_core.Sw.Machine.{Machine, exec, load, write_to}
use qinglong_core.Sw.Machine.Runs.{Runs, Runs-done, Runs-again, Runs-none}
use qinglong_core.Sw.Uartlite.{ul_stat, ul_stat_tx_full, ul_tx_fifo, uartlite_putc, uartlite_puts}

module _ (dev : Uart) (memory : ℕ → ℕ) where
  open dev use {State, read, write, sent, full, busy}

  polled : Machine State → Machine State
  polled m = record m { uart = (read 8 m.uart).1 }

  polled-sent : (m : Machine State) → sent (polled m).uart ≡ sent m.uart
  unfolding polled
  polled-sent m = dev.read-sent m.uart

  polled-mmio : (m : Machine State) → (polled m).mmio ≡ m.mmio
  unfolding polled
  polled-mmio m = refl

  abbrev poll : Op
  poll = wait_clear ul_stat ul_stat_tx_full

  exec-poll :
      (m : Machine State) → exec dev memory poll m ≡ (polled m, bit_and (read 8 m.uart).0 8 == 0)
  unfolding exec load polled
  exec-poll m = refl

  exec-poll_is :
      (m : Machine State) (b : Bool)
      → (bit_and (read 8 m.uart).0 8 == 0) ≡ b
      → exec dev memory poll m ≡ (polled m, b)
  exec-poll_is m b e = exec-poll m ∙ ap (λ (x : Bool). (polled m, x)) e

  -- What some code does that leaves `rest`: it sends `s` and does nothing else.
  pub record Sends (s : Bytes) (code rest : Code) (m : Machine State) : Type 0 where
    pub to : Machine State
    pub ran : Runs dev memory code rest m to
    pub sent_all : sent to.uart ≡ sent m.uart ++ s
    pub mmio_kept : to.mmio ≡ m.mmio

  -- Whatever a ready UART makes of the rest, the wait comes to it.
  wait_Sends :
      (b : ℕ) (s : Bytes) (code rest : Code) (m : Machine State)
      → busy m.uart < b
      → ((m1 : Machine State) → full m1.uart ≡ false → Sends s code rest m1)
      → Sends s (poll ∷ code) rest m
  wait_Sends zero s code rest m l k = absurd (omega arith)
  wait_Sends (suc b) s code rest m l k = elim (Bool-cases (bit_and (read 8 m.uart).0 8 == 0)) [
    | inl z ↦
        let r = k (polled m) (unfold polled in dev.read-full m.uart (ground arith)) in
        record {
          to = r.to;
          ran = Runs-done dev memory poll code rest m (polled m) r.to (exec-poll_is m true z) r.ran;
          sent_all = r.sent_all ∙ ap (λ (t : Bytes). t ++ s) (polled-sent m);
          mmio_kept = r.mmio_kept ∙ polled-mmio m;
        }
    | inr z ↦
        let r =
          wait_Sends b s code rest (polled m)
            (unfold polled in omega (arith, l, dev.read-busy m.uart z)) k in
        record {
          to = r.to;
          ran =
              Runs-again dev memory poll code rest m (polled m) r.to (exec-poll_is m false z) r.ran;
          sent_all = r.sent_all ∙ ap (λ (t : Bytes). t ++ s) (polled-sent m);
          mmio_kept = r.mmio_kept ∙ polled-mmio m;
        }
  ]

  stored : ℕ → Machine State → Machine State
  stored v m = record m { uart = write 4 v m.uart }

  exec-tx :
      (v : ℕ) (m : Machine State) → exec dev memory (store word ul_tx_fifo v) m ≡ (stored v m, true)
  unfolding exec write_to stored
  exec-tx v m = refl

  stored-mmio : (v : ℕ) (m : Machine State) → (stored v m).mmio ≡ m.mmio
  unfolding stored
  stored-mmio v m = refl

  stored-sent :
      (v : ℕ) (m : Machine State)
      → full m.uart ≡ false
      → sent (stored v m).uart ≡ sent m.uart ++ v % 256 ∷ []
  unfolding stored
  stored-sent v m room = dev.write-sent v m.uart room

  putc-Sends :
      (c : ℕ) (s : Bytes) (code rest : Code) (m : Machine State)
      → IsByte c
      → ((m1 : Machine State) → Sends s code rest m1)
      → Sends (c ∷ s) (uartlite_putc c ++ code) rest m
  unfolding uartlite_putc
  putc-Sends c s code rest m h k =
      wait_Sends (suc (busy m.uart)) (c ∷ s) (store word ul_tx_fifo (c % 256) ∷ code) rest m
        (omega arith)
        λ m1 room.
          let r = k (stored (c % 256) m1) in
          record {
            to = r.to;
            ran =
                Runs-done dev memory (store word ul_tx_fifo (c % 256)) code rest m1
                  (stored (c % 256) m1) r.to (exec-tx (c % 256) m1) r.ran;
            sent_all =
                r.sent_all
                ∙ ap (λ (t : Bytes). t ++ s) (stored-sent (c % 256) m1 room)
                ∙ append_assoc (sent m1.uart) (c % 256 % 256 ∷ []) s
                ∙ ap (λ (x : ℕ). sent m1.uart ++ x ∷ s) (omega (arith, h));
            mmio_kept = r.mmio_kept ∙ stored-mmio (c % 256) m1;
          }

  -- On any UART of the interface, in any state, uartlite_puts comes to its end: every wait for the
  -- transmit FIFO is over after finitely many polls, the bytes of the text are sent in their order
  -- behind what was sent before, none is dropped, and the MMIO block is left alone.
  pub uartlite_puts-Sends :
      (s : Bytes) (rest : Code) (m : Machine State)
      → All IsByte s
      → Sends s (uartlite_puts s ++ rest) rest m
  unfolding uartlite_puts each
  uartlite_puts-Sends [] rest m h = record {
    to = m;
    ran = Runs-none dev memory rest m;
    sent_all = sym (append-nil (sent m.uart));
    mmio_kept = refl;
  }
  uartlite_puts-Sends (c ∷ s) rest m h =
      subst (λ (x : Code). Sends (c ∷ s) x rest m)
        (sym (append_assoc (uartlite_putc c) (uartlite_puts s) rest))
        (putc-Sends c s (uartlite_puts s ++ rest) rest m h.0
          λ m1. uartlite_puts-Sends s rest m1 h.1)
