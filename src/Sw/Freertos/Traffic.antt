-- ===== src/Sw/Freertos/Traffic.antt =====
-- What one operation of guarded code does to the UART.
use mathlib.Core.Path.{subst}
use qinglong_core.Prelude.{
  ℕ, ◌≡◌, refl, sym, ◌==◌, ◌%◌, Bool, true, false, [], ◌∷◌, ◌++◌, arith, Bool-cases, inl, inr,
}
use qinglong_core.Hw.Uart.{Uart}
use qinglong_core.Sw.Code.{Code, Op, store, wait_clear, delay, call, spin, overrun, word, byte}
use qinglong_core.Sw.Machine.{Machine, is_uart, exec, load, write_to}
use qinglong_core.Sw.Uartlite.{ul_stat, ul_stat_tx_full, ul_tx_fifo}
use qinglong_core.Sw.Freertos.Polls.{guarded}
use qinglong_core.Sw.Freertos.System.{sends}

module _ (dev : Uart) (memory : ℕ → ℕ) where
  open dev use {State, read, write, sent, full}

  -- What an operation of guarded code does to the UART.
  pub data Traffic (op : Op) (code : Code) (ready : Bool) (m : Machine State) : Type 0 where
    polls :
        sends op ≡ []
        → sent (exec dev memory op m).0.uart ≡ sent m.uart
        → guarded false (op ∷ code) ≡ true
        → guarded true code ≡ true
        → ((exec dev memory op m).1 ≡ true → full (exec dev memory op m).0.uart ≡ false)
        → Traffic op code ready m
    passes :
        sends op ≡ []
        → (exec dev memory op m).0.uart ≡ m.uart
        → guarded false code ≡ true
        → Traffic op code ready m
    stores :
        (c : ℕ)
        → sends op ≡ c ∷ []
        → (exec dev memory op m).1 ≡ true
        → ready ≡ true
        → guarded false code ≡ true
        → (full m.uart ≡ false → sent (exec dev memory op m).0.uart ≡ sent m.uart ++ c ∷ [])
        → (full m.uart ≡ true → sent (exec dev memory op m).0.uart ≡ sent m.uart)
        → Traffic op code ready m

  pub exec-Traffic :
      (op : Op) (code : Code) (ready : Bool) (m : Machine State)
      → guarded ready (op ∷ code) ≡ true
      → Traffic op code ready m
  unfolding guarded exec load write_to sends
  exec-Traffic (store word a v) code ready m h = elim (Bool-cases (a == ul_tx_fifo)) [
    | inl e ↦
        let e2 : a ≡ ul_tx_fifo = ground arith in
        let k : ready ≡ true = ground arith in
        let g : guarded false code ≡ true = ground arith in
        subst (λ (b : ℕ). Traffic (store word b v) code ready m) (sym e2)
          (stores (v % 256) refl refl k g (dev.write-sent v m.uart) (dev.write-full v m.uart))
    | inr e ↦
        let u : is_uart a ≡ false = ground arith in
        let g : guarded false code ≡ true = ground arith in passes (rw e refl) (ground arith) g
  ]
  exec-Traffic (store byte a v) code ready m h = cc
  exec-Traffic (wait_clear a mask) code ready m h =
      let e : a ≡ ul_stat = ground arith in
      let k : mask ≡ ul_stat_tx_full = ground arith in
      let g : guarded true code ≡ true = ground arith in
      subst (λ (b : ℕ). Traffic (wait_clear b mask) code ready m) (sym e)
        (subst (λ (b : ℕ). Traffic (wait_clear ul_stat b) code ready m) (sym k)
          (polls refl (dev.read-sent m.uart) g g (λ x. dev.read-full m.uart (ground arith))))
  exec-Traffic (delay ms) code ready m h = passes refl refl h
  exec-Traffic (call c) code ready m h = passes refl refl h
  exec-Traffic spin code ready m h = passes refl refl h
  exec-Traffic overrun code ready m h = cc
