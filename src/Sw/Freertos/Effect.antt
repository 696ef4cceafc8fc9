-- ===== src/Sw/Freertos/Effect.antt =====
-- What one operation of the demo does to the exit register.
use mathlib.Core.Path.{subst}
use qinglong_core.Prelude.{
  ℕ, ◌≡◌, ◌≢◌, refl, sym, ap, ◌∙◌, ◌==◌, ◌&&◌, true, false, ◌∷◌, arith, Bool-cases, inl, inr,
}
use qinglong_core.Hw.Mmio.{Mmio, addr_exit, addr_status, clock, accept, req_ready}
use qinglong_core.Hw.Uart.{Uart}
use qinglong_core.Sw.Code.{Code, Op, store, wait_clear, delay, call, spin, overrun, word, byte}
use qinglong_core.Sw.Machine.{Machine, is_uart, exec, load, write_to}
use qinglong_core.Sw.Uartlite.{ul_stat, ul_stat_tx_full}
use qinglong_core.Sw.Freertos.Sends.{Outlook, exits, stuck, bad, store_outlook, outlook}

module _ (dev : Uart) (memory : ℕ → ℕ) where
  open dev use {State}

  -- What an operation with a good outlook does to the exit register, and to the outlook.
  pub data Effect (op : Op) (code : Code) (m : Machine State) : Type 0 where
    keeps :
        ((exec dev memory op m).1 ≡ true → outlook code ≡ outlook (op ∷ code))
        → (exec dev memory op m).0.mmio.exit_valid ≡ m.mmio.exit_valid
        → (exec dev memory op m).0.mmio.exit_code ≡ m.mmio.exit_code
        → Effect op code m
    leaves :
        (exec dev memory op m).1 ≡ true
        → outlook (op ∷ code) ≡ exits
        → outlook code ≡ stuck
        → (exec dev memory op m).0.mmio.exit_valid ≡ true
        → (exec dev memory op m).0.mmio.exit_code ≡ 0
        → Effect op code m

  write_uart :
      (a v : ℕ) (m : Machine State)
      → is_uart a ≡ true
      → (write_to dev memory word a v m).mmio ≡ m.mmio
  unfolding write_to
  write_uart a v m h = rw (h, write_to)

  write_status :
      (v : ℕ) (m : Machine State)
      → ((write_to dev memory word addr_status v m).mmio.exit_valid ≡ m.mmio.exit_valid)
        × ((write_to dev memory word addr_status v m).mmio.exit_code ≡ m.mmio.exit_code)
  unfolding write_to clock req_ready accept
  write_status v m = (refl, refl)

  write_exit :
      (v : ℕ) (m : Machine State)
      → ((write_to dev memory word addr_exit v m).mmio.exit_valid ≡ true)
        × ((write_to dev memory word addr_exit v m).mmio.exit_code ≡ v)
  unfolding write_to clock req_ready accept
  write_exit v m = (refl, refl)

  store-exits :
      (a v : ℕ) (next : Outlook)
      → store_outlook a v next ≢ bad
      → is_uart a ≡ false
      → (a == addr_status) ≡ false
      → (a ≡ addr_exit) × (v ≡ 0) × (next ≡ stuck) × (store_outlook a v next ≡ exits)
  store-exits a v next h u s = ground arith

  load_uart : (a : ℕ) (m : Machine State) → is_uart a ≡ true → (load dev memory a m).1.mmio ≡ m.mmio
  unfolding load
  load_uart a m h = rw (h, load)

  store-Effect :
      (a v : ℕ) (code : Code) (m : Machine State)
      → outlook (store word a v ∷ code) ≢ bad
      → Effect (store word a v) code m
  unfolding exec outlook
  store-Effect a v code m h = elim (Bool-cases (is_uart a)) [
    | inl u ↦
        let w = write_uart a v m u in
        keeps (λ g. ground arith) (ap (λ (r : Mmio). r.exit_valid) w)
          (ap (λ (r : Mmio). r.exit_code) w)
    | inr u ↦ elim (Bool-cases (a == addr_status)) [
      | inl s ↦
          let e : addr_status ≡ a = ground arith in
          keeps (λ g. ground arith)
            (subst (λ (b : ℕ). (write_to dev memory word b v m).mmio.exit_valid ≡ m.mmio.exit_valid)
              e (write_status v m).0)
            (subst (λ (b : ℕ). (write_to dev memory word b v m).mmio.exit_code ≡ m.mmio.exit_code) e
              (write_status v m).1)
      | inr s ↦
          let (e, z, k, x) = store-exits a v (outlook code) h u s in
          leaves refl x k
            (subst (λ (b : ℕ). (write_to dev memory word b v m).mmio.exit_valid ≡ true) (sym e)
              (write_exit v m).0)
            (subst (λ (b : ℕ). (write_to dev memory word b v m).mmio.exit_code ≡ v) (sym e)
                (write_exit v m).1
              ∙ z)
    ]
  ]

  pub exec-Effect :
      (op : Op) (code : Code) (m : Machine State) → outlook (op ∷ code) ≢ bad → Effect op code m
  unfolding exec outlook
  exec-Effect (store word a v) code m h = store-Effect a v code m h
  exec-Effect (store byte a v) code m h = absurd (h refl)
  exec-Effect (wait_clear a mask) code m h =
      elim (Bool-cases (a == ul_stat && (mask == ul_stat_tx_full))) [
        | inl u ↦
            let w = load_uart a m (ground arith) in
            keeps (λ g. ground arith) (ap (λ (r : Mmio). r.exit_valid) w)
              (ap (λ (r : Mmio). r.exit_code) w)
        | inr u ↦ absurd (h (rw u))
      ]
  exec-Effect (delay ms) code m h = keeps (λ g. ground arith) refl refl
  exec-Effect (call c) code m h = keeps (λ g. ground arith) refl refl
  exec-Effect spin code m h = keeps (λ g. cc) refl refl
  exec-Effect overrun code m h = absurd (h refl)
