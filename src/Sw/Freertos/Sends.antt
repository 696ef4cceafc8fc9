-- ===== src/Sw/Freertos/Sends.antt =====
-- What a piece of code sends, and whether it ends in the exit register.
use qinglong_core.Prelude.{
  ℕ, zero, suc, ◌+◌, ◌%◌, ◌<◌, ◌≡◌, refl, sym, ap, ap₂, ◌^◌, ◌∙◌, ◌==◌, ◌&&◌, if◌then◌else◌, true,
  false, u32, [], ◌∷◌, ◌++◌, Bytes, codes, IsByte, All, length, arith, Bool-cases, inl, inr,
}
use qinglong_core.Hw.Mmio.{addr_exit, addr_status}
use qinglong_core.Sw.Code.{Code, store, wait_clear, delay, call, spin, overrun, word, byte, each}
use qinglong_core.Sw.Mmio.{mmio_exit}
use qinglong_core.Sw.Machine.{is_uart}
use qinglong_core.Sw.Uartlite.{uartlite_puts, ul_stat, ul_stat_tx_full}
use qinglong_core.Sw.Freertos.{hello_round, hello_exit, blink_round, put_dec, buf_size}
use qinglong_core.Sw.Freertos.Decimal.{decimal, put_dec-decimal, decimal-IsByte}
use qinglong_core.Sw.Freertos.System.{sends}

unfoldable pub sends_all : Code → Bytes
sends_all [] = []
sends_all (op ∷ code) = sends op ++ sends_all code

-- What a piece of code may still do to the exit register: nothing, or write 0 once and hang behind
-- that, or it hangs at once and has nothing more to send. Anything else is `bad`.
pub data Outlook : Type 0 where
  plain exits stuck bad : Outlook

-- Before a step of the code that goes on, and before the write of 0.
abbrev pub going : Outlook → Outlook
going plain = plain
going exits = exits
going stuck = bad
going bad = bad

abbrev pub exiting : Outlook → Outlook
exiting plain = bad
exiting exits = bad
exiting stuck = exits
exiting bad = bad

abbrev pub store_outlook : ℕ → ℕ → Outlook → Outlook
store_outlook a v next =
    if is_uart a
    then going next
    else if a == addr_status
    then going next
    else if a == addr_exit
    then (if v == 0 then exiting next else bad)
    else bad

abbrev pub hanging : Bytes → Outlook
hanging [] = stuck
hanging (c ∷ s) = bad

unfoldable pub outlook : Code → Outlook
unfolding sends_all
outlook [] = plain
outlook (store word a v ∷ code) = store_outlook a v (outlook code)
outlook (store byte a v ∷ code) = bad
outlook (wait_clear a mask ∷ code) =
    if a == ul_stat && (mask == ul_stat_tx_full) then going (outlook code) else bad
outlook (delay ms ∷ code) = going (outlook code)
outlook (call c ∷ code) = going (outlook code)
outlook (spin ∷ code) = hanging (sends_all code)
outlook (overrun ∷ code) = bad

-- Code that hangs sends nothing more.
pub stuck_silent : (code : Code) → outlook code ≡ stuck → sends_all code ≡ []
unfolding outlook sends_all sends
stuck_silent [] h = refl
stuck_silent (store word a v ∷ code) h = absurd (ground arith)
stuck_silent (store byte a v ∷ code) h = cc
stuck_silent (wait_clear a mask ∷ code) h = absurd (ground arith)
stuck_silent (delay ms ∷ code) h = absurd (ground arith)
stuck_silent (call c ∷ code) h = absurd (ground arith)
stuck_silent (spin ∷ code) h = hanging_silent (sends_all code) h
  where
    hanging_silent : (s : Bytes) → hanging s ≡ stuck → s ≡ []
    hanging_silent [] e = refl
    hanging_silent (c ∷ s) e = cc
stuck_silent (overrun ∷ code) h = cc

sends_all-puts :
    (s : Bytes) (code : Code)
    → All IsByte s
    → sends_all (uartlite_puts s ++ code) ≡ s ++ sends_all code
unfolding sends_all sends uartlite_puts each
sends_all-puts [] code h = refl
sends_all-puts (c ∷ s) code h =
    let small : c % 256 % 256 ≡ c = omega (arith, h.0) in
    ap₂ (λ (x : ℕ) (xs : Bytes). x ∷ xs) small (sends_all-puts s code h.1)

-- Text before code that does not hang at once changes nothing.
outlook-puts :
    (s : Bytes) (code : Code)
    → going (outlook code) ≡ outlook code
    → outlook (uartlite_puts s ++ code) ≡ outlook code
unfolding outlook uartlite_puts each
outlook-puts [] code h = refl
outlook-puts (c ∷ s) code h =
    ap (λ (x : Outlook). going (going x)) (outlook-puts s code h) ∙ ap going h ∙ h

abbrev pub pass_text : ℕ → Bytes
pass_text n = if n == 10 then codes "PASS\r\n" else []

-- What task_hello prints in a round with the counter at `n`, and in its first `n` rounds.
abbrev pub hello_text : ℕ → Bytes
hello_text n = codes "hello #" ++ (decimal n ++ (codes "\r\n" ++ pass_text (n + 1)))

unfoldable pub hello_report : ℕ → Bytes
hello_report zero = []
hello_report (suc n) = hello_report n ++ hello_text n

-- The end of a round of task_hello, behind its line.
abbrev hello_end : ℕ → Code
hello_end n = hello_exit false n ++ delay 250 ∷ []

sends_all-hello_end : (n : ℕ) → sends_all (hello_end n) ≡ pass_text n
unfolding hello_exit sends_all sends uartlite_puts mmio_exit each
sends_all-hello_end n = elim (Bool-cases (n == 10)) [ inl e ↦ rw e | inr e ↦ rw e ]

outlook-hello_end : (n : ℕ) → outlook (hello_end n) ≡ (if n == 10 then exits else plain)
unfolding hello_exit outlook uartlite_puts mmio_exit each sends
outlook-hello_end n = elim (Bool-cases (n == 10)) [ inl e ↦ rw e | inr e ↦ rw e ]

hello_end_goes : (n : ℕ) → going (outlook (hello_end n)) ≡ outlook (hello_end n)
hello_end_goes n = ground (arith, outlook-hello_end n)

-- A text with a number in it, before other code.
module _ (buf : Bytes) (sized : length buf ≡ buf_size) (n : ℕ) (fits : n < 2 ^ 32) where
  line_code : Bytes → Bytes → Code → Code
  line_code before after code =
      uartlite_puts before ++ (put_dec buf n ++ (uartlite_puts after ++ code))

  sends_all-line_code :
      (before after : Bytes) (code : Code)
      → All IsByte before
      → All IsByte after
      → sends_all (line_code before after code) ≡ before ++ (decimal n ++ (after ++ sends_all code))
  unfolding line_code
  sends_all-line_code before after code hb ha =
      sends_all-puts before (put_dec buf n ++ (uartlite_puts after ++ code)) hb
      ∙ ap (λ (t : Bytes). before ++ t)
          (ap (λ (c : Code). sends_all (c ++ (uartlite_puts after ++ code)))
              (put_dec-decimal buf n sized fits)
            ∙ sends_all-puts (decimal n) (uartlite_puts after ++ code) (decimal-IsByte n)
            ∙ ap (λ (t : Bytes). decimal n ++ t) (sends_all-puts after code ha))

  outlook-line_code :
      (before after : Bytes) (code : Code)
      → going (outlook code) ≡ outlook code
      → outlook (line_code before after code) ≡ outlook code
  unfolding line_code
  outlook-line_code before after code h =
      let a = outlook-puts after code h in
      let b =
        ap (λ (c : Code). outlook (c ++ (uartlite_puts after ++ code)))
          (put_dec-decimal buf n sized fits)
        ∙ outlook-puts (decimal n) (uartlite_puts after ++ code) (ap going a ∙ h ∙ sym a)
        ∙ a in
      outlook-puts before (put_dec buf n ++ (uartlite_puts after ++ code)) (ap going b ∙ h ∙ sym b)
      ∙ b

  pub sends_all-blink_round :
      sends_all (blink_round buf n) ≡ codes "[blink " ++ (decimal n ++ codes "]\r\n")
  unfolding blink_round line_code sends_all sends
  sends_all-blink_round =
      sends_all-line_code (codes "[blink ") (codes "]\r\n") _ (omega arith) (omega arith)

  pub outlook-blink_round : outlook (blink_round buf n) ≡ plain
  unfolding blink_round line_code outlook
  outlook-blink_round = outlook-line_code (codes "[blink ") (codes "]\r\n") _ refl

  pub sends_all-hello_round :
      u32 (n + 1) ≡ n + 1 → sends_all (hello_round false buf n) ≡ hello_text n
  unfolding hello_round line_code
  sends_all-hello_round small =
      sends_all-line_code (codes "hello #") (codes "\r\n") (hello_end (u32 (n + 1))) (omega arith)
        (omega arith)
      ∙ ap (λ (t : Bytes). codes "hello #" ++ (decimal n ++ (codes "\r\n" ++ t)))
          (sends_all-hello_end (u32 (n + 1)) ∙ ap pass_text small)

  pub outlook-hello_round :
      u32 (n + 1) ≡ n + 1
      → outlook (hello_round false buf n) ≡ (if n + 1 == 10 then exits else plain)
  unfolding hello_round line_code
  outlook-hello_round small =
      outlook-line_code (codes "hello #") (codes "\r\n") (hello_end (u32 (n + 1)))
        (hello_end_goes (u32 (n + 1)))
      ∙ outlook-hello_end (u32 (n + 1))
      ∙ ap (λ (m : ℕ). if m == 10 then exits else plain) small

  -- With FREERTOS_FPGA a round has no exit.
  pub outlook-hello_fpga : outlook (hello_round true buf n) ≡ plain
  unfolding hello_round hello_exit line_code outlook
  outlook-hello_fpga = outlook-line_code (codes "hello #") (codes "\r\n") _ refl
