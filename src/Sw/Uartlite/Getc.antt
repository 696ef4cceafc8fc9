-- ===== src/Sw/Uartlite/Getc.antt =====
-- uartlite_getc on any bus on which a byte arrives.
use qinglong_core.Prelude.{
  ℕ, zero, suc, ◌≤◌, ◌<◌, ◌≡◌, ◌≢◌, refl, ap, ◌∙◌, ◌==◌, if◌then◌else◌, Bool, true, false, bit_and,
  Option, none, some, arith,
}
use qinglong_core.Sw.Uartlite.{
  ul_stat, ul_rx_fifo, ul_stat_rx_valid, uartlite_rx_has, await_rx, uartlite_getc,
}

module _ {S : Type 0} (load : ℕ → S → ℕ × S) where
  -- The bus after some reads of STAT.
  unfoldable pub polls : ℕ → S → S
  polls zero s = s
  polls (suc n) s = polls n (load ul_stat s).1

  -- RX_VALID is low in the first `n` reads of STAT and high in the next.
  unfoldable pub Arrives : ℕ → S → Type 0
  Arrives zero s = bit_and (load ul_stat s).0 ul_stat_rx_valid ≢ 0
  Arrives (suc n) s =
      (bit_and (load ul_stat s).0 ul_stat_rx_valid ≡ 0) × Arrives n (load ul_stat s).1

  await_rx-Arrives :
      (n fuel : ℕ) (s : S) → n < fuel → Arrives n s → await_rx load fuel s ≡ some (polls (suc n) s)
  unfolding await_rx uartlite_rx_has Arrives polls
  await_rx-Arrives n zero s l a = absurd (omega arith)
  await_rx-Arrives zero (suc fuel) s l a =
      let e : (bit_and (load ul_stat s).0 ul_stat_rx_valid == 0) ≡ false = ground arith in
      ap
        (λ (b : Bool). if b then await_rx load fuel (load ul_stat s).1 else some (load ul_stat s).1)
        e
  await_rx-Arrives (suc n) (suc fuel) s l a =
      let e : (bit_and (load ul_stat s).0 ul_stat_rx_valid == 0) ≡ true = ground (arith, a.0) in
      ap
        (λ (b : Bool). if b then await_rx load fuel (load ul_stat s).1 else some (load ul_stat s).1)
        e
      ∙ await_rx-Arrives n fuel (load ul_stat s).1 (omega arith) a.1

  await_rx_early : (n k : ℕ) (s : S) → k ≤ n → Arrives n s → await_rx load k s ≡ none
  unfolding await_rx uartlite_rx_has Arrives
  await_rx_early n zero s l a = refl
  await_rx_early zero (suc k) s l a = absurd (omega arith)
  await_rx_early (suc n) (suc k) s l a =
      let e : (bit_and (load ul_stat s).0 ul_stat_rx_valid == 0) ≡ true = ground (arith, a.0) in
      ap (λ (b : Bool). if b then await_rx load k (load ul_stat s).1 else some (load ul_stat s).1) e
      ∙ await_rx_early n k (load ul_stat s).1 (omega arith) a.1

  -- What is read behind the wait.
  abbrev received : Option S → Option (ℕ × S)
  received none = none
  received (some t) = some (bit_and (load ul_rx_fifo t).0 0xFF, (load ul_rx_fifo t).1)

  getc-received : (fuel : ℕ) (s : S) → uartlite_getc load fuel s ≡ received (await_rx load fuel s)
  unfolding uartlite_getc
  getc-received fuel s =
      elim (await_rx load fuel s)
        as (λ r.
          (elim r [
            | none ↦ none
            | some t ↦ some (bit_and (load ul_rx_fifo t).0 0xFF, (load ul_rx_fifo t).1)
          ])
          ≡ received r) [ none ↦ refl | some t ↦ refl ]

  -- On any bus on which RX_VALID is low in `n` reads of STAT and high in the next, uartlite_getc comes
  -- back behind that read, and not earlier: with the low byte that RX_FIFO then holds, having read the
  -- FIFO once.
  pub uartlite_getc-Arrives :
      (n k fuel : ℕ) (s : S)
      → k ≤ n
      → n < fuel
      → Arrives n s
      → (uartlite_getc load k s ≡ none)
        × (uartlite_getc load fuel s
            ≡ some (
              bit_and (load ul_rx_fifo (polls (suc n) s)).0 0xFF,
              (load ul_rx_fifo (polls (suc n) s)).1,
            ))
  uartlite_getc-Arrives n k fuel s early late a = (
    getc-received k s ∙ ap received (await_rx_early n k s early a),
    getc-received fuel s ∙ ap received (await_rx-Arrives n fuel s late a),
  )
