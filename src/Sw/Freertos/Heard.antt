-- ===== src/Sw/Freertos/Heard.antt =====
-- What the UART gets to send from a task of guarded code, byte by byte.
use qinglong_core.Prelude.{
  ℕ, ◌^◌, ◌<◌, ◌≡◌, refl, ap, ◌∙◌, sym, Bool, true, false, [], ◌∷◌, ◌++◌, append-nil, append_assoc,
  Bytes, arith, Bool-cases, inl, inr,
}
use qinglong_core.Hw.Uart.{Uart}
use qinglong_core.Sw.Code.{Code, Op}
use qinglong_core.Sw.Machine.{Machine, exec}
use qinglong_core.Sw.Freertos.Polls.{guarded}
use qinglong_core.Sw.Freertos.System.{Thread, sends, advance, thread_step}
use qinglong_core.Sw.Freertos.Traffic.{Traffic, polls, passes, stores, exec-Traffic}

-- The first list is left when some bytes of the second one are crossed out.
pub data Within : Bytes → Bytes → Type 0 where
  nothing : Within [] []
  kept : {c : ℕ} {xs ys : Bytes} → Within xs ys → Within (c ∷ xs) (c ∷ ys)
  crossed : {c : ℕ} {xs ys : Bytes} → Within xs ys → Within xs (c ∷ ys)

Within-snoc : {xs ys : Bytes} (c : ℕ) → Within xs ys → Within (xs ++ c ∷ []) (ys ++ c ∷ [])
Within-snoc c nothing = kept nothing
Within-snoc c (kept w) = kept (Within-snoc c w)
Within-snoc c (crossed w) = crossed (Within-snoc c w)

pub Within-grown : {xs ys : Bytes} (c : ℕ) → Within xs ys → Within xs (ys ++ c ∷ [])
Within-grown c nothing = crossed nothing
Within-grown c (kept w) = kept (Within-grown c w)
Within-grown c (crossed w) = crossed (Within-grown c w)

module _ (dev : Uart) (memory : ℕ → ℕ) where
  open dev use {State, read, write, sent, full}

  -- A task of guarded code: what it has stored is in what the UART has got since the state `u`.
  pub record Heard (u : State) (t : Thread) (m : Machine State) : Type 0 where
    pub small : t.n < 2 ^ 32
    pub ready : Bool
    pub shape : guarded ready t.rest ≡ true
    pub room : ready ≡ true → full m.uart ≡ false
    pub log : Bytes
    pub grown : sent m.uart ≡ sent u ++ log
    pub inside : Within t.stored log

  -- A task of guarded code, whatever becomes of its bytes.
  pub record Polite (t : Thread) : Type 0 where
    pub small : t.n < 2 ^ 32
    pub ready : Bool
    pub shape : guarded ready t.rest ≡ true

  advance-Heard :
      (u : State) (op : Op) (code : Code) (t : Thread) (m : Machine State)
      → t.rest ≡ op ∷ code
      → (h : Heard u t m) → Traffic dev memory op code h.ready m
      → Heard u (advance dev memory op code t m).0 (advance dev memory op code t m).1
  unfolding advance
  advance-Heard u op code t m e h (polls s k g r f) = elim (Bool-cases (exec dev memory op m).1) [
    | inl go ↦
        rw (go, advance)
          (record {
            small = h.small;
            ready = true;
            shape = r;
            room = λ x. f go;
            log = h.log;
            grown = k ∙ h.grown;
            inside = rw (s, append-nil t.stored) h.inside;
          })
    | inr go ↦
        rw (go, advance)
          (record {
            small = h.small;
            ready = false;
            shape = ap (guarded false) e ∙ g;
            room = λ x. cc;
            log = h.log;
            grown = k ∙ h.grown;
            inside = h.inside;
          })
  ]
  advance-Heard u op code t m e h (passes s k g) = elim (Bool-cases (exec dev memory op m).1) [
    | inl go ↦
        rw (go, advance)
          (record {
            small = h.small;
            ready = false;
            shape = g;
            room = λ x. cc;
            log = h.log;
            grown = ap sent k ∙ h.grown;
            inside = rw (s, append-nil t.stored) h.inside;
          })
    | inr go ↦
        rw (go, advance)
          (record {
            small = h.small;
            ready = h.ready;
            shape = h.shape;
            room = λ x. ap full k ∙ h.room x;
            log = h.log;
            grown = ap sent k ∙ h.grown;
            inside = h.inside;
          })
  ]
  advance-Heard u op code t m e h (stores c s go r g k d) =
      rw (go, advance)
        (record {
          small = h.small;
          ready = false;
          shape = g;
          room = λ x. cc;
          log = h.log ++ c ∷ [];
          grown =
              k (h.room r)
              ∙ ap (λ (b : Bytes). b ++ c ∷ []) h.grown
              ∙ append_assoc (sent u) h.log (c ∷ []);
          inside = rw s (Within-snoc c h.inside);
        })

  advance-Polite :
      (op : Op) (code : Code) (t : Thread) (m : Machine State)
      → t.rest ≡ op ∷ code
      → (h : Polite t) → Traffic dev memory op code h.ready m
      → Polite (advance dev memory op code t m).0
  unfolding advance
  advance-Polite op code t m e h w = elim (Bool-cases (exec dev memory op m).1) [
    | inl go ↦ rw (go, advance) (goes w)
    | inr go ↦ rw (go, advance) h
  ]
    where
      goes :
          Traffic dev memory op code h.ready m
          → Polite (record t { rest = code; stored = t.stored ++ sends op })
      goes (polls s k g r f) = record { small = h.small; ready = true; shape = r }
      goes (passes s k g) = record { small = h.small; ready = false; shape = g }
      goes (stores c s go r g k d) = record { small = h.small; ready = false; shape = g }

  -- What the UART has got from a step of a task.
  pub data Gets (m m' : Machine State) : Type 0 where
    no_byte : sent m'.uart ≡ sent m.uart → Gets m m'
    one_byte : (c : ℕ) → sent m'.uart ≡ sent m.uart ++ c ∷ [] → Gets m m'

  advance-Gets :
      (op : Op) (code : Code) (t : Thread) (m : Machine State) (ready : Bool)
      → Traffic dev memory op code ready m
      → Gets m (advance dev memory op code t m).1
  unfolding advance
  advance-Gets op code t m ready (polls s k g r f) = no_byte k
  advance-Gets op code t m ready (passes s k g) = no_byte (ap sent k)
  advance-Gets op code t m ready (stores c s go r g k d) = elim (Bool-cases (full m.uart)) [
    | inl x ↦ no_byte (d x)
    | inr x ↦ one_byte c (k x)
  ]

  module _ (round : ℕ → Code)
      (guarded_round : (n : ℕ) → n < 2 ^ 32 → guarded false (round n) ≡ true) where
    pub step-Heard :
        (u : State) (code : Code) (t : Thread) (m : Machine State)
        → t.rest ≡ code
        → Heard u t m
        → Heard u
            (thread_step dev memory round code t m).0
            (thread_step dev memory round code t m).1
    unfolding thread_step
    step-Heard u [] t m e h = record {
      small = omega arith;
      ready = false;
      shape = guarded_round t.n h.small;
      room = λ x. cc;
      log = h.log;
      grown = h.grown;
      inside = h.inside;
    }
    step-Heard u (op ∷ code) t m e h =
        advance-Heard u op code t m e h
          (exec-Traffic dev memory op code h.ready m (sym (ap (guarded h.ready) e) ∙ h.shape))

    pub step-Polite :
        (code : Code) (t : Thread) (m : Machine State)
        → t.rest ≡ code
        → Polite t
        → Polite (thread_step dev memory round code t m).0
          × Gets m (thread_step dev memory round code t m).1
    unfolding thread_step
    step-Polite [] t m e h = (
      record { small = omega arith; ready = false; shape = guarded_round t.n h.small },
      no_byte refl,
    )
    step-Polite (op ∷ code) t m e h =
        let w =
          exec-Traffic dev memory op code h.ready m (sym (ap (guarded h.ready) e) ∙ h.shape) in
        (advance-Polite op code t m e h w, advance-Gets op code t m h.ready w)
