-- ===== src/Hw/Mmio/Tap.antt =====
-- What the two taps of the MMIO block show over many edges.
use qinglong_core.Prelude.{
  ℕ, ◌%◌, ◌≡◌, refl, sym, ap, ap₂, ◌∙◌, ◌==◌, if◌then◌else◌, Bool, true, false, ◌&&◌, ◌||◌, List,
  [], ◌∷◌, ◌++◌, Bytes, arith,
}
use qinglong_core.Hw.Mmio.{Request, Mmio, addr_exit, req_ready, is_console_store, accept, clock}

-- The inputs of an edge without reset.
pub record Cycle : Type 0 where
  pub console_ready : Bool
  pub request : Request

abbrev pub next : Cycle → Mmio → Mmio
next c m = clock false c.console_ready c.request m

unfoldable pub after_all : List Cycle → Mmio → Mmio
after_all [] m = m
after_all (c ∷ cs) m = after_all cs (next c m)

-- What the console tap shows behind an edge.
abbrev pub shown : Mmio → Bytes
shown m = if m.console_valid then m.console_byte ∷ [] else []

unfoldable pub console_tap : List Cycle → Mmio → Bytes
console_tap [] m = []
console_tap (c ∷ cs) m = shown (next c m) ++ console_tap cs (next c m)

-- The same from the requests alone.
abbrev pub printed : Cycle → Bytes
printed c =
    if is_console_store c.request && c.console_ready && (c.request.wmask % 2 == 1)
    then c.request.wdata % 256 ∷ []
    else []

abbrev pub exit_store : Cycle → List ℕ
exit_store c =
    if c.request.valid && c.request.wen && (c.request.addr == addr_exit)
    then c.request.wdata ∷ []
    else []

unfoldable pub all_printed : List Cycle → Bytes
all_printed [] = []
all_printed (c ∷ cs) = printed c ++ all_printed cs

unfoldable pub exit_stores : List Cycle → List ℕ
exit_stores [] = []
exit_stores (c ∷ cs) = exit_store c ++ exit_stores cs

unfoldable pub last_or : ℕ → List ℕ → ℕ
last_or x [] = x
last_or x (y ∷ ys) = last_or y ys

abbrev pub some_of : List ℕ → Bool
some_of [] = false
some_of (y ∷ ys) = true

pub shown-next : (c : Cycle) (m : Mmio) → shown (next c m) ≡ printed c
unfolding clock accept req_ready
shown-next c m = ground arith

pub exit_next :
    (c : Cycle) (m : Mmio)
    → ((next c m).exit_valid ≡ (m.exit_valid || some_of (exit_store c)))
      × ((next c m).exit_code ≡ last_or m.exit_code (exit_store c))
unfolding clock accept req_ready last_or
exit_next c m = (ground arith, ground arith)

last_or-append : (x : ℕ) (ys zs : List ℕ) → last_or x (ys ++ zs) ≡ last_or (last_or x ys) zs
unfolding last_or
last_or-append x [] zs = refl
last_or-append x (y ∷ ys) zs = last_or-append y ys zs

or_some_of :
    (b : Bool) (ys zs : List ℕ) → (b || some_of ys || some_of zs) ≡ (b || some_of (ys ++ zs))
or_some_of b [] zs = ground arith
or_some_of b (y ∷ ys) zs = ground arith

-- However many requests come, with whatever back-pressure: the console tap shows one byte for each
-- accepted console store to its byte lane, in their order, `exit_valid` rises with the first store to
-- the exit register and never falls, and `exit_code` is the last value stored there.
pub after_all-taps :
    (cs : List Cycle) (m : Mmio)
    → (console_tap cs m ≡ all_printed cs)
      × ((after_all cs m).exit_valid ≡ (m.exit_valid || some_of (exit_stores cs)))
      × ((after_all cs m).exit_code ≡ last_or m.exit_code (exit_stores cs))
unfolding console_tap all_printed after_all exit_stores last_or
after_all-taps [] m = (refl, ground arith, refl)
after_all-taps (c ∷ cs) m =
    let (t, v, x) = after_all-taps cs (next c m) in
    let (v1, x1) = exit_next c m in
    (
      ap₂ (λ (a b : Bytes). a ++ b) (shown-next c m) t,
      v
          ∙ ap (λ (b : Bool). b || some_of (exit_stores cs)) v1
          ∙ or_some_of m.exit_valid (exit_store c) (exit_stores cs),
      x
          ∙ ap (λ (y : ℕ). last_or y (exit_stores cs)) x1
          ∙ sym (last_or-append m.exit_code (exit_store c) (exit_stores cs)),
    )
