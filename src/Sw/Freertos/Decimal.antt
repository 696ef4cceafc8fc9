-- ===== src/Sw/Freertos/Decimal.antt =====
-- What put_dec prints.
use native.Mathlib.Nat.{pow-suc, le_refl}
use native.Mathlib.Numerals.{add-one}
use qinglong_core.Prelude.{
  ℕ, zero, suc, ◌+◌, ◌-◌, ◌*◌, ◌/◌, ◌%◌, ◌^◌, ◌≤◌, ◌<◌, ◌≡◌, ◌≢◌, refl, sym, ap, ◌∙◌, ◌==◌, leb,
  ◌&&◌, if◌then◌else◌, [], ◌∷◌, ◌++◌, append_assoc, append-nil, Bytes, Option, none, some,
  get_elem?, length, length-append, IsByte, All, All-append, arith, Bool-cases, inl, inr,
}
use qinglong_core.Sw.Code.{Code, each}
use qinglong_core.Sw.Uartlite.{uartlite_putc, uartlite_puts}
use qinglong_core.Sw.Freertos.{set, fill, put_at, drain, print, put_dec, buf_size}

-- The decimal digits of a number below 10 ^ k, none for 0.
unfoldable pub digits : ℕ → ℕ → Bytes
digits zero v = []
digits (suc k) v = if v == 0 then [] else digits k (v / 10) ++ (b'0' + v % 10) ∷ []

unfoldable pub decimal : ℕ → Bytes
decimal v = if v == 0 then b'0' ∷ [] else digits buf_size v

-- A reader of decimal numbers, from the value of the digits before.
unfoldable pub read_digits : ℕ → Bytes → Option ℕ
read_digits n [] = some n
read_digits n (c ∷ s) =
    if leb b'0' c && leb c b'9' then read_digits (n * 10 + (c - b'0')) s else none

length-set : (buf : Bytes) (i c : ℕ) → length (set buf i c) ≡ length buf
unfolding set
length-set [] i c = refl
length-set (x ∷ buf) zero c = refl
length-set (x ∷ buf) (suc i) c = omega (arith, length-set buf i c)

get_elem?-set_self : (buf : Bytes) (i c : ℕ) → i < length buf → get_elem? (set buf i c) i ≡ some c
unfolding set
get_elem?-set_self [] i c h = absurd (omega arith)
get_elem?-set_self (x ∷ buf) zero c h = refl
get_elem?-set_self (x ∷ buf) (suc i) c h = get_elem?-set_self buf i c (omega arith)

get_elem?-set_lt : (buf : Bytes) (i j c : ℕ) → j < i → get_elem? (set buf i c) j ≡ get_elem? buf j
unfolding set
get_elem?-set_lt [] i j c h = refl
get_elem?-set_lt (x ∷ buf) zero j c h = absurd (omega arith)
get_elem?-set_lt (x ∷ buf) (suc i) zero c h = refl
get_elem?-set_lt (x ∷ buf) (suc i) (suc j) c h = get_elem?-set_lt buf i j c (omega arith)

-- A write at `i` does not show below `i`.
drain-set : (buf : Bytes) (i j c : ℕ) → j ≤ i → drain j (set buf i c) ≡ drain j buf
unfolding drain put_at
drain-set buf i zero c h = refl
drain-set buf i (suc j) c h =
    rw (get_elem?-set_lt buf i j c (omega arith), drain-set buf i j c (omega arith), drain, put_at)

pub each-append : (f : ℕ → Code) (xs ys : Bytes) → each f (xs ++ ys) ≡ each f xs ++ each f ys
unfolding each
each-append f [] ys = refl
each-append f (x ∷ xs) ys =
    ap (λ (t : Code). f x ++ t) (each-append f xs ys) ∙ sym (append_assoc (f x) _ _)

-- One round of the printing loop, on the character that the filling loop wrote.
drain_step :
    (buf : Bytes) (i c : ℕ)
    → i < length buf
    → drain (i + 1) (set buf i c) ≡ uartlite_putc c ++ drain i buf
unfolding drain put_at
drain_step buf i c h =
    rw (add-one, get_elem?-set_self buf i c h, drain-set buf i i c (le_refl i), drain, put_at)

puts-snoc : (s : Bytes) (c : ℕ) → uartlite_puts (s ++ c ∷ []) ≡ uartlite_puts s ++ uartlite_putc c
unfolding uartlite_puts each
puts-snoc s c =
    each-append uartlite_putc s (c ∷ [])
    ∙ ap (λ (t : Code). each uartlite_putc s ++ t) (append-nil (uartlite_putc c))

-- The digits on top of what `buf` holds below `i`.
print-fill :
    (left v i : ℕ) (buf : Bytes)
    → v < 10 ^ left
    → length buf ≡ i + left
    → print (fill left v i buf) ≡ uartlite_puts (digits left v) ++ drain i buf
unfolding print fill digits
print-fill zero v i buf h l =
    let z : v ≡ 0 = omega arith in rw z (unfold uartlite_puts each in refl)
print-fill (suc left) v i buf h l = elim (Bool-cases (v == 0)) [
  | inl e ↦ rw (e, fill, digits) (unfold uartlite_puts each in refl)
  | inr e ↦
      let c : ℕ = b'0' + v % 10 in
      rw (e, fill, digits, puts-snoc (digits left (v / 10)) c)
        (print-fill left (v / 10) (i + 1) (set buf i c) (omega (arith, pow-suc 10 left))
            (omega (arith, length-set buf i c))
          ∙ ap (λ (t : Code). uartlite_puts (digits left (v / 10)) ++ t)
              (drain_step buf i c (omega arith))
          ∙ sym
              (append_assoc (uartlite_puts (digits left (v / 10))) (uartlite_putc c) (drain i buf)))
]

read_digits-snoc :
    (n d m : ℕ) (s : Bytes)
    → d < 10
    → read_digits n s ≡ some m
    → read_digits n (s ++ (b'0' + d) ∷ []) ≡ some (m * 10 + d)
unfolding read_digits
read_digits-snoc n d m [] h e = ground arith
read_digits-snoc n d m (c ∷ s) h e = ground (arith, read_digits-snoc (n * 10 + (c - b'0')) d m s h)

read_digits-digits : (k v : ℕ) → v < 10 ^ k → read_digits 0 (digits k v) ≡ some v
unfolding digits
read_digits-digits zero v h = let z : 0 ≡ v = omega arith in unfold read_digits in ap some z
read_digits-digits (suc k) v h = elim (Bool-cases (v == 0)) [
  | inl e ↦ rw (e, digits) (unfold read_digits in ground arith)
  | inr e ↦
      let split : v / 10 * 10 + v % 10 ≡ v = omega arith in
      rw (e, digits)
        (read_digits-snoc 0 (v % 10) (v / 10) (digits k (v / 10)) (omega arith)
            (read_digits-digits k (v / 10) (omega (arith, pow-suc 10 k)))
          ∙ ap some split)
]

length-digits : (k j v : ℕ) → v < 10 ^ j → length (digits k v) ≤ j
unfolding digits
length-digits zero j v h = omega arith
length-digits (suc k) zero v h = let z : v ≡ 0 = omega arith in rw z (omega arith)
length-digits (suc k) (suc j) v h = ground (
  arith,
  pow-suc 10 j,
  length-digits k j (v / 10),
  length-append (digits k (v / 10)) ((b'0' + v % 10) ∷ []),
)

-- The first character, or 0.
abbrev pub first : Bytes → ℕ
first [] = 0
first (c ∷ s) = c

digits_zero : (k : ℕ) → digits k 0 ≡ []
unfolding digits
digits_zero zero = refl
digits_zero (suc k) = refl

-- A number does not begin with a zero.
first-digits : (k v : ℕ) (rest : Bytes) → v < 10 ^ k → v ≢ 0 → first (digits k v ++ rest) ≢ b'0'
unfolding digits
first-digits zero v rest h nz = absurd (omega arith)
first-digits (suc k) v rest h nz = elim (Bool-cases (v == 0)) [
  | inl e ↦ absurd (ground arith)
  | inr e ↦
      rw (e, digits, append_assoc (digits k (v / 10)) ((b'0' + v % 10) ∷ []) rest)
        (elim (Bool-cases (v / 10 == 0)) [
          | inl f ↦
              let z : v / 10 ≡ 0 = ground arith in
              let y : v % 10 ≢ 0 = omega arith in rw (z, digits_zero k) (omega arith)
          | inr f ↦ first-digits k (v / 10) _ (omega (arith, pow-suc 10 k)) (ground arith)
        ])
]

pub put_dec-decimal :
    (buf : Bytes) (v : ℕ)
    → length buf ≡ buf_size
    → v < 2 ^ 32
    → put_dec buf v ≡ uartlite_puts (decimal v)
unfolding put_dec decimal
put_dec-decimal buf v l h = elim (Bool-cases (v == 0)) [
  | inl e ↦
      rw (e, put_dec, decimal) (unfold uartlite_puts each in sym (append-nil (uartlite_putc b'0')))
  | inr e ↦
      rw (e, put_dec, decimal)
        (print-fill buf_size v 0 buf (omega arith) (omega (arith, l)) ∙ nothing_below)
]
  where
    nothing_below :
        uartlite_puts (digits buf_size v) ++ drain 0 buf ≡ uartlite_puts (digits buf_size v)
    nothing_below = unfold drain in append-nil _

decimal-laws :
    (v : ℕ)
    → v < 2 ^ 32
    → (read_digits 0 (decimal v) ≡ some v)
      × (length (decimal v) ≤ 10)
      × (first (decimal v) ≡ b'0' → v ≡ 0)
unfolding decimal
decimal-laws v h = elim (Bool-cases (v == 0)) [
  | inl e ↦ rw (e, decimal) (unfold read_digits in (ground arith, omega arith, λ z. ground arith))
  | inr e ↦
      rw (e, decimal)
        (
          read_digits-digits buf_size v (omega arith),
          length-digits buf_size 10 v (omega arith),
          λ z. absurd (
              first-digits buf_size v [] (omega arith) (ground arith)
                (ap first (append-nil (digits buf_size v)) ∙ z)),
        )
]

-- put_dec prints a decimal text that reads back as the number, has at most ten digits and begins
-- with a zero only for 0, whatever the stack held, and it stays inside its buffer.
pub put_dec-read_digits :
    (buf : Bytes) (v : ℕ)
    → length buf ≡ buf_size
    → v < 2 ^ 32
    → (s : Bytes) × (put_dec buf v ≡ uartlite_puts s)
      × (read_digits 0 s ≡ some v)
      × (length s ≤ 10)
      × (first s ≡ b'0' → v ≡ 0)
put_dec-read_digits buf v l h =
    let (r, n, z) = decimal-laws v h in (decimal v, put_dec-decimal buf v l h, r, n, z)

digits-IsByte : (k v : ℕ) → All IsByte (digits k v)
unfolding digits
digits-IsByte zero v = tt
digits-IsByte (suc k) v = elim (Bool-cases (v == 0)) [
  | inl e ↦ rw (e, digits) tt
  | inr e ↦ rw (e, digits) (All-append IsByte _ _ (digits-IsByte k (v / 10)) (omega arith))
]

pub decimal-IsByte : (v : ℕ) → All IsByte (decimal v)
unfolding decimal
decimal-IsByte v = elim (Bool-cases (v == 0)) [
  | inl e ↦ rw (e, decimal) (omega arith)
  | inr e ↦ rw (e, decimal) (digits-IsByte buf_size v)
]
