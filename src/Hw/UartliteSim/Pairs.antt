-- ===== src/Hw/UartliteSim/Pairs.antt =====
-- The handshakes of the two write channels, and what the writes print.
use qinglong_core.Prelude.{
  ℕ, ◌≡◌, sym, ap, ◌∙◌, if◌then◌else◌, List, [], ◌∷◌, ◌++◌, append_assoc, append-nil, Bytes,
}
use qinglong_core.Hw.UartliteSim.{Beat, WriteInput, WriteSide, takes_addr, takes_data, byte_of}

-- The handshakes of the two channels since the reset.
pub record Log : Type 0 where
  pub addrs : List ℕ
  pub beats : List Beat

abbrev pub log_edge : WriteInput → WriteSide → Log → Log
log_edge i u l = record {
  addrs = l.addrs ++ (if takes_addr i u then i.awaddr ∷ [] else []);
  beats = l.beats ++ (if takes_data i u then i.wbeat ∷ [] else []);
}

-- What the writes print, the first address with the first data and so on.
unfoldable pub bytes_of : List ℕ → List Beat → Bytes
bytes_of [] bs = []
bytes_of (a ∷ al) [] = []
bytes_of (a ∷ al) (b ∷ bs) = byte_of a b ++ bytes_of al bs

unfoldable pub SameLength : List ℕ → List Beat → Type 0
SameLength [] [] = Unit
SameLength [] (b ∷ bs) = ⊥
SameLength (a ∷ al) [] = ⊥
SameLength (a ∷ al) (b ∷ bs) = SameLength al bs

pub bytes_of-snoc :
    (al : List ℕ) (bs : List Beat) (a : ℕ) (b : Beat)
    → SameLength al bs
    → bytes_of (al ++ a ∷ []) (bs ++ b ∷ []) ≡ bytes_of al bs ++ byte_of a b
unfolding bytes_of SameLength
bytes_of-snoc [] [] a b h = append-nil (byte_of a b)
bytes_of-snoc [] (y ∷ bs) a b h = absurd h
bytes_of-snoc (x ∷ al) [] a b h = absurd h
bytes_of-snoc (x ∷ al) (y ∷ bs) a b h =
    ap (λ (t : Bytes). byte_of x y ++ t) (bytes_of-snoc al bs a b h)
    ∙ sym (append_assoc (byte_of x y) (bytes_of al bs) (byte_of a b))

pub SameLength-snoc :
    (al : List ℕ) (bs : List Beat) (a : ℕ) (b : Beat)
    → SameLength al bs
    → SameLength (al ++ a ∷ []) (bs ++ b ∷ [])
unfolding SameLength
SameLength-snoc [] [] a b h = tt
SameLength-snoc [] (y ∷ bs) a b h = absurd h
SameLength-snoc (x ∷ al) [] a b h = absurd h
SameLength-snoc (x ∷ al) (y ∷ bs) a b h = SameLength-snoc al bs a b h
