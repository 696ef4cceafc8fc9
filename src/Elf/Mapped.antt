-- ===== src/Elf/Mapped.antt =====
-- `struct Mapped` of elf_loader.cpp, and `load_elf32` on a path: what is opened is closed again.
-- The operating system is a parameter; a mapping is the bytes of the file, `st_size` of them.
use qinglong_core.Prelude.{
  ℕ, ◌≡◌, refl, ◌==◌, if◌then◌else◌, Bytes, List, [], ◌∷◌, Option, none, some, inl, inr, arith,
  Option-cases,
}
use qinglong_core.Elf.Outcome.{
  Outcome, ok, throws, fault, hang, open_failed, fstat_failed, mmap_failed,
}
use qinglong_core.Elf.Load.{LoadedElf, load_elf32}

-- open(path, O_RDONLY), fstat and mmap; `none` is a failure.
pub record Os : Type 0 where
  pub open_file : Bytes → Option ℕ
  pub fstat : ℕ → Option ℕ
  pub mmap : ℕ → ℕ → Option Bytes

-- What the process holds: its open descriptors, and the descriptors whose files are mapped.
pub record Held : Type 0 where
  pub fds : List ℕ
  pub maps : List ℕ

pub record Mapped : Type 0 where
  pub fd : ℕ
  pub base : Bytes

unfoldable pub remove : ℕ → List ℕ → List ℕ
remove n [] = []
remove n (m ∷ ms) = if m == n then ms else m ∷ remove n ms

abbrev pub opened : ℕ → Held → Held
opened fd h = record h { fds = fd ∷ h.fds }

abbrev pub closed : ℕ → Held → Held
closed fd h = record h { fds = remove fd h.fds }

-- The constructor, from the call of `mmap`, of `fstat` and of `open` on.
unfoldable pub map_file : Os → ℕ → ℕ → Held → Outcome Mapped × Held
map_file os fd size h = elim (os.mmap fd size) [
  | none ↦ (throws mmap_failed, closed fd h)
  | some base ↦ (ok (record { fd = fd; base = base }), record h { maps = fd ∷ h.maps })
]

unfoldable pub stat_file : Os → ℕ → Held → Outcome Mapped × Held
unfolding map_file
stat_file os fd h = elim (os.fstat fd) [
  | none ↦ (throws fstat_failed, closed fd h)
  | some size ↦ map_file os fd size h
]

unfoldable pub construct : Os → Bytes → Held → Outcome Mapped × Held
unfolding stat_file
construct os path h = elim (os.open_file path) [
  | none ↦ (throws open_failed, h)
  | some fd ↦ stat_file os fd (opened fd h)
]

-- The destructor: munmap, then close.
unfoldable pub destruct : Mapped → Held → Held
unfolding remove
destruct m h = closed m.fd (record h { maps = remove m.fd h.maps })

-- The rest of `load_elf32`; the destructor runs on a return and on a throw.
unfoldable pub with_mapped : Outcome LoadedElf → Mapped → Held → Outcome LoadedElf × Held
unfolding destruct
with_mapped (ok e) m h = (ok e, destruct m h)
with_mapped (throws x) m h = (throws x, destruct m h)
with_mapped fault m h = (fault, h)
with_mapped hang m h = (hang, h)

unfoldable pub load_from : Outcome Mapped × Held → Outcome LoadedElf × Held
unfolding with_mapped
load_from (ok m, h) = with_mapped (load_elf32 m.base) m h
load_from (throws x, h) = (throws x, h)
load_from (fault, h) = (fault, h)
load_from (hang, h) = (hang, h)

unfoldable pub load_path : Os → Bytes → Held → Outcome LoadedElf × Held
unfolding construct load_from
load_path os path h = load_from (construct os path h)

-- The call came back, with a value or with an exception.
abbrev pub Returns {ℓ} : {A : Type ℓ} → Outcome A → Type 0
Returns (ok a) = Unit
Returns (throws x) = Unit
Returns fault = ⊥
Returns hang = ⊥

remove_self : (n : ℕ) (ns : List ℕ) → remove n (n ∷ ns) ≡ ns
unfolding remove
remove_self n ns = ground arith

-- Nothing more is held than in `h`, if the call returns.
abbrev pub Leaves : Held → Outcome LoadedElf × Held → Type 0
Leaves h p = Returns p.0 → p.1 ≡ h

with_mapped-Leaves :
    (r : Outcome LoadedElf) (m : Mapped) (h : Held)
    → Leaves h (with_mapped r m (record { fds = m.fd ∷ h.fds; maps = m.fd ∷ h.maps }))
unfolding with_mapped destruct
with_mapped-Leaves (ok e) m h r = rw (remove_self m.fd h.fds, remove_self m.fd h.maps)
with_mapped-Leaves (throws x) m h r = rw (remove_self m.fd h.fds, remove_self m.fd h.maps)
with_mapped-Leaves fault m h r = absurd r
with_mapped-Leaves hang m h r = absurd r

map_file-Leaves :
    (os : Os) (fd size : ℕ) (h : Held) → Leaves h (load_from (map_file os fd size (opened fd h)))
unfolding map_file load_from
map_file-Leaves os fd size h = elim (Option-cases (os.mmap fd size)) [
  | inl e ↦ rw (e, load_from, map_file) (λ _. rw (remove_self fd h.fds))
  | inr (base, e) ↦
      rw (e, load_from, map_file)
        (with_mapped-Leaves (load_elf32 base) (record { fd = fd; base = base }) h)
]

stat_file-Leaves :
    (os : Os) (fd : ℕ) (h : Held) → Leaves h (load_from (stat_file os fd (opened fd h)))
unfolding stat_file load_from
stat_file-Leaves os fd h = elim (Option-cases (os.fstat fd)) [
  | inl e ↦ rw (e, load_from, stat_file) (λ _. rw (remove_self fd h.fds))
  | inr (size, e) ↦ rw (e, load_from, stat_file) (map_file-Leaves os fd size h)
]

load_path-Leaves : (os : Os) (path : Bytes) (h : Held) → Leaves h (load_path os path h)
unfolding load_path construct load_from
load_path-Leaves os path h = elim (Option-cases (os.open_file path)) [
  | inl e ↦ rw (e, load_path, load_from, construct) (λ _. refl)
  | inr (fd, e) ↦ rw (e, load_path, load_from, construct) (stat_file-Leaves os fd h)
]

-- Whenever the loader returns or throws, on every path, it holds no descriptor and no mapping that
-- it did not hold before.
pub load_path_held :
    (os : Os) (path : Bytes) (h : Held)
    → Returns (load_path os path h).0
    → (load_path os path h).1 ≡ h
load_path_held os path h r = load_path-Leaves os path h r
