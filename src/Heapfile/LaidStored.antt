-- ===== src/Heapfile/LaidStored.antt =====
-- The directories of a heap file of a1/heapfile.cpp stay laid out when the free space of an entry is
-- written.
use database_assignments.Base.{
  ℕ, zero, suc, ◌≤◌, ◌≡◌, refl, sym, ap, subst, ◌∙◌, List, [], ◌∷◌, ◌++◌, arith, ok, ok_injective,
  load, int_at-splice_other, length, length-splice, set, le_bytes,
}
use database_assignments.Directory.{Directory, n_entries, entry_free_space, directory_capacity}
use database_assignments.Directory.Laws.{IsDirectory, count_of}
use database_assignments.Heapfile.{Heapfile, Place}
use database_assignments.Heapfile.EntryAt.{AreFull}
use database_assignments.Heapfile.FreeSpace.{At, stored}
use database_assignments.Heapfile.Laid.{IsLaid}

-- A directory with the header of another one.
record SameHeader (d d' : Directory) : Type 0 where
  capacity : d'.capacity ≡ d.capacity
  count : count_of d' ≡ count_of d
  size : length d'.bytes ≡ length d.bytes

IsDirectory-header : (d d' : Directory) → SameHeader d d' → IsDirectory d → IsDirectory d'
IsDirectory-header d d' s v = record {
  counted = omega (arith, s.count, s.capacity, v.counted);
  small = omega (arith, s.capacity, v.small);
  inside = omega (arith, s.capacity, s.size, v.inside);
}

-- What `IsLaid` says of the directories.
record Laid (cap : ℕ) (dirs : List Directory) : Type 0 where
  before : List Directory
  last : Directory
  full : AreFull cap before
  is_directory : IsDirectory last
  capacity : last.capacity ≡ cap
  buffered : dirs ≡ before ++ last ∷ []

Laid-set :
    (cap : ℕ) (before : List Directory) (last : Directory) (k : ℕ) (d d' : Directory)
    → AreFull cap before
    → IsDirectory last
    → last.capacity ≡ cap
    → load (before ++ last ∷ []) k ≡ ok d
    → SameHeader d d'
    → Laid cap (set (before ++ last ∷ []) k d')
Laid-set cap [] last zero d d' g v c l s =
    let same = ok_injective l in
    record {
      before = [];
      last = d';
      full = tt;
      is_directory = IsDirectory-header d d' s (subst IsDirectory same v);
      capacity = s.capacity ∙ ap (λ (x : Directory). x.capacity) (sym same) ∙ c;
      buffered = refl;
    }
Laid-set cap [] last (suc k) d d' g v c l s = absurd (cc l)
Laid-set cap (b ∷ before) last zero d d' (w, cb, nb, g) v c l s =
    let same = ok_injective l in
    record {
      before = d' ∷ before;
      last = last;
      full = (
        IsDirectory-header d d' s (subst IsDirectory same w),
        s.capacity ∙ ap (λ (x : Directory). x.capacity) (sym same) ∙ cb,
        s.count ∙ ap count_of (sym same) ∙ nb,
        g,
      );
      is_directory = v;
      capacity = c;
      buffered = refl;
    }
Laid-set cap (b ∷ before) last (suc k) d d' (w, cb, nb, g) v c l s =
    let r = Laid-set cap before last k d d' g v c l s in
    record {
      before = b ∷ r.before;
      last = r.last;
      full = (w, cb, nb, r.full);
      is_directory = r.is_directory;
      capacity = r.capacity;
      buffered = ap (◌∷◌ b) r.buffered;
    }

-- Writing an entry's free space leaves the directories laid out.
pub IsLaid-stored :
    (h h' : Heapfile) (pid v : ℕ) (place : Place) (a : At h pid place)
    → h'.directory_buffer ≡ set h.directory_buffer place.dir_no (stored h h' pid v place a)
    → h'.page_size ≡ h.page_size
    → IsLaid h
    → IsLaid h'
IsLaid-stored h h' pid v place a e ps l =
    let header : SameHeader place.dir (stored h h' pid v place a) = record {
      capacity = refl;
      count =
          int_at-splice_other place.dir.bytes (entry_free_space place.slot_no) (le_bytes v)
            n_entries (omega arith);
      size = length-splice place.dir.bytes (entry_free_space place.slot_no) (le_bytes v);
    } in
    let there = ap (λ ds. load ds place.dir_no) (sym l.buffered) ∙ a.buffered in
    let r =
      Laid-set (directory_capacity h.page_size) l.before l.last place.dir_no place.dir
        (stored h h' pid v place a) l.full l.is_directory l.capacity there header in
    record {
      before = r.before;
      last = r.last;
      full = subst (λ n. AreFull (directory_capacity n) r.before) (sym ps) r.full;
      is_directory = r.is_directory;
      capacity = r.capacity ∙ ap (λ n. directory_capacity n) (sym ps);
      buffered =
          e ∙ ap (λ ds. set ds place.dir_no (stored h h' pid v place a)) l.buffered ∙ r.buffered;
      large = subst (λ n. 16 ≤ n) (sym ps) l.large;
    }
