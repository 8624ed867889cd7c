-- ===== src/Heapfile/Laid.antt =====
-- The directories of a heap file of a1/heapfile.cpp as they are filled one after the other.
use database_assignments.Base.{ℕ, ◌≤◌, ◌≡◌, refl, sym, ap, subst, ◌∙◌, List, [], ◌∷◌, ◌++◌}
use database_assignments.Directory.{Directory, directory_capacity}
use database_assignments.Directory.Laws.{IsDirectory}
use database_assignments.Heapfile.{Heapfile, get_entry}
use database_assignments.Heapfile.EntryAt.{AreFull, Field, lookup}

-- Every directory but the last one is full, and all are of the capacity that a new one has.
pub record IsLaid (h : Heapfile) : Type 0 where
  pub before : List Directory
  pub last : Directory
  pub full : AreFull (directory_capacity h.page_size) before
  pub is_directory : IsDirectory last
  pub capacity : last.capacity ≡ directory_capacity h.page_size
  pub buffered : h.directory_buffer ≡ before ++ last ∷ []
  pub large : 16 ≤ h.page_size

-- The entries are those of the directories.
pub lookup-directories :
    (f : Field) (h h' : Heapfile) (q : ℕ)
    → h'.directory_buffer ≡ h.directory_buffer
    → lookup f h' q ≡ lookup f h q
unfolding lookup get_entry
lookup-directories f h h' q e = rw e refl

pub IsLaid-kept :
    (h h' : Heapfile)
    → h'.directory_buffer ≡ h.directory_buffer
    → h'.page_size ≡ h.page_size
    → IsLaid h
    → IsLaid h'
IsLaid-kept h h' e ps l = record {
  before = l.before;
  last = l.last;
  full = subst (λ n. AreFull (directory_capacity n) l.before) (sym ps) l.full;
  is_directory = l.is_directory;
  capacity = l.capacity ∙ ap (λ n. directory_capacity n) (sym ps);
  buffered = e ∙ l.buffered;
  large = subst (λ n. 16 ≤ n) (sym ps) l.large;
}
