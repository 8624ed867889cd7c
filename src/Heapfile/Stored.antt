-- ===== src/Heapfile/Stored.antt =====
-- A chain of directories, and a heap file of a1/heapfile.cpp that can be opened again.
use database_assignments.Base.{ℕ, ◌*◌, ◌≤◌, ◌≡◌, subst, List, [], ◌∷◌, arith, ok, length}
use database_assignments.Directory.{Directory}
use database_assignments.Heapfile.{Heapfile}
use database_assignments.Heapfile.Entries.{resolve}
use database_assignments.Heapfile.Closing.{ApartFromAll, HaveBlocks}
use database_assignments.Heapfile.Reopen.{IsStored}
use database_assignments.Heapfile.Chained.{IsChain}
use database_assignments.Heapfile.Chains.{IsChained}

pub IsChained-IsStored :
    (h : Heapfile)
    → IsChained h
    → (first : Directory) × (rest : List Directory) × IsStored h first rest
IsChained-IsStored h c = by_dirs c.dirs c.buffered c.chain c.blocks c.apart c.count
  where
    by_dirs :
        (dirs : List Directory)
        → h.directory_buffer ≡ dirs
        → IsChain dirs
        → HaveBlocks h.page_size (length h.file) dirs
        → ((pid x : ℕ) → resolve h pid ≡ ok x → ApartFromAll h.page_size x dirs)
        → length dirs * h.page_size ≤ length h.file
        → (first : Directory) × (rest : List Directory) × IsStored h first rest
    by_dirs [] b n k a m = absurd n
    by_dirs (first ∷ rest) b n k a m = (
      first,
      rest,
      record {
        buffered = b;
        at_start = n.0;
        linked = n.1;
        blocks = k;
        apart = a;
        capacity_pos = c.capacity_pos;
        header = c.header;
        count = subst (λ w. w * h.page_size ≤ length h.file) (omega arith) m;
      },
    )

pub IsStored-IsChained :
    (h : Heapfile) (first : Directory) (rest : List Directory) → IsStored h first rest → IsChained h
IsStored-IsChained h first rest s = record {
  dirs = first ∷ rest;
  buffered = s.buffered;
  chain = (s.at_start, s.linked);
  blocks = s.blocks;
  apart = s.apart;
  capacity_pos = s.capacity_pos;
  header = s.header;
  count = subst (λ w. w * h.page_size ≤ length h.file) (omega arith) s.count;
}
