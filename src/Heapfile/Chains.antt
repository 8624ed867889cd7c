-- ===== src/Heapfile/Chains.antt =====
-- A heap file of a1/heapfile.cpp whose directories are a chain in the file, apart from its pages.
use database_assignments.Base.{
  ℕ, ◌+◌, ◌*◌, ◌≤◌, ◌≡◌, refl, sym, ap, subst, ◌∙◌, ◌⊎◌, inl, inr, List, [], ◌∷◌, ◌++◌, arith, ok,
  load_int, length, length-append, length-splice, le_bytes, is_positive, true,
}
use database_assignments.Directory.{Directory, next_directory, directory_capacity}
use database_assignments.Heapfile.{Heapfile}
use database_assignments.Heapfile.Entries.{resolve}
use database_assignments.Heapfile.Closing.{HasBlock, ApartFromAll, HaveBlocks}
use database_assignments.Heapfile.Linked.{link}
use database_assignments.Heapfile.Chained.{
  AreSame, AreSame-refl, HaveSameBlocks-last, AreSame-HaveSameBlocks, IsChain, IsChain-same,
  IsChain-append, ApartFromAll-same, HaveBlocks-same, length-same, ApartFromAll-end,
  ApartFromAll-append, HaveBlocks-append,
}

-- The directories are a chain from the start of the file, in blocks of their own.
pub record IsChained (h : Heapfile) : Type 0 where
  pub dirs : List Directory
  pub buffered : h.directory_buffer ≡ dirs
  pub chain : IsChain dirs
  pub blocks : HaveBlocks h.page_size (length h.file) dirs
  pub apart : (pid x : ℕ) → resolve h pid ≡ ok x → ApartFromAll h.page_size x dirs
  pub capacity_pos : is_positive (directory_capacity h.page_size) ≡ true
  pub header : 8 ≤ h.page_size
  pub count : length dirs * h.page_size ≤ length h.file

module _ (h h' : Heapfile) (c : IsChained h) (ps : h'.page_size ≡ h.page_size)
    (longer : length h.file ≤ length h'.file)
    (pages : (pid x : ℕ)
      → resolve h' pid ≡ ok x
      → (resolve h pid ≡ ok x) ⊎ (x ≡ length h.file)) where
  apart_old : (pid x : ℕ) → resolve h' pid ≡ ok x → ApartFromAll h.page_size x c.dirs
  apart_old pid x r = elim (pages pid x r) [
    | inl r' ↦ c.apart pid x r'
    | inr e ↦ ApartFromAll-end h.page_size (length h.file) x c.dirs c.blocks (omega arith)
  ]

  -- The directories are changed, and none is added.
  pub IsChained-same :
      (dirs' : List Directory) → h'.directory_buffer ≡ dirs' → AreSame c.dirs dirs' → IsChained h'
  IsChained-same dirs' b a =
      let same = AreSame-HaveSameBlocks c.dirs dirs' a in
      record {
        dirs = dirs';
        buffered = b;
        chain = IsChain-same c.dirs dirs' a c.chain;
        blocks =
            subst (λ n. HaveBlocks n (length h'.file) dirs') (sym ps)
              (HaveBlocks-same h.page_size (length h.file) (length h'.file) c.dirs dirs' longer same
                c.blocks);
        apart = λ pid x r.
            subst (λ n. ApartFromAll n x dirs') (sym ps)
              (ApartFromAll-same h.page_size x c.dirs dirs' same (apart_old pid x r));
        capacity_pos = ap (λ n. is_positive (directory_capacity n)) ps ∙ c.capacity_pos;
        header = omega (arith, ps, c.header);
        count =
            subst (λ n. n * h'.page_size ≤ length h'.file) (sym (length-same c.dirs dirs' same))
              (subst (λ n. length c.dirs * n ≤ length h'.file) (sym ps)
                (omega (arith, c.count, longer)));
      }

  -- A new directory is linked from the last one.
  pub IsChained-linked :
      (before : List Directory) (last new : Directory)
      → c.dirs ≡ before ++ last ∷ []
      → h'.directory_buffer ≡ (before ++ link last new.offset ∷ []) ++ new ∷ []
      → HasBlock h.page_size (length h'.file) new
      → length h.file + h.page_size ≤ new.offset
      → load_int new.bytes next_directory ≡ ok 0
      → 4 ≤ length last.bytes
      → ((pid x : ℕ) → resolve h pid ≡ ok x → x + h.page_size ≤ length h.file)
      → IsChained h'
  IsChained-linked before last new e b block at ends bytes inside =
      let old = before ++ last ∷ [] in
      let linked = before ++ link last new.offset ∷ [] in
      let same = HaveSameBlocks-last before last (link last new.offset) (record {
        offset = refl;
        capacity = refl;
        size = length-splice last.bytes next_directory (le_bytes new.offset);
      }) in
      let chain = subst IsChain e c.chain in
      let blocks =
        HaveBlocks-same h.page_size (length h.file) (length h.file) old linked (omega arith) same
          (subst (HaveBlocks h.page_size (length h.file)) e c.blocks) in
      let behind = λ (pid x : ℕ) (r : resolve h' pid ≡ ok x). before_new pid x r at inside in
      record {
        dirs = linked ++ new ∷ [];
        buffered = b;
        chain =
            IsChain-append last new bytes (omega (arith, block.small)) (omega (arith, c.header, at))
              ends before chain;
        blocks =
            subst (λ n. HaveBlocks n (length h'.file) (linked ++ new ∷ [])) (sym ps)
              (HaveBlocks-append h.page_size (length h.file) (length h'.file) linked new longer
                blocks (omega (arith, at)) block);
        apart = λ pid x r.
            let old_apart = subst (ApartFromAll h.page_size x) e (apart_old pid x r) in
            let linked_apart = ApartFromAll-same h.page_size x old linked same old_apart in
            subst (λ n. ApartFromAll n x (linked ++ new ∷ [])) (sym ps)
              (ApartFromAll-append h.page_size x linked new linked_apart (inl (behind pid x r)));
        capacity_pos = ap (λ n. is_positive (directory_capacity n)) ps ∙ c.capacity_pos;
        header = omega (arith, ps, c.header);
        count =
            let more : length (linked ++ new ∷ []) ≡ length c.dirs + 1 =
              omega (
                arith,
                length-append linked (new ∷ []),
                length-same old linked same,
                ap length e,
              ) in
            subst (λ n. length (linked ++ new ∷ []) * n ≤ length h'.file) (sym ps)
              (one_more (length c.dirs) (length (linked ++ new ∷ [])) h.page_size (length h.file)
                (length h'.file) more c.count (omega (arith, at, block.inside)));
      }
    where
      one_more : (l k n m m' : ℕ) → k ≡ l + 1 → l * n ≤ m → m + n ≤ m' → k * n ≤ m'
      one_more l k n m m' e a b =
          let product : k * n ≡ l * n + n = rw e (grind arith) in omega arith

      before_new :
          (pid x : ℕ)
          → resolve h' pid ≡ ok x
          → length h.file + h.page_size ≤ new.offset
          → ((q y : ℕ) → resolve h q ≡ ok y → y + h.page_size ≤ length h.file)
          → x + h.page_size ≤ new.offset
      before_new pid x r at inside = elim (pages pid x r) [
        | inl r' ↦ omega (arith, inside pid x r', at)
        | inr w ↦ omega (arith, w, at)
      ]

pub IsChained-kept :
    (h h' : Heapfile)
    → h'.page_size ≡ h.page_size
    → length h'.file ≡ length h.file
    → h'.directory_buffer ≡ h.directory_buffer
    → ((q : ℕ) → resolve h' q ≡ resolve h q)
    → IsChained h
    → IsChained h'
IsChained-kept h h' ps len e same c =
    IsChained-same h h' c ps (omega (arith, len)) (λ q x r. inl (sym (same q) ∙ r)) c.dirs
      (e ∙ c.buffered) (AreSame-refl c.dirs)
