-- ===== src/Heapfile/Blocks.antt =====
-- Blocks of a file: what `write_block` does to the block that `read_block` reads.
use mathlib.Core.List.{append-nil}
use database_assignments.Base.{
  ℕ, ◌+◌, ◌-◌, ◌^◌, ◌≤◌, ◌<◌, ◌≡◌, refl, sym, ◌∙◌, ◌⊎◌, inl, inr, List, arith, ok, le→leb, lt→ltb,
  length, splice, take, drop, get_elem?, get_elem?-drop, get_elem?-splice_before,
  get_elem?-splice_after, drop-splice, take_ext, take-append, take_all,
}
use database_assignments.Heapfile.{Heapfile, write_at, read_block, write_block}

-- The block of `n` bytes at `off`.
abbrev pub block_at : List ℕ → ℕ → ℕ → List ℕ
block_at file n off = take n (drop off file)

write_at-splice :
    (file : List ℕ) (off : ℕ) (b : List ℕ)
    → off + length b ≤ length file
    → write_at file off b ≡ splice file off b
write_at-splice file off b h =
    let none_missing : off + length b - length file ≡ 0 = omega arith in
    rw (none_missing, append-nil file) refl

pub read_block-ok :
    (h : Heapfile) (off : ℕ)
    → off < 2 ^ 31
    → off + h.page_size ≤ length h.file
    → read_block h off ≡ ok (block_at h.file h.page_size off)
unfolding read_block
read_block-ok h off small fits =
    rw (lt→ltb off (2 ^ 31) small, le→leb (off + h.page_size) (length h.file) fits) refl

-- A block inside the file is overwritten in place.
pub write_block-ok :
    (h : Heapfile) (b : List ℕ) (off : ℕ)
    → off < 2 ^ 31
    → length b ≡ h.page_size
    → off + h.page_size ≤ length h.file
    → write_block h b off ≡ ok (record h { file = splice h.file off b })
unfolding write_block
write_block-ok h b off small size fits =
    rw
      (
        lt→ltb off (2 ^ 31) small,
        le→leb h.page_size (length b) (omega arith),
        take_all b size,
        write_at-splice h.file off b (omega arith),
      )
      refl

pub block_at-splice_self :
    (file b : List ℕ) (n off : ℕ)
    → length b ≡ n
    → off + n ≤ length file
    → block_at (splice file off b) n off ≡ b
block_at-splice_self file b n off size fits =
    rw (drop-splice file off b (omega arith)) (take-append b (drop (off + length b) file) size)

pub block_at-splice_other :
    (file b : List ℕ) (n off o : ℕ)
    → length b ≡ n
    → (o + n ≤ off) ⊎ (off + n ≤ o)
    → block_at (splice file off b) n o ≡ block_at file n o
block_at-splice_other file b n off o size apart =
    take_ext n (drop o (splice file off b)) (drop o file) (λ i lt.
      get_elem?-drop o (splice file off b) i ∙ outside apart i lt ∙ sym (get_elem?-drop o file i))
  where
    outside :
        (o + n ≤ off) ⊎ (off + n ≤ o)
        → (i : ℕ) → i < n
        → get_elem? (splice file off b) (o + i) ≡ get_elem? file (o + i)
    outside (inl a) i lt = get_elem?-splice_before file off b (o + i) (omega arith)
    outside (inr a) i lt = get_elem?-splice_after file off b (o + i) (omega arith)
