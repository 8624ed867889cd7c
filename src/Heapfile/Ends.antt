-- ===== src/Heapfile/Ends.antt =====
-- The end of a file: what `write_block` does at the offset where the file ends.
use database_assignments.Base.{
  ℕ, zero, suc, ◌+◌, ◌-◌, ◌^◌, ◌≤◌, ◌<◌, ◌≡◌, refl, sym, ap, ◌∙◌, List, [], ◌∷◌, ◌++◌, arith, ok,
  le→leb, lt→ltb, length, splice, replicate, get_elem?, drop, get_elem?-drop, take_ext, take_all,
  take-append,
}
use database_assignments.CString.Laws.{length-replicate}
use database_assignments.Heapfile.{Heapfile, write_at, write_block}
use database_assignments.Heapfile.Blocks.{block_at}

splice_all : (z b : List ℕ) → length z ≡ length b → splice z 0 b ≡ b
splice_all z [] e = lemma z e
  where
    lemma : (z : List ℕ) → length z ≡ 0 → splice z 0 [] ≡ []
    lemma [] e = refl
    lemma (x ∷ z) e = absurd (omega arith)
splice_all [] (c ∷ b) e = absurd (omega arith)
splice_all (x ∷ z) (c ∷ b) e = ap (◌∷◌ c) (splice_all z b (omega arith))

splice_end :
    (file z b : List ℕ) → length z ≡ length b → splice (file ++ z) (length file) b ≡ file ++ b
splice_end [] z b e = splice_all z b e
splice_end (x ∷ file) z [] e = ap (◌∷◌ x) (splice_end file z [] e)
splice_end (x ∷ file) z (c ∷ b) e = ap (◌∷◌ x) (splice_end file z (c ∷ b) e)

write_at-end : (file b : List ℕ) → write_at file (length file) b ≡ file ++ b
write_at-end file b =
    let gap : length file + length b - length file ≡ length b = omega arith in
    rw gap (splice_end file (replicate (length b) 0) b (length-replicate (length b)))

-- A block at the end of the file is put behind it.
pub write_block-end :
    (h : Heapfile) (b : List ℕ)
    → length h.file < 2 ^ 31
    → length b ≡ h.page_size
    → write_block h b (length h.file) ≡ ok (record h { file = h.file ++ b })
unfolding write_block
write_block-end h b small size =
    rw
      (
        lt→ltb (length h.file) (2 ^ 31) small,
        le→leb h.page_size (length b) (omega arith),
        take_all b size,
        write_at-end h.file b,
      )
      refl

get_elem?-in_front :
    (file b : List ℕ) (i : ℕ) → i < length file → get_elem? (file ++ b) i ≡ get_elem? file i
get_elem?-in_front [] b i h = absurd (omega arith)
get_elem?-in_front (x ∷ file) b zero h = refl
get_elem?-in_front (x ∷ file) b (suc i) h = get_elem?-in_front file b i (omega arith)

-- The blocks of the file before are as they were.
pub block_at-in_front :
    (file b : List ℕ) (n o : ℕ) → o + n ≤ length file → block_at (file ++ b) n o ≡ block_at file n o
block_at-in_front file b n o h = take_ext n (drop o (file ++ b)) (drop o file) (λ i lt.
    get_elem?-drop o (file ++ b) i
    ∙ get_elem?-in_front file b (o + i) (omega arith)
    ∙ sym (get_elem?-drop o file i))

-- The block that begins where the file ended.
pub block_at-end :
    (file b rest : List ℕ) (n : ℕ)
    → length b ≡ n
    → block_at (file ++ (b ++ rest)) n (length file) ≡ b
block_at-end [] b rest n e = take-append b rest e
block_at-end (x ∷ file) b rest n e = block_at-end file b rest n e
