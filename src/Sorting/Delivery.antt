-- ===== src/Sorting/Delivery.antt =====
-- `RunIterator` of a2/library.cc delivers the records of its run.
use native.Mathlib.Nat.{mul-add-mod_self_right, mod-eq_of_lt, mul-le-mul_right}
use database_assignments.Base.{
  ℕ, suc, ◌+◌, ◌-◌, ◌*◌, ◌%◌, ◌≤◌, ◌<◌, ◌≡◌, refl, sym, ap, ap₂, ◌∙◌, ◌⊎◌, inl, inr, true, false,
  List, [], ◌∷◌, arith, ok, if◌then◌else◌, ◌==◌, ==_iff, ltb, ltb→lt, ltb→le, leb, le→leb,
  Bool-cases, length, take, drop, splice, length-splice, take-drop-read,
}
use database_assignments.Sorting.Runs.{RunIterator, refill, next_in_run, has_next_in_run}
use database_assignments.Sorting.Records.{record_at, records_from}
use database_assignments.Sorting.Order.{Rec}

-- The buffer holds the block of the run that begins at its `first`th record.
pub record Holds (file : List ℕ) (it : RunIterator) (first : ℕ) : Type 0 where
  pub windows :
      (j : ℕ)
      → j < it.rec_per_buf
      → first + j < it.run_length
      → take it.record_size (drop (j * it.record_size) it.read_buf)
        ≡ record_at it.record_size file (it.start_pos + (first + j))

-- `pos` is the `m`th record of the `q`th block. At the start of a block it is still to be read.
pub record IsIn (file : List ℕ) (it : RunIterator) (q m : ℕ) : Type 0 where
  pub position : it.pos ≡ q * it.rec_per_buf + m
  pub offset : m < it.rec_per_buf
  pub buffer : it.rec_per_buf * it.record_size ≤ length it.read_buf
  pub inside : 0 < it.run_length → (it.start_pos + it.run_length) * it.record_size ≤ length file
  pub block :
      ((m ≡ 0) × (it.buf_no ≡ q))
      ⊎ ((0 < m) × (it.buf_no ≡ q + 1) × Holds file it (q * it.rec_per_buf))

abbrev pub IsInRun : List ℕ → RunIterator → Type 0
IsInRun file it = (q : ℕ) × (m : ℕ) × IsIn file it q m

abbrev pub remaining_in_run : List ℕ → RunIterator → List Rec
remaining_in_run file it =
    records_from it.record_size file (it.start_pos + it.pos) (it.run_length - it.pos)

pub remaining_in_run-ended :
    (file : List ℕ) (it : RunIterator) → has_next_in_run it ≡ false → remaining_in_run file it ≡ []
unfolding has_next_in_run
remaining_in_run-ended file it h =
    let none : it.run_length - it.pos ≡ 0 = omega (arith, ltb→le _ _ h) in
    ap (records_from it.record_size file (it.start_pos + it.pos)) none

module _ (file : List ℕ) (it : RunIterator) (q m : ℕ) (v : IsIn file it q m)
    (more : it.pos < it.run_length) where
  position_mod : it.pos % it.rec_per_buf ≡ m
  position_mod = rw v.position (mul-add-mod_self_right q it.rec_per_buf m ∙ mod-eq_of_lt v.offset)

  -- The file holds every record of the run.
  record-inside :
      (j : ℕ)
      → j < it.run_length
      → (it.start_pos + j) * it.record_size + it.record_size ≤ length file
  record-inside j h =
      let whole = v.inside (omega arith) in
      let part : (it.start_pos + j + 1) * it.record_size
          ≤ (it.start_pos + it.run_length) * it.record_size =
        mul-le-mul_right it.record_size (omega arith) in
      omega arith

  -- The iterator once its block is in the buffer.
  abbrev with_buffer : List ℕ → RunIterator
  with_buffer read_buf = record it { read_buf = read_buf; buf_no = q + 1 }

  abbrev block_read : ℕ → List ℕ
  block_read buf_no = splice it.read_buf 0 (
      take (it.rec_per_buf * it.record_size)
        (drop ((it.start_pos + buf_no * it.rec_per_buf) * it.record_size) file))

  block_read-Holds : Holds file (with_buffer (block_read q)) (q * it.rec_per_buf)
  block_read-Holds = record {
    windows = λ j hj hr.
        let size = it.record_size in
        let off = (it.start_pos + q * it.rec_per_buf) * size in
        let fits : (j + 1) * size ≤ it.rec_per_buf * size = mul-le-mul_right size (omega arith) in
        let last = record-inside (q * it.rec_per_buf + j) hr in
        take-drop-read size (j * size) (it.rec_per_buf * size) off it.read_buf file (omega arith)
          v.buffer (omega arith)
        ∙ ap (λ o. take size (drop o file)) (omega arith);
  }

  record Ready (read_buf : List ℕ) : Type 0 where
    pub refilled : refill file it ≡ with_buffer read_buf
    pub size : length read_buf ≡ length it.read_buf
    pub holds : Holds file (with_buffer read_buf) (q * it.rec_per_buf)

  refill-Ready : (read_buf : List ℕ) × Ready read_buf
  unfolding refill
  refill-Ready = elim v.block [
    | inl (first, block_no) ↦
        let starts : (it.pos % it.rec_per_buf == 0) ≡ true =
          (==_iff _ 0).1 (position_mod ∙ first) in
        (
          block_read q,
          record {
            refilled =
                ap₂ (λ b n. if b then record it { read_buf = block_read n; buf_no = n + 1 } else it)
                  starts block_no;
            size = length-splice it.read_buf 0 _;
            holds = block_read-Holds;
          },
        )
    | inr (within, block_no, holds) ↦
        let inner : (it.pos % it.rec_per_buf == 0) ≡ false = ground (arith, position_mod) in
        (
          it.read_buf,
          record {
            refilled =
                ap
                  (λ b.
                    if b
                    then record it { read_buf = block_read it.buf_no; buf_no = it.buf_no + 1 }
                    else it)
                  inner
                ∙ ap (λ n. record it { buf_no = n }) block_no;
            size = refl;
            holds = record { windows = holds.windows };
          },
        )
  ]

  abbrev stepped : List ℕ → RunIterator
  stepped read_buf = record (with_buffer read_buf) { pos = it.pos + 1 }

  next_in_run-ok :
      (read_buf : List ℕ)
      → Ready read_buf
      → next_in_run file it
        ≡ ok (stepped read_buf, record_at it.record_size file (it.start_pos + it.pos))
  unfolding next_in_run
  next_in_run-ok read_buf r =
      let size = it.record_size in
      let fits : (m + 1) * size ≤ it.rec_per_buf * size =
        mul-le-mul_right size (omega (arith, v.offset)) in
      let inside : leb (m * size + size) (length read_buf) ≡ true =
        le→leb _ _ (omega (arith, v.buffer, r.size)) in
      let window = r.holds.windows m v.offset (omega (arith, v.position)) in
      rw (r.refilled, position_mod, inside)
        (ap (λ w. ok (stepped read_buf, w))
          (window ∙ ap (λ p. record_at size file (it.start_pos + p)) (sym v.position)))

  stepped-IsInRun : (read_buf : List ℕ) → Ready read_buf → IsInRun file (stepped read_buf)
  stepped-IsInRun read_buf r = elim (Bool-cases (ltb (m + 1) it.rec_per_buf)) [
    | inl within ↦ (
      q,
      m + 1,
      record {
        position = omega (arith, v.position);
        offset = ltb→lt _ _ within;
        buffer = omega (arith, v.buffer, r.size);
        inside = v.inside;
        block = inr (omega arith, refl, record { windows = r.holds.windows });
      },
    )
    | inr end ↦
        let full : m + 1 ≡ it.rec_per_buf = omega (arith, v.offset, ltb→le _ _ end) in
        (
          q + 1,
          0,
          record {
            position = omega (arith, v.position);
            offset = omega arith;
            buffer = omega (arith, v.buffer, r.size);
            inside = v.inside;
            block = inl (refl, refl);
          },
        )
  ]

  remaining_in_run-stepped :
      (read_buf : List ℕ)
      → remaining_in_run file it
        ≡ record_at it.record_size file (it.start_pos + it.pos)
          ∷ remaining_in_run file (stepped read_buf)
  remaining_in_run-stepped read_buf =
      let count : it.run_length - it.pos ≡ suc (it.run_length - (it.pos + 1)) = omega arith in
      let from : it.start_pos + it.pos + 1 ≡ it.start_pos + (it.pos + 1) = omega arith in
      ap (records_from it.record_size file (it.start_pos + it.pos)) count
      ∙ ap
          (λ k.
            record_at it.record_size file (it.start_pos + it.pos)
            ∷ records_from it.record_size file k (it.run_length - (it.pos + 1)))
          from

-- next on an iterator inside its run that has a next record returns the first of the records that
-- are left, read anew or from the buffer; the iterator then has the others left, is inside its run
-- again, and keeps the record size.
pub next_in_run-IsInRun :
    (file : List ℕ) (it : RunIterator)
    → IsInRun file it
    → has_next_in_run it ≡ true
    → (it' : RunIterator) × (rec : Rec) × (next_in_run file it ≡ ok (it', rec))
      × (remaining_in_run file it ≡ rec ∷ remaining_in_run file it')
      × IsInRun file it'
      × (it'.record_size ≡ it.record_size)
unfolding has_next_in_run
next_in_run-IsInRun file it (q, m, v) h =
    let more = ltb→lt _ _ h in
    let (read_buf, r) = refill-Ready file it q m v more in
    (
      stepped file it q m v more read_buf,
      record_at it.record_size file (it.start_pos + it.pos),
      next_in_run-ok file it q m v more read_buf r,
      remaining_in_run-stepped file it q m v more read_buf,
      stepped-IsInRun file it q m v more read_buf r,
      refl,
    )
