-- ===== src/Heapfile/Appending.antt =====
-- `append_entry` of a1/heapfile.cpp, where the last directory has room.
use native.Mathlib.Nat.{
  div-add-mod', mul-add-mod_self_right, mod-eq_of_lt, mul-add-div_right, div-eq_of_lt,
}
use native.Mathlib.Decide.{ℕ_discrete}
use database_assignments.Base.{
  ℕ, suc, ◌+◌, ◌*◌, ◌/◌, ◌%◌, ◌^◌, ◌<◌, ◌≡◌, ◌≢◌, refl, sym, ap, ap₂, ◌∙◌, Bool, true, false, some,
  List, [], ◌∷◌, ◌++◌, arith, Run, ok, stop, assert_failed, ◌>>=◌, load, load_int-ok, ◌==◌, ==_iff,
  length, set,
}
use database_assignments.Directory.{Entry, Directory, n_entries, is_full}
use database_assignments.Directory.Laws.{
  IsDirectory, count_of, appended, next_vacant_slot-ok, store_entry-ok, appended-Appended,
}
use database_assignments.Heapfile.{Heapfile}
use database_assignments.Heapfile.Ops.{append_in, append_entry}
use database_assignments.Heapfile.Entries.{resolve}
use database_assignments.Heapfile.EntryAt.{
  AreFull, Field, the_offset, value_in, lookup, lookup-resolve, lookup-entry_at, entry_at,
  entry_at-Appended_other, entry_at-Appended_self, entry_at-count, load-behind_all, load-earlier,
  set-behind_all,
}

pub is_full-ok :
    (d : Directory) (b : Bool) → IsDirectory d → (count_of d == d.capacity) ≡ b → is_full d ≡ ok b
unfolding is_full
is_full-ok d b v e = rw (load_int-ok d.bytes n_entries (omega (arith, v.inside))) (ap ok e)

module _ (h : Heapfile) (e : Entry) (off : e.offset < 2 ^ 32) (free : e.free_space < 2 ^ 32) where
  append_in-full :
      (cap : ℕ) (before : List Directory) (d : Directory) (i : ℕ)
      → AreFull cap before
      → append_in (before ++ d ∷ []) i h e ≡ append_in (d ∷ []) (i + length before) h e
  unfolding append_in
  append_in-full cap [] d i g = ap (λ w. append_in (d ∷ []) w h e) (omega arith)
  append_in-full cap (b ∷ before) d i (v, c, n, g) =
      let full = is_full-ok b true v ((==_iff (count_of b) b.capacity).1 (n ∙ sym c)) in
      let at : i + 1 + length before ≡ i + suc (length before) = omega arith in
      rw full (append_in-full cap before d (i + 1) g ∙ ap (λ w. append_in (d ∷ []) w h e) at)

  append_in-room :
      (d : Directory) (i : ℕ) (v : IsDirectory d) (room : count_of d < d.capacity)
      → append_in (d ∷ []) i h e
        ≡ ok (
            some (
              record h {
                directory_buffer = set h.directory_buffer i (appended d e v off free room);
              },
              i * d.capacity + count_of d,
            ))
  unfolding append_in
  append_in-room d i v room =
      let not_full : (count_of d == d.capacity) ≡ false = ground arith in
      rw
        (
          is_full-ok d false v not_full,
          next_vacant_slot-ok d e v off free room,
          store_entry-ok d e v off free room,
        )
        refl

  module _ (cap : ℕ) (before : List Directory) (d : Directory) (full : AreFull cap before)
      (v : IsDirectory d) (same : d.capacity ≡ cap) (room : count_of d < d.capacity)
      (buffered : h.directory_buffer ≡ before ++ d ∷ []) where
    abbrev pub new_pid : ℕ
    new_pid = length before * d.capacity + count_of d

    abbrev pub grown : Directory
    grown = appended d e v off free room

    abbrev pub with_entry : Heapfile
    with_entry = record h { directory_buffer = before ++ grown ∷ [] }

    pub append_entry-ok : append_entry h e ≡ ok (with_entry, new_pid)
    unfolding append_entry
    append_entry-ok =
        let found =
          ap (λ ds. append_in ds 0 h e) buffered
          ∙ append_in-full cap before d 0 full
          ∙ ap (λ i. append_in (d ∷ []) i h e) (omega arith)
          ∙ append_in-room d (length before) v room in
        rw found (
          ap (λ ds. ok (record h { directory_buffer = ds }, new_pid))
            (ap (λ ds. set ds (length before) grown) buffered ∙ set-behind_all before d grown))

    new_place : (new_pid / cap ≡ length before) × (new_pid % cap ≡ count_of d)
    new_place = (
      ap (λ c. new_pid / c) (sym same)
          ∙ mul-add-div_right {m = d.capacity} (omega arith) (length before) (count_of d)
          ∙ ap (λ w. length before + w) (div-eq_of_lt room)
          ∙ omega arith,
      ap (λ c. new_pid % c) (sym same)
          ∙ mul-add-mod_self_right (length before) d.capacity (count_of d)
          ∙ mod-eq_of_lt room,
    )

    abbrev looked_up : Field → Directory → ℕ → ℕ → Run ℕ
    looked_up f x k i = load (before ++ x ∷ []) k >>= λ dir. entry_at f dir i

    in_last : (f : Field) (x : Directory) (i : ℕ) → looked_up f x (length before) i ≡ entry_at f x i
    in_last f x i = ap (λ r. r >>= λ dir. entry_at f dir i) (load-behind_all before x)

    at_new_pid :
        (f : Field) (x : Directory)
        → looked_up f x (new_pid / cap) (new_pid % cap) ≡ entry_at f x (count_of d)
    at_new_pid f x = ap₂ (looked_up f x) new_place.0 new_place.1 ∙ in_last f x (count_of d)

    looked_up-other :
        (f : Field) (q : ℕ)
        → q ≢ new_pid
        → looked_up f grown (q / cap) (q % cap) ≡ looked_up f d (q / cap) (q % cap)
    looked_up-other f q ne = elim (ℕ_discrete (q / cap) (length before)) [
      | no w ↦
          ap (λ r. r >>= λ dir. entry_at f dir (q % cap)) (load-earlier before d grown (q / cap) w)
      | yes w ↦
          let other : q % cap ≢ count_of d = λ m. ne (
            omega (
              arith,
              div-add-mod' q cap,
              m,
              ap (λ t. t * cap) w,
              ap (λ c. length before * c) same,
            )) in
          ap (λ k. looked_up f grown k (q % cap)) w
          ∙ in_last f grown (q % cap)
          ∙ entry_at-Appended_other f d grown e (q % cap) v room
              (appended-Appended d e v off free room) other
          ∙ sym (in_last f d (q % cap))
          ∙ ap (λ k. looked_up f d k (q % cap)) (sym w)
    ]

    pub lookup-with_entry : (f : Field) (q : ℕ) → q ≢ new_pid → lookup f with_entry q ≡ lookup f h q
    lookup-with_entry f q ne =
        lookup-entry_at f with_entry cap before grown q refl full same
        ∙ looked_up-other f q ne
        ∙ sym (lookup-entry_at f h cap before d q buffered full same)

    pub lookup-new_pid : (f : Field) → lookup f with_entry new_pid ≡ ok (value_in f e)
    lookup-new_pid f =
        lookup-entry_at f with_entry cap before grown new_pid refl full same
        ∙ at_new_pid f grown
        ∙ entry_at-Appended_self f d grown e v room (appended-Appended d e v off free room)

    pub was_missing : (f : Field) → lookup f h new_pid ≡ stop assert_failed
    was_missing f =
        lookup-entry_at f h cap before d new_pid buffered full same
        ∙ at_new_pid f d
        ∙ entry_at-count f d v

    -- Where the directories before the last one are full and the last one has room, append_entry
    -- succeeds. The page number that it returns had no entry before, and resolves to the new
    -- offset; every other page number resolves as it did.
    pub append_entry-resolve :
        (resolve h new_pid ≡ stop assert_failed)
        × ((h' : Heapfile) × (append_entry h e ≡ ok (h', new_pid))
            × (resolve h' new_pid ≡ ok e.offset)
            × ((q : ℕ) → q ≢ new_pid → resolve h' q ≡ resolve h q))
    append_entry-resolve = (
      sym (lookup-resolve h new_pid) ∙ was_missing the_offset,
      (
        with_entry,
        append_entry-ok,
        sym (lookup-resolve with_entry new_pid) ∙ lookup-new_pid the_offset,
        λ q ne.
            sym (lookup-resolve with_entry q)
            ∙ lookup-with_entry the_offset q ne
            ∙ lookup-resolve h q,
      ),
    )
