-- ===== src/Heapfile/Adding.antt =====
-- `put_record` of a1/heapfile.cpp, where a page has room.
use database_assignments.Base.{
  ℕ, ◌-◌, ◌^◌, ◌<◌, ◌≡◌, refl, sym, ap, ◌∙◌, inl, inr, false, none, some, arith, ok, or_stop,
  out_of_bounds, load, assert, ◌==◌, ==_iff, length, get_or, get_elem?-get_or,
}
use database_assignments.Record.{Record}
use database_assignments.Record.Laws.{clean}
use database_assignments.Page.{Page, fixed_len_page_capacity, add_fixed_len_page}
use database_assignments.Page.Layout.{IsPage, is_filled}
use database_assignments.Page.Slots.{IsStorable, contents}
use database_assignments.Page.Store.{Updates, add_fixed_len_page-Updates}
use database_assignments.Heapfile.{RecordId, Heapfile}
use database_assignments.Heapfile.Ops.{alloc_page, vacant_page_id, get_free_pid}
use database_assignments.Heapfile.Records.{put_record}
use database_assignments.Heapfile.Entries.{resolve}
use database_assignments.Heapfile.Coherence.{page_of, cached-ok}
use database_assignments.Heapfile.Cache.{get_page-Loaded}
use database_assignments.Heapfile.Accounted.{Keeps, Keeps-trans, Loaded-Keeps}
use database_assignments.Heapfile.Store.{IsValid, Puts, change_page}
use database_assignments.Heapfile.Visits.{loaded-IsValid}

pub get_free_pid-vacant :
    (h : Heapfile) (pid : ℕ) → vacant_page_id h ≡ ok (some pid) → get_free_pid h ≡ ok (h, pid)
unfolding get_free_pid
get_free_pid-vacant h pid e = rw e refl

pub get_free_pid-none : (h : Heapfile) → vacant_page_id h ≡ ok none → get_free_pid h ≡ alloc_page h
unfolding get_free_pid
get_free_pid-none h e = rw e refl

load-last :
    (p : Page) → IsPage p → load p.bytes (p.page_size - 1) ≡ ok (get_or p.bytes (p.page_size - 1) 0)
load-last p v =
    ap (λ o. or_stop o out_of_bounds)
      (get_elem?-get_or p.bytes (p.page_size - 1) 0 (omega (arith, v.size, v.slot_lt)))

assert-same : (n : ℕ) → assert (n == n) ≡ ok tt
assert-same n = ap assert ((==_iff n n).1 refl)

module _ (places : Record) (h : Heapfile) (pid off : ℕ) (v : IsValid h)
    (r : resolve h pid ≡ ok off) where
  abbrev page : Page
  page = page_of h pid off

  -- The record has been added to the page, and the page committed; it is read once more.
  put_in_slot :
      (h₀ : Heapfile) (rec : Record) (s : ℕ) (q : Page)
      → get_free_pid h₀ ≡ ok (h, pid)
      → add_fixed_len_page page rec ≡ ok (q, some s)
      → Updates places page q s (some (ok (clean rec)))
      → (h' : Heapfile) × (put_record h₀ rec ≡ ok h')
        × Puts places h h' (record { page_id = pid; slot = s }) (some (ok (clean rec)))
        × (h.page_size < 2 ^ 32 → Keeps h h')
  unfolding put_record
  put_in_slot h₀ rec s q free_pid added u =
      let rid : RecordId = record { page_id = pid; slot = s } in
      let (h₁, g, l) = get_page-Loaded h pid off v.coherent r in
      let content = cached-ok h₁ page l.page_cached in
      let (h₂, c, p, changed, keeps) =
        change_page places h rid off v r h₁ q (some (ok (clean rec))) l u in
      let r₂ = p.entries pid ∙ r in
      let (h₃, g₃, l₃) = get_page-Loaded h₂ pid off p.valid.coherent r₂ in
      let content₃ = cached-ok h₃ q (l₃.page_cached ∙ ap some changed) in
      (
        h₃,
        rw
            (
              free_pid,
              g,
              content,
              added,
              load-last q u.is_page,
              c,
              g₃,
              content₃,
              load-last q u.is_page,
              assert-same (get_or q.bytes (q.page_size - 1) 0),
            )
            refl,
        record {
          valid = loaded-IsValid h₂ h₃ 0 pid off p.valid l₃;
          entries = λ a. l₃.same.entries a ∙ p.entries a;
          records = λ a t o ra ht.
              ap (λ w. contents places w t) (l₃.same.pages a o (p.entries a ∙ ra))
              ∙ p.records a t o ra ht;
        },
        λ small. Keeps-trans h h₂ h₃ (keeps small) (Loaded-Keeps h₂ h₃ pid off l₃),
      )

  -- The record goes to a slot of the page that was free.
  pub put_in_page :
      (h₀ : Heapfile) (rec : Record) (free : ℕ)
      → get_free_pid h₀ ≡ ok (h, pid)
      → free < fixed_len_page_capacity page
      → is_filled page free ≡ false
      → IsStorable page rec
      → length places ≡ length rec
      → (s : ℕ) × (s < fixed_len_page_capacity page)
        × (is_filled page s ≡ false)
        × ((h' : Heapfile) × (put_record h₀ rec ≡ ok h')
            × Puts places h h' (record { page_id = pid; slot = s }) (some (ok (clean rec)))
            × (h.page_size < 2 ^ 32 → Keeps h h'))
  put_in_page h₀ rec free free_pid below empty st e =
      elim (add_fixed_len_page-Updates places page rec (v.pages pid off r) st e) [
        | inl (full, _) ↦ absurd (cc (sym (full free below) ∙ empty))
        | inr (s, q, inside, was_free, _, added, u) ↦
            (s, inside, was_free, put_in_slot h₀ rec s q free_pid added u)
      ]

  -- If the directories name a page as vacant, and it has a free slot, then putting a storable
  -- record into a valid heap file succeeds: the heap file stays valid, the record, cut to ten
  -- bytes an attribute, is in a slot of that page that was free, and every other slot of every
  -- page holds what it held.
  pub put_record-Puts :
      (rec : Record) (free : ℕ)
      → vacant_page_id h ≡ ok (some pid)
      → free < fixed_len_page_capacity page
      → is_filled page free ≡ false
      → IsStorable page rec
      → length places ≡ length rec
      → (s : ℕ) × (is_filled page s ≡ false)
        × ((h' : Heapfile) × (put_record h rec ≡ ok h')
            × Puts places h h' (record { page_id = pid; slot = s }) (some (ok (clean rec))))
  put_record-Puts rec free vacant below empty st e =
      let free_pid = get_free_pid-vacant h pid vacant in
      let (s, _, was_free, (h', done, p, _)) = put_in_page h rec free free_pid below empty st e in
      (s, was_free, (h', done, p))
