-- ===== src/Heapfile/Coherence.antt =====
-- The page cache: the invariant that ties it to the file, and what `get_page` does.
use database_assignments.Base.{
  ℕ, ◌+◌, ◌^◌, ◌≤◌, ◌<◌, ◌≡◌, ◌≢◌, refl, sym, ap, ◌∙◌, ◌⊎◌, inl, inr, true, false, none, some, List,
  arith, ok, ok_injective, if◌then◌else◌, ◌==◌, ==_iff, length, splice, Bool-cases, length-splice,
  >>=-eq-ok,
}
use native.Mathlib.Decide.{ℕ_discrete}
use database_assignments.Page.{Page}
use database_assignments.Heapfile.{Heapfile, get_entry, get_cached_entry, cached, load_offset}
use database_assignments.Heapfile.Ops.{write_cached_page, write_out_cache, is_cached}
use database_assignments.Heapfile.Blocks.{
  block_at, write_block-ok, block_at-splice_self, block_at-splice_other,
}
use database_assignments.Heapfile.Entries.{resolve, entry_fits}

-- The page that the file holds at `off`.
abbrev pub file_page : Heapfile → ℕ → Page
file_page h off = record {
  bytes = block_at h.file h.page_size off;
  page_size = h.page_size;
  slot_size = h.slot_size;
}

-- The page `pid` as the program sees it, where its block stands at `off`: the cached page, if it
-- is that one, and the file's otherwise.
unfoldable pub page_of : Heapfile → ℕ → ℕ → Page
page_of h pid off =
    if is_cached h pid
    then elim h.cached_page [ none ↦ file_page h off | some page ↦ page ]
    else file_page h off

-- The blocks of the pages: each inside the file, and no two with a byte in common.
pub record IsPlaced (h : Heapfile) : Type 0 where
  pub slot_pos : 0 < h.slot_size
  pub slot_lt : h.slot_size < h.page_size
  pub inside : (a x : ℕ) → resolve h a ≡ ok x → (x < 2 ^ 31) × (x + h.page_size ≤ length h.file)
  pub fits : (a x : ℕ) → resolve h a ≡ ok x → entry_fits h a ≡ ok true
  pub apart :
      (a b x y : ℕ)
      → a ≢ b
      → resolve h a ≡ ok x
      → resolve h b ≡ ok y
      → (x + h.page_size ≤ y) ⊎ (y + h.page_size ≤ x)

-- The cache is empty and clean, or holds a page of the file; a clean one holds what the file does.
pub data Cache (h : Heapfile) : Type 0 where
  empty : h.cached_pid ≡ none → h.page_cache_dirty ≡ false → Cache h
  holds :
      (pid off : ℕ) (page : Page)
      → h.cached_pid ≡ some pid
      → h.cached_page ≡ some page
      → resolve h pid ≡ ok off
      → page.page_size ≡ h.page_size
      → page.slot_size ≡ h.slot_size
      → length page.bytes ≡ h.page_size
      → (h.page_cache_dirty ≡ false → page.bytes ≡ block_at h.file h.page_size off)
      → Cache h

pub record IsCoherent (h : Heapfile) : Type 0 where
  pub placed : IsPlaced h
  pub cache : Cache h

-- `h'` holds the same pages as `h`, at the same offsets.
pub record SamePages (h h' : Heapfile) : Type 0 where
  pub entries : (pid : ℕ) → resolve h' pid ≡ resolve h pid
  pub pages : (pid off : ℕ) → resolve h pid ≡ ok off → page_of h' pid off ≡ page_of h pid off

pub page_of_cached :
    (h : Heapfile) (pid off : ℕ) (page : Page)
    → h.cached_pid ≡ some pid
    → h.cached_page ≡ some page
    → page_of h pid off ≡ page
unfolding page_of
page_of_cached h pid off page e f =
    let same : (pid == pid) ≡ true = (==_iff pid pid).1 refl in rw (e, same, f) refl

pub page_of_other :
    (h : Heapfile) (c pid off : ℕ)
    → h.cached_pid ≡ some c
    → c ≢ pid
    → page_of h pid off ≡ file_page h off
unfolding page_of
page_of_other h c pid off e ne =
    let differ : (c == pid) ≡ false = ground arith in rw (e, differ) refl

pub page_of_empty :
    (h : Heapfile) (pid off : ℕ) → h.cached_pid ≡ none → page_of h pid off ≡ file_page h off
unfolding page_of
page_of_empty h pid off e = rw e refl

pub get_cached_entry-ok :
    (h : Heapfile) (c : ℕ) → h.cached_pid ≡ some c → get_cached_entry h ≡ get_entry h c
unfolding get_cached_entry
get_cached_entry-ok h c e = rw e refl

pub cached-ok : (h : Heapfile) (page : Page) → h.cached_page ≡ some page → cached h ≡ ok page
unfolding cached
cached-ok h page f = rw f refl

-- The file holds every page as the program sees it.
abbrev pub Written : Heapfile → List ℕ → Type 0
Written h file =
    (write_out_cache h ≡ ok (record h { file = file }))
    × (length file ≡ length h.file)
    × ((pid off : ℕ)
        → resolve h pid ≡ ok off
        → block_at file h.page_size off ≡ (page_of h pid off).bytes)

-- Writing a clean cache out does nothing, and the file is right as it is.
write_out_clean : (h : Heapfile) → Cache h → h.page_cache_dirty ≡ false → Written h h.file
unfolding write_out_cache
write_out_clean h (empty e _) d =
    (rw d refl, refl, λ pid off r. rw (page_of_empty h pid off e) refl)
write_out_clean h (holds c x page e f r ps ss size clean) d = (
  rw d refl,
  refl,
  λ pid off r'. elim (ℕ_discrete c pid) [
    | yes w ↦
        let r'' : resolve h c ≡ ok off = rw w r' in
        let o : x ≡ off = ok_injective (sym r ∙ r'') in
        rw (← o, ← w, page_of_cached h c x page e f) (sym (clean d))
    | no w ↦ rw (page_of_other h c pid off e w) refl
  ],
)

-- Writing a dirty cache out puts the cached page where its entry says, and no other page there.
write_out_dirty :
    (h : Heapfile)
    → IsPlaced h
    → (c x : ℕ) (page : Page) → h.cached_pid ≡ some c
    → h.cached_page ≡ some page
    → resolve h c ≡ ok x
    → length page.bytes ≡ h.page_size
    → h.page_cache_dirty ≡ true
    → Written h (splice h.file x page.bytes)
unfolding write_out_cache write_cached_page resolve
write_out_dirty h p c x page e f r size d =
    let (small, fits) = p.inside c x r in
    let (place, g, l) = >>=-eq-ok (get_entry h c) load_offset r in
    let entry = get_cached_entry-ok h c e ∙ g in
    let content = cached-ok h page f in
    (
      ap (λ b. if b then write_cached_page h else ok h) d
          ∙ (rw (entry, content, l, write_block-ok h page.bytes x small size fits) refl),
      length-splice h.file x page.bytes,
      λ pid off r'. elim (ℕ_discrete c pid) [
        | yes w ↦
            let r'' : resolve h c ≡ ok off = rw w r' in
            let o : x ≡ off = ok_injective (sym r ∙ r'') in
            rw (← o, ← w, page_of_cached h c x page e f)
              (block_at-splice_self h.file page.bytes h.page_size x size fits)
        | no w ↦ rw (page_of_other h c pid off e w) (
            block_at-splice_other h.file page.bytes h.page_size x off size
              (apart_sym x off h.page_size (p.apart c pid x off w r r')))
      ],
    )
  where
    apart_sym : (x y n : ℕ) → (x + n ≤ y) ⊎ (y + n ≤ x) → (y + n ≤ x) ⊎ (x + n ≤ y)
    apart_sym x y n (inl a) = inr a
    apart_sym x y n (inr a) = inl a

pub write_out_lem : (h : Heapfile) → IsCoherent h → (file : List ℕ) × Written h file
write_out_lem h v = elim (Bool-cases h.page_cache_dirty) [
  | inl d ↦ dirty v.cache d
  | inr d ↦ (h.file, write_out_clean h v.cache d)
]
  where
    dirty : Cache h → h.page_cache_dirty ≡ true → (file : List ℕ) × Written h file
    dirty (empty e d) d' = absurd (cc (sym d ∙ d'))
    dirty (holds c x page e f r ps ss size clean) d =
        (splice h.file x page.bytes, write_out_dirty h v.placed c x page e f r size d)
