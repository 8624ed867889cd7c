-- ===== src/Heapfile/Cache.antt =====
-- `get_page` against the pages that the program sees: it never changes one.
use native.Mathlib.Decide.{ℕ_discrete}
use database_assignments.Base.{
  ℕ, ◌≡◌, refl, sym, ap, ◌∙◌, inl, inr, true, false, Option, none, some, List, ok, ok_injective,
  if◌then◌else◌, ◌==◌, ==_iff, lt→ltb, replicate, length, Bool-cases, length-take-drop, >>=-eq-ok,
}
use database_assignments.Page.{Page, init_fixed_len_page}
use database_assignments.Heapfile.{Heapfile, get_entry, load_offset}
use database_assignments.Heapfile.Ops.{is_cached, load_page, get_page}
use database_assignments.Heapfile.Blocks.{read_block-ok}
use database_assignments.Heapfile.Entries.{resolve, entry_fits}
use database_assignments.Heapfile.Coherence.{
  file_page, page_of, Cache, empty, holds, IsCoherent, SamePages, Written, write_out_lem,
  page_of_cached, page_of_other, page_of_empty,
}

pub Page-path :
    {p q : Page} → p.bytes ≡ q.bytes → p.page_size ≡ q.page_size → p.slot_size ≡ q.slot_size → p ≡ q
Page-path a b c = λ i. record { bytes = a i; page_size = b i; slot_size = c i }

-- A page as it is seen has the sizes of the heap file.
pub page_of_sizes :
    (h : Heapfile) (pid off : ℕ)
    → Cache h
    → ((page_of h pid off).page_size ≡ h.page_size) × ((page_of h pid off).slot_size ≡ h.slot_size)
page_of_sizes h pid off (empty e d) = rw (page_of_empty h pid off e) (refl, refl)
page_of_sizes h pid off (holds c x page e f r ps ss size clean) = elim (ℕ_discrete c pid) [
  | yes w ↦ rw (page_of_cached h pid off page (e ∙ ap some w) f) (ps, ss)
  | no w ↦ rw (page_of_other h c pid off e w) (refl, refl)
]

-- What `get_page` promises of the heap file that it leaves.
pub record Loaded (h h' : Heapfile) (pid off : ℕ) : Type 0 where
  pub coherent : IsCoherent h'
  pub same : SamePages h h'
  pub directories : h'.directory_buffer ≡ h.directory_buffer
  pub page_size : h'.page_size ≡ h.page_size
  pub slot_size : h'.slot_size ≡ h.slot_size
  pub length_file : length h'.file ≡ length h.file
  pub pid_cached : h'.cached_pid ≡ some pid
  pub page_cached : h'.cached_page ≡ some (page_of h pid off)

pub is_cached_hit : (h : Heapfile) (pid : ℕ) → h.cached_pid ≡ some pid → is_cached h pid ≡ true
is_cached_hit h pid e = let same : (pid == pid) ≡ true = (==_iff pid pid).1 refl in rw e same

get_page_hit :
    (h : Heapfile) (pid off : ℕ) (page : Page)
    → IsCoherent h
    → h.cached_pid ≡ some pid
    → h.cached_page ≡ some page
    → (get_page h pid ≡ ok h) × Loaded h h pid off
unfolding get_page
get_page_hit h pid off page v e f = (
  ap (λ b. if b then ok h else load_page h pid) (is_cached_hit h pid e),
  record {
    coherent = v;
    same = record { entries = λ q. refl; pages = λ q o r. refl };
    directories = refl;
    page_size = refl;
    slot_size = refl;
    length_file = refl;
    pid_cached = e;
    page_cached = f ∙ ap some (sym (page_of_cached h pid off page e f));
  },
)

module _ (h : Heapfile) (pid off : ℕ) (file : List ℕ) (v : IsCoherent h)
    (r : resolve h pid ≡ ok off) (miss : is_cached h pid ≡ false) (w : Written h file) where
  abbrev pub h_written : Heapfile
  h_written = record h { file = file }

  abbrev pub h_loaded : Heapfile
  h_loaded = record h_written {
    cached_page = some (file_page h_written off);
    cached_pid = some pid;
    page_cache_dirty = false;
  }

  init-ok :
      init_fixed_len_page h.page_size h.slot_size
      ≡ ok (record {
        bytes = replicate h.page_size 0;
        page_size = h.page_size;
        slot_size = h.slot_size;
      })
  unfolding init_fixed_len_page
  init-ok =
      rw (lt→ltb 0 h.slot_size v.placed.slot_pos, lt→ltb h.slot_size h.page_size v.placed.slot_lt)
        refl

  entry-written : get_entry h_written pid ≡ get_entry h pid
  unfolding get_entry
  entry-written = refl

  load_page-ok : load_page h pid ≡ ok h_loaded
  unfolding load_page resolve
  load_page-ok =
      let (small, fits) = v.placed.inside pid off r in
      let block = read_block-ok h_written off small (rw w.1 fits) in
      let (place, g, l) = >>=-eq-ok (get_entry h pid) load_offset r in
      rw (w.0, init-ok, entry-written ∙ g, l, block) refl

  resolve_loaded : (q : ℕ) → resolve h_loaded q ≡ resolve h q
  unfolding resolve get_entry
  resolve_loaded q = refl

  entry_fits_loaded : (q : ℕ) → entry_fits h_loaded q ≡ entry_fits h q
  unfolding entry_fits get_entry
  entry_fits_loaded q = refl

  page_of_written : (q o : ℕ) → resolve h q ≡ ok o → file_page h_written o ≡ page_of h q o
  page_of_written q o rq =
      let (a, b) = page_of_sizes h q o v.cache in Page-path (w.2 q o rq) (sym a) (sym b)

  SamePages-loaded : SamePages h h_loaded
  SamePages-loaded = record {
    entries = resolve_loaded;
    pages = λ q o rq. elim (ℕ_discrete pid q) [
      | yes y ↦
          let r' : resolve h pid ≡ ok o = rw y rq in
          page_of_cached h_loaded q o (file_page h_written off) (ap some y) refl
          ∙ ap (file_page h_written) (ok_injective (sym r ∙ r'))
          ∙ page_of_written q o rq
      | no y ↦ page_of_other h_loaded pid q o refl y ∙ page_of_written q o rq
    ];
  }

  IsCoherent-loaded : IsCoherent h_loaded
  IsCoherent-loaded = record {
    placed = record {
      slot_pos = v.placed.slot_pos;
      slot_lt = v.placed.slot_lt;
      inside =
          λ a x ra. let (s, t) = v.placed.inside a x (sym (resolve_loaded a) ∙ ra) in (s, rw w.1 t);
      fits = λ a x ra. entry_fits_loaded a ∙ v.placed.fits a x (sym (resolve_loaded a) ∙ ra);
      apart = λ a b x y ne ra rb.
          v.placed.apart a b x y ne (sym (resolve_loaded a) ∙ ra) (sym (resolve_loaded b) ∙ rb);
    };
    cache =
        holds pid off (file_page h_written off) refl refl (resolve_loaded pid ∙ r) refl refl
          (length-take-drop file h.page_size off (rw w.1 (v.placed.inside pid off r).1))
          (λ _. refl);
  }

  pub Loaded-h_loaded : Loaded h h_loaded pid off
  Loaded-h_loaded = record {
    coherent = IsCoherent-loaded;
    same = SamePages-loaded;
    directories = refl;
    page_size = refl;
    slot_size = refl;
    length_file = w.1;
    pid_cached = refl;
    page_cached = ap some (page_of_written pid off r);
  }

  get_page_miss : (get_page h pid ≡ ok h_loaded) × Loaded h h_loaded pid off
  unfolding get_page
  get_page_miss =
      (ap (λ b. if b then ok h else load_page h pid) miss ∙ load_page-ok, Loaded-h_loaded)

cached_pid_of_hit :
    (o : Option ℕ) (h : Heapfile) (pid : ℕ)
    → h.cached_pid ≡ o
    → is_cached h pid ≡ true
    → h.cached_pid ≡ some pid
cached_pid_of_hit none h pid e t = absurd (cc (rw e at t))
cached_pid_of_hit (some c) h pid e t = e ∙ ap some ((==_iff c pid).0 (rw e at t))

-- In a coherent heap file `get_page` succeeds for every page that has an entry. It leaves the page
-- in the cache as the program saw it before, the heap file coherent, and every other page as it
-- was seen, whether the page that was in the cache was dirty or not.
pub get_page-Loaded :
    (h : Heapfile) (pid off : ℕ)
    → IsCoherent h
    → resolve h pid ≡ ok off
    → (h' : Heapfile) × (get_page h pid ≡ ok h') × Loaded h h' pid off
get_page-Loaded h pid off v r = elim (Bool-cases (is_cached h pid)) [
  | inl hit ↦ cached_case v.cache (cached_pid_of_hit h.cached_pid h pid refl hit)
  | inr miss ↦
      let (file, w) = write_out_lem h v in
      let (a, b) = get_page_miss h pid off file v r miss w in
      (h_loaded h pid off file v r miss w, a, b)
]
  where
    cached_case :
        Cache h
        → h.cached_pid ≡ some pid
        → (h' : Heapfile) × (get_page h pid ≡ ok h') × Loaded h h' pid off
    cached_case (empty e d) e' = absurd (cc (sym e ∙ e'))
    cached_case (holds c x page e f rc ps ss size clean) e' =
        let (a, b) = get_page_hit h pid off page v e' f in (h, a, b)
