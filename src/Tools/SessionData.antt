-- ===== src/Tools/SessionData.antt =====
-- A heap file of one page of one slot, as csv2heapfile makes it for a row without text: test data.
use database_assignments.Base.{
  ℕ, zero, suc, ◌+◌, ◌/◌, ◌%◌, ◌≤◌, ◌<◌, ◌≡◌, refl, sym, ap, ap₂, subst, ◌∙◌, store_int, inr, false,
  none, List, [], ◌∷◌, ◌++◌, arith, ok, ok_injective, >>=-eq-ok, load, load_int, int_at, length,
  replicate,
}
use database_assignments.Page.{fixed_len_page_capacity}
use database_assignments.Page.Layout.{IsPage, is_filled, AreBytes-replicate}
use database_assignments.Page.Count.{count_true, free_count}
use database_assignments.Record.Rows.{AreBytes-append}
use database_assignments.Directory.{Directory, init_directory_page}
use database_assignments.Directory.Laws.{IsDirectory, count_of}
use database_assignments.Heapfile.{Heapfile, get_entry, load_offset, init_heapfile, read_block}
use database_assignments.Heapfile.FreeSpace.{get_entry-At}
use database_assignments.Heapfile.Store.{IsValid}
use database_assignments.Heapfile.Contents.{slots_of}
use database_assignments.Heapfile.Records.{open_heapfile, open_loop}
use database_assignments.Tools.Edit.{open_rows}
use database_assignments.Heapfile.Entries.{resolve}
use database_assignments.Heapfile.EntryAt.{the_free_space, lookup}
use database_assignments.Heapfile.EntryFits.{
  AreDirectories, entry_fits-AreDirectories, AreDirectories-behind, get_entry-counted,
}
use database_assignments.Heapfile.Coherence.{page_of, empty}
use database_assignments.Heapfile.Added.{IsSound}
use database_assignments.Tools.Loading.{IsForRows}

abbrev pub directory_bytes : List ℕ
directory_bytes = 0 ∷ 0 ∷ 0 ∷ 0 ∷ 1 ∷ 0 ∷ 0 ∷ 0 ∷ 242 ∷ 3 ∷ 0 ∷ 0 ∷ 0 ∷ 0 ∷ 0 ∷ 0 ∷ replicate 994 0

abbrev pub page_bytes : List ℕ
page_bytes = replicate 1009 0 ++ 1 ∷ []

abbrev pub only_directory : Directory
only_directory = record { capacity = 125; bytes = directory_bytes; offset = 0 }

abbrev pub one_page : Heapfile
one_page = record {
  file = directory_bytes ++ page_bytes;
  page_size = 1010;
  directory_buffer = only_directory ∷ [];
  cached_page = none;
  cached_pid = none;
  page_cache_dirty = false;
  slot_size = 1000;
}

pub resolve_first : resolve one_page 0 ≡ ok 1010
unfolding resolve get_entry load_int int_at
resolve_first = refl

counted_one : count_of only_directory ≡ 1
unfolding int_at
counted_one = refl

only_directory-IsDirectory : IsDirectory only_directory
only_directory-IsDirectory = record {
  counted = omega (arith, counted_one);
  small = omega arith;
  inside = omega arith;
}

load_only : (d x : Directory) (i : ℕ) → load (d ∷ []) i ≡ ok x → (i ≡ 0) × (x ≡ d)
load_only d x zero e = (refl, sym (ok_injective e))
load_only d x (suc i) e = absurd (cc e)

one_page-AreDirectories : AreDirectories (only_directory ∷ [])
one_page-AreDirectories = AreDirectories-behind 125 [] only_directory tt only_directory-IsDirectory

-- Page 0 is the only one.
pub resolve_only : (a x : ℕ) → resolve one_page a ≡ ok x → (a ≡ 0) × (x ≡ 1010)
unfolding resolve
resolve_only a x r =
    let (place, g, _) = >>=-eq-ok (get_entry one_page a) load_offset r in
    let t = get_entry-At one_page a place g in
    let (_, same) = load_only only_directory t.first 0 t.at_first in
    let (at_zero, here) = load_only only_directory place.dir place.dir_no t.buffered in
    let (lt, _) = get_entry-counted one_page a place one_page-AreDirectories g in
    let capacity : t.first.capacity ≡ 125 = ap (λ (d : Directory). d.capacity) same in
    let one : count_of place.dir ≡ 1 = ap count_of here ∙ counted_one in
    let quotient : a / 125 ≡ 0 = ap (λ n. a / n) (sym capacity) ∙ sym t.dir_no ∙ at_zero in
    let remainder : a % 125 ≡ place.slot_no = ap (λ n. a % n) (sym capacity) ∙ sym t.slot_no in
    let first : a ≡ 0 = omega (arith, quotient, remainder, lt, one) in
    (first, ok_injective (sym r ∙ ap (resolve one_page) first ∙ resolve_first))

page_first :
    page_of one_page 0 1010 ≡ record { bytes = page_bytes; page_size = 1010; slot_size = 1000 }
unfolding page_of
page_first = refl

first-IsPage : IsPage (record { bytes = page_bytes; page_size = 1010; slot_size = 1000 })
first-IsPage = record {
  size = refl;
  bytes_ok =
      AreBytes-append (replicate 1009 0) (1 ∷ []) (AreBytes-replicate 1009) (omega arith, tt);
  slot_pos = omega arith;
  slot_lt = omega arith;
}

free_first : lookup the_free_space one_page 0 ≡ ok (free_count (page_of one_page 0 1010))
unfolding lookup get_entry load_int int_at free_count count_true is_filled fixed_len_page_capacity
    page_of
free_first = refl

one_page-IsValid : IsValid one_page
one_page-IsValid = record {
  coherent = record {
    placed = record {
      slot_pos = omega arith;
      slot_lt = omega arith;
      inside = λ a x e.
          let (_, at) = resolve_only a x e in
          (omega (arith, at), subst (λ n. n + 1010 ≤ length one_page.file) (sym at) (omega arith));
      fits = λ a x e. entry_fits-AreDirectories one_page a x one_page-AreDirectories e;
      apart =
          λ a b x y ne ra rb. absurd (ne ((resolve_only a x ra).0 ∙ sym (resolve_only b y rb).0));
    };
    cache = empty refl refl;
  };
  pages = λ a x e.
      let (p, q) = resolve_only a x e in
      subst IsPage (sym (ap₂ (page_of one_page) p q ∙ page_first)) first-IsPage;
}

one_page-IsSound : IsSound one_page
unfolding load_int int_at
one_page-IsSound = record {
  valid = one_page-IsValid;
  laid = record {
    before = [];
    last = only_directory;
    full = tt;
    is_directory = only_directory-IsDirectory;
    capacity = refl;
    buffered = refl;
    large = omega arith;
  };
  chained = record {
    dirs = only_directory ∷ [];
    buffered = refl;
    chain = (refl, refl);
    blocks = (
      record { size = refl; capacity = refl; small = omega arith; inside = omega arith },
      tt,
      tt,
    );
    apart = λ pid x r. let (_, at) = resolve_only pid x r in (inr (omega (arith, at)), tt);
    capacity_pos = refl;
    header = omega arith;
    count = omega arith;
  };
  accounted = λ q o r.
      let (p, x) = resolve_only q o r in
      ap (lookup the_free_space one_page) p
      ∙ free_first
      ∙ ap (λ page. ok (free_count page)) (ap₂ (page_of one_page) (sym p) (sym x));
}

pub one_slot : 0 < slots_of one_page
unfolding fixed_len_page_capacity
one_slot = omega arith

pub one_page-IsForRows : IsForRows one_page
one_page-IsForRows = record { sound = one_page-IsSound; slot_size = refl; some_slot = one_slot }

pub opened : open_rows 1010 one_page.file ≡ ok one_page
unfolding open_rows open_heapfile open_loop init_heapfile init_directory_page read_block load_int
    store_int int_at
opened = refl
