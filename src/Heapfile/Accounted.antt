-- ===== src/Heapfile/Accounted.antt =====
-- The free space that the entries of a heap file of a1/heapfile.cpp give is the number of free
-- slots of their pages.
use native.Mathlib.Decide.{ℕ_discrete}
use database_assignments.Base.{ℕ, ◌<◌, ◌^◌, ◌≡◌, sym, ap, ap₂, ◌∙◌, ok, ok_injective, length}
use database_assignments.Page.{Page}
use database_assignments.Page.Count.{free_count}
use database_assignments.Heapfile.{Heapfile}
use database_assignments.Heapfile.Entries.{resolve}
use database_assignments.Heapfile.EntryAt.{the_free_space, lookup}
use database_assignments.Heapfile.Laid.{IsLaid, IsLaid-kept, lookup-directories}
use database_assignments.Heapfile.Chains.{IsChained, IsChained-kept}
use database_assignments.Heapfile.Coherence.{page_of}
use database_assignments.Heapfile.Cache.{Loaded}
use database_assignments.Heapfile.Commit.{Changed}

-- Each entry gives the number of free slots of its page.
abbrev pub IsAccounted : Heapfile → Type 0
IsAccounted h =
    (q o : ℕ) → resolve h q ≡ ok o → lookup the_free_space h q ≡ ok (free_count (page_of h q o))

-- `h'` keeps what `h` has of the shape of a heap file.
pub record Keeps (h h' : Heapfile) : Type 0 where
  pub laid : IsLaid h → IsLaid h'
  pub chained : IsChained h → IsChained h'
  pub accounted : IsAccounted h → IsAccounted h'
  pub page_size : h'.page_size ≡ h.page_size
  pub slot_size : h'.slot_size ≡ h.slot_size
  pub length_file : length h'.file ≡ length h.file

pub Keeps-trans : (h h' h'' : Heapfile) → Keeps h h' → Keeps h' h'' → Keeps h h''
Keeps-trans h h' h'' k l = record {
  laid = λ a. l.laid (k.laid a);
  chained = λ a. l.chained (k.chained a);
  accounted = λ a. l.accounted (k.accounted a);
  page_size = l.page_size ∙ k.page_size;
  slot_size = l.slot_size ∙ k.slot_size;
  length_file = l.length_file ∙ k.length_file;
}

pub Loaded-Keeps : (h h' : Heapfile) (pid off : ℕ) → Loaded h h' pid off → Keeps h h'
Loaded-Keeps h h' pid off l = record {
  laid = IsLaid-kept h h' l.directories l.page_size;
  chained = IsChained-kept h h' l.page_size l.length_file l.directories l.same.entries;
  accounted = λ a q o r'.
      let r = sym (l.same.entries q) ∙ r' in
      lookup-directories the_free_space h h' q l.directories
      ∙ a q o r
      ∙ ap (λ p. ok (free_count p)) (sym (l.same.pages q o r));
  page_size = l.page_size;
  slot_size = l.slot_size;
  length_file = l.length_file;
}

pub Changed-Keeps :
    (h h' : Heapfile) (pid off : ℕ) (page : Page)
    → resolve h pid ≡ ok off
    → free_count page < 2 ^ 32
    → Changed h h' pid off page
    → Keeps h h'
Changed-Keeps h h' pid off page r small c = record {
  laid = c.laid;
  chained = c.chained;
  accounted = λ a q o rq'.
      let rq = sym (c.entries q) ∙ rq' in
      elim (ℕ_discrete q pid) [
        | yes w ↦
            let at : off ≡ o = ok_injective (sym r ∙ ap (resolve h) (sym w) ∙ rq) in
            ap (lookup the_free_space h') w
            ∙ c.free_space small
            ∙ ap (λ p. ok (free_count p)) (sym (ap₂ (page_of h') w (sym at) ∙ c.changed))
        | no ne ↦
            c.others_free q o ne rq
            ∙ a q o rq
            ∙ ap (λ p. ok (free_count p)) (sym (c.others q o ne rq))
      ];
  page_size = c.page_size;
  slot_size = c.slot_size;
  length_file = ap length c.file;
}
