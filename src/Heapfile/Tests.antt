-- ===== src/Heapfile/Tests.antt =====
-- A small heap file, and the theorems about heap files at it: one directory of 24 bytes with one
-- entry, and one page of two slots of ten bytes, of which slot 0 holds "hi".
use database_assignments.Base.{
  ℕ, zero, suc, ◌/◌, ◌<◌, ◌≡◌, refl, sym, ◌∙◌, true, false, none, some, List, [], ◌∷◌, ◌++◌, arith,
  ok, load_int, int_at, ok_injective,
}
use database_assignments.CString.{strncpy, field}
use database_assignments.Record.{Record, fixed_len_read, read_attributes}
use database_assignments.Record.Laws.{image, clean}
use database_assignments.Page.{fixed_len_page_capacity, read_fixed_len_page, load_back}
use database_assignments.Page.Slots.{IsStorable}
use database_assignments.Heapfile.{RecordId, Heapfile, get_entry}
use database_assignments.Heapfile.Ops.{get_page}
use database_assignments.Heapfile.Records.{get_record, update_record, delete_record}
use database_assignments.Heapfile.Entries.{resolve, entry_fits}
use database_assignments.Heapfile.Coherence.{page_of, IsCoherent, empty, SamePages}
use database_assignments.Heapfile.Cache.{Loaded, get_page-Loaded}
use database_assignments.Tools.Edit.{update_attribute}
use database_assignments.Tools.Update.{update_attribute-Puts}
use database_assignments.Heapfile.Store.{
  IsValid, Puts, update_record-Puts, delete_record-Puts, get_record-read,
}

abbrev pub directory_bytes : List ℕ
directory_bytes =
    0 ∷ 0 ∷ 0 ∷ 0 ∷ 1 ∷ 0 ∷ 0 ∷ 0 ∷ 24 ∷ 0 ∷ 0 ∷ 0 ∷ 1 ∷ 0 ∷ 0 ∷ 0 ∷ 0 ∷ 0 ∷ 0 ∷ 0 ∷ 0 ∷ 0 ∷ 0 ∷ 0
    ∷ []

abbrev pub page_bytes : List ℕ
page_bytes =
    104 ∷ 105 ∷ 0 ∷ 0 ∷ 0 ∷ 0 ∷ 0 ∷ 0 ∷ 0 ∷ 0 ∷ 0 ∷ 0 ∷ 0 ∷ 0 ∷ 0 ∷ 0 ∷ 0 ∷ 0 ∷ 0 ∷ 0 ∷ 0 ∷ 0 ∷ 0
    ∷ 1 ∷ []

abbrev pub small : Heapfile
small = record {
  file = directory_bytes ++ page_bytes;
  page_size = 24;
  directory_buffer = record { capacity = 2; bytes = directory_bytes; offset = 0 } ∷ [];
  cached_page = none;
  cached_pid = none;
  page_cache_dirty = false;
  slot_size = 10;
}

abbrev pub second_slot : RecordId
second_slot = record { page_id = 0; slot = 1 }

abbrev pub yes_record : Record
yes_record = (121 ∷ 101 ∷ 115 ∷ 0 ∷ []) ∷ []

abbrev pub one_place : Record
one_place = [] ∷ []

pub resolve_first : resolve small 0 ≡ ok 24
unfolding resolve get_entry load_int int_at
resolve_first = refl

-- Page 0 is the only one.
pub resolve_only : (a x : ℕ) → resolve small a ≡ ok x → (a ≡ 0) × (x ≡ 24)
unfolding resolve get_entry load_int int_at
resolve_only zero x e = (refl, sym (ok_injective e))
resolve_only (suc zero) x e = absurd (cc e)
resolve_only (suc (suc n)) x e =
    let half : suc (suc n) / 2 ≡ suc (n / 2) = omega arith in absurd (cc (rw half at e))

entry_fits_first : entry_fits small 0 ≡ ok true
unfolding entry_fits get_entry load_int int_at
entry_fits_first = refl

pub small-IsCoherent : IsCoherent small
small-IsCoherent = record {
  placed = record {
    slot_pos = omega arith;
    slot_lt = omega arith;
    inside = λ a x e. omega (arith, resolve_only a x e);
    fits = λ a x e. rw ((resolve_only a x e).0) entry_fits_first;
    apart = λ a b x y ne ra rb. absurd (ne ((resolve_only a x ra).0 ∙ sym (resolve_only b y rb).0));
  };
  cache = empty refl refl;
}

pub page_first : page_of small 0 24 ≡ record { bytes = page_bytes; page_size = 24; slot_size = 10 }
unfolding page_of
page_first = refl

pub small-IsValid : IsValid small
small-IsValid = record {
  coherent = small-IsCoherent;
  pages = λ a x e. let (p, q) = resolve_only a x e in rw (p, q, page_first) (omega arith);
}

pub in_range : second_slot.slot < fixed_len_page_capacity (page_of small 0 24)
unfolding page_of fixed_len_page_capacity
in_range = omega arith

pub storable : IsStorable (page_of small 0 24) yes_record
unfolding page_of image field
storable = omega arith

update_record-Puts_example :
    (h' : Heapfile) × (update_record small second_slot yes_record ≡ ok h')
    × Puts one_place small h' second_slot (some (ok (clean yes_record)))
update_record-Puts_example =
    update_record-Puts one_place small second_slot 24 small-IsValid resolve_first yes_record
      in_range storable refl

delete_record-Puts_example :
    (h' : Heapfile) × (delete_record small second_slot ≡ ok h')
    × Puts one_place small h' second_slot none
unfolding page_of
delete_record-Puts_example =
    delete_record-Puts one_place small second_slot 24 small-IsValid resolve_first in_range
      (omega arith)

first_record :
    read_fixed_len_page (page_of small 0 24) 0 one_place
    ≡ ok ((104 ∷ 105 ∷ 0 ∷ 0 ∷ 0 ∷ 0 ∷ 0 ∷ 0 ∷ 0 ∷ 0 ∷ 0 ∷ []) ∷ [])
unfolding page_of read_fixed_len_page load_back fixed_len_read read_attributes strncpy
first_record = refl

get_record-read_example :
    (h' : Heapfile) × (get_record small (record { page_id = 0; slot = 0 }) one_place
      ≡ ok (h', (104 ∷ 105 ∷ 0 ∷ 0 ∷ 0 ∷ 0 ∷ 0 ∷ 0 ∷ 0 ∷ 0 ∷ 0 ∷ []) ∷ []))
    × IsValid h'
    × SamePages small h'
get_record-read_example =
    get_record-read one_place small (record { page_id = 0; slot = 0 }) 24 small-IsValid
      resolve_first ((104 ∷ 105 ∷ 0 ∷ 0 ∷ 0 ∷ 0 ∷ 0 ∷ 0 ∷ 0 ∷ 0 ∷ 0 ∷ []) ∷ []) first_record

get_page-Loaded_example : (h' : Heapfile) × (get_page small 0 ≡ ok h') × Loaded small h' 0 24
get_page-Loaded_example = get_page-Loaded small 0 24 small-IsCoherent resolve_first

first_in_range : 0 < fixed_len_page_capacity (page_of small 0 24)
unfolding page_of fixed_len_page_capacity
first_in_range = omega arith

-- The first attribute of the first record becomes "yes".
update_attribute-Puts_example :
    (h' : Heapfile) × (update_attribute one_place small
        (record { page_id = 0; slot = 0 })
        0
        (121 ∷ 101 ∷ 115 ∷ 0 ∷ [])
      ≡ ok h')
    × Puts one_place small h' (record { page_id = 0; slot = 0 }) (some (ok (clean yes_record)))
update_attribute-Puts_example =
    update_attribute-Puts one_place small (record { page_id = 0; slot = 0 }) 24 small-IsValid
      resolve_first ((104 ∷ 105 ∷ 0 ∷ 0 ∷ 0 ∷ 0 ∷ 0 ∷ 0 ∷ 0 ∷ 0 ∷ 0 ∷ []) ∷ []) 0
      (121 ∷ 101 ∷ 115 ∷ 0 ∷ []) first_record (omega arith) first_in_range storable refl
