-- ===== src/Entries/Section.antt =====
-- rtbus_iterable.c: the entries of the linker section, which are fixed at build time.
use rtbus.Base.{ℕ, ◌+◌, List, [], ◌∷◌, Option, none, some, ◌==◌, if◌then◌else◌}
use rtbus.Base.Rc.{Rc, ok, err, enodev}
use rtbus.Base.Word.{u8}
use rtbus.Entries.{Entry, Registry, find_entry, check_entry}

-- The loop of `emos_entry_get_by_index`: `current` is a `uint8_t`.
unfoldable pub get_from : (index current : ℕ) → List Entry → Option Entry
get_from index current [] = none
get_from index current (e ∷ es) =
    if current == index then some e else get_from index (u8 (current + 1)) es

abbrev pub registry : List Entry → Registry
registry es = record {
  find = λ task_id. find_entry task_id es;
  get_by_index = λ index. get_from index 0 es;
}

-- The loop of `emos_entries_init`: the first failure, or the `uint8_t` count of entries.
unfoldable pub count_entries : List Entry → (found : ℕ) → List Entry → Rc × ℕ
count_entries all found [] = (ok, found)
count_entries all found (e ∷ es) = elim (check_entry all e) [
  | ok ↦ count_entries all (u8 (found + 1)) es
  | err c ↦ (err c, found)
]

-- The return code and `*registered_count` (0 if it is not written).
unfoldable pub emos_entries_init : List Entry → Rc × ℕ
emos_entries_init es =
    let (rc, found) = count_entries es 0 es in
    elim rc [ err c ↦ (err c, 0) | ok ↦ if found == 0 then (err enodev, 0) else (ok, found) ]
