-- ===== src/Entries/Table.antt =====
-- rtbus_entries.c: the table that the caller passes to `rtbus_init`.
use rtbus.Base.{ℕ, List, Option, none, some, leb, ◌==◌, if◌then◌else◌, take, get_elem?}
use rtbus.Base.Rc.{Rc, ok, err, einval}
use rtbus.Entries.{Entry, Registry, find_entry, check_entries}

-- `registered_entries` (`none` is NULL) and `registered_entry_count`.
pub record Table : Type 0 where
  pub entries : Option (List Entry)
  pub count : ℕ

unfoldable pub emos_entries_reset : Table
emos_entries_reset = record { entries = none; count = 0 }

unfoldable pub emos_entry_find : Table → (task_id : ℕ) → Option Entry
emos_entry_find t task_id = elim t.entries [
  | none ↦ none
  | some es ↦ find_entry task_id (take t.count es)
]

unfoldable pub emos_entry_get_by_index : Table → (index : ℕ) → Option Entry
emos_entry_get_by_index t index = elim t.entries [
  | none ↦ none
  | some es ↦ if leb t.count index then none else get_elem? es index
]

abbrev pub registry : Table → Registry
registry t = record { find = emos_entry_find t; get_by_index = emos_entry_get_by_index t }

-- The return code, `*registered_count` (0 if it is not written) and the table.
pub record Registered : Type 0 where
  pub rc : Rc
  pub count : ℕ
  pub table : Table

unfoldable pub emos_entries_init : Table → Option (List Entry) → (entry_count : ℕ) → Registered
emos_entries_init old none entry_count = record { rc = err einval; count = 0; table = old }
emos_entries_init old (some es) entry_count =
    if entry_count == 0
    then record { rc = err einval; count = 0; table = old }
    else elim (check_entries (take entry_count es) (take entry_count es)) [
      | ok ↦ record {
        rc = ok;
        count = entry_count;
        table = record { entries = some es; count = entry_count };
      }
      | err c ↦ record { rc = err c; count = 0; table = emos_entries_reset }
    ]
