-- ===== src/Entries.antt =====
-- The task tables: zephyr/modules/rtbus/src/rtbus_entries.c (`Table`), rtbus_iterable.c
-- (`Section`), and `struct emos_entry` of include/emos.h.
-- A function pointer is a number, 0 is NULL.
pub mod Table
pub mod Section
pub mod Unique
pub mod Registered
mod Tests
use rtbus.Base.{
  ℕ, ◌+◌, Bool, true, false, ◌||◌, List, [], ◌∷◌, Option, none, some, ltb, leb, ◌==◌, if◌then◌else◌,
}
use rtbus.Base.Rc.{Rc, ok, err, einval, ealready}
use rtbus.Base.Word.{u8}

pub record Entry : Type 0 where
  pub task_id : ℕ
  pub priority : ℕ
  pub task_entry : ℕ
  pub init : Bool
  pub always : Bool

-- EMOS_TASK_PRIORITY_NUMBER
abbrev pub priority_number : ℕ
priority_number = 3

-- What the bus asks of a table: `emos_entry_find` and `emos_entry_get_by_index`.
pub record Registry : Type 0 where
  pub find : ℕ → Option Entry
  pub get_by_index : ℕ → Option Entry

-- The loop of `emos_entry_find`, the same in both files.
unfoldable pub find_entry : (task_id : ℕ) → List Entry → Option Entry
find_entry task_id [] = none
find_entry task_id (e ∷ es) = if e.task_id == task_id then some e else find_entry task_id es

-- The loop of `emos_entry_id_is_duplicate`, with the `uint8_t` count of matches so far.
unfoldable pub count_matches : (task_id matches : ℕ) → List Entry → ℕ
count_matches task_id matches [] = matches
count_matches task_id matches (e ∷ es) =
    count_matches task_id (if e.task_id == task_id then u8 (matches + 1) else matches) es

unfoldable pub id_is_duplicate : List Entry → Entry → Bool
id_is_duplicate entries needle = ltb 1 (count_matches needle.task_id 0 entries)

-- The checks that `emos_entries_init` makes of one entry of the table.
unfoldable pub check_entry : List Entry → Entry → Rc
check_entry entries e =
    if leb priority_number e.priority || (e.task_entry == 0)
    then err einval
    else if id_is_duplicate entries e
    then err ealready
    else ok

-- The loop of `emos_entries_init` over the rest of the table: the first failure, or 0.
unfoldable pub check_entries : List Entry → List Entry → Rc
check_entries entries [] = ok
check_entries entries (e ∷ es) = elim (check_entry entries e) [
  | ok ↦ check_entries entries es
  | err c ↦ err c
]
