-- ===== src/Entries/Tests.antt =====
-- Instances of the theorems about task tables on a table of two entries.
use rtbus.Base.{◌<◌, ◌≡◌, ◌↔◌, true, false, List, [], ◌∷◌, arith, none, some, take}
use rtbus.Base.Rc.{ok}
use rtbus.Entries.{Entry}
use rtbus.Entries.Table
use rtbus.Entries.Unique.{IsTable}
use rtbus.Entries.Registered.{table_accepted}

abbrev serial : Entry
serial = record { task_id = 7; priority = 0; task_entry = 256; init = true; always = false }

abbrev radio : Entry
radio = record { task_id = 9; priority = 2; task_entry = 512; init = false; always = true }

abbrev entries : List Entry
entries = serial ∷ radio ∷ []

abbrev empty_table : Table.Table
empty_table = record { entries = none; count = 0 }

table_accepted_example :
    ((Table.emos_entries_init empty_table (some entries) 2).rc ≡ ok)
    ↔ ((0 < 2) × IsTable (take 2 entries))
table_accepted_example = table_accepted empty_table entries 2 (omega arith)
