-- ===== src/Entries/Registered.antt =====
-- What the bus can rely on once a table is registered.
use rtbus.Base.{
  ℕ, zero, suc, ◌+◌, ◌<◌, ◌^◌, ◌≡◌, ◌↔◌, true, false, List, [], ◌∷◌, some, ◌==◌, length, arith, All,
  inl, inr, Bool-cases, ==_iff, ap, take, get_elem?, length-take,
}
use rtbus.Base.Word.{u8}
use rtbus.Base.Rc.{ok}
use rtbus.Entries.{Entry, find_entry, check_entries}
use rtbus.Entries.Unique.{
  has_id, DistinctIds, IsUsable, IsTable, OneMatch, check_entries-IsTable, check_entry-pass,
  OneMatch-distinct,
}
use rtbus.Entries.Table
use rtbus.Entries.Table.{Table}
use rtbus.Entries.Section

has_id-get_elem? :
    (es : List Entry) (i : ℕ) (e : Entry) → get_elem? es i ≡ some e → has_id e.task_id es ≡ true
has_id-get_elem? [] i e h = cc
has_id-get_elem? (x ∷ xs) zero e h = ground arith
has_id-get_elem? (x ∷ xs) (suc i) e h = ground (arith, has_id-get_elem? xs i e h)

-- In a table of distinct ids the entry at a position is found by its id.
pub find_entry-get_elem? :
    (es : List Entry) (i : ℕ) (e : Entry)
    → DistinctIds es
    → get_elem? es i ≡ some e
    → find_entry e.task_id es ≡ some e
unfolding find_entry
find_entry-get_elem? [] i e d h = cc
find_entry-get_elem? (x ∷ xs) zero e d h = ground arith
find_entry-get_elem? (x ∷ xs) (suc i) e d h =
    let found = has_id-get_elem? xs i e h in
    elim (Bool-cases (x.task_id == e.task_id)) [
      | inl p ↦
          let same : x.task_id ≡ e.task_id = (==_iff x.task_id e.task_id).0 p in
          absurd (ground (arith, found, d.0, ap (λ (z : ℕ). has_id z xs) same))
      | inr p ↦ rw p (find_entry-get_elem? xs i e d.1 h)
    ]

-- In a table of usable entries, an entry that is found by an id has that id and is usable.
pub find_entry_sound :
    (es : List Entry) (i : ℕ) (e : Entry)
    → All IsUsable es
    → find_entry i es ≡ some e
    → (e.task_id ≡ i) × IsUsable e
unfolding find_entry
find_entry_sound [] i e u h = cc
find_entry_sound (x ∷ xs) i e u h = elim (Bool-cases (x.task_id == i)) [
  | inl p ↦ let same : x ≡ e = ground arith in rw (← same) ((==_iff x.task_id i).0 p, u.0)
  | inr p ↦ find_entry_sound xs i e u.1 (ground arith)
]

init-ok :
    (old : Table) (es : List Entry) (n : ℕ)
    → 0 < n
    → check_entries (take n es) (take n es) ≡ ok
    → Table.emos_entries_init old (some es) n
      ≡ record { rc = ok; count = n; table = record { entries = some es; count = n } }
unfolding Table.emos_entries_init
init-ok old es n pos h = let ne : (n == 0) ≡ false = ground arith in rw (ne, h)

-- The table that the caller passes is accepted exactly when it is not empty and its first
-- `entry_count` entries are usable and have distinct ids.
pub table_accepted :
    (old : Table) (es : List Entry) (n : ℕ)
    → n < 2 ^ 8
    → ((Table.emos_entries_init old (some es) n).rc ≡ ok) ↔ ((0 < n) × IsTable (take n es))
unfolding Table.emos_entries_init
table_accepted old es n small =
    let short : length (take n es) < 2 ^ 8 = omega (arith, length-take n es) in
    (
      λ h. (ground arith, (check_entries-IsTable (take n es) short).0 (ground arith)),
      λ t. ap (λ r. r.rc) (init-ok old es n t.0 ((check_entries-IsTable (take n es) short).1 t.1)),
    )

-- A registered table finds each of its entries by its id.
pub table_find :
    (old : Table) (es : List Entry) (n i : ℕ) (e : Entry)
    → n < 2 ^ 8
    → (Table.emos_entries_init old (some es) n).rc ≡ ok
    → get_elem? (take n es) i ≡ some e
    → Table.emos_entry_find (Table.emos_entries_init old (some es) n).table e.task_id ≡ some e
unfolding Table.emos_entry_find
table_find old es n i e small h at =
    let t = (table_accepted old es n small).0 h in
    let short : length (take n es) < 2 ^ 8 = omega (arith, length-take n es) in
    rw (init-ok old es n t.0 ((check_entries-IsTable (take n es) short).1 t.1))
      (find_entry-get_elem? (take n es) i e t.1.1 at)

count_entries-ok :
    (all es : List Entry) (n : ℕ)
    → length all < 2 ^ 8
    → n + length es < 2 ^ 8
    → All IsUsable es
    → OneMatch all es
    → Section.count_entries all n es ≡ (ok, n + length es)
unfolding Section.count_entries
count_entries-ok all [] n h k u m = ground arith
count_entries-ok all (e ∷ es) n h k u m =
    rw (check_entry-pass all e h u.0 m.0, Section.count_entries)
      (ground (arith, count_entries-ok all es (u8 (n + 1)) h (omega arith) u.1 m.1))

-- A linker section of fewer than 256 usable entries with distinct ids is accepted with its length.
pub section_accepted :
    (es : List Entry)
    → 0 < length es
    → length es < 2 ^ 8
    → IsTable es
    → Section.emos_entries_init es ≡ (ok, length es)
unfolding Section.emos_entries_init
section_accepted es pos short t =
    let e = count_entries-ok es es 0 short (omega arith) t.0 (OneMatch-distinct es es t.1) in
    ground (arith, e)
