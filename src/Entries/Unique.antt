-- ===== src/Entries/Unique.antt =====
-- Counting the matches of a task id finds the duplicates.
use rtbus.Base.{
  ℕ, ◌+◌, ◌≤◌, ◌<◌, ◌^◌, ◌≡◌, refl, Bool, true, false, ◌||◌, List, [], ◌∷◌, ◌==◌, ◌↔◌,
  if◌then◌else◌, length, arith, All, inl, inr, Bool-cases, ==_iff,
}
use rtbus.Base.Word.{u8}
use rtbus.Base.Rc.{ok}
use rtbus.Entries.{
  Entry, priority_number, count_matches, id_is_duplicate, check_entry, check_entries,
}

abbrev pub has_id : ℕ → List Entry → Bool
has_id i [] = false
has_id i (e ∷ es) = (e.task_id == i) || has_id i es

abbrev pub DistinctIds : List Entry → Type 0
DistinctIds [] = Unit
DistinctIds (e ∷ es) = (has_id e.task_id es ≡ false) × DistinctIds es

abbrev pub IsUsable : Entry → Type 0
IsUsable e = (e.priority < priority_number) × (0 < e.task_entry)

-- What `emos_entries_init` is to accept.
abbrev pub IsTable : List Entry → Type 0
IsTable es = All IsUsable es × DistinctIds es

pub matches : ℕ → List Entry → ℕ
matches i [] = 0
matches i (e ∷ es) = (if e.task_id == i then 1 else 0) + matches i es

matches-le : (i : ℕ) (es : List Entry) → matches i es ≤ length es
unfolding matches
matches-le i [] = omega arith
matches-le i (e ∷ es) = ground (arith, matches-le i es)

-- Up to 255 entries the `uint8_t` does not wrap.
count_matches-matches :
    (i n : ℕ) (es : List Entry) → n + length es < 2 ^ 8 → count_matches i n es ≡ n + matches i es
unfolding count_matches matches
count_matches-matches i n [] h = omega arith
count_matches-matches i n (e ∷ es) h = elim (Bool-cases (e.task_id == i)) [
  | inl p ↦ rw p (omega (arith, count_matches-matches i (u8 (n + 1)) es (omega arith)))
  | inr p ↦ rw p (omega (arith, count_matches-matches i n es (omega arith)))
]

matches-none : (i : ℕ) (es : List Entry) → has_id i es ≡ false → matches i es ≡ 0
unfolding matches
matches-none i [] h = refl
matches-none i (e ∷ es) h = ground (arith, matches-none i es)

matches-some : (i : ℕ) (es : List Entry) → has_id i es ≡ true → 0 < matches i es
unfolding matches
matches-some i [] h = absurd (ground arith)
matches-some i (e ∷ es) h = ground (arith, matches-some i es)

matches-distinct : (i : ℕ) (es : List Entry) → DistinctIds es → matches i es ≤ 1
unfolding matches
matches-distinct i [] d = omega arith
matches-distinct i (e ∷ es) d = elim (Bool-cases (e.task_id == i)) [
  | inl p ↦
      let same : e.task_id ≡ i = (==_iff e.task_id i).0 p in
      rw p (omega (arith, matches-none i es (rw same at d.0)))
  | inr p ↦ rw p (omega (arith, matches-distinct i es d.1))
]

-- Every entry of the rest `es` has at most one match in the whole table.
abbrev pub OneMatch : List Entry → List Entry → Type 0
OneMatch all es = All (λ e. matches e.task_id all ≤ 1) es

OneMatch-tail : (e : Entry) (all es : List Entry) → OneMatch (e ∷ all) es → OneMatch all es
unfolding matches
OneMatch-tail e all [] h = tt
OneMatch-tail e all (x ∷ es) h = (omega (arith, h.0), OneMatch-tail e all es h.1)

pub distinct-OneMatch : (es : List Entry) → OneMatch es es → DistinctIds es
unfolding matches
distinct-OneMatch [] h = tt
distinct-OneMatch (e ∷ es) h = (
  elim (Bool-cases (has_id e.task_id es)) [
    | inl p ↦ absurd (ground (arith, h.0, matches-some e.task_id es p))
    | inr p ↦ p
  ],
  distinct-OneMatch es (OneMatch-tail e es es h.1),
)

pub OneMatch-distinct : (all es : List Entry) → DistinctIds all → OneMatch all es
OneMatch-distinct all [] d = tt
OneMatch-distinct all (e ∷ es) d = (matches-distinct e.task_id all d, OneMatch-distinct all es d)

-- Passing the checks, entry by entry.
pub check_entry-ok :
    (all : List Entry) (e : Entry)
    → length all < 2 ^ 8
    → check_entry all e ≡ ok
    → IsUsable e × (matches e.task_id all ≤ 1)
unfolding check_entry id_is_duplicate
check_entry-ok all e h k = ground (arith, count_matches-matches e.task_id 0 all)

pub check_entry-pass :
    (all : List Entry) (e : Entry)
    → length all < 2 ^ 8
    → IsUsable e
    → matches e.task_id all ≤ 1
    → check_entry all e ≡ ok
unfolding check_entry id_is_duplicate
check_entry-pass all e h u m = ground (arith, count_matches-matches e.task_id 0 all)

check_entries-ok :
    (all es : List Entry)
    → length all < 2 ^ 8
    → check_entries all es ≡ ok
    → All IsUsable es × OneMatch all es
unfolding check_entries
check_entries-ok all [] h k = (tt, tt)
check_entries-ok all (e ∷ es) h k =
    ground (arith, check_entry-ok all e h, check_entries-ok all es h)

check_entries-pass :
    (all es : List Entry)
    → length all < 2 ^ 8
    → All IsUsable es
    → OneMatch all es
    → check_entries all es ≡ ok
unfolding check_entries
check_entries-pass all [] h u m = refl
check_entries-pass all (e ∷ es) h u m =
    rw (check_entry-pass all e h u.0 m.0, check_entries) (check_entries-pass all es h u.1 m.1)

-- The checks pass exactly on the tables of usable entries with distinct task ids.
pub check_entries-IsTable :
    (es : List Entry) → length es < 2 ^ 8 → (check_entries es es ≡ ok) ↔ IsTable es
check_entries-IsTable es h = (
  λ k. ((check_entries-ok es es h k).0, distinct-OneMatch es (check_entries-ok es es h k).1),
  λ t. check_entries-pass es es h t.0 (OneMatch-distinct es es t.1),
)
