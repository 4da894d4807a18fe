-- ===== src/HeaderTool/Component.antt =====
-- The tool makes a component exactly for symbols that make an application.
use rtbus.Base.{
  ℕ, ◌-◌, ◌^◌, ◌≤◌, ◌<◌, ◌≡◌, refl, sym, Bool, true, false, ◌||◌, ◌==◌, ltb, Option, none, some,
  List, arith, leb, if◌then◌else◌, length, ◌∙◌,
}
use rtbus.HeaderTool.{Symbols, component_file, validate_symbols, make_component}
use rtbus.HeaderTool.Built.{IsAccepted, component_file-IsAccepted}

-- Symbols that make an application: none of them is missing, and its data lie in its RAM, which is not
-- empty.
pub record IsLinked (s : Symbols) : Type 0 where
  pub slot_start : 0 < s.slot_start
  pub flash_start : 0 < s.flash_start
  pub entry : 0 < s.entry
  pub data_load : 0 < s.data_load
  pub data_start : 0 < s.data_start
  pub data_end : 0 < s.data_end
  pub bss_start : 0 < s.bss_start
  pub bss_end : 0 < s.bss_end
  pub ram_start : 0 < s.ram_start
  pub ram : s.ram_start < s.ram_end
  pub data_behind : s.ram_start ≤ s.data_start
  pub data_inside : s.data_end ≤ s.ram_end
  pub bss_behind : s.ram_start ≤ s.bss_start
  pub bss_inside : s.bss_end ≤ s.ram_end

-- The RAM from its first to its last symbol, for symbols that make an application.
data Sized (s : Symbols) : Option ℕ → Type 0 where
  unlinked : (IsLinked s → ⊥) → Sized s none
  sized : IsLinked s → Sized s (some (s.ram_end - s.ram_start))

or_false : (x y : Bool) → x ≡ false → y ≡ false → (x || y) ≡ false
or_false true y e f = e
or_false false y e f = f

nonzero : (n : ℕ) → 0 < n → (n == 0) ≡ false
nonzero n pos = ground (arith, pos)

differ : true ≡ false → ⊥
differ e = cc

validate_symbols-Sized : (s : Symbols) → Sized s (validate_symbols s)
unfolding validate_symbols
validate_symbols-Sized s =
    checked
      ((s.slot_start == 0)
        || (s.flash_start == 0)
        || (s.entry == 0)
        || (s.data_load == 0)
        || (s.data_start == 0)
        || (s.data_end == 0)
        || (s.bss_start == 0)
        || (s.bss_end == 0)
        || (s.ram_start == 0)
        || (s.ram_end == 0))
      (leb s.ram_end s.ram_start)
      (ltb s.data_start s.ram_start
        || ltb s.ram_end s.data_end
        || ltb s.bss_start s.ram_start
        || ltb s.ram_end s.bss_end)
      refl refl refl
  where
    checked :
        (x y z : Bool)
        → ((s.slot_start == 0)
            || (s.flash_start == 0)
            || (s.entry == 0)
            || (s.data_load == 0)
            || (s.data_start == 0)
            || (s.data_end == 0)
            || (s.bss_start == 0)
            || (s.bss_end == 0)
            || (s.ram_start == 0)
            || (s.ram_end == 0))
          ≡ x
        → leb s.ram_end s.ram_start ≡ y
        → (ltb s.data_start s.ram_start
            || ltb s.ram_end s.data_end
            || ltb s.bss_start s.ram_start
            || ltb s.ram_end s.bss_end)
          ≡ z
        → Sized s (
            if x
            then none
            else if y
            then none
            else if z
            then none
            else some (s.ram_end - s.ram_start))
    checked true y z h1 h2 h3 = unlinked λ k. differ (
        sym h1
        ∙ or_false _ _
            (or_false _ _
              (or_false _ _
                (or_false _ _
                  (or_false _ _
                    (or_false _ _
                      (or_false _ _
                        (or_false _ _
                          (or_false _ _ (nonzero _ k.slot_start) (nonzero _ k.flash_start))
                          (nonzero _ k.entry))
                        (nonzero _ k.data_load))
                      (nonzero _ k.data_start))
                    (nonzero _ k.data_end))
                  (nonzero _ k.bss_start))
                (nonzero _ k.bss_end))
              (nonzero _ k.ram_start))
            (ground (arith, k.ram)))
    checked false true z h1 h2 h3 = unlinked λ k. ground (arith, h2, k.ram)
    checked false false true h1 h2 h3 =
        unlinked λ k. ground (arith, h3, k.data_behind, k.data_inside, k.bss_behind, k.bss_inside)
    checked false false false h1 h2 h3 = sized (record {
      slot_start = ground (arith, h1);
      flash_start = ground (arith, h1);
      entry = ground (arith, h1);
      data_load = ground (arith, h1);
      data_start = ground (arith, h1);
      data_end = ground (arith, h1);
      bss_start = ground (arith, h1);
      bss_end = ground (arith, h1);
      ram_start = ground (arith, h1);
      ram = ground (arith, h2);
      data_behind = ground (arith, h3);
      data_inside = ground (arith, h3);
      bss_behind = ground (arith, h3);
      bss_inside = ground (arith, h3);
    })

-- What the tool makes: a file that the store accepts and that asks for all RAM of the application.
pub data Component (s : Symbols) : Option (List ℕ) → Type 0 where
  no_component : (IsLinked s → ⊥) → Component s none
  component :
      {c : List ℕ} → IsLinked s → IsAccepted c (s.ram_end - s.ram_start) → Component s (some c)

-- The tool makes a file exactly for symbols that make an application. With symbols of 32 bits and a
-- payload that is not empty and whose size fits into 32 bits, the file has a header that the store
-- finds valid, and the CRC that it computes, and it asks for the RAM between the two RAM symbols.
pub make_component-Component :
    (api_version : ℕ) (s : Symbols) (name version payload : List ℕ)
    → 0 < length payload
    → length payload < 2 ^ 32
    → s.ram_end < 2 ^ 32
    → Component s (make_component api_version s name version payload)
unfolding make_component
make_component-Component api_version s name version payload some_bytes small ram =
    made (validate_symbols s) (validate_symbols-Sized s)
  where
    made :
        (o : Option ℕ)
        → Sized s o
        → Component s (elim o [
          | none ↦ none
          | some ram_size ↦ some (component_file api_version s name version ram_size payload)
        ])
    made none (unlinked k) = no_component k
    made (some n) (sized k) = component k (
        component_file-IsAccepted api_version s name version (s.ram_end - s.ram_start) payload
          some_bytes small (omega (arith, ram)))
