-- ===== src/Ble/Staged.antt =====
-- A GATT service as it is staged: its attributes are the service, then for each characteristic its
-- declaration, its value and, if it can notify, its configuration.
use mathlib.Core.List.{append_assoc}
use rtbus.Base.{
  ℕ, zero, suc, ◌+◌, ◌≡◌, ◌∙◌, refl, ap, Bool, true, false, List, [], ◌∷◌, ◌++◌, Option, none, some,
  arith, ltb, if◌then◌else◌, length, get_or, set, replicate,
}
use rtbus.Ble.{
  Gatt, Chrc, Attr, blank, primary, declaration, value_of, ccc_of, blank_chrc, value_max,
}
use rtbus.Ble.Register.{
  Masks, ChrcDef, copy_bytes, properties_of, value_perm_of, ccc_perm_of, cccd_define, define_value,
}

-- The bytes of a value, if it can be copied.
abbrev pub bytes_or_none : Option (List ℕ) → List ℕ
bytes_or_none none = []
bytes_or_none (some bytes) = bytes

abbrev pub value_bytes : ChrcDef → List ℕ
value_bytes def = bytes_or_none (copy_bytes def.value def.value_len)

-- A value of at most 32 bytes, given unless it is empty.
abbrev pub IsGiven : ChrcDef → Type 0
IsGiven def =
    (ltb value_max def.value_len ≡ false)
    × (copy_bytes def.value def.value_len ≡ some (value_bytes def))

module _ (m : Masks) where
  abbrev pub notifies : ChrcDef → Bool
  notifies def = m.has_notify (properties_of m def)

  abbrev pub ccc_attrs : (i : ℕ) → ChrcDef → Bool → List Attr
  ccc_attrs i def true = ccc_of i (ccc_perm_of m def) ∷ []
  ccc_attrs i def false = []

  -- The attributes of the characteristics from number `i` on.
  abbrev pub layout_from : (i : ℕ) → List ChrcDef → List Attr
  layout_from i [] = []
  layout_from i (def ∷ defs) =
      declaration i m.perm_read
      ∷ value_of i (value_perm_of m def)
      ∷ (ccc_attrs i def (notifies def) ++ layout_from (i + 1) defs)

  abbrev pub layout : (service_uuid : List ℕ) → List ChrcDef → List Attr
  layout service_uuid defs = primary service_uuid m.perm_read ∷ layout_from 0 defs

  -- A characteristic whose declaration is attribute `at`.
  abbrev pub chrc_at : (at : ℕ) → ChrcDef → Bool → Chrc
  chrc_at at def with_ccc = record {
    notify_enabled = false;
    has_ccc = with_ccc;
    value_attr_index = at + 1;
    ccc_attr_index = if with_ccc then at + 2 else 0;
    value_uuid = def.value_uuid;
    properties = properties_of m def;
    value = value_bytes def;
  }

  abbrev pub chrcs_from : (at : ℕ) → List ChrcDef → List Chrc
  chrcs_from at [] = []
  chrcs_from at (def ∷ defs) =
      chrc_at at def (notifies def) ∷ chrcs_from (if notifies def then at + 2 + 1 else at + 2) defs

-- A slot with some attributes and characteristics done and the others blank.
pub record Shape (g : Gatt) (done : List Attr) (k : ℕ) (cdone : List Chrc) (kc : ℕ) : Type 0 where
  pub attrs : g.attrs ≡ done ++ replicate k blank
  pub chrcs : g.chrcs ≡ cdone ++ replicate kc blank_chrc

set-append {ℓ} :
    {A : Type ℓ} (xs : List A) (y : A) (ys : List A) (i : ℕ) (v : A)
    → i ≡ length xs
    → set (xs ++ (y ∷ ys)) i v ≡ (xs ++ v ∷ []) ++ ys
set-append [] y ys zero v h = refl
set-append [] y ys (suc i) v h = absurd (omega (arith, h))
set-append (x ∷ xs) y ys zero v h = absurd (omega (arith, h))
set-append (x ∷ xs) y ys (suc i) v h = ap (λ z. x ∷ z) (set-append xs y ys i v (omega (arith, h)))

pub get_or-append {ℓ} :
    {A : Type ℓ} (xs : List A) (y : A) (ys : List A) (i : ℕ) (d : A)
    → i ≡ length xs
    → get_or (xs ++ (y ∷ ys)) i d ≡ y
get_or-append [] y ys zero d h = refl
get_or-append [] y ys (suc i) d h = absurd (omega (arith, h))
get_or-append (x ∷ xs) y ys zero d h = absurd (omega (arith, h))
get_or-append (x ∷ xs) y ys (suc i) d h = get_or-append xs y ys i d (omega (arith, h))

pub length-snoc {ℓ} : {A : Type ℓ} (xs : List A) (x : A) → length (xs ++ x ∷ []) ≡ length xs + 1
length-snoc [] x = omega arith
length-snoc (y ∷ xs) x = omega (arith, length-snoc xs x)

-- A write to the first blank place.
set-Shape {ℓ} :
    {A : Type ℓ} (ys done : List A) (y : A) (k i : ℕ) (v : A)
    → ys ≡ done ++ replicate (suc k) y
    → i ≡ length done
    → set ys i v ≡ (done ++ v ∷ []) ++ replicate k y
set-Shape ys done y k i v e h = ap (λ z. set z i v) e ∙ set-append done y (replicate k y) i v h

-- A write to the last place that is done.
set_last {ℓ} :
    {A : Type ℓ} (ys done : List A) (y : A) (zs : List A) (i : ℕ) (v : A)
    → ys ≡ (done ++ y ∷ []) ++ zs
    → i ≡ length done
    → set ys i v ≡ (done ++ v ∷ []) ++ zs
set_last ys done y zs i v e h =
    ap (λ z. set z i v) (e ∙ append_assoc done (y ∷ []) zs) ∙ set-append done y zs i v h

get_last {ℓ} :
    {A : Type ℓ} (ys done : List A) (y : A) (zs : List A) (i : ℕ) (d : A)
    → ys ≡ (done ++ y ∷ []) ++ zs
    → i ≡ length done
    → get_or ys i d ≡ y
get_last ys done y zs i d e h =
    ap (λ z. get_or z i d) (e ∙ append_assoc done (y ∷ []) zs) ∙ get_or-append done y zs i d h

module _ (m : Masks) where
  pub define_value-Shape :
      (g : Gatt) (done : List Attr) (k : ℕ) (cdone : List Chrc) (kc i at : ℕ) (def : ChrcDef)
      → Shape g done (suc (suc k)) cdone (suc kc)
      → at ≡ length done
      → i ≡ length cdone
      → Shape
          (define_value m g i at def (record blank_chrc { value = value_bytes def }))
          ((done ++ declaration i m.perm_read ∷ []) ++ value_of i (value_perm_of m def) ∷ [])
          k
          (cdone ++ chrc_at m at def false ∷ [])
          kc
  unfolding define_value
  define_value-Shape g done k cdone kc i at def s h hc = record {
    attrs =
        set-Shape (set g.attrs at (declaration i m.perm_read))
          (done ++ declaration i m.perm_read ∷ []) blank k (at + 1)
          (value_of i (value_perm_of m def))
          (set-Shape g.attrs done blank (suc k) at (declaration i m.perm_read) s.attrs h)
          (omega (arith, h, length-snoc done (declaration i m.perm_read)));
    chrcs = set-Shape g.chrcs cdone blank_chrc kc i (chrc_at m at def false) s.chrcs hc;
  }

  pub cccd_define-Shape :
      (g : Gatt) (done : List Attr) (k : ℕ) (cdone : List Chrc) (kc i at : ℕ) (def : ChrcDef)
      → Shape g done (suc k) (cdone ++ chrc_at m at def false ∷ []) kc
      → at + 2 ≡ length done
      → i ≡ length cdone
      → Shape
          (cccd_define m g i (at + 2) (ccc_perm_of m def))
          (done ++ ccc_of i (ccc_perm_of m def) ∷ [])
          k
          (cdone ++ chrc_at m at def true ∷ [])
          kc
  unfolding cccd_define
  cccd_define-Shape g done k cdone kc i at def s h hc = record {
    attrs = set-Shape g.attrs done blank k (at + 2) (ccc_of i (ccc_perm_of m def)) s.attrs h;
    chrcs =
        rw
          (get_last g.chrcs cdone (chrc_at m at def false) (replicate kc blank_chrc) i blank_chrc
            s.chrcs hc)
          (set_last g.chrcs cdone (chrc_at m at def false) (replicate kc blank_chrc) i
            (chrc_at m at def true) s.chrcs hc);
  }
