-- ===== src/Canonical/Order.antt =====
-- The canonical text of a JSON object in app/canonical.py does not depend on the order of its fields.
use ab_b1b34dfe_mgf1_ocsp_bu.Prelude.{
  String, List, [], ◌∷◌, str_le_total, str_le_trans, str_le_antisymm, insert_by, sort_by, ◌≡◌, ◌≢◌,
  refl, ap, ◌∙◌, arith,
}
use ab_b1b34dfe_mgf1_ocsp_bu.Canonical.{
  Json, obj, Fields, field, dump, dump_fields, Shown, shown_le,
}

-- the same fields in another order, by exchanges of neighbours with different keys
pub data Reordered : Fields → Fields → Type 0 where
  same : (fs : Fields) → Reordered fs fs
  swap :
      (j k : String) (v w : Json) (fs : Fields)
      → j ≢ k
      → Reordered (field j v (field k w fs)) (field k w (field j v fs))
  keep :
      (k : String) (v : Json) (fs gs : Fields)
      → Reordered fs gs
      → Reordered (field k v fs) (field k v gs)
  chain : (fs gs hs : Fields) → Reordered fs gs → Reordered gs hs → Reordered fs hs

insert_by-swap :
    (x y : Shown) (l : List Shown)
    → x.0 ≢ y.0
    → insert_by shown_le x (insert_by shown_le y l) ≡ insert_by shown_le y (insert_by shown_le x l)
unfolding shown_le
insert_by-swap x y [] n = ground (arith, str_le_total x.0 y.0, str_le_antisymm x.0 y.0)
insert_by-swap x y (z ∷ zs) n = ground (
  arith,
  str_le_total x.0 y.0,
  str_le_antisymm x.0 y.0,
  str_le_trans x.0 y.0 z.0,
  str_le_trans y.0 x.0 z.0,
  insert_by-swap x y zs,
)

sort_by-Reordered :
    {fs gs : Fields}
    → Reordered fs gs
    → sort_by shown_le (dump_fields fs) ≡ sort_by shown_le (dump_fields gs)
unfolding dump_fields
sort_by-Reordered (same fs) = refl
sort_by-Reordered (swap j k v w fs n) = insert_by-swap _ _ (sort_by shown_le (dump_fields fs)) n
sort_by-Reordered (keep k v fs gs r) = ap (insert_by shown_le _) (sort_by-Reordered r)
sort_by-Reordered (chain fs gs hs r s) = sort_by-Reordered r ∙ sort_by-Reordered s

-- Two objects with the same fields in different orders have one canonical text.
pub dump-Reordered : {fs gs : Fields} → Reordered fs gs → dump (obj fs) ≡ dump (obj gs)
unfolding dump
dump-Reordered r = rw (sort_by-Reordered r) refl
