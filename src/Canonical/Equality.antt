-- ===== src/Canonical/Equality.antt =====
-- Python's `==` on the values of app/canonical.py, as app/verify.py compares them: a Boolean equals its
-- number, and the order of the fields does not matter.
use ab_b1b34dfe_mgf1_ocsp_bu.Prelude.{ℕ, suc, none, some, Bool, true, false, ◌&&◌, ◌==◌, str_eq}
use ab_b1b34dfe_mgf1_ocsp_bu.Prelude.Int.{ℤ, pos, negsuc}
use ab_b1b34dfe_mgf1_ocsp_bu.Canonical.{
  Json, null, bool, int, str, arr, obj, Items, nil, cons, Fields, end, field, field_of,
}

abbrev pub count_fields : Fields → ℕ
count_fields end = 0
count_fields (field k v fs) = suc (count_fields fs)

abbrev pub int_eq : ℤ → ℤ → Bool
int_eq (pos a) (pos b) = a == b
int_eq (negsuc a) (negsuc b) = a == b
int_eq _ _ = false

abbrev pub number_of : Bool → ℤ
number_of true = pos 1
number_of false = pos 0

unfoldable mutual
  unfolding field_of

  pub json_eq : Json → Json → Bool
  json_eq null null = true
  json_eq (bool a) (bool b) = int_eq (number_of a) (number_of b)
  json_eq (bool a) (int b) = int_eq (number_of a) b
  json_eq (int a) (bool b) = int_eq a (number_of b)
  json_eq (int a) (int b) = int_eq a b
  json_eq (str a) (str b) = str_eq a b
  json_eq (arr xs) (arr ys) = items_eq xs ys
  json_eq (obj fs) (obj gs) = count_fields fs == count_fields gs && fields_within fs gs
  json_eq _ _ = false

  pub items_eq : Items → Items → Bool
  items_eq nil nil = true
  items_eq (cons x xs) (cons y ys) = json_eq x y && items_eq xs ys
  items_eq _ _ = false

  -- each field of the first is in the second with an equal value
  pub fields_within : Fields → Fields → Bool
  fields_within end gs = true
  fields_within (field k v fs) gs =
      elim (field_of k gs) [ none ↦ false | some w ↦ json_eq v w ] && fields_within fs gs
