-- ===== src/Tuple/Compare.antt =====
-- foundationdb-tuple/src/element.rs: the order of elements, and the order of byte strings.
pub mod Bytewise
pub mod Numbers
pub mod FirstBytes
pub mod Packed
pub mod Total
pub mod Reading
use foundationdb_rs.Prelude.{
  ℕ, List, [], ◌∷◌, Bool, true, false, if◌then◌else◌, ℤ, pos, negsuc, compare, Ordering,
}
use foundationdb_rs.Tuple.Codes.{
  nil_code, bytes_code, string_code, nested_code, intzero, float_code, double_code, false_code,
  true_code, versionstamp_code,
}
use foundationdb_rs.Tuple.Floats.{fx_to_be_bytes}
use foundationdb_rs.Tuple.Element.{
  Element, Elements, nil, bytes, string, tuple, int, float, double, bool, versionstamp, no_more,
  more,
}

-- `Ordering::then_with`
abbrev pub then_with : Ordering → Ordering → Ordering
then_with Ordering.lt o = Ordering.lt
then_with Ordering.eq o = o
then_with Ordering.gt o = Ordering.gt

-- The order of `[u8]`, which is also the order of keys in the database.
abbrev pub cmp_bytes : List ℕ → List ℕ → Ordering
cmp_bytes [] [] = Ordering.eq
cmp_bytes [] (y ∷ ys) = Ordering.lt
cmp_bytes (x ∷ xs) [] = Ordering.gt
cmp_bytes (x ∷ xs) (y ∷ ys) = then_with (compare x y) (cmp_bytes xs ys)

abbrev pub cmp_int : ℤ → ℤ → Ordering
cmp_int (pos a) (pos b) = compare a b
cmp_int (pos a) (negsuc b) = Ordering.gt
cmp_int (negsuc a) (pos b) = Ordering.lt
cmp_int (negsuc a) (negsuc b) = compare b a

-- `Element::code`
unfoldable pub code : Element → ℕ
code nil = nil_code
code (bytes v) = bytes_code
code (string v) = string_code
code (tuple vs) = nested_code
code (int i) = intzero
code (float f) = float_code
code (double f) = double_code
code (bool b) = if b then true_code else false_code
code (versionstamp v) = versionstamp_code

-- `CmpElement::cmp`: `cmp_same` is its match, after the codes have been compared.
unfoldable mutual
  unfolding code fx_to_be_bytes

  pub cmp_same : Element → Element → Ordering
  cmp_same (bytes a) (bytes b) = cmp_bytes a b
  cmp_same (string a) (string b) = cmp_bytes a b
  cmp_same (tuple vs) (tuple ws) = cmp_elements vs ws
  cmp_same (int a) (int b) = cmp_int a b
  cmp_same (float a) (float b) = cmp_bytes (fx_to_be_bytes 4 a) (fx_to_be_bytes 4 b)
  cmp_same (double a) (double b) = cmp_bytes (fx_to_be_bytes 8 a) (fx_to_be_bytes 8 b)
  cmp_same (versionstamp a) (versionstamp b) = cmp_bytes a b
  cmp_same _ _ = Ordering.eq

  -- `Iterator::cmp` of the values of two tuples
  pub cmp_elements : Elements → Elements → Ordering
  cmp_elements no_more no_more = Ordering.eq
  cmp_elements no_more (more w ws) = Ordering.lt
  cmp_elements (more v vs) no_more = Ordering.gt
  cmp_elements (more v vs) (more w ws) =
      then_with (then_with (compare (code v) (code w)) (cmp_same v w)) (cmp_elements vs ws)

unfoldable pub cmp_element : Element → Element → Ordering
unfolding cmp_same
cmp_element v w = then_with (compare (code v) (code w)) (cmp_same v w)

-- `Element::cmp_values`
unfoldable pub cmp_values : Element → Elements
cmp_values (tuple vs) = vs
cmp_values v = more v no_more

-- `Element::cmp_at_root`, which is `Ord for Element`
unfoldable pub cmp_at_root : Element → Element → Ordering
unfolding cmp_values
cmp_at_root a b = cmp_elements (cmp_values a) (cmp_values b)
