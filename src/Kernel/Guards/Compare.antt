-- ===== src/Kernel/Guards/Compare.antt =====
-- What Python's operators do to the values of a guard: truth, `==`, `<`, `in` and `len`, for
-- src/nilscript/kernel/guards.py. A bool counts as 0 or 1.
use Prim.Native.Nat.{compare, Ordering}
use Prim.Native.Char.{code}
use nilscript.Base.{
  ℕ, suc, Bool, true, false, not, ◌&&◌, ◌||◌, String, ◌==◌, Option, none, some, eqb, if◌then◌else◌,
}
use nilscript.Kernel.Value.{
  ℤ, pos, negsuc, Value, null, bool, int, str, list, dict, Items, nil, cons, Fields, end, field,
  get_field,
}
use nilscript.Kernel.References.{strip_prefix}
use nilscript.Kernel.Guards.{Result, ok, guard_error, ◌>>=◌}
use nilscript.Kernel.Guards.Words.{text_length}

-- bool(value)
unfoldable pub truth : Value → Bool
truth null = false
truth (bool b) = b
truth (int (pos n)) = not (eqb n 0)
truth (int (negsuc n)) = true
truth (str s) = not (s == "")
truth (list nil) = false
truth (list (cons v xs)) = true
truth (dict end) = false
truth (dict (field k v fs)) = true

abbrev pub bit : Bool → ℤ
bit true = pos 1
bit false = pos 0

unfoldable pub compare_int : ℤ → ℤ → Ordering
compare_int (pos a) (pos b) = compare a b
compare_int (pos a) (negsuc b) = Ordering.gt
compare_int (negsuc a) (pos b) = Ordering.lt
compare_int (negsuc a) (negsuc b) = compare b a

abbrev pub is_eq : Ordering → Bool
is_eq Ordering.eq = true
is_eq _ = false

abbrev pub count_items : Items → ℕ
count_items nil = 0
count_items (cons v xs) = suc (count_items xs)

abbrev pub count_fields : Fields → ℕ
count_fields end = 0
count_fields (field k v fs) = suc (count_fields fs)

-- left == n, for a number n.
abbrev pub same_number : ℤ → Value → Bool
same_number n (bool b) = is_eq (compare_int n (bit b))
same_number n (int m) = is_eq (compare_int n m)
same_number n _ = false

-- left == right. The order of a dict's keys does not count.
unfoldable mutual
  unfolding compare_int get_field

  pub value_equal : Value → Value → Bool
  value_equal null null = true
  value_equal (bool b) w = same_number (bit b) w
  value_equal (int n) w = same_number n w
  value_equal (str s) (str t) = s == t
  value_equal (list xs) (list ys) = items_equal xs ys
  value_equal (dict fs) (dict gs) = eqb (count_fields fs) (count_fields gs) && fields_within fs gs
  value_equal _ _ = false

  pub items_equal : Items → Items → Bool
  items_equal nil nil = true
  items_equal (cons v xs) (cons w ys) = value_equal v w && items_equal xs ys
  items_equal _ _ = false

  pub fields_within : Fields → Fields → Bool
  fields_within end gs = true
  fields_within (field k v fs) gs = elim (get_field k gs) [
    | none ↦ false
    | some w ↦ value_equal v w && fields_within fs gs
  ]

unfoldable pub compare_text : String → String → Ordering
compare_text String.[] String.[] = Ordering.eq
compare_text String.[] (String.◌∷◌ d t) = Ordering.lt
compare_text (String.◌∷◌ c s) String.[] = Ordering.gt
compare_text (String.◌∷◌ c s) (String.◌∷◌ d t) = elim (compare (code c) (code d)) [
  | Ordering.lt ↦ Ordering.lt
  | Ordering.gt ↦ Ordering.gt
  | Ordering.eq ↦ compare_text s t
]

abbrev pub number_order : ℤ → Value → Result Ordering
number_order n (bool b) = ok (compare_int n (bit b))
number_order n (int m) = ok (compare_int n m)
number_order n _ = guard_error

-- How two values are ordered; an error is a TypeError. Lists are ordered by the first items that
-- are not equal.
unfoldable mutual
  unfolding compare_int compare_text value_equal

  pub order : Value → Value → Result Ordering
  order (bool b) w = number_order (bit b) w
  order (int n) w = number_order n w
  order (str s) (str t) = ok (compare_text s t)
  order (list xs) (list ys) = order_items xs ys
  order _ _ = guard_error

  pub order_items : Items → Items → Result Ordering
  order_items nil nil = ok Ordering.eq
  order_items nil (cons w ys) = ok Ordering.lt
  order_items (cons v xs) nil = ok Ordering.gt
  order_items (cons v xs) (cons w ys) = elim (value_equal v w) [
    | true ↦ order_items xs ys
    | false ↦ order v w
  ]

-- left in xs
unfoldable pub among : Value → Items → Bool
unfolding value_equal
among v nil = false
among v (cons w xs) = value_equal v w || among v xs

-- s in t, for texts.
unfoldable pub is_within : String → String → Bool
is_within s String.[] = s == ""
is_within s (String.◌∷◌ c t) = elim (strip_prefix s (String.◌∷◌ c t)) [
  | some rest ↦ true
  | none ↦ is_within s t
]

abbrev pub is_key : Option Value → Bool
is_key none = false
is_key (some v) = true

-- left in fs: a list or a dict is no key, since it has no hash.
abbrev pub key_in : Value → Fields → Result Bool
key_in (str s) fs = ok (is_key (get_field s fs))
key_in (list xs) fs = guard_error
key_in (dict gs) fs = guard_error
key_in _ fs = ok false

abbrev pub text_in : Value → String → Result Bool
text_in (str s) t = ok (is_within s t)
text_in _ t = guard_error

-- left in right
unfoldable pub contains : Value → Value → Result Bool
unfolding among is_within get_field
contains left (list xs) = ok (among left xs)
contains left (str t) = text_in left t
contains left (dict fs) = key_in left fs
contains left _ = guard_error

abbrev pub is_lt : Ordering → Bool
is_lt Ordering.lt = true
is_lt _ = false

abbrev pub is_gt : Ordering → Bool
is_gt Ordering.gt = true
is_gt _ = false

abbrev pub ordered : (Ordering → Bool) → Result Ordering → Result Bool
ordered test r = r >>= λ o. ok (test o)

-- `_apply`
unfoldable pub apply : String → Value → Value → Result Bool
unfolding value_equal contains order
apply op left right =
    if op == "=="
    then ok (value_equal left right)
    else if op == "!="
    then ok (not (value_equal left right))
    else if op == "in"
    then contains left right
    else if op == "<"
    then ordered is_lt (order left right)
    else if op == "<="
    then ordered (λ o. not (is_gt o)) (order left right)
    else if op == ">"
    then ordered is_gt (order left right)
    else ordered (λ o. not (is_lt o)) (order left right)

-- `len` of the operand of `size`.
unfoldable pub size : Value → Result ℕ
size (list xs) = ok (count_items xs)
size (str s) = ok (text_length s)
size (dict fs) = ok (count_fields fs)
size _ = guard_error
