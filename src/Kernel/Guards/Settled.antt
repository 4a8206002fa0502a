-- ===== src/Kernel/Guards/Settled.antt =====
-- What a token stands for, and what an operator makes of two values, needs no fuel.
use Prim.Native.Nat.{Ordering}
use nilscript.Base.{Bool, true, false, String, ◌==◌, Option, none, some, if◌then◌else◌}
use nilscript.Kernel.Value.{
  ℤ, pos, Value, null, bool, int, str, list, dict, Items, nil, cons, Fields,
}
use nilscript.Kernel.RunResult.{Context}
use nilscript.Kernel.References.{Reference, parse_text, resolve, strip_prefix}
use nilscript.Kernel.Guards.{
  Result, ok, guard_error, Kept, returns, raises, stops, Kept-bind, Token, Kind, ref, number, text,
  op, word,
}
use nilscript.Kernel.Guards.Enough.{Anything}
use nilscript.Kernel.Guards.Compare.{
  apply, order, order_items, number_order, contains, key_in, text_in, value_equal, size, ordered,
}
use nilscript.Kernel.Guards.Parser.{
  Start, group, listing, sizing, reference, literal, start, number_value, unquoted, keyword, minus,
  digits_value, has_dot, resolve_ref, found,
}

abbrev pub Settled : {A : Type 0} → Result A → Type 0
Settled r = Kept Anything r

Settled-if :
    {A : Type 0} (b : Bool) {r s : Result A} → Settled r → Settled s → Settled (if b then r else s)
Settled-if true h k = h
Settled-if false h k = k

number_order-Settled : (n : ℤ) (w : Value) → Settled (number_order n w)
number_order-Settled n (bool b) = returns tt
number_order-Settled n (int m) = returns tt
number_order-Settled n null = raises
number_order-Settled n (str s) = raises
number_order-Settled n (list xs) = raises
number_order-Settled n (dict fs) = raises

first_pair :
    (b : Bool) {r s : Result Ordering}
    → Settled r
    → Settled s
    → Settled (elim b [ true ↦ r | false ↦ s ])
first_pair true h k = h
first_pair false h k = k

mutual
  unfolding order

  order-Settled : (v w : Value) → Settled (order v w)
  order-Settled null w = raises
  order-Settled (bool b) w = number_order-Settled _ w
  order-Settled (int n) w = number_order-Settled _ w
  order-Settled (str s) null = raises
  order-Settled (str s) (bool b) = raises
  order-Settled (str s) (int n) = raises
  order-Settled (str s) (str t) = returns tt
  order-Settled (str s) (list ys) = raises
  order-Settled (str s) (dict gs) = raises
  order-Settled (list xs) null = raises
  order-Settled (list xs) (bool b) = raises
  order-Settled (list xs) (int n) = raises
  order-Settled (list xs) (str t) = raises
  order-Settled (list xs) (list ys) = order_items-Settled xs ys
  order-Settled (list xs) (dict gs) = raises
  order-Settled (dict fs) w = raises

  order_items-Settled : (xs ys : Items) → Settled (order_items xs ys)
  order_items-Settled nil nil = returns tt
  order_items-Settled nil (cons w ys) = returns tt
  order_items-Settled (cons v xs) nil = returns tt
  order_items-Settled (cons v xs) (cons w ys) =
      first_pair (value_equal v w) (order_items-Settled xs ys) (order-Settled v w)

text_in-Settled : (v : Value) (t : String) → Settled (text_in v t)
text_in-Settled (str s) t = returns tt
text_in-Settled null t = raises
text_in-Settled (bool b) t = raises
text_in-Settled (int n) t = raises
text_in-Settled (list xs) t = raises
text_in-Settled (dict fs) t = raises

key_in-Settled : (v : Value) (fs : Fields) → Settled (key_in v fs)
key_in-Settled (str s) fs = returns tt
key_in-Settled null fs = returns tt
key_in-Settled (bool b) fs = returns tt
key_in-Settled (int n) fs = returns tt
key_in-Settled (list xs) fs = raises
key_in-Settled (dict gs) fs = raises

contains-Settled : (v w : Value) → Settled (contains v w)
unfolding contains
contains-Settled v null = raises
contains-Settled v (bool b) = raises
contains-Settled v (int n) = raises
contains-Settled v (str t) = text_in-Settled v t
contains-Settled v (list xs) = returns tt
contains-Settled v (dict fs) = key_in-Settled v fs

ordered-Settled : (test : Ordering → Bool) (v w : Value) → Settled (ordered test (order v w))
ordered-Settled test v w = Kept-bind (order-Settled v w) λ o h. returns tt

pub apply-Settled : (o : String) (v w : Value) → Settled (apply o v w)
unfolding apply
apply-Settled o v w = Settled-if (o == "==") (returns tt) (
    Settled-if (o == "!=") (returns tt) (
      Settled-if (o == "in") (contains-Settled v w) (
        Settled-if (o == "<") (ordered-Settled _ v w) (
          Settled-if (o == "<=") (ordered-Settled _ v w)
            (Settled-if (o == ">") (ordered-Settled _ v w) (ordered-Settled _ v w))))))

pub size-Settled : (v : Value) → Settled (size v)
unfolding size
size-Settled null = raises
size-Settled (bool b) = raises
size-Settled (int n) = raises
size-Settled (str s) = returns tt
size-Settled (list xs) = returns tt
size-Settled (dict fs) = returns tt

found-Settled : (o : Option Value) → Settled (found o)
found-Settled none = raises
found-Settled (some v) = returns tt

pub resolve_ref-Settled :
    (ctx : Context) (item : Value) (s : String) → Settled (resolve_ref ctx item s)
unfolding resolve_ref
resolve_ref-Settled ctx item s = parsed (parse_text s)
  where
    parsed :
        (o : Option Reference)
        → Settled (elim o [ none ↦ guard_error | some parsed ↦ found (resolve (str s) ctx item) ])
    parsed none = raises
    parsed (some r) = found-Settled (resolve (str s) ctx item)

number_value-Settled : (s : String) → Settled (number_value s)
unfolding number_value
number_value-Settled s = Settled-if (has_dot s) stops (signed (strip_prefix "-" s))
  where
    signed :
        (o : Option String)
        → Settled (elim o [
          | none ↦ ok (int (pos (digits_value 0 s)))
          | some digits ↦ ok (int (minus (digits_value 0 digits)))
        ])
    signed none = returns tt
    signed (some digits) = returns tt

keyword-Settled : (s : String) → Settled (keyword s)
unfolding keyword
keyword-Settled s =
    Settled-if (s == "true") (returns tt)
      (Settled-if (s == "false") (returns tt) (Settled-if (s == "null") (returns tt) raises))

-- A value that a token has by itself.
abbrev pub IsSettled : Start → Type 0
IsSettled group = Unit
IsSettled listing = Unit
IsSettled sizing = Unit
IsSettled (reference s) = Unit
IsSettled (literal r) = Settled r

IsSettled-if : (b : Bool) (r s : Start) → IsSettled r → IsSettled s → IsSettled (if b then r else s)
IsSettled-if true r s h k = h
IsSettled-if false r s h k = k

pub start-IsSettled : (tok : Token) → IsSettled (start tok)
unfolding start
start-IsSettled tok =
    IsSettled-if (tok.text == "(") group _ tt
      (IsSettled-if (tok.text == "[") listing _ tt (by_kind tok.kind))
  where
    by_kind :
        (k : Kind)
        → IsSettled (elim k [
          | ref ↦ reference tok.text
          | number ↦ literal (number_value tok.text)
          | text ↦ literal (ok (str (unquoted tok.text)))
          | word ↦ if tok.text == "size" then sizing else literal (keyword tok.text)
          | op ↦ literal guard_error
        ])
    by_kind ref = tt
    by_kind number = number_value-Settled tok.text
    by_kind text = returns tt
    by_kind word =
        IsSettled-if (tok.text == "size") sizing (literal (keyword tok.text)) tt
          (keyword-Settled tok.text)
    by_kind op = raises
