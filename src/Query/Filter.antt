-- ===== src/Query/Filter.antt =====
-- lib/query.c, `applyPredicate` and `applyFilter`: a filter unlinks the tuples that do not satisfy
-- all of its predicates. A tuple is known by its pointer.
pub mod Keeps
mod Tests
use claosi.Prelude.{
  ℕ, zero, suc, Bool, true, false, not, ◌&&◌, List, [], ◌∷◌, ◌++◌, Option, none, some, bit_and,
  ◌==◌, ltb, if◌then◌else◌,
}
use claosi.Prelude.Names.{Name, name_eq}
use claosi.Prelude.Int.{ℤ, pos, negsuc, int_less}
use claosi.Model.{string_bit, int_bit, float_bit, byte_bit, array_bit}
use claosi.Query.{
  Predicate, PredicateType, equal, neq, le, leq, ge, geq, predicatetype_end, Operand, op_stream,
  op_pod, op_join, operandtype_end,
}

-- What the functions read: the member of a tuple that a path names, with its resolved type
-- (`getMemberPointer` and `resolveType`), the memory at an address, and the C library's conversions
-- of strings. A conversion is `none` where the test `STRTOINT(…) < 0` or `STRTOCHAR(…) < 0` is true.
pub record Reader : Type 0 where
  pub member : ℕ → Name → Option (ℕ × ℕ)
  pub int_at : ℕ → ℤ
  pub char_at : ℕ → ℤ
  pub string_at : ℕ → Name
  pub to_int : Name → Option ℤ
  pub to_char : Name → Option ℤ
  -- The comparison of two doubles, each at an address or in a string; false in the kernel.
  pub double_test : PredicateType → Option ℕ × Name → Option ℕ × Name → Bool

-- switch (predicate->type), for integers.
pub int_test : PredicateType → ℤ → ℤ → Bool
int_test equal a b = not (int_less a b) && not (int_less b a)
int_test neq a b = not (not (int_less a b) && not (int_less b a))
int_test le a b = int_less a b
int_test leq a b = not (int_less b a)
int_test ge a b = int_less b a
int_test geq a b = not (int_less a b)
int_test predicatetype_end a b = false

-- The same for strings, of which only equality is tested.
pub string_test : PredicateType → Name → Name → Bool
string_test equal a b = name_eq a b
string_test neq a b = not (name_eq a b)
string_test t a b = false

-- The type that decides: that of the left operand, else that of the right one.
pub type_of : Option (ℕ × ℕ) → Option (ℕ × ℕ) → Option ℕ
type_of (some (a, t)) r = some t
type_of none (some (a, t)) = some t
type_of none none = none

abbrev pub address : Option (ℕ × ℕ) → Option ℕ
address none = none
address (some (a, t)) = some a

-- Both conversions, or the result where one fails.
pub both : Bool → Option ℤ → Option ℤ → (ℤ → ℤ → Bool) → Bool
both failed (some a) (some b) test = test a b
both failed (some a) none test = failed
both failed none b test = failed

module _ (r : Reader) where
  pub find_member : Option ℕ → Name → Option (ℕ × ℕ)
  find_member none path = none
  find_member (some t) path = r.member t path

  abbrev pub located : Option (ℕ × ℕ) → Option (Option (ℕ × ℕ))
  located none = none
  located (some m) = some (some m)

  -- An operand: `none` makes the predicate return 0, `some none` is a literal.
  pub operand : Operand → Option ℕ → Option ℕ → Option (Option (ℕ × ℕ))
  operand o stream join = elim o.type [
    | op_pod ↦ some none
    | op_stream ↦ located (find_member stream o.value)
    | op_join ↦ located (find_member join o.value)
    | operandtype_end ↦ none
  ]

  pub string_value : Option ℕ → Name → Name
  string_value none literal = literal
  string_value (some a) literal = r.string_at a

  pub int_value : Option ℕ → Name → Option ℤ
  int_value none literal = r.to_int literal
  int_value (some a) literal = some (r.int_at a)

  pub char_value : Option ℕ → Name → Option ℤ
  char_value none literal = r.to_char literal
  char_value (some a) literal = some (r.char_at a)

  -- switch (type). With two literals the buffers are compared, which `strncpy` has filled up with
  -- zeros. A BYTE literal that cannot be converted gives -EPARAM, which is not 0.
  pub compare_as : Option ℕ → Predicate → Option ℕ → Option ℕ → Bool
  compare_as none p a b = string_test p.type p.left.value p.right.value
  compare_as (some t) p a b =
      if not (bit_and t array_bit == 0)
      then false
      else if t == string_bit
      then string_test p.type (string_value a p.left.value) (string_value b p.right.value)
      else if t == int_bit
      then both false (int_value a p.left.value) (int_value b p.right.value) (int_test p.type)
      else if t == float_bit
      then r.double_test p.type (a, p.left.value) (b, p.right.value)
      else if t == byte_bit
      then both true (char_value a p.left.value) (char_value b p.right.value) (int_test p.type)
      else false

  -- Is the result other than 0?
  pub apply_predicate : Predicate → Option ℕ → Option ℕ → Bool
  apply_predicate p stream join = if p.selec then true else elim (operand p.left stream join) [
    | none ↦ false
    | some a ↦ elim (operand p.right stream join) [
      | none ↦ false
      | some b ↦ compare_as (type_of a b) p (address a) (address b)
    ]
  ]

  -- for (i = 0; i < predicateLen; i++) if (applyPredicate(…) == 0) break; … i == predicateLen
  pub satisfies : List Predicate → ℕ → Bool
  satisfies [] t = true
  satisfies (p ∷ ps) t =
      let rest = satisfies ps t in if apply_predicate p (some t) none then rest else false

-- The list of tuples: the `next` pointers, the head that the caller sees, and the tuples that were
-- handed to `freeTupel`.
pub record Tuples : Type 0 where
  pub next : ℕ → Option ℕ
  pub head : Option ℕ
  pub freed : List ℕ

abbrev pub link : (ℕ → Option ℕ) → ℕ → Option ℕ → ℕ → Option ℕ
link next p v q = if q == p then v else next q

-- if (prevTuple == NULL) *headTuple = nextTuple; else prevTuple->next = nextTuple; freeTupel(curTuple)
pub unlink : Tuples → Option ℕ → ℕ → Tuples
unlink s none cur = record s { head = s.next cur; freed = s.freed ++ (cur ∷ []) }
unlink s (some p) cur = record s {
  next = link s.next p (s.next cur);
  freed = s.freed ++ (cur ∷ []);
}

module _ (passes : ℕ → Bool) where
  -- while (curTuple != NULL), on fuel: prevTuple, curTuple.
  pub filter_loop : ℕ → Tuples → Option ℕ → Option ℕ → Option Tuples
  filter_loop zero s prev cur = none
  filter_loop (suc fuel) s prev none = some s
  filter_loop (suc fuel) s prev (some c) = elim (passes c) [
    | true ↦ filter_loop fuel s (some c) (s.next c)
    | false ↦ filter_loop fuel (unlink s prev c) prev (s.next c)
  ]

pub apply_filter : Reader → List Predicate → ℕ → Tuples → Option Tuples
apply_filter r ps fuel s = filter_loop (satisfies r ps) fuel s none s.head
