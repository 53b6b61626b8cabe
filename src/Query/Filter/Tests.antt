-- ===== src/Query/Filter/Tests.antt =====
-- A filter on three tuples, of which one is unlinked.
use claosi.Prelude.{◌≡◌, ◌↔◌, refl, true, false, [], ◌∷◌, none, some, ◌==◌, if◌then◌else◌, arith}
use claosi.Prelude.Int.{pos}
use claosi.Model.{int_bit}
use claosi.Query.{Predicate, op_stream, op_pod, neq}
use claosi.Query.Filter.{Reader, Tuples, satisfies, apply_filter}
use claosi.Query.Filter.Keeps.{IsFiltered, apply_filter-IsFiltered, AllHold, satisfies-AllHold}

-- Each tuple has one member, an int that is the tuple's own pointer; every literal reads as 2.
abbrev reader : Reader
reader = record {
  member = λ t path. some (t, int_bit);
  int_at = pos;
  char_at = pos;
  string_at = λ a. [];
  to_int = λ s. some (pos 2);
  to_char = λ s. none;
  double_test = λ t a b. false;
}

abbrev not_two : Predicate
not_two = record {
  selec = false;
  type = neq;
  left = record { type = op_stream; value = b'a' ∷ [] };
  right = record { type = op_pod; value = b'2' ∷ [] };
}

abbrev three : Tuples
three = record {
  next = λ p. if p == 1 then some 2 else if p == 2 then some 3 else none;
  head = some 1;
  freed = [];
}

apply_filter-IsFiltered_example :
    IsFiltered
      (satisfies reader (not_two ∷ []))
      (1 ∷ 2 ∷ 3 ∷ [])
      three
      (apply_filter reader (not_two ∷ []) 4 three)
apply_filter-IsFiltered_example =
    apply_filter-IsFiltered reader (not_two ∷ []) three (1 ∷ 2 ∷ 3 ∷ [])
      (((λ e. omega arith), ((λ e. omega arith), tt)), (((λ e. omega arith), tt), (tt, tt)))
      (refl, (refl, (refl, refl)))

satisfies-AllHold_example :
    (satisfies reader (not_two ∷ []) 3 ≡ true) ↔ AllHold reader (not_two ∷ []) 3
satisfies-AllHold_example = satisfies-AllHold reader (not_two ∷ []) 3
