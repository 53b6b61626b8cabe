-- ===== src/Tuple.antt =====
-- lib/resultset.c: the loop that the functions of the file share, which goes along the data model and
-- the memory of a value at once. Reads of memory are functions of the address.
pub mod Bytes
pub mod Member
pub mod Access
pub mod Build
pub mod Whole
pub mod Merge
pub mod Spans
pub mod Items
pub mod Sizes
pub mod Collect
mod Tests
use claosi.Prelude.{
  ℕ, zero, suc, ◌+◌, ◌-◌, ◌*◌, Bool, true, false, ◌&&◌, List, [], ◌∷◌, ◌++◌, Option, none, some,
  if◌then◌else◌,
}
use claosi.Prelude.Names.{Name}
use claosi.Model.{
  Node, Forest, node, nil, cons, header, children, string_bit, array_bit, complex_bit,
}
use claosi.Model.Lookup.{get_with_parents}
use claosi.Model.Syntax.{has_bits}
use claosi.Model.Walk.{Level}
use claosi.Model.Types.{
  PodSizes, Resolved, resolved, null_read, unending, resolve_type, Size, bytes, minus_one, failed,
  get_data_model_size, get_complex_type_offset,
}

-- What is read: a pointer at an address, an int at an address, the length of the string at an address.
pub record Memory : Type 0 where
  pub word : ℕ → ℕ
  pub int : ℕ → ℕ
  pub strlen : ℕ → ℕ

-- The sizes of Tupel_t and Item_t, and of a pointer.
pub record TupleSizes : Type 0 where
  pub tupel : ℕ
  pub item : ℕ
  pub pointer : ℕ

-- What a node is to the walk: a leaf with a result, a structure to step into, the result -1, or a
-- type that is not found.
pub data Kind (A : Type 0) : Type 0 where
  leaf : A → Kind A
  structure : Kind A
  no_size : Kind A
  no_type : Kind A

-- `curNode` with its later siblings and its ancestors, `curValue`, `curOffset` and `prevOffset`.
pub record Place : Type 0 where
  pub cur : Node
  pub later : Forest
  pub up : List Level
  pub value : ℕ
  pub offset : ℕ
  pub previous : ℕ

-- `returned` is -1, `fault` a read through NULL.
pub data Moved : Type 0 where
  moved : Place → Moved
  finished : Moved
  returned : Moved
  fault : Moved

pub data Walked (A : Type 0) : Type 0 where
  walked : List A → Walked A
  negative : Walked A
  crash : Walked A
  endless : Walked A

abbrev pub before : {A : Type 0} → A → Walked A → Walked A
before a (walked l) = walked (a ∷ l)
before a w = w

module _ (z : PodSizes) (fuel : ℕ) (root : Node) where
  -- getComplexTypeOffset(rootDM,curNode->parent,curNode->name), with the parent of `element` behind
  -- its ancestors within `element`.
  unfoldable pub offset_in : Option Node → List Level → Name → Size
  offset_in none [] name = failed
  offset_in (some outer) [] name = get_complex_type_offset z fuel root (children outer) name
  offset_in outer ((p, pf) ∷ up) name = get_complex_type_offset z fuel root (children p) name

  -- Where a sibling lies.
  unfoldable pub beside : Node → Forest → List Level → ℕ → ℕ → Size → Moved
  beside m ms up value previous (bytes o) = moved (record {
    cur = m;
    later = ms;
    up = up;
    value = (value + o) - previous;
    offset = o;
    previous = o;
  })
  beside m ms up value previous minus_one = returned
  beside m ms up value previous failed = fault

  -- while (curNode != element) { if there is a later sibling, go there and break; else go up; }
  unfoldable pub climb : Option Node → Forest → List Level → ℕ → ℕ → ℕ → Moved
  climb outer later [] value offset previous = finished
  climb outer (cons m ms) (l ∷ up) value offset previous =
      beside m ms (l ∷ up) value previous (offset_in outer (l ∷ up) (header m).name)
  climb outer nil ((p, pf) ∷ up) value offset previous =
      let on : ℕ → Moved = λ o. climb outer pf up (value - offset) o o in
      elim (offset_in outer up (header p).name) [
        | bytes o ↦ on o
        | minus_one ↦ returned
        | failed ↦ fault
      ]

  -- curNode = curNode->children[0]; `resets` says whether curOffset is set to 0, too.
  unfoldable pub step_into : Bool → Place → Forest → Moved
  step_into resets s nil = fault
  step_into resets s (cons d ds) = moved (record {
    cur = d;
    later = ds;
    up = (s.cur, s.later) ∷ s.up;
    value = s.value;
    offset = if resets then 0 else s.offset;
    previous = 0;
  })

  abbrev pub climb_from : Option Node → Place → Moved
  climb_from outer s = climb outer s.later s.up s.value s.offset s.previous

  module _ {A : Type 0} (resets : Bool) (kind : Node → ℕ → Kind A) (outer : Option Node) where
    -- do { … } while (curNode != element), on fuel.
    unfoldable pub walk : ℕ → Place → Walked A
    walk zero s = endless
    walk (suc n) s = elim (kind s.cur s.value) [
      | leaf a ↦ before a (elim (climb_from outer s) [
        | moved s' ↦ walk n s'
        | finished ↦ walked []
        | returned ↦ negative
        | fault ↦ crash
      ])
      | structure ↦ elim (step_into resets s (children s.cur)) [
        | moved s' ↦ walk n s'
        | finished ↦ crash
        | returned ↦ crash
        | fault ↦ crash
      ]
      | no_size ↦ negative
      | no_type ↦ crash
    ]

    abbrev pub walk_item : ℕ → ℕ → Node → Walked A
    walk_item rounds value element =
        walk rounds
          (record { cur = element; later = nil; up = []; value = value; offset = 0; previous = 0 })
