-- ===== src/Model/Compact.antt =====
-- lib/datamodel.c, `calcDatamodelSize`, `copyNodeAdjacent` and `copyAndCollectDatamodel`: how many
-- bytes a tree takes in one piece of memory, and the copy that is put there.
pub mod Fits
use claosi.Prelude.{
  ℕ, zero, suc, ◌+◌, ◌*◌, Bool, true, false, List, [], ◌∷◌, ◌++◌, Option, none, some, length,
}
use claosi.Model.{
  Node, Forest, Header, node, nil, cons, header, children, children_len, node_size, forest_size,
  Kind, model, namespace, source, event, object, ref, complex, plain,
}
use claosi.Model.Walk.{Round, go, stop, traverse, start}

-- The sizes of the structures, which the platform decides.
pub record Sizes : Type 0 where
  pub element : ℕ
  pub pointer : ℕ
  pub source_bytes : ℕ
  pub event_bytes : ℕ
  pub object_bytes : ℕ

-- A copied node: where it starts, the pointers that are written into it, and the array cell of its
-- parent that is set to it.
pub record Block : Type 0 where
  pub addr : ℕ
  pub head : Header
  pub parent : Option ℕ
  pub cell : Option ℕ
  pub children_len : ℕ
  pub children : ℕ
  pub type_info : Option ℕ

-- Does `typeInfo` point anywhere?
abbrev pub has_info : Kind → Bool
has_info (model i) = i
has_info (namespace i) = i
has_info (source none) = false
has_info (source (some s)) = true
has_info (event none) = false
has_info (event (some e)) = true
has_info (object none) = false
has_info (object (some o)) = true
has_info (ref none) = false
has_info (ref (some name)) = true
has_info (complex i) = i
has_info (plain t i) = i

-- Puts a block before those that are copied after it.
abbrev pub behind : Block → Option (List Block × ℕ) → Option (List Block × ℕ)
behind b none = none
behind b (some (bs, end)) = some (b ∷ bs, end)

module _ (z : Sizes) where
  -- The payload as `calcDatamodelSize` counts it. A reference with a NULL name, which the syntax
  -- check refuses, would be an invalid `strlen`.
  pub payload_size : Kind → ℕ
  payload_size (source i) = z.source_bytes
  payload_size (event i) = z.event_bytes
  payload_size (object i) = z.object_bytes
  payload_size (ref (some name)) = length name + 1
  payload_size k = 0

  unfoldable pub size_round : ℕ → Bool × Node → Round ℕ ⊥
  size_round size (r, n) =
      go (size + (z.element + z.pointer * children_len (children n)) + payload_size (header n).kind)

  abbrev size_result : Option (Round ℕ ⊥) → Option ℕ
  size_result none = none
  size_result (some (go s)) = some s
  size_result (some (stop v)) = none

  pub calc_datamodel_size : Node → Option ℕ
  calc_datamodel_size n = size_result (traverse size_round (node_size n) 0 (start n))

  -- What `copyNodeAdjacent` copies behind the children array: nothing for a NULL pointer.
  pub to_copy : Kind → ℕ
  to_copy (source (some s)) = z.source_bytes
  to_copy (event (some e)) = z.event_bytes
  to_copy (object (some o)) = z.object_bytes
  to_copy (ref (some name)) = length name + 1
  to_copy k = 0

  -- `copyNodeAdjacent` at the address `free`, with the two pointers that its caller sets; and the
  -- number of bytes used.
  pub copy_node_adjacent : ℕ → Node → Option ℕ → Option ℕ → Block
  copy_node_adjacent free n parent cell =
      let array = free + z.element in
      let after = array + z.pointer * children_len (children n) in
      record {
        addr = free;
        head = header n;
        parent = parent;
        cell = cell;
        children_len = children_len (children n);
        children = array;
        type_info = elim (has_info (header n).kind) [ true ↦ some after | false ↦ none ];
      }

  pub node_bytes : Node → ℕ
  node_bytes n = z.element + z.pointer * children_len (children n) + to_copy (header n).kind

  -- do { copy the first child that is still NULL and step down, or step up; } while (below root);
  -- on fuel. For each node on the way down from the root: the children that are still NULL in its
  -- copy, the address of the copy, and the array cell of the first such child. The result is the
  -- blocks in the order of copying, and the end of the memory used.
  pub collect : ℕ → ℕ → List (Forest × ℕ × ℕ) → Option (List Block × ℕ)
  collect zero free fs = none
  collect (suc fuel) free [] = some ([], free)
  collect (suc fuel) free ((nil, copy, cell) ∷ fs) = collect fuel free fs
  collect (suc fuel) free ((cons n ms, copy, cell) ∷ fs) =
      behind (copy_node_adjacent free n (some copy) (some cell)) (
        collect fuel (free + node_bytes n)
          ((children n, free, free + z.element) ∷ (ms, copy, cell + z.pointer) ∷ fs))

  pub copy_and_collect_datamodel : Node → ℕ → Option (List Block × ℕ)
  copy_and_collect_datamodel n free =
      behind (copy_node_adjacent free n none none) (
        collect (2 * node_size n) (free + node_bytes n) ((children n, free, free + z.element) ∷ []))
