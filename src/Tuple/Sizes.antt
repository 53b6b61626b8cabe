-- ===== src/Tuple/Sizes.antt =====
-- The memory behind the values of a tuple.
use claosi.Prelude.{ℕ, ◌≤◌, ◌≡◌, List, [], Option, some}
use claosi.Model.{Node, node, header, children, has_any, node_size}
use claosi.Model.Types.{PodSizes, bytes, resolve_type}
use claosi.Tuple.{Memory, TupleSizes, Kind, walked, offset_in}
use claosi.Tuple.Items.{size_kind, get_item_size}
use claosi.Tuple.Spans.{span, spans}
use claosi.Tuple.Spans.Walk.{element_alone}

module _ (z : PodSizes) (fuel : ℕ) (root : Node) (m : Memory) (w : TupleSizes) where
  -- What `getItemSize` counts at a node and an address.
  abbrev pub counts : Node → ℕ → Kind ℕ
  counts n a = size_kind z fuel root m w n a (resolve_type fuel root (some n))

  -- What it counts for a value of `element` at an address: at each member, the address of the
  -- structure plus the member's own offset is read.
  abbrev pub counted : Node → ℕ → Option (List ℕ)
  counted element value =
      span z fuel root counts (counts element value) (has_any (children element))
        (spans z fuel root counts (children element) element value)

  -- If every member of a value has a size and an offset, and the node of the value has an offset in
  -- its parent, then `getItemSize` ends, after one round for each node at most, and counts for each
  -- member what is read at the address of its structure plus its offset.
  pub get_item_size-counted :
      (outer : Option Node) (value o : ℕ) (element : Node) (sizes : List ℕ)
      → offset_in z fuel root outer [] (header element).name ≡ bytes o
      → counted element value ≡ some sizes
      → (rounds : ℕ) × (rounds ≤ node_size element)
        × (get_item_size z fuel root m w rounds outer value element ≡ walked sizes)
  unfolding get_item_size
  get_item_size-counted outer value o (node h cs) sizes e k =
      element_alone z fuel root counts outer h cs value o sizes e k
