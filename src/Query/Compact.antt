-- ===== src/Query/Compact.antt =====
-- lib/query.c, `calcQuerySize`, `copyOperatorAdjacent`, `copyAndCollectQuery` and
-- `rewriteQueryAddress`: a query in one piece of memory, and its move to another address space.
pub mod Relocates
mod Tests
use claosi.Prelude.{
  ℕ, zero, suc, ◌+◌, ◌-◌, ◌*◌, ◌%◌, ◌^◌, Bool, true, false, List, [], ◌∷◌, ◌++◌, map, Option, none,
  some, length,
}
use claosi.Query.{
  Operator, gen_source, gen_object, gen_event, select, filter, sort, group, join, aggregate,
  unknown_op, Query, GenStream, Predicate,
}

-- The sizes of the structures, which the platform decides.
pub record Sizes : Type 0 where
  pub query : ℕ
  pub source_stream : ℕ
  pub object_stream : ℕ
  pub event_stream : ℕ
  pub selector : ℕ
  pub filter_op : ℕ
  pub select_op : ℕ
  pub sort_op : ℕ
  pub join_op : ℕ
  pub aggregate_op : ℕ
  pub predicate : ℕ
  pub element : ℕ
  pub pointer : ℕ

-- The length of an array; a NULL one has none.
abbrev pub len? {ℓ} : {A : Type ℓ} → Option (List A) → ℕ
len? none = 0
len? (some xs) = length xs

-- A copied operator: the pointer to the next one, the pointer to its selectors or to its pointer
-- array, and that array.
pub record Image : Type 0 where
  pub op : Operator
  pub child : Option ℕ
  pub array : Option ℕ
  pub cells : List ℕ

-- for (i = 0; i < len; i++) { cells[i] = freeMem; …; freeMem += size; }
pub lay_out : ℕ → ℕ → ℕ → List ℕ × ℕ
lay_out zero size free = ([], free)
lay_out (suc n) size free = let (cells, end) = lay_out n size (free + size) in (free ∷ cells, end)

pub record QueryImage : Type 0 where
  pub query : Query
  pub root : ℕ
  pub images : List Image

module _ (z : Sizes) where
  -- switch (cur->type) in `calcQuerySize`
  pub operator_size : Operator → ℕ
  operator_size (gen_source s p) = z.source_stream + length s.selectors * z.selector
  operator_size (gen_object s e) = z.object_stream + length s.selectors * z.selector
  operator_size (gen_event s) = z.event_stream + length s.selectors * z.selector
  operator_size (filter ps) = z.filter_op + len? ps * (z.pointer + z.predicate)
  operator_size (select es) = z.select_op + len? es * (z.pointer + z.element)
  operator_size (sort s) = z.sort_op + len? s.elements * (z.pointer + z.element)
  operator_size (group s) = z.sort_op + len? s.elements * (z.pointer + z.element)
  operator_size (join e ps) = z.join_op + len? ps * (z.pointer + z.predicate)
  operator_size (aggregate t a) = z.aggregate_op + len? a.elements * (z.pointer + z.element)
  operator_size (unknown_op t) = 0

  operators_size : ℕ → List Operator → ℕ
  operators_size size [] = size
  operators_size size (op ∷ ops) = operators_size (size + operator_size op) ops

  size_from : List Operator → Option ℕ
  size_from [] = none
  size_from (op ∷ ops) = some (operators_size z.query (op ∷ ops))

  -- `none` is the read through a NULL root.
  pub calc_query_size : Query → Option ℕ
  unfolding size_from
  calc_query_size q = size_from q.root

  -- A stream of `fixed` bytes and its selectors; the second part is the end of the memory used.
  pub copy_stream : Operator → ℕ → GenStream → ℕ → Image × ℕ
  copy_stream op fixed s free =
      let after = free + fixed in
      (
        record { op = op; child = none; array = some after; cells = [] },
        after + z.selector * length s.selectors,
      )

  -- An operator of `fixed` bytes, its pointer array, and `n` elements of `size` bytes.
  pub copy_array : Operator → ℕ → ℕ → ℕ → ℕ → Image × ℕ
  copy_array op fixed n size free =
      let after = free + fixed in
      let (cells, end) = lay_out n size (after + n * z.pointer) in
      (record { op = op; child = none; array = some after; cells = cells }, end)

  -- `copyOperatorAdjacent`
  pub copy_operator_adjacent : Operator → ℕ → Image × ℕ
  copy_operator_adjacent (gen_source s p) free = copy_stream (gen_source s p) z.source_stream s free
  copy_operator_adjacent (gen_object s e) free = copy_stream (gen_object s e) z.object_stream s free
  copy_operator_adjacent (gen_event s) free = copy_stream (gen_event s) z.event_stream s free
  copy_operator_adjacent (filter ps) free =
      copy_array (filter ps) z.filter_op (len? ps) z.predicate free
  copy_operator_adjacent (select es) free =
      copy_array (select es) z.select_op (len? es) z.element free
  copy_operator_adjacent (sort s) free =
      copy_array (sort s) z.sort_op (len? s.elements) z.element free
  copy_operator_adjacent (group s) free =
      copy_array (group s) z.sort_op (len? s.elements) z.element free
  copy_operator_adjacent (join e ps) free =
      copy_array (join e ps) z.join_op (len? ps) z.predicate free
  copy_operator_adjacent (aggregate t a) free =
      copy_array (aggregate t a) z.aggregate_op (len? a.elements) z.element free
  copy_operator_adjacent (unknown_op t) free =
      (record { op = unknown_op t; child = none; array = none; cells = [] }, free)

  -- The loop over the operators: each copy is written through the child pointer of the one before.
  pub collect : List Operator → ℕ → List Image × ℕ
  collect [] free = ([], free)
  collect (op ∷ []) free = let (i, end) = copy_operator_adjacent op free in (i ∷ [], end)
  collect (op ∷ op' ∷ ops) free =
      let (i, next) = copy_operator_adjacent op free in
      let (is, end) = collect (op' ∷ ops) next in (record i { child = some next } ∷ is, end)

  copy_from : Query → List Operator → ℕ → Option (QueryImage × ℕ)
  copy_from q [] free = none
  copy_from q (op ∷ ops) free =
      let (images, end) = collect (op ∷ ops) (free + z.query) in
      some (
        record { query = record q { compact = true }; root = free + z.query; images = images },
        end,
      )

  -- `copyAndCollectQuery`, and the end of the memory used. `next` is NULL in the copy; `none` is the
  -- read through a NULL root.
  pub copy_and_collect_query : Query → ℕ → Option (QueryImage × ℕ)
  unfolding copy_from
  copy_and_collect_query q free = copy_from q q.root free

-- REWRITE_ADDR: ((void*)var - oldBase) + newBase, on addresses of 64 bits.
pub rewrite_addr : ℕ → ℕ → ℕ → ℕ
rewrite_addr old new v = ((v + 2 ^ 64 - old) % 2 ^ 64 + new) % 2 ^ 64

abbrev pub rewrite_addr? : ℕ → ℕ → Option ℕ → Option ℕ
rewrite_addr? old new none = none
rewrite_addr? old new (some v) = some (rewrite_addr old new v)

pub rewrite_image : ℕ → ℕ → Image → Image
rewrite_image old new i = record i {
  child = rewrite_addr? old new i.child;
  array = rewrite_addr? old new i.array;
  cells = map (rewrite_addr old new) i.cells;
}

-- `rewriteQueryAddress` for a collected query, whose `next` is NULL.
pub rewrite_query_address : QueryImage → ℕ → ℕ → QueryImage
rewrite_query_address c old new = record c {
  root = rewrite_addr old new c.root;
  images = map (rewrite_image old new) c.images;
}
