-- ===== src/Query.antt =====
-- include/query.h: operators and queries. The operators of a query are the chain of `child`
-- pointers from `root`, here a list; a NULL root is the empty list.
pub mod Compact
pub mod Tests
pub mod Syntax
pub mod Registry
pub mod Filter
pub mod Execute
use claosi.Prelude.{ℕ, Bool, List, Option}
use claosi.Prelude.Names.{Name}

-- `enum PredicateType`; the last one stands for any other number.
pub data PredicateType : Type 0 where
  equal neq le leq ge geq predicatetype_end : PredicateType

-- `enum OperandType`, likewise.
pub data OperandType : Type 0 where
  op_stream op_pod op_join operandtype_end : OperandType

-- `Operand_t`
pub record Operand : Type 0 where
  pub type : OperandType
  pub value : Name

-- `Predicate_t`. The flags only hold PRED_SELEC.
pub record Predicate : Type 0 where
  pub selec : Bool
  pub type : PredicateType
  pub left : Operand
  pub right : Operand

-- `GenStream_t` without its base.
pub record GenStream : Type 0 where
  pub urgent : ℕ
  pub name : Name
  pub selectors : List Name

-- `Sort_t`, which `Group_t` is too, without its base. A NULL array is `none`.
pub record Sort : Type 0 where
  pub elements : Option (List Name)
  pub size_unit : ℕ
  pub size : ℕ

-- `Aggregate_t` without its base.
pub record Aggregate : Type 0 where
  pub elements : Option (List Name)
  pub size_unit : ℕ
  pub size : ℕ
  pub advance_unit : ℕ
  pub advance : ℕ

pub data AggregateType : Type 0 where
  min_op max_op avg_op : AggregateType

-- `Operator_t` with what stands behind it, by its `type`.
pub data Operator : Type 0 where
  gen_source : GenStream → ℕ → Operator
  gen_object : GenStream → ℕ → Operator
  gen_event : GenStream → Operator
  select : Option (List Name) → Operator
  filter : Option (List Predicate) → Operator
  sort : Sort → Operator
  group : Sort → Operator
  join : Name → Option (List Predicate) → Operator
  aggregate : AggregateType → Aggregate → Operator
  unknown_op : ℕ → Operator

-- `Query_t`, less the link to the next query of a list.
pub record Query : Type 0 where
  pub root : List Operator
  pub compact : Bool
  pub transfered : Bool
  pub idx : ℕ
  pub size : ℕ
  pub layer_code : ℕ
  pub query_id : ℕ
  pub on_query_completed : Bool
