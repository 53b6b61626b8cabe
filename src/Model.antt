-- ===== src/Model.antt =====
-- include/datamodel.h: the tree of `DataModelElement_t`, its payloads and its constants.
-- A node's parent pointer is its place in the tree, and its children array is a forest. `typeInfo`
-- has the type that `dataModelType` announces; a NULL pointer is `none` or `false`.
pub mod Lookup
pub mod Walk
pub mod Syntax
pub mod Compact
pub mod Merge
pub mod Copy
pub mod Insert
pub mod Send
pub mod Delete
pub mod Types
pub mod Tests
use claosi.Prelude.{ℕ, suc, ◌+◌, Bool, true, false, List, [], ◌∷◌, Option, none, some}
use claosi.Prelude.Names.{Name}
use claosi.Prelude.Int.{ℤ}

-- `enum DataModelType`
abbrev pub model_bit : ℕ
model_bit = 0x0

abbrev pub namespace_bit : ℕ
namespace_bit = 0x1

abbrev pub source_bit : ℕ
source_bit = 0x2

abbrev pub event_bit : ℕ
event_bit = 0x4

abbrev pub object_bit : ℕ
object_bit = 0x8

abbrev pub ref_bit : ℕ
ref_bit = 0x10

abbrev pub string_bit : ℕ
string_bit = 0x20

abbrev pub int_bit : ℕ
int_bit = 0x40

abbrev pub float_bit : ℕ
float_bit = 0x80

abbrev pub complex_bit : ℕ
complex_bit = 0x100

abbrev pub array_bit : ℕ
array_bit = 0x200

abbrev pub byte_bit : ℕ
byte_bit = 0x400

abbrev pub max_queries_per_dm : ℕ
max_queries_per_dm = 8

-- `Source_t`. A registered query is a pointer, here the number of the query. Function pointers are
-- only compared with NULL before they are called.
pub record Source : Type 0 where
  pub return_type : ℕ
  pub return_name : Name
  pub callback : Bool
  pub queries : List (Option ℕ)
  pub num_queries : ℤ

-- `Event_t`
pub record Event : Type 0 where
  pub return_type : ℕ
  pub return_name : Name
  pub activate : Bool
  pub deactivate : Bool
  pub queries : List (Option ℕ)
  pub num_queries : ℤ

-- `Object_t`
pub record Object : Type 0 where
  pub identifier_type : ℕ
  pub activate : Bool
  pub deactivate : Bool
  pub status : Bool
  pub queries : List (Option ℕ)
  pub num_queries : ℤ

-- `dataModelType` with `typeInfo`. Where the type has no payload, the flag says whether the pointer
-- is set all the same. `plain` is any other value of `dataModelType`, such as INT or STRING | ARRAY.
pub data Kind : Type 0 where
  model : Bool → Kind
  namespace : Bool → Kind
  source : Option Source → Kind
  event : Option Event → Kind
  object : Option Object → Kind
  ref : Option Name → Kind
  complex : Bool → Kind
  plain : ℕ → Bool → Kind

abbrev pub data_model_type : Kind → ℕ
data_model_type (model i) = model_bit
data_model_type (namespace i) = namespace_bit
data_model_type (source i) = source_bit
data_model_type (event i) = event_bit
data_model_type (object i) = object_bit
data_model_type (ref i) = ref_bit
data_model_type (complex i) = complex_bit
data_model_type (plain t i) = t

-- What a node holds beside its children.
pub record Header : Type 0 where
  pub name : Name
  pub layer_code : ℕ
  pub kind : Kind

mutual
  pub data Node : Type 0 where
    node : Header → Forest → Node

  pub data Forest : Type 0 where
    nil : Forest
    cons : Node → Forest → Forest

abbrev pub header : Node → Header
header (node h cs) = h

abbrev pub children : Node → Forest
children (node h cs) = cs

abbrev pub node_type : Node → ℕ
node_type n = data_model_type (header n).kind

-- `childrenLen`
unfoldable pub children_len : Forest → ℕ
children_len nil = 0
children_len (cons n fs) = suc (children_len fs)

abbrev pub has_any : Forest → Bool
has_any nil = false
has_any (cons n fs) = true

-- The number of nodes.
unfoldable pub forest_size : Forest → ℕ
forest_size nil = 0
forest_size (cons (node h cs) fs) = suc (forest_size cs + forest_size fs)

unfoldable pub node_size : Node → ℕ
unfolding forest_size
node_size n = suc (forest_size (children n))
