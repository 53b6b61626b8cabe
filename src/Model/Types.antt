-- ===== src/Model/Types.antt =====
-- include/datamodel.h, `resolveType`, and lib/datamodel.c, `getComplexTypeSize`, `getDataModelSize`
-- and `getComplexTypeOffset`: the type that a node stands for, and where its members lie.
pub mod Layout
pub mod Resolve
use claosi.Prelude.{
  ℕ, zero, suc, ◌+◌, Bool, true, false, not, ◌&&◌, Option, none, some, if◌then◌else◌,
}
use claosi.Prelude.Names.{Name, name_eq}
use claosi.Model.{
  Node, Forest, node, nil, cons, header, children, Kind, source, event, object, ref, Source, Event,
  Object, data_model_type, ref_bit, string_bit, int_bit, float_bit, complex_bit, array_bit,
  byte_bit,
}
use claosi.Model.Lookup.{get_description}
use claosi.Model.Syntax.{has_bits}

-- One round of `resolveType`: the type, or the name of the node to go on with; or a read through
-- NULL.
pub data Resolving : Type 0 where
  type_is : ℕ → Resolving
  go_to : Name → Resolving
  no_payload : Resolving

-- The type of a source or of an event, unless it is a complex one.
unfoldable pub return_of : ℕ → Name → Resolving
return_of type name = if has_bits type complex_bit then go_to name else type_is type

unfoldable pub resolve_round : Kind → Resolving
resolve_round (ref (some name)) = go_to name
resolve_round (source (some s)) = return_of s.return_type s.return_name
resolve_round (event (some e)) = return_of e.return_type e.return_name
resolve_round (object (some o)) = type_is o.identifier_type
resolve_round (ref none) = no_payload
resolve_round (source none) = no_payload
resolve_round (event none) = no_payload
resolve_round (object none) = no_payload
resolve_round k = type_is (data_model_type k)

-- `null_read` is a node or a payload that is not there, `unending` running out of fuel.
pub data Resolved : Type 0 where
  resolved : ℕ → Resolved
  null_read : Resolved
  unending : Resolved

-- do { … } while (ret == 1), on fuel.
unfoldable pub resolve_type : ℕ → Node → Option Node → Resolved
resolve_type zero root elem = unending
resolve_type (suc fuel) root none = null_read
resolve_type (suc fuel) root (some n) = elim (resolve_round (header n).kind) [
  | type_is t ↦ resolved t
  | no_payload ↦ null_read
  | go_to name ↦ resolve_type fuel root (get_description (some root) name)
]

-- `enum SizePOD`, which the platform decides.
pub record PodSizes : Type 0 where
  pub size_int : ℕ
  pub size_string : ℕ
  pub size_float : ℕ
  pub size_byte : ℕ
  pub size_array : ℕ

-- A number of bytes, or -1; `failed` is a resolution that gives no type.
pub data Size : Type 0 where
  bytes : ℕ → Size
  minus_one : Size
  failed : Size

-- size += ret, unless ret is -1.
abbrev pub plus : Size → Size → Size
plus (bytes a) (bytes b) = bytes (a + b)
plus (bytes a) s = s
plus s t = s

module _ (z : PodSizes) (fuel : ℕ) (root : Node) where
  -- The end of `getDataModelSize`, with the size of `elem` as a structure.
  unfoldable pub sized_as : Bool → Resolved → Size → Size
  sized_as ignore null_read inner = failed
  sized_as ignore unending inner = failed
  sized_as ignore (resolved t) inner =
      if has_bits t array_bit && not ignore
      then bytes z.size_array
      else if has_bits t int_bit
      then bytes z.size_int
      else if has_bits t byte_bit
      then bytes z.size_byte
      else if has_bits t string_bit
      then bytes z.size_string
      else if has_bits t float_bit
      then bytes z.size_float
      else if has_bits t complex_bit
      then inner
      else minus_one

  -- What a member of a structure takes, from its type, its size as a structure, and its size as an
  -- element of the data model.
  unfoldable pub member_size : ℕ → Size → Size → Size
  member_size t inner referred =
      if has_bits t array_bit
      then bytes z.size_array
      else if has_bits t int_bit
      then bytes z.size_int
      else if has_bits t byte_bit
      then bytes z.size_byte
      else if has_bits t string_bit
      then bytes z.size_string
      else if has_bits t float_bit
      then bytes z.size_float
      else if has_bits t complex_bit
      then inner
      else if has_bits t ref_bit
      then referred
      else bytes 0

  -- `getComplexTypeSize`, of the children of `typeDesc`.
  unfoldable pub get_complex_type_size : Forest → Size
  get_complex_type_size nil = bytes 0
  get_complex_type_size (cons (node h cs) fs) =
      let inner = get_complex_type_size cs in
      plus
        (member_size (data_model_type h.kind) inner
          (sized_as false (resolve_type fuel root (some (node h cs))) inner))
        (get_complex_type_size fs)

  -- `elem` itself stays what the caller has passed: `resolveType` works on a copy of the pointer.
  unfoldable pub get_data_model_size : Option Node → Bool → Size
  get_data_model_size none ignore = minus_one
  get_data_model_size (some n) ignore =
      sized_as ignore (resolve_type fuel root (some n)) (get_complex_type_size (children n))

  -- The size of one child, as both loops compute it.
  unfoldable pub size_of_member : Node → Size
  size_of_member (node h cs) =
      member_size (data_model_type h.kind) (get_complex_type_size cs)
        (get_data_model_size (some (node h cs)) false)

  unfoldable pub get_complex_type_offset : Forest → Name → Size
  get_complex_type_offset nil name = minus_one
  get_complex_type_offset (cons n fs) name =
      if name_eq (header n).name name
      then bytes 0
      else plus (size_of_member n) (get_complex_type_offset fs name)
