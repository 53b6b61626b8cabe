-- ===== src/Tuple/Collect.antt =====
-- lib/resultset.c, `copyAndCollectAdditionalMem`: the memory behind a value is copied to one place,
-- piece by piece.
pub mod Ends
use claosi.Prelude.{
  ℕ, zero, suc, ◌+◌, ◌*◌, Bool, true, false, ◌&&◌, List, [], ◌∷◌, ◌++◌, Option, none, some,
  if◌then◌else◌,
}
use claosi.Model.{Node, string_bit, array_bit, complex_bit}
use claosi.Model.Syntax.{has_bits}
use claosi.Model.Types.{
  PodSizes, Resolved, resolved, null_read, unending, resolve_type, Size, bytes, minus_one, failed,
  get_data_model_size,
}
use claosi.Tuple.{Memory, Kind, leaf, structure, no_size, no_type, Walked, walked, walk_item}

-- What one `memcpy` copies: from where, how many bytes, and the pointer in the origin whose counterpart
-- in the copy is set to the new place.
pub record Piece : Type 0 where
  pub cell : ℕ
  pub source : ℕ
  pub size : ℕ

-- The pieces one behind the other, each with its new place, and the end of the memory used.
pub place : ℕ → List Piece → List (ℕ × Piece) × ℕ
place free [] = ([], free)
place free (p ∷ ps) = let (placed, end) = place (free + p.size) ps in ((free, p) ∷ placed, end)

pub concat : List (List Piece) → List Piece
concat [] = []
concat (ps ∷ pss) = ps ++ concat pss

-- The pieces and the end; `none` is the result -1, and what stops the walk.
pub collected : ℕ → Walked (List Piece) → Option (List (ℕ × Piece) × ℕ)
collected free (walked pss) = some (place free (concat pss))
collected free r = none

module _ (z : PodSizes) (fuel : ℕ) (root : Node) (m : Memory) where
  abbrev pub string_piece : ℕ → Piece
  string_piece a = record { cell = a; source = m.word a; size = m.strlen (m.word a) + 1 }

  -- The strings of an array, from the pointer at `a` on.
  pub string_pieces : ℕ → ℕ → List Piece
  string_pieces zero a = []
  string_pieces (suc n) a = string_piece a ∷ string_pieces n (a + z.size_string)

  pub array_piece : ℕ → Size → Kind (List Piece)
  array_piece a (bytes b) =
      leaf ((record { cell = a; source = m.word a; size = m.int (m.word a) * b + z.size_int }) ∷ [])
  array_piece a minus_one = no_size
  array_piece a failed = no_type

  -- The branches of `copyAndCollectAdditionalMem`.
  pub copy_kind : Node → ℕ → Resolved → Kind (List Piece)
  copy_kind n a null_read = no_type
  copy_kind n a unending = no_type
  copy_kind n a (resolved t) =
      if has_bits t string_bit && has_bits t array_bit
      then leaf (
          (record {
            cell = a;
            source = m.word a;
            size = m.int (m.word a) * z.size_string + z.size_int;
          })
          ∷ string_pieces (m.int (m.word a)) (m.word a + z.size_int))
      else if has_bits t array_bit
      then array_piece a (get_data_model_size z fuel root (some n) true)
      else if has_bits t string_bit
      then leaf (string_piece a ∷ [])
      else if has_bits t complex_bit
      then structure
      else leaf []

  pub copy_and_collect_additional_mem :
      ℕ → Option Node → ℕ → ℕ → Node → Option (List (ℕ × Piece) × ℕ)
  copy_and_collect_additional_mem rounds outer value free element = collected free (
      walk_item z fuel root true (λ n a. copy_kind n a (resolve_type fuel root (some n))) outer
        rounds value element)
