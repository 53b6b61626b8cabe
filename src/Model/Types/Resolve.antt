-- ===== src/Model/Types/Resolve.antt =====
-- The search for the type of a node.
use claosi.Prelude.{ℕ, zero, suc, ◌≡◌, refl, Bool, Option, none, some}
use claosi.Prelude.Names.{Name}
use claosi.Model.{Node, nil, header, children, complex_bit}
use claosi.Model.Lookup.{get_description}
use claosi.Model.Types.{
  Resolving, type_is, go_to, no_payload, resolve_round, resolved, unending, resolve_type, PodSizes,
  bytes, sized_as, get_complex_type_size, get_data_model_size,
}

-- A node whose type is that of the node itself, by a name that leads back to it, is resolved with
-- no amount of fuel.
pub resolve_type_circles :
    (fuel : ℕ) (root n : Node) (name : Name)
    → resolve_round (header n).kind ≡ go_to name
    → get_description (some root) name ≡ some n
    → resolve_type fuel root (some n) ≡ unending
unfolding resolve_type
resolve_type_circles zero root n name e f = refl
resolve_type_circles (suc fuel) root n name e f =
    rw (resolve_type, e, f) (resolve_type_circles fuel root n name e f)

-- More fuel does not change a type that was found.
pub resolve_type_more :
    (fuel : ℕ) (root : Node) (elem : Option Node) (t : ℕ)
    → resolve_type fuel root elem ≡ resolved t
    → resolve_type (suc fuel) root elem ≡ resolved t
unfolding resolve_type
resolve_type_more zero root elem t e = cc e
resolve_type_more (suc fuel) root none t e = cc e
resolve_type_more (suc fuel) root (some n) t e =
    step (resolve_round (header n).kind) refl
      (λ name. resolve_type_more fuel root (get_description (some root) name) t)
  where
    step :
        (r : Resolving)
        → resolve_round (header n).kind ≡ r
        → ((name : Name)
            → resolve_type fuel root (get_description (some root) name) ≡ resolved t
            → resolve_type (suc fuel) root (get_description (some root) name) ≡ resolved t)
        → resolve_type (suc (suc fuel)) root (some n) ≡ resolved t
    step (type_is u) q more = rw (resolve_type, q) (rw (resolve_type, q) at e)
    step no_payload q more = cc (rw (resolve_type, q) at e)
    step (go_to name) q more = rw (resolve_type, q) (more name (rw (resolve_type, q) at e))

-- A node without children whose type is found in a structure, and is nothing else, counts no bytes,
-- whatever the structure takes.
pub get_data_model_size_forgets :
    (z : PodSizes) (fuel : ℕ) (root n : Node) (ignore : Bool)
    → children n ≡ nil
    → resolve_type fuel root (some n) ≡ resolved complex_bit
    → get_data_model_size z fuel root (some n) ignore ≡ bytes 0
unfolding get_data_model_size sized_as get_complex_type_size
get_data_model_size_forgets z fuel root n ignore e f = rw (get_data_model_size, f, e) refl
