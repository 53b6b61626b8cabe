-- ===== src/Model/Compact/Fits.antt =====
-- The memory that the copy of a data model takes.
use claosi.Prelude.{
  ℕ, zero, suc, ◌+◌, ◌*◌, ◌≤◌, ◌≡◌, refl, sym, ap, ap₂, ◌∙◌, Bool, List, [], ◌∷◌, ◌++◌, map,
  append_assoc, append-nil, none, some, arith,
}
use mathlib.Core.List.{map-append}
use claosi.Model.{
  Node, Forest, Header, node, nil, cons, header, children, children_len, node_size, forest_size,
  Kind, model, namespace, source, event, object, ref, complex, plain,
}
use claosi.Model.Walk.{fold_rounds, preorder, preorder_forest, traverse-preorder}
use claosi.Prelude.Names.{Name}
use claosi.Model.Syntax.Nodes.{Every, IsNodeOk, Payload}
use claosi.Model.Compact.{
  Sizes, Block, payload_size, to_copy, size_round, size_result, calc_datamodel_size,
  copy_node_adjacent, node_bytes, behind, collect, copy_and_collect_datamodel,
}

module _ (z : Sizes) where
  -- The bytes of the copies of a forest.
  forest_bytes : Forest → ℕ
  forest_bytes nil = 0
  forest_bytes (cons (node h cs) fs) = node_bytes z (node h cs) + forest_bytes cs + forest_bytes fs

  -- Where the nodes of a forest go: below the copy `copy`, from its array cell `cell` on.
  placed : Forest → ℕ → ℕ → ℕ → List Block
  placed nil copy cell free = []
  placed (cons (node h cs) ms) copy cell free =
      copy_node_adjacent z free (node h cs) (some copy) (some cell)
      ∷ (placed cs free (free + z.element) (free + node_bytes z (node h cs))
          ++ placed ms copy (cell + z.pointer) (free + node_bytes z (node h cs) + forest_bytes cs))

  placed_frames : List (Forest × ℕ × ℕ) → ℕ → List Block
  placed_frames [] free = []
  placed_frames ((fs, copy, cell) ∷ rest) free =
      placed fs copy cell free ++ placed_frames rest (free + forest_bytes fs)

  frames_bytes : List (Forest × ℕ × ℕ) → ℕ
  frames_bytes [] = 0
  frames_bytes ((fs, copy, cell) ∷ rest) = forest_bytes fs + frames_bytes rest

  -- The rounds of the loop: one to copy each node and one to leave it, and one for each node above.
  rounds : List (Forest × ℕ × ℕ) → ℕ
  rounds [] = 1
  rounds ((fs, copy, cell) ∷ rest) = 2 * forest_size fs + 1 + rounds rest

  collect-placed :
      (fuel free : ℕ) (fs : List (Forest × ℕ × ℕ))
      → rounds fs ≤ fuel
      → collect z fuel free fs ≡ some (placed_frames fs free, free + frames_bytes fs)
  unfolding collect placed_frames frames_bytes rounds placed forest_bytes forest_size
  collect-placed zero free [] h = absurd (omega arith)
  collect-placed zero free ((fs, copy, cell) ∷ rest) h = absurd (omega arith)
  collect-placed (suc fuel) free [] h = ap (λ e. some ([], e)) (omega arith)
  collect-placed (suc fuel) free ((nil, copy, cell) ∷ rest) h =
      collect-placed fuel free rest (omega arith)
      ∙ ap₂ (λ t e. some (placed_frames rest t, e)) (omega arith) (omega arith)
  collect-placed (suc fuel) free ((cons (node k cs) ms, copy, cell) ∷ rest) h =
      let ih =
        collect-placed fuel (free + node_bytes z (node k cs))
          ((cs, free, free + z.element) ∷ (ms, copy, cell + z.pointer) ∷ rest) (omega arith) in
      let b = copy_node_adjacent z free (node k cs) (some copy) (some cell) in
      let below = placed cs free (free + z.element) (free + node_bytes z (node k cs)) in
      let beside =
        placed ms copy (cell + z.pointer) (free + node_bytes z (node k cs) + forest_bytes cs) in
      ap (behind b) ih
      ∙ ap₂ (λ bs e. some (b ∷ bs, e))
          (sym (append_assoc below beside _)
            ∙ ap (λ t. (below ++ beside) ++ placed_frames rest t) (omega arith))
          (omega arith)

  -- The bytes of a copied node, by what the copy says of itself.
  abbrev pub block_bytes : Block → ℕ
  block_bytes b = z.element + z.pointer * b.children_len + to_copy z b.head.kind

  -- The blocks lie one behind the other and fill the memory from `a` to `e`.
  abbrev pub Tiles : ℕ → List Block → ℕ → Type 0
  Tiles a [] e = a ≡ e
  Tiles a (b ∷ bs) e = (b.addr ≡ a) × Tiles (a + block_bytes b) bs e

  Tiles-append :
      (a m e : ℕ) (bs cs : List Block) → Tiles a bs m → Tiles m cs e → Tiles a (bs ++ cs) e
  Tiles-append a m e [] cs p q = rw p q
  Tiles-append a m e (b ∷ bs) cs p q = (p.0, Tiles-append (a + block_bytes b) m e bs cs p.1 q)

  placed-Tiles :
      (fs : Forest) (copy cell free e : ℕ)
      → free + forest_bytes fs ≡ e
      → Tiles free (placed fs copy cell free) e
  unfolding placed forest_bytes copy_node_adjacent node_bytes
  placed-Tiles nil copy cell free e h = omega arith
  placed-Tiles (cons (node k cs) ms) copy cell free e h =
      let b = copy_node_adjacent z free (node k cs) (some copy) (some cell) in
      (
        refl,
        Tiles-append _ (free + node_bytes z (node k cs) + forest_bytes cs) e _ _
            (placed-Tiles cs free (free + z.element) (free + node_bytes z (node k cs)) _ refl)
            (placed-Tiles ms copy (cell + z.pointer) _ e (omega arith)),
      )

  head_of : Bool × Node → Header
  head_of (r, n) = header n

  placed-heads :
      (fs : Forest) (copy cell free : ℕ)
      → map (λ b. b.head) (placed fs copy cell free) ≡ map head_of (preorder_forest fs)
  unfolding placed preorder_forest head_of copy_node_adjacent
  placed-heads nil copy cell free = refl
  placed-heads (cons (node k cs) ms) copy cell free =
      ap (λ r. k ∷ r)
        (map-append (λ (b : Block). b.head) (placed cs _ _ _) (placed ms _ _ _)
          ∙ ap₂ ◌++◌ (placed-heads cs _ _ _) (placed-heads ms _ _ _)
          ∙ sym (map-append head_of (preorder_forest cs) (preorder_forest ms)))

  -- The bytes that `calcDatamodelSize` counts for a forest.
  counted : Forest → ℕ
  counted nil = 0
  counted (cons (node h cs) fs) =
      z.element + z.pointer * children_len cs + payload_size z h.kind + counted cs + counted fs

  rounds-counted :
      (fs : Forest) (s t : ℕ) (rest : List (Bool × Node))
      → s + counted fs ≡ t
      → fold_rounds (size_round z) s (preorder_forest fs ++ rest)
        ≡ fold_rounds (size_round z) t rest
  unfolding fold_rounds size_round preorder_forest counted
  rounds-counted nil s t rest e = ap (λ u. fold_rounds (size_round z) u rest) (omega arith)
  rounds-counted (cons (node k cs) ms) s t rest e =
      let here = s + (z.element + z.pointer * children_len cs) + payload_size z k.kind in
      ap (fold_rounds (size_round z) here)
        (append_assoc (preorder_forest cs) (preorder_forest ms) rest)
      ∙ rounds-counted cs here (here + counted cs) (preorder_forest ms ++ rest) refl
      ∙ rounds-counted ms (here + counted cs) t rest (omega arith)

  payload_size-to_copy :
      (known : Name → Bool) (k : Kind) → Payload known k → payload_size z k ≡ to_copy z k
  unfolding payload_size to_copy
  payload_size-to_copy known (model i) p = refl
  payload_size-to_copy known (namespace i) p = refl
  payload_size-to_copy known (source none) p = absurd p
  payload_size-to_copy known (source (some s)) p = refl
  payload_size-to_copy known (event none) p = absurd p
  payload_size-to_copy known (event (some e)) p = refl
  payload_size-to_copy known (object none) p = absurd p
  payload_size-to_copy known (object (some o)) p = refl
  payload_size-to_copy known (ref none) p = absurd p
  payload_size-to_copy known (ref (some name)) p = refl
  payload_size-to_copy known (complex i) p = refl
  payload_size-to_copy known (plain t i) p = refl

  counted-bytes :
      (known : Name → Bool) (fs : Forest) → Every (IsNodeOk known) fs → counted fs ≡ forest_bytes fs
  unfolding counted forest_bytes node_bytes
  counted-bytes known nil p = refl
  counted-bytes known (cons (node k cs) ms) p = omega (
    arith,
    payload_size-to_copy known k.kind p.0.0,
    counted-bytes known cs p.1,
    counted-bytes known ms p.2,
  )

  -- What the two functions give for one tree.
  pub record IsCopied (n : Node) (free : ℕ) : Type 0 where
    pub size : ℕ
    pub blocks : List Block
    pub calculated : calc_datamodel_size z n ≡ some size
    pub copied : copy_and_collect_datamodel z n free ≡ some (blocks, free + size)
    pub tiled : Tiles free blocks (free + size)
    pub heads : map (λ b. b.head) blocks ≡ map (λ v. header v.1) (preorder n)

  calculates :
      (n : Node) (size : ℕ)
      → z.element
          + z.pointer * children_len (children n)
          + payload_size z (header n).kind
          + counted (children n)
        ≡ size
      → calc_datamodel_size z n ≡ some size
  unfolding calc_datamodel_size preorder fold_rounds size_round
  calculates n size e =
      let here =
        0 + (z.element + z.pointer * children_len (children n)) + payload_size z (header n).kind in
      ap (size_result z) (traverse-preorder (size_round z) 0 n)
      ∙ ap (λ l. size_result z (some (fold_rounds (size_round z) here l)))
          (sym (append-nil (preorder_forest (children n))))
      ∙ ap (λ r. size_result z (some r)) (rounds-counted (children n) here size [] (omega arith))

  copies :
      (n : Node) (free : ℕ)
      → copy_and_collect_datamodel z n free
        ≡ some (
          copy_node_adjacent z free n none none
              ∷ placed (children n) free (free + z.element) (free + node_bytes z n),
          free + node_bytes z n + forest_bytes (children n),
        )
  unfolding copy_and_collect_datamodel placed_frames frames_bytes rounds node_size
  copies n free =
      ap (behind _) (
        collect-placed (2 * node_size n) (free + node_bytes z n)
          ((children n, free, free + z.element) ∷ []) (omega arith))
      ∙ ap₂ (λ l e. some (copy_node_adjacent z free n none none ∷ l, e)) (append-nil _)
          (omega arith)

  -- For a tree whose nodes pass the syntax check, `calcDatamodelSize` gives the bytes that
  -- `copyAndCollectDatamodel` uses at any address: the copies of all nodes, in preorder, one behind
  -- the other. Both loops end.
  pub copy_and_collect_datamodel-IsCopied :
      (known : Name → Bool) (n : Node) (free : ℕ)
      → Every (IsNodeOk known) (cons n nil)
      → IsCopied n free
  unfolding preorder node_bytes head_of
  copy_and_collect_datamodel-IsCopied known (node h cs) free p =
      let n = node h cs in
      let root = copy_node_adjacent z free n none none in
      let total = node_bytes z n + forest_bytes cs in
      let same = payload_size-to_copy known h.kind p.0.0 in
      let below = counted-bytes known cs p.1 in
      let ends : free + node_bytes z n + forest_bytes cs ≡ free + total = omega arith in
      record {
        size = total;
        blocks = root ∷ placed cs free (free + z.element) (free + node_bytes z n);
        calculated = calculates n total (omega (arith, same, below));
        copied =
            copies n free
            ∙ ap (λ e. some (root ∷ placed cs free (free + z.element) (free + node_bytes z n), e))
                ends;
        tiled =
            unfold copy_node_adjacent in
            (refl, placed-Tiles cs free (free + z.element) _ (free + total) (omega arith));
        heads = unfold copy_node_adjacent in ap (λ r. h ∷ r) (placed-heads cs free _ _);
      }
