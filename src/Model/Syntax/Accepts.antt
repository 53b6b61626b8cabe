-- ===== src/Model/Syntax/Accepts.antt =====
-- What `checkDataModelSyntax` accepts, and which node it reports otherwise.
use claosi.Prelude.{
  subst, ◌≡◌, refl, sym, ap, ◌∙◌, inl, inr, ◌↔◌, ◌≢◌, Bool, true, false, ◌&&◌, List, [], ◌∷◌, ◌++◌,
  Option, none, some, Bool-cases, Option-cases, append_assoc, append-nil,
}
use claosi.Prelude.Names.{Name}
use claosi.Errors.{Error}
use claosi.Model.{Node, Forest, node, nil, cons}
use claosi.Model.Walk.{Round, go, stop, fold_rounds, preorder, preorder_forest, traverse-preorder}
use claosi.Model.Syntax.{
  resolves, check_node, Verdict, success, failure, fault, hang, check_round,
  check_data_model_syntax, is_leaf, verdict,
}
use claosi.Model.Syntax.Nodes.{IsNodeOk, Every, check_node-IsNodeOk}

module _ (known : Name → Bool) where
  -- The rounds over these nodes report nothing.
  abbrev pub AllPass : List (Bool × Node) → Type 0
  AllPass [] = Unit
  AllPass ((r, n) ∷ xs) = (check_node known n ≡ none) × ((r && is_leaf n) ≡ false) × AllPass xs

  AllPass-append : (xs ys : List (Bool × Node)) → AllPass (xs ++ ys) ↔ (AllPass xs × AllPass ys)
  AllPass-append [] ys = (λ h. (tt, h), λ h. h.1)
  AllPass-append ((r, n) ∷ xs) ys =
      let ih = AllPass-append xs ys in
      (λ h. let k = ih.0 h.2 in ((h.0, h.1, k.0), k.1), λ h. (h.0.0, h.0.1, ih.1 (h.0.2, h.1)))

  AllPass-Every : (fs : Forest) → AllPass (preorder_forest fs) ↔ Every (IsNodeOk known) fs
  unfolding preorder_forest
  AllPass-Every nil = (λ h. h, λ h. h)
  AllPass-Every (cons (node h cs) fs) =
      let both = AllPass-append (preorder_forest cs) (preorder_forest fs) in
      let here = check_node-IsNodeOk known (node h cs) in
      (
        λ p. let q = both.0 p.2 in (here.0 p.0, (AllPass-Every cs).0 q.0, (AllPass-Every fs).0 q.1),
        λ p. (here.1 p.0, refl, both.1 ((AllPass-Every cs).1 p.1, (AllPass-Every fs).1 p.2)),
      )

  rounds-AllPass :
      (xs : List (Bool × Node)) → (fold_rounds (check_round known) tt xs ≡ go tt) ↔ AllPass xs
  unfolding fold_rounds check_round
  rounds-AllPass [] = (λ h. tt, λ h. refl)
  rounds-AllPass ((r, n) ∷ xs) = elim (Option-cases (check_node known n)) [
    | inr (e, h) ↦ rw (h, fold_rounds, check_round) (λ q. cc, λ q. cc)
    | inl h ↦ elim (Bool-cases (r && is_leaf n)) [
      | inl l ↦ rw (h, l, fold_rounds, check_round) (λ q. cc, λ q. cc)
      | inr l ↦
          rw (h, l, fold_rounds, check_round)
            (λ q. (refl, refl, (rounds-AllPass xs).0 q), λ q. (rounds-AllPass xs).1 q.2)
    ]
  ]

  -- The first node that fails, and what stands before it.
  abbrev pub FirstFailure : List (Bool × Node) → Error → Node → Type 0
  FirstFailure xs e n =
      (before : List (Bool × Node)) × (r : Bool) × (after : List (Bool × Node)) × (xs
        ≡ before ++ ((r, n) ∷ after))
      × AllPass before
      × (check_node known n ≡ some e)

  failed_node :
      {x e : Error} {m n : Node}
      → ◌≡◌ {A = Round (Unit {0}) Verdict} (stop (failure x m)) (stop (failure e n))
      → m ≡ n
  failed_node q = cc q

  failed_error :
      {x e : Error} {m n : Node}
      → ◌≡◌ {A = Round (Unit {0}) Verdict} (stop (failure x m)) (stop (failure e n))
      → x ≡ e
  failed_error q = cc q

  rounds-FirstFailure :
      (xs : List (Bool × Node)) (e : Error) (n : Node)
      → fold_rounds (check_round known) tt xs ≡ stop (failure e n)
      → FirstFailure xs e n
  unfolding fold_rounds check_round
  rounds-FirstFailure [] e n h = cc
  rounds-FirstFailure ((r, m) ∷ xs) e n h = elim (Option-cases (check_node known m)) [
    | inr (x, p) ↦
        let q : ◌≡◌ {A = Round (Unit {0}) Verdict} (stop (failure x m)) (stop (failure e n)) =
          rw (p, fold_rounds, check_round) at h in
        (
          [],
          r,
          xs,
          ap (λ k. (r, k) ∷ xs) (failed_node q),
          tt,
          ap (check_node known) (sym (failed_node q)) ∙ p ∙ ap some (failed_error q),
        )
    | inl p ↦ elim (Bool-cases (r && is_leaf m)) [
      | inl l ↦
          let q : ◌≡◌ {A = Round (Unit {0}) Verdict} (stop fault) (stop (failure e n)) =
            rw (p, l, fold_rounds, check_round) at h in
          cc q
      | inr l ↦
          let (before, b, after, eq, pass, fails) =
            rounds-FirstFailure xs e n (rw (p, l, fold_rounds, check_round) at h) in
          ((r, m) ∷ before, b, after, ap (λ k. (r, m) ∷ k) eq, (p, l, pass), fails)
    ]
  ]

  -- A fault comes from a root without children, and from nowhere else.
  rounds-no_fault :
      (fs : Forest) (rest : List (Bool × Node))
      → fold_rounds (check_round known) tt (preorder_forest fs ++ rest) ≡ stop fault
      → fold_rounds (check_round known) tt rest ≡ stop fault
  unfolding fold_rounds check_round preorder_forest
  rounds-no_fault nil rest h = h
  rounds-no_fault (cons (node k cs) fs) rest h =
      elim (Option-cases (check_node known (node k cs))) [
        | inr (x, p) ↦
            let q : ◌≡◌ {A = Round (Unit {0}) Verdict} (stop (failure x (node k cs))) (stop fault) =
              rw (p, fold_rounds, check_round) at h in
            cc q
        | inl p ↦
            let q : fold_rounds (check_round known) tt
                  ((preorder_forest cs ++ preorder_forest fs) ++ rest)
                ≡ stop fault =
              rw (p, fold_rounds, check_round) at h in
            rounds-no_fault fs rest (
              rounds-no_fault cs (preorder_forest fs ++ rest)
                (rw (append_assoc (preorder_forest cs) (preorder_forest fs) rest) at q))
      ]

-- A round stops with a fault or with a failure.
abbrev Bad : Verdict → Type 0
Bad success = ⊥
Bad (failure e n) = Unit
Bad fault = Unit
Bad hang = ⊥

rounds-Bad :
    (known : Name → Bool) (xs : List (Bool × Node)) (v : Verdict)
    → fold_rounds (check_round known) tt xs ≡ stop v
    → Bad v
unfolding fold_rounds check_round
rounds-Bad known [] v h = cc h
rounds-Bad known ((r, m) ∷ xs) v h = elim (Option-cases (check_node known m)) [
  | inr (x, p) ↦ subst Bad (stopped (failure x m) v (rw (p, fold_rounds, check_round) at h)) tt
  | inl p ↦ elim (Bool-cases (r && is_leaf m)) [
    | inl l ↦ subst Bad (stopped fault v (rw (p, l, fold_rounds, check_round) at h)) tt
    | inr l ↦ rounds-Bad known xs v (rw (p, l, fold_rounds, check_round) at h)
  ]
]
  where
    stopped : (u w : Verdict) → ◌≡◌ {A = Round (Unit {0}) Verdict} (stop u) (stop w) → u ≡ w
    stopped u w q = cc q

pub check_data_model_syntax-fold :
    (current : Option Node) (root : Node)
    → check_data_model_syntax current root
      ≡ verdict (some (fold_rounds (check_round (resolves current root)) tt (preorder root)))
unfolding check_data_model_syntax
check_data_model_syntax-fold current root = ap verdict (traverse-preorder _ tt root)

-- A data model is accepted exactly if its root has children and every node has the payload and the
-- children that its kind asks for, names resolved in the model itself or in the current one.
pub check_data_model_syntax-success :
    (current : Option Node) (root : Node)
    → (check_data_model_syntax current root ≡ success)
      ↔ ((is_leaf root ≡ false) × Every (IsNodeOk (resolves current root)) (cons root nil))
unfolding preorder
check_data_model_syntax-success current (node h cs) =
    let root = node h cs in
    let known = resolves current root in
    let same = check_data_model_syntax-fold current root in
    let passes = rounds-AllPass known (preorder root) in
    let here = check_node-IsNodeOk known root in
    let below = AllPass-Every known cs in
    (
      λ q. let a = passes.0 (go_on _ refl (sym same ∙ q)) in (a.1, (here.0 a.0, below.0 a.2, tt)),
      λ q. same ∙ ap (λ r. verdict (some r)) (passes.1 (here.1 q.1.0, q.0, below.1 q.1.1)),
    )
  where
    go_on :
        (r : Round (Unit {0}) Verdict)
        → fold_rounds (check_round (resolves current (node h cs))) tt (preorder (node h cs)) ≡ r
        → verdict (some r) ≡ success
        → r ≡ go tt
    go_on (go s) e q = refl
    go_on (stop v) e q = absurd (subst Bad q (rounds-Bad _ (preorder (node h cs)) v e))

-- The node that is reported is the first in preorder that fails its tests, with its error.
pub check_data_model_syntax-failure :
    (current : Option Node) (root n : Node) (e : Error)
    → check_data_model_syntax current root ≡ failure e n
    → FirstFailure (resolves current root) (preorder root) e n
check_data_model_syntax-failure current root n e q =
    rounds-FirstFailure _ (preorder root) e n
      (stopped _ (sym (check_data_model_syntax-fold current root) ∙ q))
  where
    stopped :
        (r : Round (Unit {0}) Verdict) → verdict (some r) ≡ failure e n → r ≡ stop (failure e n)
    stopped (go s) p = cc p
    stopped (stop v) p = ap stop p

-- What a run over these nodes says of a verdict that is not success.
verdict-rounds :
    (known : Name → Bool) (xs : List (Bool × Node)) (v : Verdict)
    → verdict (some (fold_rounds (check_round known) tt xs)) ≡ v
    → v ≢ success
    → fold_rounds (check_round known) tt xs ≡ stop v
verdict-rounds known xs v q ne = named (fold_rounds (check_round known) tt xs) q
  where
    named : (r : Round (Unit {0}) Verdict) → verdict (some r) ≡ v → r ≡ stop v
    named (go s) p = absurd (ne (sym p))
    named (stop w) p = ap stop p

check_data_model_syntax-ends :
    (current : Option Node) (root : Node) → check_data_model_syntax current root ≢ hang
check_data_model_syntax-ends current root q = rounds-Bad _ (preorder root) hang (
    verdict-rounds _ (preorder root) hang (sym (check_data_model_syntax-fold current root) ∙ q)
      (λ e. cc e))

root-fault :
    (known : Name → Bool) (root : Node)
    → (fold_rounds (check_round known) tt (preorder root) ≡ stop fault)
      ↔ ((is_leaf root ≡ true) × (check_node known root ≡ none))
unfolding preorder fold_rounds check_round preorder_forest
root-fault known (node h nil) = elim (Option-cases (check_node known (node h nil))) [
  | inl p ↦ rw (p, fold_rounds, check_round) (λ q. (refl, refl), λ q. refl)
  | inr (x, p) ↦ rw (p, fold_rounds, check_round) (λ q. cc q, λ q. cc q.1)
]
root-fault known (node h (cons n fs)) =
    elim (Option-cases (check_node known (node h (cons n fs)))) [
      | inl p ↦
          rw (p, fold_rounds, check_round)
            (
              λ q.
                  let below : fold_rounds (check_round known) tt (preorder_forest (cons n fs) ++ [])
                      ≡ stop fault =
                    rw append-nil q in
                  let none_left : ◌≡◌ {A = Round (Unit {0}) Verdict} (go tt) (stop fault) =
                    rounds-no_fault known (cons n fs) [] below in
                  cc none_left,
              λ q. cc,
            )
      | inr (x, p) ↦ rw (p, fold_rounds, check_round) (λ q. cc q, λ q. cc q.1)
    ]

-- The check ends. It reads through the root's NULL parent exactly if the root has no children and
-- has the payload and the children that its kind asks for.
pub check_data_model_syntax-fault :
    (current : Option Node) (root : Node)
    → (check_data_model_syntax current root ≢ hang)
      × ((check_data_model_syntax current root ≡ fault)
          ↔ ((is_leaf root ≡ true) × IsNodeOk (resolves current root) root))
check_data_model_syntax-fault current root =
    let known = resolves current root in
    let same = check_data_model_syntax-fold current root in
    let here = check_node-IsNodeOk known root in
    let falls = root-fault known root in
    (
      check_data_model_syntax-ends current root,
      (
        λ q.
            let f =
              falls.0 (verdict-rounds known (preorder root) fault (sym same ∙ q) (λ e. cc e)) in
            (f.0, here.0 f.1),
        λ q. same ∙ ap (λ r. verdict (some r)) (falls.1 (q.0, here.1 q.1)),
      ),
    )
