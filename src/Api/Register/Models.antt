-- ===== src/Api/Register/Models.antt =====
-- The registration of a data model without queries.
use claosi.Prelude.{ℕ, [], ◌≤◌, ◌≡◌, refl, sym, ap, ◌∙◌, true, Option, none, some}
use claosi.Prelude.Names.{Name}
use claosi.Errors.{Error}
use claosi.Model.{Node, children, node_size}
use claosi.Model.Lookup.{get_description}
use claosi.Model.Syntax.{Verdict}
use claosi.Model.Merge.{check_merge}
use claosi.Model.Insert.Union.Paths.{distinct, head_of, either}
use claosi.Model.Insert.Union.Agrees.{merge_data_model-check_merge}
use claosi.Model.Send.{Waited, finished, waiting, hung}
use claosi.Api.Register.{
  System, Result, returned, endless, crash, lock, unlock, with_root, Platform, register_queries,
  announced, announce, merged_in, tested, syntax_checked, register_provider,
}

error_of : Result → Option (Option Error)
error_of (returned e s) = some e
error_of endless = none
error_of crash = none

system_of : System → Result → System
system_of s (returned e s') = s'
system_of s endless = s
system_of s crash = s

same_system : (e e' : Option Error) (s s' : System) → returned e s ≡ returned e' s' → s ≡ s'
unfolding system_of
same_system e e' s s' h = ap (system_of s) h

-- What the function leaves behind, by what it returns: with an error the layer and its connection
-- as they were, and otherwise a data model in which a name finds what it finds in one of the two.
LeftBehind : System → Node → Name → Option Error → System → Type 0
LeftBehind s dm name (some e) s' = (s'.layer ≡ s.layer) × (s'.link ≡ s.link)
LeftBehind s dm name none s' =
    head_of (get_description (some s'.layer.root) name)
    ≡ either (head_of (get_description (some s.layer.root) name))
        (head_of (get_description (some dm) name))

module _ (p : Platform) (fuel : ℕ) (dm : Node) (s : System) (name : Name) where
  after_announcing :
      (root : Node) (w : Waited) (e : Option Error) (s' : System)
      → head_of (get_description (some root) name)
        ≡ either
            (head_of (get_description (some s.layer.root) name))
            (head_of (get_description (some dm) name))
      → announced p fuel none (unlock (with_root root (lock s))) w ≡ returned e s'
      → LeftBehind s dm name e s'
  unfolding announced register_queries LeftBehind error_of system_of
  after_announcing root (waiting l) e s' paths h = cc h
  after_announcing root hung e s' paths h = cc h
  after_announcing root (finished l) (some x) s' paths h = cc h
  after_announcing root (finished l) none s' paths h =
      ap (λ t. head_of (get_description (some t.layer.root) name))
        (sym (same_system none none _ s' h))
      ∙ paths

  after_test :
      (m : Option claosi.Model.Merge.Merged) (e : Option Error) (s' : System)
      → ((i : ℕ) → p.room i ≡ true)
      → distinct (children dm) ≡ true
      → node_size dm ≤ fuel
      → check_merge fuel s.layer.root dm ≡ m
      → tested p fuel dm none (lock s) m ≡ returned e s'
      → LeftBehind s dm name e s'
  unfolding tested merged_in announce LeftBehind
  after_test none e s' all d f c h = cc h
  after_test (some claosi.Model.Merge.crash) e s' all d f c h = cc h
  after_test (some (claosi.Model.Merge.error x)) none s' all d f c h = cc h
  after_test (some (claosi.Model.Merge.error x)) (some y) s' all d f c h =
      let same = sym (same_system (some x) (some y) _ s' h) in
      (ap (λ t. t.layer) same, ap (λ t. t.link) same)
  after_test (some claosi.Model.Merge.done) e s' all d f c h =
      let (root, m, paths) =
        merge_data_model-check_merge p.room s.layer.root dm 0 fuel fuel name all d c f in
      after_announcing root _ e s' paths (sym (ap (merged_in p fuel dm none (lock s)) m) ∙ h)

  after_check :
      (v : Verdict) (e : Option Error) (s' : System)
      → ((i : ℕ) → p.room i ≡ true)
      → distinct (children dm) ≡ true
      → node_size dm ≤ fuel
      → syntax_checked p fuel dm none s v ≡ returned e s'
      → LeftBehind s dm name e s'
  unfolding syntax_checked LeftBehind
  after_check Verdict.fault e s' all d f h = cc h
  after_check Verdict.hang e s' all d f h = cc h
  after_check (Verdict.failure x n) none s' all d f h = cc h
  after_check (Verdict.failure x n) (some y) s' all d f h =
      let same = sym (same_system (some x) (some y) s s' h) in
      (ap (λ t. t.layer) same, ap (λ t. t.link) same)
  after_check Verdict.success e s' all d f h = after_test _ e s' all d f refl h

-- For a data model that is handed in without queries: if every allocation of the merge succeeds, no two
-- siblings of the data model have one name, the fuel is its number of nodes at least, and an error is
-- returned, then the layer with its data model, and its connection to the other one,
-- are as before.
pub register_provider_keeps :
    (p : Platform) (fuel : ℕ) (dm : Node) (s s' : System) (e : Error)
    → ((i : ℕ) → p.room i ≡ true)
    → distinct (children dm) ≡ true
    → node_size dm ≤ fuel
    → register_provider p fuel (some dm) none s ≡ returned (some e) s'
    → (s'.layer ≡ s.layer) × (s'.link ≡ s.link)
unfolding register_provider LeftBehind
register_provider_keeps p fuel dm s s' e all d f h =
    after_check p fuel dm s [] _ (some e) s' all d f h

-- For a data model that is handed in without queries: if every allocation of the merge succeeds, no two
-- siblings of the data model have one name, the fuel is its number of nodes at least, and 0 is
-- returned, then a path leads to a node afterwards exactly if it did before or does in the
-- data model handed in. The node is then the one that was there before, if there was one.
pub register_provider_paths :
    (p : Platform) (fuel : ℕ) (dm : Node) (s s' : System) (name : Name)
    → ((i : ℕ) → p.room i ≡ true)
    → distinct (children dm) ≡ true
    → node_size dm ≤ fuel
    → register_provider p fuel (some dm) none s ≡ returned none s'
    → head_of (get_description (some s'.layer.root) name)
      ≡ either
          (head_of (get_description (some s.layer.root) name))
          (head_of (get_description (some dm) name))
unfolding register_provider LeftBehind
register_provider_paths p fuel dm s s' name all d f h =
    after_check p fuel dm s name _ none s' all d f h
