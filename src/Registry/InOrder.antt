-- ===== src/Registry/InOrder.antt =====
-- The matches of a registry, script by script.
use mathlib.Core.List
use luaml.Prelude.{Text, List, [], ◌∷◌, Option-cases, inl, inr}
use luaml.Types.{Float, FieldMap}
use luaml.Clause.{Clause, Script}
use luaml.Registry.{ClauseMatch, match_first_clause, match_scripts}
use luaml.Registry.First.{FirstIn, NoneFires, match_first_clause_iff, first_none}

-- A matched clause with its bindings, and the path of its script.
abbrev pub match_key : {F : Type 0} → ClauseMatch F → Text × Clause × FieldMap F
match_key m = (m.script.source_path, m.clause, m.bindings)

module _ {F : Type 0} ⦃fl : Float F⦄ where
  -- The scripts from the first to the last: one has no clause that fires, or its first one stands
  -- next.
  pub data InOrder (event : FieldMap F)
      : List Script → List (Text × Clause × FieldMap F) → Type 0 where
    finished : InOrder event [] []
    unmatched :
        {ss : List Script} {ks : List (Text × Clause × FieldMap F)}
        → (s : Script) → NoneFires s.clauses event
        → InOrder event ss ks
        → InOrder event (s ∷ ss) ks
    matched :
        {ss : List Script} {ks : List (Text × Clause × FieldMap F)}
        → (s : Script) (c : Clause) (b : FieldMap F) → FirstIn s.clauses event c b
        → InOrder event ss ks
        → InOrder event (s ∷ ss) ((s.source_path, c, b) ∷ ks)

  pub match_scripts-InOrder :
      (ss : List Script) (event : FieldMap F)
      → InOrder event ss (List.map match_key (match_scripts ss event))
  unfolding match_scripts
  match_scripts-InOrder [] event = finished
  match_scripts-InOrder (s ∷ ss) event = elim (Option-cases (match_first_clause s event)) [
    | inl e ↦
        rw (e, match_scripts) (unmatched s (first_none s event e) (match_scripts-InOrder ss event))
    | inr (m, e) ↦
        let (same, first) = (match_first_clause_iff s event m).0 e in
        rw (e, match_scripts)
          (rw same (matched s m.clause m.bindings first (match_scripts-InOrder ss event)))
  ]
