-- ===== src/Registry/First.antt =====
-- `match_first_clause` against what it means for a clause to be the first that fires.
use luaml.Prelude.{
  ◌≡◌, refl, ap, sym, ◌∙◌, Text, Bool, true, false, Option, none, some, List, [], ◌∷◌, ◌++◌, ◌↔◌,
  inl, inr, Option-cases,
}
use luaml.Prelude.Maybe.{some-inj, if_some}
use luaml.Prelude.Outcome.{Outcome, ok, err}
use luaml.Types.{Float, FieldMap}
use luaml.Matching.{match_fields}
use luaml.Guard.Token.{GuardError}
use luaml.Guard.Eval.{evaluate_guard}
use luaml.Clause.{Clause, Script}
use luaml.Registry.{ClauseMatch, guard_passes, try_clause, first_clause_of, match_first_clause}

module _ {F : Type 0} ⦃fl : Float F⦄ where
  -- A missing guard holds, and one that is there evaluates to true, without an error.
  abbrev pub GuardHolds : Option Text → FieldMap F → Type 0
  GuardHolds none b = Unit
  GuardHolds (some g) b = evaluate_guard g b ≡ ok true

  abbrev pub Fires : Clause → FieldMap F → FieldMap F → Type 0
  Fires c event b = (match_fields c.policy.fields event ≡ some b) × GuardHolds c.guard b

  abbrev pub NoneFires : List Clause → FieldMap F → Type 0
  NoneFires [] event = Unit
  NoneFires (c ∷ cs) event = ((b : FieldMap F) → ¬ (Fires c event b)) × NoneFires cs event

  ok_true_iff :
      (r : Outcome (GuardError F) Bool) → (elim r [ ok b ↦ b | _ ↦ false ] ≡ true) ↔ (r ≡ ok true)
  ok_true_iff (ok true) = (λ h. refl, λ h. refl)
  ok_true_iff (ok false) = (λ h. cc, λ h. cc)
  ok_true_iff (err e) = (λ h. cc, λ h. cc)
  ok_true_iff Outcome.panic = (λ h. cc, λ h. cc)
  ok_true_iff Outcome.out_of_fuel = (λ h. cc, λ h. cc)

  guard_passes_iff : (g : Option Text) (b : FieldMap F) → (guard_passes g b ≡ true) ↔ GuardHolds g b
  unfolding guard_passes
  guard_passes_iff none b = (λ h. tt, λ h. refl)
  guard_passes_iff (some g) b = ok_true_iff (evaluate_guard g b)

  try_clause_sound :
      (c : Clause) (event b : FieldMap F) → try_clause c event ≡ some b → Fires c event b
  unfolding try_clause
  try_clause_sound c event b h = elim (Option-cases (match_fields c.policy.fields event)) [
    | inl e ↦ cc (rw (e, try_clause) at h)
    | inr (b', e) ↦
        let (p, q) = if_some (guard_passes c.guard b') (rw (e, try_clause) at h) in
        let same = some-inj q in (rw (← same) e, rw (← same) ((guard_passes_iff c.guard b').0 p))
  ]

  try_clause_complete :
      (c : Clause) (event b : FieldMap F) → Fires c event b → try_clause c event ≡ some b
  unfolding try_clause
  try_clause_complete c event b (m, g) =
      rw (m, try_clause) (rw ((guard_passes_iff c.guard b).1 g) refl)

  none_iff :
      (c : Clause) (event : FieldMap F)
      → try_clause c event ≡ none
      → (b : FieldMap F) → ¬ (Fires c event b)
  none_iff c event h b f = cc (try_clause_complete c event b f)

  -- The clauses before a split, and after it.
  abbrev pub FirstIn : List Clause → FieldMap F → Clause → FieldMap F → Type 0
  FirstIn cs event c b =
      (before after : List Clause) × (cs ≡ before ++ c ∷ after)
      × NoneFires before event
      × Fires c event b

  first_sound :
      (script : Script) (cs : List Clause) (event : FieldMap F) (m : ClauseMatch F)
      → first_clause_of script cs event ≡ some m
      → FirstIn cs event m.clause m.bindings × (m.script ≡ script)
  unfolding first_clause_of
  first_sound script [] event m h = cc
  first_sound script (c ∷ cs) event m h = elim (Option-cases (try_clause c event)) [
    | inl e ↦
        let ((before, after, split, before_none, fires), same) =
          first_sound script cs event m (rw (e, first_clause_of) at h) in
        (
          (c ∷ before, after, ap (λ xs. c ∷ xs) split, (none_iff c event e, before_none), fires),
          same,
        )
    | inr (b, e) ↦
        let q = some-inj (rw (e, first_clause_of) at h) in
        rw (← q) (([], cs, refl, tt, try_clause_sound c event b e), refl)
  ]

  none_of_clauses :
      (script : Script) (cs : List Clause) (event : FieldMap F)
      → first_clause_of script cs event ≡ none
      → NoneFires cs event
  unfolding first_clause_of
  none_of_clauses script [] event h = tt
  none_of_clauses script (c ∷ cs) event h = elim (Option-cases (try_clause c event)) [
    | inl e ↦ (none_iff c event e, none_of_clauses script cs event (rw (e, first_clause_of) at h))
    | inr (b, e) ↦ cc (rw (e, first_clause_of) at h)
  ]

  pub first_none :
      (script : Script) (event : FieldMap F)
      → match_first_clause script event ≡ none
      → NoneFires script.clauses event
  unfolding match_first_clause
  first_none script event h = none_of_clauses script script.clauses event h

  first_complete :
      (script : Script) (before after : List Clause) (c : Clause) (event b : FieldMap F)
      → NoneFires before event
      → Fires c event b
      → first_clause_of script (before ++ c ∷ after) event
        ≡ some (record { script = script; clause = c; bindings = b })
  unfolding first_clause_of
  first_complete script [] after c event b h f =
      rw (try_clause_complete c event b f, first_clause_of) refl
  first_complete script (d ∷ before) after c event b h f =
      elim (Option-cases (try_clause d event)) [
        | inl e ↦ rw (e, first_clause_of) (first_complete script before after c event b h.1 f)
        | inr (b', e) ↦ absurd (h.0 b' (try_clause_sound d event b' e))
      ]

-- A script's match is its first clause whose policy matches the event and whose guard, if it has
-- one, evaluates to true under the bindings of that match; there is a match exactly when some
-- clause is so.
pub match_first_clause_iff :
    {F : Type 0} ⦃fl : Float F⦄ (script : Script) (event : FieldMap F) (m : ClauseMatch F)
    → (match_first_clause script event ≡ some m)
      ↔ ((m.script ≡ script) × FirstIn script.clauses event m.clause m.bindings)
unfolding match_first_clause
match_first_clause_iff script event m = (
  λ h. let (f, same) = first_sound script script.clauses event m h in (same, f),
  λ (same, (before, after, split, none_before, f)).
      ap (λ cs. first_clause_of script cs event) split
      ∙ first_complete script before after m.clause event m.bindings none_before f
      ∙ ap (λ s. some (record { script = s; clause = m.clause; bindings = m.bindings })) (sym same),
)
