-- ===== src/Engine/Progress.antt =====
-- What a cascade keeps and what it spends: the registry, the stack of visited events, the budget,
-- the counters and the outcomes.
use luaml.Prelude.{
  ℕ, zero, suc, ◌+◌, ◌-◌, ◌%◌, ◌≤◌, ◌<◌, max, ◌≡◌, refl, sym, ◌∙◌, ap, Bool, true, false, List, [],
  ◌∷◌, ◌++◌, append-nil, append_assoc, arith, leb, length, ◌==◌, Bool-cases, inl, inr, ==_refl,
  text_eq_refl,
}
use luaml.Prelude.Int.{int_eq_iff}
use luaml.Types.{Float, FieldMap}
use luaml.Registry.{ClauseMatch, match_clauses}
use luaml.Matching.{bool_eq}
use luaml.Engine.Signature.{
  FieldValueSig, SigValues, SigPairs, no_sigs, sig_cons, no_pairs, pair, sig_eq, sig_values_eq,
  sig_pairs_eq, event_signature,
}
use luaml.Engine.Api.{Vm, BodyResult, emitted, failed}
use luaml.Engine.State.{CascadeConfig, u64_mod}
use luaml.Engine.Cascade.{
  CascadeState, ClauseOutcome, push_outcome, body_outcome, execute_matched, spend, count_matched,
  note_depth, emissions_loop, matches_loop, enter, dispatch_inner, is_visited, unmark,
}

bool_eq_refl : (b : Bool) → bool_eq b b ≡ true
bool_eq_refl true = refl
bool_eq_refl false = refl

mutual
  unfolding sig_eq

  sig_refl : (s : FieldValueSig) → sig_eq s s ≡ true
  sig_refl (FieldValueSig.enum s) = text_eq_refl s
  sig_refl (FieldValueSig.string s) = text_eq_refl s
  sig_refl (FieldValueSig.number n) = (int_eq_iff n n).1 refl
  sig_refl (FieldValueSig.float n) = ==_refl n
  sig_refl (FieldValueSig.bool b) = bool_eq_refl b
  sig_refl FieldValueSig.null = refl
  sig_refl (FieldValueSig.list xs) = sig_values_refl xs
  sig_refl (FieldValueSig.map ps) = sig_pairs_refl ps

  sig_values_refl : (xs : SigValues) → sig_values_eq xs xs ≡ true
  sig_values_refl no_sigs = refl
  sig_values_refl (sig_cons x xs) = rw (sig_refl x) (sig_values_refl xs)

  sig_pairs_refl : (ps : SigPairs) → sig_pairs_eq ps ps ≡ true
  sig_pairs_refl no_pairs = refl
  sig_pairs_refl (pair k v ps) = rw (text_eq_refl k, sig_refl v) (sig_pairs_refl ps)

unmark-absent :
    (sig : SigPairs) (ss : List SigPairs) → is_visited sig ss ≡ false → unmark sig ss ≡ ss
unfolding is_visited unmark
unmark-absent sig [] h = refl
unmark-absent sig (s ∷ ss) h = ground (arith, unmark-absent sig ss)

unmark-mark :
    (sig : SigPairs) (ss : List SigPairs) → is_visited sig ss ≡ false → unmark sig (sig ∷ ss) ≡ ss
unfolding unmark
unmark-mark sig ss h = rw (sig_pairs_refl sig) (unmark-absent sig ss h)

-- From `st` to `st'` in a cascade whose depth stays within `limit`.
pub record Progress {L H F : Type 0} (limit : ℕ) (st st' : CascadeState L H F) : Type 0 where
  pub same_registry : st'.engine.registry ≡ st.engine.registry
  pub same_watcher : st'.engine.watcher ≡ st.engine.watcher
  pub same_visited : st'.visited ≡ st.visited
  pub budget : st'.budget_remaining ≤ st.budget_remaining
  pub emissions :
      st'.engine.cascades_emitted % u64_mod
      ≡ (st.engine.cascades_emitted + (st.budget_remaining - st'.budget_remaining)) % u64_mod
  pub depth_grows : st.engine.cascade_depth_max ≤ st'.engine.cascade_depth_max
  pub depth_bound : st'.engine.cascade_depth_max ≤ max st.engine.cascade_depth_max limit
  pub more : List (ClauseOutcome F)
  pub outcomes : st'.outcomes ≡ st.outcomes ++ more

module _ {L H F : Type 0} (limit : ℕ) where
  Progress-refl : (st : CascadeState L H F) → Progress limit st st
  Progress-refl st = record {
    same_registry = refl;
    same_watcher = refl;
    same_visited = refl;
    budget = omega arith;
    emissions = omega arith;
    depth_grows = omega arith;
    depth_bound = omega arith;
    more = [];
    outcomes = sym (append-nil st.outcomes);
  }

  Progress-trans :
      {st st' st'' : CascadeState L H F}
      → Progress limit st st'
      → Progress limit st' st''
      → Progress limit st st''
  Progress-trans {st} {st'} {st''} p q = record {
    same_registry = q.same_registry ∙ p.same_registry;
    same_watcher = q.same_watcher ∙ p.same_watcher;
    same_visited = q.same_visited ∙ p.same_visited;
    budget = omega (arith, p.budget, q.budget);
    emissions = omega (arith, p.budget, q.budget, p.emissions, q.emissions);
    depth_grows = omega (arith, p.depth_grows, q.depth_grows);
    depth_bound = omega (arith, p.depth_bound, q.depth_bound);
    more = p.more ++ q.more;
    outcomes =
        q.outcomes ∙ ap (λ o. o ++ q.more) p.outcomes ∙ append_assoc st.outcomes p.more q.more;
  }

  push_outcome-Progress :
      (o : ClauseOutcome F) (st : CascadeState L H F) → Progress limit st (push_outcome o st)
  unfolding push_outcome
  push_outcome-Progress o st = record {
    same_registry = refl;
    same_watcher = refl;
    same_visited = refl;
    budget = omega arith;
    emissions = omega arith;
    depth_grows = omega arith;
    depth_bound = omega arith;
    more = o ∷ [];
    outcomes = refl;
  }

  spend-Progress :
      (st : CascadeState L H F) → 0 < st.budget_remaining → Progress limit st (spend st)
  unfolding spend
  spend-Progress st h = record {
    same_registry = refl;
    same_watcher = refl;
    same_visited = refl;
    budget = omega arith;
    emissions = omega arith;
    depth_grows = omega arith;
    depth_bound = omega arith;
    more = [];
    outcomes = sym (append-nil st.outcomes);
  }

  body-Progress :
      (m : ClauseMatch F) (st : CascadeState L H F) (lua : L) (r : BodyResult F)
      → Progress limit st
          (record st { engine = (body_outcome m (record st.engine { lua = lua }) r).0 })
  unfolding body_outcome
  body-Progress m st lua (emitted events) = record {
    same_registry = refl;
    same_watcher = refl;
    same_visited = refl;
    budget = omega arith;
    emissions = omega arith;
    depth_grows = omega arith;
    depth_bound = omega arith;
    more = [];
    outcomes = sym (append-nil st.outcomes);
  }
  body-Progress m st lua (failed message) = record {
    same_registry = refl;
    same_watcher = refl;
    same_visited = refl;
    budget = omega arith;
    emissions = omega arith;
    depth_grows = omega arith;
    depth_bound = omega arith;
    more = [];
    outcomes = sym (append-nil st.outcomes);
  }

  execute-Progress :
      (vm : Vm L H F) (m : ClauseMatch F) (st : CascadeState L H F)
      → Progress limit st (execute_matched vm m st).0
  unfolding execute_matched
  execute-Progress vm m st = Progress-trans (body-Progress m st _ _) (push_outcome-Progress _ _)

module _ {L H F : Type 0} ⦃fl : Float F⦄ (vm : Vm L H F) (config : CascadeConfig) (limit : ℕ) where
  abbrev Deeper : Type 0
  Deeper = FieldMap F → CascadeState L H F → CascadeState L H F

  abbrev Progresses : Deeper → Type 0
  Progresses deeper = (e : FieldMap F) (s : CascadeState L H F) → Progress limit s (deeper e s)

  emissions-Progress :
      (depth : ℕ) (deeper : Deeper)
      → Progresses deeper
      → (events : List (FieldMap F)) (st : CascadeState L H F)
      → Progress limit st (emissions_loop vm config depth deeper events st).0
  unfolding emissions_loop
  emissions-Progress depth deeper step [] st = Progress-refl limit st
  emissions-Progress depth deeper step (e ∷ events) st =
      elim (Bool-cases (st.budget_remaining == 0)) [
        | inl none_left ↦ rw none_left (push_outcome-Progress limit _ st)
        | inr some_left ↦ rw some_left (
            Progress-trans limit (spend-Progress limit st (ground arith)) (
              Progress-trans limit (step e (spend st))
                (emissions-Progress depth deeper step events (deeper e (spend st)))))
      ]

  matches-Progress :
      (depth : ℕ) (deeper : Deeper)
      → Progresses deeper
      → (ms : List (ClauseMatch F)) (st : CascadeState L H F)
      → Progress limit st (matches_loop vm config depth deeper ms st)
  unfolding matches_loop
  matches-Progress depth deeper step [] st = Progress-refl limit st
  matches-Progress depth deeper step (m ∷ ms) st =
      let ran = execute_matched vm m st in
      let fed = emissions_loop vm config depth deeper ran.1 ran.0 in
      let so_far =
        Progress-trans limit (execute-Progress limit vm m st)
          (emissions-Progress depth deeper step ran.1 ran.0) in
      elim (Bool-cases fed.1) [
        | inl stopped ↦ rw stopped so_far
        | inr going ↦
            rw going (Progress-trans limit so_far (matches-Progress depth deeper step ms fed.0))
      ]

  enter-Progress :
      (depth : ℕ) (deeper : Deeper)
      → Progresses deeper
      → (event : FieldMap F) (sig : SigPairs) (st : CascadeState L H F)
      → is_visited sig st.visited ≡ false
      → Progress limit st (enter vm config depth deeper event sig st)
  unfolding enter
  enter-Progress depth deeper step event sig st fresh =
      let ms = match_clauses st.engine.registry event in
      let p =
        matches-Progress depth deeper step ms
          (count_matched (length ms) (record st { visited = sig ∷ st.visited })) in
      record {
        same_registry = p.same_registry;
        same_watcher = p.same_watcher;
        same_visited = ap (unmark sig) p.same_visited ∙ unmark-mark sig st.visited fresh;
        budget = p.budget;
        emissions = p.emissions;
        depth_grows = p.depth_grows;
        depth_bound = p.depth_bound;
        more = p.more;
        outcomes = p.outcomes;
      }

note_depth-Progress :
    {L H F : Type 0} (limit depth : ℕ) (st : CascadeState L H F)
    → depth ≤ limit
    → Progress limit st (note_depth depth st)
note_depth-Progress limit depth st h = record {
  same_registry = refl;
  same_watcher = refl;
  same_visited = refl;
  budget = omega arith;
  emissions = omega arith;
  depth_grows = omega arith;
  depth_bound = omega arith;
  more = [];
  outcomes = sym (append-nil st.outcomes);
}

-- Whatever the scripts emit, a dispatch from a depth within the limit keeps the registry and the
-- watcher, leaves the stack of visited events as it found it, only adds outcomes, counts one
-- emission for each unit of budget spent (modulo 2^64), and goes no deeper than the limit.
pub dispatch_inner-Progress :
    {L H F : Type 0} ⦃fl : Float F⦄ (vm : Vm L H F) (config : CascadeConfig) (f depth : ℕ)
    (event : FieldMap F) (st : CascadeState L H F)
    → depth ≤ config.max_depth
    → Progress config.max_depth st (dispatch_inner vm config f depth event st)
unfolding dispatch_inner
dispatch_inner-Progress vm config zero depth event st h = Progress-refl config.max_depth st
dispatch_inner-Progress vm config (suc f) depth event st h =
    let st₀ = note_depth depth st in
    let sig = event_signature event in
    Progress-trans config.max_depth (note_depth-Progress config.max_depth depth st h)
      elim (Bool-cases (leb config.max_depth depth)) [
        | inl deep ↦ rw deep (push_outcome-Progress config.max_depth _ st₀)
        | inr shallow ↦ elim (Bool-cases (is_visited sig st.visited)) [
          | inl cycle ↦ rw (shallow, cycle) (push_outcome-Progress config.max_depth _ st₀)
          | inr fresh ↦
              rw (shallow, fresh)
                (enter-Progress vm config config.max_depth depth
                  (dispatch_inner vm config f (depth + 1))
                  (λ e s. dispatch_inner-Progress vm config f (depth + 1) e s (ground arith)) event
                  sig st₀ fresh)
        ]
      ]
