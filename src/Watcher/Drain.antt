-- ===== src/Watcher/Drain.antt =====
-- Draining the queue, when no text of a changed file makes the parser panic.
use luaml.Prelude.{◌≡◌, refl, ap, sym, subst, ◌∙◌, Text, Bool, List, [], ◌∷◌, ◌++◌, inl, inr}
use luaml.Prelude.Outcome.{Outcome, ok, err, panic, out_of_fuel, Ends, IsOk, ◌>>=◌}
use luaml.Pattern.Chars.{Unicode}
use luaml.Clause.{Script, LuamlError}
use luaml.Frontmatter.File.{parse_luaml}
use luaml.FileSystem.{FileSystem, IoResult}
use luaml.Registry.{ScriptRegistry, unregister, replace, register_text, register_parsed}
use luaml.Watcher.{
  FileChange, create_or_modify, remove, ScriptWatcher, Applied, then_change, then_batch, touched,
  reload, apply_change, apply_batch, apply_batches, apply_pending,
}
use luaml.Watcher.Project.{
  scripts_at, flatten, after_changes, apply_change-at, after_changes-append,
}

-- What holds of the next run, whichever paths were touched, holds when the first one succeeds.
pub then_change-ok :
    (P : Applied → Type 0) (x : Applied) (next : ScriptRegistry → List Text → Applied)
    → IsOk x.1
    → ((changed : List Text) → P (next x.0 changed))
    → P (then_change x next)
then_change-ok P (r, ok changed) next h k = k changed
then_change-ok P (r, err e) next h k = absurd h
then_change-ok P (r, panic) next h k = absurd h
then_change-ok P (r, out_of_fuel) next h k = absurd h

pub then_batch-ok :
    (P : List (List FileChange) × Applied → Type 0) (x : Applied) (batches : List (List FileChange))
    (next : ScriptRegistry → List Text → List (List FileChange) × Applied)
    → IsOk x.1
    → ((changed : List Text) → P (next x.0 changed))
    → P (then_batch x batches next)
then_batch-ok P (r, ok changed) batches next h k = k changed
then_batch-ok P (r, err e) batches next h k = absurd h
then_batch-ok P (r, panic) batches next h k = absurd h
then_batch-ok P (r, out_of_fuel) batches next h k = absurd h

module _ ⦃u : Unicode⦄ (fs : FileSystem) where
  -- Reading the file and parsing its text end, in a script or an error: the parser does not panic.
  abbrev pub TextEnds : Text → IoResult Text → Type 0
  TextEnds q (inl e) = Unit
  TextEnds q (inr text) = Ends (parse_luaml q text)

  abbrev pub ChangeEnds : FileChange → Type 0
  ChangeEnds (create_or_modify q) = TextEnds q (fs.read_to_string q)
  ChangeEnds (remove q) = Unit

  abbrev pub AllEnd : List FileChange → Type 0
  AllEnd [] = Unit
  AllEnd (c ∷ cs) = ChangeEnds c × AllEnd cs

  pub AllEnd-append : (cs ds : List FileChange) → AllEnd (cs ++ ds) → AllEnd cs × AllEnd ds
  AllEnd-append [] ds h = (tt, h)
  AllEnd-append (c ∷ cs) ds h = let (l, r) = AllEnd-append cs ds h.1 in ((h.0, l), r)

  -- The changes are applied without a panic, and the path has these scripts.
  abbrev pub Done : Text → List Script → Applied → Type 0
  Done path ss x = IsOk x.1 × (scripts_at path x.0.scripts ≡ ss)

  abbrev AllDone : Text → List Script → List (List FileChange) × Applied → Type 0
  AllDone path ss x = (x.0 ≡ []) × Done path ss x.1

  registered-IsOk :
      (r : ScriptRegistry) (changed : List Text) (path : Text) (removed : Bool)
      (o : Outcome LuamlError Script)
      → Ends o
      → IsOk (touched fs changed path ((register_parsed r o).1 >>= λ _. ok removed))
  unfolding register_parsed
  registered-IsOk r changed path removed (ok s) h = tt
  registered-IsOk r changed path removed (err e) h = tt
  registered-IsOk r changed path removed panic h = h
  registered-IsOk r changed path removed out_of_fuel h = h

  reload-IsOk :
      (r : ScriptRegistry) (changed : List Text) (q : Text) (t : IoResult Text)
      → TextEnds q t
      → IsOk (reload fs r changed q t).1
  unfolding replace register_text
  reload-IsOk r changed q (inl e) h = tt
  reload-IsOk r changed q (inr text) h =
      let (r', removed) = unregister r q in
      registered-IsOk r' changed q removed (parse_luaml q text) h

  pub apply_change-IsOk :
      (r : ScriptRegistry) (changed : List Text) (c : FileChange)
      → ChangeEnds c
      → IsOk (apply_change fs r changed c).1
  unfolding apply_change
  apply_change-IsOk r changed (create_or_modify q) h =
      reload-IsOk r changed q (fs.read_to_string q) h
  apply_change-IsOk r changed (remove q) h = tt

  pub apply_batch-Done :
      (path : Text) (r : ScriptRegistry) (changed : List Text) (cs : List FileChange)
      → AllEnd cs
      → Done path
          (after_changes fs path (scripts_at path r.scripts) cs)
          (apply_batch fs r changed cs)
  unfolding apply_batch after_changes
  apply_batch-Done path r changed [] h = (tt, refl)
  apply_batch-Done path r changed (c ∷ cs) h =
      then_change-ok (Done path _) (apply_change fs r changed c) _
        (apply_change-IsOk r changed c h.0)
        λ changed'.
          subst
            (λ ss.
              Done path (after_changes fs path ss cs)
                (apply_batch fs (apply_change fs r changed c).0 changed' cs))
            (apply_change-at fs path r changed c)
            (apply_batch-Done path (apply_change fs r changed c).0 changed' cs h.1)

  apply_batches-AllDone :
      (path : Text) (r : ScriptRegistry) (changed : List Text) (batches : List (List FileChange))
      → AllEnd (flatten batches)
      → AllDone path
          (after_changes fs path (scripts_at path r.scripts) (flatten batches))
          (apply_batches fs r changed batches)
  unfolding apply_batches after_changes
  apply_batches-AllDone path r changed [] h = (refl, (tt, refl))
  apply_batches-AllDone path r changed (b ∷ bs) h =
      let (hb, hbs) = AllEnd-append b (flatten bs) h in
      let x = apply_batch fs r changed b in
      let (done, at) = apply_batch-Done path r changed b hb in
      then_batch-ok (AllDone path _) x bs _ done λ changed'.
        subst (λ ss. AllDone path ss (apply_batches fs x.0 changed' bs))
          (ap (λ ss. after_changes fs path ss (flatten bs)) at
            ∙ sym (after_changes-append fs path (scripts_at path r.scripts) b (flatten bs)))
          (apply_batches-AllDone path x.0 changed' bs hbs)

-- When the text of each changed file that can be read parses or gives an error, without a panic,
-- draining the queue ends without a panic, empties it, and does to the scripts of each path what its
-- own changes do, one after another in the order of the batches, whatever the changes of other paths
-- are: a file that is gone leaves none, one that can be read leaves its parse, or none when it does
-- not parse, and one that cannot be read leaves the scripts as they were.
pub apply_pending-at :
    ⦃u : Unicode⦄ (fs : FileSystem) (w : ScriptWatcher) (r : ScriptRegistry) (path : Text)
    → AllEnd fs (flatten w.rx)
    → ((apply_pending fs w r).0.rx ≡ [])
      × IsOk (apply_pending fs w r).1.1
      × (scripts_at path (apply_pending fs w r).1.0.scripts
          ≡ after_changes fs path (scripts_at path r.scripts) (flatten w.rx))
unfolding apply_pending
apply_pending-at fs w r path h =
    let (empty, (done, at)) = apply_batches-AllDone fs path r [] w.rx h in (empty, done, at)
