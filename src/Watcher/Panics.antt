-- ===== src/Watcher/Panics.antt =====
-- Draining the queue, when the text of a changed file makes the parser panic.
use luaml.Prelude.{◌≡◌, refl, ap, sym, subst, ◌∙◌, Text, List, [], ◌∷◌, ◌++◌, append_assoc, inr}
use luaml.Prelude.Outcome.{ok, err, panic, out_of_fuel}
use luaml.Pattern.Chars.{Unicode}
use luaml.Clause.{Script}
use luaml.Frontmatter.File.{parse_luaml}
use luaml.FileSystem.{FileSystem}
use luaml.Registry.{ScriptRegistry, replace, register_text, register_parsed}
use luaml.Watcher.{
  FileChange, create_or_modify, ScriptWatcher, Applied, then_change, then_batch, apply_change,
  apply_batch, apply_batches, apply_pending,
}
use luaml.Watcher.Project.{
  scripts_at, flatten, after_changes, apply_change-at, after_changes-append,
}
use luaml.Watcher.Drain.{
  AllEnd, AllEnd-append, apply_change-IsOk, apply_batch-Done, then_change-ok, then_batch-ok,
}

module _ ⦃u : Unicode⦄ (fs : FileSystem) where
  -- The run ended in a panic, with these scripts of the path.
  abbrev Panics : Text → List Script → Applied → Type 0
  Panics path ss x = (x.1 ≡ panic) × (scripts_at path x.0.scripts ≡ ss)

  abbrev PanicsWith :
      Text → List (List FileChange) → List Script → List (List FileChange) × Applied → Type 0
  PanicsWith path left ss x = (x.0 ≡ left) × Panics path ss x.1

  then_change-panic :
      (path : Text) (ss : List Script) (x : Applied) (next : ScriptRegistry → List Text → Applied)
      → Panics path ss x
      → Panics path ss (then_change x next)
  then_change-panic path ss (r, ok changed) next h = absurd cc
  then_change-panic path ss (r, err e) next h = absurd cc
  then_change-panic path ss (r, panic) next h = h
  then_change-panic path ss (r, out_of_fuel) next h = absurd cc

  then_batch-panic :
      (path : Text) (ss : List Script) (x : Applied) (left : List (List FileChange))
      (next : ScriptRegistry → List Text → List (List FileChange) × Applied)
      → Panics path ss x
      → PanicsWith path left ss (then_batch x left next)
  then_batch-panic path ss (r, ok changed) left next h = absurd cc
  then_batch-panic path ss (r, err e) left next h = absurd cc
  then_batch-panic path ss (r, panic) left next h = (refl, h)
  then_batch-panic path ss (r, out_of_fuel) left next h = absurd cc

  reload_panic :
      (q text : Text) (r : ScriptRegistry) (changed : List Text)
      → fs.read_to_string q ≡ inr text
      → parse_luaml q text ≡ panic
      → (apply_change fs r changed (create_or_modify q)).1 ≡ panic
  unfolding apply_change replace register_text register_parsed
  reload_panic q text r changed t p = rw t (rw p refl)

  apply_batch-Panics :
      (path q text : Text) (r : ScriptRegistry) (changed : List Text)
      (before lost : List FileChange)
      → AllEnd fs before
      → fs.read_to_string q ≡ inr text
      → parse_luaml q text ≡ panic
      → Panics path
          (after_changes fs path (scripts_at path r.scripts) (before ++ create_or_modify q ∷ []))
          (apply_batch fs r changed (before ++ create_or_modify q ∷ lost))
  unfolding apply_batch after_changes
  apply_batch-Panics path q text r changed [] lost h t p =
      then_change-panic path _ (apply_change fs r changed (create_or_modify q)) _
        (reload_panic q text r changed t p, apply_change-at fs path r changed (create_or_modify q))
  apply_batch-Panics path q text r changed (c ∷ before) lost h t p =
      let x = apply_change fs r changed c in
      then_change-ok (Panics path _) x _ (apply_change-IsOk fs r changed c h.0) λ changed'.
        subst
          (λ ss.
            Panics path (after_changes fs path ss (before ++ create_or_modify q ∷ []))
              (apply_batch fs x.0 changed' (before ++ create_or_modify q ∷ lost)))
          (apply_change-at fs path r changed c)
          (apply_batch-Panics path q text x.0 changed' before lost h.1 t p)

  apply_batches-Panics :
      (path q text : Text) (r : ScriptRegistry) (changed : List Text)
      (done : List (List FileChange)) (before lost : List FileChange)
      (left : List (List FileChange))
      → AllEnd fs (flatten done)
      → AllEnd fs before
      → fs.read_to_string q ≡ inr text
      → parse_luaml q text ≡ panic
      → PanicsWith path left
          (after_changes fs path
            (scripts_at path r.scripts)
            (flatten done ++ (before ++ create_or_modify q ∷ [])))
          (apply_batches fs r changed (done ++ (before ++ create_or_modify q ∷ lost) ∷ left))
  unfolding apply_batches
  apply_batches-Panics path q text r changed [] before lost left d h t p =
      then_batch-panic path _ (apply_batch fs r changed (before ++ create_or_modify q ∷ lost)) left
        _ (apply_batch-Panics path q text r changed before lost h t p)
  apply_batches-Panics path q text r changed (b ∷ done) before lost left d h t p =
      let (hb, hd) = AllEnd-append fs b (flatten done) d in
      let x = apply_batch fs r changed b in
      let last = before ++ create_or_modify q ∷ [] in
      let (ended, at) = apply_batch-Done fs path r changed b hb in
      then_batch-ok (PanicsWith path left _) x _ _ ended λ changed'.
        subst
          (λ ss.
            PanicsWith path left ss (
              apply_batches fs x.0 changed' (done ++ (before ++ create_or_modify q ∷ lost) ∷ left)))
          (ap (λ ss. after_changes fs path ss (flatten done ++ last)) at
            ∙ sym
                (after_changes-append fs path (scripts_at path r.scripts) b (flatten done ++ last))
            ∙ ap (after_changes fs path (scripts_at path r.scripts))
                (sym (append_assoc b (flatten done) last)))
          (apply_batches-Panics path q text x.0 changed' done before lost left hd h t p)

-- When the text of a changed file makes the parser panic, and none before it in the queue does,
-- draining the queue ends in that panic: the changes up to it are applied, and the file has no
-- script, the rest of its batch is lost, and the batches behind it stay in the queue.
pub apply_pending-panics :
    ⦃u : Unicode⦄ (fs : FileSystem) (w : ScriptWatcher) (r : ScriptRegistry) (path q text : Text)
    (done : List (List FileChange)) (before lost : List FileChange) (left : List (List FileChange))
    → w.rx ≡ done ++ (before ++ create_or_modify q ∷ lost) ∷ left
    → AllEnd fs (flatten done)
    → AllEnd fs before
    → fs.read_to_string q ≡ inr text
    → parse_luaml q text ≡ panic
    → ((apply_pending fs w r).0.rx ≡ left)
      × ((apply_pending fs w r).1.1 ≡ panic)
      × (scripts_at path (apply_pending fs w r).1.0.scripts
          ≡ after_changes fs path
              (scripts_at path r.scripts)
              (flatten done ++ (before ++ create_or_modify q ∷ [])))
unfolding apply_pending
apply_pending-panics fs w r path q text done before lost left split d h t p =
    let (rest, (failed, at)) =
      apply_batches-Panics fs path q text r [] done before lost left d h t p in
    rw split (rest, failed, at)
