-- ===== src/Samples/Watcher.antt =====
-- Roots and queued changes on the sample file system.
use luaml.Prelude.{
  ◌+◌, ◌≡◌, refl, codes, Text, none, some, inr, List, [], ◌∷◌, text_eq, trim, split_once,
}
use luaml.Prelude.Outcome.{ok, panic, IsOk}
use luaml.FileSystem.{FileSystem}
use luaml.Pattern.{no_fields, field, enum}
use luaml.Pattern.Parse.{parse_pattern_value}
use luaml.Clause.{Script}
use luaml.Paths.{path_eq}
use luaml.Frontmatter.File.{parse_luaml}
use luaml.Watcher.{FileChange, create_or_modify, remove, ScriptWatcher, apply_pending}
use luaml.Watcher.Project.{scripts_at, after_changes, flatten}
use luaml.Watcher.Drain.{AllEnd, apply_pending-at}
use luaml.Watcher.Panics.{apply_pending-panics}
use luaml.Engine.State.{LuamlEngine, with_lua}
use luaml.Engine.Cascade
use luaml.Engine.Roots.{register_roots, reload_roots}
use luaml.Engine.Roots.Reload.{register_roots-reload_roots}
use luaml.Engine.Roots.Distinct.{Grown, register_roots-DistinctRoots}
use luaml.Engine.Watch.{dispatch, drain}
use luaml.Engine.Watch.Applied.{emptied, dispatch-applies}
use luaml.Samples.{ascii, nat_float, vm, event}
use luaml.Samples.Files.{files, toml, script_text}

abbrev fresh : LuamlEngine (Unit {0}) (Unit {0})
fresh = with_lua tt

abbrev roots : List Text
roots = codes "r" ∷ codes "r/." ∷ codes "r/sub" ∷ []

register_roots-DistinctRoots_example : Grown fresh roots (register_roots files toml 5 fresh roots)
register_roots-DistinctRoots_example =
    register_roots-DistinctRoots files toml 5 fresh roots (unfold with_lua in tt)

abbrev rooted : LuamlEngine (Unit {0}) (Unit {0})
rooted = (register_roots files toml 5 fresh roots).0

two_registered : register_roots files toml 5 fresh roots ≡ (rooted, ok 2)
unfolding register_roots text_eq with_lua trim split_once parse_pattern_value path_eq
two_registered = refl

register_roots-reload_roots_example : reload_roots files toml 5 rooted ≡ (rooted, ok (0 + 2))
register_roots-reload_roots_example =
    register_roots-reload_roots files toml 5 fresh rooted roots 0 2
      (unfold reload_roots with_lua in refl) two_registered

abbrev path : Text
path = codes "r/a.luaml"

abbrev queued : List FileChange
queued = remove path ∷ remove (codes "r/b.luaml") ∷ []

abbrev watcher : ScriptWatcher
watcher = record { rx = queued ∷ (create_or_modify path ∷ remove (codes "r/c.luaml") ∷ []) ∷ [] }

abbrev reloaded : Script
reloaded = record {
  source_path = path;
  extension = none;
  clauses =
      record {
        policy = record { fields = field (codes "type") (enum (codes "input")) no_fields };
        guard = none;
        behavior = record { lua_source = codes "body" };
        annotations = [];
        field_annotations = [];
      }
      ∷ [];
}

script_parses : parse_luaml path script_text ≡ ok reloaded
unfolding parse_luaml text_eq trim split_once parse_pattern_value
script_parses = refl

-- Of the changed files, only one can be read.
queue_ends : AllEnd files (flatten watcher.rx)
unfolding text_eq
queue_ends = (tt, (tt, (rw script_parses tt, (tt, tt))))

apply_pending-at_example :
    ((apply_pending files watcher fresh.registry).0.rx ≡ [])
    × IsOk (apply_pending files watcher fresh.registry).1.1
    × (scripts_at path (apply_pending files watcher fresh.registry).1.0.scripts
        ≡ after_changes files path (scripts_at path fresh.registry.scripts) (flatten watcher.rx))
apply_pending-at_example = apply_pending-at files watcher fresh.registry path queue_ends

abbrev watching : LuamlEngine (Unit {0}) (Unit {0})
watching = record fresh { watcher = some watcher }

dispatch-applies_example :
    ((dispatch files vm watching event).1
      ≡ ok (Cascade.dispatch vm (drain files watching).0 event).1)
    × ((dispatch files vm watching event).0.watcher ≡ some (emptied watcher))
    × (scripts_at path (dispatch files vm watching event).0.registry.scripts
        ≡ after_changes files path (scripts_at path watching.registry.scripts) (flatten watcher.rx))
dispatch-applies_example = dispatch-applies files vm watching watcher event path refl queue_ends

abbrev broken_text : Text
broken_text = codes "---\ntype: \"\n---\nbody"

-- A file whose text is a quote too few, for which the pattern parser panics.
abbrev broken_files : FileSystem
broken_files = record files { read_to_string = λ p. inr broken_text }

abbrev later : List FileChange
later = remove (codes "r/c.luaml") ∷ []

abbrev interrupted : ScriptWatcher
interrupted = record {
  rx = (remove path ∷ create_or_modify path ∷ remove (codes "r/b.luaml") ∷ []) ∷ later ∷ [];
}

-- The changes behind it are not applied: the rest of its batch is lost, and the later batch waits.
drain_panics :
    apply_pending broken_files interrupted fresh.registry
    ≡ (record { rx = later ∷ [] }, (fresh.registry, panic))
unfolding apply_pending text_eq trim split_once parse_pattern_value path_eq with_lua
drain_panics = refl

broken_panics : parse_luaml path broken_text ≡ panic
unfolding parse_luaml text_eq trim split_once parse_pattern_value
broken_panics = refl

apply_pending-panics_example :
    ((apply_pending broken_files interrupted fresh.registry).0.rx ≡ later ∷ [])
    × ((apply_pending broken_files interrupted fresh.registry).1.1 ≡ panic)
    × (scripts_at path (apply_pending broken_files interrupted fresh.registry).1.0.scripts
        ≡ after_changes broken_files path
            (scripts_at path fresh.registry.scripts)
            (remove path ∷ create_or_modify path ∷ []))
apply_pending-panics_example =
    apply_pending-panics broken_files interrupted fresh.registry path path broken_text []
      (remove path ∷ []) (remove (codes "r/b.luaml") ∷ []) (later ∷ []) refl tt (tt, tt) refl
      broken_panics
