-- ===== src/Service/Server.antt =====
-- crates/luaml-service/src/server.rs: the address to listen on, on Unix.
use luaml.Prelude.{Text, codes, Option, none, some, [], ◌∷◌, ◌==◌, if◌then◌else◌}

pub data ListenAddr : Type 0 where
  tcp unix : Text → ListenAddr

-- `strip_prefix` with a text.
unfoldable pub strip_prefix_text : Text → Text → Option Text
strip_prefix_text [] s = some s
strip_prefix_text (c ∷ prefix) [] = none
strip_prefix_text (c ∷ prefix) (d ∷ s) =
    let rest = strip_prefix_text prefix s in if d == c then rest else none

-- `ListenAddr::parse`.
unfoldable pub parse : Text → ListenAddr
unfolding strip_prefix_text
parse s = elim (strip_prefix_text (codes "tcp:") s) [
  | some rest ↦ tcp rest
  | none ↦ elim (strip_prefix_text (codes "unix:") s) [ some rest ↦ unix rest | none ↦ tcp s ]
]
