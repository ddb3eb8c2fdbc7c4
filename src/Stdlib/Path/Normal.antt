-- ===== src/Stdlib/Path/Normal.antt =====
-- Where a path leads, and the normal form of paths.
use luaml.Prelude.{◌≡◌, refl, ap, sym, ◌∙◌, Text, List, [], ◌∷◌, ◌++◌}
use luaml.Paths.{Component, root_dir, cur_dir, parent_dir, normal}
use luaml.Stdlib.Path.{push_component, normalize_loop, reverse, dot_or, normalize_lexical}

-- A directory is the list of the names down to it, the innermost first; above the root is the root.
abbrev pub above : List Text → List Text
above [] = []
above (s ∷ dir) = dir

abbrev pub step : List Text → Component → List Text
step dir root_dir = []
step dir cur_dir = dir
step dir parent_dir = above dir
step dir (normal s) = s ∷ dir

-- Where a path leads from a directory, on a file system without links.
unfoldable pub lead : List Text → List Component → List Text
lead dir [] = dir
lead dir (c ∷ cs) = lead (step dir c) cs

pub lead-append :
    (dir : List Text) (cs ds : List Component) → lead dir (cs ++ ds) ≡ lead (lead dir cs) ds
unfolding lead
lead-append dir [] ds = refl
lead-append dir (c ∷ cs) ds = lead-append (step dir c) cs ds

-- The same for a path whose last component comes first.
unfoldable back : List Text → List Component → List Text
back dir [] = dir
back dir (c ∷ cs) = step (back dir cs) c

lead-reverse :
    (dir : List Text) (done cs : List Component)
    → lead dir (reverse done cs) ≡ lead (lead dir (reverse [] cs)) done
unfolding lead reverse
lead-reverse dir done [] = refl
lead-reverse dir done (c ∷ cs) =
    lead-reverse dir (c ∷ done) cs ∙ sym (ap (λ d. lead d done) (lead-reverse dir (c ∷ []) cs))

reverse-back : (dir : List Text) (cs : List Component) → lead dir (reverse [] cs) ≡ back dir cs
unfolding lead reverse back
reverse-back dir [] = refl
reverse-back dir (c ∷ cs) = lead-reverse dir (c ∷ []) cs ∙ ap (λ d. step d c) (reverse-back dir cs)

push-back :
    (dir : List Text) (out : List Component) (c : Component)
    → back dir (push_component out c) ≡ step (back dir out) c
unfolding back push_component
push-back dir [] root_dir = refl
push-back dir [] cur_dir = refl
push-back dir [] parent_dir = refl
push-back dir [] (normal s) = refl
push-back dir (root_dir ∷ out) root_dir = refl
push-back dir (root_dir ∷ out) cur_dir = refl
push-back dir (root_dir ∷ out) parent_dir = refl
push-back dir (root_dir ∷ out) (normal s) = refl
push-back dir (cur_dir ∷ out) root_dir = refl
push-back dir (cur_dir ∷ out) cur_dir = refl
push-back dir (cur_dir ∷ out) parent_dir = refl
push-back dir (cur_dir ∷ out) (normal s) = refl
push-back dir (parent_dir ∷ out) root_dir = refl
push-back dir (parent_dir ∷ out) cur_dir = refl
push-back dir (parent_dir ∷ out) parent_dir = refl
push-back dir (parent_dir ∷ out) (normal s) = refl
push-back dir (normal t ∷ out) root_dir = refl
push-back dir (normal t ∷ out) cur_dir = refl
push-back dir (normal t ∷ out) parent_dir = refl
push-back dir (normal t ∷ out) (normal s) = refl

normalize_loop-back :
    (dir : List Text) (out cs : List Component)
    → back dir (normalize_loop out cs) ≡ lead (back dir out) cs
unfolding lead normalize_loop
normalize_loop-back dir out [] = refl
normalize_loop-back dir out (c ∷ cs) =
    normalize_loop-back dir (push_component out c) cs ∙ ap (λ d. lead d cs) (push-back dir out c)

pub lead-dot : (dir : List Text) (cs : List Component) → lead dir (dot_or cs) ≡ lead dir cs
unfolding lead
lead-dot dir [] = refl
lead-dot dir (c ∷ cs) = refl

pub lead-normalize :
    (dir : List Text) (cs : List Component) → lead dir (normalize_lexical cs) ≡ lead dir cs
unfolding normalize_lexical
lead-normalize dir cs =
    lead-dot dir (reverse [] (normalize_loop [] cs))
    ∙ reverse-back dir (normalize_loop [] cs)
    ∙ unfold back in normalize_loop-back dir [] cs
