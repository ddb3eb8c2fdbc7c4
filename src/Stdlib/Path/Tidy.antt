-- ===== src/Stdlib/Path/Tidy.antt =====
-- What `normalize_lexical` gives is a normal form.
use luaml.Prelude.{
  ◌≡◌, refl, ap, ◌∙◌, append-nil, Text, codes, Bool, true, false, List, [], ◌∷◌, ◌++◌, ◌==◌,
  text_eq, if◌then◌else◌,
}
use luaml.Paths.{
  Component, root_dir, cur_dir, parent_dir, normal, components, later_components, first_components,
  pieces, slash,
}
use luaml.Stdlib.Path.{push_component, normalize_loop, reverse, dot_or, normalize_lexical}
use luaml.Stdlib.Path.Normal.{lead, lead-normalize}

abbrev pub Names : List Component → Type 0
Names [] = Unit
Names (normal s ∷ cs) = Names cs
Names _ = ⊥

-- Steps up, and then names.
abbrev pub Climbs : List Component → Type 0
Climbs (parent_dir ∷ cs) = Climbs cs
Climbs cs = Names cs

-- A dot alone, or names below the root, or names behind steps up.
abbrev pub IsNormal : List Component → Type 0
IsNormal (root_dir ∷ cs) = Names cs
IsNormal (cur_dir ∷ []) = Unit
IsNormal (cur_dir ∷ c ∷ cs) = ⊥
IsNormal [] = ⊥
IsNormal cs = Climbs cs

-- No root, but for the first component.
abbrev NoRoot : List Component → Type 0
NoRoot [] = Unit
NoRoot (root_dir ∷ cs) = ⊥
NoRoot (c ∷ cs) = NoRoot cs

abbrev Ups : List Component → Type 0
Ups [] = Unit
Ups (parent_dir ∷ cs) = Ups cs
Ups _ = ⊥

-- A normal form with its last component first, or nothing.
abbrev Tidy : List Component → Type 0
Tidy [] = Unit
Tidy (normal s ∷ cs) = Tidy cs
Tidy (parent_dir ∷ cs) = Ups cs
Tidy (root_dir ∷ []) = Unit
Tidy _ = ⊥

Ups-Tidy : (cs : List Component) → Ups cs → Tidy cs
Ups-Tidy [] h = tt
Ups-Tidy (parent_dir ∷ cs) h = h
Ups-Tidy (root_dir ∷ cs) h = absurd h
Ups-Tidy (cur_dir ∷ cs) h = absurd h
Ups-Tidy (normal s ∷ cs) h = absurd h

push-Tidy :
    (out : List Component) (c : Component)
    → Tidy out
    → NoRoot (c ∷ [])
    → Tidy (push_component out c)
unfolding push_component
push-Tidy out root_dir t n = absurd n
push-Tidy out cur_dir t n = t
push-Tidy [] parent_dir t n = tt
push-Tidy (normal s ∷ out) parent_dir t n = t
push-Tidy (root_dir ∷ out) parent_dir t n = t
push-Tidy (parent_dir ∷ out) parent_dir t n = t
push-Tidy (cur_dir ∷ out) parent_dir t n = absurd t
push-Tidy [] (normal s) t n = tt
push-Tidy (normal r ∷ out) (normal s) t n = t
push-Tidy (root_dir ∷ out) (normal s) t n = t
push-Tidy (parent_dir ∷ out) (normal s) t n = t
push-Tidy (cur_dir ∷ out) (normal s) t n = t

NoRoot-head : (c : Component) (cs : List Component) → NoRoot (c ∷ cs) → NoRoot (c ∷ []) × NoRoot cs
NoRoot-head root_dir cs h = absurd h
NoRoot-head cur_dir cs h = (tt, h)
NoRoot-head parent_dir cs h = (tt, h)
NoRoot-head (normal s) cs h = (tt, h)

normalize_loop-Tidy :
    (out cs : List Component) → Tidy out → NoRoot cs → Tidy (normalize_loop out cs)
unfolding normalize_loop
normalize_loop-Tidy out [] t n = t
normalize_loop-Tidy out (c ∷ cs) t n =
    let (a, b) = NoRoot-head c cs n in
    normalize_loop-Tidy (push_component out c) cs (push-Tidy out c t a) b

Climbs-reverse : (done out : List Component) → Climbs done → Ups out → Climbs (reverse done out)
unfolding reverse
Climbs-reverse done [] d u = d
Climbs-reverse done (parent_dir ∷ out) d u = Climbs-reverse (parent_dir ∷ done) out d u
Climbs-reverse done (root_dir ∷ out) d u = absurd u
Climbs-reverse done (cur_dir ∷ out) d u = absurd u
Climbs-reverse done (normal s ∷ out) d u = absurd u

Climbs-IsNormal : (cs : List Component) → Climbs cs → IsNormal (dot_or cs)
Climbs-IsNormal [] h = tt
Climbs-IsNormal (root_dir ∷ cs) h = absurd h
Climbs-IsNormal (cur_dir ∷ cs) h = absurd h
Climbs-IsNormal (parent_dir ∷ cs) h = h
Climbs-IsNormal (normal s ∷ cs) h = h

Names-Climbs : (cs : List Component) → Names cs → Climbs cs
Names-Climbs [] h = tt
Names-Climbs (root_dir ∷ cs) h = absurd h
Names-Climbs (cur_dir ∷ cs) h = absurd h
Names-Climbs (parent_dir ∷ cs) h = absurd h
Names-Climbs (normal s ∷ cs) h = h

reverse-IsNormal :
    (done out : List Component) → Names done → Tidy out → IsNormal (dot_or (reverse done out))
unfolding reverse
reverse-IsNormal done [] n t = Climbs-IsNormal done (Names-Climbs done n)
reverse-IsNormal done (normal s ∷ out) n t = reverse-IsNormal (normal s ∷ done) out n t
reverse-IsNormal done (parent_dir ∷ out) n t =
    Climbs-IsNormal (reverse (parent_dir ∷ done) out)
      (Climbs-reverse (parent_dir ∷ done) out (Names-Climbs done n) t)
reverse-IsNormal done (root_dir ∷ []) n t = n
reverse-IsNormal done (root_dir ∷ c ∷ out) n t = absurd t
reverse-IsNormal done (cur_dir ∷ out) n t = absurd t

reverse-reverse : (a cs b : List Component) → reverse b (reverse a cs) ≡ reverse (cs ++ b) a
unfolding reverse
reverse-reverse a [] b = refl
reverse-reverse a (c ∷ cs) b = reverse-reverse (c ∷ a) cs b

push-name : (out : List Component) (s : Text) → push_component out (normal s) ≡ normal s ∷ out
unfolding push_component
push-name [] s = refl
push-name (root_dir ∷ out) s = refl
push-name (cur_dir ∷ out) s = refl
push-name (parent_dir ∷ out) s = refl
push-name (normal t ∷ out) s = refl

push-up : (out : List Component) → Ups out → push_component out parent_dir ≡ parent_dir ∷ out
unfolding push_component
push-up [] h = refl
push-up (parent_dir ∷ out) h = refl
push-up (root_dir ∷ out) h = absurd h
push-up (cur_dir ∷ out) h = absurd h
push-up (normal s ∷ out) h = absurd h

normalize_loop-Names : (out cs : List Component) → Names cs → normalize_loop out cs ≡ reverse out cs
unfolding normalize_loop reverse
normalize_loop-Names out [] h = refl
normalize_loop-Names out (normal s ∷ cs) h =
    rw (push-name out s) (normalize_loop-Names (normal s ∷ out) cs h)
normalize_loop-Names out (root_dir ∷ cs) h = absurd h
normalize_loop-Names out (cur_dir ∷ cs) h = absurd h
normalize_loop-Names out (parent_dir ∷ cs) h = absurd h

normalize_loop-Climbs :
    (out cs : List Component) → Ups out → Climbs cs → normalize_loop out cs ≡ reverse out cs
unfolding normalize_loop reverse
normalize_loop-Climbs out [] u h = refl
normalize_loop-Climbs out (parent_dir ∷ cs) u h =
    rw (push-up out u) (normalize_loop-Climbs (parent_dir ∷ out) cs u h)
normalize_loop-Climbs out (normal s ∷ cs) u h = normalize_loop-Names out (normal s ∷ cs) h
normalize_loop-Climbs out (root_dir ∷ cs) u h = absurd h
normalize_loop-Climbs out (cur_dir ∷ cs) u h = absurd h

-- A list of components that the loop only reverses.
unchanged :
    (c : Component) (cs : List Component)
    → normalize_loop [] (c ∷ cs) ≡ reverse [] (c ∷ cs)
    → normalize_lexical (c ∷ cs) ≡ c ∷ cs
unfolding normalize_lexical
unchanged c cs h =
    ap (λ x. dot_or (reverse [] x)) h
    ∙ ap dot_or (reverse-reverse [] (c ∷ cs) [] ∙ unfold reverse in append-nil (c ∷ cs))

IsNormal-unchanged : (cs : List Component) → IsNormal cs → normalize_lexical cs ≡ cs
unfolding normalize_loop reverse push_component
IsNormal-unchanged [] h = absurd h
IsNormal-unchanged (root_dir ∷ cs) h =
    unchanged root_dir cs (normalize_loop-Names (root_dir ∷ []) cs h)
IsNormal-unchanged (cur_dir ∷ []) h = unfold normalize_lexical in refl
IsNormal-unchanged (cur_dir ∷ c ∷ cs) h = absurd h
IsNormal-unchanged (parent_dir ∷ cs) h =
    unchanged parent_dir cs (normalize_loop-Climbs [] (parent_dir ∷ cs) tt h)
IsNormal-unchanged (normal s ∷ cs) h =
    unchanged (normal s) cs (normalize_loop-Names [] (normal s ∷ cs) h)

if_either :
    (P : List Component → Type 0) (b : Bool) (x y : List Component)
    → P x
    → P y
    → P (if b then x else y)
if_either P true x y h k = h
if_either P false x y h k = k

-- The components of a text have a root only at the front.
later-NoRoot : (ps : List Text) → NoRoot (later_components ps)
unfolding later_components
later-NoRoot [] = tt
later-NoRoot (p ∷ ps) =
    let rest = later_components ps in
    let named = if text_eq p (codes "..") then parent_dir ∷ rest else normal p ∷ rest in
    let behind = if text_eq p (codes ".") then rest else named in
    let h = later-NoRoot ps in
    if_either NoRoot (text_eq p []) rest behind h (
      if_either NoRoot (text_eq p (codes ".")) rest named h
        (if_either NoRoot (text_eq p (codes "..")) (parent_dir ∷ rest) (normal p ∷ rest) h h))

first-NoRoot : (ps : List Text) → NoRoot (first_components ps)
unfolding first_components
first-NoRoot [] = tt
first-NoRoot (p ∷ ps) =
    if_either NoRoot (text_eq p (codes ".")) (cur_dir ∷ later_components ps)
      (later_components (p ∷ ps)) (later-NoRoot ps) (later-NoRoot (p ∷ ps))

components-Tidy : (p : Text) → Tidy (normalize_loop [] (components p))
unfolding components
components-Tidy [] = unfold normalize_loop in tt
components-Tidy (c ∷ s) =
    if_either (λ cs. Tidy (normalize_loop [] cs)) (c == slash)
      (root_dir ∷ later_components (pieces [] s)) (first_components (pieces [] (c ∷ s)))
      (unfold normalize_loop push_component in
        normalize_loop-Tidy (root_dir ∷ []) (later_components (pieces [] s)) tt
          (later-NoRoot (pieces [] s)))
      (normalize_loop-Tidy [] (first_components (pieces [] (c ∷ s))) tt
        (first-NoRoot (pieces [] (c ∷ s))))

-- Normalizing a path gives a dot alone, names below the root, or names behind steps up; the path
-- leads where it did from every directory, as far as no links are followed; and to normalize again
-- changes nothing.
pub normalize_lexical-IsNormal :
    (p : Text)
    → IsNormal (normalize_lexical (components p))
      × ((dir : List Text) → lead dir (normalize_lexical (components p)) ≡ lead dir (components p))
      × (normalize_lexical (normalize_lexical (components p)) ≡ normalize_lexical (components p))
normalize_lexical-IsNormal p =
    let normal_form : IsNormal (normalize_lexical (components p)) =
      unfold normalize_lexical in
      reverse-IsNormal [] (normalize_loop [] (components p)) tt (components-Tidy p) in
    (
      normal_form,
      λ dir. lead-normalize dir (components p),
      IsNormal-unchanged (normalize_lexical (components p)) normal_form,
    )
