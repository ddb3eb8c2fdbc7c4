-- ===== src/Registry/Walk/Reach.antt =====
-- `walkdir` against the files that a directory tree holds.
use luaml.Prelude.{
  ℕ, zero, suc, ◌<◌, ◌≡◌, refl, ap, sym, ◌∙◌, Text, Bool, true, false, List, [], ◌∷◌, ◌++◌, ◌⊎◌,
  ◌↔◌, inl, inr, subst, In, In-append, arith, if◌then◌else◌,
}
use luaml.Prelude.Outcome.{Outcome, Returns, Returns-bind, Returns-imp, ◌>>=◌}
use luaml.Clause.{LuamlError}
use luaml.FileSystem.{FileSystem, IoResult, io}
use luaml.Registry.Walk.{walk_entries, walkdir}

-- A path that is no directory, and that a chain of directories leads to.
pub data Under (fs : FileSystem) : Text → Text → Type 0 where
  file :
      {dir path : Text} {entries : List (IoResult Text)}
      → fs.read_dir dir ≡ inr entries
      → In (inr path) entries
      → fs.is_dir path ≡ false
      → Under fs dir path
  deeper :
      {dir sub path : Text} {entries : List (IoResult Text)}
      → fs.read_dir dir ≡ inr entries
      → In (inr sub) entries
      → fs.is_dir sub ≡ true
      → Under fs sub path
      → Under fs dir path

-- The directories that a directory lists are of a smaller rank: no chain of them is endless.
abbrev pub Ranked : FileSystem → (Text → ℕ) → Type 0
Ranked fs rank =
    (dir sub : Text) (entries : List (IoResult Text))
    → fs.read_dir dir ≡ inr entries
    → In (inr sub) entries
    → fs.is_dir sub ≡ true
    → rank sub < rank dir

-- What an entry leads to, and what some entry of a list leads to.
abbrev Leads : FileSystem → Text → Text → Type 0
Leads fs entry path =
    ((fs.is_dir entry ≡ false) × (path ≡ entry)) ⊎ ((fs.is_dir entry ≡ true) × Under fs entry path)

abbrev SomeLeads : FileSystem → List (IoResult Text) → Text → Type 0
SomeLeads fs [] path = ⊥
SomeLeads fs (inl e ∷ entries) path = SomeLeads fs entries path
SomeLeads fs (inr entry ∷ entries) path = Leads fs entry path ⊎ SomeLeads fs entries path

-- The paths are those that the directory leads to.
abbrev pub Finds : FileSystem → Text → List Text → Type 0
Finds fs dir files = (path : Text) → In path files ↔ Under fs dir path

abbrev entry_path : Text → IoResult Text → Text
entry_path other (inl e) = other
entry_path other (inr path) = path

inr-inj : {A : Type 0} {a b : A} → ◌≡◌ {A = IoResult A} (inr a) (inr b) → a ≡ b
inr-inj {A} {a} h = ap (λ (x : IoResult A). elim x [ inl e ↦ a | inr c ↦ c ]) h

module _ (fs : FileSystem) where
  SomeLeads-Under :
      (dir path : Text) (all entries : List (IoResult Text))
      → fs.read_dir dir ≡ inr all
      → ((e : IoResult Text) → In e entries → In e all)
      → SomeLeads fs entries path
      → Under fs dir path
  SomeLeads-Under dir path all [] h sub s = absurd s
  SomeLeads-Under dir path all (inl e ∷ entries) h sub s =
      SomeLeads-Under dir path all entries h (λ x i. sub x (inr i)) s
  SomeLeads-Under dir path all (inr entry ∷ entries) h sub (inl (inl (f, e))) =
      file h (sub (inr path) (inl (ap inr e))) (rw e f)
  SomeLeads-Under dir path all (inr entry ∷ entries) h sub (inl (inr (d, u))) =
      deeper h (sub (inr entry) (inl refl)) d u
  SomeLeads-Under dir path all (inr entry ∷ entries) h sub (inr s) =
      SomeLeads-Under dir path all entries h (λ x i. sub x (inr i)) s

  In-SomeLeads :
      (entry path : Text) (entries : List (IoResult Text))
      → In (inr entry) entries
      → Leads fs entry path
      → SomeLeads fs entries path
  In-SomeLeads entry path [] i l = absurd i
  In-SomeLeads entry path (inl e ∷ entries) (inl i) l = cc
  In-SomeLeads entry path (inl e ∷ entries) (inr i) l = In-SomeLeads entry path entries i l
  In-SomeLeads entry path (inr q ∷ entries) (inl i) l =
      inl (subst (λ e. Leads fs e path) (ap (entry_path entry) i) l)
  In-SomeLeads entry path (inr q ∷ entries) (inr i) l = inr (In-SomeLeads entry path entries i l)

  Under-SomeLeads :
      (dir path : Text) (all : List (IoResult Text))
      → fs.read_dir dir ≡ inr all
      → Under fs dir path
      → SomeLeads fs all path
  Under-SomeLeads dir path all h (file {entries = entries} g i f) =
      In-SomeLeads path path all (subst (λ es. In (inr path) es) (inr-inj (sym g ∙ h)) i)
        (inl (f, refl))
  Under-SomeLeads dir path all h (deeper {sub = sub} {entries = entries} g i d u) =
      In-SomeLeads sub path all (subst (λ es. In (inr sub) es) (inr-inj (sym g ∙ h)) i) (inr (d, u))

  -- What the loop has found, when it started from `files`.
  abbrev FindsMore : List Text → List (IoResult Text) → List Text → Type 0
  FindsMore files entries out =
      (path : Text) → In path out ↔ (In path files ⊎ SomeLeads fs entries path)

  Finds-deeper :
      (q : Text) (files found : List Text) (entries : List (IoResult Text)) (out : List Text)
      → fs.is_dir q ≡ true
      → Finds fs q found
      → FindsMore (files ++ found) entries out
      → FindsMore files (inr q ∷ entries) out
  Finds-deeper q files found entries out d f h path =
      ground (arith, d, f path, h path, In-append path files found)

  finds_file :
      (q : Text) (files : List Text) (entries : List (IoResult Text)) (out : List Text)
      → fs.is_dir q ≡ false
      → FindsMore (files ++ q ∷ []) entries out
      → FindsMore files (inr q ∷ entries) out
  finds_file q files entries out d h path = ground (arith, d, h path, In-append path files (q ∷ []))

  entry_case :
      (walk : Text → Outcome LuamlError (List Text)) (files : List Text) (q : Text)
      (entries : List (IoResult Text)) (b : Bool)
      → fs.is_dir q ≡ b
      → (b ≡ true → Returns (Finds fs q) (walk q))
      → ((files' : List Text)
          → Returns (FindsMore files' entries) (walk_entries fs walk files' entries))
      → Returns (FindsMore files (inr q ∷ entries)) (
          if b
          then (walk q >>= λ found. walk_entries fs walk (files ++ found) entries)
          else walk_entries fs walk (files ++ q ∷ []) entries)
  entry_case walk files q entries true d w rest =
      Returns-bind (Finds fs q) (FindsMore files (inr q ∷ entries)) (walk q) _ (w refl) λ found f.
        Returns-imp (FindsMore (files ++ found) entries) (FindsMore files (inr q ∷ entries)) _
          (λ out h. Finds-deeper q files found entries out d f h) (rest (files ++ found))
  entry_case walk files q entries false d w rest =
      Returns-imp (FindsMore (files ++ q ∷ []) entries) (FindsMore files (inr q ∷ entries)) _
        (λ out h. finds_file q files entries out d h) (rest (files ++ q ∷ []))

  -- The loop, where `walk` finds what the directories among the entries lead to.
  walk_entries-Returns :
      (walk : Text → Outcome LuamlError (List Text)) (files : List Text)
      (entries : List (IoResult Text))
      → ((sub : Text)
          → In (inr sub) entries
          → fs.is_dir sub ≡ true
          → Returns (Finds fs sub) (walk sub))
      → Returns (FindsMore files entries) (walk_entries fs walk files entries)
  unfolding walk_entries
  walk_entries-Returns walk files [] w = λ path. (inl, λ h. elim h [ inl i ↦ i | inr b ↦ absurd b ])
  walk_entries-Returns walk files (inl e ∷ entries) w = tt
  walk_entries-Returns walk files (inr q ∷ entries) w =
      entry_case walk files q entries (fs.is_dir q) refl (w q (inl refl))
        (λ files'. walk_entries-Returns walk files' entries (λ sub i. w sub (inr i)))

  Finds-all :
      (dir : Text) (entries : List (IoResult Text)) (out : List Text)
      → fs.read_dir dir ≡ inr entries
      → FindsMore [] entries out
      → Finds fs dir out
  Finds-all dir entries out h f path =
      let (forth, back) = f path in
      (
        λ i. elim (forth i) [
          | inl a ↦ absurd a
          | inr s ↦ SomeLeads-Under dir path entries entries h (λ x j. j) s
        ],
        λ u. back (inr (Under-SomeLeads dir path entries h u)),
      )

  io_case :
      (walk : Text → Outcome LuamlError (List Text)) (dir : Text)
      (r : IoResult (List (IoResult Text)))
      → fs.read_dir dir ≡ r
      → ((entries : List (IoResult Text))
          → fs.read_dir dir ≡ inr entries
          → Returns (FindsMore [] entries) (walk_entries fs walk [] entries))
      → Returns (Finds fs dir) (io r >>= walk_entries fs walk [])
  io_case walk dir (inl e) h k = tt
  io_case walk dir (inr entries) h k =
      Returns-imp (FindsMore [] entries) (Finds fs dir) _ (λ out f. Finds-all dir entries out h f)
        (k entries h)

-- When no chain of directories is endless, `walkdir` with more fuel than the rank of the directory
-- ends: in an error, or in the paths, all of them and no other, that are no directories and that a
-- chain of directories from the given one leads to.
pub walkdir-Returns :
    (fs : FileSystem) (rank : Text → ℕ) (fuel : ℕ) (dir : Text)
    → Ranked fs rank
    → rank dir < fuel
    → Returns (Finds fs dir) (walkdir fs fuel dir)
unfolding walkdir
walkdir-Returns fs rank zero dir ranked h = omega arith
walkdir-Returns fs rank (suc n) dir ranked h =
    io_case fs (walkdir fs n) dir (fs.read_dir dir) refl λ entries e.
      walk_entries-Returns fs (walkdir fs n) [] entries λ sub i d.
        walkdir-Returns fs rank n sub ranked (omega (arith, ranked dir sub entries e i d))
