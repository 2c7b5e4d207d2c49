-- ===== src/Main/Directories.antt =====
-- Which directories the walk of extractTestDirectories finds.
use apitest.Base.{
  true, not, ◌&&◌, String, List, [], ◌∷◌, ◌++◌, has_prefix, if◌then◌else◌, ◌≡◌, refl, arith,
  Bool-cases, inl, inr, str_eq, eq_iff,
}
use apitest.Main.{
  Tree, Trees, file, directory, no_trees, tree_then, contains, test_directories,
  test_directories_in,
}

-- The directories with a manifest whose path has no "/_", each looked at for itself.
abbrev mutual
  pub wanted : Tree → List String
  wanted (file path) = []
  wanted (directory path manifest subs) =
      let below = wanted_in subs in
      if manifest && not (contains "/_" path) then path ∷ below else below

  pub wanted_in : Trees → List String
  wanted_in no_trees = []
  wanted_in (tree_then t ts) = wanted t ++ wanted_in ts

abbrev path_of : Tree → String
path_of (file path) = path
path_of (directory path manifest subs) = path

-- The path of everything in a directory begins with that of the directory.
abbrev mutual
  pub IsNested : Tree → Type 0
  IsNested (file path) = Unit {0}
  IsNested (directory path manifest subs) = AreBelow path subs

  AreBelow : String → Trees → Type 0
  AreBelow path no_trees = Unit {0}
  AreBelow path (tree_then t ts) =
      (has_prefix (path_of t) path ≡ true) × IsNested t × AreBelow path ts

has_prefix_trans :
    (q p part : String)
    → has_prefix q p ≡ true
    → has_prefix p part ≡ true
    → has_prefix q part ≡ true
unfolding has_prefix
has_prefix_trans q p String.[] h k = refl
has_prefix_trans q String.[] (String.◌∷◌ e t) h k = cc
has_prefix_trans String.[] (String.◌∷◌ d p) (String.◌∷◌ e t) h k = cc
has_prefix_trans (String.◌∷◌ c q) (String.◌∷◌ d p) (String.◌∷◌ e t) h k =
    ground (arith, has_prefix_trans q p t)

contains-nothing : (q part : String) → str_eq "" part ≡ true → contains part q ≡ true
unfolding contains has_prefix
contains-nothing String.[] part h = h
contains-nothing (String.◌∷◌ c q) String.[] h = refl
contains-nothing (String.◌∷◌ c q) (String.◌∷◌ e t) h =
    let same = (eq_iff "" (String.◌∷◌ e t)).0 h in cc

contains-has_prefix :
    (part q p : String) → has_prefix q p ≡ true → contains part p ≡ true → contains part q ≡ true
unfolding contains has_prefix
contains-has_prefix part q String.[] h k = contains-nothing q part k
contains-has_prefix part String.[] (String.◌∷◌ d p) h k = cc
contains-has_prefix part (String.◌∷◌ c q) (String.◌∷◌ d p) h k =
    ground
      (arith, contains-has_prefix part q p, has_prefix_trans (String.◌∷◌ c q) (String.◌∷◌ d p) part)

mutual
  unfolding test_directories

  skipped : (t : Tree) → IsNested t → contains "/_" (path_of t) ≡ true → wanted t ≡ []
  skipped (file path) h c = refl
  skipped (directory path manifest subs) h c = rw (c, skipped_in path subs h c) (ground arith)

  skipped_in :
      (path : String) (ts : Trees)
      → AreBelow path ts
      → contains "/_" path ≡ true
      → wanted_in ts ≡ []
  skipped_in path no_trees h c = refl
  skipped_in path (tree_then t ts) h c =
      let below : contains "/_" (path_of t) ≡ true =
        contains-has_prefix "/_" (path_of t) path h.0 c in
      rw (skipped t h.1 below, skipped_in path ts h.2 c) refl

mutual
  unfolding test_directories

  walk_wanted : (t : Tree) → IsNested t → test_directories t ≡ wanted t
  walk_wanted (file path) h = refl
  walk_wanted (directory path manifest subs) h = elim (Bool-cases (contains "/_" path)) [
    | inl e ↦ rw (e, skipped_in path subs h e) (ground arith)
    | inr ne ↦ rw (ne, walk_wanted_in path subs h) (ground arith)
  ]

  walk_wanted_in :
      (path : String) (ts : Trees) → AreBelow path ts → test_directories_in ts ≡ wanted_in ts
  walk_wanted_in path no_trees h = refl
  walk_wanted_in path (tree_then t ts) h = rw (walk_wanted t h.1, walk_wanted_in path ts h.2) refl

-- The walk finds the directories with a manifest whose own path has no "/_" in it, in its order,
-- if the path of everything in a directory begins with the directory's.
pub test_directories-wanted : (t : Tree) → IsNested t → test_directories t ≡ wanted t
test_directories-wanted t h = walk_wanted t h
