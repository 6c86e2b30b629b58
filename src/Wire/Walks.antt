-- ===== src/Wire/Walks.antt =====
-- What the walk over a directory yields: names of `walk_node` and `walks`, and what lies below them.
use agent_presentator.Base.{
  ◌≡◌, ◌≢◌, refl, Bool, true, false, ◌&&◌, Option, none, some, List, [], ◌∷◌, ◌++◌, All, arith,
  bytes_ltb, All-append, Bool-cases, inl, inr, if◌then◌else◌, keep, ◌==◌,
}
use agent_presentator.Wire.{Bytes}
use agent_presentator.Wire.Paths.{HasNoSlash, join, path_components}
use agent_presentator.Wire.Trees.{
  Node, directory, file, special, Children, no_children, child, TreeEntry, Walk, is_ok, refusing,
  yielding, then_walk, sort_names, in_turn, walk_node, walks,
}
use agent_presentator.Wire.Names.{Under, Under-above, starts_with, starts_with_itself}
use agent_presentator.Wire.Sorted.{Above, Apart, AreApart, All-sort_names}
use agent_presentator.Wire.Carrying.{AllUnder}

-- A directory as a file system holds it: names that are not empty and have no slash, each once.
abbrev pub IsAbsent : Bytes → Children → Type 0
IsAbsent name no_children = Unit
IsAbsent name (child other node children) = (name ≢ other) × IsAbsent name children

unfoldable mutual
  pub IsNamed : Node → Type 0
  IsNamed (directory children) = AreNamed children
  IsNamed (file links payload) = Unit
  IsNamed special = Unit

  pub AreNamed : Children → Type 0
  AreNamed no_children = Unit
  AreNamed (child name node children) =
      HasNoSlash name
      × (bytes_ltb [] name ≡ true)
      × IsNamed node
      × IsAbsent name children
      × AreNamed children

Apart-walks :
    (name : Bytes) (path : List Bytes) (children : Children)
    → IsAbsent name children
    → Apart name (walks path children)
unfolding walks
Apart-walks name path no_children h = tt
Apart-walks name path (child other node children) h = (h.0, Apart-walks name path children h.1)

pub AreApart-walks :
    (path : List Bytes) (children : Children) → AreNamed children → AreApart (walks path children)
unfolding walks AreNamed
AreApart-walks path no_children h = tt
AreApart-walks path (child name node children) h =
    (Apart-walks name path children h.3, AreApart-walks path children h.4)

pub Above-walks :
    (path : List Bytes) (children : Children) → AreNamed children → Above [] (walks path children)
unfolding walks AreNamed
Above-walks path no_children h = tt
Above-walks path (child name node children) h = (h.1, Above-walks path children h.4)

-- What holds of all that walks yield holds of what they yield in turn.
module _ {κ} (Q : TreeEntry → Type κ) where
  All-then_walk :
      (first next : Walk)
      → All Q first.entries
      → All Q next.entries
      → All Q (then_walk first next).entries
  unfolding then_walk
  All-then_walk first next h k = elim (Bool-cases first.ends) [
    | inl ended ↦ rw ended (All-append Q first.entries next.entries h k)
    | inr raised ↦ rw raised h
  ]

  pub All-in_turn :
      (named : List (Bytes × Walk))
      → All (λ (o : Bytes × Walk). All Q o.1.entries) named
      → All Q (in_turn named).entries
  unfolding in_turn
  All-in_turn [] h = tt
  All-in_turn ((name, walk) ∷ rest) h = All-then_walk walk (in_turn rest) h.0 (All-in_turn rest h.1)

  -- And what holds of every entry whose path is taken holds of all that a walk yields.
  module _
      (taken : (path : List Bytes) (payload : Option Bytes)
        → is_ok (path_components (join path)) ≡ true
        → Q (record { components = path; payload = payload })) where
    when-All :
        (b : Bool) (walk : Walk)
        → (b ≡ true → All Q walk.entries)
        → All Q (if b then walk else refusing).entries
    when-All true walk h = h refl
    when-All false walk h = tt

    mutual
      unfolding walk_node walks

      All-walk_node :
          (node : Node) (path : List Bytes) (name : Bytes)
          → All Q (walk_node path name node).entries
      All-walk_node (directory children) path name =
          let path' = path ++ name ∷ [] in
          when-All (is_ok (path_components (join path')))
            (yielding (record { components = path'; payload = none })
              (in_turn (sort_names (walks path' children))))
            (λ h. (
              taken path' none h,
              All-in_turn (sort_names (walks path' children)) (
                  All-sort_names (λ (o : Bytes × Walk). All Q o.1.entries) (walks path' children)
                    (All-walks children path')),
            ))
      All-walk_node (file links payload) path name =
          let path' = path ++ name ∷ [] in
          when-All (is_ok (path_components (join path')) && links == 1)
            (yielding (record { components = path'; payload = some payload })
              (record { entries = []; ends = true }))
            (λ h. (taken path' (some payload) (ground arith), tt))
      All-walk_node special path name = tt

      pub All-walks :
          (children : Children) (path : List Bytes)
          → All (λ (o : Bytes × Walk). All Q o.1.entries) (walks path children)
      All-walks no_children path = tt
      All-walks (child name node children) path =
          (All-walk_node node path name, All-walks children path)

-- Everything of a walk lies below its name.
Under-names :
    (path : List Bytes) (named : List (Bytes × Walk))
    → AllUnder path named
    → All (λ (o : Bytes × Walk). Under path o.1.entries) named
Under-names path [] h = tt
Under-names path ((name, walk) ∷ rest) h =
    (Under-above path name walk.entries h.0, Under-names path rest h.1)

when-Under :
    (path : List Bytes) (b : Bool) (walk : Walk)
    → Under path walk.entries
    → Under path (if b then walk else refusing).entries
when-Under path true walk h = h
when-Under path false walk h = tt

mutual
  unfolding walk_node walks

  pub Under-walk_node :
      (node : Node) (path : List Bytes) (name : Bytes)
      → Under (path ++ name ∷ []) (walk_node path name node).entries
  Under-walk_node (directory children) path name =
      let path' = path ++ name ∷ [] in
      let named = sort_names (walks path' children) in
      when-Under path' (is_ok (path_components (join path')))
        (yielding (record { components = path'; payload = none }) (in_turn named))
        (
          starts_with_itself path',
          All-in_turn (λ (e : TreeEntry). starts_with path' e.components ≡ true) named
              (Under-names path' named (
                All-sort_names (λ (o : Bytes × Walk). Under (path' ++ o.0 ∷ []) o.1.entries)
                  (walks path' children) (AllUnder-walks children path'))),
        )
  Under-walk_node (file links payload) path name =
      let path' = path ++ name ∷ [] in
      when-Under path' (is_ok (path_components (join path')) && links == 1)
        (yielding (record { components = path'; payload = some payload })
          (record { entries = []; ends = true }))
        (starts_with_itself path', tt)
  Under-walk_node special path name = tt

  pub AllUnder-walks :
      (children : Children) (path : List Bytes) → AllUnder path (walks path children)
  AllUnder-walks no_children path = tt
  AllUnder-walks (child name node children) path =
      (Under-walk_node node path name, AllUnder-walks children path)

-- What is left of the names of a directory.
module _ {κ} (P : Bytes × Walk → Type κ) (p : Bytes × Walk → Bool) where
  pub All-keep : (named : List (Bytes × Walk)) → All P named → All P (keep p named)
  All-keep [] h = tt
  All-keep (o ∷ rest) h = elim (Bool-cases (p o)) [
    | inl kept ↦ rw kept (h.0, All-keep rest h.1)
    | inr left ↦ rw left (All-keep rest h.1)
  ]

pub AreApart-keep :
    (p : Bytes × Walk → Bool) (named : List (Bytes × Walk))
    → AreApart named
    → AreApart (keep p named)
AreApart-keep p [] h = tt
AreApart-keep p ((name, walk) ∷ rest) h = elim (Bool-cases (p (name, walk))) [
  | inl kept ↦
      rw kept (All-keep (λ (o : Bytes × Walk). name ≢ o.0) p rest h.0, AreApart-keep p rest h.1)
  | inr left ↦ rw left (AreApart-keep p rest h.1)
]
