-- ===== src/Wire/Delivery.antt =====
-- A tree on the wire: what `send_tree` sends of a directory, `receive_entries` writes.
use agent_presentator.Base.{
  ℕ, suc, ◌+◌, ◌*◌, ◌<◌, ◌≡◌, refl, ap, ◌∙◌, Bool, true, false, ◌&&◌, none, some, List, [], ◌∷◌,
  ◌++◌, All, length, arith, append_assoc, append-nil, bytes_ltb, All-append, if◌then◌else◌,
  byte_range, ◌==◌,
}
use agent_presentator.Wire.{Bytes, megabyte}
use agent_presentator.Wire.Paths.{HasNoSlash, join, path_components}
use agent_presentator.Wire.Trees.{
  Node, directory, file, special, Children, no_children, child, TreeEntry, Walk, is_ok, refusing,
  yielding, sort_names, in_turn, walk_node, walks,
}
use agent_presentator.Wire.Receiving.{Receiver, receive_loop}
use agent_presentator.Wire.Names.{Fresh, Fresh-below, Under, starts_with, starts_with_longer}
use agent_presentator.Wire.Sorted.{Above, IsSorted, All-sort_names, sort_names-IsSorted}
use agent_presentator.Wire.Stack.{Stands-file, Stands-enter, Stands-leave, parents, entered}
use agent_presentator.Wire.Steps.{encoded, after_directory, after_file, directory_step, file_step}
use agent_presentator.Wire.Carrying.{encoded_all, AllUnder, AllFresh, Carries, in_turn-Arrives}
use agent_presentator.Wire.Walks.{IsNamed, AreNamed, AreApart-walks, Above-walks, AllUnder-walks}

module _ (chunk : ℕ → ℕ → ℕ) (megabytes : ℕ) (bounded : megabytes * megabyte < byte_range 8) where
  when-Carries :
      (path : List Bytes) (name : Bytes) (b : Bool) (walk : Walk)
      → (b ≡ true → Carries chunk megabytes path (name, walk))
      → Carries chunk megabytes path (name, if b then walk else refusing)
  when-Carries path name true walk h = h refl
  when-Carries path name false walk h = λ ends. absurd (ground arith)

  file-Carries :
      (path : List Bytes) (name payload : Bytes)
      → All HasNoSlash (path ++ name ∷ [])
      → is_ok (path_components (join (path ++ name ∷ []))) ≡ true
      → Carries chunk megabytes path (
        name,
        yielding
            (record { components = path ++ name ∷ []; payload = some payload })
            (record { entries = []; ends = true }),
      )
  file-Carries path name payload slashless taken ends scratchless below top r stands rises fresh
        room =
      let entry : TreeEntry = record { components = path ++ name ∷ []; payload = some payload } in
      (
        after_file chunk path name below top r slashless taken stands rises scratchless.0 fresh
            (omega (arith, room.0)) payload,
        (
          λ fuel rest.
              ap (λ (n : ℕ). receive_loop chunk n megabytes r ((encoded entry ++ []) ++ rest))
                (omega arith)
              ∙ ap (λ p. receive_loop chunk (suc fuel) megabytes r (p ++ rest))
                  (append-nil (encoded entry))
              ∙ file_step chunk path name below top r slashless taken stands rises scratchless.0
                  fresh (omega (arith, room.0)) fuel megabytes payload rest (omega (arith, room.1))
                  (omega (arith, room.1, bounded)),
          Stands-file path below top r.open_directories stands name,
          refl,
          omega arith,
          refl,
        ),
      )

  AllFresh-walks :
      (path : List Bytes) (name : Bytes) (disk : List TreeEntry) (named : List (Bytes × Walk))
      → Fresh (path ++ name ∷ []) disk
      → AllFresh
          (path ++ name ∷ [])
          (disk ++ record { components = path ++ name ∷ []; payload = none } ∷ [])
          named
  AllFresh-walks path name disk [] fresh = tt
  AllFresh-walks path name disk ((other, walk) ∷ named) fresh =
      let path' = path ++ name ∷ [] in
      (
        All-append (λ (e : TreeEntry). starts_with (path' ++ other ∷ []) e.components ≡ false) disk
            (record { components = path'; payload = none } ∷ [])
            (Fresh-below path' other disk fresh) (starts_with_longer path' other, tt),
        AllFresh-walks path name disk named fresh,
      )

  directory-Carries :
      (path : List Bytes) (name : Bytes) (named : List (Bytes × Walk))
      → All HasNoSlash (path ++ name ∷ [])
      → is_ok (path_components (join (path ++ name ∷ []))) ≡ true
      → All (Carries chunk megabytes (path ++ name ∷ [])) named
      → IsSorted named
      → AllUnder (path ++ name ∷ []) named
      → Above [] named
      → Carries chunk megabytes path (
        name,
        yielding (record { components = path ++ name ∷ []; payload = none }) (in_turn named),
      )
  directory-Carries path name named slashless taken carry is_sorted under above ends scratchless
        below top r stands rises fresh room =
      let entry : TreeEntry = record { components = path ++ name ∷ []; payload = none } in
      let entries : List TreeEntry = (in_turn named).entries in
      let mid : Receiver =
        after_directory chunk path name below top r slashless taken stands rises scratchless.0 fresh
          (omega (arith, room.0)) in
      let (last, r', arrived) =
        in_turn-Arrives chunk megabytes (path ++ name ∷ []) named
          (parents path below top r.open_directories stands name)
          (entered path below top r.open_directories stands name) mid carry is_sorted under ends
          scratchless.1 (Stands-enter path below top r.open_directories stands name) above
          (AllFresh-walks path name r.disk named fresh)
          (omega (arith, room.0), omega (arith, room.1)) in
      (
        r',
        (
          λ fuel rest.
              ap
                (λ (n : ℕ).
                  receive_loop chunk n megabytes r ((encoded entry ++ encoded_all entries) ++ rest))
                (omega arith)
              ∙ ap (receive_loop chunk (suc (length entries + fuel)) megabytes r)
                  (append_assoc (encoded entry) (encoded_all entries) rest)
              ∙ directory_step chunk path name below top r slashless taken stands rises
                  scratchless.0 fresh (omega (arith, room.0)) (length entries + fuel) megabytes
                  (encoded_all entries ++ rest)
              ∙ arrived.0 fuel rest,
          Stands-leave path below top r.open_directories stands name last r'.open_directories
              arrived.1,
          omega (arith, arrived.2),
          omega (arith, arrived.3),
          arrived.4 ∙ append_assoc r.disk (entry ∷ []) entries,
        ),
      )

  mutual
    unfolding walk_node walks IsNamed AreNamed

    pub node-Carries :
        (node : Node) (path : List Bytes) (name : Bytes)
        → IsNamed node
        → All HasNoSlash (path ++ name ∷ [])
        → Carries chunk megabytes path (name, walk_node path name node)
    node-Carries (directory children) path name named slashless =
        let path' = path ++ name ∷ [] in
        let below = sort_names (walks path' children) in
        when-Carries path name (is_ok (path_components (join path')))
          (yielding (record { components = path'; payload = none }) (in_turn below))
          (λ taken.
            directory-Carries path name below slashless taken
              (All-sort_names (Carries chunk megabytes path') (walks path' children)
                (walks-Carries children path' named slashless))
              (sort_names-IsSorted (walks path' children) (AreApart-walks path' children named))
              (All-sort_names (λ (o : Bytes × Walk). Under (path' ++ o.0 ∷ []) o.1.entries)
                (walks path' children) (AllUnder-walks children path'))
              (All-sort_names (λ (o : Bytes × Walk). bytes_ltb [] o.0 ≡ true) (walks path' children)
                (Above-walks path' children named)))
    node-Carries (file links payload) path name named slashless =
        let path' = path ++ name ∷ [] in
        when-Carries path name (is_ok (path_components (join path')) && links == 1)
          (yielding (record { components = path'; payload = some payload })
            (record { entries = []; ends = true }))
          (λ taken. file-Carries path name payload slashless (ground arith))
    node-Carries special path name named slashless = λ ends. absurd (ground arith)

    pub walks-Carries :
        (children : Children) (path : List Bytes)
        → AreNamed children
        → All HasNoSlash path
        → All (Carries chunk megabytes path) (walks path children)
    walks-Carries no_children path named slashless = tt
    walks-Carries (child name node children) path named slashless = (
      node-Carries node path name named.2
          (All-append HasNoSlash path (name ∷ []) slashless (named.0, tt)),
      walks-Carries children path named.4 slashless,
    )
