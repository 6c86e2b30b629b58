-- ===== src/Wire/Trees.antt =====
-- `_tree`: the walk over a directory on disk. `Node` is what `os.stat` and `os.open` find there.
use agent_presentator.Base.{
  ℕ, Bool, true, false, not, ◌&&◌, Option, none, some, List, [], ◌∷◌, ◌++◌, ◌==◌, if◌then◌else◌,
  length, bytes_eq, bytes_ltb, is_none, keep,
}
use agent_presentator.Wire.{Result, ok, Bytes}
use agent_presentator.Wire.Paths.{path_components, join}

-- A directory with its entries in the order of `os.listdir`, a regular file with its number of
-- links and its bytes, or anything else: a link, a FIFO, what may not be opened.
mutual
  pub data Node : Type 0 where
    directory : Children → Node
    file : ℕ → Bytes → Node
    special : Node

  pub data Children : Type 0 where
    no_children : Children
    child : Bytes → Node → Children → Children

-- TreeEntry: a directory has no payload
pub record TreeEntry : Type 0 where
  pub components : List Bytes
  pub payload : Option Bytes

-- `is_directory` and `size`
abbrev pub is_directory : TreeEntry → Bool
is_directory entry = is_none entry.payload

abbrev pub payload_size : Option Bytes → ℕ
payload_size none = 0
payload_size (some payload) = length payload

abbrev pub size_of : TreeEntry → ℕ
size_of entry = payload_size entry.payload

-- What the generator yields, and whether it ends or raises TreeRefusedError.
pub record Walk : Type 0 where
  pub entries : List TreeEntry
  pub ends : Bool

abbrev pub refusing : Walk
refusing = record { entries = []; ends = false }

-- `yield entry`, then what follows
abbrev pub yielding : TreeEntry → Walk → Walk
yielding entry walk = record walk { entries = entry ∷ walk.entries }

-- One walk and then another, which is not begun if the first raises.
unfoldable pub then_walk : Walk → Walk → Walk
then_walk first next =
    if first.ends
    then record { entries = first.entries ++ next.entries; ends = next.ends }
    else first

-- `sorted(names)`: the names of a directory are distinct
unfoldable pub insert_name : Bytes × Walk → List (Bytes × Walk) → List (Bytes × Walk)
insert_name (name, walk) [] = (name, walk) ∷ []
insert_name (name, walk) ((other, next) ∷ rest) =
    let later = insert_name (name, walk) rest in
    if bytes_ltb name other then (name, walk) ∷ (other, next) ∷ rest else (other, next) ∷ later

unfoldable pub sort_names : List (Bytes × Walk) → List (Bytes × Walk)
unfolding insert_name
sort_names [] = []
sort_names (named ∷ rest) = insert_name named (sort_names rest)

-- The walks of a directory one after the other.
unfoldable pub in_turn : List (Bytes × Walk) → Walk
unfolding then_walk
in_turn [] = record { entries = []; ends = true }
in_turn ((name, walk) ∷ rest) = then_walk walk (in_turn rest)

abbrev pub is_ok {ℓ} : {A : Type ℓ} → Result A → Bool
is_ok (ok a) = true
is_ok other = false

-- One round of `_tree`'s loop, and the rounds of a directory.
unfoldable mutual
  unfolding in_turn sort_names path_components

  pub walk_node : List Bytes → Bytes → Node → Walk
  walk_node parent name (directory children) =
      let components = parent ++ name ∷ [] in
      let below = in_turn (sort_names (walks components children)) in
      if is_ok (path_components (join components))
      then yielding (record { components = components; payload = none }) below
      else refusing
  walk_node parent name (file links payload) =
      let components = parent ++ name ∷ [] in
      if is_ok (path_components (join components)) && links == 1
      then yielding (record { components = components; payload = some payload })
          (record { entries = []; ends = true })
      else refusing
  walk_node parent name special = refusing

  pub walks : List Bytes → Children → List (Bytes × Walk)
  walks parent no_children = []
  walks parent (child name node children) =
      (name, walk_node parent name node) ∷ walks parent children

-- `name != omitting`
abbrev pub is_other : Option Bytes → Bytes → Bool
is_other none name = true
is_other (some omitting) name = not (bytes_eq name omitting)

-- `_tree` over the root, leaving `omitting` out at its top level
unfoldable pub tree : Option Bytes → Children → Walk
unfolding walks in_turn sort_names
tree omitting children =
    in_turn
      (sort_names (keep (λ (named : Bytes × Walk). is_other omitting named.0) (walks [] children)))
