-- ===== src/Base/Dict.antt =====
-- Python's `dict` with text keys, in insertion order.
use Prim.Native.String.{String}
use mathlib.Core.Path.{◌≡◌, refl}
use mathlib.Core.Bool.{Bool}
use mathlib.Core.List.{List, [], ◌∷◌}
use mathlib.Core.Option.{Option, none, some}
use native.Mathlib.Omega.{arith}
use text.Mathlib.Text.{◌==◌}
use text.Mathlib.TextEquality.{eq_iff}
use agent_presentator.Base.Tests.{if◌then◌else◌, is_some, option_or}

abbrev pub Dict {ℓ} : Type ℓ → Type ℓ
Dict V = List (String × V)

module _ {ℓ} {V : Type ℓ} where
  -- `d.get(k)`
  unfoldable pub lookup : String → Dict V → Option V
  lookup k [] = none
  lookup k ((j, v) ∷ d) = if j == k then some v else lookup k d

  -- `k in d`
  abbrev pub contains : String → Dict V → Bool
  contains k d = is_some (lookup k d)

  -- `d[k] = v`
  unfoldable pub insert : String → V → Dict V → Dict V
  insert k v [] = (k, v) ∷ []
  insert k v ((j, w) ∷ d) = if j == k then (k, v) ∷ d else (j, w) ∷ insert k v d

  -- `del d[k]`, for a dictionary that holds each key once; a missing key changes nothing
  unfoldable pub erase : String → Dict V → Dict V
  erase k [] = []
  erase k ((j, v) ∷ d) = let rest = erase k d in if j == k then rest else (j, v) ∷ rest

  -- `d.setdefault(k, v)`, the dictionary that it leaves
  unfoldable pub set_default : String → V → Dict V → Dict V
  unfolding lookup insert
  set_default k v d = if contains k d then d else insert k v d

  pub lookup-insert :
      (k j : String) (v : V) (d : Dict V)
      → lookup j (insert k v d) ≡ (if k == j then some v else lookup j d)
  unfolding lookup insert
  lookup-insert k j v [] = refl
  lookup-insert k j v ((i, w) ∷ d) =
      ground (arith, eq_iff k j, eq_iff i k, eq_iff i j, lookup-insert k j v d)

  pub lookup-erase :
      (k j : String) (d : Dict V) → lookup j (erase k d) ≡ (if k == j then none else lookup j d)
  unfolding lookup erase
  lookup-erase k j [] = ground arith
  lookup-erase k j ((i, w) ∷ d) =
      ground (arith, eq_iff k j, eq_iff i k, eq_iff i j, lookup-erase k j d)

  -- What `d.setdefault(k, v)` returns for the key, and that it changes no other.
  pub lookup-set_default :
      (k j : String) (v : V) (d : Dict V)
      → lookup j (set_default k v d)
        ≡ (if k == j then some (option_or (lookup k d) v) else lookup j d)
  unfolding set_default
  lookup-set_default k j v d = ground (arith, eq_iff k j, lookup-insert k j v d)

pub ruleset dict_laws = (lookup-insert, lookup-erase, lookup-set_default)
