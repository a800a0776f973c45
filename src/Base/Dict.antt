-- ===== src/Base/Dict.antt =====
-- Python's `dict` with text keys: entries in insertion order, each key once.
use Prim.Native.String.{String}
use mathlib.Core.Path.{◌≡◌, refl}
use mathlib.Core.Option.{Option, none, some}
use mathlib.Core.List.{List, [], ◌∷◌, ◌++◌}
use native.Mathlib.Omega.{arith}
use text.Mathlib.Text.{◌==◌}
use text.Mathlib.TextEquality.{eq_iff}
use django_ag_ui.Base.Tests.{if◌then◌else◌, or_else}

abbrev pub Dict {ℓ} : Type ℓ → Type ℓ
Dict V = List (String × V)

module _ {ℓ} {V : Type ℓ} where
  -- d.get(k)
  unfoldable pub lookup : String → Dict V → Option V
  lookup k [] = none
  lookup k ((j, v) ∷ d) = if j == k then some v else lookup k d

  -- d[k] = v: a known key keeps its place.
  unfoldable pub insert : String → V → Dict V → Dict V
  insert k v [] = (k, v) ∷ []
  insert k v ((j, w) ∷ d) = if j == k then (j, v) ∷ d else (j, w) ∷ insert k v d

  -- d.pop(k): the entries without the key.
  unfoldable pub remove : String → Dict V → Dict V
  remove k [] = []
  remove k ((j, w) ∷ d) = if j == k then remove k d else (j, w) ∷ remove k d

  -- d[k] = f(d.setdefault(k, v))
  unfoldable pub update : String → V → (V → V) → Dict V → Dict V
  update k v f [] = (k, f v) ∷ []
  update k v f ((j, w) ∷ d) = if j == k then (j, f w) ∷ d else (j, w) ∷ update k v f d

  pub lookup-insert :
      (k j : String) (v : V) (d : Dict V)
      → lookup j (insert k v d) ≡ (if k == j then some v else lookup j d)
  unfolding lookup insert
  lookup-insert k j v [] = refl
  lookup-insert k j v ((i, w) ∷ d) =
      ground (arith, eq_iff k j, eq_iff i k, eq_iff i j, lookup-insert k j v d)

  pub lookup-remove :
      (k j : String) (d : Dict V) → lookup j (remove k d) ≡ (if k == j then none else lookup j d)
  unfolding lookup remove
  lookup-remove k j [] = ground arith
  lookup-remove k j ((i, w) ∷ d) =
      ground (arith, eq_iff k j, eq_iff i k, eq_iff i j, lookup-remove k j d)

  pub lookup-update :
      (k j : String) (v : V) (f : V → V) (d : Dict V)
      → lookup j (update k v f d)
        ≡ (if k == j then some (f (or_else (lookup j d) v)) else lookup j d)
  unfolding lookup update
  lookup-update k j v f [] = ground arith
  lookup-update k j v f ((i, w) ∷ d) =
      ground (arith, eq_iff k j, eq_iff i k, eq_iff i j, lookup-update k j v f d)

-- What a queue of a dict of queues still holds.
abbrev pub or_nil {ℓ} : {A : Type ℓ} → Option (List A) → List A
or_nil none = []
or_nil (some l) = l

module _ {ℓ} {A : Type ℓ} where
  pub or_nil-push :
      (k j : String) (x : A) (d : Dict (List A))
      → or_nil (lookup j (update k [] (λ q. q ++ x ∷ []) d))
        ≡ (if k == j then or_nil (lookup j d) ++ x ∷ [] else or_nil (lookup j d))
  or_nil-push k j x d = rw lookup-update (ground arith)
