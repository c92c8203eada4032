-- ===== src/Maps.antt =====
-- A JavaScript `Map` with string keys, as a list of entries in the order of insertion.
use docent.Base.{
  ◌≡◌, refl, Option, none, some, List, [], ◌∷◌, ◌++◌, arith, if◌then◌else◌, Text, text_eq,
  text_eq_iff,
}

module _ {ℓ} {V : Type ℓ} where
  -- `map.get(key)`
  unfoldable pub lookup : Text → List (Text × V) → Option V
  lookup k [] = none
  lookup k ((j, v) ∷ m) = if text_eq j k then some v else lookup k m

  -- `map.set(key, value)`: a key that is there keeps its place.
  unfoldable pub put : Text → V → List (Text × V) → List (Text × V)
  put k v [] = (k, v) ∷ []
  put k v ((j, w) ∷ m) = if text_eq j k then (j, v) ∷ m else (j, w) ∷ put k v m

  lookup-put :
      (k j : Text) (v : V) (m : List (Text × V))
      → lookup j (put k v m) ≡ (if text_eq k j then some v else lookup j m)
  unfolding lookup put
  lookup-put k j v [] = refl
  lookup-put k j v ((i, w) ∷ m) =
      ground (arith, text_eq_iff k j, text_eq_iff i k, text_eq_iff i j, lookup-put k j v m)

  -- A new key comes behind all others.
  pub put-new :
      (k : Text) (v : V) (m : List (Text × V)) → lookup k m ≡ none → put k v m ≡ m ++ ((k, v) ∷ [])
  unfolding lookup put
  put-new k v [] h = refl
  put-new k v ((j, w) ∷ m) h = ground (arith, put-new k v m)
