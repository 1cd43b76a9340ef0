-- ===== src/Common/Dict.antt =====
-- Go's `map` with text keys as an association list: the first entry of a key is its value.
use ai_solo_startup_framewor.Common.{
  String, ◌≡◌, Option, none, some, List, [], ◌∷◌, arith, ◌==◌, eq_iff, if◌then◌else◌,
}

abbrev pub Dict {ℓ} : Type ℓ → Type ℓ
Dict V = List (String × V)

module _ {ℓ} {V : Type ℓ} where
  unfoldable pub lookup : String → Dict V → Option V
  lookup k [] = none
  lookup k ((j, v) ∷ l) = if j == k then some v else lookup k l

  unfoldable pub remove : String → Dict V → Dict V
  remove k [] = []
  remove k ((j, v) ∷ l) = if j == k then remove k l else (j, v) ∷ remove k l

  unfoldable pub put : String → V → Dict V → Dict V
  put k v l = (k, v) ∷ remove k l

  pub lookup-remove :
      (k j : String) (l : Dict V) → lookup j (remove k l) ≡ (if k == j then none else lookup j l)
  unfolding lookup remove
  lookup-remove k j [] = ground arith
  lookup-remove k j ((i, v) ∷ l) =
      ground (arith, lookup-remove k j l, eq_iff i k, eq_iff i j, eq_iff k j)

  pub lookup-put :
      (k j : String) (v : V) (l : Dict V)
      → lookup j (put k v l) ≡ (if k == j then some v else lookup j l)
  unfolding lookup put
  lookup-put k j v l = ground (arith, lookup-remove k j l)
