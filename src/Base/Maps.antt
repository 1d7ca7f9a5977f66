-- ===== src/Base/Maps.antt =====
-- Maps by text keys, as association lists: the directories of the host.
use mathlib.Core.Path.{◌≡◌, refl}
use mathlib.Core.Logic.{◌≢◌}
use mathlib.Core.List.{List, [], ◌∷◌}
use mathlib.Core.Option.{Option, none, some}
use Prim.Native.String.{String}
use text.Mathlib.Text.{◌==◌ as str_eq}
use text.Mathlib.TextEquality.{eq_iff}
use native.Mathlib.Omega.{arith}
use pickforge.Base.Tests.{if◌then◌else◌}

module _ {ℓ} {A : Type ℓ} where
  unfoldable pub lookup : String → List (String × A) → Option A
  lookup k [] = none
  lookup k ((j, v) ∷ ps) = if str_eq j k then some v else lookup k ps

  unfoldable pub erase : String → List (String × A) → List (String × A)
  erase k [] = []
  erase k ((j, v) ∷ ps) = if str_eq j k then erase k ps else (j, v) ∷ erase k ps

  -- A write keeps one entry for the key.
  unfoldable pub put : String → A → List (String × A) → List (String × A)
  put k v ps = (k, v) ∷ erase k ps

  pub lookup-erase : (k : String) (ps : List (String × A)) → lookup k (erase k ps) ≡ none
  unfolding lookup erase
  lookup-erase k [] = refl
  lookup-erase k ((j, v) ∷ ps) = ground (arith, eq_iff j k, lookup-erase k ps)

  pub lookup-erase_other :
      (j k : String) (ps : List (String × A)) → j ≢ k → lookup j (erase k ps) ≡ lookup j ps
  unfolding lookup erase
  lookup-erase_other j k [] h = refl
  lookup-erase_other j k ((i, v) ∷ ps) h =
      ground (arith, h, eq_iff i k, eq_iff i j, lookup-erase_other j k ps h)

  pub lookup-put : (k : String) (v : A) (ps : List (String × A)) → lookup k (put k v ps) ≡ some v
  unfolding lookup put
  lookup-put k v ps = ground (arith, eq_iff k k)

  pub lookup-put_other :
      (j k : String) (v : A) (ps : List (String × A)) → j ≢ k → lookup j (put k v ps) ≡ lookup j ps
  unfolding lookup put
  lookup-put_other j k v ps h = ground (arith, h, eq_iff k j, lookup-erase_other j k ps h)
