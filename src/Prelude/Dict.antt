-- ===== src/Prelude/Dict.antt =====
-- Go's `map[string]V` as an association list: one entry for each key, as `insert` keeps it.
use Prim.Native.Nat.{suc}
use Prim.Native.String.{String}
use mathlib.Core.Path.{◌≡◌, refl}
use mathlib.Core.Bool.{false}
use mathlib.Core.Option.{Option, none, some}
use mathlib.Core.List.{List, [], ◌∷◌}
use native.Mathlib.Omega.{arith}
use text.Mathlib.TextEquality.{eq_iff}
use text.Mathlib.TextPositions.{eq_refl}
use easy_cron.Prelude.Tests.{str_eq, if◌then◌else◌}
use easy_cron.Prelude.Lists.{length}

abbrev pub Dict {ℓ} : Type ℓ → Type ℓ
Dict V = List (String × V)

module _ {ℓ} {V : Type ℓ} where
  unfoldable pub lookup : String → Dict V → Option V
  lookup k [] = none
  lookup k ((j, v) ∷ m) = if str_eq j k then some v else lookup k m

  unfoldable pub insert : String → V → Dict V → Dict V
  insert k v [] = (k, v) ∷ []
  insert k v ((j, w) ∷ m) = if str_eq j k then (k, v) ∷ m else (j, w) ∷ insert k v m

  pub lookup-insert :
      (key other : String) (val : V) (dict : Dict V)
      → lookup other (insert key val dict)
        ≡ (if str_eq key other then some val else lookup other dict)
  unfolding insert lookup
  lookup-insert key other val [] = refl
  lookup-insert key other val (entry ∷ rest) = ground (
    arith,
    lookup-insert key other val rest,
    eq_iff entry.0 other,
    eq_iff entry.0 key,
    eq_iff key other,
  )

  pub lookup-insert_self : (k : String) (v : V) (m : Dict V) → lookup k (insert k v m) ≡ some v
  lookup-insert_self k v m = simp (lookup-insert, eq_refl)

  pub lookup-insert_ne :
      (k j : String) (v : V) (m : Dict V)
      → str_eq k j ≡ false
      → lookup j (insert k v m) ≡ lookup j m
  lookup-insert_ne k j v m h = rw (lookup-insert k j v m, h)

  -- Storing under a key adds an entry only where the key was missing.
  pub length-insert_new :
      (k : String) (v : V) (m : Dict V) → lookup k m ≡ none → length (insert k v m) ≡ suc (length m)
  unfolding lookup insert
  length-insert_new k v [] h = refl
  length-insert_new k v ((j, w) ∷ m) h = ground (arith, length-insert_new k v m)

  pub length-insert_old :
      (k : String) (v w : V) (m : Dict V) → lookup k m ≡ some w → length (insert k v m) ≡ length m
  unfolding lookup insert
  length-insert_old k v w [] h = ground arith
  length-insert_old k v w ((j, x) ∷ m) h = ground (arith, length-insert_old k v w m)
