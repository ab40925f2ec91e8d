-- ===== src/Login/Maps.antt =====
-- src/state/login.rs: laws of the maps of the login server.
use rusty_fusion.Login.{alter, erase, lookup}
use rusty_fusion.Prelude.{List, [], arith, if◌then◌else◌, none, some, ℕ, ◌==◌, ◌∷◌, ◌≡◌}

module _ {V : Type 0} where
  pub lookup-alter :
      (k : ℕ) (f : V → V) (m : List (ℕ × V)) (j : ℕ)
      → lookup (alter k f m) j
        ≡ (if j == k then elim (lookup m j) [ none ↦ none | some v ↦ some (f v) ] else lookup m j)
  lookup-alter k f [] j = ground arith
  lookup-alter k f ((i, v) ∷ m) j = ground (arith, lookup-alter k f m j)

  pub lookup-erase :
      (k : ℕ) (m : List (ℕ × V)) (j : ℕ)
      → lookup (erase k m) j ≡ (if j == k then none else lookup m j)
  lookup-erase k [] j = ground arith
  lookup-erase k ((i, v) ∷ m) j = ground (arith, lookup-erase k m j)

  abbrev pub AllDistinct : List (ℕ × V) → Type 0
  AllDistinct [] = Unit
  AllDistinct ((k, v) ∷ m) = (lookup m k ≡ none) × AllDistinct m

  pub alter-AllDistinct :
      (k : ℕ) (f : V → V) (m : List (ℕ × V)) → AllDistinct m → AllDistinct (alter k f m)
  alter-AllDistinct k f [] d = tt
  alter-AllDistinct k f ((i, v) ∷ m) (d, ds) =
      ground (arith, d, ds, alter-AllDistinct k f m ds, lookup-alter k f m i)

  pub erase-AllDistinct : (k : ℕ) (m : List (ℕ × V)) → AllDistinct m → AllDistinct (erase k m)
  erase-AllDistinct k [] d = tt
  erase-AllDistinct k ((i, v) ∷ m) (d, ds) =
      ground (arith, d, ds, erase-AllDistinct k m ds, lookup-erase k m i)
