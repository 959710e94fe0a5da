-- ===== src/Dict/Laws.antt =====
-- How `insert` and `erase` show through `lookup`.
use evernight_ai.Prelude.{◌≡◌, refl, false, is_some, none, some, [], ◌∷◌, arith, Eq, if◌then◌else◌}
use evernight_ai.Dict.{Dict, lookup, insert, erase}

module _ {ℓ κ} {K : Type ℓ} {V : Type κ} ⦃e : Eq K⦄ where
  pub lookup-insert :
      (k j : K) (v : V) (d : Dict K V)
      → lookup j (insert k v d) ≡ (if e.beq k j then some v else lookup j d)
  unfolding lookup insert
  lookup-insert k j v [] = refl
  lookup-insert k j v ((i, w) ∷ d) =
      ground (arith, e.beq_iff k j, e.beq_iff i k, e.beq_iff i j, lookup-insert k j v d)

  pub lookup-erase :
      (k j : K) (d : Dict K V) → lookup j (erase k d) ≡ (if e.beq k j then none else lookup j d)
  unfolding lookup erase
  lookup-erase k j [] = ground arith
  lookup-erase k j ((i, w) ∷ d) =
      ground (arith, e.beq_iff k j, e.beq_iff i k, e.beq_iff i j, lookup-erase k j d)

  -- Every key has one entry.
  abbrev pub UniqueKeys : Dict K V → Type 0
  UniqueKeys [] = Unit {0}
  UniqueKeys ((k, v) ∷ d) = (is_some (lookup k d) ≡ false) × UniqueKeys d

  pub insert-UniqueKeys : (k : K) (v : V) (d : Dict K V) → UniqueKeys d → UniqueKeys (insert k v d)
  unfolding lookup insert
  insert-UniqueKeys k v [] h = (refl, tt)
  insert-UniqueKeys k v ((i, w) ∷ d) h = ground (
    arith,
    h.0,
    h.1,
    e.beq_iff i k,
    e.beq_iff k i,
    lookup-insert k i v d,
    insert-UniqueKeys k v d h.1,
  )

  pub erase-UniqueKeys : (k : K) (d : Dict K V) → UniqueKeys d → UniqueKeys (erase k d)
  unfolding lookup erase
  erase-UniqueKeys k [] h = tt
  erase-UniqueKeys k ((i, w) ∷ d) h =
      ground (
        arith,
        h.0,
        h.1,
        e.beq_iff i k,
        e.beq_iff k i,
        lookup-erase k i d,
        erase-UniqueKeys k d h.1,
      )
