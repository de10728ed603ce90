-- ===== src/Prelude/Maps.antt =====
-- Go's maps as association lists. A key stands at most once in a map that `insert` built, and no
-- result of the program depends on the order of the entries.
use mathlib.Core.Path.{subst, sym, ap, ◌≡◌, refl}
use mathlib.Core.List.{List, [], ◌∷◌}
use mathlib.Core.Option.{Option, none, some}
use native.Mathlib.Omega.{arith}
use Prim.Native.Nat.{suc, ◌≤◌}
use mathlib.Core.Bool.{Bool, true, false, ◌||◌}
use mathlib.Core.Logic.{◌⊎◌, inl, inr}
use teploy_arcade.Prelude.Lists.{retain, length, contains, Distinct}
use teploy_arcade.Prelude.Tests.{Bool-cases, some-inj, Key, ◌==◌, if◌then◌else◌}

abbrev pub Assoc {ℓ} : Type ℓ → Type ℓ → Type ℓ
Assoc K V = List (K × V)

module _ {ℓ} {K V : Type ℓ} ⦃key : Key K⦄ where
  unfoldable pub lookup : K → Assoc K V → Option V
  lookup wanted [] = none
  lookup wanted ((name, value) ∷ others) =
      if name == wanted then some value else lookup wanted others

  unfoldable pub remove : K → Assoc K V → Assoc K V
  remove gone [] = []
  remove gone ((name, value) ∷ others) =
      let kept = remove gone others in if name == gone then kept else (name, value) ∷ kept

  unfoldable pub insert : K → V → Assoc K V → Assoc K V
  insert name new [] = (name, new) ∷ []
  insert name new ((other, old) ∷ others) =
      if other == name then (name, new) ∷ others else (other, old) ∷ insert name new others

  pub lookup-remove :
      (gone wanted : K) (map : Assoc K V)
      → lookup wanted (remove gone map) ≡ (if gone == wanted then none else lookup wanted map)
  unfolding lookup remove
  lookup-remove gone wanted [] = ground arith
  lookup-remove gone wanted ((name, value) ∷ others) = ground (
    arith,
    lookup-remove gone wanted others,
    key.same_iff name wanted,
    key.same_iff gone wanted,
    key.same_iff name gone,
  )

  pub lookup-insert :
      (name wanted : K) (new : V) (map : Assoc K V)
      → lookup wanted (insert name new map)
        ≡ (if name == wanted then some new else lookup wanted map)
  unfolding lookup insert
  lookup-insert name wanted new [] = refl
  lookup-insert name wanted new ((other, old) ∷ others) = ground (
    arith,
    lookup-insert name wanted new others,
    key.same_iff other wanted,
    key.same_iff name wanted,
    key.same_iff other name,
  )

-- The keys of a map, as a set.
module _ {ℓ} {K V : Type ℓ} ⦃key : Key K⦄ where
  abbrev pub keys : Assoc K V → List K
  keys [] = []
  keys ((name, value) ∷ others) = name ∷ keys others

  pub contains-keys-insert :
      (name wanted : K) (new : V) (map : Assoc K V)
      → contains (keys (insert name new map)) wanted
        ≡ (name == wanted || contains (keys map) wanted)
  unfolding insert contains
  contains-keys-insert name wanted new [] = refl
  contains-keys-insert name wanted new ((other, old) ∷ others) =
      ground (arith, contains-keys-insert name wanted new others, key.same_iff other name)

  pub contains-keys-remove :
      (gone wanted : K) (map : Assoc K V)
      → contains (keys (remove gone map)) wanted
        ≡ (if gone == wanted then false else contains (keys map) wanted)
  unfolding remove contains
  contains-keys-remove gone wanted [] = ground arith
  contains-keys-remove gone wanted ((name, value) ∷ others) = ground (
    arith,
    contains-keys-remove gone wanted others,
    key.same_iff name wanted,
    key.same_iff gone wanted,
    key.same_iff name gone,
  )

  pub insert-Distinct :
      (name : K) (new : V) (map : Assoc K V)
      → Distinct (keys map)
      → Distinct (keys (insert name new map))
  unfolding insert contains
  insert-Distinct name new [] d = (refl, tt)
  insert-Distinct name new ((other, old) ∷ others) d = ground (
    arith,
    insert-Distinct name new others d.1,
    contains-keys-insert name other new others,
    key.same_iff other name,
    key.same_iff name other,
  )

  pub remove-Distinct :
      (gone : K) (map : Assoc K V) → Distinct (keys map) → Distinct (keys (remove gone map))
  unfolding remove
  remove-Distinct gone [] d = tt
  remove-Distinct gone ((name, value) ∷ others) d =
      ground (arith, remove-Distinct gone others d.1, contains-keys-remove gone name others)

  pub remove_absent :
      (gone : K) (map : Assoc K V) → contains (keys map) gone ≡ false → remove gone map ≡ map
  unfolding remove contains
  remove_absent gone [] h = refl
  remove_absent gone ((name, value) ∷ others) h = ground (arith, remove_absent gone others)

  pub length-insert-le :
      (name : K) (new : V) (map : Assoc K V) → length (insert name new map) ≤ suc (length map)
  unfolding insert
  length-insert-le name new [] = omega arith
  length-insert-le name new ((other, old) ∷ others) =
      ground (arith, length-insert-le name new others)

  pub length-insert_known :
      (name : K) (new old : V) (map : Assoc K V)
      → lookup name map ≡ some old
      → length (insert name new map) ≡ length map
  unfolding insert lookup
  length-insert_known name new old [] h = ground arith
  length-insert_known name new old ((other, value) ∷ others) h = elim (Bool-cases (other == name)) [
    | inl same ↦ rw same refl
    | inr apart ↦ rw apart (ap suc (length-insert_known name new old others (rw apart at h)))
  ]

  pub length-remove-le : (gone : K) (map : Assoc K V) → length (remove gone map) ≤ length map
  unfolding remove
  length-remove-le gone [] = omega arith
  length-remove-le gone ((name, value) ∷ others) = ground (arith, length-remove-le gone others)

-- What `retain` keeps of a map.
module _ {ℓ} {K V : Type ℓ} ⦃key : Key K⦄ where
  pub lookup-retain_passed :
      (p : K × V → Bool) (wanted : K) (map : Assoc K V) (v : V)
      → lookup wanted (retain p map) ≡ some v
      → p (wanted, v) ≡ true
  unfolding lookup retain
  lookup-retain_passed p wanted [] v h = ground arith
  lookup-retain_passed p wanted ((name, value) ∷ others) v h = elim (Bool-cases (p (name, value))) [
    | inr out ↦ lookup-retain_passed p wanted others v (rw out at h)
    | inl kept ↦ elim (Bool-cases (name == wanted)) [
      | inl same ↦
          let e : value ≡ v = some-inj (rw (kept, lookup, same) at h) in
          subst (λ (x : K × V). p x ≡ true) (λ i. ((key.same_iff name wanted).0 same i, e i)) kept
      | inr other ↦ lookup-retain_passed p wanted others v (rw (kept, lookup, other) at h)
    ]
  ]

  pub lookup-retain_kept :
      (p : K × V → Bool) (wanted : K) (map : Assoc K V) (v : V)
      → lookup wanted map ≡ some v
      → p (wanted, v) ≡ true
      → lookup wanted (retain p map) ≡ some v
  unfolding lookup retain
  lookup-retain_kept p wanted [] v h k = h
  lookup-retain_kept p wanted ((name, value) ∷ others) v h k = elim (Bool-cases (name == wanted)) [
    | inl same ↦
        let e : v ≡ value = sym (some-inj (rw same at h)) in
        let kept : p (name, value) ≡ true =
          subst (λ (x : K × V). p x ≡ true) (λ i. (sym ((key.same_iff name wanted).0 same) i, e i))
            k in
        rw (kept, lookup, same) (ap some (sym e))
    | inr other ↦
        let rest = lookup-retain_kept p wanted others v (rw other at h) k in
        elim (Bool-cases (p (name, value))) [
          | inl kept ↦ rw (kept, lookup, other) rest
          | inr out ↦ rw out rest
        ]
  ]

  -- A key of the map has a value, and another has none.
  pub keys_cases :
      (wanted : K) (map : Assoc K V)
      → ((contains (keys map) wanted ≡ true) × ((v : V) × (lookup wanted map ≡ some v)))
        ⊎ ((contains (keys map) wanted ≡ false) × (lookup wanted map ≡ none))
  unfolding lookup contains
  keys_cases wanted [] = inr (refl, refl)
  keys_cases wanted ((name, value) ∷ others) = elim (Bool-cases (name == wanted)) [
    | inl same ↦ inl (rw same refl, (value, rw same refl))
    | inr other ↦ rw other (keys_cases wanted others)
  ]
