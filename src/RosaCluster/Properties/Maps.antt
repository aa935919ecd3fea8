-- ===== src/RosaCluster/Properties/Maps.antt =====
-- Maps with distinct keys: two maps of one size, of which one has the entries of the other, are one.
use terraform_provider_ocm.Prelude.{
  ◌+◌, String, ◌≡◌, refl, sym, ◌∙◌, none, some, [], ◌∷◌, length, Dict, lookup, erase, lookup-erase,
  eq_iff, arith,
}

abbrev pub Distinct {ℓ} : {V : Type ℓ} → Dict V → Type ℓ
Distinct [] = Unit
Distinct ((k, v) ∷ m) = (lookup k m ≡ none) × Distinct m

-- Every entry of the first map is in the second.
abbrev pub Includes : Dict String → Dict String → Type 0
Includes a b = (k v : String) → lookup k a ≡ some v → lookup k b ≡ some v

abbrev pub SameMap : Dict String → Dict String → Type 0
SameMap a b = (k : String) → lookup k a ≡ lookup k b

erase-missing : (k : String) (m : Dict String) → lookup k m ≡ none → erase k m ≡ m
unfolding lookup erase
erase-missing k [] missing = refl
erase-missing k ((j, v) ∷ m) missing = ground (arith, eq_iff j k, erase-missing k m)

erase-Distinct : (k : String) (m : Dict String) → Distinct m → Distinct (erase k m)
unfolding lookup erase
erase-Distinct k [] distinct = tt
erase-Distinct k ((j, v) ∷ m) (fresh, distinct) =
    ground (arith, eq_iff j k, erase-Distinct k m distinct, lookup-erase k j m)

length-erase :
    (k v : String) (m : Dict String)
    → Distinct m
    → lookup k m ≡ some v
    → length m ≡ 1 + length (erase k m)
unfolding lookup erase
length-erase k v [] distinct found = cc
length-erase k v ((j, w) ∷ m) (fresh, distinct) found =
    ground (arith, eq_iff j k, erase-missing k m, length-erase k v m distinct)

-- The first entry of a map in another, and the others without it.
rest-Includes :
    (k v : String) (m b : Dict String)
    → lookup k m ≡ none
    → Includes ((k, v) ∷ m) b
    → Includes m (erase k b)
unfolding lookup
rest-Includes k v m b fresh includes j w found =
    ground (arith, eq_iff k j, lookup-erase k j b, includes j w)

pub first-found : (k v : String) (m : Dict String) → lookup k ((k, v) ∷ m) ≡ some v
unfolding lookup
first-found k v m = ground (arith, eq_iff k k)

same-cons :
    (k v : String) (m b : Dict String)
    → lookup k b ≡ some v
    → SameMap m (erase k b)
    → SameMap ((k, v) ∷ m) b
unfolding lookup
same-cons k v m b found same j = ground (arith, eq_iff k j, lookup-erase k j b, same j)

pub included-SameMap :
    (a b : Dict String) → Distinct a → Distinct b → Includes a b → length b ≡ length a → SameMap a b
unfolding lookup
included-SameMap [] [] da db includes size = λ k. refl
included-SameMap [] (e ∷ b) da db includes size = absurd (omega arith)
included-SameMap ((k, v) ∷ m) b (fresh, da) db includes size =
    let found = includes k v (first-found k v m) in
    let smaller = length-erase k v b db found in
    same-cons k v m b found (
      included-SameMap m (erase k b) da (erase-Distinct k b db)
        (rest-Includes k v m b fresh includes) (omega arith))

rest-SameMap :
    (k v : String) (m b : Dict String)
    → lookup k m ≡ none
    → SameMap ((k, v) ∷ m) b
    → SameMap m (erase k b)
unfolding lookup
rest-SameMap k v m b fresh same j = ground (arith, eq_iff k j, lookup-erase k j b, same j)

nothing-in-nil : (k v : String) → ¬ (lookup k [] ≡ some v)
unfolding lookup
nothing-in-nil k v e = cc

pub SameMap-length :
    (a b : Dict String) → Distinct a → Distinct b → SameMap a b → length b ≡ length a
SameMap-length [] [] da db same = refl
SameMap-length [] ((k, v) ∷ b) da db same = absurd (nothing-in-nil k v (same k ∙ first-found k v b))
SameMap-length ((k, v) ∷ m) b (fresh, da) db same =
    let found = sym (same k) ∙ first-found k v m in
    let smaller = length-erase k v b db found in
    let rest =
      SameMap-length m (erase k b) da (erase-Distinct k b db) (rest-SameMap k v m b fresh same) in
    omega arith
