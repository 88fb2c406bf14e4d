-- ===== src/Base/Dict.antt =====
-- `std::unordered_map<std::string, V>` as an association list. No operation of the program depends
-- on the order of the entries, except where a loop walks a map; it then walks this list.
use mathlib.Core.Path.{◌≡◌, refl, sym, subst, ◌∙◌}
use mathlib.Core.Logic.{◌⊎◌, inl, inr}
use mathlib.Core.Bool.{Bool, true}
use mathlib.Core.List.{List, [], ◌∷◌}
use mathlib.Core.Option.{Option, none, some, some-injective}
use native.Mathlib.Omega.{arith}
use dist_build_sys.Base.Tests.{if◌then◌else◌, is_some, Bool-cases}
use dist_build_sys.Base.Lists.{All}
use dist_build_sys.Base.Strings.{Bytes, bytes_eq, bytes_eq_iff, bytes_eq_refl}

abbrev pub Dict {ℓ} : Type ℓ → Type ℓ
Dict V = List (Bytes × V)

module _ {ℓ} {V : Type ℓ} where
  -- `find`
  unfoldable pub lookup : Bytes → Dict V → Option V
  lookup k [] = none
  lookup k ((j, v) ∷ m) = if bytes_eq j k then some v else lookup k m

  -- `m[k] = v`
  unfoldable pub insert : Bytes → V → Dict V → Dict V
  insert k v [] = (k, v) ∷ []
  insert k v ((j, w) ∷ m) = if bytes_eq j k then (j, v) ∷ m else (j, w) ∷ insert k v m

  -- `erase`
  unfoldable pub erase : Bytes → Dict V → Dict V
  erase k [] = []
  erase k ((j, w) ∷ m) = if bytes_eq j k then erase k m else (j, w) ∷ erase k m

  pub lookup-insert :
      (k j : Bytes) (v : V) (m : Dict V)
      → lookup j (insert k v m) ≡ (if bytes_eq k j then some v else lookup j m)
  unfolding lookup insert
  lookup-insert k j v [] = refl
  lookup-insert k j v ((i, w) ∷ m) =
      ground (arith, bytes_eq_iff k j, bytes_eq_iff i k, bytes_eq_iff i j, lookup-insert k j v m)

  pub lookup-erase :
      (k j : Bytes) (m : Dict V)
      → lookup j (erase k m) ≡ (if bytes_eq k j then none else lookup j m)
  unfolding lookup erase
  lookup-erase k j [] = ground arith
  lookup-erase k j ((i, w) ∷ m) =
      ground (arith, bytes_eq_iff k j, bytes_eq_iff i k, bytes_eq_iff i j, lookup-erase k j m)

  pub lookup-insert_self : (k : Bytes) (v : V) (m : Dict V) → lookup k (insert k v m) ≡ some v
  lookup-insert_self k v m = simp (lookup-insert, bytes_eq_refl)

-- `contains`
abbrev pub contains {ℓ} : {V : Type ℓ} → Bytes → Dict V → Bool
contains k m = is_some (lookup k m)

-- `try_emplace` keeps the entry that is there.
abbrev pub try_emplace {ℓ} : {V : Type ℓ} → Bytes → V → Dict V → Dict V
try_emplace k v m = if contains k m then m else insert k v m

pub contains-insert {ℓ} :
    {V : Type ℓ} (k j : Bytes) (v : V) (m : Dict V)
    → contains j m ≡ true
    → contains j (insert k v m) ≡ true
contains-insert k j v m h = ground (arith, lookup-insert k j v m)

pub contains-insert_self {ℓ} :
    {V : Type ℓ} (k : Bytes) (v : V) (m : Dict V) → contains k (insert k v m) ≡ true
contains-insert_self k v m = rw lookup-insert_self

-- An entry that an insertion leaves is the new one or one from before.
pub lookup-insert_cases {ℓ} :
    {V : Type ℓ} (k j : Bytes) (v w : V) (m : Dict V)
    → lookup j (insert k v m) ≡ some w
    → ((k ≡ j) × (v ≡ w)) ⊎ (lookup j m ≡ some w)
lookup-insert_cases k j v w m h =
    let e = sym (lookup-insert k j v m) ∙ h in
    elim (Bool-cases (bytes_eq k j)) [
      | inl same ↦ inl ((bytes_eq_iff k j).0 same, ground (arith, e))
      | inr other ↦ inr (ground (arith, e))
    ]

-- What holds of all entries and of a new one holds of all after the insertion.
pub All-insert {ℓ κ} :
    {V : Type ℓ} (P : V → Type κ) (k : Bytes) (v : V) (m : Dict V)
    → P v
    → All (λ entry. P entry.1) m
    → All (λ entry. P entry.1) (insert k v m)
unfolding insert
All-insert P k v [] new old = (new, tt)
All-insert P k v ((j, w) ∷ m) new old = elim (Bool-cases (bytes_eq j k)) [
  | inl same ↦ rw same (new, old.1)
  | inr other ↦ rw other (old.0, All-insert P k v m new old.1)
]

pub All-erase {ℓ κ} :
    {V : Type ℓ} (P : V → Type κ) (k : Bytes) (m : Dict V)
    → All (λ entry. P entry.1) m
    → All (λ entry. P entry.1) (erase k m)
unfolding erase
All-erase P k [] h = tt
All-erase P k ((j, w) ∷ m) h = elim (Bool-cases (bytes_eq j k)) [
  | inl same ↦ rw same (All-erase P k m h.1)
  | inr other ↦ rw other (h.0, All-erase P k m h.1)
]

pub All-lookup {ℓ κ} :
    {V : Type ℓ} (P : V → Type κ) (k : Bytes) (v : V) (m : Dict V)
    → All (λ entry. P entry.1) m
    → lookup k m ≡ some v
    → P v
unfolding lookup
All-lookup P k v [] h e = ground (arith, e)
All-lookup P k v ((j, w) ∷ m) h e = elim (Bool-cases (bytes_eq j k)) [
  | inl same ↦ subst P (some-injective _ _ (rw same at e)) h.0
  | inr other ↦ All-lookup P k v m h.1 (rw other at e)
]

-- What holds of all entries carries over where one property gives another.
pub All-map {ℓ κ} :
    {V : Type ℓ} (P Q : V → Type κ)
    → ((v : V) → P v → Q v)
    → (m : Dict V) → All (λ entry. P entry.1) m
    → All (λ entry. Q entry.1) m
All-map P Q f [] h = tt
All-map P Q f ((j, w) ∷ m) h = (f w h.0, All-map P Q f m h.1)
