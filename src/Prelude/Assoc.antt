-- ===== src/Prelude/Assoc.antt =====
-- A dict keyed by text, in the order of insertion.
use mathlib.Core.Path.{◌≡◌, refl, ap}
use text.Mathlib.TextPositions.{eq_refl}
use mathlib.Core.Bool.{Bool, true, false, ◌&&◌}
use mathlib.Core.Logic.{inl, inr}
use mathlib.Core.Option.{Option, none, some}
use mathlib.Core.List.{List, [], ◌∷◌, map}
use Prim.Native.String.{String}
use native.Mathlib.Omega.{arith}
use text.Mathlib.Text.{◌==◌}
use text.Mathlib.TextEquality.{eq_iff}
use minifleet.Prelude.Tests.{if◌then◌else◌, Bool-cases}
use minifleet.Prelude.Lists.{Has, filter}
use minifleet.Prelude.Strings.{contains}

abbrev pub Dict {ℓ} : Type ℓ → Type ℓ
Dict V = List (String × V)

module _ {ℓ} {V : Type ℓ} where
  -- `d.get(k)`
  abbrev pub lookup : String → Dict V → Option V
  lookup k [] = none
  lookup k ((j, v) ∷ d) = if j == k then some v else lookup k d

  -- `d[k] = v`
  abbrev pub insert : String → V → Dict V → Dict V
  insert k v [] = (k, v) ∷ []
  insert k v ((j, w) ∷ d) = if j == k then (j, v) ∷ d else (j, w) ∷ insert k v d

  abbrev pub keys : Dict V → List String
  keys d = map (λ e. e.0) d

  pub lookup-insert :
      (k j : String) (v : V) (d : Dict V)
      → lookup j (insert k v d) ≡ (if k == j then some v else lookup j d)
  lookup-insert k j v [] = refl
  lookup-insert k j v ((i, w) ∷ d) =
      ground (arith, eq_iff k j, eq_iff i k, eq_iff i j, lookup-insert k j v d)

  pub lookup-none : (k : String) (d : Dict V) → contains (keys d) k ≡ false → lookup k d ≡ none
  lookup-none k [] h = refl
  lookup-none k ((i, w) ∷ d) h = ground (arith, lookup-none k d)

  pub contains-keys-insert :
      (k j : String) (v : V) (d : Dict V)
      → contains (keys (insert k v d)) j ≡ (if k == j then true else contains (keys d) j)
  contains-keys-insert k j v [] = ground arith
  contains-keys-insert k j v ((i, w) ∷ d) =
      ground (arith, eq_iff k j, eq_iff i k, eq_iff i j, contains-keys-insert k j v d)

pub map-insert {ℓ κ} :
    {V : Type ℓ} {W : Type κ} (f : V → W) (k : String) (v : V) (d : Dict V)
    → map (λ e. (e.0, f e.1)) (insert k v d) ≡ insert k (f v) (map (λ e. (e.0, f e.1)) d)
map-insert f k v [] = refl
map-insert f k v ((j, w) ∷ d) = elim (Bool-cases (j == k)) [
  | inl e ↦ rw e
  | inr e ↦ rw (e, map-insert f k v d)
]

pub lookup-Has : {V : Type 0} (k : String) (v : V) (d : Dict V) → lookup k d ≡ some v → Has (k, v) d
lookup-Has k v [] h = cc
lookup-Has k v ((j, w) ∷ d) h = elim (Bool-cases (j == k)) [
  | inl e ↦ inl (cc ((eq_iff j k).0 e, h))
  | inr e ↦ inr (lookup-Has k v d (rw e at h))
]

pub lookup-some {ℓ} :
    {V : Type ℓ} (k : String) (d : Dict V)
    → contains (keys d) k ≡ true
    → (v : V) × (lookup k d ≡ some v)
lookup-some k [] h = cc
lookup-some k ((j, w) ∷ d) h = elim (Bool-cases (j == k)) [
  | inl e ↦ (w, rw e)
  | inr e ↦ let (v, found) = lookup-some k d (rw e at h) in (v, rw e found)
]

-- Keeping the entries whose key passes a test.
module _ {ℓ} {V : Type ℓ} (p : String → Bool) where
  pub contains-keys-filter :
      (d : Dict V) (k : String)
      → contains (keys (filter (λ e. p e.0) d)) k ≡ (contains (keys d) k && p k)
  contains-keys-filter [] k = refl
  contains-keys-filter ((j, w) ∷ d) k = ground (arith, eq_iff j k, contains-keys-filter d k)

  pub lookup-filter :
      (d : Dict V) (k : String)
      → lookup k (filter (λ e. p e.0) d) ≡ (if p k then lookup k d else none)
  lookup-filter [] k = ground arith
  lookup-filter ((j, w) ∷ d) k = ground (arith, eq_iff j k, lookup-filter d k)

-- no key twice
abbrev pub IsUnique {ℓ} : {V : Type ℓ} → Dict V → Type 0
IsUnique [] = Unit
IsUnique ((k, v) ∷ d) = (contains (keys d) k ≡ false) × IsUnique d

pub IsUnique-insert {ℓ} :
    {V : Type ℓ} (k : String) (v : V) (d : Dict V) → IsUnique d → IsUnique (insert k v d)
IsUnique-insert k v [] u = (refl, tt)
IsUnique-insert k v ((j, w) ∷ d) u = elim (Bool-cases (j == k)) [
  | inl e ↦ rw e u
  | inr e ↦ rw e (
    ground (arith, contains-keys-insert k j v d, eq_iff k j, eq_iff j k),
    IsUnique-insert k v d u.1,
  )
]

contains-keys-Has :
    {V : Type 0} (k : String) (v : V) (d : Dict V) → Has (k, v) d → contains (keys d) k ≡ true
contains-keys-Has k v [] m = absurd m
contains-keys-Has {V} k v ((j, w) ∷ d) (inl e) =
    let same : j ≡ k = ap (λ (x : String × V). x.0) e in rw (same, eq_refl k)
contains-keys-Has k v ((j, w) ∷ d) (inr m) = ground (arith, contains-keys-Has k v d m)

pub lookup_of_Has :
    {V : Type 0} (k : String) (v : V) (d : Dict V) → IsUnique d → Has (k, v) d → lookup k d ≡ some v
lookup_of_Has k v [] u m = absurd m
lookup_of_Has {V} k v ((j, w) ∷ d) u (inl e) =
    let same : j ≡ k = ap (λ (x : String × V). x.0) e in
    rw (same, eq_refl k) (ap (λ (x : String × V). some x.1) e)
lookup_of_Has k v ((j, w) ∷ d) u (inr m) =
    let inside = contains-keys-Has k v d m in ground (arith, eq_iff j k, lookup_of_Has k v d u.1 m)
