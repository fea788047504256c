-- ===== src/Linksvc/Limiter/Buckets.antt =====
-- The buckets as an ordered dict: what moving to the end and evicting from the front keep.
use minifleet.Prelude.{
  ℕ, zero, suc, ◌≤◌, String, Bool, true, false, not, none, some, List, [], ◌∷◌, ◌++◌, ◌≡◌, refl, ap,
  ◌∙◌, arith, ◌⊎◌, inl, inr, length, filter, ltb, if◌then◌else◌, ◌==◌, eq_iff, eq_refl, Dict,
  lookup, insert, keys, contains, IsUnique, All, Bool-cases, lookup-insert, contains-keys-filter,
  length-append, lookup-none,
}
use minifleet.Linksvc.Limiter.{Bucket, Limiter, remember, remove, move_to_end, evict}

module _ {ℓ} {A : Type ℓ} where
  pub evict-last :
      (m : ℕ) (e : A) (xs : List A) → evict (suc m) (xs ++ e ∷ []) ≡ evict m xs ++ e ∷ []
  evict-last m e [] = ground arith
  evict-last m e (x ∷ xs) = ground (arith, evict-last m e xs, length-append xs (e ∷ []))

  pub length-evict-le : (m : ℕ) (xs : List A) → length (evict m xs) ≤ m
  length-evict-le m [] = omega arith
  length-evict-le m (x ∷ xs) = ground (arith, length-evict-le m xs)

  pub All-evict {κ} : (P : A → Type κ) (m : ℕ) (xs : List A) → All P xs → All P (evict m xs)
  All-evict P m [] h = tt
  All-evict P m (x ∷ xs) h = elim (Bool-cases (ltb m (suc (length xs)))) [
    | inl e ↦ rw e (All-evict P m xs h.1)
    | inr e ↦ rw e h
  ]

  pub All-keep {κ} : (P : A → Type κ) (p : A → Bool) (xs : List A) → All P xs → All P (filter p xs)
  All-keep P p [] h = tt
  All-keep P p (x ∷ xs) h = elim (Bool-cases (p x)) [
    | inl e ↦ rw e (h.0, All-keep P p xs h.1)
    | inr e ↦ rw e (All-keep P p xs h.1)
  ]

module _ {ℓ} {V : Type ℓ} where
  remove-insert : (k : String) (v : V) (d : Dict V) → remove k (insert k v d) ≡ remove k d
  remove-insert k v [] = rw (eq_refl k) refl
  remove-insert k v ((j, w) ∷ d) = elim (Bool-cases (j == k)) [
    | inl e ↦ rw (e, e) refl
    | inr e ↦ rw (e, e, remove-insert k v d) refl
  ]

  -- A key that is set and moved stands at the end, with the others as they were.
  pub move_to_end-insert :
      (k : String) (v : V) (d : Dict V) → move_to_end k (insert k v d) ≡ remove k d ++ (k, v) ∷ []
  move_to_end-insert k v d = rw (lookup-insert k k v d, eq_refl k, remove-insert k v d) refl

  pub contains-evict :
      (m : ℕ) (k : String) (d : Dict V)
      → contains (keys d) k ≡ false
      → contains (keys (evict m d)) k ≡ false
  contains-evict m k [] h = refl
  contains-evict m k ((j, w) ∷ d) h = elim (Bool-cases (ltb m (suc (length d)))) [
    | inl e ↦ rw e (contains-evict m k d (ground arith))
    | inr e ↦ rw e h
  ]

  pub IsUnique-evict : (m : ℕ) (d : Dict V) → IsUnique d → IsUnique (evict m d)
  IsUnique-evict m [] u = tt
  IsUnique-evict m ((j, w) ∷ d) u = elim (Bool-cases (ltb m (suc (length d)))) [
    | inl e ↦ rw e (IsUnique-evict m d u.1)
    | inr e ↦ rw e u
  ]

  pub contains-remove : (k : String) (d : Dict V) → contains (keys (remove k d)) k ≡ false
  contains-remove k d = ground (arith, contains-keys-filter (λ j. not (j == k)) d k, eq_refl k)

  pub IsUnique-remove : (k : String) (d : Dict V) → IsUnique d → IsUnique (remove k d)
  IsUnique-remove k [] u = tt
  IsUnique-remove k ((j, w) ∷ d) u = elim (Bool-cases (j == k)) [
    | inl e ↦ rw e (IsUnique-remove k d u.1)
    | inr e ↦
        rw e (ground (arith, contains-keys-filter (λ i. not (i == k)) d j), IsUnique-remove k d u.1)
  ]

  contains-keys-last :
      (k : String) (v : V) (j : String) (d : Dict V)
      → contains (keys (d ++ (k, v) ∷ [])) j ≡ (if k == j then true else contains (keys d) j)
  contains-keys-last k v j [] = ground arith
  contains-keys-last k v j ((i, w) ∷ d) = ground (arith, contains-keys-last k v j d)

  pub IsUnique-last :
      (k : String) (v : V) (d : Dict V)
      → contains (keys d) k ≡ false
      → IsUnique d
      → IsUnique (d ++ (k, v) ∷ [])
  IsUnique-last k v [] h u = (refl, tt)
  IsUnique-last k v ((j, w) ∷ d) h u = (
    ground (arith, contains-keys-last k v j d, eq_iff j k, eq_iff k j),
    IsUnique-last k v d (ground arith) u.1,
  )

  pub lookup-last :
      (k : String) (v : V) (j : String) (d : Dict V)
      → contains (keys d) k ≡ false
      → lookup j (d ++ (k, v) ∷ []) ≡ (if k == j then some v else lookup j d)
  lookup-last k v j [] h = refl
  lookup-last k v j ((i, w) ∷ d) h =
      ground (arith, eq_iff i k, eq_iff k j, eq_iff i j, lookup-last k v j d)

  -- An eviction takes a key with its bucket or leaves both.
  pub lookup-evict :
      (m : ℕ) (j : String) (d : Dict V)
      → IsUnique d
      → (lookup j (evict m d) ≡ lookup j d) ⊎ (lookup j (evict m d) ≡ none)
  lookup-evict m j [] u = inl refl
  lookup-evict m j ((i, w) ∷ d) u = elim (Bool-cases (ltb m (suc (length d)))) [
    | inl e ↦ elim (Bool-cases (i == j)) [
      | inl h ↦
          let same : i ≡ j = (eq_iff i j).0 h in
          inr (rw e (lookup-none j (evict m d) (contains-evict m j d (rw same at u.0))))
      | inr h ↦ rw (e, h) (lookup-evict m j d u.1)
    ]
    | inr e ↦ inl (rw e refl)
  ]

-- The buckets that `remember` leaves: the others first, without the oldest, then the key.
abbrev pub others : String → Limiter → ℕ → Dict Bucket
others k l m = evict m (remove k l.buckets)

pub remember-buckets :
    (k : String) (b : Bucket) (l : Limiter) (m : ℕ)
    → l.max_keys ≡ suc m
    → (remember k b l).buckets ≡ others k l m ++ (k, b) ∷ []
unfolding remember
remember-buckets k b l m h =
    ap (evict l.max_keys) (move_to_end-insert k b l.buckets)
    ∙ ap (λ n. evict n (remove k l.buckets ++ (k, b) ∷ [])) h
    ∙ evict-last m (k, b) (remove k l.buckets)

pub suc-of : (n : ℕ) → 1 ≤ n → (m : ℕ) × (n ≡ suc m)
suc-of zero h = absurd (omega (arith, h))
suc-of (suc m) h = (m, refl)
