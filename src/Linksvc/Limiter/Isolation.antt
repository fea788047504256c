-- ===== src/Linksvc/Limiter/Isolation.antt =====
-- What a request of one key does to the others.
use minifleet.Prelude.{
  ℕ, suc, ◌≤◌, String, false, not, none, some, ◌≡◌, refl, ap, ◌∙◌, arith, ◌⊎◌, inl, inr, lookup,
  IsUnique, Bool-cases, if◌then◌else◌, ◌==◌, eq_iff, lookup-filter,
}
use minifleet.Model.{Float, le_float}
use minifleet.Linksvc.Limiter.{Arithmetic, Bucket, Limiter, level, remove, remember, allow}
use minifleet.Linksvc.Limiter.Buckets.{
  others, remember-buckets, suc-of, contains-evict, contains-remove, IsUnique-remove, lookup-last,
  lookup-evict,
}

-- A request remembers some bucket for its key, and changes nothing else.
allow-remember :
    (ar : Arithmetic) (now : Float) (k : String) (l : Limiter)
    → (b : Bucket) × ((allow ar now k l).1 ≡ remember k b l)
unfolding allow
allow-remember ar now k l =
    let tokens = level ar l now (lookup k l.buckets) in
    elim (Bool-cases (le_float (ar.of_int 1) tokens)) [
      | inl e ↦ ((ar.sub tokens (ar.of_int 1), now), rw e refl)
      | inr e ↦ ((tokens, now), rw e refl)
    ]

pub remember-lookup :
    (k : String) (b : Bucket) (l : Limiter) (j : String) (m : ℕ)
    → l.max_keys ≡ suc m
    → lookup j (remember k b l).buckets ≡ (if k == j then some b else lookup j (others k l m))
remember-lookup k b l j m e =
    ap (lookup j) (remember-buckets k b l m e)
    ∙ lookup-last k b j (others k l m)
        (contains-evict m k (remove k l.buckets) (contains-remove k l.buckets))

others-lookup :
    (k : String) (l : Limiter) (j : String) (m : ℕ)
    → (k == j) ≡ false
    → IsUnique l.buckets
    → (lookup j (others k l m) ≡ lookup j l.buckets) ⊎ (lookup j (others k l m) ≡ none)
others-lookup k l j m h u =
    let apart : (j == k) ≡ false = ground (arith, eq_iff j k, eq_iff k j) in
    elim (lookup-evict m j (remove k l.buckets) (IsUnique-remove k l.buckets u)) [
      | inl e ↦ inl (e ∙ lookup-filter (λ i. not (i == k)) l.buckets j ∙ rw apart refl)
      | inr e ↦ inr e
    ]

-- One key cannot use up the tokens of another: after a request of a key the limiter has a bucket
-- for that key, and any other key has the bucket it had, or was evicted and has none, which is the
-- full burst again.
pub allow-others :
    (ar : Arithmetic) (now : Float) (k j : String) (l : Limiter)
    → 1 ≤ l.max_keys
    → IsUnique l.buckets
    → ((k ≡ j) × (b : Bucket) × (lookup j (allow ar now k l).1.buckets ≡ some b))
      ⊎ (((k == j) ≡ false)
          × ((lookup j (allow ar now k l).1.buckets ≡ lookup j l.buckets)
              ⊎ (lookup j (allow ar now k l).1.buckets ≡ none)))
allow-others ar now k j l one u =
    let (m, e) = suc-of l.max_keys one in
    let (b, same) = allow-remember ar now k l in
    let seen = ap (λ (x : Limiter). lookup j x.buckets) same ∙ remember-lookup k b l j m e in
    elim (Bool-cases (k == j)) [
      | inl h ↦ inl ((eq_iff k j).0 h, b, rw h at seen)
      | inr h ↦
          let found : lookup j (allow ar now k l).1.buckets ≡ lookup j (others k l m) =
            rw h at seen in
          inr (
            h,
            elim (others-lookup k l j m h u) [ inl o ↦ inl (found ∙ o) | inr o ↦ inr (found ∙ o) ],
          )
    ]
