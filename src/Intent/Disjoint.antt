-- ===== src/Intent/Disjoint.antt =====
-- The write scopes of an intent that `validate` of minifleet/intent.py lets pass.
use mathlib.Core.Path.{subst}
use Prim.Native.String.{◌++◌ as append}
use minifleet.Prelude.{
  String, ◌≡◌, refl, sym, ◌∙◌, ap, ◌⊎◌, inl, inr, Bool, true, false, not, ◌&&◌, List, [], ◌∷◌, ◌==◌,
  Dict, insert, Has, All, All-at, append-nil, All-of_concat_map-nil, concat_map, map, Has-map,
  Has-append_left, Has-append_right, Bool-cases, arith, eq_iff, eq_refl, starts_with,
}
use minifleet.Intent.Prefixes.{above-comparable}
use minifleet.Scheduler.Scope.{scopes_overlap, rstrip_slash}
use minifleet.Scheduler.Promises.{scopes_overlap_comm}
use minifleet.Model.{Component, IntentSpec}
use minifleet.Intent.{Flaw, flaw_if, findings, claimed, validate, overlaps, scope_flaws}

pair_eq : {x : String × String} {a b : String} → a ≡ x.0 → b ≡ x.1 → (a, b) ≡ x
pair_eq {x = (p, q)} {a} {b} h k = rw (h, k) refl

module _ (fnmatch : String → String → Bool) where
  -- Two claims of a path by an owner: one owner, or paths that do not overlap.
  abbrev pub Apart : String × String → String × String → Type 0
  Apart x y = (x.1 ≡ y.1) ⊎ (scopes_overlap fnmatch x.0 y.0 ≡ false)

  Apart-sym : (x y : String × String) → Apart x y → Apart y x
  Apart-sym x y (inl e) = inl (sym e)
  Apart-sym x y (inr n) = inr (scopes_overlap_comm fnmatch y.0 x.0 ∙ n)

  overlap_self : (p : String) → scopes_overlap fnmatch p p ≡ true
  unfolding scopes_overlap
  overlap_self p = ground (arith, eq_refl (rstrip_slash p))

  overlaps-nil :
      (path id : String) (d : Dict String)
      → overlaps fnmatch path id d ≡ []
      → All (Apart (path, id)) d
  overlaps-nil path id [] h = tt
  overlaps-nil path id ((seen, owner) ∷ d) h =
      let b =
        (append-nil
          (flaw_if (not (owner == id) && scopes_overlap fnmatch path seen)
            (Flaw.overlap path seen owner))
          (overlaps fnmatch path id d) h).1 in
      let a : flaw_if (not (owner == id) && scopes_overlap fnmatch path seen)
            (Flaw.overlap path seen owner)
          ≡ [] =
        (append-nil
          (flaw_if (not (owner == id) && scopes_overlap fnmatch path seen)
            (Flaw.overlap path seen owner))
          (overlaps fnmatch path id d) h).0 in
      (
        elim (Bool-cases (owner == id)) [
          | inl e ↦ inl (sym ((eq_iff owner id).0 e))
          | inr e ↦ inr (ground arith)
        ],
        overlaps-nil path id d b,
      )

  Has-insert : (path id : String) (d : Dict String) → Has (path, id) (insert path id d)
  Has-insert path id [] = inl refl
  Has-insert path id ((j, w) ∷ d) = elim (Bool-cases (j == path)) [
    | inl e ↦ rw e (inl (ap (λ q. (q, id)) ((eq_iff j path).0 e)))
    | inr e ↦ rw e (inr (Has-insert path id d))
  ]

  Has-insert_keep :
      (path id : String) (d : Dict String) (x : String × String)
      → Has x d
      → Apart (path, id) x
      → Has x (insert path id d)
  Has-insert_keep path id [] x m k = absurd m
  Has-insert_keep path id ((j, w) ∷ d) x (inl e) k = elim (Bool-cases (j == path)) [
    | inl q ↦
        let same : path ≡ x.0 = sym ((eq_iff j path).0 q) ∙ ap (λ z. z.0) e in
        elim k [
          | inl o ↦ rw q (inl (pair_eq (ap (λ z. z.0) e) o))
          | inr n ↦
              let yes : scopes_overlap fnmatch path x.0 ≡ true =
                subst (λ z. scopes_overlap fnmatch path z ≡ true) same (overlap_self path) in
              absurd (ground (arith, yes, n))
        ]
    | inr q ↦ rw q (inl e)
  ]
  Has-insert_keep path id ((j, w) ∷ d) x (inr m) k = elim (Bool-cases (j == path)) [
    | inl q ↦ rw q (inr m)
    | inr q ↦ rw q (inr (Has-insert_keep path id d x m k))
  ]

  -- No claim that is checked overlaps one that was seen.
  scope_flaws-seen :
      (d : Dict String) (claims : List (String × String)) (x y : String × String)
      → scope_flaws fnmatch d claims ≡ []
      → Has x d
      → Has y claims
      → Apart y x
  scope_flaws-seen d [] x y h m n = absurd n
  scope_flaws-seen d ((path, id) ∷ claims) x y h m n =
      let (a, b) = append-nil _ _ h in
      let k = All-at (Apart (path, id)) x d (overlaps-nil path id d a) m in
      elim n [
        | inl e ↦ subst (λ z. Apart z x) e k
        | inr n' ↦
            scope_flaws-seen (insert path id d) claims x y b (Has-insert_keep path id d x m k) n'
      ]

  pub scope_flaws-Apart :
      (d : Dict String) (claims : List (String × String)) (x y : String × String)
      → scope_flaws fnmatch d claims ≡ []
      → Has x claims
      → Has y claims
      → Apart x y
  scope_flaws-Apart d [] x y h m n = absurd m
  scope_flaws-Apart d ((path, id) ∷ claims) x y h m n =
      let d' = insert path id d in
      let (a, b) = append-nil (overlaps fnmatch path id d) (scope_flaws fnmatch d' claims) h in
      let new = Has-insert path id d in
      elim m [
        | inl e ↦ elim n [
          | inl e' ↦ inl (ap (λ z. z.1) (sym e ∙ e'))
          | inr n' ↦
              subst (λ z. Apart z y) e
                (Apart-sym y (path, id) (scope_flaws-seen d' claims (path, id) y b new n'))
        ]
        | inr m' ↦ elim n [
          | inl e' ↦ subst (λ z. Apart x z) e' (scope_flaws-seen d' claims (path, id) x b new m')
          | inr n' ↦ scope_flaws-Apart d' claims x y b m' n'
        ]
      ]

Has-concat_map :
    {A B : Type 0} (f : A → List B) (a : A) (b : B) (xs : List A)
    → Has a xs
    → Has b (f a)
    → Has b (concat_map f xs)
Has-concat_map f a b [] m n = absurd m
Has-concat_map f a b (x ∷ xs) (inl e) n =
    Has-append_left b (f x) (concat_map f xs) (subst (λ z. Has b (f z)) (sym e) n)
Has-concat_map f a b (x ∷ xs) (inr m) n =
    Has-append_right b (f x) (concat_map f xs) (Has-concat_map f a b xs m n)

claimed-Has :
    (spec : IntentSpec) (c : Component) (p : String)
    → Has c spec.components
    → Has p c.owns
    → Has {A = String × String} (p, c.id) (claimed spec)
claimed-Has spec c p m n =
    Has-concat_map (λ (c : Component). map (λ p. (p, c.id)) c.owns) c (p, c.id) spec.components m
      (Has-map (λ p. (p, c.id)) p c.owns n)

-- The scope `s` names the path `x`, or `x` lies below the directory that it names.
abbrev pub IsIn : String → String → Type 0
IsIn s x = (x ≡ rstrip_slash s) ⊎ (starts_with x (append (rstrip_slash s) "/") ≡ true)

module _ (fnmatch : String → String → Bool) (p q : String) where
  overlaps-shared :
      (x : String)
      → IsIn p x
      → IsIn q x ⊎ ((x ≡ rstrip_slash p) × (fnmatch x q ≡ true))
      → scopes_overlap fnmatch p q ≡ true
  unfolding scopes_overlap
  overlaps-shared x h (inr (e, k)) =
      let matched : fnmatch (rstrip_slash p) q ≡ true = subst (λ z. fnmatch z q ≡ true) e k in
      ground (arith, matched)
  overlaps-shared x (inl e) (inl (inl e')) =
      let same : rstrip_slash p ≡ rstrip_slash q = sym e ∙ e' in
      let yes = (eq_iff (rstrip_slash p) (rstrip_slash q)).1 same in ground (arith, yes)
  overlaps-shared x (inl e) (inl (inr k)) =
      let below : starts_with (rstrip_slash p) (append (rstrip_slash q) "/") ≡ true =
        subst (λ z. starts_with z (append (rstrip_slash q) "/") ≡ true) e k in
      ground (arith, below)
  overlaps-shared x (inr k) (inl (inl e)) =
      let below : starts_with (rstrip_slash q) (append (rstrip_slash p) "/") ≡ true =
        subst (λ z. starts_with z (append (rstrip_slash p) "/") ≡ true) e k in
      ground (arith, below)
  overlaps-shared x (inr h) (inl (inr k)) =
      elim (above-comparable (rstrip_slash p) (rstrip_slash q) x h k) [
        | inl e ↦ let yes = (eq_iff (rstrip_slash p) (rstrip_slash q)).1 e in ground (arith, yes)
        | inr (inl below) ↦ ground (arith, below)
        | inr (inr below) ↦ ground (arith, below)
      ]

-- In an intent without flaws: if one component owns p and a component owns q, and some path is p
-- itself or lies below p, and is q itself, lies below q, or is p and matches the glob q, then the
-- two components have one id.
pub validate-Apart :
    (fnmatch : String → String → Bool) (spec : IntentSpec) (c d : Component) (p q x : String)
    → validate fnmatch spec ≡ []
    → Has c spec.components
    → Has d spec.components
    → Has p c.owns
    → Has q d.owns
    → IsIn p x
    → IsIn q x ⊎ ((x ≡ rstrip_slash p) × (fnmatch x q ≡ true))
    → c.id ≡ d.id
unfolding validate
validate-Apart fnmatch spec c d p q x h m n a b over under =
    let silent = All-of_concat_map-nil (λ (l : List Flaw). l) (findings fnmatch spec) h in
    elim (scope_flaws-Apart fnmatch [] (claimed spec) (p, c.id) (q, d.id)
      silent.1.1.1.1.1.1.1.1.1.1.1.0 (claimed-Has spec c p m a) (claimed-Has spec d q n b)) [
        | inl e ↦ e
        | inr e ↦
            let yes = overlaps-shared fnmatch p q x over under in absurd (ground (arith, yes, e))
      ]
