-- ===== src/Architect/Cycles/Keeps.antt =====
-- What one call of `visit` keeps, and how the loops around it keep it too.
use mathlib.Core.WellFounded.{Acc}
use minifleet.Prelude.{
  ℕ, zero, suc, String, ◌≡◌, refl, true, Option, none, some, List, [], ◌∷◌, ◌++◌, ◌==◌, ◌⊎◌, inl,
  inr, eq_iff, contains, Dict, All, contains→Has, All-at, ◌≢◌, eq_refl, Bool-cases,
}
use minifleet.Architect.Graph.{
  Colour, Dfs, Visit, successors, paint, from, enter, leave, close, follow, scan, visit, roots,
}

-- `m` is a dependency of `n`.
abbrev pub Depends : Dict (List String) → String → String → Type 0
Depends g m n = contains (successors g n) m ≡ true

-- no chain of dependencies goes on for ever from `n`
abbrev pub Grounded : Dict (List String) → String → Type 0
Grounded g n = Acc (Depends g) n

abbrev pub Is : Colour → Dfs → String → Type 0
Is c s n = s.colour n ≡ c

-- While no cycle is reported, each finished name is grounded.
abbrev pub FinishedGrounded : Dict (List String) → Dfs → Type 0
FinishedGrounded g s = (n : String) → s.cycles ≡ [] → Is Colour.black s n → Grounded g n

pub record After (g : Dict (List String)) (s t : Dfs) : Type 0 where
  pub blacks : (m : String) → Is Colour.black s m → Is Colour.black t m
  pub greys : (m : String) → Is Colour.grey t m → Is Colour.grey s m
  pub silent : t.cycles ≡ [] → s.cycles ≡ []
  pub grounded : FinishedGrounded g s → FinishedGrounded g t

abbrev pub Keeps : Dict (List String) → Visit → Type 0
Keeps g v =
    (n : String) (s t : Dfs)
    → Is Colour.white s n
    → v n s ≡ some t
    → After g s t × Is Colour.black t n

After-refl : (g : Dict (List String)) (s : Dfs) → After g s s
After-refl g s = record { blacks = λ m h. h; greys = λ m h. h; silent = λ h. h; grounded = λ h. h }

pub After-trans : {g : Dict (List String)} {s t u : Dfs} → After g s t → After g t u → After g s u
After-trans a b = record {
  blacks = λ m h. b.blacks m (a.blacks m h);
  greys = λ m h. a.greys m (b.greys m h);
  silent = λ h. a.silent (b.silent h);
  grounded = λ h. b.grounded (a.grounded h);
}

append-ne-nil {ℓ} : {A : Type ℓ} (xs : List A) (x : A) → xs ++ x ∷ [] ≡ [] → ⊥
append-ne-nil [] x e = cc
append-ne-nil (y ∷ ys) x e = cc

After-close : (g : Dict (List String)) (n : String) (s : Dfs) → After g s (close n s)
After-close g n s = record {
  blacks = λ m h. h;
  greys = λ m h. h;
  silent = λ h. absurd (append-ne-nil s.cycles (from n s.stack) h);
  grounded = λ f m h. absurd (append-ne-nil s.cycles (from n s.stack) h);
}

pub Colour-cases : (c : Colour) → (c ≡ Colour.white) ⊎ ((c ≡ Colour.grey) ⊎ (c ≡ Colour.black))
Colour-cases Colour.white = inl refl
Colour-cases Colour.grey = inr (inl refl)
Colour-cases Colour.black = inr (inr refl)

pub some_inj {ℓ} : {A : Type ℓ} {a b : A} → some a ≡ some b → a ≡ b
some_inj h = cc

-- the result of a stuck call that is handed on
pub Option-step {ℓ κ} :
    {A : Type ℓ} {B : Type κ} (o : Option A) (f : A → Option B) {b : B}
    → elim o [ none ↦ none | some a ↦ f a ] ≡ some b
    → (a : A) × (o ≡ some a) × (f a ≡ some b)
Option-step none f h = cc
Option-step (some a) f h = (a, refl, h)

module _ {g : Dict (List String)} {v : Visit} (keeps : Keeps g v) where
  follow-After :
      (n : String) (s t : Dfs)
      → follow v n s ≡ some t
      → After g s t × (t.cycles ≡ [] → Is Colour.black t n)
  unfolding follow
  follow-After n s t e = elim (Colour-cases (s.colour n)) [
    | inl w ↦ let k = keeps n s t w (rw (w, follow) at e) in (k.0, λ _. k.1)
    | inr (inl w) ↦
        let same : close n s ≡ t = some_inj (rw (w, follow) at e) in
        rw (← same) (After-close g n s, λ h. absurd (append-ne-nil s.cycles (from n s.stack) h))
    | inr (inr w) ↦
        let same : s ≡ t = some_inj (rw (w, follow) at e) in rw (← same) (After-refl g s, λ h. w)
  ]

  scan-After :
      (ns : List String) (s t : Dfs)
      → scan v ns s ≡ some t
      → After g s t × (t.cycles ≡ [] → All (Is Colour.black t) ns)
  unfolding scan
  scan-After [] s t e = let same : s ≡ t = some_inj e in rw (← same) (After-refl g s, λ h. tt)
  scan-After (n ∷ ns) s t e =
      let (u, first, rest) = Option-step (follow v n s) (scan v ns) e in
      let a = follow-After n s u first in
      let b = scan-After ns u t rest in
      (After-trans a.0 b.0, λ h. (b.0.blacks n (a.1 (b.0.silent h)), b.1 h))

  -- The loop over the roots starts with no name in grey, and leaves each root finished.
  pub roots-After :
      (ns : List String) (s t : Dfs)
      → ((n : String) → ¬ Is Colour.grey s n)
      → roots v ns s ≡ some t
      → After g s t × All (Is Colour.black t) ns
  unfolding roots
  roots-After [] s t clear e = let same : s ≡ t = some_inj e in rw (← same) (After-refl g s, tt)
  roots-After (n ∷ ns) s t clear e = elim (Colour-cases (s.colour n)) [
    | inl w ↦
        let (u, first, rest) = Option-step (v n s) (roots v ns) (rw (w, roots) at e) in
        let a = keeps n s u w first in
        let b = roots-After ns u t (λ m h. clear m (a.0.greys m h)) rest in
        (After-trans a.0 b.0, (b.0.blacks n a.1, b.1))
    | inr (inl w) ↦ absurd (clear n w)
    | inr (inr w) ↦
        let b = roots-After ns s t clear (rw (w, roots) at e) in (b.0, (b.0.blacks n w, b.1))
  ]

paint_self : (n : String) (c : Colour) (colour : String → Colour) → paint n c colour n ≡ c
paint_self n c colour = rw (eq_refl n)

paint_ne :
    (n m : String) (c d : Colour) (colour : String → Colour)
    → paint n c colour m ≡ d
    → colour n ≢ d
    → c ≢ d
    → colour m ≡ d
paint_ne n m c d colour h k l = elim (Bool-cases (n == m)) [
  | inl e ↦ absurd (l (rw e at h))
  | inr e ↦ rw e at h
]

After-enter :
    (g : Dict (List String)) (n : String) (s : Dfs)
    → Is Colour.white s n
    → FinishedGrounded g s
    → FinishedGrounded g (enter n s)
After-enter g n s w f m h b =
    f m h (paint_ne n m Colour.grey Colour.black s.colour b (λ k. cc) (λ k. cc))

grounded-leave :
    (g : Dict (List String)) (n : String) (s : Dfs)
    → FinishedGrounded g s
    → (s.cycles ≡ [] → All (Is Colour.black s) (successors g n))
    → FinishedGrounded g (leave n s)
grounded-leave g n s f done m h b = elim (Bool-cases (n == m)) [
  | inl e ↦ rw (← (eq_iff n m).0 e) (
      Acc.intro n λ k dep. f k h (
        All-at (Is Colour.black s) k (successors g n) (done h)
          (contains→Has (successors g n) k dep)))
  | inr e ↦ f m h (rw e at b)
]

blacks_around :
    (n : String) (s u : Dfs)
    → ((m : String) → Is Colour.black (enter n s) m → Is Colour.black u m)
    → (m : String) → Is Colour.black s m
    → Is Colour.black (leave n u) m
blacks_around n s u inner m h = elim (Bool-cases (n == m)) [
  | inl e ↦ rw e
  | inr e ↦ rw e (inner m (rw e h))
]

greys_around :
    (n : String) (s u : Dfs)
    → ((m : String) → Is Colour.grey u m → Is Colour.grey (enter n s) m)
    → (m : String) → Is Colour.grey (leave n u) m
    → Is Colour.grey s m
greys_around n s u inner m h = elim (Bool-cases (n == m)) [
  | inl e ↦ let no : Colour.black ≡ Colour.grey = rw e at h in cc
  | inr e ↦ rw e at (inner m (rw e at h))
]

-- A visit of a white name finishes it, and keeps all that `After` states.
pub visit-Keeps : (fuel : ℕ) (g : Dict (List String)) → Keeps g (visit fuel g)
unfolding visit
visit-Keeps zero g n s t w e = cc
visit-Keeps (suc fuel) g n s t w e =
    let (u, inside, end) =
      Option-step (scan (visit fuel g) (successors g n) (enter n s)) (λ u. some (leave n u)) e in
    let a = scan-After (visit-Keeps fuel g) (successors g n) (enter n s) u inside in
    let same : leave n u ≡ t = some_inj end in
    rw (← same) (
      record {
        blacks = blacks_around n s u a.0.blacks;
        greys = greys_around n s u a.0.greys;
        silent = a.0.silent;
        grounded = λ f. grounded-leave g n u (a.0.grounded (After-enter g n s w f)) a.1;
      },
      paint_self n Colour.black u.colour,
    )
