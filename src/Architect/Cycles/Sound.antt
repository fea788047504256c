-- ===== src/Architect/Cycles/Sound.antt =====
-- What `find_cycles` reports are cycles of the graph.
use mathlib.Core.WellFounded.{Acc}
use mathlib.Core.Path.{subst}
use minifleet.Prelude.{
  ℕ, zero, suc, String, ◌≡◌, refl, sym, ◌∙◌, true, some, List, [], ◌∷◌, ◌++◌, ◌==◌, inl, inr,
  eq_iff, arith, contains, Dict, All, All-append, All-of_Has, Has→contains, ap, Bool-cases,
  contains-append,
}
use minifleet.Architect.Graph.{
  Colour, Dfs, Visit, successors, from, drop_last, enter, leave, close, follow, scan, visit, roots,
}
use minifleet.Architect.Cycles.Keeps.{
  Depends, Grounded, Is, Colour-cases, Option-step, some_inj, visit-Keeps,
}

abbrev Leads : Dict (List String) → String → List String → Type 0
Leads g x [] = Unit
Leads g x (y ∷ ys) = Depends g y x

-- Each name depends on the one behind it.
abbrev pub IsPath : Dict (List String) → List String → Type 0
IsPath g [] = Unit
IsPath g (x ∷ xs) = Leads g x xs × IsPath g xs

-- A path from a name back to itself.
abbrev pub IsCycle : Dict (List String) → List String → Type 0
IsCycle g [] = ⊥
IsCycle g (x ∷ xs) = IsPath g (x ∷ (xs ++ x ∷ []))

IsPath-snoc :
    (g : Dict (List String)) (xs : List String) (x y : String)
    → IsPath g (xs ++ x ∷ [])
    → Depends g y x
    → IsPath g ((xs ++ x ∷ []) ++ y ∷ [])
IsPath-snoc g [] x y p d = (d, (tt, tt))
IsPath-snoc g (a ∷ []) x y p d = (p.0, (d, (tt, tt)))
IsPath-snoc g (a ∷ b ∷ xs) x y p d = (p.0, IsPath-snoc g (b ∷ xs) x y p.1 d)

from-IsCycle :
    (g : Dict (List String)) (n : String) (xs : List String)
    → contains xs n ≡ true
    → IsPath g (xs ++ n ∷ [])
    → IsCycle g (from n xs)
from-IsCycle g n [] h p = cc
from-IsCycle g n (x ∷ xs) h p = elim (Bool-cases (x == n)) [
  | inl e ↦ rw e (
      let same : x ≡ n = (eq_iff x n).0 e in
      rw (← same) at (let q : IsPath g (x ∷ (xs ++ n ∷ [])) = p in q))
  | inr e ↦ rw e (from-IsCycle g n xs (rw e at h) p.1)
]

drop_last-append : (xs : List String) (n : String) → drop_last (xs ++ n ∷ []) ≡ xs
drop_last-append [] n = refl
drop_last-append (x ∷ []) n = refl
drop_last-append (x ∷ y ∷ xs) n = ap (◌∷◌ x) (drop_last-append (y ∷ xs) n)

pub record IsSound (g : Dict (List String)) (s : Dfs) : Type 0 where
  pub on_stack : (m : String) → Is Colour.grey s m → contains s.stack m ≡ true
  pub real : All (IsCycle g) s.cycles

abbrev Pushable : Dict (List String) → Dfs → String → Type 0
Pushable g s n = IsPath g (s.stack ++ n ∷ [])

abbrev pub KeepsSound : Dict (List String) → Visit → Type 0
KeepsSound g v =
    (n : String) (s t : Dfs)
    → Is Colour.white s n
    → Pushable g s n
    → IsSound g s
    → v n s ≡ some t
    → IsSound g t × (t.stack ≡ s.stack)

close-IsSound :
    (g : Dict (List String)) (n : String) (s : Dfs)
    → Is Colour.grey s n
    → Pushable g s n
    → IsSound g s
    → IsSound g (close n s)
close-IsSound g n s w p sound = record {
  on_stack = sound.on_stack;
  real =
      All-append (IsCycle g) s.cycles (from n s.stack ∷ []) sound.real
        (from-IsCycle g n s.stack (sound.on_stack n w) p, tt);
}

Pushable-stack :
    (g : Dict (List String)) (s t : Dfs) (ns : List String)
    → t.stack ≡ s.stack
    → All (Pushable g s) ns
    → All (Pushable g t) ns
Pushable-stack g s t ns e h = subst (λ k. All (λ n. IsPath g (k ++ n ∷ [])) ns) (sym e) h

module _ {g : Dict (List String)} {v : Visit} (keeps : KeepsSound g v) where
  follow-IsSound :
      (n : String) (s t : Dfs)
      → Pushable g s n
      → IsSound g s
      → follow v n s ≡ some t
      → IsSound g t × (t.stack ≡ s.stack)
  unfolding follow
  follow-IsSound n s t p sound e = elim (Colour-cases (s.colour n)) [
    | inl w ↦ keeps n s t w p sound (rw (w, follow) at e)
    | inr (inl w) ↦
        let same : close n s ≡ t = some_inj (rw (w, follow) at e) in
        rw (← same) (close-IsSound g n s w p sound, refl)
    | inr (inr w) ↦ let same : s ≡ t = some_inj (rw (w, follow) at e) in rw (← same) (sound, refl)
  ]

  scan-IsSound :
      (ns : List String) (s t : Dfs)
      → All (Pushable g s) ns
      → IsSound g s
      → scan v ns s ≡ some t
      → IsSound g t × (t.stack ≡ s.stack)
  unfolding scan
  scan-IsSound [] s t p sound e = let same : s ≡ t = some_inj e in rw (← same) (sound, refl)
  scan-IsSound (n ∷ ns) s t p sound e =
      let (u, first, rest) = Option-step (follow v n s) (scan v ns) e in
      let a = follow-IsSound n s u p.0 sound first in
      let b = scan-IsSound ns u t (Pushable-stack g s u ns a.1 p.1) a.0 rest in (b.0, b.1 ∙ a.1)

  pub roots-IsSound :
      (ns : List String) (s t : Dfs)
      → s.stack ≡ []
      → IsSound g s
      → roots v ns s ≡ some t
      → IsSound g t
  unfolding roots
  roots-IsSound [] s t empty sound e = let same : s ≡ t = some_inj e in rw (← same) sound
  roots-IsSound (n ∷ ns) s t empty sound e = elim (Colour-cases (s.colour n)) [
    | inl w ↦
        let (u, first, rest) = Option-step (v n s) (roots v ns) (rw (w, roots) at e) in
        let a = keeps n s u w (rw empty (tt, tt)) sound first in
        roots-IsSound ns u t (a.1 ∙ empty) a.0 rest
    | inr (inl w) ↦ roots-IsSound ns s t empty sound (rw (w, roots) at e)
    | inr (inr w) ↦ roots-IsSound ns s t empty sound (rw (w, roots) at e)
  ]

enter-IsSound :
    (g : Dict (List String)) (n : String) (s : Dfs) → IsSound g s → IsSound g (enter n s)
enter-IsSound g n s sound = record {
  on_stack = λ m h. ground (arith, contains-append s.stack (n ∷ []) m, sound.on_stack m);
  real = sound.real;
}

successors-Pushable :
    (g : Dict (List String)) (n : String) (s : Dfs)
    → Pushable g s n
    → All (Pushable g (enter n s)) (successors g n)
successors-Pushable g n s p =
    All-of_Has (Pushable g (enter n s)) (successors g n)
      (λ m has. IsPath-snoc g s.stack n m p (Has→contains (successors g n) m has))

pub visit-KeepsSound : (fuel : ℕ) (g : Dict (List String)) → KeepsSound g (visit fuel g)
unfolding visit
visit-KeepsSound zero g n s t w p sound e = cc
visit-KeepsSound (suc fuel) g n s t w p sound e =
    let (u, inside, end) =
      Option-step (scan (visit fuel g) (successors g n) (enter n s)) (λ u. some (leave n u)) e in
    let a =
      scan-IsSound (visit-KeepsSound fuel g) (successors g n) (enter n s) u
        (successors-Pushable g n s p) (enter-IsSound g n s sound) inside in
    let same : leave n u ≡ t = some_inj end in
    let restored : drop_last u.stack ≡ s.stack = rw a.1 (drop_last-append s.stack n) in
    let stack : t.stack ≡ s.stack = ap (λ (d : Dfs). d.stack) (sym same) ∙ restored in
    let greys = (visit-Keeps (suc fuel) g n s t w e).0.greys in
    (
      record {
        on_stack = λ m h. rw stack (sound.on_stack m (greys m h));
        real = subst (λ (d : Dfs). All (IsCycle g) d.cycles) same a.0.real;
      },
      stack,
    )

-- a name that depends on itself through a cycle is not grounded
pub Grounded-not-IsCycle :
    (g : Dict (List String)) (n : String) (xs : List String) → Grounded g n → IsCycle g (n ∷ xs) → ⊥
Grounded-not-IsCycle g n [] (Acc.intro _ smaller) c = Grounded-not-IsCycle g n [] (smaller n c.0) c
Grounded-not-IsCycle g n (y ∷ ys) (Acc.intro _ smaller) c =
    Grounded-not-IsCycle g y (ys ++ n ∷ []) (smaller y c.0) (IsPath-snoc g (y ∷ ys) n y c.1 c.0)
