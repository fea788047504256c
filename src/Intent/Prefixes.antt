-- ===== src/Intent/Prefixes.antt =====
-- Two directories above one path, for the write scopes of minifleet/intent.py.
use Prim.Native.Char.{Char}
use Prim.Native.String.{[] as no_chars, ◌∷◌ as and_char, ◌++◌ as append}
use Prim.Native.String.append
use text.Mathlib.TextEquality.{starts_with_iff}
use minifleet.Prelude.{String, ◌≡◌, refl, sym, ◌∙◌, ap, ◌⊎◌, inl, inr, true, starts_with}

-- `s` begins with `t` and a slash
abbrev Under : String → String → Type 0
Under t s = (u : String) × (append (append t "/") u ≡ s)

parts : (c d : Char) (s t : String) → and_char c s ≡ and_char d t → (c ≡ d) × (s ≡ t)
parts c d s t e = (cc, cc)

step_in :
    (c : Char) (a u : String)
    → append (append (and_char c a) "/") u ≡ and_char c (append (append a "/") u)
step_in c a u = ap (λ s. append s u) (append.cons c a "/") ∙ append.cons c (append a "/") u

root : (u : String) → append (append "" "/") u ≡ and_char "/" u
root u =
    ap (λ s. append s u) (append.nil "/") ∙ append.cons "/" "" u ∙ ap (and_char "/") (append.nil u)

Under-step : (c d : Char) (a b : String) → c ≡ d → Under a b → Under (and_char c a) (and_char d b)
Under-step c d a b e (u, k) = (u, step_in c a u ∙ ap (and_char c) k ∙ ap (λ x. and_char x b) e)

slashes :
    (a b u v : String)
    → append (append a "/") u ≡ append (append b "/") v
    → (a ≡ b) ⊎ (Under b a ⊎ Under a b)
slashes no_chars no_chars u v e = inl refl
slashes no_chars (and_char d b) u v e =
    let (h, t) = parts "/" d u _ (sym (root u) ∙ e ∙ step_in d b v) in
    inr (inr (b, root b ∙ ap (λ x. and_char x b) h))
slashes (and_char c a) no_chars u v e =
    let (h, t) = parts "/" c v _ (sym (root v) ∙ sym e ∙ step_in c a u) in
    inr (inl (a, root a ∙ ap (λ x. and_char x a) h))
slashes (and_char c a) (and_char d b) u v e =
    let (h, t) = parts c d _ _ (sym (step_in c a u) ∙ e ∙ step_in d b v) in
    elim (slashes a b u v t) [
      | inl k ↦ inl (ap (and_char c) k ∙ ap (λ x. and_char x b) h)
      | inr (inl k) ↦ inr (inl (Under-step d c b a (sym h) k))
      | inr (inr k) ↦ inr (inr (Under-step c d a b h k))
    ]

-- Of two directories above one path, one is the other or lies above it.
pub above-comparable :
    (a b x : String)
    → starts_with x (append a "/") ≡ true
    → starts_with x (append b "/") ≡ true
    → (a ≡ b) ⊎ ((starts_with a (append b "/") ≡ true) ⊎ (starts_with b (append a "/") ≡ true))
above-comparable a b x h k =
    let (u, m) = (starts_with_iff x (append a "/")).0 h in
    let (v, n) = (starts_with_iff x (append b "/")).0 k in
    elim (slashes a b u v (m ∙ sym n)) [
      | inl e ↦ inl e
      | inr (inl e) ↦ inr (inl ((starts_with_iff a (append b "/")).1 e))
      | inr (inr e) ↦ inr (inr ((starts_with_iff b (append a "/")).1 e))
    ]
