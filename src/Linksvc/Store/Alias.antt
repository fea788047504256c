-- ===== src/Linksvc/Store/Alias.antt =====
-- The aliases that `normalize_alias` accepts.
use minifleet.Prelude.{
  ℕ, suc, zero, ◌≤◌, true, ◌&&◌, List, [], ◌∷◌, ◌++◌, ◌≡◌, refl, all, arith, ◌⊎◌, ◌↔◌, inl, inr,
  Bool-cases, is_empty, is_empty→nil, length, eqb, ap,
}
use minifleet.Linksvc.Store.{is_alias, alias_rest, is_alias_char}

-- `^[A-Za-z0-9_-]{1,64}$` as the message of the error has it: 1 to 64 characters of the class
abbrev pub IsBody : List ℕ → Type 0
IsBody cs = (all is_alias_char cs ≡ true) × (1 ≤ length cs) × (length cs ≤ 64)

abbrev IsRest : ℕ → List ℕ → Type 0
IsRest n cs =
    (b : List ℕ) × (all is_alias_char b ≡ true) × (length b ≤ n) × ((cs ≡ b) ⊎ (cs ≡ b ++ 10 ∷ []))

IsRest-cons :
    (n c : ℕ) (cs : List ℕ) → is_alias_char c ≡ true → IsRest n cs → IsRest (suc n) (c ∷ cs)
IsRest-cons n c cs h (b, hb, lb, inl e) = (c ∷ b, rw h hb, omega arith, inl (ap (λ x. c ∷ x) e))
IsRest-cons n c cs h (b, hb, lb, inr e) = (c ∷ b, rw h hb, omega arith, inr (ap (λ x. c ∷ x) e))

alias_rest-IsRest : (n : ℕ) (cs : List ℕ) → alias_rest n cs ≡ true → IsRest n cs
unfolding alias_rest
alias_rest-IsRest n [] h = ([], refl, omega arith, inl refl)
alias_rest-IsRest zero (c ∷ cs) h =
    let e : cs ≡ [] = is_empty→nil cs (ground arith) in
    let d : c ≡ 10 = ground arith in ([], refl, omega arith, inr (rw (e, d) refl))
alias_rest-IsRest (suc n) (c ∷ cs) h = elim (Bool-cases (eqb c 10 && is_empty cs)) [
  | inl k ↦
      let e : cs ≡ [] = is_empty→nil cs (ground arith) in
      let d : c ≡ 10 = ground arith in ([], refl, omega arith, inr (rw (e, d) refl))
  | inr k ↦ IsRest-cons n c cs (ground arith) (alias_rest-IsRest n cs (ground arith))
]

alias_rest-body :
    (n : ℕ) (b : List ℕ) → all is_alias_char b ≡ true → length b ≤ n → alias_rest n b ≡ true
unfolding alias_rest
alias_rest-body n [] h l = refl
alias_rest-body zero (c ∷ b) h l = absurd (omega arith)
alias_rest-body (suc n) (c ∷ b) h l = ground (arith, alias_rest-body n b)

alias_rest-line_feed :
    (n : ℕ) (b : List ℕ)
    → all is_alias_char b ≡ true
    → length b ≤ n
    → alias_rest n (b ++ 10 ∷ []) ≡ true
unfolding alias_rest
alias_rest-line_feed zero [] h l = refl
alias_rest-line_feed (suc n) [] h l = refl
alias_rest-line_feed zero (c ∷ b) h l = absurd (omega arith)
alias_rest-line_feed (suc n) (c ∷ b) h l = ground (arith, alias_rest-line_feed n b)

alias-head :
    (cs : List ℕ) → is_alias cs ≡ true → (b : List ℕ) × IsBody b × ((cs ≡ b) ⊎ (cs ≡ b ++ 10 ∷ []))
unfolding is_alias
alias-head [] h = cc
alias-head (c ∷ cs) h =
    let k : is_alias_char c ≡ true = ground arith in
    let (b, hb, lb, e) = alias_rest-IsRest 63 cs (ground arith) in
    elim e [
      | inl d ↦ (c ∷ b, (rw k hb, omega arith, omega arith), inl (ap (λ x. c ∷ x) d))
      | inr d ↦ (c ∷ b, (rw k hb, omega arith, omega arith), inr (ap (λ x. c ∷ x) d))
    ]

body-alias : (b : List ℕ) → IsBody b → is_alias b ≡ true
unfolding is_alias
body-alias [] h = absurd (omega (arith, h.1))
body-alias (c ∷ b) (h, l, m) = ground (arith, alias_rest-body 63 b)

line_feed-alias : (b : List ℕ) → IsBody b → is_alias (b ++ 10 ∷ []) ≡ true
unfolding is_alias
line_feed-alias [] h = absurd (omega (arith, h.1))
line_feed-alias (c ∷ b) (h, l, m) = ground (arith, alias_rest-line_feed 63 b)

-- The expression accepts exactly the texts of 1 to 64 characters of its class, and each of these
-- with one line feed behind it.
pub is_alias_iff :
    (cs : List ℕ)
    → (is_alias cs ≡ true) ↔ ((b : List ℕ) × IsBody b × ((cs ≡ b) ⊎ (cs ≡ b ++ 10 ∷ [])))
is_alias_iff cs = (
  alias-head cs,
  λ (b, k, e). elim e [ inl d ↦ rw d (body-alias b k) | inr d ↦ rw d (line_feed-alias b k) ],
)
