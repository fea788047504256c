-- ===== src/Compile/Gates/Usable.antt =====
-- The gates that minifleet/compile.py makes of a document: `Gate.from_dict` reads them, and
-- `validate` finds no flaw in them.
use Prim.Native.String.{◌++◌ as append}
use minifleet.Prelude.{
  String, ◌≡◌, refl, inl, inr, Bool, true, some, List, [], ◌∷◌, ◌++◌, ◌==◌, map, if◌then◌else◌,
  trim, starts_with, All, All-append, Has, Dict, lookup, lookup_of_Has, Bool-cases, Option-cases,
  IfSome, if-both, arith,
}
use minifleet.Model.{Float, eq_float, Value, number, Fields}
use minifleet.Model.Codec.{gate_of, gate_payload}
use minifleet.Model.Codec.RoundTrips.{texts_of-items}
use minifleet.Gatelib.{Formats, default_timeout, policy_checker, spaced, stdlib_only, no_network}
use minifleet.Gatelib.Usable.{
  Template, fields_of, IsFilled, IsAccepted, fields_of-IsAccepted, append-nonempty,
}
use minifleet.Compile.{bullets, before_char, behind_char}
use minifleet.Compile.Budgets.Numbers.{AreExact}
use minifleet.Compile.Components.{split_list}
use minifleet.Compile.Document.{value_of}
use minifleet.Compile.Gates.{
  is_standard, is_offline, probe_line, commas, gate_if, declared_harness, measuring_gate,
  probe_lines, parse_probes, harness_gate, parse_harness, policy_gates, harness_part, last_word,
  service_part, budget_part, deploy_part, seconds_of,
}
use minifleet.Compile.Sections.{Texts, lines_at, value_at, value_or}

module _ (budgets : Dict Value) where
  -- The gates are read, and have no flaws.
  abbrev pub AreUsable : List Fields → Type 0
  AreUsable gates = All (λ gate. IsAccepted budgets (gate_of gate)) gates

  pub append-AreUsable : (gs hs : List Fields) → AreUsable gs → AreUsable hs → AreUsable (gs ++ hs)
  append-AreUsable gs hs h k = All-append (λ gate. IsAccepted budgets (gate_of gate)) gs hs h k

  harness_gate-IsAccepted :
      (directory : String) (attribution : List String) (module_name : String)
      → IsAccepted budgets (gate_of (harness_gate directory attribution module_name))
  unfolding harness_gate gate_of gate_payload
  harness_gate-IsAccepted directory attribution module_name =
      let name =
        if starts_with module_name "test_" then module_name else append "test_" module_name in
      let runs =
        append-nonempty "python3 -m unittest " (append (append "harness." name) " -v") refl in
      rw (texts_of-items attribution, runs) refl

  map-AreUsable :
      (directory : String) (attribution modules : List String)
      → AreUsable (map (harness_gate directory attribution) modules)
  map-AreUsable directory attribution [] = tt
  map-AreUsable directory attribution (m ∷ ms) =
      (harness_gate-IsAccepted directory attribution m, map-AreUsable directory attribution ms)

  declared_harness-AreUsable :
      (directory : String) (attribution modules : List String)
      → AreUsable (declared_harness directory attribution modules)
  unfolding declared_harness
  declared_harness-AreUsable directory attribution modules =
      if-both AreUsable (directory == "") tt (map-AreUsable directory attribution modules)

  module _ (fmt : Formats) where
    pub one-AreUsable : (t : Template) → IsFilled budgets t → AreUsable (fields_of fmt t ∷ [])
    one-AreUsable t h = (fields_of-IsAccepted budgets fmt t h, tt)

    gate_if-AreUsable :
        (b : Bool) (t : Template) → IsFilled budgets t → AreUsable (gate_if b (fields_of fmt t))
    gate_if-AreUsable b t h = if-both AreUsable b (one-AreUsable t h) tt

    measuring_gate-AreUsable :
        (names : List String) (command : String) → AreUsable (measuring_gate names command)
    measuring_gate-AreUsable [] command = tt
    measuring_gate-AreUsable (name ∷ names) command = elim (Bool-cases (command == "")) [
      | inl e ↦ rw e tt
      | inr e ↦ rw e (
          one-AreUsable
            (Template.probe_template name command (append "measure " (commas (name ∷ names)))
              default_timeout)
            e)
    ]

    probe_line-AreUsable : (item : String) → AreUsable (probe_line item)
    probe_line-AreUsable item =
        measuring_gate-AreUsable (split_list (before_char b':' item)) (trim (behind_char b':' item))

    probe_lines-AreUsable : (items : List String) → AreUsable (probe_lines items)
    probe_lines-AreUsable [] = tt
    probe_lines-AreUsable (item ∷ items) =
        append-AreUsable (probe_line item) (probe_lines items) (probe_line-AreUsable item)
          (probe_lines-AreUsable items)

    pub parse_probes-AreUsable : (sections : Dict (List String)) → AreUsable (parse_probes sections)
    unfolding parse_probes
    parse_probes-AreUsable sections = probe_lines-AreUsable (bullets (lines_at "probes" sections))

    pub parse_harness-AreUsable :
        (texts : Texts) (sections : Dict (List String)) (components : List String)
        → AreUsable (parse_harness texts sections components)
    unfolding parse_harness
    parse_harness-AreUsable texts sections components = declared_harness-AreUsable _ _ _

    pub policy_gates-AreUsable :
        (texts : Texts) (constraints roots network_allow stdlib_allow : List String)
        → AreUsable (policy_gates texts constraints roots network_allow stdlib_allow)
    unfolding policy_gates
    policy_gates-AreUsable texts constraints roots network_allow stdlib_allow =
        let joined = texts.lower (spaced constraints) in
        append-AreUsable
          (gate_if (is_standard roots joined)
            (stdlib_only roots (some stdlib_allow) (some roots) policy_checker))
          (gate_if (is_offline joined) (no_network roots (some network_allow) policy_checker))
          (gate_if-AreUsable (is_standard roots joined)
            (Template.stdlib_template roots (some stdlib_allow) (some roots) policy_checker) tt)
          (gate_if-AreUsable (is_offline joined)
            (Template.network_template roots (some network_allow) policy_checker) tt)

    pub harness_part-AreUsable :
        (directory : String) (components : List String) (gates : List Fields)
        → AreUsable gates
        → AreUsable (harness_part directory components gates)
    harness_part-AreUsable directory components [] h = if-both AreUsable (directory == "") tt (
        one-AreUsable
          (Template.harness_template (append "harness.test_" (last_word directory)) components
            default_timeout)
          tt)
    harness_part-AreUsable directory components (g ∷ gs) h = h

    pub service_part-AreUsable : (service : Dict String) → AreUsable (service_part service)
    service_part-AreUsable service = if-both AreUsable (value_at "dir" service == "") tt (
        one-AreUsable
          (Template.service_template (value_at "dir" service)
            (value_or "harness.test_accept" "harness" service) default_timeout)
          tt)

    pub deploy_part-IfUsable :
        (texts : Texts) (deploy : Dict String) → IfSome AreUsable (deploy_part texts fmt deploy)
    deploy_part-IfUsable texts deploy = elim (Bool-cases (value_at "cmd" deploy == "")) [
      | inl e ↦ rw e tt
      | inr e ↦ elim (Option-cases (lookup "dir" deploy)) [
        | inl n ↦ rw (e, n) tt
        | inr (directory, n) ↦ elim (Option-cases (seconds_of texts deploy)) [
          | inl s ↦ rw (e, n, s) tt
          | inr (seconds, s) ↦
              rw (e, n, s)
                (one-AreUsable
                  (Template.deploy_template directory (value_at "cmd" deploy)
                    (value_or "/healthz" "probe" deploy) seconds default_timeout)
                  tt)
        ]
      ]
    ]

-- The budgets of the intent have the thresholds of the budget gates.
module _ (fmt : Formats) (d : Dict (String × Float)) where
  lookup-value_of :
      (k op : String) (x : Float)
      → lookup k d ≡ some (op, x)
      → lookup k (map value_of d) ≡ some (number x)
  lookup-value_of k op x h = all_keys d h
    where
      all_keys :
          (b : Dict (String × Float))
          → lookup k b ≡ some (op, x)
          → lookup k (map value_of b) ≡ some (number x)
      all_keys [] e = absurd (ground (arith, e))
      all_keys ((j, (p, y)) ∷ b) e = ground (arith, all_keys b)

  pub budget_part-AreUsable : AreExact d → AreUsable (map value_of d) (budget_part fmt d)
  budget_part-AreUsable (u, exact) = each d exact (λ e m. m)
    where
      each :
          (b : Dict (String × Float))
          → All (λ (k, (op, x)). eq_float x x ≡ true) b
          → ((e : String × (String × Float)) → Has e b → Has e d)
          → AreUsable (map value_of d) (budget_part fmt b)
      each [] h inside = tt
      each ((k, (op, x)) ∷ b) (h, hs) inside =
          let found = lookup_of_Has k (op, x) d u (inside (k, (op, x)) (inl refl)) in
          (
            fields_of-IsAccepted (map value_of d) fmt (Template.budget_template k op x "")
                (lookup-value_of k op x found, h),
            each b hs (λ e m. inside e (inr m)),
          )
