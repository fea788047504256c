-- ===== src/Compile/Gates.antt =====
-- The gates that minifleet/compile.py makes of a document, as the dicts of the gate templates.
--
-- The notes of the compiler are left out; `none` is an exception.
pub mod Usable
use Prim.Native.Char.{code}
use Prim.Native.String.{[] as no_chars, ◌∷◌ as and_char, ◌++◌ as append}
use minifleet.Prelude.{
  String, Bool, true, false, not, ◌&&◌, ◌||◌, Option, none, some, List, [], ◌∷◌, ◌++◌, ◌==◌,
  if◌then◌else◌, map, concat_map, is_empty, eqb, contains, trim, starts_with, Dict, lookup,
}
use minifleet.Model.{pos, Float, Value, text, Fields, end, field, get_field, Component}
use minifleet.Model.Codec.{whole}
use minifleet.Gatelib.{
  Formats, spaced, dashed, default_unit, default_regression, default_timeout, policy_checker,
  unit_suite, frozen_harness, regression, service_harness, deploy_smoke, budget, probe, stdlib_only,
  no_network, files_present,
}
use minifleet.Compile.{bullets, before_char, behind_char}
use minifleet.Compile.Components.{
  Pathlib, is_test_path, split_list, has_text, before_text, behind_text, strip_prefix,
}
use minifleet.Compile.Sections.{Texts, lines_at, value_at, value_or, key_values}

-- `gate[key] = value`
abbrev pub set_field : String → Value → Fields → Fields
set_field key value end = field key value end
set_field key value (field k v fs) =
    if k == key then field k value fs else field k v (set_field key value fs)

-- `", ".join(xs)`
abbrev pub commas : List String → String
commas [] = ""
commas (x ∷ []) = x
commas (x ∷ y ∷ xs) = append x (append ", " (commas (y ∷ xs)))

-- the gate of a probe line, if the line names a metric and has a command
abbrev pub measuring_gate : List String → String → List Fields
measuring_gate [] command = []
measuring_gate (name ∷ names) command =
    if command == ""
    then []
    else probe name command (append "measure " (commas (name ∷ names))) default_timeout ∷ []

abbrev pub probe_line : String → List Fields
probe_line item = measuring_gate (split_list (before_char b':' item)) (trim (behind_char b':' item))

abbrev pub probe_lines : List String → List Fields
probe_lines [] = []
probe_lines (item ∷ items) = probe_line item ++ probe_lines items

unfoldable pub parse_probes : Dict (List String) → List Fields
unfolding bullets split_list before_char behind_char trim dashed
parse_probes sections = probe_lines (bullets (lines_at "probes" sections))

-- `given or default`
abbrev pub list_or : List String → List String → List String
list_or [] default = default
list_or (x ∷ xs) default = x ∷ xs

-- the gate of a module of the frozen harness
unfoldable pub harness_gate : String → List String → String → Fields
unfolding dashed
harness_gate directory attribution module_name =
    let name =
      if starts_with module_name "test_" then module_name else append "test_" module_name in
    let id = append "G-harness-" (dashed (strip_prefix "test_" name)) in
    let title = append "frozen harness: " (append directory (append "/" name)) in
    set_field "title" (text title) (
      set_field "id" (text id)
        (frozen_harness (append "harness." name) attribution default_timeout))

-- what stands behind the last `-`, if there is one
abbrev behind_dash : String → Option String
behind_dash no_chars = none
behind_dash (and_char c s) = elim (behind_dash s) [
  | some t ↦ some t
  | none ↦ if eqb (code c) b'-' then some s else none
]

-- `s.split("-")[-1]`
abbrev pub last_word : String → String
last_word s = elim (behind_dash s) [ none ↦ s | some t ↦ t ]

-- the gates of the frozen harness: those that are declared, or the one of the directory
abbrev pub harness_part : String → List String → List Fields → List Fields
harness_part directory components [] =
    if directory == ""
    then []
    else frozen_harness (append "harness.test_" (last_word directory)) components default_timeout
      ∷ []
harness_part directory components (g ∷ gs) = g ∷ gs

abbrev pub service_part : Dict String → List Fields
service_part service =
    let directory = value_at "dir" service in
    if directory == ""
    then []
    else service_harness directory (value_or "harness.test_accept" "harness" service)
        default_timeout
      ∷ []

abbrev pub budget_part : Formats → Dict (String × Float) → List Fields
budget_part fmt budgets = map (λ (metric, (op, x)). budget fmt metric op x "") budgets

-- a gate for each module, if the directory is named
unfoldable pub declared_harness : String → List String → List String → List Fields
declared_harness directory attribution modules =
    if directory == "" then [] else map (harness_gate directory attribution) modules

-- a gate, if the test holds
abbrev pub gate_if : Bool → Fields → List Fields
gate_if b gate = if b then gate ∷ [] else []

unfoldable pub is_standard : List String → String → Bool
unfolding has_text
is_standard roots joined =
    not (is_empty roots)
    && (has_text "standard library" joined
        || has_text "third-party" joined
        || has_text "third party" joined)

unfoldable pub is_offline : String → Bool
unfolding has_text
is_offline joined = has_text "no network" joined || has_text "offline" joined

module _ (texts : Texts) where
  unfoldable pub parse_harness : Dict (List String) → List String → List Fields
  unfolding key_values split_list harness_gate declared_harness
  parse_harness sections components =
      let values = key_values texts (lines_at "harness" sections) in
      let directory = value_at "dir" values in
      let modules =
        list_or (split_list (value_at "modules" values)) (split_list (value_at "module" values)) in
      let attribution = list_or (split_list (value_at "attributed_to" values)) components in
      declared_harness directory attribution modules

  -- the constraints that are gates
  unfoldable pub policy_gates : List String → List String → List String → List String → List Fields
  unfolding spaced is_standard is_offline
  policy_gates constraints roots network_allow stdlib_allow =
      let joined = texts.lower (spaced constraints) in
      gate_if (is_standard roots joined)
        (stdlib_only roots (some stdlib_allow) (some roots) policy_checker)
      ++ gate_if (is_offline joined) (no_network roots (some network_allow) policy_checker)

  -- `float(deploy.get("seconds", 3))`
  abbrev pub seconds_of : Dict String → Option Float
  seconds_of deploy = elim (lookup "seconds" deploy) [
    | none ↦ some (whole (pos 3))
    | some digits ↦ texts.to_float digits
  ]

  -- the gate of a deployment; the directory is looked up with `deploy["dir"]`
  abbrev pub deploy_part : Formats → Dict String → Option (List Fields)
  deploy_part fmt deploy =
      if value_at "cmd" deploy == "" then some [] else elim (lookup "dir" deploy) [
        | none ↦ none
        | some directory ↦ elim (seconds_of deploy) [
          | none ↦ none
          | some seconds ↦
              let path = value_or "/healthz" "probe" deploy in
              some (
                deploy_smoke fmt directory (value_at "cmd" deploy) path seconds default_timeout
                ∷ [])
        ]
      ]

module _ (paths : Pathlib) where
  abbrev with_root : String → Option String → List String → List String
  with_root path none roots = roots
  with_root path (some root) roots =
      if not (contains roots root) && not (is_test_path paths path)
      then roots ++ root ∷ []
      else roots

  abbrev roots_from : List String → List String → List String
  roots_from [] roots = roots
  roots_from (path ∷ rest) roots = roots_from rest (with_root path (paths.first_part path) roots)

  abbrev pub project_roots : List Component → List String
  project_roots components = roots_from (concat_map (λ c. c.owns) components) []
