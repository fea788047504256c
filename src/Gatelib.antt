-- ===== src/Gatelib.antt =====
-- The gate templates of minifleet/gatelib.py: the dicts of the gates that a compiled intent declares.
--
-- The texts that Python makes of a double are arguments.
pub mod Usable
use Prim.Native.Char.{Char, code}
use Prim.Native.String.{[] as no_chars, ◌∷◌ as and_char, ◌++◌ as append}
use minifleet.Prelude.{
  String, Bool, Option, none, some, List, [], ◌∷◌, ◌==◌, if◌then◌else◌, is_empty, eqb,
}
use minifleet.Model.{pos, Float, text, number, Fields, end, field}
use minifleet.Model.Codec.{texts, whole}

-- `f"{x:g}"` and `f"{x}"`
pub record Formats : Type 0 where
  pub short : Float → String
  pub plain : Float → String

-- `" ".join(xs)`
unfoldable pub spaced : List String → String
spaced [] = ""
spaced (x ∷ []) = x
spaced (x ∷ y ∷ xs) = let rest = spaced (y ∷ xs) in append x (append " " rest)

abbrev dash_for : Char → Char
dash_for c = if eqb (code c) b'_' then "-" else c

-- `s.replace("_", "-")`
unfoldable pub dashed : String → String
dashed no_chars = no_chars
dashed (and_char c s) = and_char (dash_for c) (dashed s)

abbrev pub default_unit : String
default_unit = "python3 -m unittest discover -s tests -v"

abbrev pub default_regression : String
default_regression = "python3 -m unittest discover -s tests"

-- the default of every `timeout`
abbrev pub default_timeout : Float
default_timeout = whole (pos 900)

abbrev pub policy_checker : String
policy_checker = "tools/minifleet_checks.py"

-- a gate that runs a command
abbrev command_gate : String → String → String → String → Fields → Fields
command_gate id title scope cmd rest = field "id" (text id) (
    field "title" (text title)
      (field "kind" (text "cmd") (field "scope" (text scope) (field "cmd" (text cmd) rest))))

abbrev timed : Float → Fields
timed timeout = field "timeout" (number timeout) end

abbrev pub unit_suite : String → Float → Fields
unit_suite cmd timeout =
    command_gate "G-unit" "worker's own tests plus the baseline suite" "task" cmd (timed timeout)

abbrev pub frozen_harness : String → List String → Float → Fields
frozen_harness module_name attributed_to timeout =
    command_gate "G-harness" (append "frozen acceptance harness (" (append module_name ")"))
      "system" (append "python3 -m unittest " (append module_name " -v"))
      (field "timeout" (number timeout) (field "attributed_to" (texts attributed_to) end))

abbrev pub regression : String → Float → Fields
regression cmd timeout =
    command_gate "G-regression" "regression suite on the integrated tree" "system" cmd
      (timed timeout)

abbrev pub service_harness : String → String → Float → Fields
service_harness directory module_name timeout =
    command_gate "G-service" (append directory " still passes its own acceptance harness") "system"
      (append "cd "
        (append directory (append " && python3 -m unittest " (append module_name " -v"))))
      (timed timeout)

-- the template or the title that is given
abbrev titled : String → String → String
titled given default = if given == "" then default else given

abbrev pub probe : String → String → String → Float → Fields
probe metric command title timeout =
    command_gate (append "G-probe-" (dashed metric)) (titled title (append "measure " metric))
      "system" command (timed timeout)

abbrev flagged : String → List String → String
flagged flag xs = if is_empty xs then "" else append flag (spaced xs)

-- `allow or []`, `project or []`
abbrev listed : Option (List String) → List String
listed none = []
listed (some xs) = xs

-- the arguments of the checker
abbrev pub stdlib_args : List String → Option (List String) → Option (List String) → String → String
stdlib_args roots allow project checker =
    let extra =
      append (flagged " --allow " (listed allow)) (flagged " --project " (listed project)) in
    append checker (append " stdlib-only --roots " (append (spaced roots) extra))

abbrev pub stdlib_only : List String → Option (List String) → Option (List String) → String → Fields
stdlib_only roots allow project checker =
    command_gate "G-stdlib-only" "no third-party imports" "system"
      (append "python3 " (stdlib_args roots allow project checker)) end

abbrev pub network_args : List String → Option (List String) → String → String
network_args roots allow checker =
    append checker
      (append " no-network --roots " (append (spaced roots) (flagged " --allow " (listed allow))))

abbrev pub no_network : List String → Option (List String) → String → Fields
no_network roots allow checker =
    command_gate "G-no-network" "library code does not reach the network" "system"
      (append "python3 " (network_args roots allow checker)) end

abbrev pub files_present : List String → String → Fields
files_present paths title = field "id" (text "G-layout") (
    field "title" (text title) (
      field "kind" (text "files")
        (field "scope" (text "system") (field "paths" (texts paths) end))))

module _ (fmt : Formats) where
  abbrev pub deploy_args : String → String → String → Float → String
  deploy_args directory command path seconds = append directory (
      append " --cmd \"" (
        append command (
          append "\" --probe "
            (append path (append " --seconds " (append (fmt.plain seconds) " --emit-metrics"))))))

  abbrev pub deploy_smoke : String → String → String → Float → Float → Fields
  deploy_smoke directory command path seconds timeout =
      command_gate "G-deploy" (append "deploy and observe " directory) "system"
        (append "python3 -m minifleet deploy --dir " (deploy_args directory command path seconds))
        (timed timeout)

  abbrev pub budget : String → String → Float → String → Fields
  budget metric op threshold title = field "id" (text (append "G-budget-" (dashed metric))) (
      field "title"
        (text (
          titled title (append metric (append " " (append op (append " " (fmt.short threshold)))))))
        (field "kind" (text "budget") (
          field "scope" (text "system") (
            field "metric" (text metric)
              (field "op" (text op) (field "threshold" (number threshold) end))))))
