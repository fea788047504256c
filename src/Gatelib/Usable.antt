-- ===== src/Gatelib/Usable.antt =====
-- The templates of minifleet/gatelib.py give gates that minifleet/intent.py accepts.
use Prim.Native.String.{[] as no_chars, ◌∷◌ as and_char, ◌++◌ as append}
use Prim.Native.String.append
use minifleet.Prelude.{
  String, ◌≡◌, refl, sym, ◌∙◌, inl, inr, true, false, Option, none, some, List, [], ◌==◌, is_empty,
  lookup, Bool-cases, arith, eq_iff, Dict,
}
use minifleet.Model.{Float, eq_float, eq_value, Value, number, Fields, Gate}
use minifleet.Model.Codec.{gate_of, gate_payload}
use minifleet.Model.Codec.RoundTrips.{texts_of-items}
use minifleet.Intent.{gate_flaws}
use minifleet.Gatelib.{
  Formats, unit_suite, frozen_harness, regression, service_harness, deploy_smoke, budget, probe,
  stdlib_only, stdlib_args, no_network, network_args, deploy_args, files_present,
}

pub append-nonempty : (a b : String) → (a == "") ≡ false → (append a b == "") ≡ false
append-nonempty no_chars b h = absurd (ground (arith, eq_iff "" ""))
append-nonempty (and_char c s) b h = elim (Bool-cases (append (and_char c s) b == "")) [
  | inr e ↦ e
  | inl e ↦
      let whole : append (and_char c s) b ≡ "" =
        ground (arith, eq_iff (append (and_char c s) b) "") in
      let clash : and_char c (append s b) ≡ "" = sym (append.cons c s b) ∙ whole in cc
]

-- A template with its arguments.
pub data Template : Type 0 where
  unit_template regression_template : String → Float → Template
  harness_template : String → List String → Float → Template
  service_template : String → String → Float → Template
  deploy_template : String → String → String → Float → Float → Template
  budget_template : String → String → Float → String → Template
  probe_template : String → String → String → Float → Template
  stdlib_template : List String → Option (List String) → Option (List String) → String → Template
  network_template : List String → Option (List String) → String → Template
  files_template : List String → String → Template

abbrev pub fields_of : Formats → Template → Fields
fields_of fmt (Template.unit_template cmd t) = unit_suite cmd t
fields_of fmt (Template.regression_template cmd t) = regression cmd t
fields_of fmt (Template.harness_template name to t) = frozen_harness name to t
fields_of fmt (Template.service_template dir name t) = service_harness dir name t
fields_of fmt (Template.deploy_template dir cmd path n t) = deploy_smoke fmt dir cmd path n t
fields_of fmt (Template.budget_template metric op x title) = budget fmt metric op x title
fields_of fmt (Template.probe_template metric cmd title t) = probe metric cmd title t
fields_of fmt (Template.stdlib_template roots allow project c) = stdlib_only roots allow project c
fields_of fmt (Template.network_template roots allow c) = no_network roots allow c
fields_of fmt (Template.files_template paths title) = files_present paths title

-- What a template asks of its arguments: a command, a path, or a declared budget.
abbrev pub IsFilled : Dict Value → Template → Type 0
IsFilled budgets (Template.unit_template cmd t) = (cmd == "") ≡ false
IsFilled budgets (Template.regression_template cmd t) = (cmd == "") ≡ false
IsFilled budgets (Template.probe_template metric cmd title t) = (cmd == "") ≡ false
IsFilled budgets (Template.files_template paths title) = is_empty paths ≡ false
IsFilled budgets (Template.budget_template metric op x title) =
    (lookup metric budgets ≡ some (number x)) × (eq_float x x ≡ true)
IsFilled budgets template = Unit

-- the gate that is read has none of the flaws of a gate
abbrev pub IsAccepted : Dict Value → Option Gate → Type 0
IsAccepted budgets none = ⊥
IsAccepted budgets (some g) = gate_flaws budgets g ≡ []

module _ (budgets : Dict Value) (fmt : Formats) where
  -- The dict of every template is read back as a gate, and the gate has none of the flaws that
  -- `validate` looks for in a gate, when the command or the paths given are not empty, and when the
  -- metric of a budget gate is declared with the threshold of the gate, a number that equals itself.
  pub fields_of-IsAccepted :
      (t : Template) → IsFilled budgets t → IsAccepted budgets (gate_of (fields_of fmt t))
  unfolding gate_of gate_payload eq_value
  fields_of-IsAccepted (Template.unit_template cmd t) h = rw h refl
  fields_of-IsAccepted (Template.regression_template cmd t) h = rw h refl
  fields_of-IsAccepted (Template.harness_template name to t) h =
      rw (texts_of-items to, append-nonempty "python3 -m unittest " (append name " -v") refl) refl
  fields_of-IsAccepted (Template.service_template dir name t) h =
      rw
        (append-nonempty "cd " (append dir (append " && python3 -m unittest " (append name " -v")))
          refl)
        refl
  fields_of-IsAccepted (Template.deploy_template dir cmd path n t) h =
      rw
        (append-nonempty "python3 -m minifleet deploy --dir " (deploy_args fmt dir cmd path n) refl)
        refl
  fields_of-IsAccepted (Template.budget_template metric op x title) (h, k) = rw (h, k) refl
  fields_of-IsAccepted (Template.probe_template metric cmd title t) h = rw h refl
  fields_of-IsAccepted (Template.stdlib_template roots allow project c) h =
      rw (append-nonempty "python3 " (stdlib_args roots allow project c) refl) refl
  fields_of-IsAccepted (Template.network_template roots allow c) h =
      rw (append-nonempty "python3 " (network_args roots allow c) refl) refl
  fields_of-IsAccepted (Template.files_template paths title) h = rw (texts_of-items paths, h) refl
