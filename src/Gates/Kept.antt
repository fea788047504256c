-- ===== src/Gates/Kept.antt =====
-- What the evidence of `GateRunner.run` says, kind by kind.
use minifleet.Prelude.{
  String, ◌≡◌, refl, Bool, true, false, ◌==◌, if◌then◌else◌, Bool-cases, inl, inr, ◌⊎◌, not, ◌&&◌,
  none, some, List, [], ◌∷◌, ◌++◌, is_empty, Has, All, Option, lookup, arith,
}
use minifleet.Model.{Float, Value, eq_value, Gate, Evidence}
use minifleet.Gates.Runner.{
  Machine, Lab, Ran, exited, broke, Json, absent, broken, loaded, Globbed, matched, invalid, Looked,
  looked, unreadable, Walked, lost, stopped, reached, run, judge_cmd, judge_files, files_report,
  judge_pattern, look, judge_json, judge_budget, target, walk, split_dots, compare_by,
  contains_code, begins_bang, lstrip_bang, pass_if,
}

-- The status is "pass" if the test holds, and "fail" otherwise.
abbrev pub IsVerdict : Bool → String → Type 0
IsVerdict b status = ((b ≡ true) × (status ≡ "pass")) ⊎ ((b ≡ false) × (status ≡ "fail"))

pass_if-IsVerdict : (b : Bool) → IsVerdict b (pass_if b)
pass_if-IsVerdict true = inl (refl, refl)
pass_if-IsVerdict false = inr (refl, refl)

-- a command: an error if it could not be run, and else by its exit code
abbrev pub CommandSays : Gate → Ran → String → Type 0
CommandSays g (broke e) status = status ≡ "error"
CommandSays g (exited c out err) status = IsVerdict (contains_code g.expect_exit c) status

-- a JSON file, and what stands at the path
abbrev pub ValueSays : Gate → Walked → String → Type 0
ValueSays g lost status = status ≡ "fail"
ValueSays g (stopped e) status = status ≡ "error"
ValueSays g (reached v) status = IsVerdict (eq_value v g.json_expected) status

abbrev pub JsonSays : (m : Machine) → Gate → Json → String → Type 0
JsonSays m g absent status = status ≡ "fail"
JsonSays m g (broken e) status = status ≡ "error"
JsonSays m g (loaded v) status = ValueSays g (walk m (split_dots g.json_path) v) status

-- a budget, and the metric that was measured
abbrev pub BudgetSays : Gate → Option Float → String → Type 0
BudgetSays g none status = status ≡ "error"
BudgetSays g (some v) status = IsVerdict (compare_by v g.op g.threshold) status

Globbed-cases :
    (x : Globbed) → ((e : String) × (x ≡ invalid e)) ⊎ ((found : List String) × (x ≡ matched found))
Globbed-cases (matched found) = inr (found, refl)
Globbed-cases (invalid e) = inl (e, refl)

Walked-cases :
    (x : Walked) → (x ≡ lost) ⊎ (((e : String) × (x ≡ stopped e)) ⊎ ((v : Value) × (x ≡ reached v)))
Walked-cases lost = inl refl
Walked-cases (stopped e) = inr (inl (e, refl))
Walked-cases (reached v) = inr (inr (v, refl))

module _ (m : Machine) (workspace : String) (w : m.World) where
  -- what a pattern matches
  abbrev pub matches : String → Globbed
  matches p = m.glob w workspace (lstrip_bang p)

  -- A pattern is satisfied when it matches a file, or none behind a bang.
  abbrev pub IsSatisfied : String → Type 0
  IsSatisfied p =
      (found : List String) × (matches p ≡ matched found) × (is_empty found ≡ begins_bang p)

  abbrev pub IsViolated : String → Type 0
  IsViolated p =
      (found : List String) × (matches p ≡ matched found) × (is_empty found ≡ not (begins_bang p))

  -- files: an error if a pattern is invalid, and else a pass if all patterns are satisfied
  abbrev pub FilesSay : List String → String → Type 0
  FilesSay ps status =
      ((status ≡ "error") × ((p : String) × (e : String) × Has p ps × (matches p ≡ invalid e)))
      ⊎ (((status ≡ "pass") × All IsSatisfied ps)
          ⊎ ((status ≡ "fail") × ((p : String) × Has p ps × IsViolated p)))

  -- what the loop over the patterns has found
  abbrev LookSays : List String → Looked → Type 0
  LookSays ps (unreadable e) = (p : String) × (f : String) × Has p ps × (matches p ≡ invalid f)
  LookSays ps (looked lacking forbidden) =
      ((lacking ≡ []) × (forbidden ≡ []) × All IsSatisfied ps)
      ⊎ ((is_empty lacking && is_empty forbidden ≡ false)
          × ((p : String) × Has p ps × IsViolated p))

  judge_pattern-LookSays :
      (p : String) (found ps : List String) (rest : Looked)
      → matches p ≡ matched found
      → LookSays ps rest
      → LookSays (p ∷ ps) (judge_pattern m p found rest)
  judge_pattern-LookSays p found ps (unreadable e) k (q, f, n, h) = (q, f, inr n, h)
  judge_pattern-LookSays p found ps (looked lacking forbidden) k h =
      elim (Bool-cases (begins_bang p)) [
        | inl b ↦ rw b (banged found k b h)
        | inr b ↦ elim (Bool-cases (is_empty found)) [
          | inl n ↦ rw (b, n) (inr (refl, (p, inl refl, (found, k, rw (b, n) refl))))
          | inr n ↦ rw (b, n) (kept (found, k, rw (b, n) refl) h)
        ]
      ]
    where
      kept :
          IsSatisfied p
          → LookSays ps (looked lacking forbidden)
          → LookSays (p ∷ ps) (looked lacking forbidden)
      kept s (inl (a, b, c)) = inl (a, b, (s, c))
      kept s (inr (a, (q, n, v))) = inr (a, (q, inr n, v))

      banged :
          (found : List String)
          → matches p ≡ matched found
          → begins_bang p ≡ true
          → LookSays ps (looked lacking forbidden)
          → LookSays (p ∷ ps) (looked lacking (found ++ forbidden))
      banged [] k b h = kept ([], k, rw b refl) h
      banged (x ∷ xs) k b h = inr (ground arith, (p, inl refl, (x ∷ xs, k, rw b refl)))

  look-LookSays : (ps : List String) → LookSays ps (look m w workspace ps)
  unfolding look
  look-LookSays [] = inl (refl, refl, tt)
  look-LookSays (p ∷ ps) =
      let rest = look-LookSays ps in
      elim (Globbed-cases (matches p)) [
        | inl (e, h) ↦ rw (look, h) (p, e, inl refl, h)
        | inr (found, h) ↦
            let next = judge_pattern-LookSays p found ps (look m w workspace ps) h rest in
            rw (look, h) next
      ]

  module _ (g : Gate) (task_id : String) where
    files_report-FilesSay :
        (l : Looked) → LookSays g.paths l → FilesSay g.paths (files_report m g task_id l).status
    files_report-FilesSay (unreadable e) h = inl (refl, h)
    files_report-FilesSay (looked lacking forbidden) (inl (a, b, c)) =
        rw (a, b) (inr (inl (refl, c)))
    files_report-FilesSay (looked lacking forbidden) (inr (a, v)) = rw a (inr (inr (refl, v)))

    judge_json-JsonSays : (j : Json) → JsonSays m g j (judge_json m g task_id j).status
    unfolding judge_json
    judge_json-JsonSays absent = refl
    judge_json-JsonSays (broken e) = refl
    judge_json-JsonSays (loaded v) = elim (Walked-cases (walk m (split_dots g.json_path) v)) [
      | inl e ↦ rw (judge_json, e) refl
      | inr (inl (t, e)) ↦ rw (judge_json, e) refl
      | inr (inr (found, e)) ↦ rw (judge_json, e) (pass_if-IsVerdict _)
    ]

module _ (m : Machine) (workspace dir : String) (g : Gate) (task_id : String) where
  -- The status is the one that the kind of the gate asks for.
  abbrev pub StatusSays : Lab m → String → Type 0
  StatusSays lab status =
      if g.kind == "cmd"
      then CommandSays g (m.shell lab.world workspace g).0 status
      else if g.kind == "files"
      then FilesSay m workspace lab.world g.paths status
      else if g.kind == "json"
      then JsonSays m g (m.read_json lab.world workspace (target m g)) status
      else if g.kind == "budget"
      then BudgetSays g (lookup g.metric lab.store) status
      else status ≡ "error"

  -- The evidence is of the gate, for the task, with that status.
  abbrev pub IsReport : Lab m → Evidence → Type 0
  IsReport lab e = (e.gate_id ≡ g.id) × (e.task_id ≡ task_id) × StatusSays lab e.status

  judge_cmd-IsReport :
      (r : Ran) (store : _)
      → let e = (judge_cmd m dir g task_id r store).0 in
        (e.gate_id ≡ g.id) × (e.task_id ≡ task_id) × CommandSays g r e.status
  unfolding judge_cmd
  judge_cmd-IsReport (exited c out err) store = (refl, refl, pass_if-IsVerdict _)
  judge_cmd-IsReport (broke e) store = (refl, refl, refl)

  files-named :
      (l : Looked)
      → ((files_report m g task_id l).gate_id ≡ g.id)
        × ((files_report m g task_id l).task_id ≡ task_id)
  files-named (unreadable e) = (refl, refl)
  files-named (looked lacking forbidden) = (refl, refl)

  json-named :
      (j : Json)
      → ((judge_json m g task_id j).gate_id ≡ g.id) × ((judge_json m g task_id j).task_id ≡ task_id)
  unfolding judge_json
  json-named absent = (refl, refl)
  json-named (broken e) = (refl, refl)
  json-named (loaded v) = elim (Walked-cases (walk m (split_dots g.json_path) v)) [
    | inl e ↦ rw (judge_json, e) (refl, refl)
    | inr (inl (t, e)) ↦ rw (judge_json, e) (refl, refl)
    | inr (inr (found, e)) ↦ rw (judge_json, e) (refl, refl)
  ]

  judge_budget-IsReport :
      (v : _)
      → let e = judge_budget m g task_id v in
        (e.gate_id ≡ g.id) × (e.task_id ≡ task_id) × BudgetSays g v e.status
  unfolding judge_budget
  judge_budget-IsReport none = (refl, refl, refl)
  judge_budget-IsReport (some v) = (refl, refl, pass_if-IsVerdict _)

pub run-IsReport :
    (m : Machine) (workspace dir : String) (g : Gate) (task_id : String) (lab : Lab m)
    → IsReport m workspace dir g task_id lab (run m workspace dir g task_id lab).0
unfolding run judge_files
run-IsReport m workspace dir g task_id lab = elim (Bool-cases (g.kind == "cmd")) [
  | inl e ↦ rw e (judge_cmd-IsReport m workspace dir g task_id _ _)
  | inr n ↦ elim (Bool-cases (g.kind == "files")) [
    | inl e ↦
        let l = look m lab.world workspace g.paths in
        let (a, b) = files-named m workspace dir g task_id l in
        rw (n, e)
          (
            a,
            b,
            files_report-FilesSay m workspace lab.world g task_id l
                (look-LookSays m workspace lab.world g.paths),
          )
    | inr n2 ↦ elim (Bool-cases (g.kind == "json")) [
      | inl e ↦
          let j = m.read_json lab.world workspace (target m g) in
          let (a, b) = json-named m workspace dir g task_id j in
          rw (n, n2, e) (a, b, judge_json-JsonSays m workspace lab.world g task_id j)
      | inr n3 ↦ elim (Bool-cases (g.kind == "budget")) [
        | inl e ↦
            rw (n, n2, n3, e)
              (judge_budget-IsReport m workspace dir g task_id (lookup g.metric lab.store))
        | inr n4 ↦ rw (n, n2, n3, n4) (refl, refl, refl)
      ]
    ]
  ]
]
