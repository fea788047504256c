-- ===== src/Compile/Components.antt =====
-- `components_from_deliverables` of minifleet/compile.py.
--
-- `pathlib` and `str.capitalize` are arguments; `none` is the CompileError of an owner that is no
-- component. The notes are left out.
use Prim.Native.Char.{code}
use Prim.Native.String.{[] as no_chars, ◌∷◌ as and_char, ◌++◌ as append}
use minifleet.Prelude.{
  ℕ, suc, String, Bool, false, not, ◌||◌, Option, none, some, List, [], ◌∷◌, ◌++◌, ◌==◌,
  if◌then◌else◌, map, concat_map, filter, any, find, trim, eqb, starts_with, Dict, insert, lookup,
}
use minifleet.Model.{Component}
use minifleet.Scheduler.State.{update_first}

pub record Pathlib : Type 0 where
  pub stem : String → String
  pub name : String → String
  pub parent_name : String → String
  pub capitalize : String → String
  pub decimal : ℕ → String
  pub first_part : String → Option String

abbrev pub strip_prefix : String → String → String
strip_prefix no_chars s = s
strip_prefix (and_char a p) no_chars = no_chars
strip_prefix (and_char a p) (and_char c s) = strip_prefix p s

-- `sep in s`, for a separator that is not empty
unfoldable pub has_text : String → String → Bool
has_text sep no_chars = false
has_text sep (and_char c s) = starts_with (and_char c s) sep || has_text sep s

-- `s.partition(sep)`: what stands before the separator, and behind it
unfoldable pub before_text : String → String → String
before_text sep no_chars = no_chars
before_text sep (and_char c s) =
    let rest = before_text sep s in
    if starts_with (and_char c s) sep then no_chars else and_char c rest

unfoldable pub behind_text : String → String → String
behind_text sep no_chars = no_chars
behind_text sep (and_char c s) =
    let rest = behind_text sep s in
    if starts_with (and_char c s) sep then strip_prefix sep (and_char c s) else rest

-- the pieces of `s.split(",")`
abbrev comma_pieces : String → List String
comma_pieces no_chars = "" ∷ []
comma_pieces (and_char c s) =
    let rest = comma_pieces s in
    if eqb (code c) b','
    then "" ∷ rest
    else elim rest [ [] ↦ and_char c "" ∷ [] | p ∷ ps ↦ and_char c p ∷ ps ]

-- `split_list`, and the list of dependencies: the pieces, stripped, that are not empty
unfoldable pub split_list : String → List String
unfolding trim
split_list s = filter (λ p. not (p == "")) (map trim (comma_pieces s))

pub record Deliverable : Type 0 where
  pub path : String
  pub description : String
  pub depends : List String
  pub owner : String

-- the part of the description before a mark, or all of it
abbrev unmarked : String → String → String
unmarked mark s = if has_text mark s then before_text mark s else s

abbrev marked : String → String → String
marked mark s = if has_text mark s then behind_text mark s else ""

unfoldable pub deliverable : String → Deliverable
unfolding has_text before_text behind_text split_list trim
deliverable item =
    let described = unmarked "| of:" (behind_text " - " item) in
    record {
      path = trim (before_text " - " item);
      description = trim (unmarked "| depends:" described);
      depends = split_list (marked "| depends:" described);
      owner = trim (marked "| of:" (behind_text " - " item));
    }

abbrev pub is_attached : Deliverable → Bool
is_attached d = not (d.owner == "")

abbrev pub with_path : String → Component → Component
with_path path c = record c { owns = c.owns ++ path ∷ [] }

abbrev underscores_spaced : String → String
underscores_spaced no_chars = no_chars
underscores_spaced (and_char c s) =
    let rest = underscores_spaced s in
    if eqb (code c) b'_' then and_char " " rest else and_char c rest

-- `attached`, once the components stand: each path goes to the component with the owner's id
unfoldable pub attach_all : List Deliverable → List Component → Option (List Component)
attach_all [] cs = some cs
attach_all (d ∷ ds) cs = elim (find (λ (c : Component). c.id == d.owner) cs) [
  | none ↦ none
  | some c ↦ attach_all ds (update_first (λ (c : Component). c.id == d.owner) (with_path d.path) cs)
]

-- the components so far, and how often each stem was used
abbrev pub Draft : Type 0
Draft = List Component × Dict ℕ

-- `given or default`
abbrev pub default_text : String → String → String
default_text given default = if given == "" then default else given

module _ (paths : Pathlib) where
  -- `_is_test`
  abbrev pub is_test_path : String → Bool
  is_test_path path = starts_with path "tests/" || starts_with (paths.name path) "test_"

  abbrev pub is_test : Deliverable → Bool
  is_test d = is_test_path d.path

  -- `_component_id`: the id, and the stems used
  abbrev pub component_id : String → Dict ℕ → String × Dict ℕ
  component_id path used =
      let stem = paths.stem path in
      elim (lookup stem used) [
        | none ↦ (stem, insert stem 1 used)
        | some n ↦
            let parent = paths.parent_name path in
            (
              if parent == "" || parent == "."
                  then append stem (append "-" (paths.decimal (suc n)))
                  else append parent (append "-" stem),
              insert stem (suc n) used,
            )
      ]

  abbrev pub new_component : String → String → String → List String → Component
  new_component id path responsibility depends = record {
    id = id;
    name = paths.capitalize (underscores_spaced (paths.stem path));
    responsibility = responsibility;
    owns = path ∷ [];
    depends_on = depends;
    contract_ids = [];
    acceptance_ids = [];
    tests = [];
    done_when = [];
    gate_ids = [];
  }

  abbrev pub add_component : String → String → List String → Draft → Draft
  add_component path responsibility depends (cs, used) =
      let (id, after) = component_id path used in
      (cs ++ new_component id path responsibility depends ∷ [], after)

  -- a component for each module
  unfoldable pub add_modules : List Deliverable → Draft → Draft
  add_modules [] draft = draft
  add_modules (d ∷ ds) draft =
      add_modules ds (
        add_component d.path (default_text d.description (append "deliver " d.path)) d.depends
          draft)

  -- the stem of the module that a test is named for
  abbrev tested_stem : String → String
  tested_stem path =
      let stem = paths.stem path in
      if starts_with stem "test_" then strip_prefix "test_" stem else stem

  -- `_owner_for_test` finds the first such component
  abbrev pub owns_stem : String → Component → Bool
  owns_stem path c = any (λ owned. paths.stem owned == tested_stem path) c.owns

  abbrev pub add_test : Deliverable → Draft → Draft
  add_test d (cs, used) =
      if any (owns_stem d.path) cs
      then (update_first (owns_stem d.path) (with_path d.path) cs, used)
      else add_component d.path (append "deliver " d.path) [] (cs, used)

  unfoldable pub add_tests : List Deliverable → Draft → Draft
  add_tests [] draft = draft
  add_tests (d ∷ ds) draft = add_tests ds (add_test d draft)

  unfoldable pub components_from : List Deliverable → Option (List Component)
  unfolding add_modules add_tests attach_all
  components_from ds =
      let parsed = filter (λ d. not (is_attached d)) ds in
      let modules = filter (λ d. not (is_test d)) parsed in
      let tests = filter is_test parsed in
      let (cs, used) = add_tests tests (add_modules modules ([], [])) in
      attach_all (filter is_attached ds) cs

  -- the components, and the dependencies that are to be checked
  unfoldable pub components_from_deliverables : List String → Option (List Component × List String)
  unfolding deliverable components_from
  components_from_deliverables items =
      let ds = map deliverable items in
      elim (components_from ds) [
        | none ↦ none
        | some cs ↦ some (cs, concat_map (λ d. d.depends) (filter (λ d. not (is_attached d)) ds))
      ]
