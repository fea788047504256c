-- ===== src/Workers.antt =====
-- minifleet/workers.py: the packet of a task, the dispatchers, and what a worker's turn gives.
--
-- The JSON files of packets and their Markdown are text only. The child process, the chat endpoint
-- and the files are the interface `Runtime`; `none` is an exception that no `try` catches. The time
-- stamps of a result are left out.
pub mod Runtime
pub mod Answers
use Prim.Native.Char.{code}
use Prim.Native.String.{[] as no_chars, ◌∷◌ as and_char, ◌++◌ as append}
use minifleet.Prelude.{
  ℕ, zero, suc, String, Bool, not, ◌&&◌, ◌||◌, Option, none, some, List, [], ◌∷◌, ◌==◌,
  if◌then◌else◌, map, filter, contains, is_empty, length, eqb, sort_by, str_le, starts_with,
}
use minifleet.Model.{
  ℤ, pos, eq_ℤ, Value, text, null, bool, number, array, object, Items, nil, cons, Fields, end,
  field, get_field, get_item, AcceptanceCriterion, Contract, IntentSpec, Task, Design,
}
use minifleet.Model.Codec.{◌>>=◌, texts, text_dict, pairs_of}
use minifleet.Scheduler.Scope.{rstrip_slash}

pub record Packet : Type 0 where
  pub run_id : String
  pub task : Task
  pub contracts : List Value
  pub acceptance : List Value
  pub budgets : List (String × Value)
  pub product_dir : String
  pub worktree : String
  pub base_commit : String
  pub integration_branch : String

abbrev pub contract_dict : Contract → Value
contract_dict c = object (
    field "id" (text c.id) (
      field "path" (text c.path) (
        field "summary" (text c.summary)
          (field "exports" (text_dict c.exports) (field "frozen" (bool c.frozen) end)))))

abbrev pub criterion_dict : AcceptanceCriterion → Value
criterion_dict c = object (
    field "id" (text c.id) (
      field "statement" (text c.statement)
        (field "kind" (text c.kind) (field "gates" (texts c.gates) end))))

-- the contracts that a task names, or all when it names none
abbrev pub is_bound : Task → Contract → Bool
is_bound t c = contains t.contract_ids c.id || is_empty t.contract_ids

-- where a packet is built: the run, the product, the branch and the commit it starts from
pub record Bench : Type 0 where
  pub run_id : String
  pub product_dir : String
  pub worktree : String
  pub integration_branch : String
  pub base_commit : String

unfoldable pub build_packet : Bench → Task → Design → IntentSpec → Packet
build_packet b t plan spec = record {
  run_id = b.run_id;
  task = t;
  contracts = map contract_dict (filter (is_bound t) plan.contracts);
  acceptance = map criterion_dict spec.acceptance;
  budgets = spec.budgets;
  product_dir = b.product_dir;
  worktree = b.worktree;
  base_commit = b.base_commit;
  integration_branch = b.integration_branch;
}

pub record DispatchResult : Type 0 where
  pub task_id : String
  pub status : String
  pub worker : String
  pub files : List Value
  pub notes : String
  pub commands : List Value
  pub raw : Value

pub record Endpoint : Type 0 where
  pub base_url : String
  pub api_key : String
  pub model : String

pub data Dispatcher : Type 0 where
  packet_dispatcher : Dispatcher
  command_dispatcher : String → Dispatcher
  http_dispatcher : Endpoint → Dispatcher

-- the class attribute `name`
abbrev pub name_of : Dispatcher → String
name_of packet_dispatcher = "packet"
name_of (command_dispatcher command) = "command"
name_of (http_dispatcher e) = "http"

-- `os.environ.get(name, default)`
abbrev pub or_default : String → Option String → String
or_default d none = d
or_default d (some x) = x

abbrev pub new_http : (String → Option String) → Endpoint
new_http environ = record {
  base_url = rstrip_slash (or_default "" (environ "MINIFLEET_LLM_BASE_URL"));
  api_key = or_default "" (environ "MINIFLEET_LLM_API_KEY");
  model = or_default "gpt-4o-mini" (environ "MINIFLEET_LLM_MODEL");
}

abbrev pub available : Endpoint → Bool
available e = not (e.base_url == "") && not (e.api_key == "")

-- what stands behind the first colon
unfoldable pub after_colon : String → String
after_colon no_chars = no_chars
after_colon (and_char c s) = let rest = after_colon s in if eqb (code c) b':' then s else rest

-- `none` is the ValueError of an unknown name.
unfoldable pub make_dispatcher : (String → Option String) → String → Option Dispatcher
unfolding after_colon rstrip_slash
make_dispatcher environ spec =
    if spec == "packet" || spec == "manual"
    then some packet_dispatcher
    else if spec == "http"
    then some (http_dispatcher (new_http environ))
    else if starts_with spec "command:"
    then some (command_dispatcher (after_colon spec))
    else none
