-- ===== src/Workers/Runtime.antt =====
-- The workers of minifleet/workers.py: what the dispatchers do with a packet.
use Prim.Native.String.{[] as no_chars, ◌∷◌ as and_char, ◌++◌ as append}
use minifleet.Prelude.{
  ℕ, String, Option, none, some, List, [], ◌∷◌, if◌then◌else◌, map, is_empty, length, sort_by,
  str_le, starts_with,
}
use minifleet.Model.{
  ℤ, pos, eq_ℤ, Value, text, array, object, Items, nil, cons, Fields, end, field, get_field,
  get_item,
}
use minifleet.Model.Codec.{◌>>=◌, pairs_of}
use minifleet.Workers.{
  Packet, DispatchResult, Endpoint, Dispatcher, packet_dispatcher, command_dispatcher,
  http_dispatcher, available,
}

-- What the chat endpoint gives: an exception, as the text of the notes, or the decoded body.
pub data Reply : Type 0 where
  broken : String → Reply
  body : Value → Reply

-- A result file: there is none, it is not JSON, or it holds a value.
pub data ResultFile : Type 0 where
  no_file not_json : ResultFile
  payload : Value → ResultFile

pub record Runtime : Type 1 where
  pub World : Type 0
  pub packet_path : Packet → String
  -- `<cmd> <packet> <result>`: the exit code, and the last 2000 characters of its output
  pub invoke : String → Packet → World → (ℤ × String) × World
  pub result_file : Packet → World → ResultFile
  pub chat : Endpoint → Packet → World → Reply × World
  -- `json.loads` of the content, with the exception's text for the notes
  pub loads : String → Reply
  -- the text for the notes when the body is not shaped as expected
  pub mismatch : Value → String
  pub write_text : String → String → World → World
  pub decimal : ℕ → String
  -- `str` of what is no text
  pub str : Value → String

-- `str(value)`
abbrev pub str_of : (Value → String) → Value → String
str_of str (text s) = s
str_of str v = str v

abbrev pub character_items : String → List Value
character_items no_chars = []
character_items (and_char c s) = text (and_char c no_chars) ∷ character_items s

abbrev pub item_values : Items → List Value
item_values nil = []
item_values (cons v vs) = v ∷ item_values vs

abbrev pub field_keys : Fields → List Value
field_keys end = []
field_keys (field k v fs) = text k ∷ field_keys fs

-- `list(value)`
abbrev pub list_of : Value → Option (List Value)
list_of (array vs) = some (item_values vs)
list_of (text s) = some (character_items s)
list_of (object fs) = some (field_keys fs)
list_of v = none

-- `payload.get(key, default)`
abbrev pub get_or : Value → Option Value → Value
get_or d none = d
get_or d (some v) = v

-- `payload["choices"][0]["message"]["content"]`
abbrev pub in_object : String → Value → Option Value
in_object k (object fs) = get_field k fs
in_object k v = none

abbrev pub first_item : Value → Option Value
first_item (array vs) = get_item 0 vs
first_item v = none

abbrev pub as_string : Value → Option String
as_string (text s) = some s
as_string v = none

unfoldable pub content_of : Value → Option String
content_of v = do
  choices ← in_object "choices" v
  choice ← first_item choices
  message ← in_object "message" choice
  content ← in_object "content" message
  as_string content

-- `worktree / rel`
abbrev pub target_of : String → String → String
target_of worktree rel = if starts_with rel "/" then rel else append worktree (append "/" rel)

module _ (r : Runtime) where
  unfoldable pub write_files : String → List (String × String) → r.World → r.World
  write_files worktree [] w = w
  write_files worktree ((rel, content) ∷ files) w =
      write_files worktree files (r.write_text (target_of worktree rel) content w)

  -- `_result_from_payload`
  abbrev pub result_from_fields : Packet → String → Fields → Option DispatchResult
  result_from_fields p worker fs = do
    files ← list_of (get_or (array nil) (get_field "files" fs))
    commands ← list_of (get_or (array nil) (get_field "commands" fs))
    some (record {
      task_id = p.task.id;
      status = str_of r.str (get_or (text "submitted") (get_field "status" fs));
      worker = worker;
      files = files;
      notes = str_of r.str (get_or (text "") (get_field "notes" fs));
      commands = commands;
      raw = object fs;
    })

  unfoldable pub result_from_payload : Packet → String → Value → Option DispatchResult
  result_from_payload p worker (object fs) = result_from_fields p worker fs
  result_from_payload p worker v = none

  -- a result without files and commands
  abbrev pub bare : Packet → String → String → String → DispatchResult
  bare p status worker notes = record {
    task_id = p.task.id;
    status = status;
    worker = worker;
    files = [];
    notes = notes;
    commands = [];
    raw = object end;
  }

  abbrev pub dispatch_packet : Packet → DispatchResult
  dispatch_packet p = bare p "dispatched" "external-runtime" (
      append "packet written to " (append (r.packet_path p) "; awaiting an external agent runtime"))

  abbrev pub from_file : String → Packet → ℤ × String → ResultFile → Option DispatchResult
  from_file command p (returncode, output) no_file =
      some (bare p (if eq_ℤ returncode (pos 0) then "dispatched" else "failed") command output)
  from_file command p result not_json = none
  from_file command p result (payload v) = result_from_payload p command v

  abbrev pub at_world : Option DispatchResult → r.World → Option (DispatchResult × r.World)
  at_world none w = none
  at_world (some d) w = some (d, w)

  unfoldable pub dispatch_command : String → Packet → r.World → Option (DispatchResult × r.World)
  unfolding result_from_payload
  dispatch_command command p w =
      let (result, after) = r.invoke command p w in
      at_world (from_file command p result (r.result_file p after)) after

  abbrev pub chat_worker : Endpoint → String
  chat_worker e = append "http:" e.model

  -- the files are written, one after the other
  unfoldable pub materialise :
      Endpoint → Packet → List (String × String) → r.World → DispatchResult × r.World
  unfolding write_files
  materialise e p files w = (
    record {
      task_id = p.task.id;
      status = if is_empty files then "failed" else "submitted";
      worker = chat_worker e;
      files = map text (sort_by str_le (map (λ f. f.0) files));
      notes = append "materialised " (append (r.decimal (length files)) " files");
      commands = [];
      raw = object end;
    },
    write_files p.worktree files w,
  )

  -- `files.items()`, where the values have to be texts
  abbrev pub write_items : Endpoint → Packet → Value → r.World → Option (DispatchResult × r.World)
  write_items e p (object fs) w = do files ← pairs_of fs; some (materialise e p files w)
  write_items e p v w = none

  -- the rest of the `try`: `json.loads(content).get("files", {})`
  abbrev pub from_content : Endpoint → Packet → Reply → r.World → Option (DispatchResult × r.World)
  from_content e p (broken notes) w = some (bare p "failed" (chat_worker e) notes, w)
  from_content e p (body (object fs)) w =
      write_items e p (get_or (object end) (get_field "files" fs)) w
  from_content e p (body v) w = some (bare p "failed" (chat_worker e) (r.mismatch v), w)

  abbrev pub from_reply : Endpoint → Packet → Reply → r.World → Option (DispatchResult × r.World)
  from_reply e p (broken notes) w = some (bare p "failed" (chat_worker e) notes, w)
  from_reply e p (body v) w = elim (content_of v) [
    | none ↦ some (bare p "failed" (chat_worker e) (r.mismatch v), w)
    | some content ↦ from_content e p (r.loads content) w
  ]

  unfoldable pub dispatch_http : Endpoint → Packet → r.World → Option (DispatchResult × r.World)
  unfolding materialise content_of pairs_of
  dispatch_http e p w =
      if available e
      then (let (reply, after) = r.chat e p w in from_reply e p reply after)
      else some (
        bare p "failed" "http" "MINIFLEET_LLM_BASE_URL / MINIFLEET_LLM_API_KEY are not configured",
        w,
      )

  unfoldable pub dispatch_to : Dispatcher → Packet → r.World → Option (DispatchResult × r.World)
  unfolding dispatch_command dispatch_http
  dispatch_to packet_dispatcher p w = some (dispatch_packet p, w)
  dispatch_to (command_dispatcher command) p w = dispatch_command command p w
  dispatch_to (http_dispatcher e) p w = dispatch_http e p w
