-- ===== src/Workers/Answers.antt =====
-- What minifleet/workers.py hands to a worker, and what comes back.
use minifleet.Prelude.{
  is_empty→nil, String, ◌≡◌, refl, ◌⊎◌, inl, inr, ◌↔◌, true, false, Option, none, some, List, [],
  ◌∷◌, map, filter, Has, Has-map, Has-map_inv, All-at, All-filter, Has-filter, Has-filter_of,
  Option-cases, Bool-cases, arith, subst, sym, sort_by, str_le, contains, contains→Has,
  Has→contains,
}
use minifleet.Model.{
  ℤ, pos, eq_ℤ, Value, Fields, end, null, bool, number, text, array, nil, object, get_field,
  Contract, IntentSpec, Task, Design,
}
use minifleet.Model.Codec.{pairs_of}
use minifleet.Workers.{
  Packet, DispatchResult, Endpoint, Dispatcher, packet_dispatcher, command_dispatcher,
  http_dispatcher, available, contract_dict, is_bound, Bench, build_packet,
}
use minifleet.Workers.Runtime.{
  Runtime, Reply, broken, body, ResultFile, no_file, not_json, payload, content_of, str_of,
  target_of, result_from_fields, result_from_payload, list_of, get_or, bare, from_file,
  dispatch_command, chat_worker, write_files, materialise, write_items, from_content, from_reply,
  dispatch_http, dispatch_to,
}

-- a result of that task and worker, without files
abbrev IsBare : Packet → String → String → DispatchResult → Type 0
IsBare p worker status x =
    (x.task_id ≡ p.task.id) × (x.worker ≡ worker) × (x.status ≡ status) × (x.files ≡ [])

-- The files that a reply of the endpoint asks for; `none` is a reply without them.
abbrev items_of : Value → Option (List (String × String))
items_of (object fs) = pairs_of fs
items_of v = none

abbrev files_in : Reply → Option (List (String × String))
files_in (body (object fs)) = items_of (get_or (object end) (get_field "files" fs))
files_in answer = none

abbrev files_asked : (String → Reply) → Reply → Option (List (String × String))
files_asked loads (body v) = elim (content_of v) [
  | none ↦ none
  | some content ↦ files_in (loads content)
]
files_asked loads (broken notes) = none

module _ (r : Runtime) (p : Packet) where
  -- the second world is the first with these files written to the worktree in turn
  abbrev Written : List (String × String) → r.World → r.World → Type 0
  Written [] w after = after ≡ w
  Written ((rel, content) ∷ files) w after =
      Written files (r.write_text (target_of p.worktree rel) content w) after

  -- what a child process and its result file come to
  abbrev IsFromFile : String → ℤ × String → ResultFile → DispatchResult → Type 0
  IsFromFile command (returncode, output) no_file x =
      ((eq_ℤ returncode (pos 0) ≡ true) × IsBare p command "dispatched" x)
      ⊎ ((eq_ℤ returncode (pos 0) ≡ false) × IsBare p command "failed" x)
  IsFromFile command result not_json x = true ≡ false
  IsFromFile command result (payload v) x =
      (fs : Fields) × (v ≡ object fs)
      × (x.task_id ≡ p.task.id)
      × (x.worker ≡ command)
      × (x.status ≡ str_of r.str (get_or (text "submitted") (get_field "status" fs)))
      × (list_of (get_or (array nil) (get_field "files" fs)) ≡ some x.files)
      × (list_of (get_or (array nil) (get_field "commands" fs)) ≡ some x.commands)

  -- what the files that were asked for come to
  abbrev IsFromFiles :
      Endpoint → Option (List (String × String)) → DispatchResult → r.World → r.World → Type 0
  IsFromFiles e (some (f ∷ files)) x w after =
      (x.task_id ≡ p.task.id)
      × (x.status ≡ "submitted")
      × (x.files ≡ map text (sort_by str_le (map (λ g. g.0) (f ∷ files))))
      × Written (f ∷ files) w after
  IsFromFiles e files x w after = IsBare p (chat_worker r e) "failed" x × (after ≡ w)

  -- what an answer to a packet says, and which world it leaves, for each dispatcher
  abbrev pub IsAnswer : Dispatcher → r.World → DispatchResult → r.World → Type 0
  IsAnswer packet_dispatcher w x after = IsBare p "external-runtime" "dispatched" x × (after ≡ w)
  IsAnswer (command_dispatcher command) w x after =
      let (result, last) = r.invoke command p w in
      IsFromFile command result (r.result_file p last) x × (after ≡ last)
  IsAnswer (http_dispatcher e) w x after =
      let (reply, last) = r.chat e p w in
      ((available e ≡ false) × IsBare p "http" "failed" x × (after ≡ w))
      ⊎ ((available e ≡ true) × IsFromFiles e (files_asked r.loads reply) x last after)

  -- a result, if there is one, is such an answer
  abbrev IfAnswer : Dispatcher → r.World → Option (DispatchResult × r.World) → Type 0
  IfAnswer d w none = Unit
  IfAnswer d w (some (x, after)) = IsAnswer d w x after

  abbrev IfFromFile : String → ℤ × String → ResultFile → Option DispatchResult → Type 0
  IfFromFile command result file none = Unit
  IfFromFile command result file (some x) = IsFromFile command result file x

  result_from_fields-IfFromFile :
      (command : String) (result : ℤ × String) (fs : Fields)
      → IfFromFile command result (payload (object fs)) (result_from_fields r p command fs)
  result_from_fields-IfFromFile command result fs =
      elim (Option-cases (list_of (get_or (array nil) (get_field "files" fs)))) [
        | inl e ↦ rw e tt
        | inr (files, e) ↦
            elim (Option-cases (list_of (get_or (array nil) (get_field "commands" fs)))) [
              | inl e2 ↦ rw (e, e2) tt
              | inr (commands, e2) ↦ rw (e, e2) (fs, refl, refl, refl, refl, e, e2)
            ]
      ]

  result_from_payload-IfFromFile :
      (command : String) (result : ℤ × String) (v : Value)
      → IfFromFile command result (payload v) (result_from_payload r p command v)
  unfolding result_from_payload
  result_from_payload-IfFromFile command result (object fs) =
      result_from_fields-IfFromFile command result fs
  result_from_payload-IfFromFile command result null = tt
  result_from_payload-IfFromFile command result (bool b) = tt
  result_from_payload-IfFromFile command result (number x) = tt
  result_from_payload-IfFromFile command result (text x) = tt
  result_from_payload-IfFromFile command result (array vs) = tt

  from_file-IfFromFile :
      (command : String) (result : ℤ × String) (file : ResultFile)
      → IfFromFile command result file (from_file r command p result file)
  from_file-IfFromFile command (returncode, output) no_file =
      elim (Bool-cases (eq_ℤ returncode (pos 0))) [
        | inl e ↦ inl (e, (refl, refl, rw e refl, refl))
        | inr e ↦ inr (e, (refl, refl, rw e refl, refl))
      ]
  from_file-IfFromFile command result not_json = tt
  from_file-IfFromFile command result (payload v) = result_from_payload-IfFromFile command result v

  write_files-Written :
      (files : List (String × String)) (w : r.World)
      → Written files w (write_files r p.worktree files w)
  unfolding write_files
  write_files-Written [] w = refl
  write_files-Written ((rel, content) ∷ files) w =
      write_files-Written files (r.write_text (target_of p.worktree rel) content w)

  dispatch_command-IfAnswer :
      (command : String) (w : r.World)
      → IfAnswer (command_dispatcher command) w (dispatch_command r command p w)
  unfolding dispatch_command
  dispatch_command-IfAnswer command w =
      let (result, last) = r.invoke command p w in
      let file = r.result_file p last in
      let known = from_file-IfFromFile command result file in
      elim (Option-cases (from_file r command p result file)) [
        | inl e ↦ rw e tt
        | inr (x, e) ↦ rw e (rw e at known, refl)
      ]

  module _ (e : Endpoint) where
    -- a result, if there is one, is what the files come to
    abbrev IfFromFiles :
        Option (List (String × String)) → r.World → Option (DispatchResult × r.World) → Type 0
    IfFromFiles files w none = Unit
    IfFromFiles files w (some (x, after)) = IsFromFiles e files x w after

    materialise-IfFromFiles :
        (files : List (String × String)) (w : r.World)
        → IfFromFiles (some files) w (some (materialise r e p files w))
    unfolding materialise sort_by
    materialise-IfFromFiles [] w = ((refl, refl, refl, refl), write_files-Written [] w)
    materialise-IfFromFiles (f ∷ files) w = (refl, refl, refl, write_files-Written (f ∷ files) w)

    write_items-IfFromFiles :
        (v : Value) (w : r.World) → IfFromFiles (items_of v) w (write_items r e p v w)
    write_items-IfFromFiles (object fs) w = elim (Option-cases (pairs_of fs)) [
      | inl h ↦ rw h tt
      | inr (files, h) ↦ rw h (materialise-IfFromFiles files w)
    ]
    write_items-IfFromFiles null w = tt
    write_items-IfFromFiles (bool b) w = tt
    write_items-IfFromFiles (number x) w = tt
    write_items-IfFromFiles (text x) w = tt
    write_items-IfFromFiles (array vs) w = tt

    bare-IsFailed :
        (notes : String)
        → IsBare p (chat_worker r e) "failed" (bare r p "failed" (chat_worker r e) notes)
    bare-IsFailed notes = (refl, refl, refl, refl)

    from_content-IfFromFiles :
        (answer : Reply) (w : r.World)
        → IfFromFiles (files_in answer) w (from_content r e p answer w)
    from_content-IfFromFiles (broken notes) w = (bare-IsFailed notes, refl)
    from_content-IfFromFiles (body (object fs)) w = write_items-IfFromFiles _ w
    from_content-IfFromFiles (body null) w = ((refl, refl, refl, refl), refl)
    from_content-IfFromFiles (body (bool b)) w = ((refl, refl, refl, refl), refl)
    from_content-IfFromFiles (body (number x)) w = ((refl, refl, refl, refl), refl)
    from_content-IfFromFiles (body (text x)) w = ((refl, refl, refl, refl), refl)
    from_content-IfFromFiles (body (array vs)) w = ((refl, refl, refl, refl), refl)

    from_reply-IfFromFiles :
        (reply : Reply) (w : r.World)
        → IfFromFiles (files_asked r.loads reply) w (from_reply r e p reply w)
    from_reply-IfFromFiles (broken notes) w = (bare-IsFailed notes, refl)
    from_reply-IfFromFiles (body v) w = elim (Option-cases (content_of v)) [
      | inl h ↦
          let failed = bare r p "failed" (chat_worker r e) (r.mismatch v) in
          let unasked : files_asked r.loads (body v) ≡ none = rw (files_asked, h) refl in
          let replied : from_reply r e p (body v) w ≡ some (failed, w) = rw (from_reply, h) refl in
          subst (IfFromFiles (files_asked r.loads (body v)) w) (sym replied)
            (subst (λ a. IsFromFiles e a failed w w) (sym unasked) ((refl, refl, refl, refl), refl))
      | inr (content, h) ↦
          let answer = r.loads content in
          let asked : files_asked r.loads (body v) ≡ files_in answer = rw (files_asked, h) refl in
          let replied : from_reply r e p (body v) w ≡ from_content r e p answer w =
            rw (from_reply, h) refl in
          subst (IfFromFiles (files_asked r.loads (body v)) w) (sym replied) (
            subst (λ a. IfFromFiles a w (from_content r e p answer w)) (sym asked)
              (from_content-IfFromFiles answer w))
    ]

    IfFromFiles→IfAnswer :
        (w : r.World) (o : Option (DispatchResult × r.World))
        → available e ≡ true
        → let (reply, last) = r.chat e p w in
          IfFromFiles (files_asked r.loads reply) last o → IfAnswer (http_dispatcher e) w o
    IfFromFiles→IfAnswer w none on h = tt
    IfFromFiles→IfAnswer w (some (x, after)) on h = inr (on, h)

    dispatch_http-IfAnswer : (w : r.World) → IfAnswer (http_dispatcher e) w (dispatch_http r e p w)
    unfolding dispatch_http
    dispatch_http-IfAnswer w =
        let (reply, last) = r.chat e p w in
        elim (Bool-cases (available e)) [
          | inr off ↦ rw off (inl (off, (refl, refl, refl, refl), refl))
          | inl on ↦
              let known =
                IfFromFiles→IfAnswer w (from_reply r e p reply last) on
                  (from_reply-IfFromFiles reply last) in
              rw on known
        ]

  dispatch_to-IfAnswer : (d : Dispatcher) (w : r.World) → IfAnswer d w (dispatch_to r d p w)
  unfolding dispatch_to
  dispatch_to-IfAnswer packet_dispatcher w = ((refl, refl, refl, refl), refl)
  dispatch_to-IfAnswer (command_dispatcher command) w = dispatch_command-IfAnswer command w
  dispatch_to-IfAnswer (http_dispatcher e) w = dispatch_http-IfAnswer e w

-- Whatever the child process, the endpoint and the files do, a result that a dispatcher returns names
-- the task of its packet. The packet dispatcher never claims a submission and changes nothing. With
-- the command dispatcher the world is the one that the command left: without a result file the result
-- is dispatched after exit code 0 and failed after any other, with one it has the status, the files
-- and the commands of the object in it. The http dispatcher submits exactly when the endpoint asks
-- for at least one file: it lists the sorted names, and the files are written to the worktree in turn;
-- otherwise the result has failed, and nothing is written.
pub dispatch_to-IsAnswer :
    (r : Runtime) (d : Dispatcher) (p : Packet) (w after : r.World) (x : DispatchResult)
    → dispatch_to r d p w ≡ some (x, after)
    → IsAnswer r p d w x after
dispatch_to-IsAnswer r d p w after x h = subst (IfAnswer r p d w) h (dispatch_to-IfAnswer r p d w)

-- the task names the contract, or it names none
abbrev pub IsBound : Task → Contract → Type 0
IsBound t c = Has c.id t.contract_ids ⊎ (t.contract_ids ≡ [])

is_bound→IsBound : (t : Task) (c : Contract) → is_bound t c ≡ true → IsBound t c
is_bound→IsBound t c h = elim (Bool-cases (contains t.contract_ids c.id)) [
  | inl e ↦ inl (contains→Has t.contract_ids c.id e)
  | inr e ↦ inr (is_empty→nil t.contract_ids (ground arith))
]

IsBound→is_bound : (t : Task) (c : Contract) → IsBound t c → is_bound t c ≡ true
IsBound→is_bound t c (inl m) = let k = Has→contains t.contract_ids c.id m in ground arith
IsBound→is_bound t c (inr e) = rw e refl

-- The contracts in a packet are the dicts of the design's contracts that the task names, or of all
-- when the task names none.
pub build_packet-contracts_iff :
    (b : Bench) (t : Task) (plan : Design) (spec : IntentSpec) (v : Value)
    → Has v (build_packet b t plan spec).contracts
      ↔ ((c : Contract) × Has c plan.contracts × IsBound t c × (contract_dict c ≡ v))
unfolding build_packet
build_packet-contracts_iff b t plan spec v =
    let bound = filter (is_bound t) plan.contracts in
    (
      λ h.
          let (c, m, e) = Has-map_inv contract_dict v bound h in
          let k =
            All-at (λ x. is_bound t x ≡ true) c bound (All-filter (is_bound t) plan.contracts) m in
          (c, Has-filter (is_bound t) c plan.contracts m, is_bound→IsBound t c k, e),
      λ (c, m, k, e).
          subst (λ x. Has x (map contract_dict bound)) e
            (Has-map contract_dict c bound
              (Has-filter_of (is_bound t) c plan.contracts m (IsBound→is_bound t c k))),
    )
