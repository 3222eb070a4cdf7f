-- ===== src/Gui/KeyPanel.antt =====
-- cmd/sercon-gui/keys_windows.go and keys_job_logic.go: the panel of SSH keys and its workers. The controls are left
-- out but for the input text; what the file and the elevation prompt answer is an input.
use sercon.Prelude.{
  ℕ, zero, suc, ◌+◌, ◌%◌, ◌^◌, Bool, true, false, ◌&&◌, ◌||◌, not, Option, none, some, List, [],
  ◌∷◌, ◌++◌, ltb, ◌==◌, if◌then◌else◌, maybe, length, Bytes, str_eq, is_empty,
}
use sercon.Prelude.Strings.{split_on, trim_space}
use sercon.Auth.Keys.{Codec, Key, key, refused, parse_key, sorted_by_comment}
use sercon.Auth.File.{replace_crlf, parse_keys, add_all, remove}
pub mod Jobs

-- `keyJobState`
pub record KeyJobState : Type 0 where
  pub generation : ℕ
  pub busy : Bool

-- `begin`
unfoldable pub begin : KeyJobState → KeyJobState
begin s = record { generation = (s.generation + 1) % 2 ^ 64; busy = true }

-- `accepts`
unfoldable pub accepts : KeyJobState → ℕ → Bool
accepts s generation = s.busy && generation == s.generation

-- What a worker was started with.
pub data Work : Type 0 where
  reload : ℕ → Bool → Work
  add : ℕ → Bytes → List Key → Work
  remove_key : ℕ → Bytes → Key → Work

abbrev pub generation_of : Work → ℕ
generation_of (reload g may) = g
generation_of (add g raw candidates) = g
generation_of (remove_key g raw victim) = g

-- What a worker found: an error, or the file's text and keys, and how many keys it added.
pub data Found : Type 0 where
  key_error : Found
  found : Bytes → List Key → ℕ → Found

pub record KeyCompletion : Type 0 where
  pub generation : ℕ
  pub kind_add : Bool
  pub result : Found

-- `keyPanel`
pub record KeyPanel : Type 0 where
  pub path : Bytes
  pub keys : List Key
  pub raw : Bytes
  pub job : KeyJobState
  pub input : Bytes
  pub destroyed : Bool
  pub completions : List KeyCompletion

-- The panel, the workers that run, and the content of the key file.
pub record World : Type 0 where
  pub panel : KeyPanel
  pub running : List Work
  pub file : Option Bytes

-- What reading the file gives, whether it needs elevation, what the elevated reading gives, whether a write replaces
-- the file, and whether what follows it, `TightenACL` or the script's report, works.
pub data FileRead : Type 0 where
  contents : Bytes → FileRead
  missing unreadable : FileRead

pub record Outside : Type 0 where
  pub read : FileRead
  pub needs_elevation : Bool
  pub elevated : Option Bytes
  pub writes : Bool
  pub settles : Bool

-- A worker starts.
abbrev pub start : (ℕ → Work) → World → World
start work w =
    let job = begin w.panel.job in
    record w { panel = record w.panel { job = job }; running = work job.generation ∷ w.running }

-- `keyPanelStartReload`
unfoldable pub start_reload : Bool → World → World
start_reload may w =
    if w.panel.job.busy || w.panel.destroyed then w else start (λ g. reload g may) w

-- `keyPanelStartRemove` with the index that is selected, if one is, and the answer to the question.
unfoldable pub key_at : ℕ → List Key → Option Key
key_at n [] = none
key_at zero (k ∷ ks) = some k
key_at (suc n) (k ∷ ks) = key_at n ks

unfoldable pub start_remove : ℕ → Bool → World → World
unfolding maybe
start_remove selected agreed w =
    maybe w (λ victim. if not agreed then w else start (λ g. remove_key g w.panel.raw victim) w)
      (key_at selected w.panel.keys)

-- `keySetRows`, and the input that is cleared behind keys that were added
unfoldable pub show_found : Bool → Found → KeyPanel → KeyPanel
show_found kind_add key_error p = p
show_found kind_add (found raw keys added) p = record p {
  keys = sorted_by_comment keys;
  raw = raw;
  input = if kind_add && ltb 0 added then [] else p.input;
}

-- `keyPanelApplyCompletion`
unfoldable pub apply_completion : KeyPanel → KeyCompletion → KeyPanel
apply_completion p c =
    if p.destroyed || not (accepts p.job c.generation)
    then p
    else show_found c.kind_add c.result (record p { job = record p.job { busy = false } })

abbrev pub apply_all : KeyPanel → List KeyCompletion → KeyPanel
apply_all p [] = p
apply_all p (c ∷ cs) = apply_all (apply_completion p c) cs

-- `keyPanelDrainCompletions`
unfoldable pub drain_completions : KeyPanel → KeyPanel
drain_completions p =
    if p.destroyed then p else apply_all (record p { completions = [] }) p.completions

-- What happens: a command, text typed, the end of a worker, the timer, the end of the window.
pub data Event : Type 0 where
  press_reload press_add tick destroy : Event
  press_remove : ℕ → Bool → Event
  typed : Bytes → Event
  worker_ends : Outside → Event

-- `keyPanelCommand`
unfoldable pub command : (World → World) → World → World
command act w = if w.panel.destroyed || w.panel.job.busy then w else act w

module _ (cd : Codec) where
  -- `parseKeyLines`: the keys; the others are rejected.
  unfoldable pub keys_of_lines : List Bytes → List Key
  keys_of_lines [] = []
  keys_of_lines (l ∷ ls) =
      let rest = keys_of_lines ls in
      if is_empty (trim_space l)
      then rest
      else elim (parse_key cd l) [ key k ↦ k ∷ rest | refused e ↦ rest ]

  unfoldable pub parse_key_lines : Bytes → List Key
  parse_key_lines t = keys_of_lines (split_on 10 (replace_crlf t))

  -- The read of `loadKeyCompletion`, with the elevated one behind it.
  unfoldable pub read_again : Outside → Bool → FileRead
  unfolding maybe
  read_again o may = elim o.read [
    | contents b ↦ contents b
    | missing ↦ missing
    | unreadable ↦
        if may && o.needs_elevation then maybe unreadable contents o.elevated else unreadable
  ]

  abbrev pub found_text : Bytes → ℕ → Found
  found_text raw added = found raw (parse_keys cd raw) added

  -- `loadKeyCompletion`; without a right to elevate a failed read leaves an empty result.
  unfoldable pub load_key : Outside → Bytes → Bool → Found
  load_key o path may = if is_empty path then key_error else elim (read_again o may) [
    | contents b ↦ found_text b 0
    | _ ↦ if o.needs_elevation && not may then found [] [] 0 else key_error
  ]

  -- A worker's result, and the file behind it: `addKeyCompletion` and `removeKeyCompletion` write it.
  unfoldable pub add_key : Outside → Option Bytes → Bytes → List Key → Found × Option Bytes
  add_key o file raw candidates =
      let (updated, added) = add_all (parse_keys cd raw) raw candidates in
      if is_empty added
      then (found_text raw 0, file)
      else if not o.writes
      then (key_error, file)
      else if not o.settles
      then (key_error, some updated)
      else (found_text updated (length added), some updated)

  unfoldable pub drop_key : Outside → Option Bytes → Bytes → Key → Found × Option Bytes
  drop_key o file raw victim =
      let updated = remove cd raw (victim.fingerprint ∷ []) in
      if str_eq updated raw
      then (found_text raw 0, file)
      else if not o.writes
      then (key_error, file)
      else if not o.settles
      then (key_error, some updated)
      else (found_text updated 0, some updated)

  unfoldable pub do_work : Outside → Bytes → Option Bytes → Work → KeyCompletion × Option Bytes
  do_work o path file (reload g may) =
      (record { generation = g; kind_add = false; result = load_key o path may }, file)
  do_work o path file (add g raw candidates) =
      let (result, after) = add_key o file raw candidates in
      (record { generation = g; kind_add = true; result = result }, after)
  do_work o path file (remove_key g raw victim) =
      let (result, after) = drop_key o file raw victim in
      (record { generation = g; kind_add = false; result = result }, after)

  -- `keyPanelStartAdd`
  unfoldable pub start_add : World → World
  start_add w =
      let candidates = parse_key_lines w.panel.input in
      if is_empty (trim_space w.panel.input)
      then w
      else if is_empty candidates
      then w
      else start (λ g. add g w.panel.raw candidates) w

  abbrev pub end_worker : Outside → World → List Work → World
  end_worker o w [] = w
  end_worker o w (k ∷ ks) =
      let (c, after) = do_work o w.panel.path w.file k in
      record w {
        panel = record w.panel { completions = w.panel.completions ++ c ∷ [] };
        running = ks;
        file = after;
      }

  unfoldable pub happen : Event → World → World
  happen press_reload w = command (start_reload true) w
  happen press_add w = command start_add w
  happen (press_remove selected agreed) w = command (start_remove selected agreed) w
  happen (typed t) w = record w { panel = record w.panel { input = t } }
  happen (worker_ends o) w = end_worker o w w.running
  happen tick w = record w { panel = drain_completions w.panel }
  happen destroy w = record w { panel = record w.panel { destroyed = true } }
