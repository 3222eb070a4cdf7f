-- ===== src/Client/Tests.antt =====
-- cmd/sercon: commands and keys to run the client's functions on.
use sercon.Client.Escapes.{text, unescape, written, unescape-written_all}
use sercon.Prelude.{
  maybe, ◌≡◌, refl, Bool, true, false, Option, none, some, List, [], ◌∷◌, ◌++◌, arith,
  if◌then◌else◌, ℤ, Bytes, codes, str_eq, has_prefix,
}
use sercon.Prelude.Strings.{trim_by, trim_left, trim_right, is_space}
use sercon.Client.Args.{sort_args, is_positional, wants_next, reorder_args, has_byte}
use sercon.Client.Args.Order.{parse-reorder_args}
use sercon.Client.Args.Flags.{
  cut, flag_word, dashed, word_of, add_flag, add_positional, needs, met, parse, gather, gather_word,
}
use sercon.Client.Script.{
  mistake, at_line, unknown_command, parse_script, read_line, read_command, verb, behind_verb,
  argument,
}
use sercon.Client.Script.Lines.{parse_script-mistake}
use sercon.Client.Quote.{remote_command, command_parts}
use sercon.Client.Shell.{shell_words, meaning}
use sercon.Client.Shell.ReadBack.{shell_words-remote_command}
use sercon.Hub.Types.{data_frame}
use sercon.Client.Keys.{Wire, going_on, handle_keys}
use sercon.Client.Keys.Typing.{ready, handle_keys-protect}
use sercon.Client.Collector.{Collector, feed, IsFed, feed-IsFed}
use sercon.Proto.Frame.{Frame, type_data, type_ctrl}
use sercon.Client.Replies.{Reply}

shell_words-remote_command_example :
    shell_words
      (codes "/home/a")
      (remote_command (codes "~/my bin/d") [] (codes "session") (codes "it's" ∷ []))
    ≡ some (codes "/home/a/my bin/d" ∷ codes "session" ∷ codes "it's" ∷ [])
unfolding meaning command_parts str_eq has_prefix
shell_words-remote_command_example =
    shell_words-remote_command (codes "/home/a") (codes "~/my bin/d") [] (codes "session")
      (codes "it's" ∷ [])

abbrev line : Wire
line = record { frames = []; broken = false }

handle_keys-protect_example : handle_keys (ready line []) (b'a' ∷ 1 ∷ b'a' ∷ b'b' ∷ []) ≡ (
  ready (record { frames = data_frame (b'a' ∷ 1 ∷ b'b' ∷ []) ∷ []; broken = false }) [],
  going_on,
)
handle_keys-protect_example =
    handle_keys-protect line [] (b'a' ∷ 1 ∷ b'b' ∷ []) refl refl (omega arith)

abbrev half_read : Collector
half_read = record { buf = codes "abc"; consumed = 2 }

feed-IsFed_example : IsFed 4 half_read (codes "xyz") (feed 4 half_read (codes "xyz"))
feed-IsFed_example = feed-IsFed 4 half_read (codes "xyz") (omega arith)

-- A decoder that knows one message.
abbrev opened_reply : Reply
opened_reply = record { op = codes "opened"; text = [] }

abbrev decode : Bytes → Option Reply
decode s = if str_eq s (codes "{}") then some opened_reply else none

abbrev backlog_frame : Frame
backlog_frame = record { type = type_data; payload = codes "login: " }

abbrev opened_frame : Frame
opened_frame = record { type = type_ctrl; payload = codes "{}" }

unescape-written_all_example :
    unescape (codes "ls" ++ 92 ∷ (codes "x0d" ++ 92 ∷ 92 ∷ [])) ≡ text (codes "ls" ++ 13 ∷ 92 ∷ [])
unfolding written
unescape-written_all_example =
    unescape-written_all (codes "ls" ++ 13 ∷ 92 ∷ [])
      (omega arith, (omega arith, (omega arith, (omega arith, tt))))

-- `t` takes a value.
abbrev takes : Bytes → Bool
takes name = str_eq name (codes "t")

abbrev known : Bytes → Option Bool
known name =
    if str_eq name (codes "t")
    then some false
    else if str_eq name (codes "observe")
    then some true
    else none

abbrev command_line : List Bytes
command_line = codes "COM1" ∷ codes "-t" ∷ codes "jump" ∷ codes "--observe" ∷ codes "-t=x" ∷ []

parse-reorder_args_example :
    parse known none (reorder_args (needs known) command_line)
    ≡ some (
      (codes "t", some (codes "jump"))
          ∷ (codes "observe", none)
          ∷ (codes "t", some (codes "x"))
          ∷ [],
      codes "COM1" ∷ [],
    )
unfolding gather gather_word word_of dashed flag_word cut met add_flag add_positional maybe str_eq
parse-reorder_args_example = parse-reorder_args known command_line _ refl

-- Behind `--` a dash makes no flag, and a flag without its value is an error; the new order says otherwise.
end_lost : reorder_args takes (codes "--" ∷ codes "-x" ∷ []) ≡ codes "-x" ∷ []
unfolding reorder_args sort_args is_positional wants_next str_eq has_byte trim_left
end_lost = refl

value_taken : reorder_args takes (codes "COM1" ∷ codes "-t" ∷ []) ≡ codes "-t" ∷ codes "COM1" ∷ []
unfolding reorder_args sort_args is_positional wants_next str_eq has_byte trim_left
value_taken = refl

abbrev never : Bytes → Option ℤ
never s = none

parse_script-mistake_example :
    parse_script (λ e. true) never (codes "wait ok" ∷ codes "jump" ∷ codes "sleep" ∷ [])
    ≡ mistake (at_line 2) (unknown_command (codes "jump"))
unfolding read_line read_command verb behind_verb argument trim_by trim_left trim_right is_space
    str_eq has_prefix
parse_script-mistake_example =
    parse_script-mistake (λ e. true) never (codes "wait ok" ∷ []) (codes "jump")
      (codes "sleep" ∷ []) (unknown_command (codes "jump")) ((λ m e. cc e), tt) refl
