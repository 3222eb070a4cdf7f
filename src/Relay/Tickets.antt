-- ===== src/Relay/Tickets.antt =====
-- internal/relay/relay.go and publish.go: tickets, tokens, the loop of a publisher and an attachment. JSON, base64, TLS
-- and what the system answers are parameters and inputs.
use sercon.Prelude.{
  ℕ, ◌*◌, Bool, true, false, ◌&&◌, not, Option, none, some, [], ◌∷◌, ◌++◌, ltb, leb, if◌then◌else◌,
  maybe, length, Bytes, codes, str_eq, is_empty,
}
use sercon.Prelude.Strings.{trim_space}
use sercon.Relay.Server.{min_token_len}
pub mod Kept

pub record Ticket : Type 0 where
  pub relay : Bytes
  pub room : Bytes
  pub token : Bytes
  pub sha256 : Bytes

-- `Ticket.Complete`
unfoldable pub is_complete : Ticket → Bool
is_complete t =
    not (is_empty t.relay)
    && (not (is_empty t.room) && (not (is_empty t.token) && not (is_empty t.sha256)))

-- `json.Marshal` and `json.Unmarshal` of a ticket, `base64.RawURLEncoding`, and whether `net.SplitHostPort` takes a
-- text.
pub record TicketCodec : Type 0 where
  pub marshal : Ticket → Option Bytes
  pub unmarshal : Bytes → Option Ticket
  pub encode_url : Bytes → Bytes
  pub decode_url : Bytes → Option Bytes
  pub is_host_port : Bytes → Bool

module _ (cd : TicketCodec) where
  -- `Ticket.Encode`
  unfoldable pub encode : Ticket → Bytes
  unfolding maybe
  encode t = maybe [] cd.encode_url (cd.marshal t)

  unfoldable pub read_ticket : Bytes → Option Ticket
  unfolding maybe
  read_ticket raw = maybe none (λ t. if is_empty t.relay then none else some t) (cd.unmarshal raw)

  abbrev pub bare : Bytes → Ticket
  bare s = record { relay = s; room = []; token = []; sha256 = [] }

  unfoldable pub bare_ticket : Bytes → Option Ticket
  bare_ticket s = if cd.is_host_port s then some (bare s) else none

  -- `DecodeTicket`, where `none` is the error
  unfoldable pub decode_ticket : Bytes → Option Ticket
  unfolding maybe
  decode_ticket text =
      let s = trim_space text in
      maybe (bare_ticket s) (λ t. some t) (maybe none read_ticket (cd.decode_url s))

-- What the system answers to `LoadToken`: whether the directory is there, whether a file that is there can be read,
-- 32 random bytes in base64, and whether the write works.
pub record TokenCalls : Type 0 where
  pub made : Bool
  pub reads : Bool
  pub random : Option Bytes
  pub writes : Bool

pub data TokenResult : Type 0 where
  token_is : Bytes → TokenResult
  no_directory no_random no_write : TokenResult

-- The token that `ReadFile` finds; a failed read counts as none.
unfoldable pub stored_token : Bool → Option Bytes → Option Bytes
unfolding maybe
stored_token reads file =
    if not reads
    then none
    else maybe none
        (λ raw. if leb min_token_len (length (trim_space raw)) then some (trim_space raw) else none)
        file

unfoldable pub make_token : TokenCalls → Option Bytes → TokenResult × Option Bytes
unfolding maybe
make_token c file =
    maybe (no_random, file)
      (λ tok. if not c.writes then (no_write, file) else (token_is tok, some (tok ++ 10 ∷ [])))
      c.random

-- `LoadToken`, with the content of the token's file before and after
unfoldable pub load_token : TokenCalls → Option Bytes → TokenResult × Option Bytes
unfolding maybe
load_token c file =
    if not c.made
    then (no_directory, file)
    else maybe (make_token c file) (λ tok. (token_is tok, file)) (stored_token c.reads file)

-- One round of `Publisher.slot`: whether the publisher stops, whether `serve` was paired, and the stop while it
-- waits. The result is the next delay in seconds, or the end.
pub record Round : Type 0 where
  pub stopping : Bool
  pub paired : Bool
  pub stopped_waiting : Bool

abbrev pub max_backoff : ℕ
max_backoff = 15

unfoldable pub doubled : ℕ → ℕ
doubled b =
    if ltb b max_backoff then (if ltb max_backoff (b * 2) then max_backoff else b * 2) else b

unfoldable pub slot_round : ℕ → Round → Option ℕ
slot_round b r =
    if r.stopping
    then none
    else if r.paired
    then some 1
    else if r.stopped_waiting
    then none
    else some (doubled b)

-- `reply`
pub record Reply : Type 0 where
  pub is_ok : Bool
  pub state : Bytes
  pub error : Bytes

pub data ExpectError : Type 0 where
  no_line : ExpectError
  malformed : Bytes → ExpectError
  refused_by_relay : Bytes → ExpectError
  other_state : Bytes → Bytes → ExpectError

-- `expectState`, with the line that was read and what `json.Unmarshal` makes of it
unfoldable pub expect_state : (Bytes → Option Reply) → Bytes → Option Bytes → Option ExpectError
unfolding maybe
expect_state unmarshal want line =
    maybe (some no_line)
      (λ l.
        maybe (some (malformed l))
          (λ r.
            if not r.is_ok
            then some (
                refused_by_relay
                  (if is_empty r.error then codes "relay refused the connection" else r.error))
            else if not (is_empty want) && not (str_eq r.state want)
            then some (other_state want r.state)
            else none)
          (unmarshal l))
      line

pub data AttachError : Type 0 where
  incomplete_ticket dial_failed hello_failed tls_failed : AttachError
  not_waiting not_paired : ExpectError → AttachError

-- What the network answers to `Attach`.
pub record AttachCalls : Type 0 where
  pub dials : Bool
  pub says_hello : Bool
  pub first_line : Option Bytes
  pub second_line : Option Bytes
  pub handshakes : Bool

-- An error, and whether the connection is open behind `Attach`.
pub record Attached : Type 0 where
  pub error : Option AttachError
  pub is_open : Bool

abbrev pub fail : AttachError → Attached
fail e = record { error = some e; is_open = false }

-- `Attach`
unfoldable pub attach : (Bytes → Option Reply) → Ticket → AttachCalls → Attached
unfolding maybe
attach unmarshal t c =
    if not (is_complete t)
    then fail incomplete_ticket
    else if not c.dials
    then fail dial_failed
    else if not c.says_hello
    then fail hello_failed
    else maybe
        (maybe (if c.handshakes then record { error = none; is_open = true } else fail tls_failed)
          (λ e. fail (not_paired e)) (expect_state unmarshal (codes "paired") c.second_line))
        (λ e. fail (not_waiting e)) (expect_state unmarshal (codes "waiting") c.first_line)
