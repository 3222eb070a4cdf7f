-- ===== src/Relay/Tickets/Kept.antt =====
-- internal/relay/relay.go and publish.go: what tickets, tokens and attachments keep.
use sercon.Prelude.{
  ◌≡◌, ap, ◌∙◌, true, false, Option, none, some, [], ◌∷◌, if◌then◌else◌, maybe, Bytes, is_empty,
}
use sercon.Prelude.Strings.{is_space, trim_space, trim_by-join, join, IsWord}
use sercon.Relay.Tickets.{
  Ticket, TicketCodec, encode, read_ticket, bare_ticket, decode_ticket, TokenResult, token_is,
  stored_token,
}

trim_word : (w : Bytes) → IsWord is_space w → trim_space w ≡ w
unfolding join
trim_word w h = trim_by-join is_space 32 (w ∷ []) (h, tt)

-- A ticket that names a relay is read back from its text, when the encodings undo each other on it.
pub decode_ticket-encode :
    (cd : TicketCodec) (t : Ticket) (raw : Bytes)
    → cd.marshal t ≡ some raw
    → cd.unmarshal raw ≡ some t
    → cd.decode_url (cd.encode_url raw) ≡ some raw
    → IsWord is_space (cd.encode_url raw)
    → is_empty t.relay ≡ false
    → decode_ticket cd (encode cd t) ≡ some t
unfolding decode_ticket encode read_ticket maybe
decode_ticket-encode cd t raw m u d w r =
    ap (decode_ticket cd) (ap (maybe [] cd.encode_url) m)
    ∙ ap
        (λ s.
          maybe (bare_ticket cd s) (λ x. some x) (maybe none (read_ticket cd) (cd.decode_url s)))
        (trim_word _ w)
    ∙ ap
        (λ o.
          maybe (bare_ticket cd (cd.encode_url raw)) (λ x. some x) (maybe none (read_ticket cd) o))
        d
    ∙ ap
        (λ o.
          maybe (bare_ticket cd (cd.encode_url raw)) (λ x. some x)
            (maybe none (λ x. if is_empty x.relay then none else some x) o))
        u
    ∙ ap
        (λ b. maybe (bare_ticket cd (cd.encode_url raw)) (λ x. some x) (if b then none else some t))
        r

-- A token that a call gives is what the file keeps.
KeepsToken : TokenResult × Option Bytes → Type 0
KeepsToken r = (tok : Bytes) → r.0 ≡ token_is tok → stored_token true r.1 ≡ some tok

token_or : Bytes → TokenResult → Bytes
token_or d (token_is tok) = tok
token_or d _ = d
