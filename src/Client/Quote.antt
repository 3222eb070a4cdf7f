-- ===== src/Client/Quote.antt =====
-- cmd/sercon/main.go: the command that the jump host runs, quoted for its shell.
use sercon.Prelude.{
  ℕ, Bool, true, ◌&&◌, ◌||◌, List, [], ◌∷◌, ◌++◌, map, leb, ◌==◌, if◌then◌else◌, drop, Bytes, codes,
  str_eq, is_empty, has_prefix,
}

-- The characters that `quoteToken` leaves bare. Go tests runes; a rune beyond ASCII is unsafe, and so
-- is each of its bytes.
unfoldable pub is_safe : ℕ → Bool
is_safe c =
    (leb b'a' c && leb c b'z')
    || (leb b'A' c && leb c b'Z')
    || (leb b'0' c && leb c b'9')
    || c == b'/'
    || c == b'.'
    || c == b'_'
    || c == b'-'
    || c == b'@'
    || c == b':'
    || c == b','
    || c == b'+'
    || c == b'='

unfoldable pub all_safe : Bytes → Bool
all_safe [] = true
all_safe (c ∷ s) = is_safe c && all_safe s

-- `strings.ReplaceAll(s, "'", "'\\''")`
unfoldable pub replace_quotes : Bytes → Bytes
replace_quotes [] = []
replace_quotes (c ∷ s) = (if c == 39 then 39 ∷ 92 ∷ 39 ∷ 39 ∷ [] else c ∷ []) ++ replace_quotes s

-- `quoteToken`
unfoldable pub quote_token : Bytes → Bytes
quote_token s =
    if is_empty s
    then 39 ∷ 39 ∷ []
    else if all_safe s
    then s
    else 39 ∷ (replace_quotes s ++ 39 ∷ [])

-- `shellQuote`; the text behind "~/", as `strings.CutPrefix` gives it.
unfoldable pub shell_quote : Bytes → Bytes
shell_quote s =
    if str_eq s (codes "~")
    then codes "~"
    else if has_prefix (codes "~/") s
    then codes "~/" ++ quote_token (drop 2 s)
    else quote_token s

-- `strings.Join(parts, " ")`
unfoldable pub join_blank : List Bytes → Bytes
join_blank [] = []
join_blank (p ∷ []) = p
join_blank (p ∷ q ∷ ps) = p ++ b' ' ∷ join_blank (q ∷ ps)

-- The arguments that `options.remoteCommand` quotes, in order.
unfoldable pub command_parts : Bytes → Bytes → Bytes → List Bytes → List Bytes
command_parts bin sock sub extra =
    bin ∷ sub ∷ ((if is_empty sock then [] else codes "--socket" ∷ sock ∷ []) ++ extra)

-- `options.remoteCommand`, with `remoteBin` and `remoteSock`.
unfoldable pub remote_command : Bytes → Bytes → Bytes → List Bytes → Bytes
remote_command bin sock sub extra = join_blank (map shell_quote (command_parts bin sock sub extra))
