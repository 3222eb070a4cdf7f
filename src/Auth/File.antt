-- ===== src/Auth/File.antt =====
-- internal/sshauth/sshauth.go: the authorized_keys file as a text that is read, added to and removed from.
use sercon.Prelude.{
  ℕ, ◌+◌, Bool, true, false, ◌&&◌, not, Option, none, some, List, [], ◌∷◌, ◌++◌, map, ◌==◌,
  if◌then◌else◌, maybe, Bytes, is_empty, has_prefix,
}
use sercon.Prelude.Strings.{split_on, join, trim_space, has_text}
use sercon.Auth.Keys.{Codec, Key, Parsed, key, refused, parse_key, text}
pub mod Lines
pub mod Edits
pub mod Additions
pub mod Reading

unfoldable pub result_key : Parsed → Option Key
result_key (key k) = some k
result_key (refused e) = none

-- `strings.ReplaceAll content "\r\n" "\n"`
unfoldable pub replace_crlf : Bytes → Bytes
replace_crlf [] = []
replace_crlf (c ∷ s) =
    let rest = replace_crlf s in if c == 13 && has_prefix (10 ∷ []) s then rest else c ∷ rest

-- `strings.ReplaceAll content "\r" "\n"`
abbrev pub line_end : ℕ → ℕ
line_end c = if c == 13 then 10 else c

-- `splitLines`
unfoldable pub split_lines : Bytes → List Bytes
split_lines content = split_on 10 (map line_end (replace_crlf content))

-- `render`
unfoldable pub render : List Bytes → Bytes
render ls = if is_empty ls then [] else join (10 ∷ []) ls ++ (10 ∷ [])

-- `keptLines`
unfoldable pub drop_blank : List Bytes → List Bytes
drop_blank [] = []
drop_blank (l ∷ ls) = if is_empty (trim_space l) then drop_blank ls else l ∷ drop_blank ls

unfoldable pub kept_lines : Bytes → List Bytes
kept_lines content = drop_blank (split_lines content)

-- The loop of `AddAll` on a set of fingerprints: the keys that are added.
unfoldable pub new_keys : List Bytes → List Key → List Key
new_keys have [] = []
new_keys have (k ∷ add) =
    let rest = new_keys (k.fingerprint ∷ have) add in
    let same = new_keys have add in if has_text k.fingerprint have then same else k ∷ rest

-- `AddAll`
unfoldable pub add_all : List Key → Bytes → List Key → Bytes × List Key
add_all existing content add =
    let added = new_keys (map (λ k. k.fingerprint) existing) add in
    if is_empty added then (content, []) else (render (kept_lines content ++ map text added), added)

module _ (cd : Codec) where
  -- `parseKeys`, with the number of the first line.
  unfoldable pub parse_lines : ℕ → List Bytes → List Key
  unfolding maybe result_key
  parse_lines i [] = []
  parse_lines i (l ∷ ls) =
      let rest = parse_lines (i + 1) ls in
      maybe rest (λ k. record k { line = i } ∷ rest) (result_key (parse_key cd l))

  unfoldable pub parse_keys : Bytes → List Key
  parse_keys content = parse_lines 1 (split_on 10 content)

  -- Whether `Remove` drops a line.
  unfoldable pub is_victim : List Bytes → Bytes → Bool
  unfolding maybe
  is_victim fingerprints l =
      maybe false (λ k. has_text k.fingerprint fingerprints) (result_key (parse_key cd l))

  -- The loop of `Remove`: the kept lines, and whether one was dropped.
  unfoldable pub remove_lines : List Bytes → List Bytes → List Bytes × Bool
  remove_lines fingerprints [] = ([], false)
  remove_lines fingerprints (l ∷ ls) =
      let (kept, matched) = remove_lines fingerprints ls in
      if is_victim fingerprints l then (kept, true) else (l ∷ kept, matched)

  -- `Remove`
  unfoldable pub remove : Bytes → List Bytes → Bytes
  remove content fingerprints =
      let (kept, matched) = remove_lines fingerprints (split_lines content) in
      if not matched then content else render kept
