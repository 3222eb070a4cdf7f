-- ===== src/Auth/Keys.antt =====
-- internal/sshauth/sshauth.go: keys, their lines and what is shown of them. Base64 and SHA-256 are parameters.
use sercon.Prelude.{
  ℕ, ◌+◌, Bool, ◌&&◌, ◌||◌, not, Option, none, some, List, [], ◌∷◌, ◌++◌, ltb, if◌then◌else◌, maybe,
  length, take, Bytes, codes, str_eq, is_empty, has_prefix,
}
use sercon.Prelude.Strings.{join, fields, trim_space, has_text}
use sercon.Prelude.Sort.{sort_by}
use sercon.Proto.Frame.{uint32}
pub mod ReadBack

-- `base64.StdEncoding.DecodeString`, `sha256.Sum256` and `base64.RawStdEncoding.EncodeToString`.
pub record Codec : Type 0 where
  pub decode_string : Bytes → Option Bytes
  pub sum256 : Bytes → Bytes
  pub encode_raw : Bytes → Bytes

pub record Key : Type 0 where
  pub algorithm : Bytes
  pub blob : Bytes
  pub comment : Bytes
  pub fingerprint : Bytes
  pub line : ℕ

-- `ErrNotAKey`, and the errors that wrap it.
pub data KeyError : Type 0 where
  not_a_key bad_base64 blob_too_short : KeyError
  header_too_long : ℕ → ℕ → KeyError
  other_algorithm : Bytes → Bytes → KeyError

-- A key or an error, as the two results of a function.
pub data Parsed : Type 0 where
  key : Key → Parsed
  refused : KeyError → Parsed

abbrev pub key_type_prefixes : List Bytes
key_type_prefixes =
    codes "ssh-ed25519"
    ∷ codes "ssh-rsa"
    ∷ codes "ecdsa-sha2-nistp256"
    ∷ codes "ecdsa-sha2-nistp384"
    ∷ codes "ecdsa-sha2-nistp521"
    ∷ codes "sk-ssh-ed25519@openssh.com"
    ∷ codes "sk-ecdsa-sha2-nistp256@openssh.com"
    ∷ []

abbrev pub is_known_key_type : Bytes → Bool
is_known_key_type s = has_text s key_type_prefixes

-- `checkBlobHeader`, where `none` is no error.
unfoldable pub check_blob_header : Bytes → Bytes → Option KeyError
check_blob_header (a ∷ b ∷ c ∷ d ∷ rest) algorithm =
    let n = uint32 a b c d in
    if ltb (length rest) n
    then some (header_too_long n (length rest + 4))
    else if not (str_eq (take n rest) algorithm)
    then some (other_algorithm (take n rest) algorithm)
    else none
check_blob_header _ algorithm = some blob_too_short

abbrev pub blank : Bytes
blank = 32 ∷ []

module _ (cd : Codec) where
  unfoldable pub fingerprint_of : Bytes → Bytes
  fingerprint_of raw = codes "SHA256:" ++ cd.encode_raw (cd.sum256 raw)

  abbrev pub found_key : Bytes → Bytes → List Bytes → Bytes → Key
  found_key algorithm blob rest raw = record {
    algorithm = algorithm;
    blob = blob;
    comment = join blank rest;
    fingerprint = fingerprint_of raw;
    line = 0;
  }

  -- `ParseKey` with the decoded blob.
  unfoldable pub checked_key : Bytes → Bytes → List Bytes → Bytes → Parsed
  unfolding maybe
  checked_key algorithm blob rest raw =
      maybe (key (found_key algorithm blob rest raw)) refused (check_blob_header raw algorithm)

  -- `ParseKey` on the fields of the line.
  unfoldable pub parse_fields : List Bytes → Parsed
  unfolding maybe
  parse_fields (algorithm ∷ blob ∷ rest) =
      if not (is_known_key_type algorithm)
      then refused not_a_key
      else maybe (refused bad_base64) (checked_key algorithm blob rest) (cd.decode_string blob)
  parse_fields _ = refused not_a_key

  -- `ParseKey`
  unfoldable pub parse_key : Bytes → Parsed
  parse_key l =
      let trimmed = trim_space l in
      if is_empty trimmed || has_prefix (codes "#") trimmed
      then refused not_a_key
      else parse_fields (fields trimmed)

-- `Key.Text`
unfoldable pub text : Key → Bytes
text k = join blank (k.algorithm ∷ k.blob ∷ (if is_empty k.comment then [] else k.comment ∷ []))

-- `Key.Label`
unfoldable pub label : Key → Bytes
label k = if is_empty k.comment then k.algorithm ++ codes " key" else k.comment

-- `HostKeyComment`
unfoldable pub host_key_comment : Bytes → Bytes → Bytes
host_key_comment user host =
    if is_empty user && is_empty host
    then []
    else if is_empty host
    then user
    else if is_empty user
    then host
    else user ++ codes "@" ++ host

-- `SortedByComment`
unfoldable pub sorted_by_comment : List Key → List Key
sorted_by_comment = sort_by label
