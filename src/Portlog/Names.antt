-- ===== src/Portlog/Names.antt =====
-- internal/portlog/portlog.go: the names of the log directories. A name is a list of characters.
use sercon.Prelude.{
  ℕ, Bool, true, false, ◌&&◌, ◌||◌, not, [], ◌∷◌, ◌++◌, map, leb, ◌==◌, if◌then◌else◌, length, drop,
  head_or, Bytes, codes, is_empty, to_upper, has_prefix,
}
use sercon.Prelude.Strings.{has_text}
pub mod Safe

unfoldable pub is_safe_char : ℕ → Bool
is_safe_char r =
    (leb b'a' r && leb r b'z')
    || ((leb b'A' r && leb r b'Z')
        || ((leb b'0' r && leb r b'9') || (r == b'.' || (r == b'-' || r == b'_'))))

-- `sanitize`
abbrev pub safe_char : ℕ → ℕ
safe_char r = if is_safe_char r then r else b'_'

unfoldable pub sanitize : Bytes → Bytes
sanitize s = if is_empty s then codes "port" else map safe_char s

-- A name before its first dot, and from there on.
unfoldable pub before_dot : Bytes → Bytes
before_dot [] = []
before_dot (c ∷ s) = if c == b'.' then [] else c ∷ before_dot s

unfoldable pub from_dot : Bytes → Bytes
from_dot [] = []
from_dot (c ∷ s) = if c == b'.' then c ∷ s else from_dot s

-- `reservedDeviceName` on the base name in upper case.
unfoldable pub is_reserved_base : Bytes → Bool
is_reserved_base base =
    if has_text base (codes "CON" ∷ codes "PRN" ∷ codes "AUX" ∷ codes "NUL" ∷ [])
    then true
    else if length base == 4 && (has_prefix (codes "COM") base || has_prefix (codes "LPT") base)
    then leb b'1' (head_or (drop 3 base) 0) && leb (head_or (drop 3 base) 0) b'9'
    else false

-- `reservedDeviceName`
unfoldable pub reserved_device_name : Bytes → Bool
reserved_device_name n = is_reserved_base (to_upper (before_dot n))

-- `safeName`. Behind a name without a dot nothing comes.
unfoldable pub safe_name : Bytes → Bytes
safe_name port =
    let n = sanitize port in
    if not (reserved_device_name n) then n else before_dot n ++ b'_' ∷ from_dot n
