-- ===== src/Version.antt =====
-- internal/version/version.go: the identity of a build; the values stamped at link time are a record.
use sercon.Prelude.{
  ℕ, ◌+◌, ◌-◌, ◌≤◌, ◌<◌, ◌≡◌, refl, sym, ap, ◌∙◌, subst, Bool, true, false, ◌&&◌, ◌||◌, not, List,
  [], ◌∷◌, ◌++◌, append_assoc, arith, leb, if◌then◌else◌, if-intro, length, take, drop, Bytes,
  codes, str_eq, str_eq_iff, is_empty,
}
pub mod Names
mod Tests

-- `Version`, `Commit` and `Date`
pub record Build : Type 0 where
  pub version : Bytes
  pub commit : Bytes
  pub date : Bytes

abbrev pub devel : Build
devel = record { version = codes "devel"; commit = codes "none"; date = codes "unknown" }

-- `strings.HasSuffix`
unfoldable pub has_suffix : Bytes → Bytes → Bool
has_suffix s t = leb (length t) (length s) && str_eq (drop (length s - length t) s) t

-- Whether a commit was stamped, the test that `Full` and `Build` share
unfoldable pub has_commit : Build → Bool
has_commit b = not (is_empty b.commit) && not (str_eq b.commit (codes "none"))

-- `Full`
unfoldable pub full : Build → Bytes
full b =
    if has_commit b && not (has_suffix b.version b.commit)
    then b.version ++ (43 ∷ b.commit)
    else b.version

-- `Short`
unfoldable pub short : Build → Bytes
short b =
    if is_empty b.date || str_eq b.date (codes "unknown")
    then full b
    else full b ++ codes " (" ++ b.date ++ codes ")"

-- `Build`
unfoldable pub build : Build → Bytes
build b = if has_commit b then b.commit else b.version
