-- ===== src/Auth/Windows.antt =====
-- internal/sshauth/platform_windows.go: whose key file it is. What Windows answers is a record.
use sercon.Prelude.{
  ℕ, zero, suc, ◌+◌, ◌*◌, Bool, true, false, ◌&&◌, ◌||◌, not, Option, none, some, List, [], ◌∷◌,
  ltb, ◌==◌, if◌then◌else◌, maybe, length, take, drop, head_or, Bytes, codes, str_eq, is_empty,
  equal_fold, contains,
}
pub mod Sids
pub mod Users
pub mod Elevated
mod Tests

-- A path of package filepath.
pub record Paths : Type 0 where
  pub join_path : List Bytes → Bytes
  pub clean : Bytes → Bytes
  pub base : Bytes → Bytes

-- The environment, the groups of an account, whether the effective token has a SID, the groups of the process token as
-- GetTokenInformation writes them, the 68 bytes at an address, the name of a SID, and the registry's profiles.
pub record Machine : Type 0 where
  pub username : Bytes
  pub user : Bytes
  pub program_data : Bytes
  pub user_profile : Bytes
  pub user_home : Option Bytes
  pub local_groups : Bytes → Option (List (Option Bytes))
  pub check_token_membership : Bytes → Option Bool
  pub token_groups : Option Bytes
  pub memory : ℕ → Bytes
  pub lookup_name_by_sid : Bytes → Bytes
  pub profiles : Option (List (Option Bytes))

-- `administratorsSID`
abbrev pub administrators_sid : Bytes
administrators_sid = 1 ∷ 2 ∷ 0 ∷ 0 ∷ 0 ∷ 0 ∷ 0 ∷ 0 ∷ 0 ∷ 5 ∷ 32 ∷ 0 ∷ 0 ∷ 0 ∷ 32 ∷ 2 ∷ 0 ∷ 0 ∷ []

-- `firstNonEmpty`
unfoldable pub first_non_empty : List Bytes → Bytes
first_non_empty [] = []
first_non_empty (v ∷ vs) = if not (is_empty v) then v else first_non_empty vs

-- `currentUser`
unfoldable pub current_user : Machine → Bytes
current_user m = first_non_empty (m.username ∷ m.user ∷ [])

-- `sidEqual` on the bytes at the pointer
unfoldable pub sid_equal : Bytes → Bytes → Bool
sid_equal got want =
    let n = head_or (drop 1 got) 0 * 4 + 8 in
    if ltb (length want) n || ltb 68 n then false else str_eq (take n got) (take n want)

-- A little-endian number
unfoldable pub little_endian : Bytes → ℕ
little_endian [] = 0
little_endian (b ∷ bs) = b + 256 * little_endian bs

-- The loop of `tokenHasGroup` over entries of 16 bytes: a pointer, attributes and padding
unfoldable pub group_in : Machine → Bytes → ℕ → Bytes → Bool
group_in m want zero buf = false
group_in m want (suc n) buf =
    let sid = little_endian (take 8 buf) in
    if not (sid == 0) && sid_equal (m.memory sid) want
    then true
    else group_in m want n (drop 16 buf)

-- `tokenHasGroup`; no buffer where the token cannot be opened or read
unfoldable pub token_has_group : Machine → Bytes → Bool
unfolding maybe
token_has_group m want =
    maybe false (λ buf. group_in m want (little_endian (take 4 buf)) (drop 4 buf)) m.token_groups

-- `tokenIsElevatable` and `tokenInAdministrators`
unfoldable pub token_is_elevatable : Machine → Bool
token_is_elevatable m = token_has_group m administrators_sid

unfoldable pub token_in_administrators : Machine → Bool
unfolding maybe
token_in_administrators m =
    maybe false (λ is_member. is_member) (m.check_token_membership administrators_sid)

-- `isAdministratorsName`, with the cached name
unfoldable pub is_administrators_name : Machine → Bytes → Bytes → Bool × Bytes
is_administrators_name m cached name =
    let found = if is_empty cached then m.lookup_name_by_sid administrators_sid else cached in
    if equal_fold name (codes "Administrators")
    then (true, cached)
    else (not (is_empty found) && equal_fold name found, found)

-- The loop of `inAdminsByGroupLookup`; a group may have no name
unfoldable pub admins_among : Machine → Bytes → List (Option Bytes) → Bool × Bytes
admins_among m cached [] = (false, cached)
admins_among m cached (none ∷ gs) = admins_among m cached gs
admins_among m cached (some g ∷ gs) =
    let (is_admins, named) = is_administrators_name m cached g in
    let rest = admins_among m named gs in if is_admins then (true, named) else rest

-- `inAdminsByGroupLookup`; a name with a NUL byte is not asked for
unfoldable pub in_admins_by_group_lookup : Machine → Bytes → Bytes → Bool × Bytes
unfolding maybe
in_admins_by_group_lookup m cached username =
    if contains (0 ∷ []) username
    then (false, cached)
    else maybe (false, cached) (admins_among m cached) (m.local_groups username)

-- What stands behind the last of a byte, and before the first.
unfoldable pub after_last : ℕ → Bytes → Option Bytes
after_last c [] = none
after_last c (b ∷ s) =
    let rest = after_last c s in if b == c then maybe (some s) some rest else rest

unfoldable pub before_first : ℕ → Bytes → Option Bytes
unfolding maybe
before_first c [] = none
before_first c (b ∷ s) =
    let rest = before_first c s in if b == c then some [] else maybe none (λ t. some (b ∷ t)) rest

-- `sameUserAsCurrent`
unfoldable pub same_user_as_current : Machine → Bytes → Bool
unfolding maybe
same_user_as_current m username =
    let current = current_user m in
    if is_empty current
    then false
    else if equal_fold username current
    then true
    else maybe (maybe false (λ name. equal_fold name current) (before_first b'@' username))
        (λ name. equal_fold name current) (after_last 92 username)

-- `IsAdmin` of a user name, and with it the cached name of the group
unfoldable pub is_admin : Machine → Bytes → Bytes → Bool × Bytes
is_admin m cached username =
    let name = if is_empty username then current_user m else username in
    let by_token = token_in_administrators m || token_is_elevatable m in
    let (found, named) = in_admins_by_group_lookup m cached name in
    if is_empty name
    then (by_token, cached)
    else if found
    then (true, named)
    else (same_user_as_current m name && by_token, named)

-- `profileMatchesUser`
unfoldable pub profile_matches_user : Paths → Bytes → Bytes → Bool
unfolding maybe
profile_matches_user ps profile username =
    let base = ps.base (ps.clean profile) in
    if is_empty base || str_eq base (codes ".")
    then false
    else if equal_fold base username
    then true
    else maybe false (λ name. equal_fold base name) (after_last 92 username)

-- The loop of `profileDirFor`; a subkey or its value may not open
unfoldable pub profile_among : Paths → Bytes → List (Option Bytes) → Option Bytes
profile_among ps username [] = none
profile_among ps username (none ∷ rest) = profile_among ps username rest
profile_among ps username (some path ∷ rest) =
    let later = profile_among ps username rest in
    if profile_matches_user ps path username then some (ps.clean path) else later

-- `profileDirFor`
unfoldable pub profile_dir_for : Paths → Machine → Bytes → Option Bytes
unfolding maybe
profile_dir_for ps m username = maybe none (profile_among ps username) m.profiles

-- `homeDir`
unfoldable pub home_dir : Paths → Machine → Bytes → Option Bytes
home_dir ps m username =
    if is_empty username
    then m.user_home
    else if same_user_as_current m username && not (is_empty m.user_profile)
    then some m.user_profile
    else profile_dir_for ps m username

-- `DefaultKeyFile`
unfoldable pub default_key_file : Paths → Bytes → Bytes
default_key_file ps home = ps.join_path (home ∷ codes ".ssh" ∷ codes "authorized_keys" ∷ [])

-- `KeyFile`
unfoldable pub key_file : Paths → Machine → Bytes → Bytes → Option Bytes
unfolding maybe
key_file ps m cached username =
    let dir = if is_empty m.program_data then codes "C:\\ProgramData" else m.program_data in
    if (is_admin m cached username).0
    then some (ps.join_path (dir ∷ codes "ssh" ∷ codes "administrators_authorized_keys" ∷ []))
    else maybe none (λ home. some (default_key_file ps home)) (home_dir ps m username)
