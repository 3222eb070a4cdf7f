-- ===== src/Config.antt =====
-- internal/config/config.go: the configuration behind `Load`. The paths of package filepath, the environment and what
-- reading and decoding the file give are parameters and inputs.
use sercon.Prelude.{
  Bool, true, false, ◌&&◌, ◌||◌, Option, none, some, List, [], ◌∷◌, ◌==◌, if◌then◌else◌, maybe, ℤ,
  pos, is_zero, drop, Bytes, codes, is_empty,
}
use sercon.Prelude.Dict.{str_key, put}
use sercon.Hub.Types.{PortDef}

-- `Config`
pub record Config : Type 0 where
  pub log_dir : Bytes
  pub audit_dir : Bytes
  pub baud : ℤ
  pub stamp_logs : Option Bool
  pub allow_observe : Option Bool
  pub max_observers : ℤ
  pub auto_open : Option Bool
  pub scan_globs : List Bytes
  pub ports : List PortDef

-- `runtime.GOOS == "windows"`, the home directory if it is known, and the two environment variables.
pub record Environment : Type 0 where
  pub is_windows : Bool
  pub home : Option Bytes
  pub local_app_data : Bytes
  pub state_home : Bytes

-- `filepath.Join`, `filepath.Dir` and `filepath.Abs`
pub record Paths : Type 0 where
  pub join_path : List Bytes → Bytes
  pub dir_of : Bytes → Bytes
  pub absolute : Bytes → Option Bytes

module _ (fp : Paths) (env : Environment) where
  unfoldable pub state_base : Bytes
  unfolding maybe
  state_base =
      let home = maybe [] (λ h. h) env.home in
      if env.is_windows
      then (if is_empty env.local_app_data
          then fp.join_path (home ∷ codes "AppData" ∷ codes "Local" ∷ [])
          else env.local_app_data)
      else if is_empty env.state_home
      then fp.join_path (home ∷ codes ".local" ∷ codes "state" ∷ [])
      else env.state_home

  -- `defaultDirs`
  unfoldable pub default_dirs : Bytes × Bytes
  default_dirs =
      let base = fp.join_path (state_base ∷ codes "sercon" ∷ []) in
      (fp.join_path (base ∷ codes "ports" ∷ []), fp.join_path (base ∷ codes "audit" ∷ []))

  -- `Defaults`
  unfoldable pub defaults : Config
  defaults = record {
    log_dir = default_dirs.0;
    audit_dir = default_dirs.1;
    baud = pos 115200;
    stamp_logs = some true;
    allow_observe = some true;
    max_observers = pos 4;
    auto_open = some true;
    scan_globs = [];
    ports = [];
  }

  -- The test of a leading `~`
  unfoldable pub starts_home : Bytes → Bool
  starts_home [] = false
  starts_home (c ∷ []) = c == b'~'
  starts_home (c ∷ d ∷ s) = c == b'~' && (d == b'/' || d == 92)

  unfoldable pub expand_home : Bytes → Bytes
  unfolding maybe
  expand_home p =
      if starts_home p then maybe p (λ home. fp.join_path (home ∷ drop 1 p ∷ [])) env.home else p

  -- `expand`
  unfoldable pub expand : Bytes → Bytes
  unfolding maybe
  expand p = if is_empty p then p else maybe (expand_home p) (λ a. a) (fp.absolute (expand_home p))

  abbrev pub or_default {ℓ} : {A : Type ℓ} → Option A → Option A → Option A
  or_default none d = d
  or_default (some a) d = some a

  -- `normalize`
  unfoldable pub normalize : Config → Config
  normalize c =
      let log_dir = if is_empty c.log_dir then defaults.log_dir else c.log_dir in
      record c {
        baud = if is_zero c.baud then defaults.baud else c.baud;
        stamp_logs = or_default c.stamp_logs defaults.stamp_logs;
        allow_observe = or_default c.allow_observe defaults.allow_observe;
        auto_open = or_default c.auto_open defaults.auto_open;
        log_dir = expand log_dir;
        audit_dir = expand (
            if is_empty c.audit_dir
            then fp.join_path (fp.dir_of log_dir ∷ codes "audit" ∷ [])
            else c.audit_dir);
      }

  -- What reading the file gives: nothing there, an error, or its text.
  pub data ConfigFile : Type 0 where
    absent unreadable : ConfigFile
    text : Bytes → ConfigFile

  pub data Loaded : Type 0 where
    config_is : Config → Loaded
    read_failed parse_failed : Config → Loaded

  -- `Load` with a path: `json.Unmarshal` writes over the defaults, or fails behind some of them
  unfoldable pub load : (Config → Bytes → Config × Bool) → ConfigFile → Loaded
  load unmarshal absent = config_is defaults
  load unmarshal unreadable = read_failed defaults
  load unmarshal (text raw) =
      let (c, fine) = unmarshal defaults raw in
      if fine then config_is (normalize c) else parse_failed c

-- `Aliases`
unfoldable pub put_aliases : List PortDef → List (Bytes × PortDef) → List (Bytes × PortDef)
put_aliases [] m = m
put_aliases (p ∷ ps) m = put_aliases ps (if is_empty p.ref then m else put p.ref p m)

unfoldable pub aliases : Config → List (Bytes × PortDef)
aliases c = put_aliases c.ports []

abbrev pub or_true : Option Bool → Bool
or_true none = true
or_true (some b) = b

-- `LogsStamped`, `ObserversAllowed` and `OpensAutomatically`
unfoldable pub logs_stamped : Config → Bool
logs_stamped c = or_true c.stamp_logs

unfoldable pub observers_allowed : Config → Bool
observers_allowed c = or_true c.allow_observe

unfoldable pub opens_automatically : Config → Bool
opens_automatically c = or_true c.auto_open
