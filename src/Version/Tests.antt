-- ===== src/Version/Tests.antt =====
-- internal/version/version.go: the builds that its comments name.
use sercon.Prelude.{◌≡◌, refl, codes, str_eq}
use sercon.Version.{Build, devel, has_suffix, has_commit, full, short}

abbrev tagged : Build
tagged = record { version = codes "v0.1.0"; commit = codes "68fabd1"; date = codes "now" }

abbrev described : Build
described = record tagged { version = codes "v0.1.0-9-g68fabd1" }

tagged_once : short tagged ≡ codes "v0.1.0+68fabd1 (now)"
unfolding short full has_suffix has_commit str_eq
tagged_once = refl

described_once : full described ≡ described.version
unfolding full has_suffix has_commit str_eq
described_once = refl

devel_alone : short devel ≡ codes "devel"
unfolding short full has_suffix has_commit str_eq
devel_alone = refl
