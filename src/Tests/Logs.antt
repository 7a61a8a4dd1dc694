-- ===== src/Tests/Logs.antt =====
-- The logging of src/iw_log.c on one device.
use insta_works.Base.{◌≡◌, refl, true, false, none, some, [], ◌∷◌, replicate}
use insta_works.Log.{Log, null, set_level, dev_change}
use insta_works.Log.Device.{Streams, IsOpen, SetsLevel, set_level-SetsLevel}

abbrev fresh : Log
fresh = record {
  dev = null;
  fd = none;
  level = 0;
  levels = replicate 32 none;
  files = [];
  next_file = 3;
  initialized = false;
}

fresh-IsOpen : IsOpen fresh
unfolding Streams
fresh-IsOpen = refl

changed : dev_change (some (97 ∷ [])) null ≡ some true
unfolding dev_change
changed = refl

set_level-SetsLevel_example :
    SetsLevel fresh 1 (set_level (λ d. true) true fresh (some (97 ∷ [])) 1)
set_level-SetsLevel_example =
    set_level-SetsLevel (λ d. true) fresh 1 fresh-IsOpen (some (97 ∷ [])) true changed
