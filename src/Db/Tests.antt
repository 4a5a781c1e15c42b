-- ===== src/Db/Tests.antt =====
-- The theorems on redis/src/db.c at an empty server.
use coffee_table.Prelude.{refl, none, some}
use coffee_table.Prelude.Int.{pos}
use coffee_table.Object.{Obj, string, int}
use coffee_table.Db.{Server}
use coffee_table.Db.Keys.{Becomes}
use coffee_table.Db.Updates.{set_key_lem, set_expire_lem}
use coffee_table.Db.Fixture.{number_keys, values, times, started, started-IsDb}

abbrev seven : Obj
seven = string (int (pos 7))

-- the server with a key
abbrev filled : Server values times
filled = (set_key_lem values times started (pos 100) 1 seven started-IsDb).0

filled_becomes : Becomes values times started 1 (some seven) none filled
filled_becomes = (set_key_lem values times started (pos 100) 1 seven started-IsDb).2

-- and with an expire time
abbrev mortal : Server values times
mortal =
    (set_expire_lem values times filled 1 seven (pos 150) filled_becomes.valid filled_becomes.value
      refl).0
