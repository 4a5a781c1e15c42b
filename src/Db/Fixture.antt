-- ===== src/Db/Fixture.antt =====
-- An empty server with numbers as keys, over maps that are functions.
use coffee_table.Prelude.{ℕ, ◌%◌, ◌^◌, sym, ◌∙◌, false, none, some, [], ◌==◌, ==_iff, none≢some}
use coffee_table.Prelude.Int.{ℤ, pos}
use coffee_table.Dict.Bucket.{KeyType}
use coffee_table.Dict.KeyMap.{KeyMap, function_map}
use coffee_table.Object.{Obj, Libc}
use coffee_table.Util.{string2ll}
use coffee_table.Db.{Server}
use coffee_table.Db.Expiry.{IsDb}

instance abbrev pub number_keys : KeyType ℕ
number_keys = record { hash = λ k. k % 2 ^ 32; compare = ◌==◌; compare_iff = ==_iff }

abbrev pub values : KeyMap ℕ Obj
values = function_map

abbrev pub times : KeyMap ℕ ℤ
times = function_map

abbrev pub started : Server values times
started = record {
  dict = values.empty;
  expires = times.empty;
  dirty = 0;
  stat_expiredkeys = 0;
  stat_keyspace_hits = 0;
  stat_keyspace_misses = 0;
  modified = [];
  propagated = [];
  loading = false;
  is_slave = false;
}

pub started-IsDb : IsDb values times started
started-IsDb = record {
  owned = λ q h. times.look-empty q;
  positive = λ q t h. absurd (none≢some (sym (times.look-empty q) ∙ h));
}

-- a `strtoll` that reads what `string2ll` accepts
abbrev pub libc : Libc
libc = record {
  strtoll = λ s. elim (string2ll s) [ none ↦ (pos 0, s, false) | some v ↦ (v, [], false) ];
  is_space = λ c. c == 32;
}
