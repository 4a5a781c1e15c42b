-- ===== src/Sds/Range.antt =====
-- redis/src/sds.c: sdsrange keeps a range of the bytes.
use coffee_table.Prelude.{ℕ, ◌+◌, ◌-◌, ◌<◌, ◌≡◌}
use Prim.Native.Nat.{min}
use coffee_table.Sds.{Sds}

record IsRange (len f e first newlen : ℕ) : Type 0 where
  size : newlen ≡ min (e + 1) len - f
  start : 0 < newlen → first ≡ f
