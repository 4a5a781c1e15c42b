-- ===== src/Strings/SetGet.antt =====
-- redis/src/t_string.c: what GET replies after SET.
use coffee_table.Dict.KeyMap.{KeyMap}
