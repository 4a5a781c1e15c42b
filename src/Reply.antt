-- ===== src/Reply.antt =====
-- The replies of redis/src: the shared objects of redis.c, errors, numbers and bulk strings.
-- `out_of_memory` is no reply: an allocation failed and `zmalloc_oom` ends the server.
use coffee_table.Prelude.{ℕ, Option, List}
use coffee_table.Prelude.Int.{ℤ}
use coffee_table.Object.{Kind}

pub data Problem : Type 0 where
  wrong_type same_object no_such_key not_an_integer invalid_expire out_of_range too_long overflow
        wrong_arity bad_bit_offset bad_bit :
      Problem

pub data TypeName : Type 0 where
  no_type string_type : TypeName
  kind_type : Kind → TypeName

pub data Reply : Type 0 where
  done : Reply
  integer : ℤ → Reply
  bulk : List ℕ → Reply
  null_bulk : Reply
  multi_bulk : List (Option (List ℕ)) → Reply
  status : TypeName → Reply
  error : Problem → Reply
  out_of_memory : Reply
