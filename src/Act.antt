-- ===== src/Act.antt =====
-- Actions on a state, for the commands of redis/src: they change it, and `none` aborts the server.
use coffee_table.Prelude.{Bool, true, false, Option, none, some}

abbrev pub Act {ℓ} : Type ℓ → Type ℓ → Type ℓ
Act S A = S → Option (A × S)

abbrev pub continue {ℓ} : {S A B : Type ℓ} → Option (A × S) → (A → Act S B) → Option (B × S)
continue none f = none
continue (some (a, s)) f = f a s

infixl 5 ◌>>=◌ ◌>>◌
abbrev pub ◌>>=◌ {ℓ} : {S A B : Type ℓ} → Act S A → (A → Act S B) → Act S B
◌>>=◌ m f s = continue (m s) f

abbrev pub ◌>>◌ {ℓ} : {S A B : Type ℓ} → Act S A → Act S B → Act S B
m >> k = m >>= λ _. k

abbrev pub pure {ℓ} : {S A : Type ℓ} → A → Act S A
pure a s = some (a, s)

-- `redisAssert`
abbrev pub assert {ℓ} : {S : Type ℓ} → Bool → Act S (Unit {ℓ})
assert true s = some (tt, s)
assert false s = none

abbrev pub modify {ℓ} : {S : Type ℓ} → (S → S) → Act S (Unit {ℓ})
modify f s = some (tt, f s)

-- an answer that does not change the state, or an abort
abbrev pub with_state {ℓ} : {S A : Type ℓ} → Option A → Act S A
with_state none s = none
with_state (some a) s = some (a, s)

abbrev pub when_true {ℓ} : {S : Type ℓ} → Bool → Act S (Unit {ℓ}) → Act S (Unit {ℓ})
when_true true m = m
when_true false m = pure tt
