-- ===== src/Multi/Touch.antt =====
-- redis/src/multi.c: what a touched key does to the clients, and what EXEC does then.
use coffee_table.Prelude.{
  ℕ, ◌≡◌, refl, ◌∙◌, Bool, true, false, ◌||◌, List, [], ◌∷◌, if◌then◌else◌, ◌==◌, Bool-cases, inl,
  inr,
}
use coffee_table.Multi.{Client, State, has_client, mark_dirty, touch_watched_key}

pub or_true : (b : Bool) → (b || true) ≡ true
or_true true = refl
or_true false = refl

or_false : (b : Bool) → (b || false) ≡ b
or_false true = refl
or_false false = refl

module _ {K C : Type 0} where
  -- the client with REDIS_DIRTY_CAS set, if `b`
  abbrev pub dirtied : Client K C → Bool → Client K C
  dirtied x b = record x { dirty_cas = x.dirty_cas || b }

  dirtied-dirtied :
      (x : Client K C) (b : Bool) → dirtied (record x { dirty_cas = true }) b ≡ dirtied x true
  dirtied-dirtied x b = rw (or_true x.dirty_cas) refl

  mark_dirty_lem :
      (cs : List ℕ) (s : State K C)
      → ((d : ℕ) → (mark_dirty cs s).clients d ≡ dirtied (s.clients d) (has_client d cs))
        × ((mark_dirty cs s).watchers ≡ s.watchers)
  unfolding mark_dirty
  mark_dirty_lem [] s = (λ d. rw (or_false (s.clients d).dirty_cas) refl, refl)
  mark_dirty_lem (c ∷ cs) s =
      let s1 : State K C = record s {
        clients = λ e. if e == c then record (s.clients e) { dirty_cas = true } else s.clients e;
      } in
      let rest = mark_dirty_lem cs s1 in
      (
        λ d. elim (Bool-cases (d == c)) [
          | inl same ↦ rest.0 d ∙ rw same (dirtied-dirtied (s.clients d) (has_client d cs))
          | inr other ↦ rest.0 d ∙ rw other refl
        ],
        rest.1,
      )

  -- `touchWatchedKey` sets REDIS_DIRTY_CAS of exactly the clients in the key's list: a client of the
  -- list has it set, every client keeps it where it was set, and nothing else of a client changes, nor
  -- do the lists of clients.
  pub touch_watched_key_lem :
      (k : K) (s : State K C)
      → ((d : ℕ)
          → (touch_watched_key k s).clients d ≡ dirtied (s.clients d) (has_client d (s.watchers k)))
        × ((touch_watched_key k s).watchers ≡ s.watchers)
  unfolding touch_watched_key
  touch_watched_key_lem k s = mark_dirty_lem (s.watchers k) s
