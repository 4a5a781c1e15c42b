-- ===== src/Dict/Client.antt =====
-- Any sequence of calls of redis/src/dict.c, against a map from keys to values.
use coffee_table.Prelude.{
  is_some, ℕ, ◌+◌, ◌<◌, ◌≤◌, ◌^◌, arith, length, ◌≡◌, refl, ap, sym, ◌∙◌, Bool, true, false, Option,
  none, some, List, [], ◌∷◌, inl, inr, Bool-cases, Option-cases, if◌then◌else◌, ◌>>=◌, not, ◌||◌,
}
use coffee_table.Dict.{Dict, rehash, resize, is_rehashing, minimal_of}
use coffee_table.Dict.Access.{size, add, replace, delete, fetch_value}
use coffee_table.Dict.Bucket.{KeyType}
use coffee_table.Dict.Invariant.{IsDict, IsSmall, lookup}
use coffee_table.Dict.Rehash.{Keeps}
use coffee_table.Dict.Steps.{Keeps-refl, rehashed}
use coffee_table.Dict.Expand.{minimal-lt, expanded}
use coffee_table.Dict.Add.{add-absent, add-present}
use coffee_table.Dict.Fetch.{fetch_value_lem}
use coffee_table.Dict.Replace.{replaced}
use coffee_table.Dict.Delete.{deleted}

-- The calls, and what they answer. How far a rehashing got is no part of the answer.
pub data Op {ℓ} (K V : Type ℓ) : Type ℓ where
  insert : K → V → Op K V
  put : K → V → Op K V
  remove : K → Op K V
  get : K → Op K V
  work : ℕ → Op K V
  shrink : Op K V

pub data Answer {ℓ} (V : Type ℓ) : Type ℓ where
  flag : Bool → Answer V
  value : Option V → Answer V
  silent : Answer V

-- a map from keys to values
abbrev pub Map {ℓ} : Type ℓ → Type ℓ → Type ℓ
Map K V = K → Option V

module _ {ℓ} {K V : Type ℓ} ⦃type : KeyType K⦄ where
  unfoldable pub step : Bool → Op K V → Dict K V → Option (Answer V × Dict K V)
  unfolding add replace delete fetch_value rehash resize
  step can_resize (insert k v) d = do (b, d') ← add can_resize d k v; some (flag b, d')
  step can_resize (put k v) d = do (b, d') ← replace can_resize d k v; some (flag b, d')
  step can_resize (remove k) d = do (b, d') ← delete d k; some (flag b, d')
  step can_resize (get k) d = do (x, d') ← fetch_value d k; some (value x, d')
  step can_resize (work n) d = do (b, d') ← rehash n d; some (silent, d')
  step can_resize shrink d = do (b, d') ← resize can_resize d; some (silent, d')

  unfoldable pub run : Bool → List (Op K V) → Dict K V → Option (List (Answer V) × Dict K V)
  unfolding step
  run can_resize [] d = some ([], d)
  run can_resize (op ∷ ops) d = do
    (a, d1) ← step can_resize op d
    (rest, d2) ← run can_resize ops d1
    some (a ∷ rest, d2)

  -- what each call does to a map
  unfoldable pub update : Map K V → K → Option V → Map K V
  update m k x q = if type.compare q k then x else m q

  unfoldable pub map_step : Op K V → Map K V → Answer V × Map K V
  unfolding update
  map_step (insert k v) m =
      if is_some (m k) then (flag false, m) else (flag true, update m k (some v))
  map_step (put k v) m = (flag (not (is_some (m k))), update m k (some v))
  map_step (remove k) m = (flag (is_some (m k)), update m k none)
  map_step (get k) m = (value (m k), m)
  map_step (work n) m = (silent, m)
  map_step shrink m = (silent, m)

  unfoldable pub map_run : List (Op K V) → Map K V → List (Answer V)
  unfolding map_step
  map_run [] m = []
  map_run (op ∷ ops) m = let (a, m') = map_step op m in a ∷ map_run ops m'

  abbrev Refines : Dict K V → Map K V → Type ℓ
  Refines d m = IsDict d × ((q : K) → lookup d q ≡ m q)

  abbrev Steps : Bool → Op K V → Dict K V → Map K V → Type ℓ
  Steps c op d m =
      (d' : Dict K V) × (step c op d ≡ some ((map_step op m).0, d'))
      × Refines d' (map_step op m).1
      × IsSmall d'
      × (size d' ≤ size d + 1)

  module _ (c : Bool) (d : Dict K V) (m : Map K V) (ok : IsDict d) (small : IsSmall d)
      (room : size d < 2 ^ 29) (reads : (q : K) → lookup d q ≡ m q) where
    kept : (d' : Dict K V) → Keeps d d' → Refines d' m
    kept d' keeps = (keeps.valid, λ q. keeps.same q ∙ reads q)

    insert_refines : (k : K) (v : V) → Steps c (insert k v) d m
    unfolding step map_step update
    insert_refines k v = elim (Option-cases (lookup d k)) [
      | inl absent ↦
          let (d', run, adds) = add-absent c d k v ok small room absent in
          let e = sym (reads k) ∙ absent in
          (
            d',
            rw (run, e),
            rw e (
              adds.valid,
              λ q. adds.lookups q ∙ ap (λ x. if type.compare q k then some v else x) (reads q),
            ),
            adds.small small,
            omega (arith, adds.grows),
          )
      | inr (w, there) ↦
          let (d', run, keeps, pos, small') = add-present c d k v ok small room w there in
          let e = sym (reads k) ∙ there in
          (d', rw (run, e), rw e (kept d' keeps), small', omega (arith, keeps.size))
    ]

    put_refines : (k : K) (v : V) → Steps c (put k v) d m
    unfolding step map_step update
    put_refines k v =
        let r = replaced c d k v ok small room in
        (
          r.d',
          rw (r.run, r.answer, reads k),
          (
            r.change.valid,
            λ q. r.change.lookups q ∙ ap (λ x. if type.compare q k then some v else x) (reads q),
          ),
          r.change.small small,
          ground (arith, r.sized),
        )

    remove_refines : (k : K) → Steps c (remove k) d m
    unfolding step map_step update
    remove_refines k =
        let r = deleted d k ok small in
        (
          r.d',
          rw (r.run, r.answer, reads k),
          (
            r.change.valid,
            λ q. r.change.lookups q ∙ ap (λ x. if type.compare q k then none else x) (reads q),
          ),
          r.change.small small,
          ground (arith, r.sized),
        )

    get_refines : (k : K) → Steps c (get k) d m
    unfolding step map_step
    get_refines k =
        let (d', run, keeps, small') = fetch_value_lem d k ok small in
        (d', rw (run, reads k), kept d' keeps, small', omega (arith, keeps.size))

    work_refines : (n : ℕ) → Steps c (work n) d m
    unfolding step map_step
    work_refines n =
        let r = rehashed n d ok small in
        (r.d', rw r.run, kept r.d' r.keeps, r.small, omega (arith, r.keeps.size))

    shrink_refines : Steps c shrink d m
    unfolding step map_step resize
    shrink_refines =
        let r = expanded d (minimal_of d.ht0.used) ok in
        elim (Bool-cases (not c || is_rehashing d)) [
          | inl refused ↦ (d, rw refused, kept d (Keeps-refl d ok), small, omega arith)
          | inr allowed ↦ (
            r.d',
            rw (allowed, r.run),
            kept r.d' r.keeps,
            r.small (minimal-lt d.ht0.used (omega arith)) small,
            omega (arith, r.keeps.size),
          )
        ]

  step_refines :
      (c : Bool) (op : Op K V) (d : Dict K V) (m : Map K V)
      → IsDict d
      → IsSmall d
      → size d < 2 ^ 29
      → ((q : K) → lookup d q ≡ m q)
      → Steps c op d m
  step_refines c (insert k v) d m ok small room reads = insert_refines c d m ok small room reads k v
  step_refines c (put k v) d m ok small room reads = put_refines c d m ok small room reads k v
  step_refines c (remove k) d m ok small room reads = remove_refines c d m ok small room reads k
  step_refines c (get k) d m ok small room reads = get_refines c d m ok small room reads k
  step_refines c (work n) d m ok small room reads = work_refines c d m ok small room reads n
  step_refines c shrink d m ok small room reads = shrink_refines c d m ok small room reads

  -- From a valid dictionary whose tables have fewer than 2 ^ 31 buckets, and with fewer than 2 ^ 29 entries
  -- and calls together, no sequence of dictAdd, dictReplace, dictDelete, dictFind, dictRehash and
  -- dictResize reads outside a table, fails an assert or lets an int leave its range, and the answers are
  -- those of the map that the dictionary stands for. Such a dictionary is left.
  pub run_refines :
      (can_resize : Bool) (ops : List (Op K V)) (d : Dict K V) (m : Map K V)
      → IsDict d
      → IsSmall d
      → size d + length ops < 2 ^ 29
      → ((q : K) → lookup d q ≡ m q)
      → (d' : Dict K V) × (run can_resize ops d ≡ some (map_run ops m, d')) × IsDict d' × IsSmall d'
  unfolding run map_run
  run_refines c [] d m ok small room reads = (d, refl, ok, small)
  run_refines c (op ∷ ops) d m ok small room reads =
      let (d1, run1, (ok1, reads1), small1, grown) =
        step_refines c op d m ok small (omega arith) reads in
      let (d2, run2, ok2, small2) =
        run_refines c ops d1 (map_step op m).1 ok1 small1 (omega arith) reads1 in
      (d2, rw (run1, run2), ok2, small2)
