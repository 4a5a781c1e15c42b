-- ===== src/Dict/Table.antt =====
-- One table of a dictionary (`dictht` of redis/src/dict.h): where its entries stand, what it maps a
-- key to, and what a write to one bucket changes.
use coffee_table.Prelude.{
  ℕ, ◌+◌, ◌-◌, ◌<◌, ◌≡◌, ◌≢◌, refl, ap, ◌∙◌, true, false, Option, none, some, [], arith, length,
  get_elem?, get_or, set, if◌then◌else◌, ◌==◌, total, total-set, total-replicate, get_or-set,
  get_or-replicate, get_elem?-eq-get_or, length-set, length-replicate,
}
use coffee_table.Prelude.Bits.{bit_and-le}
use coffee_table.Dict.{Dictht, slot, reset, fresh_table}
use coffee_table.Dict.Bucket.{Chain, KeyType, find, entries}

module _ {ℓ} {K V : Type ℓ} ⦃type : KeyType K⦄ where
  abbrev pub bucket : Dictht K V → ℕ → Chain K V
  bucket t i = get_or t.table i []

  abbrev pub home : Dictht K V → K → Chain K V
  home t q = bucket t (slot t q)

  -- the value under a key, and how many entries have the key
  abbrev pub view : Dictht K V → K → Option V
  view t q = find q (home t q)

  abbrev pub tally : Dictht K V → K → ℕ
  tally t q = entries q (home t q)

  pub record IsTable (t : Dictht K V) : Type ℓ where
    pub width : length t.table ≡ t.size
    pub mask : t.sizemask ≡ t.size - 1
    pub counted : t.used ≡ total t.table
    pub placed : (q : K) (i : ℕ) → i ≢ slot t q → entries q (bucket t i) ≡ 0

  pub slot-lt : (t : Dictht K V) (q : K) → IsTable t → 0 < t.size → slot t q < length t.table
  slot-lt t q ok h = omega (arith, ok.width, ok.mask, bit_and-le (type.hash q) t.sizemask)

  pub slot_congr : (t : Dictht K V) (q k : K) → type.compare q k ≡ true → slot t q ≡ slot t k
  slot_congr t q k h = ap (slot t) ((type.compare_iff q k).0 h)

  pub get_home :
      (t : Dictht K V) (q : K)
      → IsTable t
      → 0 < t.size
      → get_elem? t.table (slot t q) ≡ some (home t q)
  get_home t q ok h = get_elem?-eq-get_or t.table (slot t q) [] (slot-lt t q ok h)

  pub reset-IsTable : IsTable reset
  unfolding total entries
  reset-IsTable = record { width = refl; mask = refl; counted = refl; placed = λ q i h. refl }

  pub fresh_table-IsTable : (n : ℕ) → IsTable (fresh_table n)
  unfolding entries
  fresh_table-IsTable n = record {
    width = length-replicate n [];
    mask = refl;
    counted = omega (arith, total-replicate (K × V) n);
    placed = λ q i h. rw get_or-replicate;
  }

  pub fresh_table_empty :
      (n : ℕ) (q : K) → (view (fresh_table n) q ≡ none) × (tally (fresh_table n) q ≡ 0)
  unfolding find entries
  fresh_table_empty n q = (rw get_or-replicate, rw get_or-replicate)

  -- The bucket of `k` replaced by `c`.
  abbrev pub write_home : Dictht K V → K → Chain K V → ℕ → Dictht K V
  write_home t k c used = record t { table = set t.table (slot t k) c; used = used }

  module _ (t : Dictht K V) (ok : IsTable t) (pos : 0 < t.size) (k : K) (c : Chain K V) (u : ℕ)
      (others : (q : K) → type.compare q k ≡ false → entries q c ≡ entries q (home t k)) where
    read_written :
        (i : ℕ) → get_or (set t.table (slot t k) c) i [] ≡ (if slot t k == i then c else bucket t i)
    read_written i = get_or-set t.table (slot t k) i c [] (slot-lt t k ok pos)

    pub write_home-placed :
        (q : K) (i : ℕ) → i ≢ slot t q → entries q (bucket (write_home t k c u) i) ≡ 0
    write_home-placed q i h =
        rw (read_written i) (ground (arith, ok.placed q i, slot_congr t q k, others q))

    pub write_home-IsTable :
        u + length (home t k) ≡ t.used + length c → IsTable (write_home t k c u)
    write_home-IsTable size = record {
      width = length-set t.table (slot t k) c ∙ ok.width;
      mask = ok.mask;
      counted = omega (arith, ok.counted, total-set t.table (slot t k) c (slot-lt t k ok pos));
      placed = write_home-placed;
    }

    pub tally-write_home :
        (q : K)
        → tally (write_home t k c u) q ≡ (if type.compare q k then entries q c else tally t q)
    tally-write_home q = rw (read_written (slot t q)) (ground (arith, slot_congr t q k, others q))

    pub view-write_home :
        (x : Option V)
        → ((q : K) → find q c ≡ (if type.compare q k then x else find q (home t k)))
        → (q : K) → view (write_home t k c u) q ≡ (if type.compare q k then x else view t q)
    view-write_home x reads q =
        rw (read_written (slot t q)) (ground (arith, slot_congr t q k, reads q))
