-- ===== src/Pyramid/Bank/MemDb.antt =====
-- source/pyramid/abci/minibank/memdb.go: the buffered store of balances and its two wrappers. The
-- prefix store is a map of the decoded balances; it never fails, and a key that is missing has the
-- initial balance.
use urd_code.Prelude.{
  ℕ, ◌≡◌, refl, Bool, true, Option, none, some, [], ◌∷◌, arith, if◌then◌else◌, ◌==◌,
}
use urd_code.Prelude.Bytes.{Bytes, bytes_eq, bytes_eq_iff}
use urd_code.Prelude.Maps.{Map, lookup, insert, contains, lookup-insert}
use urd_code.Pyramid.Bank.Db.{Db, Laws}

abbrev pub init_balance : ℕ
init_balance = 1000000

pub record MemoryDb : Type 0 where
  pub db : Map ℕ
  pub mem_db : Map ℕ
  pub write_buffer : Map ℕ
  pub read_buffer : Map ℕ

unfoldable pub new_memory_db : Map ℕ → MemoryDb
new_memory_db db = record { db = db; mem_db = []; write_buffer = []; read_buffer = [] }

-- The branch of `Get` for a key in no buffer.
abbrev load : Bytes → MemoryDb → ℕ × MemoryDb
load key m = elim (lookup key m.db) [
  | none ↦ (init_balance, record m { read_buffer = insert key init_balance m.read_buffer })
  | some amount ↦ (
    amount,
    record m { mem_db = insert key amount m.mem_db; read_buffer = insert key amount m.read_buffer },
  )
]

abbrev recall : Bytes → MemoryDb → ℕ × MemoryDb
recall key m = elim (lookup key m.mem_db) [
  | none ↦ load key m
  | some out ↦ (out, record m { read_buffer = insert key out m.read_buffer })
]

unfoldable pub get : Bytes → MemoryDb → ℕ × MemoryDb
unfolding lookup insert
get key m = elim (lookup key m.write_buffer) [
  | some out ↦ (out, m)
  | none ↦ elim (lookup key m.read_buffer) [ some out ↦ (out, m) | none ↦ recall key m ]
]

-- `m.readBuffer[key] == 0` holds of a missing key too.
abbrev zero_read : Bytes → MemoryDb → MemoryDb
zero_read key m =
    if (elim (lookup key m.read_buffer) [ none ↦ true | some v ↦ v == 0 ])
    then record m { read_buffer = insert key 0 m.read_buffer }
    else m

unfoldable pub has : Bytes → MemoryDb → Bool × MemoryDb
unfolding lookup insert
has key m =
    if contains key m.write_buffer
    then (true, m)
    else if contains key m.mem_db
    then (true, zero_read key m)
    else (contains key m.db, m)

unfoldable pub set : Bytes → ℕ → MemoryDb → MemoryDb
unfolding insert
set key value m = record m { write_buffer = insert key value m.write_buffer }

-- `for key, value := range src { dst[key] = value }`
unfoldable pub copy_into : Map ℕ → Map ℕ → Map ℕ
unfolding insert
copy_into [] dst = dst
copy_into ((k, v) ∷ src) dst = copy_into src (insert k v dst)

unfoldable pub commit_write : Bool → MemoryDb → MemoryDb
unfolding copy_into
commit_write ok m = record m {
  mem_db = if ok then copy_into m.write_buffer m.mem_db else m.mem_db;
  write_buffer = [];
  read_buffer = [];
}

-- The batch of all entries, written at once.
unfoldable pub write : MemoryDb → MemoryDb
unfolding copy_into
write m = record m { db = copy_into m.mem_db m.db; mem_db = [] }

abbrev pub memory : Db MemoryDb
memory = record {
  get = λ k m. let (v, m') = get k m in (some v, m');
  set = λ k v m. some (set k v m);
}

-- `RangeDB`: the keys of a shard only.
module _ (search : Bytes → Bool) where
  abbrev pub ranged : Db MemoryDb
  ranged = record {
    get = λ k m. if search k then (let (v, m') = get k m in (some v, m')) else (none, m);
    set = λ k v m. if search k then some (set k v m) else none;
  }

  unfoldable pub range_has : Bytes → MemoryDb → Option Bool × MemoryDb
  unfolding has
  range_has k m = if search k then (let (b, m') = has k m in (some b, m')) else (none, m)

  unfoldable pub copy_in_range : Map ℕ → Map ℕ → Map ℕ
  unfolding insert
  copy_in_range [] dst = dst
  copy_in_range ((k, v) ∷ src) dst = copy_in_range src (if search k then insert k v dst else dst)

  unfoldable pub range_write : MemoryDb → MemoryDb
  unfolding copy_in_range
  range_write m = record m { db = copy_in_range m.mem_db m.db; mem_db = [] }

-- `CrossShardDB`: reads come from the data of the block, writes go to the buffer.
module _ (cross_shard_data : Map ℕ) where
  unfoldable pub cross_shard_get : Bytes → MemoryDb → Option ℕ
  unfolding lookup
  cross_shard_get key m = elim (lookup key m.write_buffer) [
    | some out ↦ some out
    | none ↦ lookup key cross_shard_data
  ]

  abbrev pub cross_shard : Db MemoryDb
  cross_shard = record { get = λ k m. (cross_shard_get k m, m); set = λ k v m. some (set k v m) }

  unfoldable pub cross_shard_has : Bytes → MemoryDb → Bool
  unfolding lookup
  cross_shard_has key m =
      if contains key m.write_buffer then true else contains key cross_shard_data

-- The balance that a read returns.
unfoldable pub view : MemoryDb → Bytes → ℕ
unfolding get
view m k = (get k m).0

pub get-eq-view : (k : Bytes) (m : MemoryDb) → (memory.get k m).0 ≡ some (view m k)
unfolding view
get-eq-view k m = refl

abbrev or_initial : Option ℕ → ℕ
or_initial none = init_balance
or_initial (some v) = v

pub view-get : (k j : Bytes) (m : MemoryDb) → view (memory.get k m).1 j ≡ view m j
unfolding view get
view-get k j m = ground (
  arith,
  lookup-insert k j init_balance m.read_buffer,
  lookup-insert k j (or_initial (lookup k m.mem_db)) m.read_buffer,
  lookup-insert k j (or_initial (lookup k m.db)) m.read_buffer,
  lookup-insert k j (or_initial (lookup k m.db)) m.mem_db,
  bytes_eq_iff k j,
)

pub view-set :
    (k j : Bytes) (v : ℕ) (m : MemoryDb)
    → view (set k v m) j ≡ (if bytes_eq k j then v else view m j)
unfolding view get set
view-set k j v m = ground (arith, lookup-insert k j v m.write_buffer, bytes_eq_iff k j)

-- The buffered store keeps the promises of the interface.
abbrev memory_laws : Laws memory
memory_laws = record {
  view = view;
  takes = λ k. true;
  get_view = λ k m h. get-eq-view k m;
  view_get = view-get;
  after_set = set;
  set_after = λ k v m h. refl;
  view_set = view-set;
}
