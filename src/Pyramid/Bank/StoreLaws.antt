-- ===== src/Pyramid/Bank/StoreLaws.antt =====
-- source/pyramid/abci/minibank/memdb.go: the wrappers RangeDB and CrossShardDB keep the promises of the
-- interface for the keys that they have.
use urd_code.Prelude.{ℕ, ◌≡◌, refl, Bool, true, none, some, arith, if◌then◌else◌}
use urd_code.Prelude.Bytes.{Bytes, bytes_eq, bytes_eq_iff}
use urd_code.Prelude.Maps.{Map, contains, lookup-insert}
use urd_code.Pyramid.Bank.Db.{Laws}
use urd_code.Pyramid.Bank.MemDb.{
  MemoryDb, set, view, view-get, view-set, get-eq-view, ranged, cross_shard, cross_shard_get,
}

pub ranged_reads :
    (search : Bytes → Bool) (k : Bytes) (m : MemoryDb)
    → search k ≡ true
    → ((ranged search).get k m).0 ≡ some (view m k)
ranged_reads search k m h = ground (arith, get-eq-view k m)

pub ranged_read_keeps :
    (search : Bytes → Bool) (k j : Bytes) (m : MemoryDb)
    → view ((ranged search).get k m).1 j ≡ view m j
ranged_read_keeps search k j m = ground (arith, view-get k j m)

pub ranged_writes :
    (search : Bytes → Bool) (k : Bytes) (v : ℕ) (m : MemoryDb)
    → search k ≡ true
    → (ranged search).set k v m ≡ some (set k v m)
ranged_writes search k v m h = ground arith

-- `RangeDB` keeps them for the keys of its shard.
abbrev pub ranged_laws : (search : Bytes → Bool) → Laws (ranged search)
ranged_laws search = record {
  view = view;
  takes = search;
  get_view = λ k m h. ranged_reads search k m h;
  view_get = λ k j m. ranged_read_keeps search k j m;
  after_set = set;
  set_after = λ k v m h. ranged_writes search k v m h;
  view_set = view-set;
}

-- The balance that `CrossShardDB` has for a key; 0 where it has none.
unfoldable cross_shard_view : Map ℕ → MemoryDb → Bytes → ℕ
unfolding cross_shard_get
cross_shard_view data_of m k = elim (cross_shard_get data_of k m) [ none ↦ 0 | some v ↦ v ]

cross_shard_get-eq-view :
    (data_of : Map ℕ) (k : Bytes) (m : MemoryDb)
    → contains k data_of ≡ true
    → cross_shard_get data_of k m ≡ some (cross_shard_view data_of m k)
unfolding cross_shard_view cross_shard_get
cross_shard_get-eq-view data_of k m h = ground arith

cross_shard_view-set :
    (data_of : Map ℕ) (k j : Bytes) (v : ℕ) (m : MemoryDb)
    → cross_shard_view data_of (set k v m) j
      ≡ (if bytes_eq k j then v else cross_shard_view data_of m j)
unfolding cross_shard_view cross_shard_get set
cross_shard_view-set data_of k j v m =
    ground (arith, lookup-insert k j v m.write_buffer, bytes_eq_iff k j)

-- `CrossShardDB` keeps them for the keys of the data of its block.
abbrev cross_shard_laws : (data_of : Map ℕ) → Laws (cross_shard data_of)
cross_shard_laws data_of = record {
  view = cross_shard_view data_of;
  takes = λ k. contains k data_of;
  get_view = λ k m h. cross_shard_get-eq-view data_of k m h;
  view_get = λ k j m. refl;
  after_set = set;
  set_after = λ k v m h. refl;
  view_set = λ k j v m. cross_shard_view-set data_of k j v m;
}
