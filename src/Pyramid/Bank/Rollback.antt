-- ===== src/Pyramid/Bank/Rollback.antt =====
-- source/pyramid/abci/minibank/application.go: what is left of a transaction that fails, over the two
-- stores that transactions run on, RangeDB and CrossShardDB, once `CommitWrite` drops its writes.
use urd_code.Prelude.{
  ◌⊎◌, inl, inr, ℕ, ◌≡◌, ◌≢◌, refl, ap, ◌∙◌, Bool, false, Option, none, some, List, [], ◌∷◌, arith,
  drop, Option-cases,
}
use urd_code.Prelude.Bytes.{Bytes, bytes_eq_iff}
use urd_code.Prelude.Maps.{Map, lookup, lookup-insert}
use urd_code.Pyramid.Bank.Db.{Db}
use urd_code.Pyramid.Bank.MemDb.{
  MemoryDb, init_balance, get, set, commit_write, view, ranged, cross_shard,
}
use urd_code.Pyramid.Bank.Transfer.{
  TransferTx, TxError, Outcome, done, fails, read_from, read_to, write_all, write_both, after_from,
  do_transfer,
}
use urd_code.Pyramid.Bank.Locks.{execute}
use urd_code.Pyramid.Bank.Blocks.{is_none}

-- No write and no read is buffered, as `CommitWrite` leaves a store.
abbrev pub IsClean : MemoryDb → Type 0
IsClean m = (m.write_buffer ≡ []) × (m.read_buffer ≡ [])

-- The balance that is read once the buffers are dropped.
unfoldable committed : MemoryDb → Bytes → ℕ
unfolding view commit_write
committed m k = view (commit_write false m) k

abbrev or_initial : Option ℕ → ℕ
or_initial none = init_balance
or_initial (some v) = v

committed-get : (k j : Bytes) (m : MemoryDb) → committed (get k m).1 j ≡ committed m j
unfolding committed view commit_write get
committed-get k j m =
    ground (arith, lookup-insert k j (or_initial (lookup k m.db)) m.mem_db, bytes_eq_iff k j)

committed-set : (k j : Bytes) (v : ℕ) (m : MemoryDb) → committed (set k v m) j ≡ committed m j
unfolding committed view commit_write set get
committed-set k j v m = refl

shown : (m : MemoryDb) (j : Bytes) → view (commit_write false m) j ≡ committed m j
unfolding committed
shown m j = refl

outcome_cases :
    (r : Outcome (List ℕ)) → ((e : TxError) × (r ≡ fails e)) ⊎ ((bs : List ℕ) × (r ≡ done bs))
outcome_cases (fails e) = inl (e, refl)
outcome_cases (done bs) = inr (bs, refl)

-- The operations of a store leave the committed balances.
abbrev Keeps : Db MemoryDb → Type 0
Keeps db =
    ((k j : Bytes) (m : MemoryDb) → committed (db.get k m).1 j ≡ committed m j)
    × ((k j : Bytes) (v : ℕ) (m m' : MemoryDb)
        → db.set k v m ≡ some m'
        → committed m' j ≡ committed m j)

ranged-Keeps : (search : Bytes → Bool) → Keeps (ranged search)
ranged-Keeps search = (
  λ k j m. ground (arith, committed-get k j m),
  λ k j v m m' e. ground (arith, committed-set k j v m),
)

cross_shard-Keeps : (data_of : Map ℕ) → Keeps (cross_shard data_of)
cross_shard-Keeps data_of = (λ k j m. refl, λ k j v m m' e. ground (arith, committed-set k j v m))

module _ (db : Db MemoryDb) (keeps : Keeps db) (locked_keys : Map ℕ) where
  read_from-committed :
      (ks : List Bytes) (ms : List ℕ) (m : MemoryDb) (j : Bytes)
      → committed (read_from db locked_keys ks ms m).1 j ≡ committed m j
  unfolding read_from lookup
  read_from-committed [] ms m j = refl
  read_from-committed (k ∷ ks) [] m j = refl
  read_from-committed (k ∷ ks) (x ∷ ms) m j =
      ground (arith, keeps.0 k j m, read_from-committed ks ms (db.get k m).1 j)

  read_to-committed :
      (ks : List Bytes) (ms : List ℕ) (m : MemoryDb) (j : Bytes)
      → committed (read_to db locked_keys ks ms m).1 j ≡ committed m j
  unfolding read_to lookup
  read_to-committed [] ms m j = refl
  read_to-committed (k ∷ ks) [] m j = refl
  read_to-committed (k ∷ ks) (x ∷ ms) m j =
      ground (arith, keeps.0 k j m, read_to-committed ks ms (db.get k m).1 j)

  -- Also where a write in the middle fails.
  write_all-committed :
      (ks : List Bytes) (bs : List ℕ) (m : MemoryDb) (j : Bytes)
      → committed (write_all db locked_keys ks bs m).1 j ≡ committed m j
  unfolding write_all lookup
  write_all-committed [] bs m j = refl
  write_all-committed (k ∷ ks) [] m j = refl
  write_all-committed (k ∷ ks) (b ∷ bs) m j = elim (Option-cases (db.set k b m)) [
    | inl e ↦ ground arith
    | inr (m', e) ↦ ground (arith, keeps.1 k j b m m' e, write_all-committed ks bs m' j)
  ]

  write_both-committed :
      (tx : TransferTx) (bs cs : List ℕ) (m : MemoryDb) (j : Bytes)
      → committed (write_both db locked_keys tx bs cs m).1 j ≡ committed m j
  write_both-committed tx bs cs m j = ground (
    arith,
    write_all-committed tx.from bs m j,
    write_all-committed tx.to cs (write_all db locked_keys tx.from bs m).1 j,
  )

  after_from-committed :
      (tx : TransferTx) (r : Outcome (List ℕ)) (m : MemoryDb) (j : Bytes)
      → committed (after_from db locked_keys tx r m).1 j ≡ committed m j
  after_from-committed tx (fails e) m j = refl
  after_from-committed tx (done bs) m j =
      let m1 = (read_to db locked_keys tx.to tx.to_money m).1 in
      let before = read_to-committed tx.to tx.to_money m j in
      elim (outcome_cases (read_to db locked_keys tx.to tx.to_money m).0) [
        | inl (e, q) ↦ ground arith
        | inr (cs, q) ↦ ground (arith, write_both-committed tx bs cs m1 j)
      ]

  do_transfer-committed :
      (tx : TransferTx) (m : MemoryDb) (j : Bytes)
      → committed (do_transfer db locked_keys tx m).1 j ≡ committed m j
  unfolding do_transfer
  do_transfer-committed tx m j =
      let (r, m1) = read_from db locked_keys tx.from tx.from_money m in
      ground (arith, read_from-committed tx.from tx.from_money m j, after_from-committed tx r m1 j)

  module _ (decode : Bytes → Option TransferTx) where
    execute-committed :
        (tx : Bytes) (m : MemoryDb) (j : Bytes)
        → committed (execute decode db locked_keys tx m).1 j ≡ committed m j
    unfolding execute
    execute-committed tx m j = elim (Option-cases (decode (drop 4 tx))) [
      | inl e ↦ ground arith
      | inr (t, e) ↦ ground (arith, do_transfer-committed t m j)
    ]

committed-eq-view : (m : MemoryDb) (j : Bytes) → IsClean m → committed m j ≡ view m j
unfolding committed view commit_write get
committed-eq-view m j clean = ground arith

-- What the body of the loops over the transactions of a block leaves of the store.
abbrev pub after_tx :
    (Bytes → Option TransferTx) → Db MemoryDb → Map ℕ → Bytes → MemoryDb → MemoryDb
after_tx decode db locked_keys tx m =
    let (e, m') = execute decode db locked_keys tx m in commit_write (is_none e) m'

failed_tx :
    (decode : Bytes → Option TransferTx) (db : Db MemoryDb) (locked_keys : Map ℕ) (tx : Bytes)
    (m : MemoryDb) (j : Bytes)
    → Keeps db
    → IsClean m
    → (execute decode db locked_keys tx m).0 ≢ none
    → view (after_tx decode db locked_keys tx m) j ≡ view m j
failed_tx decode db locked_keys tx m j keeps clean h =
    let e = execute-committed db keeps locked_keys decode tx m j in
    elim (Option-cases (execute decode db locked_keys tx m).0) [
      | inl q ↦ absurd (h q)
      | inr (err, q) ↦
          ap (λ o. view (commit_write (is_none o) (execute decode db locked_keys tx m).1) j) q
          ∙ shown (execute decode db locked_keys tx m).1 j
          ∙ e
          ∙ committed-eq-view m j clean
    ]

-- The stores that transactions run on: that of a shard's keys, and that of a block between shards.
pub data Store : Type 0 where
  range_db : (Bytes → Bool) → Store
  cross_shard_db : Map ℕ → Store

abbrev pub db_of : Store → Db MemoryDb
db_of (range_db search) = ranged search
db_of (cross_shard_db data_of) = cross_shard data_of

db_of-Keeps : (store : Store) → Keeps (db_of store)
db_of-Keeps (range_db search) = ranged-Keeps search
db_of-Keeps (cross_shard_db data_of) = cross_shard-Keeps data_of

-- A transaction that fails, over either store with empty buffers, leaves every balance as it was and
-- the buffers empty, once `CommitWrite` was told of the error: also where a write is refused after
-- others went through, as for a receiver out of the shard's range.
pub execute-is_atomic :
    (decode : Bytes → Option TransferTx) (store : Store) (locked_keys : Map ℕ) (tx : Bytes)
    (m : MemoryDb) (j : Bytes)
    → IsClean m
    → (execute decode (db_of store) locked_keys tx m).0 ≢ none
    → (view (after_tx decode (db_of store) locked_keys tx m) j ≡ view m j)
      × IsClean (after_tx decode (db_of store) locked_keys tx m)
unfolding commit_write
execute-is_atomic decode store locked_keys tx m j clean h =
    (failed_tx decode (db_of store) locked_keys tx m j (db_of-Keeps store) clean h, (refl, refl))
