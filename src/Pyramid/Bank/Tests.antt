-- ===== src/Pyramid/Bank/Tests.antt =====
-- Runs of source/pyramid/abci/minibank: three accounts with the initial balance.
use urd_code.Prelude.{
  ℕ, ◌+◌, ◌%◌, ◌^◌, ◌≡◌, refl, Bool, true, false, ◌&&◌, none, some, Option, [], ◌∷◌, if◌then◌else◌,
  ltb,
}
use urd_code.Prelude.Bytes.{Bytes, bytes_eq}
use urd_code.Prelude.Maps.{Map, lookup, contains}
use urd_code.Pyramid.Bank.MemDb.{MemoryDb, new_memory_db, get, set, memory, ranged, view}
use urd_code.Pyramid.Bank.StoreLaws.{ranged_laws}
use urd_code.Pyramid.Bank.Transfer.{TransferTx, locked, store_error, do_transfer}
use urd_code.Pyramid.Bank.Conserve.{total, all_taken, are_distinct, are_apart}
use urd_code.Pyramid.Bank.Atomic.{do_transfer-conserves}
use urd_code.Pyramid.Bank.Rollback.{IsClean, range_db, db_of, after_tx, execute-is_atomic}
use urd_code.Pyramid.Bank.Locks.{execute}
use urd_code.Pyramid.Bank.Blocks.{Env, release_keys}
use urd_code.Pyramid.Bank.LockLaws.{release_keys-writes, taken}

abbrev alice : Bytes
alice = 1 ∷ []

abbrev bob : Bytes
bob = 2 ∷ []

abbrev carol : Bytes
carol = 3 ∷ []

abbrev pay : TransferTx
pay = record {
  from = alice ∷ [];
  from_money = 30 ∷ [];
  to = bob ∷ carol ∷ [];
  to_money = 10 ∷ 20 ∷ [];
}

abbrev start : MemoryDb
start = new_memory_db []

abbrev no_locks : Map ℕ
no_locks = []

abbrev carol_locked : Map ℕ
carol_locked = (carol, 5) ∷ []

refused : (do_transfer memory carol_locked pay start).0 ≡ some locked
unfolding do_transfer new_memory_db bytes_eq get set
refused = refl

-- A sender that is a receiver too gains what it sends.
self_pay : TransferTx
self_pay = record { from = alice ∷ []; from_money = 30 ∷ []; to = alice ∷ []; to_money = 30 ∷ [] }

test_self_transfer : view (do_transfer memory no_locks self_pay start).1 alice ≡ 1000030
unfolding view do_transfer self_pay new_memory_db bytes_eq set
test_self_transfer = refl

-- The accounts below 3 are those of the shard.
abbrev first_byte_below : ℕ → Bytes → Bool
first_byte_below n [] = false
first_byte_below n (b ∷ _) = ltb b n

-- A shard that has all three keys.
abbrev below_4 : Bytes → Bool
below_4 = first_byte_below 4

pays : (do_transfer (ranged below_4) no_locks pay start).0 ≡ none
unfolding do_transfer new_memory_db bytes_eq get set
pays = refl

do_transfer-conserves_example :
    (total (view (do_transfer (ranged below_4) no_locks pay start).1) (alice ∷ [])
        + total (view (do_transfer (ranged below_4) no_locks pay start).1) (bob ∷ carol ∷ []))
      % 2 ^ 32
    ≡ (total (view start) (alice ∷ []) + total (view start) (bob ∷ carol ∷ [])) % 2 ^ 32
unfolding are_distinct are_apart bytes_eq all_taken
do_transfer-conserves_example =
    do_transfer-conserves (ranged below_4) (ranged_laws below_4) no_locks pay start refl refl refl
      refl refl pays

-- The third key is out of the shard's range, so its write is refused when two went through.
abbrev half_way : Bytes
half_way = 12 ∷ 0 ∷ 0 ∷ 0 ∷ []

abbrev decoded : Bytes → Option TransferTx
decoded bz = some pay

refused_write :
    (execute decoded (db_of (range_db (first_byte_below 3))) no_locks half_way start).0
    ≡ some store_error
unfolding execute do_transfer new_memory_db bytes_eq set get
refused_write = refl

test_half_way :
    view (execute decoded (db_of (range_db (first_byte_below 3))) no_locks half_way start).1 alice
    ≡ 999970
unfolding execute do_transfer new_memory_db bytes_eq set get view
test_half_way = refl

start-IsClean : IsClean start
unfolding new_memory_db
start-IsClean = (refl, refl)

execute-is_atomic_example :
    (view (after_tx decoded (db_of (range_db (first_byte_below 3))) no_locks half_way start) alice
      ≡ view start alice)
    × IsClean (after_tx decoded (db_of (range_db (first_byte_below 3))) no_locks half_way start)
execute-is_atomic_example =
    execute-is_atomic decoded (range_db (first_byte_below 3)) no_locks half_way start alice
      start-IsClean (λ e. cc (refused_write, e))

abbrev env : Env
env = record {
  decode = λ bz. none;
  decode_data = λ bz. none;
  encode_data = λ m ok. [];
  search = λ chain k. first_byte_below 3 k;
  search_all = first_byte_below 3;
  block_by_hash = λ bz. none;
}

abbrev write_set : Map Bool
write_set = (alice, true) ∷ (bob, true) ∷ (carol, true) ∷ []

abbrev two_locked : Map ℕ
two_locked = (alice, 7) ∷ (carol, 5) ∷ []

release_keys-writes_example :
    (lookup alice (release_keys env [] write_set [] two_locked).1 ≡ (
      if contains alice write_set && first_byte_below 3 alice
      then none
      else lookup alice two_locked))
    × (lookup alice (release_keys env [] write_set [] two_locked).0
        ≡ taken
            (contains alice write_set && first_byte_below 3 alice)
            (lookup alice two_locked)
            (lookup alice []))
release_keys-writes_example = release_keys-writes env [] write_set [] two_locked alice
