-- ===== src/Pyramid/Bank/Db.antt =====
-- The interface `GetSetMemDB` of source/pyramid/abci/minibank/memdb.go, as the operations that
-- `doTransfer` calls, and what a store behind it promises of them.
use urd_code.Prelude.{ℕ, ◌≡◌, Bool, true, Option, some, if◌then◌else◌}
use urd_code.Prelude.Bytes.{Bytes, bytes_eq}

-- `none` stands for the error. The state comes back beside it: reads are buffered.
pub record Db (S : Type 0) : Type 0 where
  pub get : Bytes → S → Option ℕ × S
  pub set : Bytes → ℕ → S → Option S

-- What a store promises for the keys that it takes: reads return the balance that is seen, and writes
-- go through and change the one of their key. A read changes no balance, of whatever key.
pub record Laws {S : Type 0} (db : Db S) : Type 0 where
  pub view : S → Bytes → ℕ
  pub takes : Bytes → Bool
  pub get_view : (k : Bytes) (s : S) → takes k ≡ true → (db.get k s).0 ≡ some (view s k)
  pub view_get : (k j : Bytes) (s : S) → view (db.get k s).1 j ≡ view s j
  pub after_set : Bytes → ℕ → S → S
  pub set_after :
      (k : Bytes) (v : ℕ) (s : S) → takes k ≡ true → db.set k v s ≡ some (after_set k v s)
  pub view_set :
      (k j : Bytes) (v : ℕ) (s : S)
      → view (after_set k v s) j ≡ (if bytes_eq k j then v else view s j)
