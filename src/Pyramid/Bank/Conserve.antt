-- ===== src/Pyramid/Bank/Conserve.antt =====
-- source/pyramid/abci/minibank/application.go: lemmas on the loops of `doTransfer`, over any store
-- that keeps the promises of the interface.
use urd_code.Prelude.{
  ℕ, ◌+◌, ◌%◌, ◌^◌, ◌≡◌, refl, ◌<◌, Bool, true, false, none, List, [], ◌∷◌, arith, length,
  if◌then◌else◌,
}
use urd_code.Prelude.Bytes.{Bytes, bytes_eq, bytes_eq_iff}
use urd_code.Prelude.Maps.{Map, contains, lookup}
use urd_code.Pyramid.Bank.Db.{Db, Laws}
use urd_code.Pyramid.Bank.Transfer.{sum_32, Outcome, done, fails, read_from, read_to, write_all}

abbrev pub balances : Outcome (List ℕ) → List ℕ
balances (done bs) = bs
balances (fails _) = []

abbrev pub succeeds : Outcome (List ℕ) → Bool
succeeds (done _) = true
succeeds (fails _) = false

-- The sum of the balances of the keys.
unfoldable pub total : (Bytes → ℕ) → List Bytes → ℕ
total f [] = 0
total f (k ∷ ks) = f k + total f ks

unfoldable pub sum : List ℕ → ℕ
sum [] = 0
sum (m ∷ ms) = m + sum ms

unfoldable pub mentions : Bytes → List Bytes → Bool
mentions k [] = false
mentions k (j ∷ ks) = if bytes_eq j k then true else mentions k ks

-- No key stands twice.
unfoldable pub are_distinct : List Bytes → Bool
unfolding mentions
are_distinct [] = true
are_distinct (k ∷ ks) = if mentions k ks then false else are_distinct ks

-- No key of the first list stands in the second.
unfoldable pub are_apart : List Bytes → List Bytes → Bool
unfolding mentions
are_apart [] ks = true
are_apart (j ∷ js) ks = if mentions j ks then false else are_apart js ks

unfoldable pub all_taken : (Bytes → Bool) → List Bytes → Bool
all_taken takes [] = true
all_taken takes (k ∷ ks) = if takes k then all_taken takes ks else false

unfoldable pub none_locked : Map ℕ → List Bytes → Bool
unfolding lookup
none_locked locked_keys [] = true
none_locked locked_keys (k ∷ ks) =
    if contains k locked_keys then false else none_locked locked_keys ks

pub sum_32-eq-sum : (acc : ℕ) (ms : List ℕ) → acc < 2 ^ 32 → sum_32 acc ms ≡ (acc + sum ms) % 2 ^ 32
unfolding sum_32 sum
sum_32-eq-sum acc [] h = omega arith
sum_32-eq-sum acc (m ∷ ms) h = omega (arith, sum_32-eq-sum ((acc + m) % 2 ^ 32) ms (omega arith))

module _ {S : Type 0} (db : Db S) (laws : Laws db) (locked_keys : Map ℕ) where
  pub read_from-keeps :
      (ks : List Bytes) (ms : List ℕ) (s : S) (j : Bytes)
      → laws.view (read_from db locked_keys ks ms s).1 j ≡ laws.view s j
  unfolding read_from lookup
  read_from-keeps [] ms s j = refl
  read_from-keeps (k ∷ ks) [] s j = refl
  read_from-keeps (k ∷ ks) (m ∷ ms) s j =
      ground (arith, laws.view_get k j s, read_from-keeps ks ms (db.get k s).1 j)

  pub read_to-keeps :
      (ks : List Bytes) (ms : List ℕ) (s : S) (j : Bytes)
      → laws.view (read_to db locked_keys ks ms s).1 j ≡ laws.view s j
  unfolding read_to lookup
  read_to-keeps [] ms s j = refl
  read_to-keeps (k ∷ ks) [] s j = refl
  read_to-keeps (k ∷ ks) (m ∷ ms) s j =
      ground (arith, laws.view_get k j s, read_to-keeps ks ms (db.get k s).1 j)

  pub total-congr :
      (f g : Bytes → ℕ) (ks : List Bytes) → ((j : Bytes) → f j ≡ g j) → total f ks ≡ total g ks
  unfolding total
  total-congr f g [] h = refl
  total-congr f g (k ∷ ks) h = omega (arith, h k, total-congr f g ks h)

  pub read_from-debits :
      (ks : List Bytes) (ms : List ℕ) (s : S)
      → all_taken laws.takes ks ≡ true
      → length ks ≡ length ms
      → succeeds (read_from db locked_keys ks ms s).0 ≡ true
      → (sum (balances (read_from db locked_keys ks ms s).0) + sum ms ≡ total (laws.view s) ks)
        × (length (balances (read_from db locked_keys ks ms s).0) ≡ length ks)
        × (none_locked locked_keys ks ≡ true)
  unfolding read_from lookup sum total none_locked all_taken
  read_from-debits [] [] s ok same h = (refl, refl, refl)
  read_from-debits [] (m ∷ ms) s ok same h = absurd (omega arith)
  read_from-debits (k ∷ ks) [] s ok same h = absurd (omega arith)
  read_from-debits (k ∷ ks) (m ∷ ms) s ok same h = ground (
    arith,
    laws.get_view k s,
    read_from-debits ks ms (db.get k s).1 (ground arith) (omega arith),
    total-congr (laws.view (db.get k s).1) (laws.view s) ks (λ j. laws.view_get k j s),
  )

  pub read_to-credits :
      (ks : List Bytes) (ms : List ℕ) (s : S)
      → all_taken laws.takes ks ≡ true
      → length ks ≡ length ms
      → succeeds (read_to db locked_keys ks ms s).0 ≡ true
      → (sum (balances (read_to db locked_keys ks ms s).0) % 2 ^ 32
          ≡ (total (laws.view s) ks + sum ms) % 2 ^ 32)
        × (length (balances (read_to db locked_keys ks ms s).0) ≡ length ks)
        × (none_locked locked_keys ks ≡ true)
  unfolding read_to lookup sum total none_locked all_taken
  read_to-credits [] [] s ok same h = (refl, refl, refl)
  read_to-credits [] (m ∷ ms) s ok same h = absurd (omega arith)
  read_to-credits (k ∷ ks) [] s ok same h = absurd (omega arith)
  read_to-credits (k ∷ ks) (m ∷ ms) s ok same h = ground (
    arith,
    laws.get_view k s,
    read_to-credits ks ms (db.get k s).1 (ground arith) (omega arith),
    total-congr (laws.view (db.get k s).1) (laws.view s) ks (λ j. laws.view_get k j s),
  )

  -- The loop that writes runs through where no key is locked.
  pub write_all-succeeds :
      (ks : List Bytes) (bs : List ℕ) (s : S)
      → all_taken laws.takes ks ≡ true
      → none_locked locked_keys ks ≡ true
      → (write_all db locked_keys ks bs s).0 ≡ none
  unfolding write_all lookup none_locked all_taken
  write_all-succeeds [] bs s ok free = refl
  write_all-succeeds (k ∷ ks) [] s ok free = refl
  write_all-succeeds (k ∷ ks) (b ∷ bs) s ok free =
      ground (arith, laws.set_after k b s, write_all-succeeds ks bs (laws.after_set k b s))

  pub write_all-keeps :
      (ks : List Bytes) (bs : List ℕ) (s : S) (j : Bytes)
      → all_taken laws.takes ks ≡ true
      → mentions j ks ≡ false
      → laws.view (write_all db locked_keys ks bs s).1 j ≡ laws.view s j
  unfolding write_all lookup mentions all_taken
  write_all-keeps [] bs s j ok h = refl
  write_all-keeps (k ∷ ks) [] s j ok h = refl
  write_all-keeps (k ∷ ks) (b ∷ bs) s j ok h = ground (
    arith,
    laws.set_after k b s,
    laws.view_set k j b s,
    write_all-keeps ks bs (laws.after_set k b s) j,
  )

  pub write_all-total :
      (ks : List Bytes) (bs : List ℕ) (s : S)
      → all_taken laws.takes ks ≡ true
      → length bs ≡ length ks
      → are_distinct ks ≡ true
      → none_locked locked_keys ks ≡ true
      → total (laws.view (write_all db locked_keys ks bs s).1) ks ≡ sum bs
  unfolding write_all lookup are_distinct none_locked total sum all_taken
  write_all-total [] [] s ok same d free = refl
  write_all-total [] (b ∷ bs) s ok same d free = absurd (omega arith)
  write_all-total (k ∷ ks) [] s ok same d free = absurd (omega arith)
  write_all-total (k ∷ ks) (b ∷ bs) s ok same d free = ground (
    arith,
    laws.set_after k b s,
    laws.view_set k k b s,
    bytes_eq_iff k k,
    write_all-keeps ks bs (laws.after_set k b s) k,
    write_all-total ks bs (laws.after_set k b s) (ground arith) (omega arith),
  )

  -- The total of keys that a write leaves out.
  pub write_all-total_apart :
      (ks js : List Bytes) (bs : List ℕ) (s : S)
      → all_taken laws.takes ks ≡ true
      → are_apart js ks ≡ true
      → total (laws.view (write_all db locked_keys ks bs s).1) js ≡ total (laws.view s) js
  unfolding are_apart total
  write_all-total_apart ks [] bs s ok h = refl
  write_all-total_apart ks (j ∷ js) bs s ok h =
      ground (arith, write_all-keeps ks bs s j, write_all-total_apart ks js bs s)
