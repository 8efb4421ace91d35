-- ===== src/Pyramid/Block/Binding.antt =====
-- source/pyramid/types/block.go: what the hash of a block determines.
use urd_code.Prelude.{
  ℕ, suc, none, get_elem?, ◌≡◌, ◌≢◌, ◌↔◌, ◌⊎◌, inl, inr, refl, sym, ◌∙◌, Bool, true, false, ◌&&◌,
  some, List, [], ◌∷◌, map, arith, length, Bool-cases,
}
use urd_code.Prelude.Int.{ℤ}
use urd_code.Prelude.Bytes.{Bytes, bytes_eq, bytes_eq_iff}
use urd_code.Convert.{Kind, int8, int64, int_to_bytes, IsOf, bytes_to_int-int_to_bytes}
use urd_code.Pyramid.Block.{
  Block, Header, Hashing, hash_size, is_hash, txs_hash, header_leaves, header_hash, relation_hash,
  cross_shard_body_hash, fill_header, block_hash,
}

unfoldable lists_eq : List Bytes → List Bytes → Bool
unfolding bytes_eq
lists_eq [] [] = true
lists_eq (x ∷ xs) (y ∷ ys) = bytes_eq x y && lists_eq xs ys
lists_eq [] (_ ∷ _) = false
lists_eq (_ ∷ _) [] = false

lists_eq_iff : (xs ys : List Bytes) → (lists_eq xs ys ≡ true) ↔ (xs ≡ ys)
unfolding lists_eq
lists_eq_iff [] [] = ground arith
lists_eq_iff [] (y ∷ ys) = ground arith
lists_eq_iff (x ∷ xs) [] = ground arith
lists_eq_iff (x ∷ xs) (y ∷ ys) = ground (arith, lists_eq_iff xs ys, bytes_eq_iff x y)

-- Two arguments that a hash does not tell apart, at one place of two lists.
abbrev pub Collision {ℓ} : {A : Type ℓ} → (A → Bytes) → List A → List A → Type ℓ
Collision {A = A} f xs ys =
    (i : ℕ) × (x : A) × (y : A) × (get_elem? xs i ≡ some x)
    × (get_elem? ys i ≡ some y)
    × (x ≢ y)
    × (f x ≡ f y)

infixl 5 ◌then_bound◌
abbrev ◌then_bound◌ {ℓ κ μ} : {A : Type ℓ} {B : Type κ} {C : Type μ} → A ⊎ C → (A → B ⊎ C) → B ⊎ C
inl a then_bound k = k a
inr c then_bound k = inr c

module _ (hashing : Hashing) where
  -- The contents of two blocks agree: the header but for its roots, with the encoding of the time,
  -- the bodies and the relations.
  abbrev pub SameContents : Block → Block → Type 0
  SameContents a b =
      (a.header.block_type ≡ b.header.block_type)
      × (a.header.chain_id ≡ b.header.chain_id)
      × (a.header.height ≡ b.header.height)
      × (hashing.time_bytes a.header.time ≡ hashing.time_bytes b.header.time)
      × (a.header.hash_pointer ≡ b.header.hash_pointer)
      × (a.header.state_root ≡ b.header.state_root)
      × (a.body_txs ≡ b.body_txs)
      × (a.cross_shard_body ≡ b.cross_shard_body)
      × (a.relation ≡ b.relation)

  abbrev time_of : Header → Bytes
  time_of h = elim (hashing.time_bytes h.time) [ none ↦ [] | some time ↦ time ]

  -- The lists of which the hash of a block takes a Merkle root.
  unfoldable pub merkle_lists : Block → List (List Bytes)
  unfolding fill_header txs_hash
  merkle_lists b =
      header_leaves hashing (fill_header hashing b) (time_of b.header)
      ∷ map hashing.sum b.body_txs
      ∷ (txs_hash hashing b.cross_shard_body.cross_shard_txs
          ∷ hashing.merkle b.cross_shard_body.cross_shard_datas
          ∷ [])
      ∷ map hashing.sum b.cross_shard_body.cross_shard_txs
      ∷ b.cross_shard_body.cross_shard_datas
      ∷ (hashing.merkle b.relation.related_commit_status
          ∷ hashing.merkle b.relation.related_hash
          ∷ b.relation.my_commit_status
          ∷ [])
      ∷ b.relation.related_commit_status
      ∷ b.relation.related_hash
      ∷ []

  -- What the hashes of two blocks take shows a collision: two of those lists at one place, or two
  -- transactions at one place of the bodies.
  abbrev pub Breaks : Block → Block → Type 0
  Breaks a b =
      Collision hashing.merkle (merkle_lists a) (merkle_lists b)
      ⊎ Collision hashing.sum a.body_txs b.body_txs
      ⊎ Collision hashing.sum a.cross_shard_body.cross_shard_txs b.cross_shard_body.cross_shard_txs

  -- The lists at one place are the same, or they collide.
  merkle_bound :
      (xs ys : List Bytes) (i : ℕ) (us vs : List (List Bytes))
      → get_elem? us i ≡ some xs
      → get_elem? vs i ≡ some ys
      → hashing.merkle xs ≡ hashing.merkle ys
      → (xs ≡ ys) ⊎ Collision hashing.merkle us vs
  merkle_bound xs ys i us vs p q e = elim (Bool-cases (lists_eq xs ys)) [
    | inl h ↦ inl ((lists_eq_iff xs ys).0 h)
    | inr h ↦ inr (i, xs, ys, p, q, (λ same. absurd (ground (arith, lists_eq_iff xs ys))), e)
  ]

  Collision-suc :
      (x y : Bytes) (xs ys : List Bytes)
      → Collision hashing.sum xs ys
      → Collision hashing.sum (x ∷ xs) (y ∷ ys)
  Collision-suc x y xs ys (i, u, v, p, q, n, e) = (suc i, u, v, p, q, n, e)

  sums_bound :
      (xs ys : List Bytes)
      → map hashing.sum xs ≡ map hashing.sum ys
      → (xs ≡ ys) ⊎ Collision hashing.sum xs ys
  sums_bound [] [] e = inl refl
  sums_bound [] (y ∷ ys) e = absurd (ground arith)
  sums_bound (x ∷ xs) [] e = absurd (ground arith)
  sums_bound (x ∷ xs) (y ∷ ys) e = elim (Bool-cases (bytes_eq x y)) [
    | inr h ↦
        inr (0, x, y, refl, refl, (λ same. absurd (ground (arith, bytes_eq_iff x y))), ground arith)
    | inl h ↦ elim (sums_bound xs ys (ground arith)) [
      | inl same ↦ inl (ground (arith, bytes_eq_iff x y))
      | inr c ↦ inr (Collision-suc x y xs ys c)
    ]
  ]

  module _ (a b : Block) where
    -- Two lists at one place of what is hashed.
    list_bound :
        (i : ℕ) (xs ys : List Bytes)
        → get_elem? (merkle_lists a) i ≡ some xs
        → get_elem? (merkle_lists b) i ≡ some ys
        → hashing.merkle xs ≡ hashing.merkle ys
        → (xs ≡ ys) ⊎ Breaks a b
    list_bound i xs ys p q e = elim (merkle_bound xs ys i (merkle_lists a) (merkle_lists b) p q e) [
      | inl same ↦ inl same
      | inr c ↦ inr (inl c)
    ]

    body_bound :
        txs_hash hashing a.body_txs ≡ txs_hash hashing b.body_txs
        → (a.body_txs ≡ b.body_txs) ⊎ Breaks a b
    unfolding txs_hash merkle_lists
    body_bound e =
        list_bound 1 (map hashing.sum a.body_txs) (map hashing.sum b.body_txs) refl refl e
        then_bound λ sums. elim (sums_bound a.body_txs b.body_txs sums) [
          | inl same ↦ inl same
          | inr c ↦ inr (inr (inl c))
        ]

    cross_shard_bound :
        cross_shard_body_hash hashing a.cross_shard_body
          ≡ cross_shard_body_hash hashing b.cross_shard_body
        → (a.cross_shard_body ≡ b.cross_shard_body) ⊎ Breaks a b
    unfolding cross_shard_body_hash txs_hash merkle_lists
    cross_shard_bound e = list_bound 2 _ _ refl refl e then_bound λ leaves.
        list_bound 3 _ _ refl refl (ground arith) then_bound λ sums.
        list_bound 4 a.cross_shard_body.cross_shard_datas b.cross_shard_body.cross_shard_datas refl
          refl (ground arith)
        then_bound λ datas.
            elim (sums_bound a.cross_shard_body.cross_shard_txs b.cross_shard_body.cross_shard_txs
              sums) [ inl txs ↦ inl (ground arith) | inr c ↦ inr (inr (inr c)) ]

    relation_bound :
        relation_hash hashing a.relation ≡ relation_hash hashing b.relation
        → (a.relation ≡ b.relation) ⊎ Breaks a b
    unfolding relation_hash merkle_lists
    relation_bound e = list_bound 5 _ _ refl refl e then_bound λ leaves.
        list_bound 6 a.relation.related_commit_status b.relation.related_commit_status refl refl
          (ground arith)
        then_bound λ s.
            list_bound 7 a.relation.related_hash b.relation.related_hash refl refl (ground arith)
            then_bound λ h. inl (ground arith)

  -- A block as it is built: no root is filled in and no hash is kept, its time can be encoded, its
  -- height is an int64 and its type an int8.
  abbrev pub IsFresh : Block → Type 0
  IsFresh b =
      (is_hash b.header.body_root ≡ false)
      × (is_hash b.header.cross_shard_body_root ≡ false)
      × (is_hash b.header.relation_root ≡ false)
      × (is_hash b.blockhash ≡ false)
      × ((t : Bytes) × (hashing.time_bytes b.header.time ≡ some t))
      × IsOf int64 b.header.height
      × IsOf int8 b.header.block_type

  int_bound :
      (k : Kind) (v w : ℤ) → IsOf k v → IsOf k w → int_to_bytes k v ≡ int_to_bytes k w → v ≡ w
  int_bound k v w hv hw e =
      ground (arith, bytes_to_int-int_to_bytes k v hv, bytes_to_int-int_to_bytes k w hw)

  fill_header_roots :
      (b : Block)
      → IsFresh b
      → ((block_hash hashing b).1 ≡ header_hash hashing (fill_header hashing b))
        × ((fill_header hashing b).body_root ≡ txs_hash hashing b.body_txs)
        × ((fill_header hashing b).cross_shard_body_root
            ≡ cross_shard_body_hash hashing b.cross_shard_body)
        × ((fill_header hashing b).receipt_root ≡ relation_hash hashing b.relation)
  unfolding block_hash fill_header
  fill_header_roots b h = ground arith

  -- The leaves of the header, from its hash.
  leaves_bound :
      (a b : Block)
      → IsFresh a
      → IsFresh b
      → header_hash hashing (fill_header hashing a) ≡ header_hash hashing (fill_header hashing b)
      → (header_leaves hashing (fill_header hashing a) (time_of a.header)
          ≡ header_leaves hashing (fill_header hashing b) (time_of b.header))
        ⊎ Breaks a b
  unfolding header_hash merkle_lists fill_header
  leaves_bound a b ha hb e = list_bound a b 0 _ _ refl refl (ground arith)

  -- Two blocks as they are built that have the same hash have the same contents, or what their
  -- hashes take shows a collision: two lists at one place under the Merkle tree, or two transactions
  -- at one place of the bodies under the hash of a transaction.
  pub block_hash_binds :
      (a b : Block)
      → IsFresh a
      → IsFresh b
      → (block_hash hashing a).1 ≡ (block_hash hashing b).1
      → SameContents a b ⊎ Breaks a b
  unfolding fill_header
  block_hash_binds a b ha hb e =
      let (ea, body_a, cross_a, rel_a) = fill_header_roots a ha in
      let (eb, body_b, cross_b, rel_b) = fill_header_roots b hb in
      let (_, _, _, _, (s, time_a), height_a, type_a) = ha in
      let (_, _, _, _, (t, time_b), height_b, type_b) = hb in
      leaves_bound a b ha hb (sym ea ∙ e ∙ eb) then_bound λ leaves.
      body_bound a b (ground arith) then_bound λ txs.
      cross_shard_bound a b (ground arith) then_bound λ cross.
      relation_bound a b (ground arith) then_bound λ rel.
      let height =
        int_bound int64 a.header.height b.header.height height_a height_b (ground arith) in
      let kind =
        int_bound int8 a.header.block_type b.header.block_type type_a type_b (ground arith) in
      inl (kind, ground arith, height, ground arith, ground arith, ground arith, txs, cross, rel)

  -- The body of a block that comes with a body root of the right size does not count for its hash.
  pub block_hash-ignores_body :
      (b : Block) (txs : List Bytes)
      → length b.header.body_root ≡ hash_size
      → (block_hash hashing (record b { body_txs = txs })).1 ≡ (block_hash hashing b).1
  unfolding block_hash fill_header
  block_hash-ignores_body b txs h = ground arith

  -- The receipt root of a block whose relation root is no hash does not count for its hash.
  pub block_hash-ignores_receipts :
      (b : Block) (root : Bytes)
      → is_hash b.header.relation_root ≡ false
      → block_hash hashing (record b { header = record (b.header) { receipt_root = root } })
        ≡ block_hash hashing b
  unfolding block_hash fill_header
  block_hash-ignores_receipts b root h = ground arith
