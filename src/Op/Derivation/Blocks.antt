-- ===== src/Op/Derivation/Blocks.antt =====
-- A batch that becomes a block with `ToBlock` comes back with `BlockToEspressoBatch`.
use espresso_streamers.Base.{
  ℕ, ◌≡◌, inl, inr, true, false, not, ◌||◌, Option, some, List, [], ◌∷◌, ◌==◌, ok, arith, All,
  Option-cases, Bool-cases,
}
use espresso_streamers.Op.Batch.{Hash, zero_address}
use espresso_streamers.Op.Derivation.{
  Bytes, SingularBatch, Chain, EspressoBatch, Block, decode_transactions, block_to_espresso_batch,
  body_to_block, to_block,
}

module _ (k : Chain) where
  -- The transactions are no deposits, and these are their encodings.
  abbrev pub Encodes : (k.Transaction → Option Bytes) → List k.Transaction → List Bytes → Type 0
  Encodes encode [] [] = Unit
  Encodes encode [] (o ∷ os) = ⊥
  Encodes encode (tx ∷ txs) [] = ⊥
  Encodes encode (tx ∷ txs) (o ∷ os) =
      (encode tx ≡ some o) × (k.is_deposit_tx tx ≡ false) × Encodes encode txs os

  -- What is relied on of `derive.BlockToSingularBatch`: a block that begins with a deposit from which
  -- the L1 block is read gives the batch of this block, of the header's parent and time, and of the
  -- encodings of the other transactions if none of them is a deposit.
  abbrev pub IsDerivation :
      (k.Config → Block k → Option SingularBatch)
      → (k.Transaction → Option Bytes)
      → k.Config
      → Type 0
  IsDerivation convert encode cfg =
      (header : k.Header) (deposit : k.Transaction) (txs : List k.Transaction) (opaque : List Bytes)
      (l1_number : ℕ) (l1_hash : Hash)
      → k.is_deposit_tx deposit ≡ true
      → k.l1_block_info_from_bytes cfg (k.header_time header) (k.transaction_data deposit)
        ≡ some (l1_number, l1_hash)
      → Encodes encode txs opaque
      → convert cfg (record { header = header; transactions = deposit ∷ txs })
        ≡ some (record {
          parent_hash = k.header_parent_hash header;
          epoch_num = l1_number;
          epoch_hash = l1_hash;
          timestamp = k.header_time header;
          transactions = opaque;
        })

  -- A transaction that is decoded from these bytes encodes to them and is no deposit.
  abbrev pub IsCanonical : (k.Transaction → Option Bytes) → Bytes → Type 0
  IsCanonical encode o =
      (tx : k.Transaction)
      → k.unmarshal_binary o ≡ some tx
      → (encode tx ≡ some o) × (k.is_deposit_tx tx ≡ false)

  decode_transactions-Encodes :
      (encode : k.Transaction → Option Bytes) (opaque : List Bytes) (txs : List k.Transaction)
      → All (IsCanonical encode) opaque
      → decode_transactions k opaque ≡ some txs
      → Encodes encode txs opaque
  unfolding decode_transactions
  decode_transactions-Encodes encode [] [] h e = tt
  decode_transactions-Encodes encode [] (tx ∷ txs) h e = absurd (ground (arith, e))
  decode_transactions-Encodes encode (o ∷ os) txs (c, h) e =
      elim (Option-cases (k.unmarshal_binary o)) [
        | inl f ↦ absurd (ground (arith, e, f))
        | inr (tx, f) ↦ elim (Option-cases (decode_transactions k os)) [
          | inl g ↦ absurd (ground (arith, e, f, g))
          | inr (rest, g) ↦
              let same : txs ≡ tx ∷ rest = ground (arith, e, f, g) in
              let (a, b) = c tx f in rw same (a, b, decode_transactions-Encodes encode os rest h g)
        ]
      ]

  -- What a block holds that `ToBlock` makes.
  record Made (cfg : k.Config) (b : EspressoBatch k) (block : Block k) : Type 0 where
    header : k.Header
    header_at : b.batch_header ≡ some header
    deposit : k.Transaction
    deposit_at : b.l1_info_deposit ≡ some deposit
    is_deposit : k.is_deposit_tx deposit ≡ true
    parent : k.header_parent_hash header ≡ b.batch.parent_hash
    timestamp : k.header_time header ≡ b.batch.timestamp
    l1_info :
        k.l1_block_info_from_bytes cfg (k.header_time header) (k.transaction_data deposit)
        ≡ some (b.batch.epoch_num, b.batch.epoch_hash)
    txs : List k.Transaction
    decoded : decode_transactions k b.batch.transactions ≡ some txs
    made : block ≡ record { header = header; transactions = deposit ∷ txs }

  body_to_block-Made :
      (cfg : k.Config) (b : EspressoBatch k) (block : Block k) (header : k.Header)
      (deposit : k.Transaction)
      → b.batch_header ≡ some header
      → b.l1_info_deposit ≡ some deposit
      → k.is_deposit_tx deposit ≡ true
      → body_to_block cfg b.batch header deposit ≡ ok block
      → Made cfg b block
  unfolding body_to_block
  body_to_block-Made cfg b block header deposit h d t e =
      elim (Option-cases
        (k.l1_block_info_from_bytes cfg (k.header_time header) (k.transaction_data deposit))) [
          | inl f ↦ absurd (ground (arith, e, f))
          | inr ((l1_number, l1_hash), f) ↦
              elim (Bool-cases (b.batch.parent_hash == k.header_parent_hash header)) [
                | inr p ↦ absurd (ground (arith, e, f, p))
                | inl p ↦ elim (Bool-cases (b.batch.timestamp == k.header_time header)) [
                  | inr s ↦ absurd (ground (arith, e, f, p, s))
                  | inl s ↦
                      elim (Bool-cases (
                        not (b.batch.epoch_num == l1_number)
                        || not (b.batch.epoch_hash == l1_hash))) [
                          | inl u ↦ absurd (ground (arith, e, f, p, s, u))
                          | inr u ↦
                              elim (Option-cases (decode_transactions k b.batch.transactions)) [
                                | inl g ↦ absurd (ground (arith, e, f, p, s, u, g))
                                | inr (txs, g) ↦ record {
                                  header = header;
                                  header_at = h;
                                  deposit = deposit;
                                  deposit_at = d;
                                  is_deposit = t;
                                  parent = ground (arith, p);
                                  timestamp = ground (arith, s);
                                  l1_info = ground (arith, u, f);
                                  txs = txs;
                                  decoded = g;
                                  made = ground (arith, e, f, p, s, u, g);
                                }
                              ]
                        ]
                ]
              ]
        ]

  to_block-Made :
      (cfg : k.Config) (b : EspressoBatch k) (block : Block k)
      → to_block cfg b ≡ ok block
      → Made cfg b block
  unfolding to_block
  to_block-Made cfg b block e = elim (Option-cases b.batch_header) [
    | inl h ↦ absurd (ground (arith, e, h))
    | inr (header, h) ↦ elim (Option-cases b.l1_info_deposit) [
      | inl d ↦ absurd (ground (arith, e, h, d))
      | inr (deposit, d) ↦ elim (Bool-cases (k.is_deposit_tx deposit)) [
        | inr t ↦ absurd (ground (arith, e, h, d, t))
        | inl t ↦ body_to_block-Made cfg b block header deposit h d t (ground (arith, e, h, d, t))
      ]
    ]
  ]

  back_from_Made :
      (convert : k.Config → Block k → Option SingularBatch) (encode : k.Transaction → Option Bytes)
      (cfg : k.Config) (b : EspressoBatch k) (block : Block k)
      → IsDerivation convert encode cfg
      → All (IsCanonical encode) b.batch.transactions
      → Made cfg b block
      → block_to_espresso_batch convert cfg block ≡ ok (record b { signer_address = zero_address })
  unfolding block_to_espresso_batch
  back_from_Made convert encode cfg b block derives canonical m =
      let encoded =
        decode_transactions-Encodes encode b.batch.transactions m.txs canonical m.decoded in
      let back =
        derives m.header m.deposit m.txs b.batch.transactions b.batch.epoch_num b.batch.epoch_hash
          m.is_deposit m.l1_info encoded in
      rw m.made
        (ground (arith, m.is_deposit, back, m.header_at, m.deposit_at, m.parent, m.timestamp))

  -- Let `derive.BlockToSingularBatch` behave as documented, and let each transaction of a batch that
  -- decodes be no deposit and encode to what it was decoded from. The block that `ToBlock` makes of
  -- the batch becomes the batch again with `BlockToEspressoBatch`, without its signer.
  pub block_to_espresso_batch-to_block :
      (convert : k.Config → Block k → Option SingularBatch) (encode : k.Transaction → Option Bytes)
      (cfg : k.Config) (b : EspressoBatch k) (block : Block k)
      → IsDerivation convert encode cfg
      → All (IsCanonical encode) b.batch.transactions
      → to_block cfg b ≡ ok block
      → block_to_espresso_batch convert cfg block ≡ ok (record b { signer_address = zero_address })
  block_to_espresso_batch-to_block convert encode cfg b block derives canonical e =
      back_from_Made convert encode cfg b block derives canonical (to_block-Made cfg b block e)
