-- ===== src/Op/Derivation.antt =====
-- op/derivation/espresso_batch.go: the batch of the batch streamer, as a transaction and as a block.
pub mod Laws
pub mod Blocks
mod Tests
use espresso_streamers.Base.{
  ℕ, ◌+◌, ◌%◌, ◌^◌, Bool, not, ◌||◌, Option, none, some, List, [], ◌∷◌, ◌++◌, ltb, ◌==◌,
  if◌then◌else◌, length, take, drop, Result, ok, err,
}
use espresso_streamers.Op.Batch.{Hash, Address, BlockId, Batch, zero_address}

abbrev pub Bytes : Type 0
Bytes = List ℕ

-- `derive.SingularBatch`.
pub record SingularBatch : Type 0 where
  pub parent_hash : Hash
  pub epoch_num : ℕ
  pub epoch_hash : Hash
  pub timestamp : ℕ
  pub transactions : List Bytes

-- What the file uses of go-ethereum and of the OP stack: headers, transactions, Keccak, secp256k1,
-- and the derivation. A header's `Number` is a `*big.Int`; `none` is nil, or an error.
pub record Chain : Type 1 where
  pub Header : Type 0
  pub Transaction : Type 0
  pub Config : Type 0
  pub PublicKey : Type 0
  pub header_number : Header → Option ℕ
  pub header_hash : Header → Hash
  pub header_parent_hash : Header → Hash
  pub header_time : Header → ℕ
  pub transaction_hash : Transaction → Hash
  pub is_deposit_tx : Transaction → Bool
  pub transaction_data : Transaction → Bytes
  pub unmarshal_binary : Bytes → Option Transaction
  pub keccak256 : Bytes → Hash
  pub keccak256_hash : Hash → Hash → Hash
  pub sig_to_pub : Hash → Bytes → Option PublicKey
  pub pubkey_to_address : PublicKey → Address
  -- number and block hash of `derive.L1BlockInfoFromBytes`
  pub l1_block_info_from_bytes : Config → ℕ → Bytes → Option (ℕ × Hash)

pub record EspressoBatch (k : Chain) : Type 0 where
  pub batch_header : Option k.Header
  pub batch : SingularBatch
  pub l1_info_deposit : Option k.Transaction
  pub signer_address : Address

pub record EspressoTransaction : Type 0 where
  pub namespace : ℕ
  pub payload : Bytes

-- `types.Block`, its header and its transactions.
pub record Block (k : Chain) : Type 0 where
  pub header : k.Header
  pub transactions : List k.Transaction

-- `crypto.SignatureLength`.
abbrev pub signature_length : ℕ
signature_length = 65

pub data BatchError : Type 0 where
  too_short no_public_key decode_failed missing_number number_too_large missing_deposit no_header
        no_l1_info_deposit bad_l1_info parent_mismatch timestamp_mismatch epoch_mismatch
        bad_transaction no_transactions not_singular :
      BatchError

-- The loop of `ToBlock` over the opaque transactions.
unfoldable pub decode_transactions : (k : Chain) → List Bytes → Option (List k.Transaction)
decode_transactions k [] = some []
decode_transactions k (opaque_tx ∷ opaque_txs) = elim (k.unmarshal_binary opaque_tx) [
  | none ↦ none
  | some tx ↦ elim (decode_transactions k opaque_txs) [ none ↦ none | some txs ↦ some (tx ∷ txs) ]
]

module _ {k : Chain} where
  -- The methods of the interface `Batch`; `none` is that a nil pointer is followed.
  unfoldable pub number : EspressoBatch k → Option ℕ
  number b = elim b.batch_header [
    | none ↦ none
    | some h ↦ elim (k.header_number h) [ none ↦ none | some n ↦ some (n % 2 ^ 64) ]
  ]

  unfoldable pub l1_origin : EspressoBatch k → BlockId
  l1_origin b = record { hash = b.batch.epoch_hash; number = b.batch.epoch_num }

  unfoldable pub hash : EspressoBatch k → Option Hash
  hash b = elim b.batch_header [
    | none ↦ none
    | some h ↦ elim b.l1_info_deposit [
      | none ↦ none
      | some tx ↦ some (k.keccak256_hash (k.header_hash h) (k.transaction_hash tx))
    ]
  ]

  -- `ToEspressoTransaction`, with `rlp.Encode` and the signer.
  unfoldable pub to_espresso_transaction :
      (EspressoBatch k → Option Bytes)
      → (Hash → Option Bytes)
      → EspressoBatch k
      → ℕ
      → Option EspressoTransaction
  to_espresso_transaction encode sign b namespace = elim (encode b) [
    | none ↦ none
    | some buf ↦ elim (sign (k.keccak256 buf)) [
      | none ↦ none
      | some signature ↦ some (record { namespace = namespace; payload = signature ++ buf })
    ]
  ]

  -- `UnmarshalEspressoTransaction`, with `rlp.DecodeBytes`.
  unfoldable pub unmarshal_espresso_transaction :
      (Bytes → Option (EspressoBatch k)) → Bytes → Result BatchError (EspressoBatch k)
  unmarshal_espresso_transaction decode bytes =
      let batch_data = drop signature_length bytes in
      if ltb (length bytes) signature_length
      then err too_short
      else elim (k.sig_to_pub (k.keccak256 batch_data) (take signature_length bytes)) [
        | none ↦ err no_public_key
        | some key ↦ elim (decode batch_data) [
          | none ↦ err decode_failed
          | some b ↦ elim b.batch_header [
            | none ↦ err missing_number
            | some h ↦ elim (k.header_number h) [
              | none ↦ err missing_number
              | some n ↦
                  if not (ltb n (2 ^ 64)) then err number_too_large else elim b.l1_info_deposit [
                    | none ↦ err missing_deposit
                    | some tx ↦ ok (record b { signer_address = k.pubkey_to_address key })
                  ]
            ]
          ]
        ]
      ]

  -- `BlockToEspressoBatch`, with `derive.BlockToSingularBatch`.
  unfoldable pub block_to_espresso_batch :
      (k.Config → Block k → Option SingularBatch)
      → k.Config
      → Block k
      → Result BatchError (EspressoBatch k)
  block_to_espresso_batch block_to_singular_batch cfg block = elim block.transactions [
    | [] ↦ err no_transactions
    | l1_info_deposit ∷ txs ↦
        if not (k.is_deposit_tx l1_info_deposit)
        then err no_l1_info_deposit
        else elim (block_to_singular_batch cfg block) [
          | none ↦ err not_singular
          | some batch ↦ ok (record {
            batch_header = some block.header;
            batch = batch;
            l1_info_deposit = some l1_info_deposit;
            signer_address = zero_address;
          })
        ]
  ]

  -- `ToBlock` from the header and the deposit on.
  unfoldable pub body_to_block :
      k.Config → SingularBatch → k.Header → k.Transaction → Result BatchError (Block k)
  unfolding decode_transactions
  body_to_block cfg batch header deposit =
      elim (k.l1_block_info_from_bytes cfg (k.header_time header) (k.transaction_data deposit)) [
        | none ↦ err bad_l1_info
        | some (l1_number, l1_hash) ↦
            if not (batch.parent_hash == k.header_parent_hash header)
            then err parent_mismatch
            else if not (batch.timestamp == k.header_time header)
            then err timestamp_mismatch
            else if not (batch.epoch_num == l1_number) || not (batch.epoch_hash == l1_hash)
            then err epoch_mismatch
            else elim (decode_transactions k batch.transactions) [
              | none ↦ err bad_transaction
              | some txs ↦ ok (record { header = header; transactions = deposit ∷ txs })
            ]
      ]

  unfoldable pub to_block : k.Config → EspressoBatch k → Result BatchError (Block k)
  unfolding body_to_block
  to_block cfg b = elim b.batch_header [
    | none ↦ err no_header
    | some header ↦ elim b.l1_info_deposit [
      | none ↦ err no_l1_info_deposit
      | some deposit ↦
          if not (k.is_deposit_tx deposit)
          then err no_l1_info_deposit
          else body_to_block cfg b.batch header deposit
    ]
  ]
