-- ===== src/Nitro/Streamer/Hotshot.antt =====
-- Reading HotShot blocks into the map: `parseEspressoTransaction`, `fetchNextHotshotBlock` and
-- `QueueMessagesFromHotshot` of nitro/nitro_streamer.go.
use espresso_streamers.Base.{
  ℕ, suc, ◌-◌, Option, none, some, List, [], ◌∷◌, ltb, ◌==◌, if◌then◌else◌, length, Result, ok, err,
  add64, sub64,
}
use espresso_streamers.Nitro.Bytes.{Bytes}
use espresso_streamers.Nitro.Monitor.{is_valid}
use espresso_streamers.Nitro.Codec.{Codec, CodecError}
use espresso_streamers.Nitro.Payload.{
  VerifyError, Payload, message_iterator, next_message, verify_signature,
  parse_nitro_messages_from_hot_shot,
}
use espresso_streamers.Nitro.Streamer.{
  EspressoClient, NitroStreamer, hotshot_range_limit, queue_loop,
}

-- The errors of `parseEspressoTransaction` and of `fetchNextHotshotBlock`.
pub data TransactionError : Type 0 where
  parse_failed : CodecError → TransactionError
  payload_had_no_messages : TransactionError
  signature_failed : VerifyError → TransactionError

pub data FetchError : Type 0 where
  failed_to_fetch_transactions : FetchError

unfoldable pub message_count : Payload → ℕ
message_count (Payload.v0 m) = length m.messages
message_count (Payload.v1 m) = length m.messages

-- `untilBlock` when `fromBlock` is not behind the latest block.
unfoldable pub until_block : ℕ → ℕ → ℕ
until_block from latest =
    if ltb hotshot_range_limit (latest - from) then add64 from hotshot_range_limit else latest

-- What a fetch gives: the block to go on from, the finalized height of the L1, and the payloads of
-- the transactions of each block.
pub record Fetched : Type 0 where
  pub to_block : ℕ
  pub l1_height : ℕ
  pub blocks : List (List Bytes)

abbrev pub nothing_before : ℕ → Fetched
nothing_before to_block = record { to_block = to_block; l1_height = 0; blocks = [] }

-- The type of `parseHotShotPayloadFn`.
abbrev pub Parse : EspressoClient → Type 0
Parse e = NitroStreamer e → Bytes → ℕ → Option (Option TransactionError × NitroStreamer e)

module _ {e : EspressoClient} where
  -- `ChainID`: the namespace is the chain's id.
  abbrev pub chain_id : NitroStreamer e → ℕ
  chain_id s = s.namespace

  -- `parseEspressoTransaction`; `none` is a call that does not return. The iterator stops behind the
  -- last message, so the fuel suffices for it.
  unfoldable pub parse_espresso_transaction :
      Codec → NitroStreamer e → Bytes → ℕ → Option (Option TransactionError × NitroStreamer e)
  unfolding queue_loop message_count
  parse_espresso_transaction c s tx l1_height = elim (parse_nitro_messages_from_hot_shot c tx) [
    | err x ↦ some (some (parse_failed x), s)
    | ok message ↦ elim (next_message 0 (message_iterator message)).0 [
      | none ↦ some (some payload_had_no_messages, s)
      | some first ↦
          let (failure, verified) =
            verify_signature c (is_valid s.monitor) (chain_id s) l1_height message in
          elim failure [
            | some x ↦ some (some (signature_failed x), s)
            | none ↦
                elim (queue_loop (suc (message_count verified)) s (message_iterator verified)) [
                  | none ↦ none
                  | some s' ↦ some (none, s')
                ]
          ]
    ]
  ]

  -- The loops of `fetchNextHotshotBlock` over transactions and blocks; an error is only logged.
  unfoldable pub parse_transactions :
      Parse e → NitroStreamer e → ℕ → List Bytes → Option (NitroStreamer e)
  parse_transactions parse s l1_height [] = some s
  parse_transactions parse s l1_height (tx ∷ txs) = elim (parse s tx l1_height) [
    | none ↦ none
    | some (x, s') ↦ parse_transactions parse s' l1_height txs
  ]

  unfoldable pub parse_blocks :
      Parse e → NitroStreamer e → ℕ → List (List Bytes) → Option (NitroStreamer e)
  unfolding parse_transactions
  parse_blocks parse s l1_height [] = some s
  parse_blocks parse s l1_height (b ∷ bs) = elim (parse_transactions parse s l1_height b) [
    | none ↦ none
    | some s' ↦ parse_blocks parse s' l1_height bs
  ]

  -- The calls of the client in `fetchNextHotshotBlock`, up to the loop over the blocks.
  unfoldable pub fetch_blocks : NitroStreamer e → ℕ → Option Fetched × NitroStreamer e
  unfolding until_block
  fetch_blocks s from =
      let (answer, client) = e.fetch_latest_block_height s.espresso_client in
      let s1 = record s { espresso_client = client } in
      elim answer [
        | none ↦ (none, s1)
        | some latest ↦
            let until = until_block from latest in
            let (blocks, client') =
              e.fetch_namespace_transactions_in_range client from until s.namespace in
            let (header, client'') = e.fetch_header_by_height client' (sub64 until 1) in
            let s2 = record s { espresso_client = client' } in
            let s3 = record s { espresso_client = client'' } in
            if ltb latest from
            then (some (nothing_before from), s1)
            else if from == until
            then (some (nothing_before from), s1)
            else elim blocks [
              | none ↦ (none, s2)
              | some [] ↦ (some (nothing_before until), s2)
              | some (b ∷ bs) ↦ elim header [
                | none ↦ (none, s3)
                | some finalized ↦ (
                  some (record {
                    to_block = until;
                    l1_height = elim finalized [ none ↦ 0 | some number ↦ number ];
                    blocks = b ∷ bs;
                  }),
                  s3,
                )
              ]
            ]
      ]

  -- `fetchNextHotshotBlock`: the block to go on from.
  unfoldable pub fetch_next_hotshot_block :
      Parse e → NitroStreamer e → ℕ → Option (Result FetchError ℕ × NitroStreamer e)
  unfolding fetch_blocks parse_blocks
  fetch_next_hotshot_block parse s from =
      let (answer, s') = fetch_blocks s from in
      elim answer [
        | none ↦ some (err failed_to_fetch_transactions, s')
        | some f ↦ elim (parse_blocks parse s' f.l1_height f.blocks) [
          | none ↦ none
          | some t ↦ some (ok f.to_block, t)
        ]
      ]

  -- The end of `QueueMessagesFromHotshot`: no jump if the position was reset meanwhile.
  unfoldable pub jump : NitroStreamer e → ℕ → ℕ → NitroStreamer e
  jump s start to_block =
      if s.next_hotshot_block_num == start
      then record s { next_hotshot_block_num = to_block }
      else s

  unfoldable pub queue_messages_from_hotshot :
      Parse e → NitroStreamer e → Option (Option FetchError × NitroStreamer e)
  unfolding fetch_next_hotshot_block jump
  queue_messages_from_hotshot parse s =
      let start = s.next_hotshot_block_num in
      elim (fetch_next_hotshot_block parse s start) [
        | none ↦ none
        | some (err x, s') ↦ some (some x, s')
        | some (ok to_block, s') ↦ some (none, jump s' start to_block)
      ]
