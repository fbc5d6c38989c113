-- ===== src/Nitro/Streamer.antt =====
-- `EspressoStreamer` of nitro/nitro_streamer.go. Its locks make each method one step.
pub mod Hotshot
pub mod Queue
pub mod Store
pub mod Invariant
pub mod Earliest
pub mod Count
pub mod Reading
pub mod Sequence
pub mod Outcome
pub mod Progress
pub mod Interleave
pub mod Reach
pub mod Start
pub mod Race
pub mod Relabel
pub mod CatchUp
pub mod Authentic
pub mod Guarded
pub mod Signed
pub mod Delivery
pub mod Posted
pub mod Feed
pub mod Refines
pub mod Consume
pub mod Taken
pub mod Stable
pub mod Lasting
mod Tests
use espresso_streamers.Base.{
  ℕ, zero, suc, ◌+◌, ◌-◌, Bool, true, false, not, Option, none, some, List, [], ◌∷◌, ltb, leb, ◌==◌,
  if◌then◌else◌, length, Result, ok, err, add64, sub64,
}
use espresso_streamers.Op.Batch.{Address}
use espresso_streamers.Nitro.Bytes.{Bytes}
use espresso_streamers.Nitro.Types.{MessageWithMetadataAndPos}
use espresso_streamers.Nitro.Monitor.{
  BatcherAddrMonitor, AddressValidRangeConfig, new_monitor, is_valid,
}
use espresso_streamers.Nitro.Codec.{Codec, CodecError}
use espresso_streamers.Nitro.Payload.{
  VerifyError, Payload, MessageIterator, message_iterator, next_message, verify_signature,
  parse_nitro_messages_from_hot_shot,
}

abbrev pub hotshot_range_limit : ℕ
hotshot_range_limit = 100

-- `EspressoClientInterface`: `none` is an error; of a header the number of its finalized L1 block
-- is read, if it has one, and of the transactions of a block their payloads.
pub record EspressoClient : Type 1 where
  pub Client : Type 0
  pub fetch_latest_block_height : Client → Option ℕ × Client
  pub fetch_header_by_height : Client → ℕ → Option (Option ℕ) × Client
  pub fetch_namespace_transactions_in_range :
      Client → ℕ → ℕ → ℕ → Option (List (List Bytes)) × Client

-- `map[uint64]*MessageWithMetadataAndPos`, in no particular order, each key once.
abbrev pub Messages : Type 0
Messages = List (ℕ × MessageWithMetadataAndPos)

unfoldable pub lookup : ℕ → Messages → Option MessageWithMetadataAndPos
lookup pos [] = none
lookup pos ((key, msg) ∷ ms) = if key == pos then some msg else lookup pos ms

unfoldable pub delete : ℕ → Messages → Messages
delete pos [] = []
delete pos ((key, msg) ∷ ms) =
    let rest = delete pos ms in if key == pos then rest else (key, msg) ∷ rest

pub record NitroStreamer (e : EspressoClient) : Type 0 where
  pub espresso_client : e.Client
  pub next_hotshot_block_num : ℕ
  pub current_message_pos : ℕ
  pub namespace : ℕ
  pub messages : Messages
  pub highest_pos : ℕ
  pub monitor : BatcherAddrMonitor

unfoldable pub new_espresso_streamer :
    {e : EspressoClient}
    → (Bytes → Address)
    → ℕ
    → ℕ
    → e.Client
    → List AddressValidRangeConfig
    → ℕ
    → NitroStreamer e
new_espresso_streamer hex_to_address namespace next client ranges start = record {
  espresso_client = client;
  next_hotshot_block_num = next;
  current_message_pos = start;
  namespace = namespace;
  messages = [];
  highest_pos = 1;
  monitor = new_monitor hex_to_address ranges;
}

-- The heights of the messages that are looked at for the lowest one.
unfoldable pub min_height : ℕ → Messages → ℕ → ℕ
min_height pos [] low = low
min_height pos ((key, msg) ∷ ms) low =
    min_height pos ms (
      if leb pos key then (if ltb msg.hotshot_height low then msg.hotshot_height else low) else low)

-- The loop of `AdvanceTo`, which deletes `n` positions from `pos` on.
unfoldable pub delete_range : ℕ → ℕ → Messages → Messages
delete_range pos zero ms = ms
delete_range pos (suc n) ms = delete_range (pos + 1) n (delete pos ms)

-- The loop over the higher positions, from `next` up to `highest`, on fuel: the lowest height found.
-- The counter wraps; with `highest` at the end of the uint64 range no fuel is enough.
unfoldable pub lower_height : ℕ → Messages → ℕ → ℕ → ℕ → Option ℕ
lower_height zero ms next highest height = none
lower_height (suc fuel) ms next highest height =
    let rest = lower_height fuel ms (add64 next 1) highest (elim (lookup next ms) [
      | none ↦ height
      | some higher ↦ if ltb higher.hotshot_height height then higher.hotshot_height else height
    ]) in
    if leb next highest then rest else some height

-- `CanBatcherAddressSend` fails on the client's errors and without a finalized L1 block.
pub data SendError : Type 0 where
  no_latest_height no_header no_l1_finalized : SendError

module _ {e : EspressoClient} where
  unfoldable pub can_batcher_address_send :
      NitroStreamer e → Address → Result SendError Bool × NitroStreamer e
  can_batcher_address_send s address =
      let (latest, client) = e.fetch_latest_block_height s.espresso_client in
      elim latest [
        | none ↦ (err no_latest_height, record s { espresso_client = client })
        | some height ↦
            let (header, client') = e.fetch_header_by_height client (sub64 height 1) in
            let s' = record s { espresso_client = client' } in
            elim header [
              | none ↦ (err no_header, s')
              | some none ↦ (err no_l1_finalized, s')
              | some (some number) ↦ (ok (is_valid s.monitor address number), s')
            ]
      ]

  -- The loop of `GetMessageCount` on fuel: a position without a message ends it, and there
  -- is none behind the highest one.
  unfoldable pub count_loop : ℕ → NitroStreamer e → ℕ → Option ℕ
  count_loop zero s count = none
  count_loop (suc fuel) s count =
      let rest = count_loop fuel s (add64 count 1) in
      elim (lookup count s.messages) [ none ↦ some count | some msg ↦ rest ]

  unfoldable pub get_message_count : NitroStreamer e → Option ℕ
  unfolding count_loop
  get_message_count s =
      count_loop (suc (suc s.highest_pos - s.current_message_pos)) s s.current_message_pos

  unfoldable pub reset : NitroStreamer e → ℕ → ℕ → NitroStreamer e
  reset s current_message_pos current_hotshot_block = record s {
    current_message_pos = current_message_pos;
    next_hotshot_block_num = current_hotshot_block;
    highest_pos = current_message_pos;
    messages = [];
  }

  unfoldable pub get_msg : NitroStreamer e → ℕ → Option MessageWithMetadataAndPos
  get_msg s pos = lookup pos s.messages

  unfoldable pub peek : NitroStreamer e → Option MessageWithMetadataAndPos
  peek s = lookup s.current_message_pos s.messages

  unfoldable pub advance : NitroStreamer e → NitroStreamer e
  advance s = record s {
    messages = delete s.current_message_pos s.messages;
    current_message_pos = add64 s.current_message_pos 1;
  }

  unfoldable pub advance_to : NitroStreamer e → ℕ → NitroStreamer e
  unfolding delete_range
  advance_to s to_pos = if leb to_pos s.current_message_pos then s else record s {
    messages = delete_range s.current_message_pos (to_pos - s.current_message_pos) s.messages;
    current_message_pos = to_pos;
  }

  unfoldable pub get_current_earliest_hot_shot_block_number : NitroStreamer e → ℕ → ℕ
  unfolding min_height
  get_current_earliest_hot_shot_block_number s pos =
      if length s.messages == 0 then s.next_hotshot_block_num else elim (lookup pos s.messages) [
        | some msg ↦ msg.hotshot_height
        | none ↦ min_height pos s.messages s.next_hotshot_block_num
      ]

  -- The body of the loop of `parseEspressoTransaction`: one message goes into the map. `none` is a
  -- call that does not return.
  unfoldable pub queue_message :
      NitroStreamer e → MessageWithMetadataAndPos → Option (NitroStreamer e)
  unfolding lower_height
  queue_message s msg =
      if ltb msg.pos s.current_message_pos then some s else elim (lookup msg.pos s.messages) [
        | some other ↦ some s
        | none ↦
            let highest = if ltb s.highest_pos msg.pos then msg.pos else s.highest_pos in
            elim (lower_height (suc (highest - msg.pos)) s.messages (add64 msg.pos 1) highest
              msg.hotshot_height) [
                | none ↦ none
                | some height ↦ some (record s {
                  highest_pos = highest;
                  messages = (msg.pos, record msg { hotshot_height = height }) ∷ s.messages;
                })
              ]
      ]

  -- The loop on fuel, which bounds the messages left in the iterator.
  unfoldable pub queue_loop : ℕ → NitroStreamer e → MessageIterator → Option (NitroStreamer e)
  unfolding queue_message
  queue_loop zero s it = none
  queue_loop (suc fuel) s it =
      let (answer, it') = next_message s.next_hotshot_block_num it in
      elim answer [
        | none ↦ some s
        | some msg ↦ elim (queue_message s msg) [ none ↦ none | some s' ↦ queue_loop fuel s' it' ]
      ]
