-- ===== src/Nitro/Payload/Tests.antt =====
-- The theorems on payloads at concrete inputs.
use espresso_streamers.Base.{ℕ, ◌≡◌, ◌≢◌, refl, Bool, none, some, [], ◌∷◌, leb}
use espresso_streamers.Op.Batch.{Address}
use espresso_streamers.Nitro.Bytes.{put_uint64}
use espresso_streamers.Nitro.Types.{
  MessageWithMetadata, BroadcastFeedMessage, L1IncomingMessage, L1IncomingMessageHeader,
}
use espresso_streamers.Nitro.Demo.{demo_codec}
use espresso_streamers.Nitro.Payload.{build_raw_hot_shot_payload, build_loop, verify_v1_message}
use espresso_streamers.Nitro.Payload.Ambiguous.{original, forged, verify-forged}
use espresso_streamers.Nitro.Payload.Build.{Built, build-Built, fetcher}

abbrev stored : ℕ → MessageWithMetadata
stored p = record { message = none; delayed_messages_read = p }

build-Built_example :
    Built demo_codec stored 4130
      (4 ∷ 5 ∷ 6 ∷ [])
      (build_raw_hot_shot_payload (4 ∷ 5 ∷ 6 ∷ []) (fetcher demo_codec stored) 4130)
build-Built_example = build-Built demo_codec stored 4130 (4 ∷ 5 ∷ 6 ∷ [])

-- Two of three messages fit.
builds_two : (build_raw_hot_shot_payload (4 ∷ 5 ∷ 6 ∷ []) (fetcher demo_codec stored) 4130).1 ≡ 2
unfolding build_raw_hot_shot_payload build_loop put_uint64
builds_two = refl

abbrev message : BroadcastFeedMessage
message = record {
  sequence_number = 3;
  message = record {
    message = some (record {
      header = some (record {
        kind = 3;
        poster = 9;
        block_number = 2;
        timestamp = 4;
        request_id = none;
        l1_base_fee = none;
      });
      l2msg = [];
      legacy_batch_gas_cost = none;
      batch_data_stats = none;
    });
    delayed_messages_read = 2;
  };
  signature = [];
  signature_v2 = 1 ∷ [];
  block_metadata = [];
  cumulative_sum_msg_size = 0;
  block_hash = none;
}

abbrev valid : Address → ℕ → Bool
valid address height = leb height 5

abbrev incoming : L1IncomingMessage
incoming = record {
  header = none;
  l2msg = [];
  legacy_batch_gas_cost = none;
  batch_data_stats = none;
}

abbrev incoming_header : L1IncomingMessageHeader
incoming_header = record {
  kind = 3;
  poster = 9;
  block_number = 2;
  timestamp = 4;
  request_id = none;
  l1_base_fee = none;
}

verify-forged_example :
    (verify_v1_message demo_codec valid 1 4 (forged message incoming incoming_header 6 (8 ∷ []))
      ≡ verify_v1_message demo_codec valid 1 4
          (original demo_codec message incoming incoming_header 6 (8 ∷ [])))
    × (forged message incoming incoming_header 6 (8 ∷ [])
        ≢ original demo_codec message incoming incoming_header 6 (8 ∷ []))
verify-forged_example =
    verify-forged demo_codec message incoming incoming_header 6 (8 ∷ []) valid 1 4 refl
