-- ===== src/Nitro/V0/Tests.antt =====
-- The theorems on the version 0 format at concrete inputs.
use espresso_streamers.Base.{◌≡◌, refl, none, some, [], ◌∷◌, arith, ok}
use espresso_streamers.Nitro.Bytes.{Bytes, put_uint64}
use espresso_streamers.Nitro.Types.{V0SignatureAndMessages}
use espresso_streamers.Nitro.Demo.{demo_codec}
use espresso_streamers.Nitro.Demo.Faithful.{demo_codec-IsFaithful}
use espresso_streamers.Nitro.V0.{
  encode_v0_message_and_index, encode_v0_message_and_indexes, encode_v0_signature_and_messages,
  parse_v0_signature_and_messages,
}
use espresso_streamers.Nitro.V0.RoundTrip.{v0_round_trip}

abbrev signed : V0SignatureAndMessages
signed = record {
  signature = 1 ∷ 2 ∷ [];
  hash = 7;
  messages =
      record { pos = 300; message = record { message = none; delayed_messages_read = 3 } } ∷ [];
}

abbrev written : Bytes
written =
    0 ∷ 0 ∷ 0 ∷ 0 ∷ 0 ∷ 0 ∷ 0 ∷ 2 ∷ 1 ∷ 2 ∷ 0 ∷ 0 ∷ 0 ∷ 0 ∷ 0 ∷ 0 ∷ 1 ∷ 44 ∷ 0 ∷ 0 ∷ 0 ∷ 0 ∷ 0 ∷ 0
    ∷ 0 ∷ 1 ∷ 3 ∷ []

written_lem : encode_v0_signature_and_messages demo_codec signed ≡ some written
unfolding encode_v0_signature_and_messages encode_v0_message_and_indexes encode_v0_message_and_index
    put_uint64
written_lem = refl

v0_round_trip_example :
    (user_data : Bytes) × (encode_v0_message_and_indexes demo_codec signed.messages
      ≡ some user_data)
    × (parse_v0_signature_and_messages demo_codec written ≡ ok signed)
v0_round_trip_example =
    v0_round_trip demo_codec signed written (demo_codec-IsFaithful _, tt) (omega arith, tt)
      written_lem (omega arith)
