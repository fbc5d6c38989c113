-- ===== src/Nitro/Streamer/Lasting.antt =====
-- A message that the nitro streamer keeps stays in its map until the user takes it.
use espresso_streamers.Base.{
  ℕ, ◌≤◌, ◌≡◌, ◌⊎◌, inl, inr, refl, Option, none, some, List, [], ◌∷◌, ◌++◌, ◌==◌, arith,
  Bool-cases,
}
use mathlib.Core.List.Memᴰ
use mathlib.Core.List.{Memᴰ}
use espresso_streamers.Op.Batch.{Address}
use espresso_streamers.Nitro.Bytes.{Bytes}
use espresso_streamers.Nitro.Types.{MessageWithMetadataAndPos}
use espresso_streamers.Nitro.Codec.{Codec}
use espresso_streamers.Nitro.Monitor.{AddressValidRangeConfig}
use espresso_streamers.Nitro.Streamer.{EspressoClient, lookup, get_msg, peek, advance}
use espresso_streamers.Nitro.Streamer.Queue.{IsEntry, All-lookup}
use espresso_streamers.Nitro.Streamer.Outcome.{IsBounded}
use espresso_streamers.Nitro.Streamer.Refines.{lookup-delete}
use espresso_streamers.Nitro.Streamer.Stable.{work-lookup}
use espresso_streamers.Nitro.Streamer.Interleave.{System, work, Steps, works, advances, stop, step}
use espresso_streamers.Nitro.Streamer.Reach.{started, IsSystem, Steps-IsSystem, started-IsSystem}
use espresso_streamers.Nitro.Streamer.Consume.{
  Consumes, begins, goes_on, peeks, takes, work-position,
}

module _ {e : EspressoClient} where
  -- The message `m` of position `p` is kept or taken, and what is held is still kept.
  record Lasts (p : ℕ) (m : MessageWithMetadataAndPos) (y : System e)
      (taken : List MessageWithMetadataAndPos) (held : Option MessageWithMetadataAndPos)
      : Type 0 where
    system : IsSystem y
    kept : (lookup p y.streamer.messages ≡ some m) ⊎ Memᴰ m taken
    current :
        (n : MessageWithMetadataAndPos)
        → held ≡ some n
        → lookup y.streamer.current_message_pos y.streamer.messages ≡ some n

  goes_on-Lasts :
      (c : Codec) (p : ℕ) (m : MessageWithMetadataAndPos) (y z : System e)
      (taken : List MessageWithMetadataAndPos) (held : Option MessageWithMetadataAndPos)
      → IsBounded e
      → Lasts p m y taken held
      → work c y.streamer y.round ≡ some z
      → Lasts p m z taken held
  goes_on-Lasts c p m y z taken held bounded v w = record {
    system = Steps-IsSystem c y bounded (step stop (works w)) v.system;
    kept = elim v.kept [
      | inl f ↦ inl (work-lookup c y.streamer y.round z p m bounded w f)
      | inr h ↦ inr h
    ];
    current = λ n f. rw (work-position c y.streamer y.round z bounded v.system.queue w) (
        work-lookup c y.streamer y.round z y.streamer.current_message_pos n bounded w
          (v.current n f));
  }

  takes-Lasts :
      (c : Codec) (p : ℕ) (m : MessageWithMetadataAndPos) (y : System e)
      (taken : List MessageWithMetadataAndPos) (n : MessageWithMetadataAndPos)
      → IsBounded e
      → Lasts p m y taken (some n)
      → Lasts p m (record y { streamer = advance y.streamer }) (taken ++ (n ∷ [])) none
  unfolding advance
  takes-Lasts c p m y taken n bounded v =
      let current = y.streamer.current_message_pos in
      let deleted = lookup-delete current p y.streamer.messages in
      record {
        system = Steps-IsSystem c y bounded (step stop advances) v.system;
        kept = elim v.kept [
          | inr h ↦ inr (Memᴰ.append_left (n ∷ []) h)
          | inl f ↦ elim (Bool-cases (p == current)) [
            | inr t ↦ inl (ground (arith, deleted, t, f))
            | inl t ↦
                let same : m ≡ n = ground (arith, t, f, v.current n refl) in
                inr (Memᴰ.append_right taken (Memᴰ.head same))
          ]
        ];
        current = λ n f. cc;
      }

  Consumes-Lasts :
      (c : Codec) (p : ℕ) (m : MessageWithMetadataAndPos) (x y : System e)
      {taken : List MessageWithMetadataAndPos} {held : Option MessageWithMetadataAndPos}
      → IsBounded e
      → IsSystem x
      → lookup p x.streamer.messages ≡ some m
      → Consumes c x y taken held
      → Lasts p m y taken held
  unfolding peek
  Consumes-Lasts c p m x y bounded v f begins = record {
    system = v;
    kept = inl f;
    current = λ n f. cc;
  }
  Consumes-Lasts c p m x _ {taken} {held} bounded v f (goes_on {y} {z} k w) =
      goes_on-Lasts c p m y z taken held bounded (Consumes-Lasts c p m x y bounded v f k) w
  Consumes-Lasts c p m x y bounded v f (peeks k) =
      let w = Consumes-Lasts c p m x y bounded v f k in
      record { system = w.system; kept = w.kept; current = λ n f. f }
  Consumes-Lasts c p m x _ bounded v f (takes {y} {ms} {m = n} k) =
      takes-Lasts c p m y ms n bounded (Consumes-Lasts c p m x y bounded v f k)

  -- After any history of a new streamer, with a client that reports heights below 2^64, a message
  -- that `GetMsg` finds at a position stays as it is while a user peeks and advances over what they
  -- peeked at and the goroutine works at any point: either the user has taken it, or the streamer
  -- has not passed its position and `GetMsg` finds it there.
  pub kept_until_taken :
      (c : Codec) (hex : Bytes → Address) (namespace first : ℕ) (client : e.Client)
      (ranges : List AddressValidRangeConfig) (start p : ℕ) (m : MessageWithMetadataAndPos)
      (x y : System e) (taken : List MessageWithMetadataAndPos)
      (held : Option MessageWithMetadataAndPos)
      → IsBounded e
      → Steps c (started hex namespace first client ranges start) x
      → get_msg x.streamer p ≡ some m
      → Consumes c x y taken held
      → Memᴰ m taken ⊎ ((y.streamer.current_message_pos ≤ p) × (get_msg y.streamer p ≡ some m))
  unfolding get_msg
  kept_until_taken c hex namespace first client ranges start p m x y taken held bounded xs f k =
      let z = started hex namespace first client ranges start in
      let v =
        Consumes-Lasts c p m x y bounded
          (Steps-IsSystem c z bounded xs (started-IsSystem hex namespace first client ranges start))
          f k in
      elim v.kept [
        | inr h ↦ inl h
        | inl g ↦
            let s = y.streamer in
            let entry =
              All-lookup (IsEntry s.current_message_pos s.highest_pos s.next_hotshot_block_num)
                s.messages p m v.system.queue.entries g in
            inr (entry.1, g)
      ]
