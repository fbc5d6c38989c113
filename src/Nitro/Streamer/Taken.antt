-- ===== src/Nitro/Streamer/Taken.antt =====
-- The messages that a user of the nitro streamer takes are the ones that are due, and authentic.
use espresso_streamers.Base.{
  ℕ, ◌≡◌, refl, sym, subst, Option, none, some, List, [], ◌∷◌, ◌++◌, All, arith, add64,
}
use espresso_streamers.Op.Batch.{Address}
use espresso_streamers.Nitro.Bytes.{Bytes}
use espresso_streamers.Nitro.Types.{MessageWithMetadataAndPos}
use espresso_streamers.Nitro.Codec.{Codec}
use espresso_streamers.Nitro.Monitor.{
  BatcherAddrMonitor, AddressValidRangeConfig, new_monitor, is_valid,
}
use espresso_streamers.Nitro.Streamer.{EspressoClient, NitroStreamer, peek, advance}
use espresso_streamers.Nitro.Streamer.Queue.{IsEntry, IsQueue, All-lookup}
use espresso_streamers.Nitro.Streamer.Outcome.{IsBounded}
use espresso_streamers.Nitro.Streamer.Interleave.{System, work, Steps, works, advances, stop, step}
use espresso_streamers.Nitro.Streamer.Reach.{started, IsSystem, Steps-IsSystem, started-IsSystem}
use espresso_streamers.Nitro.Streamer.Authentic.{IsAuthentic}
use espresso_streamers.Nitro.Streamer.Guarded.{IsGuarded}
use espresso_streamers.Nitro.Streamer.Signed.{Steps-IsGuarded, started-IsGuarded}
use espresso_streamers.Nitro.Streamer.Consume.{
  Consumes, begins, goes_on, peeks, takes, work-position,
}

-- The messages have the positions from `pos` on, each once and in order.
abbrev pub Succeeds : ℕ → List MessageWithMetadataAndPos → Type 0
Succeeds pos [] = Unit
Succeeds pos (m ∷ ms) = (m.pos ≡ pos) × Succeeds (add64 pos 1) ms

-- The position behind the messages.
abbrev pub behind : ℕ → List MessageWithMetadataAndPos → ℕ
behind pos [] = pos
behind pos (m ∷ ms) = behind (add64 pos 1) ms

behind-append :
    (pos : ℕ) (ms : List MessageWithMetadataAndPos) (m : MessageWithMetadataAndPos)
    → behind pos (ms ++ (m ∷ [])) ≡ add64 (behind pos ms) 1
behind-append pos [] m = refl
behind-append pos (x ∷ ms) m = behind-append (add64 pos 1) ms m

Succeeds-append :
    (pos : ℕ) (ms : List MessageWithMetadataAndPos) (m : MessageWithMetadataAndPos)
    → Succeeds pos ms
    → m.pos ≡ behind pos ms
    → Succeeds pos (ms ++ (m ∷ []))
Succeeds-append pos [] m h e = (e, tt)
Succeeds-append pos (x ∷ ms) m (f, h) e = (f, Succeeds-append (add64 pos 1) ms m h e)

All-append :
    (P : MessageWithMetadataAndPos → Type 0) (ms : List MessageWithMetadataAndPos)
    (m : MessageWithMetadataAndPos)
    → All P ms
    → P m
    → All P (ms ++ (m ∷ []))
All-append P [] m h p = (p, tt)
All-append P (x ∷ ms) m (q, h) p = (q, All-append P ms m h p)

-- A message that is authentic at its own position.
abbrev pub IsGenuine : Codec → BatcherAddrMonitor → ℕ → MessageWithMetadataAndPos → Type 0
IsGenuine c monitor namespace m = IsAuthentic c (is_valid monitor) namespace (m.pos, m)

module _ {e : EspressoClient} where
  module _ (c : Codec) (monitor : BatcherAddrMonitor) (namespace : ℕ) where
    -- What holds of the system, of what was taken from position `start` on, and of what is held.
    record IsServed (start : ℕ) (y : System e) (taken : List MessageWithMetadataAndPos)
        (held : Option MessageWithMetadataAndPos) : Type 0 where
      system : IsSystem y
      guarded : IsGuarded c monitor namespace y.streamer
      position : y.streamer.current_message_pos ≡ behind start taken
      succeeds : Succeeds start taken
      genuine : All (IsGenuine c monitor namespace) taken
      next :
          (m : MessageWithMetadataAndPos)
          → held ≡ some m
          → (m.pos ≡ y.streamer.current_message_pos) × IsGenuine c monitor namespace m

    -- `Peek` answers with the authentic message of the current position, or with nothing.
    peek-IsGenuine :
        (s : NitroStreamer e) (m : MessageWithMetadataAndPos)
        → IsQueue s
        → IsGuarded c monitor namespace s
        → peek s ≡ some m
        → (m.pos ≡ s.current_message_pos) × IsGenuine c monitor namespace m
    unfolding peek
    peek-IsGenuine s m q g f =
        let entry =
          All-lookup (IsEntry s.current_message_pos s.highest_pos s.next_hotshot_block_num)
            s.messages s.current_message_pos m q.entries f in
        let authentic =
          All-lookup (IsAuthentic c (is_valid monitor) namespace) s.messages s.current_message_pos m
            g.entries f in
        (
          entry.0,
          subst (λ p. IsAuthentic c (is_valid monitor) namespace (p, m)) (sym entry.0) authentic,
        )

    goes_on-IsServed :
        (start : ℕ) (y z : System e) (taken : List MessageWithMetadataAndPos)
        (held : Option MessageWithMetadataAndPos)
        → IsBounded e
        → IsServed start y taken held
        → work c y.streamer y.round ≡ some z
        → IsServed start z taken held
    goes_on-IsServed start y z taken held bounded v w =
        let r = work-position c y.streamer y.round z bounded v.system.queue w in
        record {
          system = Steps-IsSystem c y bounded (step stop (works w)) v.system;
          guarded = Steps-IsGuarded c monitor namespace y bounded (step stop (works w)) v.guarded;
          position = ground (arith, r, v.position);
          succeeds = v.succeeds;
          genuine = v.genuine;
          next = λ m f. let (p, g) = v.next m f in (ground (arith, p, r), g);
        }

    peeks-IsServed :
        (start : ℕ) (y : System e) (taken : List MessageWithMetadataAndPos)
        (held : Option MessageWithMetadataAndPos)
        → IsServed start y taken held
        → IsServed start y taken (peek y.streamer)
    peeks-IsServed start y taken held v = record {
      system = v.system;
      guarded = v.guarded;
      position = v.position;
      succeeds = v.succeeds;
      genuine = v.genuine;
      next = λ m f. peek-IsGenuine y.streamer m v.system.queue v.guarded f;
    }

    takes-IsServed :
        (start : ℕ) (y : System e) (taken : List MessageWithMetadataAndPos)
        (m : MessageWithMetadataAndPos)
        → IsBounded e
        → IsServed start y taken (some m)
        → IsServed start (record y { streamer = advance y.streamer }) (taken ++ (m ∷ [])) none
    unfolding advance
    takes-IsServed start y taken m bounded v =
        let (p, g) = v.next m refl in
        record {
          system = Steps-IsSystem c y bounded (step stop advances) v.system;
          guarded = Steps-IsGuarded c monitor namespace y bounded (step stop advances) v.guarded;
          position = ground (arith, v.position, behind-append start taken m);
          succeeds = Succeeds-append start taken m v.succeeds (ground (arith, p, v.position));
          genuine = All-append (IsGenuine c monitor namespace) taken m v.genuine g;
          next = λ n f. cc;
        }

    Consumes-IsServed :
        (x y : System e) {taken : List MessageWithMetadataAndPos}
        {held : Option MessageWithMetadataAndPos}
        → IsBounded e
        → IsSystem x
        → IsGuarded c monitor namespace x.streamer
        → Consumes c x y taken held
        → IsServed x.streamer.current_message_pos y taken held
    Consumes-IsServed x y bounded v g begins = record {
      system = v;
      guarded = g;
      position = refl;
      succeeds = tt;
      genuine = tt;
      next = λ m f. cc;
    }
    Consumes-IsServed x _ {taken} {held} bounded v g (goes_on {y} {z} k w) =
        goes_on-IsServed x.streamer.current_message_pos y z taken held bounded
          (Consumes-IsServed x y bounded v g k) w
    Consumes-IsServed x y {taken} bounded v g (peeks {held} k) =
        peeks-IsServed x.streamer.current_message_pos y taken held
          (Consumes-IsServed x y bounded v g k)
    Consumes-IsServed x _ bounded v g (takes {y} {ms} {m} k) =
        takes-IsServed x.streamer.current_message_pos y ms m bounded
          (Consumes-IsServed x y bounded v g k)

  -- After any history of a new streamer, with a client that reports heights below 2^64, a user who
  -- from then on only peeks, and advances over what `Peek` answered, while the goroutine works at any
  -- point, also between the two calls, takes the messages of the positions from the current one on,
  -- one for each and in order, and the streamer then stands behind them; each message is authentic for
  -- the addresses of the new streamer.
  pub takes_in_order :
      (c : Codec) (hex : Bytes → Address) (namespace first : ℕ) (client : e.Client)
      (ranges : List AddressValidRangeConfig) (start : ℕ) (x y : System e)
      (taken : List MessageWithMetadataAndPos) (held : Option MessageWithMetadataAndPos)
      → IsBounded e
      → Steps c (started hex namespace first client ranges start) x
      → Consumes c x y taken held
      → Succeeds x.streamer.current_message_pos taken
        × (y.streamer.current_message_pos ≡ behind x.streamer.current_message_pos taken)
        × All (IsGenuine c (new_monitor hex ranges) namespace) taken
  takes_in_order c hex namespace first client ranges start x y taken held bounded xs k =
      let z = started hex namespace first client ranges start in
      let v =
        Consumes-IsServed c (new_monitor hex ranges) namespace x y bounded
          (Steps-IsSystem c z bounded xs (started-IsSystem hex namespace first client ranges start))
          (Steps-IsGuarded c (new_monitor hex ranges) namespace z bounded xs
            (started-IsGuarded c hex namespace first client ranges start))
          k in
      (v.succeeds, v.position, v.genuine)
