-- ===== src/Shm/Send.antt =====
-- `SharedMemoryTransportServer::sendWorldFrame`, as the sequence of its writes to the segment.
use caldera_sandbox.Base.{
  ℕ, ◌*◌, ◌%◌, Option, none, some, List, [], ◌∷◌, ◌++◌, if◌then◌else◌, length,
}
use caldera_sandbox.Base.Int.{to_u32}
use caldera_sandbox.Base.Words.{u32_mod, inc64, add64, sub32}
use caldera_sandbox.Base.Float.{Float}
use caldera_sandbox.World.{WorldFrame}
use caldera_sandbox.Shm.Segment.{Segment, Store, meta, activate, run_stores, copy_words}
use caldera_sandbox.Shm.Server.{
  Server, Attempt, capacity, exceeds, ensure_mapped, choose_checksum, next_fps,
}

-- The writes of one publication to buffer `i`, whose capacity is `room` words, in program order.
unfoldable pub publish_stores : ℕ → ℕ → WorldFrame → ℕ → List Store
publish_stores room i frame cs =
    let hm = frame.height_map in
    meta i (λ b. record b { ready = 0 })
    ∷ meta i (λ b. record b { frame_id = frame.frame_id })
    ∷ meta i (λ b. record b { timestamp_ns = frame.timestamp_ns })
    ∷ meta i (λ b. record b { width = to_u32 hm.width })
    ∷ meta i (λ b. record b { height = to_u32 hm.height })
    ∷ meta i (λ b. record b { float_count = length hm.data_words % u32_mod })
    ∷ meta i (λ b. record b { checksum = cs })
    ∷ (copy_words (i * room) hm.data_words
        ++ (meta i (λ b. record b { ready = 1 }) ∷ activate i ∷ []))

-- `write_index`.
abbrev pub write_index : Segment → ℕ
write_index m = sub32 1 m.header.active_index

module _ {D : Type 0} ⦃d : Float D⦄ where
  -- The counters and clocks after a publication at `now`.
  unfoldable pub account : ℕ → ℕ → WorldFrame → Segment → Server D → Server D
  account last now frame m s = record s {
    mapping = some m;
    last_checksum_compute_ns = last;
    stats = record stats {
      frames_published = inc64 stats.frames_published;
      bytes_written = add64 stats.bytes_written (length frame.height_map.data_words * 4);
      last_publish_fps = next_fps s now;
    };
    last_publish_ts_ns = now;
  }
    where
      open s use {stats}

  -- `none` is a write outside the mapping.
  unfoldable pub publish : ℕ → ℕ → WorldFrame → Segment → Server D → Option (Server D)
  publish now₁ now₂ frame m s =
      let (cs, last) = choose_checksum s frame now₁ in
      let written = run_stores (publish_stores (capacity s.config) (write_index m) frame cs) m in
      elim written [ none ↦ none | some m' ↦ some (account last now₂ frame m' s) ]

  unfoldable pub drop_frame : Server D → Server D
  drop_frame s = record s {
    stats = record stats { frames_dropped_capacity = inc64 stats.frames_dropped_capacity };
  }
    where
      open s use {stats}

  unfoldable pub attempted : Server D → Server D
  attempted s = record s {
    stats = record stats { frames_attempted = inc64 stats.frames_attempted };
  }
    where
      open s use {stats}

  unfoldable pub send_mapped : ℕ → ℕ → WorldFrame → Server D → Option (Server D)
  send_mapped now₁ now₂ frame s =
      if exceeds s.config frame.height_map
      then some (drop_frame (attempted s))
      else elim s.mapping [ none ↦ none | some m ↦ publish now₁ now₂ frame m (attempted s) ]

  -- `now₁` is the clock at the checksum, `now₂` at the end.
  unfoldable pub send_world_frame : Attempt → ℕ → ℕ → WorldFrame → Server D → Option (Server D)
  send_world_frame os now₁ now₂ frame s =
      if s.running
      then (let (mapped, s') = ensure_mapped os s in
          if mapped then send_mapped now₁ now₂ frame s' else some s')
      else some s
