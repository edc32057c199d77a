-- ===== src/Shm/Delivery.antt =====
-- `sendWorldFrame` of well-formed frames: what it returns, and what readers then see.
use caldera_sandbox.Base.{
  ℕ, ◌≡◌, refl, ◌∙◌, Option, none, some, Bool, true, false, arith, Bool-cases, inl, inr,
  if◌then◌else◌, ◌⊎◌,
}
use caldera_sandbox.Base.Words.{inc64}
use caldera_sandbox.Base.Float.{Float}
use caldera_sandbox.World.{WorldFrame}
use caldera_sandbox.Shm.Segment.{Segment}
use caldera_sandbox.Shm.Server.{Server, Attempt, capacity, exceeds, ensure_mapped, choose_checksum}
use caldera_sandbox.Shm.Send.{
  write_index, account, publish, send_mapped, send_world_frame, drop_frame, attempted,
}
use caldera_sandbox.Shm.Reader.{ShmReader, observe}
use caldera_sandbox.Shm.Atomic.{IsValid, published_view, observe-published}
use caldera_sandbox.Shm.Publish.{published}
use caldera_sandbox.Shm.Lifecycle.{
  IsLive, IsReady, IsWellFormed, fits_of_not_exceeds, publish-IsValid,
}

-- The counters that a call moves on: none of a producer that does not run; else that of the attempts, and,
-- by the frame's dimensions, that of the drops or that of the publications.
abbrev pub Accounted : {D : Type 0} → WorldFrame → Server D → Server D → Type 0
Accounted frame s s' =
    ((s.running ≡ false) × (s' ≡ s))
    ⊎ ((s.running ≡ true)
        × (exceeds s.config frame.height_map ≡ true)
        × (s'.stats.frames_attempted ≡ inc64 s.stats.frames_attempted)
        × (s'.stats.frames_dropped_capacity ≡ inc64 s.stats.frames_dropped_capacity)
        × (s'.stats.frames_published ≡ s.stats.frames_published))
    ⊎ ((s.running ≡ true)
        × (exceeds s.config frame.height_map ≡ false)
        × (s'.stats.frames_attempted ≡ inc64 s.stats.frames_attempted)
        × (s'.stats.frames_dropped_capacity ≡ s.stats.frames_dropped_capacity)
        × (s'.stats.frames_published ≡ inc64 s.stats.frames_published))

module _ {D : Type 0} ⦃d : Float D⦄ (os : Attempt) (now₁ now₂ : ℕ) (frame : WorldFrame)
    (s : Server D) where
  pub send-eq :
      (m : Segment)
      → s.running ≡ true
      → s.mapping ≡ some m
      → send_world_frame os now₁ now₂ frame s ≡ (
          if exceeds s.config frame.height_map
          then some (drop_frame (attempted s))
          else publish now₁ now₂ frame m (attempted s))
  unfolding send_world_frame ensure_mapped send_mapped
  send-eq m e k = ground arith

  off-eq : s.running ≡ false → send_world_frame os now₁ now₂ frame s ≡ some s
  unfolding send_world_frame
  off-eq e = ground arith

  drop-IsReady : IsReady s → IsReady (drop_frame (attempted s))
  unfolding drop_frame attempted
  drop-IsReady v = record { within = v.within; live = v.live; counted = omega (arith, v.counted) }

  account-IsReady :
      (m : Segment) (last : ℕ)
      → IsReady s
      → s.running ≡ true
      → IsValid (capacity s.config) m
      → IsReady (account last now₂ frame m (attempted s))
  unfolding account attempted
  account-IsReady m last v on ok = record {
    within = v.within;
    live = rw on ok;
    counted = omega (arith, v.counted);
  }

  pub live-IsValid :
      (m : Segment)
      → IsReady s
      → s.running ≡ true
      → s.mapping ≡ some m
      → IsValid (capacity s.config) m
  live-IsValid m v on mapped =
      let l : IsLive (capacity s.config) s.running s.mapping = v.live in rw (on, mapped) at l

  IsReady-cases :
      IsReady s
      → (s.running ≡ false)
        ⊎ ((m : Segment) × (s.running ≡ true)
            × (s.mapping ≡ some m)
            × IsValid (capacity s.config) m)
  IsReady-cases v = go s.running s.mapping refl refl v.live
    where
      go :
          (b : Bool) (o : Option Segment)
          → s.running ≡ b
          → s.mapping ≡ o
          → IsLive (capacity s.config) b o
          → (s.running ≡ false)
            ⊎ ((m : Segment) × (s.running ≡ true)
                × (s.mapping ≡ some m)
                × IsValid (capacity s.config) m)
      go false o e k l = inl e
      go true none e k l = absurd l
      go true (some m) e k l = inr (m, e, k, l)

  -- When the producer is well formed, sending a well-formed frame returns, so nothing is written outside
  -- the mapping. The producer is then well formed, and it runs just if it did. One that does not run is left
  -- as it was; one that runs counts the frame as attempted, and as dropped when its dimensions exceed the
  -- producer's, as published otherwise.
  pub send-IsReady :
      IsReady s
      → IsWellFormed frame.height_map
      → (s' : Server D) × (send_world_frame os now₁ now₂ frame s ≡ some s')
        × IsReady s'
        × (s'.running ≡ s.running)
        × Accounted frame s s'
  unfolding account drop_frame attempted
  send-IsReady v w = elim (IsReady-cases v) [
    | inl off ↦ (s, off-eq off, v, refl, inl (off, refl))
    | inr (m, on, mapped, ok) ↦ elim (Bool-cases (exceeds s.config frame.height_map)) [
      | inl big ↦ (
        drop_frame (attempted s),
        send-eq m on mapped ∙ rw big refl,
        drop-IsReady v,
        refl,
        inr (inl (on, big, refl, refl, refl)),
      )
      | inr small ↦
          let fits = fits_of_not_exceeds s.config frame.height_map w small in
          let (ran, ok') = publish-IsValid now₁ now₂ frame m (attempted s) ok fits in
          let last = (choose_checksum (attempted s) frame now₁).1 in
          (
            account last now₂ frame _ (attempted s),
            send-eq m on mapped ∙ rw small ran,
            account-IsReady _ last v on ok',
            refl,
            inr (inr (on, small, refl, refl, refl)),
          )
    ]
  ]

  -- When a well-formed producer runs, a well-formed frame of accepted dimensions is sent without a
  -- fault, and a reader that is open with the producer's buffer size then sees the frame's identity, size
  -- and payload, and the checksum that was chosen.
  pub send_delivers :
      (r : ShmReader) (m : Segment)
      → IsReady s
      → IsWellFormed frame.height_map
      → s.running ≡ true
      → s.mapping ≡ some m
      → exceeds s.config frame.height_map ≡ false
      → r.mapped ≡ true
      → r.capacity ≡ capacity s.config
      → (s' : Server D) × (m' : Segment) × (send_world_frame os now₁ now₂ frame s ≡ some s')
        × (s'.mapping ≡ some m')
        × (observe r m'
            ≡ some (
              published_view r m frame (choose_checksum s frame now₁).0,
              frame.height_map.data_words,
            ))
  unfolding account attempted choose_checksum
  send_delivers r m v w on mapped small open_ same =
      let ok : IsValid (capacity s.config) m = live-IsValid m v on mapped in
      let fits = fits_of_not_exceeds s.config frame.height_map w small in
      let (cs, last) = choose_checksum s frame now₁ in
      let (ran, ok') = publish-IsValid now₁ now₂ frame m (attempted s) ok fits in
      (
        account last now₂ frame (published (capacity s.config) (write_index m) frame cs m)
            (attempted s),
        published (capacity s.config) (write_index m) frame cs m,
        send-eq m on mapped ∙ rw small ran,
        refl,
        observe-published r (capacity s.config) (write_index m) m frame cs ok same open_
            (omega (arith, ok.active)) fits,
      )
