-- ===== src/Shm/Refused.antt =====
-- A payload that was changed after its checksum was computed.
use caldera_sandbox.Base.{
  ℕ, ◌<◌, ◌≡◌, ◌≢◌, sym, ap, ◌∙◌, inl, inr, false, Bool-cases, List, ◌∷◌, ◌++◌, arith, ◌==◌, ==_iff,
}
use caldera_sandbox.Base.Words.{u32_mod}
use caldera_sandbox.Checksum.{crc32}
use caldera_sandbox.Checksum.Detect.{crc32-changed}
use caldera_sandbox.Shm.Segment.{Segment}
use caldera_sandbox.Shm.Reader.{FrameView, verify_checksum, payload}

-- For a view with a CRC32 other than 0 and with at least one value: when the payload differs in one value,
-- by its 32-bit pattern, from the one that the checksum is of, verifyChecksum answers that it is not valid
-- and marks the view so.
pub verify_checksum-changed :
    (view : FrameView) (m : Segment) (xs ys : List ℕ) (v w : ℕ)
    → v < u32_mod
    → w < u32_mod
    → v ≢ w
    → view.checksum_algorithm ≡ 1
    → view.checksum ≢ 0
    → view.float_count ≢ 0
    → view.checksum ≡ crc32 (xs ++ v ∷ ys)
    → payload view m ≡ xs ++ w ∷ ys
    → verify_checksum view m ≡ (false, record view { checksum_valid = false })
unfolding verify_checksum
verify_checksum-changed view m xs ys v w p q differs crc some_sum some_value sum seen =
    elim (Bool-cases (crc32 (payload view m) == view.checksum)) [
      | inl e ↦ absurd (
          crc32-changed xs ys v w p q differs
            (sym sum ∙ sym ((==_iff (crc32 (payload view m)) view.checksum).0 e) ∙ ap crc32 seen))
      | inr e ↦ ground arith
    ]
