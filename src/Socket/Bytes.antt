-- ===== src/Socket/Bytes.antt =====
-- The header and the payload come back from their bytes.
use caldera_sandbox.Base.{
  ℕ, ◌*◌, ◌<◌, ◌≡◌, refl, ap, sym, ◌∙◌, List, [], ◌∷◌, ◌++◌, arith, length, All,
}
use caldera_sandbox.Base.Words.{u32_mod, u64_mod}
use caldera_sandbox.Base.Bytes.{to_bytes, of_bytes-to_bytes}
use caldera_sandbox.Socket.Wire.{
  WireHeader, wire_magic, header_image, read_image, words_image, read_words,
}

-- Every field fits its width on the wire.
pub record IsWire (h : WireHeader) : Type 0 where
  pub magic : h.magic ≡ wire_magic
  pub version : h.version < 65536
  pub header_bytes : h.header_bytes < 65536
  pub frame_id : h.frame_id < u64_mod
  pub timestamp_ns : h.timestamp_ns < u64_mod
  pub width : h.width < u32_mod
  pub height : h.height < u32_mod
  pub float_count : h.float_count < u32_mod
  pub checksum : h.checksum < u32_mod
  pub checksum_algorithm : h.checksum_algorithm < u32_mod

with_magic : (h : WireHeader) → h.magic ≡ wire_magic → h ≡ record h { magic = wire_magic }
with_magic h e = λ i. record h { magic = e i }

read-image :
    (h : WireHeader)
    → IsWire h
    → read_image (header_image (record h { magic = wire_magic })) ≡ record h { magic = wire_magic }
unfolding read_image header_image
read-image h ok = λ i. record {
  magic = wire_magic;
  version = of_bytes-to_bytes 2 h.version ok.version i;
  header_bytes = of_bytes-to_bytes 2 h.header_bytes ok.header_bytes i;
  frame_id = of_bytes-to_bytes 8 h.frame_id ok.frame_id i;
  timestamp_ns = of_bytes-to_bytes 8 h.timestamp_ns ok.timestamp_ns i;
  width = of_bytes-to_bytes 4 h.width ok.width i;
  height = of_bytes-to_bytes 4 h.height ok.height i;
  float_count = of_bytes-to_bytes 4 h.float_count ok.float_count i;
  checksum = of_bytes-to_bytes 4 h.checksum ok.checksum i;
  checksum_algorithm = of_bytes-to_bytes 4 h.checksum_algorithm ok.checksum_algorithm i;
}

-- A header whose magic bytes are right and whose fields fit their widths is read back from its
-- bytes.
pub read_image-header_image : (h : WireHeader) → IsWire h → read_image (header_image h) ≡ h
read_image-header_image h ok =
    let e = with_magic h ok.magic in
    ap (λ g. read_image (header_image g)) e ∙ read-image h ok ∙ sym e

pub length-header_image : (h : WireHeader) → h.magic ≡ wire_magic → length (header_image h) ≡ 44
unfolding header_image
length-header_image h e = ap (λ g. length (header_image g)) (with_magic h e)

pub length-words_image : (ws : List ℕ) → length (words_image ws) ≡ length ws * 4
unfolding words_image to_bytes
length-words_image [] = refl
length-words_image (w ∷ ws) = omega (arith, length-words_image ws)

-- A payload of 32-bit words is read back from its bytes, whatever follows.
pub read_words-words_image :
    (ws rest : List ℕ)
    → All (λ w. w < u32_mod) ws
    → read_words (length ws) (words_image ws ++ rest) ≡ ws
unfolding read_words words_image
read_words-words_image [] rest fits = refl
read_words-words_image (w ∷ ws) rest (fit, fits) =
    λ i. of_bytes-to_bytes 4 w fit i ∷ read_words-words_image ws rest fits i
