-- ===== src/Socket/Wire.antt =====
-- The header of a frame on the wire: the packed `WireHeader` of both ends, as its 44 bytes.
use caldera_sandbox.Base.{ℕ, zero, suc, List, [], ◌∷◌, ◌++◌, take, drop}
use caldera_sandbox.Base.Bytes.{to_bytes, of_bytes}

pub record WireHeader : Type 0 where
  pub magic : List ℕ
  pub version : ℕ
  pub header_bytes : ℕ
  pub frame_id : ℕ
  pub timestamp_ns : ℕ
  pub width : ℕ
  pub height : ℕ
  pub float_count : ℕ
  pub checksum : ℕ
  pub checksum_algorithm : ℕ

-- 'C', 'A', 'L', 'D'.
abbrev pub wire_magic : List ℕ
wire_magic = 67 ∷ 65 ∷ 76 ∷ 68 ∷ []

-- `sizeof(WireHeader)`.
abbrev pub wire_size : ℕ
wire_size = 44

unfoldable pub header_image : WireHeader → List ℕ
unfolding to_bytes
header_image h =
    h.magic
    ++ (to_bytes 2 h.version
        ++ (to_bytes 2 h.header_bytes
            ++ (to_bytes 8 h.frame_id
                ++ (to_bytes 8 h.timestamp_ns
                    ++ (to_bytes 4 h.width
                        ++ (to_bytes 4 h.height
                            ++ (to_bytes 4 h.float_count
                                ++ (to_bytes 4 h.checksum ++ to_bytes 4 h.checksum_algorithm))))))))

-- The field of `n` bytes at offset `off`.
abbrev pub field : ℕ → ℕ → List ℕ → ℕ
field off n bs = of_bytes (take n (drop off bs))

unfoldable pub read_image : List ℕ → WireHeader
unfolding of_bytes
read_image bs = record {
  magic = take 4 bs;
  version = field 4 2 bs;
  header_bytes = field 6 2 bs;
  frame_id = field 8 8 bs;
  timestamp_ns = field 16 8 bs;
  width = field 24 4 bs;
  height = field 28 4 bs;
  float_count = field 32 4 bs;
  checksum = field 36 4 bs;
  checksum_algorithm = field 40 4 bs;
}

-- A payload of `float` words in memory, and back.
unfoldable pub words_image : List ℕ → List ℕ
unfolding to_bytes
words_image [] = []
words_image (w ∷ ws) = to_bytes 4 w ++ words_image ws

-- The first `n` words.
unfoldable pub read_words : ℕ → List ℕ → List ℕ
unfolding of_bytes
read_words zero bs = []
read_words (suc n) bs = of_bytes (take 4 bs) ∷ read_words n (drop 4 bs)
