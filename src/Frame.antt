-- ===== src/Frame.antt =====
-- The WebSocket frames of the gateway. `build_frame` is `buildWebSocketFrame` of
-- server/src/base/utils/types.cc; `close_frame` is the buffer that `WsSession::sendCloseFrame` of
-- server/src/services/Gateway/server/websocketSession.cc hands to the connection; `next_frame` is
-- the body of the loop of `WsSession::onRead` up to the payload, over the readable bytes.
--
-- A byte string is a list of numbers below 256. A size_t or uint64_t is a number with its
-- wrap-around written out where a sum can reach it; `x | y` on disjoint bits is a sum, `x & 0x7f`
-- a remainder and `x >> k` a division.
pub mod Bytes
pub mod Header
pub mod RoundTrip
pub mod Bounds
pub mod Read
pub mod Stable
pub mod Wire
pub mod Stream
pub mod Close
use dpush.Base.{
  ℕ, zero, suc, ◌+◌, ◌-◌, ◌*◌, ◌/◌, ◌%◌, ◌^◌, List, [], ◌∷◌, ◌++◌, Option, none, some, Bool, true,
  false, bit_xor, ltb, leb, ◌==◌, ◌&&◌, if◌then◌else◌, length, get_or, take, drop,
}

-- static_cast<uint8_t>((n >> k) & 0xFF)
abbrev pub octet : ℕ → ℕ → ℕ
octet n k = n / 2 ^ k % 256

-- The loop `for (int i = 7; i >= 0; i--)` that appends a uint64_t, high byte first; the counter is
-- the number of bytes that are left.
unfoldable pub be_octets : ℕ → ℕ → List ℕ
be_octets zero n = []
be_octets (suc i) n = octet n (8 * i) ∷ be_octets i n

-- The length field behind the opcode byte, `payload_length` below 2^64.
unfoldable pub length_field : ℕ → List ℕ
unfolding be_octets
length_field n =
    if leb n 125
    then n ∷ []
    else if leb n 65535
    then 126 ∷ octet n 8 ∷ octet n 0 ∷ []
    else 127 ∷ be_octets 8 n

-- buildWebSocketFrame
unfoldable pub build_frame : List ℕ → ℕ → List ℕ
build_frame payload opcode = (128 + opcode % 16) ∷ (length_field (length payload) ++ payload)

-- WsSession::sendCloseFrame: the reason is cut so that the payload has 125 bytes at most.
unfoldable pub close_frame : ℕ → List ℕ → List ℕ
close_frame code reason =
    let payload_len = if ltb 125 (2 + length reason) then 125 else 2 + length reason in
    0x88 ∷ payload_len ∷ octet code 8 ∷ octet code 0 ∷ take (payload_len - 2) reason

-- bytes[i], read only below readableBytes()
abbrev pub at : List ℕ → ℕ → ℕ
at bytes i = get_or bytes i 0

-- for(i) payload_length = (payload_length << 8) | bytes[2+i], over uint64_t
unfoldable pub be_value : ℕ → List ℕ → ℕ
be_value acc [] = acc
be_value acc (b ∷ bs) = be_value ((acc * 256 + b) % 2 ^ 64) bs

-- The payload length and the offset behind it; `none` asks for more bytes.
unfoldable pub extended_length : List ℕ → Option (ℕ × ℕ)
unfolding be_value
extended_length bytes =
    let len7 = at bytes 1 % 128 in
    if len7 == 126
    then if ltb (length bytes) 4 then none else some (at bytes 2 * 256 + at bytes 3, 4)
    else if len7 == 127
    then if ltb (length bytes) 10 then none else some (be_value 0 (take 8 (drop 2 bytes)), 10)
    else some (len7, 2)

-- The offset behind the masking key; `none` asks for more bytes.
unfoldable pub mask_offset : List ℕ → ℕ → Option ℕ
mask_offset bytes offset =
    if leb 128 (at bytes 1)
    then if ltb (length bytes) (offset + 4) then none else some (offset + 4)
    else some offset

-- for(i) payload_data[i] ^= masking_key[i % 4], from the index i
unfoldable pub unmask : List ℕ → ℕ → List ℕ → List ℕ
unmask key i [] = []
unmask key i (x ∷ xs) = bit_xor x (at key (i % 4)) ∷ unmask key (i + 1) xs

-- What one round of the loop finds: too few bytes, a payload length that std::string refuses
-- (std::length_error), or a payload and the bytes to retrieve.
pub data Found : Type 0 where
  short : Found
  length_error : Found
  frame : List ℕ → ℕ → Found

unfoldable pub payload_of : List ℕ → ℕ → ℕ → List ℕ
unfolding unmask
payload_of bytes offset len =
    let payload = take len (drop offset bytes) in
    if leb 128 (at bytes 1) then unmask (take 4 (drop (offset - 4) bytes)) 0 payload else payload

-- `max_size` is the longest length that the constructor of std::string takes.
unfoldable pub cut_frame : ℕ → List ℕ → ℕ → ℕ → Found
cut_frame max_size bytes len offset =
    if ltb (length bytes) ((offset + len) % 2 ^ 64)
    then short
    else if ltb max_size len
    then length_error
    else frame (payload_of bytes offset len) (offset + len)

unfoldable pub next_frame : ℕ → List ℕ → Found
next_frame max_size bytes = elim (extended_length bytes) [
  | none ↦ short
  | some e ↦ elim (mask_offset bytes e.1) [
    | none ↦ short
    | some offset ↦ cut_frame max_size bytes e.0 offset
  ]
]
