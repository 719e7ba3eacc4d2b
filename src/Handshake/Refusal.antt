-- ===== src/Handshake/Refusal.antt =====
-- src/session.cpp, lines 43 to 51: the first message of the handshake.
use new_mavlink.Common.{
  ◌≡◌, refl, true, none, some, Buffer, get16, put16, put32, put64, set_at, ◌!=◌, arith,
}
use new_mavlink.Crc.{crc16_ccitt}
use new_mavlink.Handshake.Types.{Hello, hello_bytes}
use new_mavlink.Handshake.{hello_front, encode_hello, decode_hello}

hello_front-crc : (v : Hello) → get16 (hello_front v) 16 ≡ 0
unfolding hello_front get16 put16 put64 put32 set_at
hello_front-crc v = refl

encode_hello_inv :
    (v : Hello) (bytes : Buffer)
    → encode_hello v ≡ some bytes
    → (hello_front v ≡ bytes) × ((crc16_ccitt (some (hello_front v)) 16 != 0) ≡ true)
unfolding encode_hello
encode_hello_inv v bytes e = ground arith

-- Whatever `encode_hello` returns, `decode_hello` refuses: the encoder requires a check value other
-- than 0 and leaves the two bytes for it 0.
pub decode_hello-encode_hello :
    (v : Hello) (bytes : Buffer)
    → encode_hello v ≡ some bytes
    → decode_hello (some bytes) hello_bytes ≡ none
unfolding decode_hello
decode_hello-encode_hello v bytes e =
    let (w, crc) = encode_hello_inv v bytes e in rw (← w, hello_front-crc v) (ground (arith, crc))
