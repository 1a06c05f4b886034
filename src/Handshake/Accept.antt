-- ===== src/Handshake/Accept.antt =====
-- The value of `Sec-WebSocket-Accept`.
use xnetty.Prelude.{List, [], ◌++◌, ℕ, ◌≡◌, refl, length, arith}
use xnetty.Prelude.Preds.{All}
use xnetty.Prelude.Text.{Text}
use xnetty.Handshake.{guid, compute_accept}
use xnetty.Handshake.Sha1.{Digest, digest_of, output, sha1, word_bytes}
use xnetty.Handshake.Base64.{base64_encode}
use xnetty.Handshake.Decode.{IsByte, decode, decode-base64_encode}

word_bytes-IsByte : (w : ℕ) (rest : List ℕ) → All IsByte rest → All IsByte (word_bytes w ++ rest)
word_bytes-IsByte w rest h = (omega arith, (omega arith, (omega arith, (omega arith, h))))

output-IsByte : (s : Digest) → All IsByte (output s)
unfolding output
output-IsByte s =
    let e = word_bytes s.e in
    let d = word_bytes s.d ++ e in
    let c = word_bytes s.c ++ d in
    let from_e = word_bytes-IsByte s.e [] tt in
    let from_d = word_bytes-IsByte s.d e from_e in
    let from_c = word_bytes-IsByte s.c d from_d in
    let from_b = word_bytes-IsByte s.b c from_c in
    word_bytes-IsByte s.a (word_bytes s.b ++ c) from_b

length-output : (s : Digest) → length (base64_encode (output s)) ≡ 28
unfolding output base64_encode
length-output s = refl

-- The value has 28 characters, and who decodes it gets the hash of the key and the constant of
-- RFC 6455.
pub compute_accept_lem :
    (key : Text)
    → (length (compute_accept key) ≡ 28) × (decode (compute_accept key) ≡ sha1 (key ++ guid))
unfolding compute_accept sha1
compute_accept_lem key =
    let s = digest_of (key ++ guid) in
    (length-output s, decode-base64_encode (output s) (output-IsByte s))
