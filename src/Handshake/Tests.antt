-- ===== src/Handshake/Tests.antt =====
-- Known values of the hash and of the encoding, and the theorems at concrete inputs.
use xnetty.Prelude.{◌≡◌, refl, [], ◌∷◌, ◌/◌, ◌%◌, true, false, length, arith}
use xnetty.Prelude.Text.{Text, codes, text_eq}
use xnetty.Memory.Returns.{Returns}
use xnetty.Response.{HeaderList}
use xnetty.Request
use xnetty.Request.{
  HttpRequest, header, ensure_headers_parsed, find_header, find_exact, find_fold, eq_fold, to_lower,
}
use xnetty.Handshake.{lower, starts_with, contains, is_upgrade_request, compute_accept}
use xnetty.Handshake.Base64.{base64_encode}
use xnetty.Handshake.Decode.{decode, decode_group, sextet, index_in, decode-base64_encode}
use xnetty.Handshake.Padding.{pad, blocks, digest_of-blocks}
use xnetty.Handshake.Sha1.{
  rotl, initial, words_of, extend, reverse_onto, schedule, mix, constant, step, rounds, process,
  process_blocks, count_bytes, last_block, finish, digest_of, output, sha1,
}

all_open : Unit {0}
unfolding rotl initial words_of extend reverse_onto schedule mix constant step rounds process
    process_blocks count_bytes last_block finish digest_of output sha1 base64_encode decode
    decode_group sextet index_in text_eq header ensure_headers_parsed find_header find_exact
    find_fold eq_fold to_lower Request.create lower starts_with contains is_upgrade_request
    compute_accept
all_open = tt

sha1-abc :
    sha1 (codes "abc")
    ≡ 0xa9 ∷ 0x99 ∷ 0x3e ∷ 0x36 ∷ 0x47 ∷ 0x06 ∷ 0x81 ∷ 0x6a ∷ 0xba ∷ 0x3e ∷ 0x25 ∷ 0x71 ∷ 0x78
      ∷ 0x50 ∷ 0xc2 ∷ 0x6c ∷ 0x9c ∷ 0xd0 ∷ 0xd8 ∷ 0x9d ∷ []
unfolding all_open
sha1-abc = refl

-- The example of RFC 6455.
abbrev sample_key : Text
sample_key = codes "dGhlIHNhbXBsZSBub25jZQ=="

compute_accept-sample : compute_accept sample_key ≡ codes "s3pPLMBiTxaQ9kYGzzhZRbK+xOo="
unfolding all_open
compute_accept-sample = refl

abbrev upgrade_headers : HeaderList
upgrade_headers =
    (codes "upgrade", codes "WebSocket")
    ∷ (codes "connection", codes "keep-alive, Upgrade")
    ∷ (codes "Sec-WebSocket-Key", sample_key)
    ∷ []

is_upgrade :
    Returns
      (λ r. r.0 ≡ true)
      (is_upgrade_request
        (record Request.create { headers = upgrade_headers; headers_parsed = true }))
unfolding all_open
is_upgrade = refl

no_upgrade : Returns (λ r. r.0 ≡ false) (is_upgrade_request Request.create)
unfolding all_open
no_upgrade = refl

decode-base64_encode_example :
    decode (base64_encode (255 ∷ 0 ∷ 7 ∷ 128 ∷ [])) ≡ 255 ∷ 0 ∷ 7 ∷ 128 ∷ []
decode-base64_encode_example =
    decode-base64_encode (255 ∷ 0 ∷ 7 ∷ 128 ∷ [])
      (omega arith, (omega arith, (omega arith, (omega arith, tt))))

digest_of-blocks_example :
    (digest_of (codes "abc") ≡ blocks (length (pad (codes "abc")) / 64) initial (pad (codes "abc")))
    × (length (pad (codes "abc")) % 64 ≡ 0)
digest_of-blocks_example = digest_of-blocks (codes "abc")
