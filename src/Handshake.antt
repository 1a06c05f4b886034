-- ===== src/Handshake.antt =====
-- The class `WebSocketHandshake` (include/xnetty/websocket/ws_handshake.h,
-- src/websocket/ws_handshake.cpp), with `sha1` and `base64Encode` (src/util): whether a request asks
-- for a WebSocket, and the response that opens it.
pub mod Sha1
pub mod Padding
pub mod Base64
pub mod Decode
pub mod Accept
mod Tests
use xnetty.Prelude.{
  ◌≡◌, List, [], ◌∷◌, ◌++◌, Bool, true, false, not, ◌&&◌, ◌||◌, ◌==◌, if◌then◌else◌,
}
use xnetty.Prelude.Text.{Text, codes, text_eq, is_empty}
use xnetty.Memory.{Outcome, ok, ◌>>=◌}
use xnetty.Request.{HttpRequest, header, to_lower}
use xnetty.Response.{HttpResponse, set_status, set_header}
use xnetty.Response
use xnetty.Handshake.Sha1.{sha1}
use xnetty.Handshake.Base64.{base64_encode}

-- `kMagicGUID`
abbrev pub guid : Text
guid = codes "258EAFA5-E914-47DA-95CA-C5AB0DC85B11"

unfoldable pub lower : Text → Text
lower [] = []
lower (c ∷ s) = to_lower c ∷ lower s

unfoldable pub starts_with : Text → Text → Bool
starts_with [] s = true
starts_with (x ∷ xs) [] = false
starts_with (x ∷ xs) (y ∷ ys) = x == y && starts_with xs ys

-- `s.find(word) != npos`
unfoldable pub contains : Text → Text → Bool
contains word [] = starts_with word []
contains word (c ∷ s) = starts_with word (c ∷ s) || contains word s

-- The code stops at the first header that is empty; a lookup behind it would change nothing.
unfoldable pub is_upgrade_request : HttpRequest → Outcome (Bool × HttpRequest)
is_upgrade_request req = do
  upgrade ← header (codes "Upgrade") req
  connection ← header (codes "Connection") upgrade.1
  key ← header (codes "Sec-WebSocket-Key") connection.1
  ok (
    not (is_empty upgrade.0)
        && not (is_empty connection.0)
        && not (is_empty key.0)
        && text_eq (lower upgrade.0) (codes "websocket")
        && contains (codes "upgrade") (lower connection.0),
    key.1,
  )

unfoldable pub compute_accept : Text → Text
compute_accept key = base64_encode (sha1 (key ++ guid))

abbrev opening : Text → HttpResponse
opening accept = set_header (codes "Sec-WebSocket-Accept") accept (
    set_header (codes "Connection") (codes "Upgrade") (
      set_header (codes "Upgrade") (codes "websocket")
        (set_status (record { code = 101; reason = codes "Switching Protocols" }) Response.create)))

unfoldable pub create_response : HttpRequest → Outcome (HttpResponse × HttpRequest)
create_response req = do
  key ← header (codes "Sec-WebSocket-Key") req
  ok (opening (compute_accept key.0), key.1)
