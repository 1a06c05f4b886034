-- ===== src/Codec/Refused.antt =====
-- A request that was refused for its body leaves its headers behind.
use xnetty.Prelude.{ℕ, ◌≡◌, List, true, some}
use xnetty.Prelude.Preds.{All}
use xnetty.Prelude.Text.{Text}
use xnetty.Memory.Returns.{Returns}
use xnetty.Response.{HeaderList}
use xnetty.Request.{find_exact}
use xnetty.Codec.{
  CodecState, Action, pass_on, fire_request, write_and_flush, set_conn_keep_alive, signal_activity,
  too_large,
}
use xnetty.Codec.Read.{Round, ends, continues}
use xnetty.Codec.Headers.{content_length_key}

-- A `Content-Length` above the limit is found first in these headers.
abbrev pub Refused : ℕ → HeaderList → Type 0
Refused max_body hs =
    (cl : Text) × (find_exact content_length_key hs ≡ some cl) × (too_large max_body cl ≡ true)

-- No request goes to the next handler.
abbrev pub NoRequest : Action → Type 0
NoRequest (fire_request r) = ⊥
NoRequest pass_on = Unit
NoRequest (write_and_flush _) = Unit
NoRequest (set_conn_keep_alive _) = Unit
NoRequest signal_activity = Unit

abbrev pub StaysRefused : ℕ → CodecState × List Action → Type 0
StaysRefused max_body (st, out) = Refused max_body st.request.headers × All NoRequest out

abbrev RefusedRound : ℕ → Round → Type 0
RefusedRound max_body (ends st out) = StaysRefused max_body (st, out)
RefusedRound max_body (continues st out) = ⊥
