-- ===== src/Codec/Write.antt =====
-- `write` of `HttpServerCodec`, and `HttpEncoder::encode`: a response becomes the buffer that holds its
-- text, and any other message is passed on as it is.
use xnetty.Memory.{Outcome, ok, ◌>>=◌, Allocator}
use xnetty.Buffer.{ByteBuf}
use xnetty.Response.{HttpResponse, to_byte_buf}

pub data Outgoing : Type 0 where
  response : HttpResponse → Outgoing
  other_message : Outgoing

-- What goes to the handler in front.
pub data FireWrite : Type 0 where
  fire_buffer : ByteBuf → FireWrite
  fire_same : FireWrite

module _ (m : Allocator) where
  pub encode : HttpResponse → Outcome ByteBuf
  encode res = to_byte_buf m res

  pub write : Outgoing → Outcome FireWrite
  write (response r) = do b ← encode r; ok (fire_buffer b)
  write other_message = ok fire_same
