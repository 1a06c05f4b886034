-- ===== src/Pipeline/Context.antt =====
-- The functions `fire…` of `ChannelHandlerContext`: an event goes on from the context of a handler.
-- The pointer to the pipeline is set by the constructor of the context and never null.
use xnetty.Prelude.{◌+◌, ◌-◌, List, [], ◌∷◌, Bool, Option, some, ◌==◌, if◌then◌else◌}
use xnetty.Pipeline.{
  HandlerContext, ChannelPipeline, registered, unregistered, active, inactive, read_complete, flush,
  close, user_event, exception, Call, to_connection, flush_connection, close_connection,
}
use xnetty.Pipeline.Fire.{
  for_next_inbound, for_next, for_prev_outbound, fire_read_from, fire_write_from,
}

module _ {H M : Type 0} where
  pub fire_channel_registered : HandlerContext H → ChannelPipeline H → List (Call H M)
  fire_channel_registered c p = for_next_inbound registered (c.index + 1) p

  pub fire_channel_unregistered : HandlerContext H → ChannelPipeline H → List (Call H M)
  fire_channel_unregistered c p = for_next_inbound unregistered (c.index + 1) p

  pub fire_channel_active : HandlerContext H → ChannelPipeline H → List (Call H M)
  fire_channel_active c p = for_next_inbound active (c.index + 1) p

  pub fire_channel_inactive : HandlerContext H → ChannelPipeline H → List (Call H M)
  fire_channel_inactive c p = for_next_inbound inactive (c.index + 1) p

  pub fire_channel_read_complete : HandlerContext H → ChannelPipeline H → List (Call H M)
  fire_channel_read_complete c p = for_next_inbound read_complete (c.index + 1) p

  pub fire_user_event_triggered : M → HandlerContext H → ChannelPipeline H → List (Call H M)
  fire_user_event_triggered evt c p = for_next_inbound (user_event evt) (c.index + 1) p

  pub fire_exception_caught : M → HandlerContext H → ChannelPipeline H → List (Call H M)
  fire_exception_caught cause c p = for_next (exception cause) (c.index + 1) p

  unfoldable pub fire_read : M → HandlerContext H → ChannelPipeline H → List (Call H M)
  fire_read msg c p = fire_read_from (c.index + 1) msg p

  -- `is_buf` tells whether a message is a `ByteBuf *`, and `overflows` whether the write buffer is too
  -- long once it was added.
  module _ (is_buf overflows : M → Bool) where
    -- What becomes of a message that leaves the pipeline.
    unfoldable pub at_head : M → HandlerContext H → List (Call H M)
    at_head msg c =
        if is_buf msg
        then (if c.bound
            then to_connection msg
              ∷ (if overflows msg then close_connection ∷ [] else flush_connection ∷ [])
            else [])
        else []

    unfoldable pub fire_write : M → HandlerContext H → ChannelPipeline H → Option (List (Call H M))
    unfolding at_head
    fire_write msg c p =
        if c.index == 0 then some (at_head msg c) else fire_write_from (c.index - 1) msg p

  unfoldable pub fire_flush : HandlerContext H → ChannelPipeline H → Option (List (Call H M))
  fire_flush c p = for_prev_outbound flush (c.index + 1) p

  unfoldable pub fire_close : HandlerContext H → ChannelPipeline H → Option (List (Call H M))
  fire_close c p = for_prev_outbound close (c.index + 1) p

  -- `flush` and `close` of the context, also what the default handlers do.
  pub flush_now : HandlerContext H → List (Call H M)
  flush_now c = if c.bound then flush_connection ∷ [] else []

  pub close_now : HandlerContext H → List (Call H M)
  close_now c = if c.bound then close_connection ∷ [] else []
