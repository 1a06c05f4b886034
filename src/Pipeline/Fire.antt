-- ===== src/Pipeline/Fire.antt =====
-- Which handlers an event reaches: the loops of channel_pipeline.cpp and the functions `fire…` of
-- `ChannelPipeline`. `raises` tells which calls end in a `std::exception`; `callH` catches it, and the
-- event goes on with the next handler.
use xnetty.Prelude.{
  ℕ, zero, suc, ◌+◌, ◌-◌, List, [], ◌∷◌, Bool, true, false, Option, none, some, if◌then◌else◌,
  length, drop, get_elem?,
}
use xnetty.Pipeline.{
  ChannelPipeline, Event, registered, unregistered, active, inactive, read_complete, flush, close,
  read, write, user_event, exception, Call, on_active, on_inactive, on,
}

module _ {H : Type 0} where
  abbrev no_entries : ChannelPipeline H → Bool
  no_entries [] = true
  no_entries (_ ∷ _) = false

module _ {H M : Type 0} where
  -- `forAllInbound`
  unfoldable pub for_all_inbound : Event M → ChannelPipeline H → List (Call H M)
  for_all_inbound event [] = []
  for_all_inbound event (e ∷ entries) =
      let rest = for_all_inbound event entries in
      if e.inbound then on event e.handler e.ctx.index ∷ rest else rest

  unfoldable pub first_inbound : Event M → ChannelPipeline H → List (Call H M)
  first_inbound event [] = []
  first_inbound event (e ∷ entries) =
      if e.inbound then on event e.handler e.ctx.index ∷ [] else first_inbound event entries

  -- `forNextInbound`, and the same loop in `fireReadFrom`.
  unfoldable pub for_next_inbound : Event M → ℕ → ChannelPipeline H → List (Call H M)
  unfolding first_inbound
  for_next_inbound event start p = first_inbound event (drop start p)

  -- `forPrevOutbound`, and the same loop in `fireWriteFrom`: down from position `n - 1`. `none` is a
  -- read outside of the vector, which the code does not test.
  unfoldable pub for_prev_outbound : Event M → ℕ → ChannelPipeline H → Option (List (Call H M))
  for_prev_outbound event zero p = some []
  for_prev_outbound event (suc i) p = elim (get_elem? p i) [
    | none ↦ none
    | some e ↦
        if e.outbound
        then some (on event e.handler e.ctx.index ∷ [])
        else for_prev_outbound event i p
  ]

  -- `forAll`
  pub for_all : Event M → ChannelPipeline H → List (Call H M)
  for_all event [] = []
  for_all event (e ∷ entries) = on event e.handler e.ctx.index ∷ for_all event entries

  abbrev first_of : Event M → ChannelPipeline H → List (Call H M)
  first_of event [] = []
  first_of event (e ∷ entries) = on event e.handler e.ctx.index ∷ []

  -- `forNext`
  pub for_next : Event M → ℕ → ChannelPipeline H → List (Call H M)
  for_next event start p = first_of event (drop start p)

  module _ (raises : Call H M → Bool) where
    -- `forAllActive`: an exception of `onActive` skips `channelActive`.
    pub for_all_active : ChannelPipeline H → List (Call H M)
    for_all_active [] = []
    for_all_active (e ∷ entries) =
        let rest = for_all_active entries in
        on_active e.handler
        ∷ (if raises (on_active e.handler)
            then rest
            else if e.inbound
            then on active e.handler e.ctx.index ∷ rest
            else rest)

    -- `forAllInactive`
    pub for_all_inactive : ChannelPipeline H → List (Call H M)
    for_all_inactive [] = []
    for_all_inactive (e ∷ entries) =
        let rest = for_all_inactive entries in
        on_inactive e.handler
        ∷ (if raises (on_inactive e.handler)
            then rest
            else if e.inbound
            then on inactive e.handler e.ctx.index ∷ rest
            else rest)

    pub fire_channel_active : ChannelPipeline H → List (Call H M)
    fire_channel_active p = for_all_active p

    pub fire_channel_inactive : ChannelPipeline H → List (Call H M)
    fire_channel_inactive p = for_all_inactive p

  pub fire_channel_registered : ChannelPipeline H → List (Call H M)
  fire_channel_registered p = for_all_inbound registered p

  pub fire_channel_unregistered : ChannelPipeline H → List (Call H M)
  fire_channel_unregistered p = for_all_inbound unregistered p

  unfoldable pub fire_read_from : ℕ → M → ChannelPipeline H → List (Call H M)
  fire_read_from start msg p = for_next_inbound (read msg) start p

  unfoldable pub fire_channel_read : M → ChannelPipeline H → List (Call H M)
  fire_channel_read msg p = fire_read_from 0 msg p

  pub fire_channel_read_complete : ChannelPipeline H → List (Call H M)
  fire_channel_read_complete p = for_all_inbound read_complete p

  pub fire_user_event_triggered : M → ChannelPipeline H → List (Call H M)
  fire_user_event_triggered evt p = for_all_inbound (user_event evt) p

  pub fire_exception_caught : M → ChannelPipeline H → List (Call H M)
  fire_exception_caught cause p = for_all (exception cause) p

  -- From position `start` down.
  unfoldable pub fire_write_from : ℕ → M → ChannelPipeline H → Option (List (Call H M))
  fire_write_from start msg p = for_prev_outbound (write msg) (start + 1) p

  unfoldable pub fire_write : M → ChannelPipeline H → Option (List (Call H M))
  fire_write msg p = if no_entries p then some [] else fire_write_from (length p - 1) msg p

  pub fire_channel_flush : ChannelPipeline H → Option (List (Call H M))
  fire_channel_flush p = for_prev_outbound flush (length p) p

  pub fire_channel_close : ChannelPipeline H → Option (List (Call H M))
  fire_channel_close p = for_prev_outbound close (length p) p
