-- ===== src/Pipeline.antt =====
-- The classes `ChannelPipeline` and `ChannelHandlerContext` (include/xnetty/channel/
-- channel_pipeline.h, include/xnetty/channel/channel_handler_context.h,
-- src/channel/channel_pipeline.cpp). A handler is a value of any type `H`; `is_inbound` and
-- `is_outbound` stand for the two `dynamic_pointer_cast`s. What an operation makes the handlers do is
-- the list of the calls that it makes, in order; a message is a value of any type `M`.
pub mod Manage
pub mod Fire
pub mod Context
pub mod Indices
pub mod Views
pub mod Chains
mod Tests
use xnetty.Prelude.{
  ℕ, zero, suc, ◌+◌, ◌-◌, List, [], ◌∷◌, ◌++◌, Bool, true, false, not, Option, none, some, leb, ltb,
  ◌==◌, if◌then◌else◌, length,
}
use xnetty.Prelude.Text.{Text}

-- `ChannelHandlerContext`. `bound` tells that `ctx_` holds the connection's context.
pub record HandlerContext (H : Type 0) : Type 0 where
  pub index : ℕ
  pub name : Text
  pub handler : H
  pub removed : Bool
  pub bound : Bool

pub record HandlerEntry (H : Type 0) : Type 0 where
  pub name : Text
  pub handler : H
  pub inbound : Bool
  pub outbound : Bool
  pub ctx : HandlerContext H

-- `handlers_`
abbrev pub ChannelPipeline : Type 0 → Type 0
ChannelPipeline H = List (HandlerEntry H)

-- A call that an operation on the list makes.
pub data Lifecycle (H : Type 0) : Type 0 where
  attached added removed : H → Lifecycle H

pub data Event (M : Type 0) : Type 0 where
  registered unregistered active inactive read_complete flush close : Event M
  read write user_event exception : M → Event M

-- A call that an event makes: `on` calls a handler with the context of this index; the last three
-- are what a context does to the connection.
pub data Call (H M : Type 0) : Type 0 where
  on_active on_inactive : H → Call H M
  on : Event M → H → ℕ → Call H M
  to_connection : M → Call H M
  flush_connection close_connection : Call H M
