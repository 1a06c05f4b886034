-- ===== src/Worker.antt =====
-- One connection of a `WorkerEventLoop` (include/xnetty/channel/connection.h, src/channel/context.cpp,
-- src/channel/channel.cpp, src/event/worker_loop.cpp): its buffers, its flags, what the poller watches,
-- and the handlers of the loop's events. What system calls return is given with an event; what the
-- handlers of the pipeline do to the connection is given as a list of acts.
pub mod Io
pub mod Stream
pub mod Order
pub mod Closed
pub mod Wakes
pub mod Awake
pub mod Lost
mod Tests
use xnetty.Prelude.{
  ℕ, ◌+◌, List, [], ◌∷◌, ◌++◌, Bool, true, false, not, ◌&&◌, Option, none, some, ltb, ◌==◌,
  if◌then◌else◌, take,
}
use xnetty.Buffer.{ByteBuf, empty, readable_bytes, discard, clear}
use xnetty.Buffer.Inv.{contents}

-- The calls that the pipeline gets, in order.
pub data Call : Type 0 where
  inactive unregistered read_complete : Call
  read : List ℕ → Call

-- `fd_open` tells that the descriptor is not negative, `registered` that the loop's table holds the
-- connection, `watched` what the poller waits for (reading, writing). `produced` are the bytes that were
-- put into the write buffer, `sent` those that the socket took, and `calls` what the pipeline was
-- called with: records of what happened.
pub record Connection : Type 0 where
  pub fd_open : Bool
  pub reading : Bool
  pub writing : Bool
  pub watched : Option (Bool × Bool)
  pub read_buf : ByteBuf
  pub write_buf : ByteBuf
  pub closed : Bool
  pub keep_alive : Bool
  pub registered : Bool
  pub last_read : ℕ
  pub last_write : ℕ
  pub water_mark : ℕ
  pub produced : List ℕ
  pub sent : List ℕ
  pub calls : List Call

-- `Channel::update`, with `EventLoop::updateChannel`.
unfoldable pub update : Connection → Connection
update c =
    if c.fd_open
    then record c {
      watched = if not c.reading && not c.writing then none else some (c.reading, c.writing);
    }
    else c

unfoldable pub enable_reading : Connection → Connection
enable_reading c = update (record c { reading = true })

unfoldable pub enable_writing : Connection → Connection
enable_writing c = update (record c { writing = true })

unfoldable pub disable_writing : Connection → Connection
disable_writing c = update (record c { writing = false })

unfoldable pub disable_all : Connection → Connection
disable_all c = update (record c { reading = false; writing = false })

-- `Channel::remove`, with `EventLoop::removeChannel`.
unfoldable pub remove_channel : Connection → Connection
remove_channel c = if c.fd_open then record c { watched = none } else c

-- `setupConnection`, without what the application configures and the first two calls of the pipeline.
unfoldable pub setup_connection : ℕ → ℕ → Connection
setup_connection now water_mark =
    let fresh : Connection = record {
      fd_open = true;
      reading = false;
      writing = false;
      watched = none;
      read_buf = empty;
      write_buf = empty;
      closed = false;
      keep_alive = true;
      registered = false;
      last_read = now;
      last_write = now;
      water_mark = water_mark;
      produced = [];
      sent = [];
      calls = [];
    } in
    record (enable_reading fresh) { registered = true }

abbrev pub call : Call → Connection → Connection
call e c = record c { calls = c.calls ++ (e ∷ []) }

abbrev pub set_closed : Connection → Connection
set_closed c = record c { closed = true }

-- `Context::close`
unfoldable pub close : Connection → Connection
close c = if c.closed then c else call inactive (set_closed c)

unfoldable pub remove_descriptor : Connection → Connection
remove_descriptor c =
    if c.fd_open then record (remove_channel (disable_all c)) { fd_open = false } else c

unfoldable pub remove_conn : Connection → Connection
remove_conn c =
    if c.registered
    then record (remove_descriptor (call unregistered c)) { registered = false }
    else c

-- The result of `write` or `writev`: a number of bytes, `EAGAIN`, or another error.
pub data WriteResult : Type 0 where
  wrote : ℕ → WriteResult
  again failed : WriteResult

-- The socket took `n` bytes from the front.
unfoldable pub take_written : ℕ → Connection → Connection
take_written n c = record c {
  write_buf = discard c.write_buf n;
  sent = c.sent ++ take n (contents c.write_buf);
}

abbrev pub clear_written : Connection → Connection
clear_written c = record c { write_buf = clear c.write_buf }
