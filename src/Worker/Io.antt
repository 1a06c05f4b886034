-- ===== src/Worker/Io.antt =====
-- Reading, writing and the timeouts of a connection, and what handlers do to it.
use xnetty.Prelude.{
  ℕ, ◌+◌, ◌-◌, ◌%◌, List, [], ◌∷◌, ◌++◌, Bool, not, ◌&&◌, ◌||◌, ltb, ◌==◌, if◌then◌else◌, length,
}
use xnetty.Memory.{Outcome, ok, ◌>>=◌, Allocator, add_size, size_mod, store}
use xnetty.Buffer.{ByteBuf, readable_bytes, clear, ensure_writable, write_bytes, set_writer_index}
use xnetty.Buffer.Inv.{contents}
use xnetty.Worker.{
  Connection, inactive, read, read_complete, WriteResult, wrote, again, failed, enable_writing,
  disable_writing, call, set_closed, close, remove_conn, take_written, clear_written,
}

-- What follows on a `writev` that took `n` bytes.
unfoldable pub written : ℕ → Connection → Connection
written n c =
    let c' = take_written n c in
    let c'' = if ltb 0 (readable_bytes c'.write_buf) then enable_writing c' else clear_written c' in
    if c.keep_alive then c'' else set_closed c''

abbrev pub flush_result : WriteResult → Connection → Connection
flush_result (wrote n) c = if n == 0 then set_closed c else written n c
flush_result again c = enable_writing c
flush_result failed c = set_closed c

-- `flushWriteBuf`
unfoldable pub flush_write_buf : ℕ → WriteResult → Connection → Connection
flush_write_buf now result c =
    let c' : Connection = record c { last_write = now } in
    if readable_bytes c.write_buf == 0 then c' else flush_result result c'

-- The loop of `onWrite` over the results of its writes; behind the last one the socket takes no more.
unfoldable pub drain : List WriteResult → Connection → Connection
drain [] c = if readable_bytes c.write_buf == 0 then disable_writing (clear_written c) else c
drain (wrote n ∷ results) c =
    let rest = drain results (take_written n c) in
    if readable_bytes c.write_buf == 0
    then disable_writing (clear_written c)
    else if n == 0
    then set_closed c
    else rest
drain (again ∷ results) c =
    if readable_bytes c.write_buf == 0 then disable_writing (clear_written c) else c
drain (failed ∷ results) c =
    if readable_bytes c.write_buf == 0 then disable_writing (clear_written c) else set_closed c

unfoldable pub on_write : ℕ → List WriteResult → Connection → Connection
on_write now results c = if c.closed then c else drain results (record c { last_write = now })

unfoldable pub on_error : Connection → Connection
on_error c = if c.closed then c else remove_conn (call inactive (set_closed c))

-- What handlers do through the context: a buffer written at the head of the pipeline, a flush, a
-- close, and the two marks; `WebSocketCodec::write`, which empties the write buffer and puts a frame
-- into it; and `SslHandler::flushEncrypted`, where a memory BIO gives as many bytes as `BIO_pending`
-- told, in pieces of 4096 at most.
pub data Act : Type 0 where
  send : ℕ → List ℕ → WriteResult → Act
  flush : ℕ → WriteResult → Act
  closing : Act
  set_keep_alive : Bool → Act
  signal_activity : ℕ → Act
  write_frame : ℕ → List ℕ → WriteResult → Act
  flush_encrypted : ℕ → List (List ℕ) → WriteResult → Act

abbrev pub joined : List (List ℕ) → List ℕ
joined [] = []
joined (x ∷ xs) = x ++ joined xs

-- The result of `read`; no bytes at all are the end of the stream.
pub data ReadResult : Type 0 where
  got : List ℕ → ReadResult
  read_again read_failed : ReadResult

unfoldable pub is_overflow : Connection → Bool
is_overflow c = ltb 0 c.water_mark && ltb c.water_mark (readable_bytes c.write_buf)

-- The end of `fireWrite` at the head of the pipeline.
unfoldable pub after_write : ℕ → WriteResult → Connection → Connection
after_write now result c = if is_overflow c then close c else flush_write_buf now result c

-- `now - then > limit` in `uint64_t`; a limit of 0 is none.
unfoldable pub is_late : ℕ → ℕ → ℕ → Bool
is_late now last limit = ltb 0 limit && ltb limit ((now + size_mod - last) % size_mod)

-- The part of `onTimerTick` about one connection of the table.
unfoldable pub on_timer_tick : ℕ → ℕ → ℕ → Connection → Connection
on_timer_tick read_timeout write_timeout now c =
    if not c.registered || c.closed
    then c
    else if is_late now c.last_read read_timeout || is_late now c.last_write write_timeout
    then remove_conn (call inactive (set_closed c))
    else c

-- `onRead` behind the handlers.
unfoldable pub end_read : Connection → Connection
end_read c =
    let c' : Connection = record (call read_complete c) { read_buf = clear c.read_buf } in
    if c.closed then remove_conn c' else c'

-- What the loop does with a connection; a task is one that was queued by `runInLoop`, or a timer.
pub data Event : Type 0 where
  readable : ℕ → ReadResult → List Act → Event
  writable : ℕ → List WriteResult → Event
  errored : Event
  tick : ℕ → Event
  task : List Act → Event

module _ (m : Allocator) where
  unfoldable pub append_all : List (List ℕ) → ByteBuf → Outcome ByteBuf
  append_all [] b = ok b
  append_all (bytes ∷ more) b = do b' ← write_bytes m b bytes; append_all more b'

  unfoldable pub act : Act → Connection → Outcome Connection
  act (send now bytes result) c = do
    b ← write_bytes m c.write_buf bytes
    ok (after_write now result (record c { write_buf = b; produced = c.produced ++ bytes }))
  act (flush now result) c = ok (flush_write_buf now result c)
  act closing c = ok (close c)
  act (set_keep_alive b) c = ok (record c { keep_alive = b })
  act (signal_activity now) c = ok (record c { last_read = now })
  act (write_frame now bytes result) c = do
    b ← write_bytes m (clear c.write_buf) bytes
    ok (flush_write_buf now result (record c { write_buf = b; produced = c.produced ++ bytes }))
  act (flush_encrypted now [] result) c = ok c
  act (flush_encrypted now (bytes ∷ more) result) c = do
    b ← append_all (bytes ∷ more) c.write_buf
    ok (
        flush_write_buf now result
          (record c { write_buf = b; produced = c.produced ++ joined (bytes ∷ more) }))

  unfoldable pub acts : List Act → Connection → Outcome Connection
  acts [] c = ok c
  acts (a ∷ more) c = do c' ← act a c; acts more c'

  -- `onRead` with bytes: they are put into the read buffer, and the pipeline is called.
  unfoldable pub got_bytes : ℕ → List ℕ → List Act → ByteBuf → Connection → Outcome Connection
  got_bytes now bytes reaction b c = do
    block ← store b.block b.writer_index bytes
    b' ← set_writer_index (record b { block = block }) (add_size b.writer_index (length bytes))
    c' ← acts reaction (call (read (contents b')) (record c { read_buf = b'; last_read = now }))
    ok (end_read c')

  unfoldable pub read_result : ℕ → ReadResult → List Act → ByteBuf → Connection → Outcome Connection
  read_result now (got []) reaction b c =
      ok (remove_conn (call inactive (set_closed (record c { read_buf = b }))))
  read_result now (got (x ∷ bytes)) reaction b c = got_bytes now (x ∷ bytes) reaction b c
  read_result now read_again reaction b c = ok (record c { read_buf = b })
  read_result now read_failed reaction b c =
      ok (remove_conn (call inactive (set_closed (record c { read_buf = b }))))

  unfoldable pub on_read : ℕ → ReadResult → List Act → Connection → Outcome Connection
  on_read now result reaction c =
      if c.closed
      then ok c
      else (do b ← ensure_writable m c.read_buf 1024; read_result now result reaction b c)

-- The same with the two timeouts of the loop.
module _ (m : Allocator) (read_timeout write_timeout : ℕ) where
  unfoldable pub step : Event → Connection → Outcome Connection
  step (readable now result reaction) c = on_read m now result reaction c
  step (writable now results) c = ok (on_write now results c)
  step errored c = ok (on_error c)
  step (tick now) c = ok (on_timer_tick read_timeout write_timeout now c)
  step (task list) c = acts m list c

  unfoldable pub run : List Event → Connection → Outcome Connection
  run [] c = ok c
  run (e ∷ events) c = do c' ← step e c; run events c'
