-- ===== src/Worker/Awake.antt =====
-- No wake-up is lost: while bytes wait in the write buffer, the poller waits for the socket.
use xnetty.Prelude.{ℕ, refl, inl, inr, List, [], ◌∷◌, ◌++◌, length}
use xnetty.Memory.{Outcome, ok, Allocator, add_size, store}
use xnetty.Memory.Returns.{Returns, Returns->>=, Returns-any, Returns-if}
use xnetty.Buffer.{clear, ByteBuf, readable_bytes, write_bytes, ensure_writable, set_writer_index}
use xnetty.Worker.{Connection, call, read, setup_connection, enable_reading, update}
use xnetty.Worker.Io.{
  Act, send, flush, closing, set_keep_alive, signal_activity, write_frame, flush_encrypted, joined,
  append_all, Event, readable, writable, errored, tick, task, on_read, act, acts, step, run,
  ReadResult, got, read_again, read_failed, end_read, got_bytes, read_result,
}
use xnetty.Buffer.Inv.{contents}
use xnetty.Worker.Wakes.{
  IsAwake, IsAwake-Live, flush_write_buf-IsAwake, close-IsAwake, after_write-IsAwake,
  on_write-IsAwake, shut-IsAwake, on_error-IsAwake, on_timer_tick-IsAwake, end_read-IsAwake,
}

setup-IsAwake : (now water_mark : ℕ) → IsAwake (setup_connection now water_mark)
unfolding setup_connection enable_reading update readable_bytes
setup-IsAwake now water_mark = inr (refl, inl refl)

module _ (m : Allocator) where
  act-IsAwake : (a : Act) (c : Connection) → IsAwake c → Returns IsAwake (act m a c)
  unfolding act
  act-IsAwake (send now bytes r) c k =
      Returns->>= (λ b. Unit {0}) IsAwake (write_bytes m c.write_buf bytes) _
        (Returns-any (write_bytes m c.write_buf bytes))
        (λ b u.
          after_write-IsAwake now r (record c { write_buf = b; produced = c.produced ++ bytes })
            (IsAwake-Live c k))
  act-IsAwake (flush now r) c k = flush_write_buf-IsAwake now r c (IsAwake-Live c k)
  act-IsAwake closing c k = close-IsAwake c
  act-IsAwake (set_keep_alive b) c k = k
  act-IsAwake (signal_activity now) c k = k
  act-IsAwake (write_frame now bytes r) c k =
      Returns->>= (λ b. Unit {0}) IsAwake (write_bytes m (clear c.write_buf) bytes) _
        (Returns-any (write_bytes m (clear c.write_buf) bytes))
        (λ b u.
          flush_write_buf-IsAwake now r (record c { write_buf = b; produced = c.produced ++ bytes })
            (IsAwake-Live c k))
  act-IsAwake (flush_encrypted now [] r) c k = k
  act-IsAwake (flush_encrypted now (x ∷ xs) r) c k =
      Returns->>= (λ b. Unit {0}) IsAwake (append_all m (x ∷ xs) c.write_buf) _
        (Returns-any (append_all m (x ∷ xs) c.write_buf))
        (λ b u.
          flush_write_buf-IsAwake now r
            (record c { write_buf = b; produced = c.produced ++ joined (x ∷ xs) })
            (IsAwake-Live c k))

  acts-IsAwake : (list : List Act) (c : Connection) → IsAwake c → Returns IsAwake (acts m list c)
  unfolding acts
  acts-IsAwake [] c k = k
  acts-IsAwake (a ∷ list) c k =
      Returns->>= IsAwake IsAwake (act m a c) (acts m list) (act-IsAwake a c k) (acts-IsAwake list)

  got_bytes-IsAwake :
      (now : ℕ) (bytes : List ℕ) (reaction : List Act) (b : ByteBuf) (c : Connection)
      → IsAwake c
      → Returns IsAwake (got_bytes m now bytes reaction b c)
  unfolding got_bytes
  got_bytes-IsAwake now bytes reaction b c k =
      let put : List ℕ → Outcome ByteBuf = λ block.
        set_writer_index (record b { block = block }) (add_size b.writer_index (length bytes)) in
      Returns->>= (λ l. Unit {0}) IsAwake (store b.block b.writer_index bytes) _
        (Returns-any (store b.block b.writer_index bytes))
        (λ block u.
          Returns->>= (λ l. Unit {0}) IsAwake (put block) _ (Returns-any (put block))
            (λ b' v.
              let before : Connection =
                call (read (contents b')) (record c { read_buf = b'; last_read = now }) in
              Returns->>= IsAwake IsAwake (acts m reaction before) (λ c'. ok (end_read c'))
                (acts-IsAwake reaction before k) end_read-IsAwake))

  read_result-IsAwake :
      (now : ℕ) (r : ReadResult) (reaction : List Act) (b : ByteBuf) (c : Connection)
      → IsAwake c
      → Returns IsAwake (read_result m now r reaction b c)
  unfolding read_result
  read_result-IsAwake now (got []) reaction b c k = shut-IsAwake (record c { read_buf = b })
  read_result-IsAwake now (got (x ∷ bytes)) reaction b c k =
      got_bytes-IsAwake now (x ∷ bytes) reaction b c k
  read_result-IsAwake now read_again reaction b c k = k
  read_result-IsAwake now read_failed reaction b c k = shut-IsAwake (record c { read_buf = b })

module _ (m : Allocator) (read_timeout write_timeout : ℕ) where
  step-IsAwake :
      (e : Event) (c : Connection)
      → IsAwake c
      → Returns IsAwake (step m read_timeout write_timeout e c)
  unfolding step on_read
  step-IsAwake (readable now r reaction) c k =
      Returns-if IsAwake c.closed (ok c) _ (λ t. k)
        (λ f.
          Returns->>= (λ b. Unit {0}) IsAwake (ensure_writable m c.read_buf 1024) _
            (Returns-any (ensure_writable m c.read_buf 1024))
            (λ b u. read_result-IsAwake m now r reaction b c k))
  step-IsAwake (writable now rs) c k = on_write-IsAwake now rs c k
  step-IsAwake errored c k = on_error-IsAwake c k
  step-IsAwake (tick now) c k = on_timer_tick-IsAwake read_timeout write_timeout now c k
  step-IsAwake (task list) c k = acts-IsAwake m list c k

  run_from :
      (events : List Event) (c : Connection)
      → IsAwake c
      → Returns IsAwake (run m read_timeout write_timeout events c)
  unfolding run
  run_from [] c k = k
  run_from (e ∷ events) c k =
      Returns->>= IsAwake IsAwake (step m read_timeout write_timeout e c)
        (run m read_timeout write_timeout events) (step-IsAwake e c k) (run_from events)

  -- From its setup on, a connection that is not closed has an open descriptor, and while bytes wait in
  -- its write buffer, the poller waits until the socket can be written.
  pub run-IsAwake :
      (events : List Event) (now water_mark : ℕ)
      → Returns IsAwake (run m read_timeout write_timeout events (setup_connection now water_mark))
  run-IsAwake events now water_mark =
      run_from events (setup_connection now water_mark) (setup-IsAwake now water_mark)
