-- ===== src/Worker/Closed.antt =====
-- A connection that was closed outside of `onRead`.
use xnetty.Prelude.{ℕ, ◌≡◌, refl, List, [], ◌∷◌, ◌++◌, true, arith}
use xnetty.Memory.{ok, Allocator}
use xnetty.Memory.Returns.{Returns, Returns->>=, Returns-any, Returns-if}
use xnetty.Buffer.{write_bytes, clear}
use xnetty.Worker.{
  Connection, WriteResult, wrote, again, failed, update, enable_writing, close, take_written,
}
use xnetty.Worker.Io.{
  Act, send, flush, closing, set_keep_alive, signal_activity, write_frame, flush_encrypted, joined,
  append_all, Event, readable, writable, errored, tick, task, written, flush_result,
  flush_write_buf, after_write, on_read, on_write, on_error, on_timer_tick, act, acts, step, run,
}

-- Closed for the code, and still held by the table, with its descriptor open.
pub record IsLeaked (c : Connection) : Type 0 where
  pub closed : c.closed ≡ true
  pub registered : c.registered ≡ true
  pub fd_open : c.fd_open ≡ true

enable_writing-IsLeaked : (c : Connection) → IsLeaked c → IsLeaked (enable_writing c)
unfolding enable_writing update
enable_writing-IsLeaked c l = ground arith

written-IsLeaked : (n : ℕ) (c : Connection) → IsLeaked c → IsLeaked (written n c)
unfolding written take_written enable_writing update
written-IsLeaked n c l = ground arith

flush_result-IsLeaked :
    (r : WriteResult) (c : Connection) → IsLeaked c → IsLeaked (flush_result r c)
flush_result-IsLeaked (wrote n) c l = ground (arith, written-IsLeaked n c l)
flush_result-IsLeaked again c l = enable_writing-IsLeaked c l
flush_result-IsLeaked failed c l = record {
  closed = refl;
  registered = l.registered;
  fd_open = l.fd_open;
}

flush_write_buf-IsLeaked :
    (now : ℕ) (r : WriteResult) (c : Connection) → IsLeaked c → IsLeaked (flush_write_buf now r c)
unfolding flush_write_buf
flush_write_buf-IsLeaked now r c l = ground (
  arith,
  flush_result-IsLeaked r (record c { last_write = now })
      (record { closed = l.closed; registered = l.registered; fd_open = l.fd_open }),
)

close-IsLeaked : (c : Connection) → IsLeaked c → IsLeaked (close c)
unfolding close
close-IsLeaked c l = ground arith

after_write-IsLeaked :
    (now : ℕ) (r : WriteResult) (c : Connection) → IsLeaked c → IsLeaked (after_write now r c)
unfolding after_write
after_write-IsLeaked now r c l =
    ground (arith, close-IsLeaked c l, flush_write_buf-IsLeaked now r c l)

closed_by : (c : Connection) → c.registered ≡ true → c.fd_open ≡ true → IsLeaked (close c)
unfolding close
closed_by c r f = ground arith

module _ (m : Allocator) where
  act-IsLeaked : (a : Act) (c : Connection) → IsLeaked c → Returns IsLeaked (act m a c)
  unfolding act
  act-IsLeaked (send now bytes r) c l =
      Returns->>= (λ b. Unit {0}) IsLeaked (write_bytes m c.write_buf bytes)
        (λ b. ok (after_write now r (record c { write_buf = b; produced = c.produced ++ bytes })))
        (Returns-any (write_bytes m c.write_buf bytes))
        (λ b u.
          after_write-IsLeaked now r (record c { write_buf = b; produced = c.produced ++ bytes })
            (record { closed = l.closed; registered = l.registered; fd_open = l.fd_open }))
  act-IsLeaked (flush now r) c l = flush_write_buf-IsLeaked now r c l
  act-IsLeaked closing c l = close-IsLeaked c l
  act-IsLeaked (set_keep_alive b) c l = record {
    closed = l.closed;
    registered = l.registered;
    fd_open = l.fd_open;
  }
  act-IsLeaked (signal_activity now) c l = record {
    closed = l.closed;
    registered = l.registered;
    fd_open = l.fd_open;
  }
  act-IsLeaked (write_frame now bytes r) c l =
      Returns->>= (λ b. Unit {0}) IsLeaked (write_bytes m (clear c.write_buf) bytes) _
        (Returns-any (write_bytes m (clear c.write_buf) bytes))
        (λ b u.
          flush_write_buf-IsLeaked now r
            (record c { write_buf = b; produced = c.produced ++ bytes })
            (record { closed = l.closed; registered = l.registered; fd_open = l.fd_open }))
  act-IsLeaked (flush_encrypted now [] r) c l = l
  act-IsLeaked (flush_encrypted now (x ∷ xs) r) c l =
      Returns->>= (λ b. Unit {0}) IsLeaked (append_all m (x ∷ xs) c.write_buf) _
        (Returns-any (append_all m (x ∷ xs) c.write_buf))
        (λ b u.
          flush_write_buf-IsLeaked now r
            (record c { write_buf = b; produced = c.produced ++ joined (x ∷ xs) })
            (record { closed = l.closed; registered = l.registered; fd_open = l.fd_open }))

  acts-IsLeaked : (list : List Act) (c : Connection) → IsLeaked c → Returns IsLeaked (acts m list c)
  unfolding acts
  acts-IsLeaked [] c l = l
  acts-IsLeaked (a ∷ list) c l =
      Returns->>= IsLeaked IsLeaked (act m a c) (acts m list) (act-IsLeaked a c l)
        (acts-IsLeaked list)

module _ (m : Allocator) (read_timeout write_timeout : ℕ) where
  step-IsLeaked :
      (e : Event) (c : Connection)
      → IsLeaked c
      → Returns IsLeaked (step m read_timeout write_timeout e c)
  unfolding step on_read on_write on_error on_timer_tick
  step-IsLeaked (readable now result reaction) c l =
      Returns-if IsLeaked c.closed (ok c) _ (λ t. l)
        (λ f. absurd (let k = l.closed in ground arith))
  step-IsLeaked (writable now results) c l = ground arith
  step-IsLeaked errored c l = ground arith
  step-IsLeaked (tick now) c l = ground arith
  step-IsLeaked (task list) c l = acts-IsLeaked m list c l

  run-IsLeaked :
      (events : List Event) (c : Connection)
      → IsLeaked c
      → Returns IsLeaked (run m read_timeout write_timeout events c)
  unfolding run
  run-IsLeaked [] c l = l
  run-IsLeaked (e ∷ events) c l =
      Returns->>= IsLeaked IsLeaked (step m read_timeout write_timeout e c)
        (run m read_timeout write_timeout events) (step-IsLeaked e c l) (run-IsLeaked events)

  -- A connection that a task or a timer closes through its context is never removed: whatever events
  -- follow, it stays in the table of the loop, and its descriptor stays open.
  pub closing-IsLeaked :
      (events : List Event) (c : Connection)
      → c.registered ≡ true
      → c.fd_open ≡ true
      → Returns IsLeaked (run m read_timeout write_timeout (task (closing ∷ []) ∷ events) c)
  unfolding run step acts act
  closing-IsLeaked events c r f = run-IsLeaked events (close c) (closed_by c r f)
