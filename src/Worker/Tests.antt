-- ===== src/Worker/Tests.antt =====
-- A connection at work, and the theorems at concrete inputs.
use xnetty.Prelude.{◌≡◌, refl, List, [], ◌∷◌, ◌++◌, true, false, some, arith, take}
use xnetty.Memory.{store}
use xnetty.Memory.Plain.{plain}
use xnetty.Memory.Returns.{Returns}
use xnetty.Buffer.{
  empty, readable_bytes, clear, discard, write_bytes, ensure_writable, expand, grow,
  set_writer_index,
}
use xnetty.Buffer.Inv.{IsValid, contents}
use xnetty.Worker.{
  Connection, inactive, unregistered, read, read_complete, update, enable_reading, enable_writing,
  disable_writing, disable_all, remove_channel, setup_connection, close, remove_descriptor,
  remove_conn, wrote, take_written,
}
use xnetty.Worker.Io.{
  written, flush_write_buf, drain, append_all, write_frame, flush, on_write, on_error, send,
  closing, got, is_overflow, after_write, is_late, on_timer_tick, act, acts, end_read, got_bytes,
  read_result, on_read, Event, readable, writable, tick, task, step, run,
}
use xnetty.Worker.Closed.{IsLeaked, closing-IsLeaked}
use xnetty.Worker.Order.{run-in_order}
use xnetty.Worker.Awake.{run-IsAwake}
use xnetty.Worker.Wakes.{IsAwake}
use xnetty.Worker.Lost.{send_too_long, write_frame-discards, flush_truncated}

all_open : Unit {0}
unfolding store readable_bytes clear discard write_bytes ensure_writable expand grow
    set_writer_index update enable_reading enable_writing disable_writing disable_all remove_channel
    setup_connection close remove_descriptor remove_conn take_written written flush_write_buf drain
    append_all on_write on_error is_overflow after_write is_late on_timer_tick act acts end_read
    got_bytes read_result on_read step run
all_open = tt

abbrev fresh : Connection
fresh = setup_connection 5 100

-- A request is answered, the socket takes two bytes at first and the rest later.
abbrev answered : List Event
answered =
    readable 6 (got (1 ∷ 2 ∷ [])) (send 6 (7 ∷ 8 ∷ 9 ∷ []) (wrote 2) ∷ [])
    ∷ writable 7 (wrote 1 ∷ [])
    ∷ []

answer_sent :
    Returns
      (λ c.
        (c.sent ≡ 7 ∷ 8 ∷ 9 ∷ [])
        × (c.watched ≡ some (true, false))
        × (c.calls ≡ read (1 ∷ 2 ∷ []) ∷ read_complete ∷ []))
      (run plain 10 10 answered fresh)
unfolding all_open
answer_sent = (refl, refl, refl)

half_sent :
    Returns
      (λ c. (c.sent ≡ 7 ∷ 8 ∷ []) × (c.watched ≡ some (true, true)))
      (run plain 10 10 (take 1 answered) fresh)
unfolding all_open
half_sent = (refl, refl)

timed_out :
    Returns
      (λ c. (c.registered ≡ false) × (c.calls ≡ inactive ∷ unregistered ∷ []))
      (run plain 10 10 (tick 16 ∷ []) fresh)
unfolding all_open
timed_out = (refl, refl)

run-in_order_example :
    Returns (λ c. c.sent ++ contents c.write_buf ≡ c.produced) (run plain 10 10 answered fresh)
run-in_order_example = run-in_order plain 10 10 answered 5 100 ((tt, tt), (tt, tt))

run-IsAwake_example : Returns IsAwake (run plain 10 10 answered fresh)
run-IsAwake_example = run-IsAwake plain 10 10 answered 5 100

closing-IsLeaked_example :
    Returns IsLeaked (run plain 10 10 (task (closing ∷ []) ∷ tick 99 ∷ []) fresh)
unfolding all_open
closing-IsLeaked_example = closing-IsLeaked plain 10 10 (tick 99 ∷ []) fresh refl refl

abbrev narrow : Connection
narrow = setup_connection 5 2

abbrev empty-IsValid : IsValid empty
empty-IsValid = record {
  sized = refl;
  small = omega arith;
  ordered = omega arith;
  within = omega arith;
}

send_too_long_example :
    Returns
      (λ c'. (c'.closed ≡ true) × ((on_write 8 (wrote 1 ∷ []) c').sent ≡ 1 ∷ 2 ∷ []))
      (acts plain (send 6 (1 ∷ 2 ∷ 3 ∷ []) (wrote 3) ∷ flush 7 (wrote 2) ∷ []) narrow)
unfolding all_open
send_too_long_example =
    send_too_long plain 7 8 2 (1 ∷ 2 ∷ 3 ∷ []) (wrote 3) (wrote 1 ∷ []) narrow empty-IsValid
      (omega arith) (omega arith) (omega arith)

abbrev half_full : Connection
half_full = record fresh {
  write_buf = record { block = 1 ∷ 2 ∷ 3 ∷ []; capacity = 3; reader_index = 0; writer_index = 3 };
  keep_alive = false;
}

abbrev waiting : Connection
waiting = record half_full { keep_alive = true }

abbrev waiting-IsValid : IsValid waiting.write_buf
waiting-IsValid = record {
  sized = refl;
  small = omega arith;
  ordered = omega arith;
  within = omega arith;
}

flush_truncated_example :
    ((on_write 8 (wrote 1 ∷ []) (flush_write_buf 7 (wrote 2) half_full)).sent ≡ 1 ∷ 2 ∷ [])
    × ((flush_write_buf 7 (wrote 2) half_full).closed ≡ true)
unfolding all_open
flush_truncated_example =
    flush_truncated 7 8 2 (wrote 1 ∷ []) half_full refl (omega arith) (omega arith)

write_frame-discards_example :
    Returns
      (λ c'. c'.sent ++ contents c'.write_buf ≡ 8 ∷ 9 ∷ [])
      (act plain (write_frame 7 (8 ∷ 9 ∷ []) (wrote 1)) waiting)
unfolding all_open
write_frame-discards_example =
    write_frame-discards plain 7 (8 ∷ 9 ∷ []) (wrote 1) waiting waiting-IsValid
