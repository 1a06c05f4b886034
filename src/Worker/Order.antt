-- ===== src/Worker/Order.antt =====
-- Bytes are sent in the order in which they were written, none twice and none left out.
use xnetty.Prelude.{
  ℕ, ◌≡◌, refl, sym, ap, ◌∙◌, List, [], ◌∷◌, ◌++◌, append_assoc, append-nil, not, ◌||◌, if_elim,
  length, arith,
}
use xnetty.Prelude.Preds.{All}
use xnetty.Memory.{ok, Allocator, add_size, store}
use xnetty.Memory.Returns.{Returns, Returns->>=, Returns-any, Returns-if, Returns-imp}
use xnetty.Buffer.{ByteBuf, write_bytes, ensure_writable, set_writer_index, clear}
use xnetty.Buffer.Inv.{IsValid, contents}
use xnetty.Buffer.Write.{write_bytes-Returns}
use xnetty.Worker.{
  Connection, call, inactive, read, read_complete, set_closed, remove_conn, setup_connection,
  enable_reading, update, WriteResult,
}
use xnetty.Worker.Io.{
  Act, send, flush, closing, set_keep_alive, signal_activity, write_frame, flush_encrypted, joined,
  append_all, Event, readable, writable, errored, tick, task, on_read, on_write, on_error,
  on_timer_tick, is_late, act, acts, step, run, ReadResult, got, read_again, read_failed, end_read,
  got_bytes, read_result,
}
use xnetty.Worker.Stream.{
  IsStream, same-IsStream, remove_conn-IsStream, flush_write_buf-IsStream, drain-IsStream,
  close-IsStream, shut-IsStream, after_write-IsStream,
}

-- No frame is written by `WebSocketCodec::write`.
abbrev pub NoFrame : Act → Type 0
NoFrame (write_frame now bytes r) = ⊥
NoFrame _ = Unit

abbrev pub NoFrames : Event → Type 0
NoFrames (readable now r reaction) = All NoFrame reaction
NoFrames (task list) = All NoFrame list
NoFrames _ = Unit

abbrev pub Streams : Connection → Type 0
Streams c = (all : List ℕ) × IsStream all all c

same-Streams :
    (c c' : Connection)
    → c'.write_buf ≡ c.write_buf
    → c'.sent ≡ c.sent
    → c'.produced ≡ c.produced
    → Streams c
    → Streams c'
same-Streams c c' e f g (all, s) = (all, same-IsStream all all c c' e f g s)

shut-Streams : (c : Connection) → Streams c → Streams (remove_conn (call inactive (set_closed c)))
shut-Streams c (all, s) = (all, shut-IsStream all all c s)

on_write-Streams :
    (now : ℕ) (rs : List WriteResult) (c : Connection) → Streams c → Streams (on_write now rs c)
unfolding on_write
on_write-Streams now rs c (all, s) =
    if_elim Streams c.closed _ _ (λ t. (all, s))
      (λ f. (
        all,
        drain-IsStream all all rs (record c { last_write = now })
            (same-IsStream all all c _ refl refl refl s),
      ))

on_error-Streams : (c : Connection) → Streams c → Streams (on_error c)
unfolding on_error
on_error-Streams c s = if_elim Streams c.closed _ _ (λ t. s) (λ f. shut-Streams c s)

on_timer_tick-Streams :
    (rt wt now : ℕ) (c : Connection) → Streams c → Streams (on_timer_tick rt wt now c)
unfolding on_timer_tick
on_timer_tick-Streams rt wt now c s =
    if_elim Streams (not c.registered || c.closed) _ _ (λ t. s)
      (λ f.
        if_elim Streams (is_late now c.last_read rt || is_late now c.last_write wt) _ _
          (λ t. shut-Streams c s) (λ g. s))

end_read-Streams : (c : Connection) → Streams c → Streams (end_read c)
unfolding end_read
end_read-Streams c (all, s) =
    let t : IsStream all all (record (call read_complete c) { read_buf = clear c.read_buf }) =
      same-IsStream all all c _ refl refl refl s in
    if_elim Streams c.closed _ _ (λ k. (all, remove_conn-IsStream all all _ t)) (λ k. (all, t))

setup-Streams : (now water_mark : ℕ) → Streams (setup_connection now water_mark)
unfolding setup_connection enable_reading update
setup-Streams now water_mark = (
  [],
  record {
    valid = record {
      sized = refl;
      small = omega arith;
      ordered = omega arith;
      within = omega arith;
    };
    whole = refl;
    made = refl;
  },
)

module _ (m : Allocator) where
  append_all-Returns :
      (list : List (List ℕ)) (b : ByteBuf)
      → IsValid b
      → Returns (λ b'. IsValid b' × (contents b' ≡ contents b ++ joined list)) (append_all m list b)
  unfolding append_all
  append_all-Returns [] b v = (v, sym (append-nil (contents b)))
  append_all-Returns (x ∷ xs) b v =
      Returns->>= (λ b'. IsValid b' × (contents b' ≡ contents b ++ x))
        (λ b'. IsValid b' × (contents b' ≡ contents b ++ joined (x ∷ xs))) (write_bytes m b x) _
        (write_bytes-Returns m b x v)
        (λ b1 h.
          Returns-imp (λ b'. IsValid b' × (contents b' ≡ contents b1 ++ joined xs)) _
            (append_all m xs b1)
            (λ b' k.
              (k.0, k.1 ∙ ap (λ l. l ++ joined xs) h.1 ∙ append_assoc (contents b) x (joined xs)))
            (append_all-Returns xs b1 h.0))

  act-Streams : (a : Act) (c : Connection) → NoFrame a → Streams c → Returns Streams (act m a c)
  unfolding act
  act-Streams (send now bytes r) c u (all, s) =
      Returns->>= (λ b. IsValid b × (contents b ≡ contents c.write_buf ++ bytes)) Streams
        (write_bytes m c.write_buf bytes) _ (write_bytes-Returns m c.write_buf bytes s.valid)
        (λ b h.
          let (v, e) = h in
          let t : IsStream (all ++ bytes) (all ++ bytes)
              (record c { write_buf = b; produced = c.produced ++ bytes }) =
            record {
              valid = v;
              whole =
                  ap (λ l. c.sent ++ l) e
                  ∙ sym (append_assoc c.sent (contents c.write_buf) bytes)
                  ∙ ap (λ l. l ++ bytes) s.whole;
              made = ap (λ l. l ++ bytes) s.made;
            } in
          (all ++ bytes, after_write-IsStream (all ++ bytes) (all ++ bytes) now r _ t))
  act-Streams (flush now r) c u (all, s) = (all, flush_write_buf-IsStream all all now r c s)
  act-Streams closing c u (all, s) = (all, close-IsStream all all c s)
  act-Streams (set_keep_alive b) c u s = same-Streams c _ refl refl refl s
  act-Streams (signal_activity now) c u s = same-Streams c _ refl refl refl s
  act-Streams (write_frame now bytes r) c u s = absurd u
  act-Streams (flush_encrypted now [] r) c u s = s
  act-Streams (flush_encrypted now (x ∷ xs) r) c u (all, s) =
      Returns->>= (λ b. IsValid b × (contents b ≡ contents c.write_buf ++ joined (x ∷ xs))) Streams
        (append_all m (x ∷ xs) c.write_buf) _ (append_all-Returns (x ∷ xs) c.write_buf s.valid)
        (λ b h.
          let (v, e) = h in
          (
            all ++ joined (x ∷ xs),
            flush_write_buf-IsStream (all ++ joined (x ∷ xs)) (all ++ joined (x ∷ xs)) now r _
                (record {
                  valid = v;
                  whole =
                      ap (λ l. c.sent ++ l) e
                      ∙ sym (append_assoc c.sent (contents c.write_buf) (joined (x ∷ xs)))
                      ∙ ap (λ l. l ++ joined (x ∷ xs)) s.whole;
                  made = ap (λ l. l ++ joined (x ∷ xs)) s.made;
                }),
          ))

  acts-Streams :
      (list : List Act) (c : Connection)
      → All NoFrame list
      → Streams c
      → Returns Streams (acts m list c)
  unfolding acts
  acts-Streams [] c u s = s
  acts-Streams (a ∷ list) c (u, us) s =
      Returns->>= Streams Streams (act m a c) (acts m list) (act-Streams a c u s)
        (λ c' s'. acts-Streams list c' us s')

  got_bytes-Streams :
      (now : ℕ) (bytes : List ℕ) (reaction : List Act) (b : ByteBuf) (c : Connection)
      → All NoFrame reaction
      → Streams c
      → Returns Streams (got_bytes m now bytes reaction b c)
  unfolding got_bytes
  got_bytes-Streams now bytes reaction b c q s =
      let U : List ℕ → Type 0 = λ l. Unit {0} in
      let V : ByteBuf → Type 0 = λ l. Unit {0} in
      Returns->>= U Streams (store b.block b.writer_index bytes) _
        (Returns-any (store b.block b.writer_index bytes))
        (λ block u.
          Returns->>= V Streams
            (set_writer_index (record b { block = block }) (add_size b.writer_index (length bytes)))
            _
            (Returns-any (
              set_writer_index (record b { block = block })
                (add_size b.writer_index (length bytes))))
            (λ b' v.
              let before : Connection =
                call (read (contents b')) (record c { read_buf = b'; last_read = now }) in
              Returns->>= Streams Streams (acts m reaction before) (λ c'. ok (end_read c'))
                (acts-Streams reaction before q (same-Streams c before refl refl refl s))
                end_read-Streams))

  read_result-Streams :
      (now : ℕ) (r : ReadResult) (reaction : List Act) (b : ByteBuf) (c : Connection)
      → All NoFrame reaction
      → Streams c
      → Returns Streams (read_result m now r reaction b c)
  unfolding read_result
  read_result-Streams now (got []) reaction b c q s =
      shut-Streams (record c { read_buf = b }) (same-Streams c _ refl refl refl s)
  read_result-Streams now (got (x ∷ bytes)) reaction b c q s =
      got_bytes-Streams now (x ∷ bytes) reaction b c q s
  read_result-Streams now read_again reaction b c q s = same-Streams c _ refl refl refl s
  read_result-Streams now read_failed reaction b c q s =
      shut-Streams (record c { read_buf = b }) (same-Streams c _ refl refl refl s)

  on_read-Streams :
      (now : ℕ) (r : ReadResult) (reaction : List Act) (c : Connection)
      → All NoFrame reaction
      → Streams c
      → Returns Streams (on_read m now r reaction c)
  unfolding on_read
  on_read-Streams now r reaction c q s =
      Returns-if Streams c.closed (ok c) _ (λ t. s)
        (λ f.
          Returns->>= (λ b. Unit {0}) Streams (ensure_writable m c.read_buf 1024) _
            (Returns-any (ensure_writable m c.read_buf 1024))
            (λ b u. read_result-Streams now r reaction b c q s))

module _ (m : Allocator) (read_timeout write_timeout : ℕ) where
  step-Streams :
      (e : Event) (c : Connection)
      → NoFrames e
      → Streams c
      → Returns Streams (step m read_timeout write_timeout e c)
  unfolding step
  step-Streams (readable now r reaction) c q s = on_read-Streams m now r reaction c q s
  step-Streams (writable now rs) c q s = on_write-Streams now rs c s
  step-Streams errored c q s = on_error-Streams c s
  step-Streams (tick now) c q s = on_timer_tick-Streams read_timeout write_timeout now c s
  step-Streams (task list) c q s = acts-Streams m list c q s

  run_from :
      (events : List Event) (c : Connection)
      → All NoFrames events
      → Streams c
      → Returns Streams (run m read_timeout write_timeout events c)
  unfolding run
  run_from [] c q s = s
  run_from (e ∷ events) c (q, qs) s =
      Returns->>= Streams Streams (step m read_timeout write_timeout e c)
        (run m read_timeout write_timeout events) (step-Streams e c q s)
        (λ c' s'. run_from events c' qs s')

  -- Whatever happens to a connection from its setup on, as long as no handler writes a frame by
  -- `WebSocketCodec::write`: the bytes that the socket took, followed by those that the write buffer
  -- holds, are the bytes that handlers wrote, in order.
  pub run-in_order :
      (events : List Event) (now water_mark : ℕ)
      → All NoFrames events
      → Returns
          (λ c. c.sent ++ contents c.write_buf ≡ c.produced)
          (run m read_timeout write_timeout events (setup_connection now water_mark))
  run-in_order events now water_mark q =
      let P : Connection → Type 0 = λ c. c.sent ++ contents c.write_buf ≡ c.produced in
      Returns-imp Streams P
        (run m read_timeout write_timeout events (setup_connection now water_mark))
        (λ c w. let (all, s) = w in s.whole ∙ sym s.made)
        (run_from events (setup_connection now water_mark) q (setup-Streams now water_mark))
