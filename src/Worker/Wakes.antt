-- ===== src/Worker/Wakes.antt =====
-- What it means that no wake-up is lost, and the operations of a connection that keep it.
use xnetty.Prelude.{
  ℕ, ◌≡◌, ◌⊎◌, refl, inl, inr, List, [], ◌∷◌, true, false, not, ◌||◌, some, ltb, ◌==◌,
  if◌then◌else◌, if_elim, arith, Bool-cases,
}
use xnetty.Buffer.{ByteBuf, readable_bytes, clear}
use xnetty.Worker.{
  Connection, call, inactive, read_complete, set_closed, close, clear_written, take_written,
  remove_conn, remove_descriptor, remove_channel, disable_all, enable_writing, disable_writing,
  update, WriteResult, wrote, again, failed,
}
use xnetty.Worker.Io.{
  written, flush_result, flush_write_buf, drain, is_overflow, after_write, on_write, on_error,
  on_timer_tick, is_late, end_read,
}

-- An open descriptor, of which the poller tells when it can be written.
abbrev Watches : Connection → Type 0
Watches c = (c.writing ≡ true) × (c.watched ≡ some (c.reading, true))

abbrev Waits : Connection → Type 0
Waits c = (readable_bytes c.write_buf ≡ 0) ⊎ Watches c

abbrev pub IsAwake : Connection → Type 0
IsAwake c = (c.closed ≡ true) ⊎ ((c.fd_open ≡ true) × Waits c)

-- Closed, or with a descriptor that is open.
abbrev Live : Connection → Type 0
Live c = (c.closed ≡ true) ⊎ (c.fd_open ≡ true)

pub IsAwake-Live : (c : Connection) → IsAwake c → Live c
IsAwake-Live c (inl e) = inl e
IsAwake-Live c (inr (o, w)) = inr o

enable_writing-IsAwake : (c : Connection) → Live c → IsAwake (enable_writing c)
unfolding enable_writing update
enable_writing-IsAwake c (inl e) = ground arith
enable_writing-IsAwake c (inr o) = elim (Bool-cases c.reading) [
  | inl r ↦ inr (rw o refl, inr (rw o refl, rw (o, r) refl))
  | inr r ↦ inr (rw o refl, inr (rw o refl, rw (o, r) refl))
]

nothing_left : (b : ByteBuf) → readable_bytes (clear b) ≡ 0
unfolding readable_bytes clear
nothing_left b = refl

clear_written-IsAwake : (c : Connection) → Live c → IsAwake (clear_written c)
clear_written-IsAwake c (inl e) = inl e
clear_written-IsAwake c (inr o) = inr (o, inl (nothing_left c.write_buf))

disable_written-IsAwake : (c : Connection) → Live c → IsAwake (disable_writing (clear_written c))
unfolding disable_writing update
disable_written-IsAwake c (inl e) = ground arith
disable_written-IsAwake c (inr o) =
    inr (rw (disable_writing, o) refl, inl (rw (disable_writing, o) (nothing_left c.write_buf)))

written-IsAwake : (n : ℕ) (c : Connection) → Live c → IsAwake (written n c)
unfolding written take_written
written-IsAwake n c o =
    let t = take_written n c in
    let next : IsAwake
        (if ltb 0 (readable_bytes t.write_buf) then enable_writing t else clear_written t) =
      if_elim IsAwake (ltb 0 (readable_bytes t.write_buf)) (enable_writing t) (clear_written t)
        (λ k. enable_writing-IsAwake t o) (λ k. clear_written-IsAwake t o) in
    if_elim IsAwake c.keep_alive _ _ (λ k. next) (λ k. inl refl)

flush_result-IsAwake : (r : WriteResult) (c : Connection) → Live c → IsAwake (flush_result r c)
flush_result-IsAwake (wrote n) c o =
    if_elim IsAwake (n == 0) (set_closed c) (written n c) (λ t. inl refl)
      (λ f. written-IsAwake n c o)
flush_result-IsAwake again c o = enable_writing-IsAwake c o
flush_result-IsAwake failed c o = inl refl

quiet : (c : Connection) → readable_bytes c.write_buf ≡ 0 → Live c → IsAwake c
quiet c e (inl k) = inl k
quiet c e (inr o) = inr (o, inl e)

pub flush_write_buf-IsAwake :
    (now : ℕ) (r : WriteResult) (c : Connection) → Live c → IsAwake (flush_write_buf now r c)
unfolding flush_write_buf
flush_write_buf-IsAwake now r c o =
    if_elim IsAwake (readable_bytes c.write_buf == 0) _ _
      (λ e. quiet (record c { last_write = now }) (ground arith) o)
      (λ e. flush_result-IsAwake r (record c { last_write = now }) o)

pub close-IsAwake : (c : Connection) → IsAwake (close c)
unfolding close
close-IsAwake c = if_elim IsAwake c.closed _ _ (λ t. inl t) (λ f. inl refl)

pub after_write-IsAwake :
    (now : ℕ) (r : WriteResult) (c : Connection) → Live c → IsAwake (after_write now r c)
unfolding after_write
after_write-IsAwake now r c o =
    if_elim IsAwake (is_overflow c) _ _ (λ t. close-IsAwake c)
      (λ f. flush_write_buf-IsAwake now r c o)

-- An open connection with bytes that wait is watched.
watched_of :
    (c : Connection)
    → IsAwake c
    → c.closed ≡ false
    → (readable_bytes c.write_buf == 0) ≡ false
    → (c.fd_open ≡ true) × Watches c
watched_of c (inl e) k f = absurd (ground arith)
watched_of c (inr (o, inl e)) k f = absurd (ground arith)
watched_of c (inr (o, inr w)) k f = (o, w)

drain-IsAwake :
    (rs : List WriteResult) (c : Connection) → c.closed ≡ false → IsAwake c → IsAwake (drain rs c)
unfolding drain take_written
drain-IsAwake [] c k a =
    if_elim IsAwake (readable_bytes c.write_buf == 0) _ _
      (λ e. disable_written-IsAwake c (IsAwake-Live c a)) (λ e. a)
drain-IsAwake (wrote n ∷ rs) c k a =
    if_elim IsAwake (readable_bytes c.write_buf == 0) _ _
      (λ e. disable_written-IsAwake c (IsAwake-Live c a))
      (λ e.
        if_elim IsAwake (n == 0) _ _ (λ z. inl refl)
          (λ z.
            let (o, w) = watched_of c a k e in
            drain-IsAwake rs (take_written n c) k (inr (o, inr w))))
drain-IsAwake (again ∷ rs) c k a =
    if_elim IsAwake (readable_bytes c.write_buf == 0) _ _
      (λ e. disable_written-IsAwake c (IsAwake-Live c a)) (λ e. a)
drain-IsAwake (failed ∷ rs) c k a =
    if_elim IsAwake (readable_bytes c.write_buf == 0) _ _
      (λ e. disable_written-IsAwake c (IsAwake-Live c a)) (λ e. inl refl)

removed_closed : (c : Connection) → c.closed ≡ true → IsAwake (remove_conn c)
unfolding remove_conn remove_descriptor remove_channel disable_all update
removed_closed c k = ground arith

pub on_write-IsAwake :
    (now : ℕ) (rs : List WriteResult) (c : Connection) → IsAwake c → IsAwake (on_write now rs c)
unfolding on_write
on_write-IsAwake now rs c a =
    if_elim IsAwake c.closed _ _ (λ t. a)
      (λ f. drain-IsAwake rs (record c { last_write = now }) f a)

pub shut-IsAwake : (c : Connection) → IsAwake (remove_conn (call inactive (set_closed c)))
shut-IsAwake c = removed_closed (call inactive (set_closed c)) refl

pub on_error-IsAwake : (c : Connection) → IsAwake c → IsAwake (on_error c)
unfolding on_error
on_error-IsAwake c a = if_elim IsAwake c.closed _ _ (λ t. a) (λ f. shut-IsAwake c)

pub on_timer_tick-IsAwake :
    (rt wt now : ℕ) (c : Connection) → IsAwake c → IsAwake (on_timer_tick rt wt now c)
unfolding on_timer_tick
on_timer_tick-IsAwake rt wt now c a =
    if_elim IsAwake (not c.registered || c.closed) _ _ (λ t. a)
      (λ f.
        if_elim IsAwake (is_late now c.last_read rt || is_late now c.last_write wt) _ _
          (λ t. shut-IsAwake c) (λ g. a))

pub end_read-IsAwake : (c : Connection) → IsAwake c → IsAwake (end_read c)
unfolding end_read
end_read-IsAwake c a =
    if_elim IsAwake c.closed _ _
      (λ k. removed_closed (record (call read_complete c) { read_buf = clear c.read_buf }) k)
      (λ k. a)
