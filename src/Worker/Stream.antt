-- ===== src/Worker/Stream.antt =====
-- What the socket took and what the write buffer still holds are what was written.
use xnetty.Prelude.{
  if_elim, ℕ, ◌≡◌, refl, sym, subst, ap, ap₂, ◌∙◌, inl, inr, List, [], ◌∷◌, ◌++◌, append_assoc,
  true, false, ◌==◌, if◌then◌else◌, Bool-cases, arith, ltb, take, drop,
}
use xnetty.Prelude.Slices.{take-append-drop, nil_of_length}
use xnetty.Buffer.{ByteBuf, readable_bytes, clear}
use xnetty.Buffer.Inv.{IsValid, contents, length-contents}
use xnetty.Buffer.Read.{discard_lem}
use xnetty.Worker.{
  Connection, call, inactive, WriteResult, wrote, again, failed, update, enable_writing,
  disable_writing, close, take_written, set_closed, clear_written, remove_conn, remove_descriptor,
  remove_channel, disable_all,
}
use xnetty.Worker.Io.{written, flush_result, flush_write_buf, drain, is_overflow, after_write}

pub record IsStream (all w : List ℕ) (c : Connection) : Type 0 where
  pub valid : IsValid c.write_buf
  pub whole : c.sent ++ contents c.write_buf ≡ all
  pub made : c.produced ≡ w

take_written-IsStream :
    (all w : List ℕ) (n : ℕ) (c : Connection) → IsStream all w c → IsStream all w (take_written n c)
unfolding take_written
take_written-IsStream all w n c s =
    let (v, e) = discard_lem n s.valid in
    record {
      valid = v;
      whole =
          ap (λ t. (c.sent ++ take n (contents c.write_buf)) ++ t) e
          ∙ append_assoc c.sent (take n (contents c.write_buf)) (drop n (contents c.write_buf))
          ∙ ap (λ t. c.sent ++ t) (take-append-drop n (contents c.write_buf))
          ∙ s.whole;
      made = s.made;
    }

clear_written-IsStream :
    (all w : List ℕ) (c : Connection)
    → readable_bytes c.write_buf ≡ 0
    → IsStream all w c
    → IsStream all w (clear_written c)
unfolding clear
clear_written-IsStream all w c e s =
    let nothing : contents c.write_buf ≡ [] =
      nil_of_length (contents c.write_buf) (length-contents s.valid ∙ e) in
    record {
      valid = record {
        sized = s.valid.sized;
        small = s.valid.small;
        ordered = omega arith;
        within = omega arith;
      };
      whole = ap (λ t. c.sent ++ t) (sym nothing) ∙ s.whole;
      made = s.made;
    }

pub same-IsStream :
    (all w : List ℕ) (c c' : Connection)
    → c'.write_buf ≡ c.write_buf
    → c'.sent ≡ c.sent
    → c'.produced ≡ c.produced
    → IsStream all w c
    → IsStream all w c'
same-IsStream all w c c' e f g s = record {
  valid = subst IsValid (sym e) s.valid;
  whole = ap₂ (λ x b. x ++ contents b) f e ∙ s.whole;
  made = g ∙ s.made;
}

update-IsStream : (all w : List ℕ) (c : Connection) → IsStream all w c → IsStream all w (update c)
unfolding update
update-IsStream all w c s = elim (Bool-cases c.fd_open) [
  | inl e ↦
      same-IsStream all w c (update c) (rw (update, e) refl) (rw (update, e) refl)
        (rw (update, e) refl) s
  | inr e ↦
      same-IsStream all w c (update c) (rw (update, e) refl) (rw (update, e) refl)
        (rw (update, e) refl) s
]

enable_writing-IsStream :
    (all w : List ℕ) (c : Connection) → IsStream all w c → IsStream all w (enable_writing c)
unfolding enable_writing
enable_writing-IsStream all w c s =
    update-IsStream all w (record c { writing = true }) (same-IsStream all w c _ refl refl refl s)

disable_writing-IsStream :
    (all w : List ℕ) (c : Connection) → IsStream all w c → IsStream all w (disable_writing c)
unfolding disable_writing
disable_writing-IsStream all w c s =
    update-IsStream all w (record c { writing = false }) (same-IsStream all w c _ refl refl refl s)

set_closed-IsStream :
    (all w : List ℕ) (c : Connection) → IsStream all w c → IsStream all w (set_closed c)
set_closed-IsStream all w c s = same-IsStream all w c (set_closed c) refl refl refl s

pub remove_conn-IsStream :
    (all w : List ℕ) (c : Connection) → IsStream all w c → IsStream all w (remove_conn c)
unfolding remove_conn remove_descriptor remove_channel disable_all update
remove_conn-IsStream all w c s = elim (Bool-cases c.registered) [
  | inl r ↦ elim (Bool-cases c.fd_open) [
    | inl e ↦
        same-IsStream all w c _ (rw (remove_conn, r, e) refl) (rw (remove_conn, r, e) refl)
          (rw (remove_conn, r, e) refl) s
    | inr e ↦
        same-IsStream all w c _ (rw (remove_conn, r, e) refl) (rw (remove_conn, r, e) refl)
          (rw (remove_conn, r, e) refl) s
  ]
  | inr r ↦
      same-IsStream all w c (remove_conn c) (rw (remove_conn, r) refl) (rw (remove_conn, r) refl)
        (rw (remove_conn, r) refl) s
]

after_take-IsStream :
    (all w : List ℕ) (c : Connection)
    → IsStream all w c
    → IsStream all w
        (if ltb 0 (readable_bytes c.write_buf) then enable_writing c else clear_written c)
after_take-IsStream all w c s =
    if_elim (IsStream all w) (ltb 0 (readable_bytes c.write_buf)) (enable_writing c)
      (clear_written c) (λ t. enable_writing-IsStream all w c s)
      (λ f. clear_written-IsStream all w c (ground arith) s)

written-IsStream :
    (all w : List ℕ) (n : ℕ) (c : Connection) → IsStream all w c → IsStream all w (written n c)
unfolding written
written-IsStream all w n c s =
    let t = after_take-IsStream all w (take_written n c) (take_written-IsStream all w n c s) in
    if_elim (IsStream all w) c.keep_alive _ _ (λ k. t) (λ k. set_closed-IsStream all w _ t)

flush_result-IsStream :
    (all w : List ℕ) (r : WriteResult) (c : Connection)
    → IsStream all w c
    → IsStream all w (flush_result r c)
flush_result-IsStream all w (wrote n) c s =
    if_elim (IsStream all w) (n == 0) (set_closed c) (written n c)
      (λ t. set_closed-IsStream all w c s) (λ f. written-IsStream all w n c s)
flush_result-IsStream all w again c s = enable_writing-IsStream all w c s
flush_result-IsStream all w failed c s = set_closed-IsStream all w c s

pub flush_write_buf-IsStream :
    (all w : List ℕ) (now : ℕ) (r : WriteResult) (c : Connection)
    → IsStream all w c
    → IsStream all w (flush_write_buf now r c)
unfolding flush_write_buf
flush_write_buf-IsStream all w now r c s =
    let t : IsStream all w (record c { last_write = now }) =
      same-IsStream all w c _ refl refl refl s in
    if_elim (IsStream all w) (readable_bytes c.write_buf == 0) _ _ (λ e. t)
      (λ e. flush_result-IsStream all w r _ t)

emptied-IsStream :
    (all w : List ℕ) (c : Connection)
    → (readable_bytes c.write_buf == 0) ≡ true
    → IsStream all w c
    → IsStream all w (disable_writing (clear_written c))
emptied-IsStream all w c e s =
    disable_writing-IsStream all w (clear_written c)
      (clear_written-IsStream all w c (ground arith) s)

pub drain-IsStream :
    (all w : List ℕ) (rs : List WriteResult) (c : Connection)
    → IsStream all w c
    → IsStream all w (drain rs c)
unfolding drain
drain-IsStream all w [] c s =
    if_elim (IsStream all w) (readable_bytes c.write_buf == 0) _ _
      (λ e. emptied-IsStream all w c e s) (λ e. s)
drain-IsStream all w (wrote n ∷ rs) c s =
    if_elim (IsStream all w) (readable_bytes c.write_buf == 0) _ _
      (λ e. emptied-IsStream all w c e s)
      (λ e.
        if_elim (IsStream all w) (n == 0) _ _ (λ z. set_closed-IsStream all w c s)
          (λ z. drain-IsStream all w rs (take_written n c) (take_written-IsStream all w n c s)))
drain-IsStream all w (again ∷ rs) c s =
    if_elim (IsStream all w) (readable_bytes c.write_buf == 0) _ _
      (λ e. emptied-IsStream all w c e s) (λ e. s)
drain-IsStream all w (failed ∷ rs) c s =
    if_elim (IsStream all w) (readable_bytes c.write_buf == 0) _ _
      (λ e. emptied-IsStream all w c e s) (λ e. set_closed-IsStream all w c s)

pub close-IsStream : (all w : List ℕ) (c : Connection) → IsStream all w c → IsStream all w (close c)
unfolding close
close-IsStream all w c s =
    if_elim (IsStream all w) c.closed _ _ (λ t. s) (λ f. same-IsStream all w c _ refl refl refl s)

pub shut-IsStream :
    (all w : List ℕ) (c : Connection)
    → IsStream all w c
    → IsStream all w (remove_conn (call inactive (set_closed c)))
shut-IsStream all w c s = remove_conn-IsStream all w _ (same-IsStream all w c _ refl refl refl s)

pub after_write-IsStream :
    (all w : List ℕ) (now : ℕ) (r : WriteResult) (c : Connection)
    → IsStream all w c
    → IsStream all w (after_write now r c)
unfolding after_write
after_write-IsStream all w now r c s =
    if_elim (IsStream all w) (is_overflow c) _ _ (λ t. close-IsStream all w c s)
      (λ f. flush_write_buf-IsStream all w now r c s)

-- The write buffer is emptied, and holds these bytes alone.
pub cleared-contents : (b : ByteBuf) → IsValid b → IsValid (clear b) × (contents (clear b) ≡ [])
unfolding clear
cleared-contents b v =
    (record { sized = v.sized; small = v.small; ordered = omega arith; within = omega arith }, refl)
