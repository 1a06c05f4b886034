-- ===== src/WebSocket/Loop.antt =====
-- The loop of `channelRead` ends.
use xnetty.Prelude.{
  ℕ, zero, suc, ◌+◌, ◌≤◌, ◌^◌, ◌≡◌, refl, ap, List, [], ◌∷◌, Bool, true, false, not, ◌&&◌, Option,
  none, some, arith, leb, ◌==◌, if◌then◌else◌, length, length-drop, drop,
}
use xnetty.WebSocket.{
  WebSocketFrame, text, close, continuation, Header, length_field, with_length, read_header,
  payload_of, is_valid_utf8, CodecState, Round, wait, refuse, throw_length, fragment, frame,
  last_frame, take_frame, with_header, read_round, ReadResult, also, after_round, read_loop,
}

-- A round that goes on passes a byte at least.
data Moves : Round → Type 0 where
  waits : Moves wait
  refuses : Moves refuse
  throws : Moves throw_length
  takes : {st : CodecState} {n : ℕ} → 1 ≤ n → Moves (fragment st n)
  passes : {f : WebSocketFrame} {st : CodecState} {n : ℕ} → 1 ≤ n → Moves (frame f st n)
  ends : {f : WebSocketFrame} {st : CodecState} → Moves (last_frame f st)

field_end-low : (raw : List ℕ) (p e : ℕ) → length_field raw ≡ some (p, e) → 2 ≤ e
unfolding length_field
field_end-low raw p e h = ground arith

data IsLong : Option Header → Type 0 where
  absent : IsLong none
  long : {h : Header} → 2 ≤ h.header_len → IsLong (some h)

IsLong-if : (b : Bool) (o : Option Header) → IsLong o → IsLong (if b then none else o)
IsLong-if true o h = absent
IsLong-if false o h = h

with_length-IsLong :
    (raw : List ℕ) (o : Option (ℕ × ℕ))
    → ((p e : ℕ) → o ≡ some (p, e) → 2 ≤ e)
    → IsLong (with_length raw o)
with_length-IsLong raw none h = absent
with_length-IsLong raw (some (p, e)) h =
    let l = h p e refl in IsLong-if _ _ (IsLong-if _ _ (long (ground arith)))

read_header-IsLong : (raw : List ℕ) → IsLong (read_header raw)
unfolding read_header
read_header-IsLong raw = IsLong-if _ _ (with_length-IsLong raw _ (field_end-low raw))

Moves-if : (b : Bool) (r s : Round) → Moves r → Moves s → Moves (if b then r else s)
Moves-if true r s x y = x
Moves-if false r s x y = y

take_frame-Moves :
    (st : CodecState) (h : Header) (payload : List ℕ)
    → 2 ≤ h.header_len
    → Moves (take_frame st h payload)
unfolding take_frame
take_frame-Moves st h payload l =
    let n : 1 ≤ h.header_len + h.payload_len = omega arith in
    Moves-if (leb close h.opcode && not h.fin) _ _ refuses (
      Moves-if (h.opcode == text && not (is_valid_utf8 payload)) _ _ refuses (
        Moves-if (h.opcode == continuation) _ _
          (Moves-if h.fin _ _ (Moves-if (st.fragment_opcode == close) _ _ ends (passes n))
            (takes n))
          (Moves-if (not h.fin) _ _ (takes n) (Moves-if (h.opcode == close) _ _ ends (passes n)))))

with_header-Moves :
    (st : CodecState) (raw : List ℕ) (o : Option Header) → IsLong o → Moves (with_header st raw o)
with_header-Moves st raw none l = waits
with_header-Moves st raw (some h) (long l) =
    Moves-if (leb (2 ^ 63) h.payload_len) _ _ throws (take_frame-Moves st h (payload_of raw h) l)

read_round-Moves : (st : CodecState) (raw : List ℕ) → Moves (read_round st raw)
unfolding read_round
read_round-Moves st raw = with_header-Moves st raw _ (read_header-IsLong raw)

after_round-same :
    (go go' : CodecState → List ℕ → ReadResult) (st : CodecState) (raw : List ℕ) (r : Round)
    → ((st' : CodecState) (n : ℕ) → 1 ≤ n → go st' (drop n raw) ≡ go' st' (drop n raw))
    → Moves r
    → after_round go st raw r ≡ after_round go' st raw r
unfolding after_round
after_round-same go go' st raw wait h waits = refl
after_round-same go go' st raw refuse h refuses = refl
after_round-same go go' st raw throw_length h throws = refl
after_round-same go go' st raw (fragment st' n) h (takes l) = h st' n l
after_round-same go go' st raw (frame f st' n) h (passes l) = ap (also f) (h st' n l)
after_round-same go go' st raw (last_frame f st') h ends = refl

-- With a round for every byte, more rounds change nothing: the loop of `channelRead` has ended by
-- then, whatever the bytes are.
pub read_loop-enough :
    (fuel more : ℕ) (st : CodecState) (raw : List ℕ)
    → length raw ≤ fuel
    → length raw ≤ more
    → read_loop fuel st raw ≡ read_loop more st raw
unfolding read_loop
read_loop-enough zero zero st [] h k = refl
read_loop-enough zero (suc more) st [] h k = refl
read_loop-enough (suc fuel) zero st [] h k = refl
read_loop-enough (suc fuel) (suc more) st [] h k = refl
read_loop-enough zero more st (x ∷ raw) h k = absurd (omega arith)
read_loop-enough (suc fuel) zero st (x ∷ raw) h k = absurd (omega arith)
read_loop-enough (suc fuel) (suc more) st (x ∷ raw) h k =
    let t : (suc (length raw) == 0) ≡ false = ground arith in
    let rest : (st' : CodecState) (n : ℕ)
        → 1 ≤ n
        → read_loop fuel st' (drop n (x ∷ raw)) ≡ read_loop more st' (drop n (x ∷ raw)) =
      λ st' n l.
        let e = length-drop n (x ∷ raw) in
        read_loop-enough fuel more st' (drop n (x ∷ raw)) (omega arith) (omega arith) in
    rw t (
      after_round-same (read_loop fuel) (read_loop more) st (x ∷ raw) _ rest
        (read_round-Moves st (x ∷ raw)))
