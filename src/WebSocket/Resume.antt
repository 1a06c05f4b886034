-- ===== src/WebSocket/Resume.antt =====
-- A frame that comes in several reads.
use xnetty.Prelude.{
  ℕ, suc, ◌≡◌, refl, sym, ap, ◌∙◌, List, [], ◌∷◌, ◌++◌, append_assoc, false, none, arith, ◌==◌,
  length,
}
use xnetty.WebSocket.{
  read_header, CodecState, read_round, ReadResult, after_round, read_loop, channel_read,
}

abbrev waiting : CodecState → List ℕ → ReadResult
waiting st raw = record {
  state = record st { leftover = st.leftover ++ raw };
  buf = [];
  frames = [];
}

read_loop-wait :
    (st : CodecState) (raw : List ℕ)
    → st.leftover ≡ []
    → read_header raw ≡ none
    → read_loop (length raw) st raw ≡ waiting st raw
unfolding read_loop read_round after_round
read_loop-wait st [] e h =
    ap (λ l. record { state = record st { leftover = l }; buf = []; frames = [] })
      (e ∙ sym (ap (λ l. l ++ []) e))
read_loop-wait st (x ∷ raw) e h =
    let t : (suc (length raw) == 0) ≡ false = ground arith in rw (t, h) refl

-- When the bytes of a frame have not all come, `channelRead` passes nothing on, and the next read
-- gives what one read of all the bytes gives.
pub channel_read-resumes :
    (st : CodecState) (a b : List ℕ)
    → read_header (st.leftover ++ a) ≡ none
    → ((channel_read st a).frames ≡ [])
      × (channel_read (channel_read st a).state b ≡ channel_read st (a ++ b))
unfolding channel_read
channel_read-resumes st a b h =
    let raw = st.leftover ++ a in
    let st0 : CodecState = record st { leftover = [] } in
    let w = read_loop-wait st0 raw refl h in
    (
      ap (λ r. r.frames) w,
      ap (λ r. channel_read r.state b) w
          ∙ ap (λ l. read_loop (length l) st0 l) (append_assoc st.leftover a b),
    )
