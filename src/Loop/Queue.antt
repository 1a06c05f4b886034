-- ===== src/Loop/Queue.antt =====
-- The ring `SpscQueue` of include/xnetty/event/event_loop.h. The mask is one less than the size, a
-- power of two, so `i & sizeMask_` is the remainder by the size. An item that was moved out of the
-- ring leaves `vacant` behind.
use xnetty.Prelude.{
  ℕ, zero, suc, ◌+◌, ◌-◌, ◌*◌, ◌%◌, List, [], ◌∷◌, Bool, true, false, ltb, ◌==◌, if◌then◌else◌,
  length, get_or, set,
}
use xnetty.Memory.{Outcome, ok, fault, diverge, ◌>>=◌, size_mod, add_size}

pub record SpscQueue {ℓ} (T : Type ℓ) : Type ℓ where
  pub buf : List T
  pub size_mask : ℕ
  pub head : ℕ
  pub tail : ℕ

-- The loop of `nextPowerOfTwo`: 64 rounds shift any number out of the word, and 0 stays 0.
unfoldable pub double_up : ℕ → ℕ → ℕ → Outcome ℕ
double_up zero p n = if ltb p n then diverge else ok p
double_up (suc rounds) p n =
    let rest = double_up rounds (p * 2 % size_mod) n in if ltb p n then rest else ok p

unfoldable pub next_power_of_two : ℕ → Outcome ℕ
next_power_of_two n = if n == 0 then ok 1 else double_up 64 1 n

unfoldable pub next : ℕ → ℕ → ℕ
next mask i = add_size i 1 % (mask + 1)

abbrev pub repeat {ℓ} : {A : Type ℓ} → ℕ → A → List A
repeat zero x = []
repeat (suc n) x = x ∷ repeat n x

-- What the producer and the consumer do, and what they get.
pub data Op {ℓ} (T : Type ℓ) : Type ℓ where
  put : T → Op T
  take_all : Op T

pub data Reply {ℓ} (T : Type ℓ) : Type ℓ where
  stored : Bool → Reply T
  taken : List T → Reply T

module _ {ℓ} {T : Type ℓ} (vacant : T) where
  -- The constructor.
  unfoldable pub create : ℕ → Outcome (SpscQueue T)
  create size = do
    p ← next_power_of_two size
    ok (record { buf = repeat p vacant; size_mask = p - 1; head = 0; tail = 0 })

  unfoldable pub push : T → SpscQueue T → Outcome (Bool × SpscQueue T)
  push item q =
      let nt = next q.size_mask q.tail in
      if nt == q.head
      then ok (false, q)
      else if ltb q.tail (length q.buf)
      then ok (true, record q { buf = set q.buf q.tail item; tail = nt })
      else fault

  abbrev cons : T → List T × List T → List T × List T
  cons x (xs, buf) = (x ∷ xs, buf)

  -- The loop of `popAll`: the items from `h` to `t`, and the ring without them.
  unfoldable pub pop_from : ℕ → ℕ → List T → ℕ → ℕ → Outcome (List T × List T)
  pop_from zero mask buf h t = if h == t then ok ([], buf) else diverge
  pop_from (suc rounds) mask buf h t =
      let rest = pop_from rounds mask (set buf h vacant) (next mask h) t in
      if h == t
      then ok ([], buf)
      else if ltb h (length buf)
      then (rest >>= λ r. ok (cons (get_or buf h vacant) r))
      else fault

  abbrev emptied : SpscQueue T → List T × List T → List T × SpscQueue T
  emptied q (xs, buf) = (xs, record q { buf = buf; head = q.tail })

  -- `popAll`, with the items in place of their number.
  unfoldable pub pop_all : SpscQueue T → Outcome (List T × SpscQueue T)
  pop_all q = pop_from (q.size_mask + 1) q.size_mask q.buf q.head q.tail >>= λ r. ok (emptied q r)

  unfoldable pub run : List (Op T) → SpscQueue T → Outcome (List (Reply T))
  run [] q = ok []
  run (put x ∷ ops) q = do (b, q') ← push x q; replies ← run ops q'; ok (stored b ∷ replies)
  run (take_all ∷ ops) q = do (xs, q') ← pop_all q; replies ← run ops q'; ok (taken xs ∷ replies)
