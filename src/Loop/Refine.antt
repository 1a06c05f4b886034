-- ===== src/Loop/Refine.antt =====
-- The ring refines a queue that has room for as many items as the mask says.
use xnetty.Prelude.{
  ℕ, zero, suc, ◌+◌, ◌^◌, ◌≡◌, ◌≢◌, ◌≤◌, ◌<◌, refl, ap, ap₂, ◌∙◌, ◌⊎◌, inl, inr, List, [], ◌∷◌,
  ◌++◌, true, false, Bool-cases, arith, ltb, lt→ltb, le→ltb_false, ◌==◌, ==_iff, if◌then◌else◌,
  length, get_or, set, length-set,
}
use xnetty.Memory.{ok}
use xnetty.Loop.Queue.{
  SpscQueue, next, push, pop_from, pop_all, Op, put, take_all, Reply, stored, taken, run,
}
use xnetty.Loop.Ring.{
  next-cases, next_bound, window, window-set, window-set_out, IsValid, held, contents,
  length-window, full_iff, held_stored,
}

module _ {ℓ} {T : Type ℓ} where
  -- A queue that has room for `room` items.
  pub bounded : ℕ → List (Op T) → List T → List (Reply T)
  bounded room [] xs = []
  bounded room (put x ∷ ops) xs =
      let kept = bounded room ops (xs ++ (x ∷ [])) in
      let refused = bounded room ops xs in
      if ltb (length xs) room then stored true ∷ kept else stored false ∷ refused
  bounded room (take_all ∷ ops) xs = taken xs ∷ bounded room ops []

module _ {ℓ} {T : Type ℓ} (vacant : T) where
  -- What a ring holds that was pushed to.
  pub push_lem :
      (x : T) (q : SpscQueue T)
      → IsValid q
      → next q.size_mask q.tail ≢ q.head
      → (q' : SpscQueue T) × (push vacant x q ≡ ok (true, q'))
        × IsValid q'
        × (q'.size_mask ≡ q.size_mask)
        × (contents vacant q' ≡ contents vacant q ++ (x ∷ []))
  unfolding push
  push_lem x q v ne =
      let q' : SpscQueue T = record q {
        buf = set q.buf q.tail x;
        tail = next q.size_mask q.tail;
      } in
      let free : (next q.size_mask q.tail == q.head) ≡ false = ground arith in
      let there : ltb q.tail (length q.buf) ≡ true =
        lt→ltb q.tail (length q.buf) (omega (arith, v.sized, v.tail_within)) in
      (
        q',
        rw (free, there) refl,
        record {
          sized = length-set q.buf q.tail x ∙ v.sized;
          small = v.small;
          head_within = v.head_within;
          tail_within = next_bound q.size_mask q.tail v.tail_within v.small;
        },
        refl,
        ap (window vacant q.size_mask q'.buf q.head) (held_stored q x v ne)
            ∙ window-set vacant q.size_mask q.buf x q.tail (held q) q.head v.small v.sized
                v.tail_within v.head_within (ground (arith, v.tail_within, v.head_within))
                (ground (arith, v.tail_within, v.head_within)),
      )

  pub push_full :
      (x : T) (q : SpscQueue T) → next q.size_mask q.tail ≡ q.head → push vacant x q ≡ ok (false, q)
  unfolding push
  push_full x q e =
      let full : (next q.size_mask q.tail == q.head) ≡ true = ground arith in rw full refl

  pop_from_lem :
      (rounds mask : ℕ) (buf : List T) (h t n : ℕ)
      → mask < 2 ^ 63
      → length buf ≡ mask + 1
      → h ≤ mask
      → t ≤ mask
      → n ≤ mask
      → n ≤ rounds
      → (h + n ≡ t) ⊎ (h + n ≡ t + (mask + 1))
      → (buf' : List T) × (pop_from vacant rounds mask buf h t
          ≡ ok (window vacant mask buf h n, buf'))
        × (length buf' ≡ mask + 1)
  unfolding pop_from
  pop_from_lem zero mask buf h t n small size hh ht hn hr e =
      let none_left : n ≡ 0 = omega arith in
      let same : (h == t) ≡ true = ground arith in rw (none_left, same) (buf, refl, size)
  pop_from_lem (suc rounds) mask buf h t zero small size hh ht hn hr e =
      let same : (h == t) ≡ true = ground arith in (buf, rw same refl, size)
  pop_from_lem (suc rounds) mask buf h t (suc n) small size hh ht hn hr e =
      let other : (h == t) ≡ false = ground arith in
      let there : ltb h (length buf) ≡ true = lt→ltb h (length buf) (omega arith) in
      let (b, f, s) =
        pop_from_lem rounds mask (set buf h vacant) (next mask h) t n small
          (length-set buf h vacant ∙ size) (next_bound mask h hh small) ht (omega arith)
          (omega arith) shifted in
      (
        b,
        rw (other, there, f)
            (ap (λ l. ok (get_or buf h vacant ∷ l, b))
              (window-set_out vacant mask buf vacant h n (next mask h) 1 small hh
                (next_bound mask h hh small) (omega arith) (omega arith) one)),
        s,
      )
    where
      one : (h + 1 ≡ next mask h) ⊎ (h + 1 ≡ next mask h + (mask + 1))
      one = elim (next-cases mask h hh small) [
        | inl (l, f) ↦ ground (arith, f)
        | inr (l, f) ↦ ground (arith, f)
      ]

      shifted : (next mask h + n ≡ t) ⊎ (next mask h + n ≡ t + (mask + 1))
      shifted = elim (next-cases mask h hh small) [
        | inl (l, f) ↦ ground (arith, f)
        | inr (l, f) ↦ ground (arith, f)
      ]

  pub pop_all_lem :
      (q : SpscQueue T)
      → IsValid q
      → (q' : SpscQueue T) × (pop_all vacant q ≡ ok (contents vacant q, q'))
        × IsValid q'
        × (q'.size_mask ≡ q.size_mask)
        × (contents vacant q' ≡ [])
  unfolding pop_all
  pop_all_lem q v =
      let (b, e, s) =
        pop_from_lem (q.size_mask + 1) q.size_mask q.buf q.head q.tail (held q) v.small v.sized
          v.head_within v.tail_within (ground (arith, v.tail_within, v.head_within))
          (ground (arith, v.tail_within, v.head_within))
          (ground (arith, v.tail_within, v.head_within)) in
      let q' : SpscQueue T = record q { buf = b; head = q.tail } in
      let none_held : held q' ≡ 0 = ground arith in
      (
        q',
        rw e refl,
        record {
          sized = s;
          small = v.small;
          head_within = v.tail_within;
          tail_within = v.tail_within;
        },
        refl,
        ap (window vacant q.size_mask b q.tail) none_held,
      )

  -- A ring whose places exist behaves as a queue with room for one item less than its size.
  pub run-bounded :
      (ops : List (Op T)) (q : SpscQueue T)
      → IsValid q
      → run vacant ops q ≡ ok (bounded q.size_mask ops (contents vacant q))
  unfolding run bounded
  run-bounded [] q v = refl
  run-bounded (put x ∷ ops) q v = elim (Bool-cases (next q.size_mask q.tail == q.head)) [
    | inl e ↦
        let full : held q ≡ q.size_mask =
          (full_iff q v).0 ((==_iff (next q.size_mask q.tail) q.head).0 e) in
        let no_room : ltb (length (contents vacant q)) q.size_mask ≡ false =
          le→ltb_false (length (contents vacant q)) q.size_mask
            (omega (arith, length-window vacant q.size_mask q.buf q.head (held q))) in
        let same : push vacant x q ≡ ok (false, q) =
          push_full x q ((==_iff (next q.size_mask q.tail) q.head).0 e) in
        rw (same, run-bounded ops q v, no_room) refl
    | inr e ↦
        let ne : next q.size_mask q.tail ≢ q.head = λ k. ground arith in
        let (q', f, v', m, c) = push_lem x q v ne in
        let space : held q ≢ q.size_mask = λ k. ne ((full_iff q v).1 k) in
        let room : ltb (length (contents vacant q)) q.size_mask ≡ true =
          lt→ltb (length (contents vacant q)) q.size_mask (
            ground (
              arith,
              v.head_within,
              v.tail_within,
              length-window vacant q.size_mask q.buf q.head (held q),
            )) in
        rw (f, run-bounded ops q' v' ∙ ap₂ (λ k xs. ok (bounded k ops xs)) m c, room) refl
  ]
  run-bounded (take_all ∷ ops) q v =
      let (q', f, v', m, c) = pop_all_lem q v in
      rw (f, run-bounded ops q' v' ∙ ap₂ (λ k xs. ok (bounded k ops xs)) m c) refl
