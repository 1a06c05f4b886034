-- ===== src/WebSocket/Masks.antt =====
-- The masking of a payload, and where `channelRead` cuts it out.
use xnetty.Prelude.{
  ℕ, zero, suc, ◌+◌, ◌-◌, ◌%◌, ◌<◌, ◌≡◌, refl, sym, ap, ap₂, ◌∙◌, List, [], ◌∷◌, ◌++◌, append_assoc,
  Bool, true, false, arith, if◌then◌else◌, length, length-append, get_or, take, drop,
}
use xnetty.Prelude.Slices.{take-append, drop-append}
use xnetty.Prelude.Preds.{All}
use xnetty.WebSocket.{unmask}
use xnetty.WebSocket.Bits.{xor_twice}

abbrev pub IsByte : ℕ → Type 0
IsByte x = x < 256

key_byte : (key : List ℕ) (i : ℕ) → All IsByte key → get_or key i 0 < 256
key_byte [] i h = omega arith
key_byte (k ∷ key) zero h = h.0
key_byte (k ∷ key) (suc i) h = key_byte key i h.1

-- Masking twice gives the bytes back.
unmask-unmask :
    (key : List ℕ) (i : ℕ) (xs : List ℕ)
    → All IsByte key
    → All IsByte xs
    → unmask key i (unmask key i xs) ≡ xs
unfolding unmask
unmask-unmask key i [] k h = refl
unmask-unmask key i (x ∷ xs) k h =
    ap₂ (λ y ys. y ∷ ys) (xor_twice x _ h.0 (key_byte key (i % 4) k))
      (unmask-unmask key (i + 1) xs k h.1)

pub length-unmask : (key : List ℕ) (i : ℕ) (xs : List ℕ) → length (unmask key i xs) ≡ length xs
unfolding unmask
length-unmask key i [] = refl
length-unmask key i (x ∷ xs) = ap suc (length-unmask key (i + 1) xs)

-- What `payload_of` cuts out of a header, a key and a body.
cut_masked :
    (front key body rest : List ℕ) (h k n : ℕ)
    → k ≡ length front
    → length key ≡ 4
    → h ≡ k + 4
    → n ≡ length body
    → unmask
        (take 4 (drop (h - 4) (front ++ (key ++ (body ++ rest)))))
        0
        (take n (drop h (front ++ (key ++ (body ++ rest)))))
      ≡ unmask key 0 body
cut_masked front key body rest h k n ek el eh en =
    let whole = front ++ (key ++ (body ++ rest)) in
    let d1 : drop (h - 4) whole ≡ key ++ (body ++ rest) =
      drop-append (h - 4) front (key ++ (body ++ rest)) (omega arith) in
    let t1 : take 4 (key ++ (body ++ rest)) ≡ key = take-append 4 key (body ++ rest) (sym el) in
    let la = length-append front key in
    let re : whole ≡ (front ++ key) ++ (body ++ rest) =
      sym (append_assoc front key (body ++ rest)) in
    let d2 : drop h whole ≡ body ++ rest =
      ap (λ l. drop h l) re ∙ drop-append h (front ++ key) (body ++ rest) (omega arith) in
    let t2 : take n (body ++ rest) ≡ body = take-append n body rest en in
    ap₂ (λ a b. unmask a 0 b) (ap (λ l. take 4 l) d1 ∙ t1) (ap (λ l. take n l) d2 ∙ t2)

-- What `payload_of` does with the bytes, whatever the frame.
abbrev pub cut : Bool → ℕ → ℕ → List ℕ → List ℕ
cut masked n h raw =
    let body = take n (drop h raw) in
    if masked then unmask (take 4 (drop (h - 4) raw)) 0 body else body

pub cut_front :
    (front key payload rest : List ℕ) (mask : Bool) (h : ℕ)
    → h ≡ length front + (if mask then 4 else 0)
    → length key ≡ 4
    → All IsByte key
    → All IsByte payload
    → cut mask
        (length payload)
        h
        (front ++ ((if mask then key ++ unmask key 0 payload else payload) ++ rest))
      ≡ payload
cut_front front key payload rest true h e kl kb pb =
    let hidden = unmask key 0 payload in
    ap (λ l. cut true (length payload) h (front ++ l)) (append_assoc key hidden rest)
    ∙ cut_masked front key hidden rest h (length front) (length payload) refl kl e
        (sym (length-unmask key 0 payload))
    ∙ unmask-unmask key 0 payload kb pb
cut_front front key payload rest false h e kl kb pb =
    ap (λ l. take (length payload) l) (drop-append h front (payload ++ rest) (omega arith))
    ∙ take-append (length payload) payload rest refl
