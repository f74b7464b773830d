-- ===== src/EncryptedVfs/Rewritten.antt =====
-- A text that a file's chunks are cut from, with some bytes of it replaced from an offset on: which
-- chunks of src/vfs/vfs_encrypted.cc change, and what they hold then.
use native.Mathlib.Nat.{div-add-mod', div-mul-le_self, div-eq_of_lt-le, mod-lt, mul-mod_left}
use native.Mathlib.Decide.{dec_lt}
use bctoolbox.Common.{
  ℕ, zero, suc, ◌+◌, ◌-◌, ◌*◌, ◌/◌, ◌%◌, ◌≤◌, ◌<◌, ◌≡◌, ◌≢◌, refl, sym, ap, ◌∙◌, inl, inr, not,
  ◌&&◌, [], ◌∷◌, ◌++◌, arith, length, take, drop, length-append, length-take, length-drop,
  append_assoc, ltb, ◌==◌, if◌then◌else◌, Bool-cases, ==→eq, ==→ne,
}
use bctoolbox.Common.Slices.{drop-drop, drop-all, take-append-drop, take-add}
use bctoolbox.Vfs.{Bytes}
use bctoolbox.Vfs.Contents.{patch}
use bctoolbox.Vfs.Patch.{patch-inside}
use bctoolbox.EncryptedVfs.Places.{first-le-last, range-covers, between_mul}

drop-take-append : (p c : ℕ) (s : Bytes) → p ≤ c → drop p (take c s) ++ drop c s ≡ drop p s
drop-take-append zero c s h = take-append-drop c s
drop-take-append (suc p) zero s h = absurd (omega arith)
drop-take-append (suc p) (suc c) [] h = refl
drop-take-append (suc p) (suc c) (x ∷ s) h = drop-take-append p c s (omega arith)

module _ (c : ℕ) (chunk : 0 < c) (text : Bytes) (at : ℕ) (new : Bytes) (inside : at ≤ length text)
    (some_bytes : 0 < length new) where
  -- The first and the last chunk, their number, and where the first one starts.
  abbrev pub first : ℕ
  first = at / c

  abbrev pub last : ℕ
  last = (at + length new - 1) / c

  abbrev pub count : ℕ
  count = last - first + 1

  abbrev pub start : ℕ
  start = first * c

  -- The new bytes with those in front of them, from the start of the first chunk.
  abbrev pub front : Bytes
  front = take (at - start) (drop start text) ++ new

  -- What the last chunk has behind them.
  abbrev pub tail : Bytes
  tail =
      if not (length front % c == 0) && ltb (length front + start) (length text)
      then drop (length front % c) (take c (drop (last * c) text))
      else []

  pub start-at : start + at % c ≡ at
  start-at = div-add-mod' at c

  pub length-front : length front ≡ at - start + length new
  length-front = omega (
    arith,
    length-append (take (at - start) (drop start text)) new,
    length-take (at - start) (drop start text),
    length-drop start text,
    start-at,
  )

  pub count-chunks : count * c ≡ (last - first) * c + c
  count-chunks = grind arith

  pub last-start : last * c ≡ (last - first) * c + start
  last-start = omega (
    arith,
    count-chunks,
    between_mul first last c (first-le-last c at (length new) chunk some_bytes),
  )

  pub front_bounds : (length front ≤ count * c) × ((last - first) * c < length front)
  front_bounds = (
    omega (arith, length-front, start-at, range-covers c at (length new) chunk some_bytes),
    omega (arith, length-front, start-at, last-start, div-mul-le_self (at + length new - 1) c),
  )

  -- The front fills its chunks, or ends in the last one.
  front-whole : length front % c ≡ 0 → length front ≡ count * c
  front-whole part = elim (dec_lt (length front) (count * c)) [
    | yes short ↦
        let q : length front / c ≡ last - first =
          div-eq_of_lt-le c (omega (arith, front_bounds)) (omega (arith, front_bounds)) in
        absurd (omega (arith, front_bounds, div-add-mod' (length front) c, ap (λ (t : ℕ). t * c) q))
    | no long ↦ omega (arith, front_bounds)
  ]

  pub front-part : length front % c ≢ 0 → length front ≡ (last - first) * c + length front % c
  front-part part = elim (dec_lt (length front) (count * c)) [
    | yes short ↦
        let q : length front / c ≡ last - first =
          div-eq_of_lt-le c (omega (arith, front_bounds)) (omega (arith, front_bounds)) in
        omega (arith, div-add-mod' (length front) c, ap (λ (t : ℕ). t * c) q)
    | no long ↦
        let full : length front ≡ count * c = omega (arith, front_bounds) in
        absurd (part (ap (λ (t : ℕ). t % c) full ∙ mul-mod_left count c))
  ]

  abbrev pub rest : Bytes
  rest = drop start text

  drop-last : drop (last * c) text ≡ drop ((last - first) * c) rest
  drop-last =
      let place : last * c ≡ start + (last - first) * c = omega (arith, last-start) in
      rw place (sym (drop-drop ((last - first) * c) start text))

  -- What follows the front is what the text has there.
  pub tail-rest : tail ++ drop (count * c) rest ≡ drop (length front) rest
  tail-rest = elim (Bool-cases (length front % c == 0)) [
    | inl whole ↦ rw whole (ap (λ n. drop n rest) (sym (front-whole (==→eq _ _ whole))))
    | inr cut ↦ elim (Bool-cases (ltb (length front + start) (length text))) [
      | inl more ↦
          let q = (last - first) * c in
          let part = length front % c in
          rw (cut, more)
            (ap (λ s. drop part (take c s) ++ drop (count * c) rest) drop-last
              ∙ ap (λ n. drop part (take c (drop q rest)) ++ drop n rest) count-chunks
              ∙ ap (λ s. drop part (take c (drop q rest)) ++ s) (sym (drop-drop c q rest))
              ∙ drop-take-append part c (drop q rest) (omega (arith, mod-lt (length front) chunk))
              ∙ drop-drop part q rest
              ∙ ap (λ n. drop n rest) (sym (front-part (==→ne _ _ cut))))
      | inr end ↦
          let past : length rest ≤ length front = ground (arith, length-drop start text) in
          rw (cut, end)
            (drop-all (count * c) rest (omega (arith, front_bounds))
              ∙ sym (drop-all (length front) rest past))
    ]
  ]

  -- The text of the chunks that change.
  abbrev pub whole : Bytes
  whole = front ++ tail

  pub length-whole :
      length whole + (length rest - count * c) ≡ length front + (length rest - length front)
  length-whole = omega (
    arith,
    length-append front tail,
    ap length tail-rest,
    length-append tail (drop (count * c) rest),
    length-drop (count * c) rest,
    length-drop (length front) rest,
  )

  -- The whole text, then: the new bytes replace those at the offset.
  pub rewritten : take start text ++ (whole ++ drop (count * c) rest) ≡ patch at new text
  rewritten =
      let head = take (at - start) rest in
      let end = drop (length front) rest in
      let before : start + (at - start) ≡ at = omega (arith, start-at) in
      let behind : start + length front ≡ at + length new = omega (arith, length-front, start-at) in
      ap (λ s. take start text ++ s)
        (append_assoc front tail (drop (count * c) rest)
          ∙ ap (λ s. front ++ s) tail-rest
          ∙ append_assoc head new end)
      ∙ sym (append_assoc (take start text) head (new ++ end))
      ∙ ap (λ s. s ++ (new ++ end))
          (take-add start (at - start) text ∙ ap (λ n. take n text) before)
      ∙ ap (λ s. take at text ++ (new ++ s))
          (drop-drop (length front) start text ∙ ap (λ n. drop n text) behind)
      ∙ sym (patch-inside at new text inside)
