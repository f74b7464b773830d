-- ===== src/Port/Time/Total.antt =====
-- The times of src/utils/port.c as numbers of nanoseconds.
use bctoolbox.Common.{
  ℕ, suc, ◌+◌, ◌-◌, ◌*◌, ◌/◌, ◌%◌, ◌^◌, ◌<◌, ◌≤◌, ◌≡◌, refl, ap, ◌∙◌, Option, some, arith, zero,
  if◌then◌else◌, inl, inr, ltb, leb, Bool-cases,
}
use bctoolbox.Common.Int.{ℤ, pos, negsuc, pos_part, neg_part, sub_ℕ}
use bctoolbox.Port.Time.{TimeSpec, ◌>>=◌, add_nsecs, timespec_add_millisecs, timespec_compare}
use bctoolbox.Port.Time.Steps.{
  time, add_nsecs-within, add_nsecs-over, add_nsecs-enough, add_nsecs-none, add_nsecs-borrow,
  sub_ℕ-right, sub_ℕ-zero, sub_ℕ-parts, moved, moved-forward, moved-back, moved-zero,
}

abbrev pub total : ℕ → ℕ → ℕ
total s n = s * 1000000000 + n

-- A call gives a time of so many nanoseconds, of which at most a second is not counted as seconds.
abbrev pub Reaches : Option TimeSpec → ℕ → Type 0
Reaches result t =
    (s : ℕ) × (n : ℕ) × (result ≡ some (time s n)) × (n ≤ 1000000000) × (total s n ≡ t)

add_nsecs-forward :
    (s n r : ℕ)
    → n ≤ 1000000000
    → r < 1000000000
    → s + 1 < 2 ^ 63
    → Reaches (add_nsecs (time s n) (pos r)) (total s n + r)
add_nsecs-forward s n r fits low small = elim (Bool-cases (leb (n + r) 1000000000)) [
  | inl within ↦
      let h : n + r ≤ 1000000000 = ground arith in
      (s, n + r, add_nsecs-within s n r h, h, omega arith)
  | inr over ↦
      let h : 1000000000 < n + r = ground arith in
      (
        s + 1,
        n + r - 1000000000,
        add_nsecs-over s n r h (omega arith) small,
        omega arith,
        omega arith,
      )
]

add_nsecs-short :
    (s n r : ℕ)
    → n < suc r
    → r < 1000000000
    → s < 2 ^ 63 - 1
    → Reaches (add_nsecs (time s n) (negsuc r)) (total s n - suc r)
add_nsecs-short zero n r short low small =
    (0, 0, add_nsecs-none n r short, omega arith, omega arith)
add_nsecs-short (suc s) n r short low small = (
  s,
  1000000000 - (suc r - n),
  add_nsecs-borrow s n r short low (omega arith),
  omega arith,
  omega arith,
)

add_nsecs-back :
    (s n r : ℕ)
    → n ≤ 1000000000
    → r < 1000000000
    → s < 2 ^ 63 - 1
    → Reaches (add_nsecs (time s n) (sub_ℕ 0 r)) (total s n - r)
add_nsecs-back s n zero fits low small =
    let same : total s n + 0 ≡ total s n - 0 = omega arith in
    rw same at (add_nsecs-forward s n 0 fits low (omega arith))
add_nsecs-back s n (suc r) fits low small = rw (sub_ℕ-zero r) (elim (Bool-cases (leb (suc r) n)) [
  | inl enough ↦
      let h : suc r ≤ n = ground arith in
      (s, n - suc r, add_nsecs-enough s n r h fits, omega arith, omega arith)
  | inr short ↦ add_nsecs-short s n r (ground arith) (omega arith) small
])

-- A negative addition is one of its seconds, and of the rest.
in_two_parts :
    (s n l : ℕ)
    → timespec_add_millisecs (time s n) (negsuc l) ≡ (
        moved s n (sub_ℕ 0 (suc l / 1000)) >>= λ ts.
        add_nsecs ts (sub_ℕ 0 (suc l % 1000 * 1000000)))
unfolding timespec_add_millisecs
in_two_parts s n l =
    let (no_part, part) = sub_ℕ-parts (suc l % 1000) in
    let none : 0 * 1000000 ≡ 0 = refl in rw (no_part, part) refl

-- From a time whose nanoseconds are at most a second, an addition of milliseconds, also of a negative
-- number of them, gives the time that is so many milliseconds later, or 0 where that would be
-- negative; the sums are in the range of 64 bits.
pub timespec_add_millisecs-total :
    (s n : ℕ) (lap : ℤ)
    → n ≤ 1000000000
    → s + pos_part lap / 1000 + 1 < 2 ^ 63
    → neg_part lap < 2 ^ 63
    → Reaches
        (timespec_add_millisecs (time s n) lap)
        (total s n + pos_part lap * 1000000 - neg_part lap * 1000000)
unfolding timespec_add_millisecs
timespec_add_millisecs-total s n (pos l) fits small back =
    let q = l / 1000 in
    let r = l % 1000 in
    let (s', n', runs, fits', whole) =
      add_nsecs-forward (s + q) n (r * 1000000) fits (omega arith) (omega arith) in
    (
      s',
      n',
      rw
          (
            sub_ℕ-right q,
            sub_ℕ-right r,
            sub_ℕ-right (r * 1000000),
            moved-forward s n q (omega arith),
          )
          runs,
      fits',
      omega (arith, whole),
    )
timespec_add_millisecs-total s n (negsuc l) fits small back =
    let q = suc l / 1000 in
    let r = suc l % 1000 in
    let rest : TimeSpec → Option TimeSpec = λ ts. add_nsecs ts (sub_ℕ 0 (r * 1000000)) in
    elim (Bool-cases (leb q s)) [
      | inl enough ↦
          let h : q ≤ s = ground arith in
          let (s', n', runs, fits', whole) =
            add_nsecs-back (s - q) n (r * 1000000) fits (omega arith) (omega arith) in
          (
            s',
            n',
            in_two_parts s n l ∙ ap (λ o. o >>= rest) (moved-back s n q h (omega arith)) ∙ runs,
            fits',
            omega (arith, whole),
          )
      | inr short ↦
          let h : s < q = ground arith in
          let (s', n', runs, fits', whole) =
            add_nsecs-back 0 0 (r * 1000000) (omega arith) (omega arith) (omega arith) in
          (
            s',
            n',
            in_two_parts s n l ∙ ap (λ o. o >>= rest) (moved-zero s n q h (omega arith)) ∙ runs,
            fits',
            omega (arith, whole),
          )
    ]

abbrev pub order : (a b : ℕ) → ℤ
order a b = if ltb a b then negsuc 0 else if ltb b a then pos 1 else pos 0

-- Of two times whose nanoseconds are less than a second, the comparison gives the order of their
-- numbers of nanoseconds: -1, 1 or 0.
pub timespec_compare-order :
    (s n s' n' : ℕ)
    → s < 2 ^ 63
    → s' < 2 ^ 63
    → n < 1000000000
    → n' < 1000000000
    → timespec_compare (time s n) (time s' n') ≡ some (order (total s n) (total s' n'))
unfolding timespec_compare
timespec_compare-order s n s' n' small small' fits fits' = ground arith
