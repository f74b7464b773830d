-- ===== src/Port/Time.antt =====
-- src/utils/port.c: times as seconds and nanoseconds. A sum that leaves the 64 bits of an `int64_t`
-- is undefined in C, and `none` here.
pub mod Steps
pub mod Total
use bctoolbox.Common.{
  ℕ, suc, ◌+◌, ◌*◌, ◌/◌, ◌%◌, ◌^◌, Bool, ◌&&◌, Option, none, some, leb, if◌then◌else◌,
}
use bctoolbox.Common.Int.{ℤ, pos, negsuc, pos_part, neg_part, sub_ℕ, ◌+ℤ◌, ltb_ℤ, is_neg, ◌==ℤ◌}

-- `bctoolboxTimeSpec`
pub record TimeSpec : Type 0 where
  pub tv_sec : ℤ
  pub tv_nsec : ℤ

infixl 5 ◌>>=◌
abbrev pub ◌>>=◌ : {A B : Type 0} → Option A → (A → Option B) → Option B
none >>= k = none
some a >>= k = k a

abbrev pub neg_ℤ : ℤ → ℤ
neg_ℤ a = sub_ℕ (neg_part a) (pos_part a)

-- `/` and `%` of C, which cut towards zero.
abbrev pub div_ℤ : ℤ → ℕ → ℤ
div_ℤ a m = sub_ℕ (pos_part a / m) (neg_part a / m)

abbrev pub mod_ℤ : ℤ → ℕ → ℤ
mod_ℤ a m = sub_ℕ (pos_part a % m) (neg_part a % m)

abbrev pub int64 : ℤ → Option ℤ
int64 a = if leb (pos_part a + 1) (2 ^ 63) && leb (neg_part a) (2 ^ 63) then some a else none

abbrev pub add_to_sec : TimeSpec → ℤ → Option TimeSpec
add_to_sec ts lap = do sec ← int64 (ts.tv_sec +ℤ lap); some (record ts { tv_sec = sec })

-- `bctbx_timespec_add_secs`
unfoldable pub timespec_add_secs : TimeSpec → (lap : ℤ) → Option TimeSpec
timespec_add_secs ts lap =
    if is_neg lap
    then (do
      back ← int64 (neg_ℤ lap)
      if ltb_ℤ ts.tv_sec back
          then some (record { tv_sec = pos 0; tv_nsec = pos 0 })
          else add_to_sec ts lap)
    else add_to_sec ts lap

-- The second part of `bctbx_timespec_add_millisecs`.
unfoldable pub add_nsecs : TimeSpec → (lap_nsecs : ℤ) → Option TimeSpec
add_nsecs ts lap_nsecs =
    if is_neg lap_nsecs && ltb_ℤ ts.tv_nsec (neg_ℤ lap_nsecs)
    then if ts.tv_sec ==ℤ pos 0 then some (record ts { tv_nsec = pos 0 }) else (do
      short ← int64 (neg_ℤ lap_nsecs +ℤ neg_ℤ ts.tv_nsec)
      nsec ← int64 (pos 1000000000 +ℤ neg_ℤ short)
      add_to_sec (record ts { tv_nsec = nsec }) (negsuc 0))
    else (do
      nsec ← int64 (ts.tv_nsec +ℤ lap_nsecs)
      if ltb_ℤ (pos 1000000000) nsec
          then add_to_sec (record ts { tv_nsec = mod_ℤ nsec 1000000000 }) (pos 1)
          else some (record ts { tv_nsec = nsec }))

-- `bctbx_timespec_add_millisecs`
unfoldable pub timespec_add_millisecs : TimeSpec → (lap : ℤ) → Option TimeSpec
timespec_add_millisecs ts lap = do
  let lap_secs = div_ℤ lap 1000
  let rest = mod_ℤ lap 1000
  moved ← if lap_secs ==ℤ pos 0 then some ts else timespec_add_secs ts lap_secs
  add_nsecs moved (sub_ℕ (pos_part rest * 1000000) (neg_part rest * 1000000))

abbrev pub sign : ℤ → ℤ
sign d = if is_neg d then negsuc 0 else if ltb_ℤ (pos 0) d then pos 1 else pos 0

-- `bctbx_timespec_compare`
unfoldable pub timespec_compare : TimeSpec → TimeSpec → Option ℤ
timespec_compare s1 s2 = do
  secdiff ← int64 (s1.tv_sec +ℤ neg_ℤ s2.tv_sec)
  if secdiff ==ℤ pos 0
      then (do nsec_diff ← int64 (s1.tv_nsec +ℤ neg_ℤ s2.tv_nsec); some (sign nsec_diff))
      else some (sign secdiff)
