-- ===== src/Port/Time/Steps.antt =====
-- The seconds and the nanoseconds of a time of src/utils/port.c, one case at a time.
use bctoolbox.Common.{
  ℕ, suc, ◌+◌, ◌-◌, ◌%◌, ◌^◌, ◌<◌, ◌≤◌, ◌≡◌, refl, Option, some, arith, zero, if◌then◌else◌, ne→==,
}
use bctoolbox.Common.Int.{ℤ, pos, negsuc, pos_part, neg_part, sub_ℕ, ◌==ℤ◌}
use bctoolbox.Port.Time.{TimeSpec, timespec_add_secs, add_nsecs}

abbrev pub time : ℕ → ℕ → TimeSpec
time s n = record { tv_sec = pos s; tv_nsec = pos n }

pub add_secs-forward :
    (s n k : ℕ) → s + k < 2 ^ 63 → timespec_add_secs (time s n) (pos k) ≡ some (time (s + k) n)
unfolding timespec_add_secs
add_secs-forward s n k small = ground arith

pub add_secs-back :
    (s n k : ℕ)
    → suc k ≤ s
    → s < 2 ^ 63
    → timespec_add_secs (time s n) (negsuc k) ≡ some (time (s - suc k) n)
unfolding timespec_add_secs
add_secs-back s n k enough small = ground arith

pub add_secs-zero :
    (s n k : ℕ)
    → s < suc k
    → suc k < 2 ^ 63
    → timespec_add_secs (time s n) (negsuc k) ≡ some (time 0 0)
unfolding timespec_add_secs
add_secs-zero s n k short small = ground arith

pub add_nsecs-within :
    (s n r : ℕ) → n + r ≤ 1000000000 → add_nsecs (time s n) (pos r) ≡ some (time s (n + r))
unfolding add_nsecs
add_nsecs-within s n r h = ground arith

pub add_nsecs-over :
    (s n r : ℕ)
    → 1000000000 < n + r
    → n + r < 2000000000
    → s + 1 < 2 ^ 63
    → add_nsecs (time s n) (pos r) ≡ some (time (s + 1) (n + r - 1000000000))
unfolding add_nsecs
add_nsecs-over s n r over fits small =
    let rest : (n + r) % 1000000000 ≡ n + r - 1000000000 = omega arith in ground (arith, rest)

pub add_nsecs-enough :
    (s n r : ℕ)
    → suc r ≤ n
    → n ≤ 1000000000
    → add_nsecs (time s n) (negsuc r) ≡ some (time s (n - suc r))
unfolding add_nsecs
add_nsecs-enough s n r enough fits = ground arith

pub add_nsecs-none : (n r : ℕ) → n < suc r → add_nsecs (time 0 n) (negsuc r) ≡ some (time 0 0)
unfolding add_nsecs
add_nsecs-none n r short = ground arith

pub add_nsecs-borrow :
    (s n r : ℕ)
    → n < suc r
    → r < 1000000000
    → suc s < 2 ^ 63
    → add_nsecs (time (suc s) n) (negsuc r) ≡ some (time s (1000000000 - (suc r - n)))
unfolding add_nsecs
add_nsecs-borrow s n r short fits small = ground arith

pub sub_ℕ-right : (a : ℕ) → sub_ℕ a 0 ≡ pos a
sub_ℕ-right a = ground arith

pub sub_ℕ-zero : (r : ℕ) → sub_ℕ 0 (suc r) ≡ negsuc r
sub_ℕ-zero r = ground arith

pub sub_ℕ-parts : (r : ℕ) → (pos_part (sub_ℕ 0 r) ≡ 0) × (neg_part (sub_ℕ 0 r) ≡ r)
sub_ℕ-parts zero = (refl, refl)
sub_ℕ-parts (suc r) = rw (sub_ℕ-zero r) (refl, refl)

-- The seconds of an addition.
abbrev pub moved : ℕ → ℕ → ℤ → Option TimeSpec
moved s n lap_secs =
    if lap_secs ==ℤ pos 0 then some (time s n) else timespec_add_secs (time s n) lap_secs

pub moved-forward : (s n q : ℕ) → s + q < 2 ^ 63 → moved s n (pos q) ≡ some (time (s + q) n)
moved-forward s n zero small = let e : s + 0 ≡ s = omega arith in rw e refl
moved-forward s n (suc q) small =
    rw (ne→== (suc q) 0 (λ z. omega arith)) (add_secs-forward s n (suc q) small)

pub moved-back : (s n q : ℕ) → q ≤ s → s < 2 ^ 63 → moved s n (sub_ℕ 0 q) ≡ some (time (s - q) n)
moved-back s n zero enough small = let e : s - 0 ≡ s = omega arith in rw e refl
moved-back s n (suc q) enough small = rw (sub_ℕ-zero q) (add_secs-back s n q enough small)

pub moved-zero : (s n q : ℕ) → s < q → q < 2 ^ 63 → moved s n (sub_ℕ 0 q) ≡ some (time 0 0)
moved-zero s n zero short small = absurd (omega arith)
moved-zero s n (suc q) short small = rw (sub_ℕ-zero q) (add_secs-zero s n q short small)
