-- ===== src/Port/Duration/Units.antt =====
-- What `bctbx_time_string_to_sec` of src/utils/port.c makes of numbers with their units.
use bctoolbox.Common.{
  ℕ, zero, suc, ◌+◌, ◌-◌, ◌*◌, ◌%◌, ◌^◌, ◌<◌, ◌≡◌, refl, ap, ◌∙◌, some, List, [], ◌∷◌, arith,
  length, min, true, false, ne→==,
}
use bctoolbox.Common.Int.{pos}
use bctoolbox.Port.Hex.{Bytes}
use bctoolbox.Port.Duration.{
  is_digit, is_space, scan_digits, strtol, unit_of, to_i32, times, in_int32, add_number, time_loop,
  time_string_to_sec,
}

abbrev AreDigits : List ℕ → Type 0
AreDigits [] = Unit
AreDigits (d ∷ ds) = (d < 10) × AreDigits ds

abbrev value : (acc : ℕ) → List ℕ → ℕ
value acc [] = acc
value acc (d ∷ ds) = value (acc * 10 + d) ds

abbrev printed : List ℕ → Bytes → Bytes
printed [] rest = rest
printed (d ∷ ds) rest = (b'0' + d) ∷ printed ds rest

scan_digits-printed :
    (acc : ℕ) (ds : List ℕ) (c : ℕ) (rest : Bytes)
    → AreDigits ds
    → is_digit c ≡ false
    → scan_digits acc (printed ds (c ∷ rest)) ≡ (value acc ds, c ∷ rest)
scan_digits-printed acc [] c rest h end = rw end refl
scan_digits-printed acc (d ∷ ds) c rest h end =
    let digit : is_digit (b'0' + d) ≡ true = ground (arith, h.0) in
    let same : b'0' + d - b'0' ≡ d = omega arith in
    rw (digit, same) (scan_digits-printed (acc * 10 + d) ds c rest h.1 end)

strtol-printed :
    (d : ℕ) (ds : List ℕ) (c : ℕ) (rest : Bytes)
    → AreDigits (d ∷ ds)
    → is_digit c ≡ false
    → value 0 (d ∷ ds) < 2 ^ 63
    → strtol (printed (d ∷ ds) (c ∷ rest)) ≡ (pos (value 0 (d ∷ ds)), c ∷ rest)
unfolding strtol
strtol-printed d ds c rest h end small =
    let digit : is_digit (b'0' + d) ≡ true = ground (arith, h.0) in
    let no_space : is_space (b'0' + d) ≡ false = ground (arith, h.0) in
    let no_minus = ne→== (b'0' + d) b'-' (λ z. omega arith) in
    let no_plus = ne→== (b'0' + d) b'+' (λ z. omega arith) in
    let all : min (value 0 (d ∷ ds)) (2 ^ 63 - 1) ≡ value 0 (d ∷ ds) = omega arith in
    let same : b'0' + d - b'0' ≡ d = omega arith in
    rw
      (
        no_space,
        no_minus,
        no_plus,
        digit,
        same,
        scan_digits-printed (0 * 10 + d) ds c rest h.1 end,
        all,
      )
      refl

-- A number of digits, and a suffix.
pub record Term : Type 0 where
  pub digit : ℕ
  pub digits : List ℕ
  pub suffix : ℕ
  pub unit : ℕ

abbrev amount : Term → ℕ
amount t = value 0 (t.digit ∷ t.digits)

-- The suffix stands for the unit, and the number of seconds fits an `int`.
pub record IsTerm (t : Term) : Type 0 where
  pub are_digits : AreDigits (t.digit ∷ t.digits)
  pub means : unit_of t.suffix ≡ some t.unit
  pub fits : amount t * t.unit < 2 ^ 31

abbrev pub AreTerms : List Term → Type 0
AreTerms [] = Unit
AreTerms (t ∷ ts) = IsTerm t × AreTerms ts

abbrev pub text_of : List Term → Bytes
text_of [] = []
text_of (t ∷ ts) = printed (t.digit ∷ t.digits) (t.suffix ∷ text_of ts)

abbrev pub seconds : List Term → ℕ
seconds [] = 0
seconds (t ∷ ts) = amount t * t.unit + seconds ts

suffix-no_digit : (c f : ℕ) → unit_of c ≡ some f → (is_digit c ≡ false) × (0 < f)
suffix-no_digit c f means = ground arith

times-pos : (a f : ℕ) → times (pos a) f ≡ pos (a * f)
times-pos a f = let none_back : 0 * f ≡ 0 = omega arith in rw none_back (ground arith)

to_i32-pos : (a : ℕ) → a < 2 ^ 31 → to_i32 (pos a) ≡ pos a
to_i32-pos a small = let same : a % 2 ^ 32 ≡ a = omega arith in rw same (ground arith)

length-printed : (ds : List ℕ) (rest : Bytes) → length (printed ds rest) ≡ length ds + length rest
length-printed [] rest = omega arith
length-printed (d ∷ ds) rest = omega (arith, length-printed ds rest)

time_loop-seconds :
    (k : ℕ) (ts : List Term) (ret : ℕ)
    → AreTerms ts
    → ret < 2 ^ 32
    → length (text_of ts) < k
    → time_loop k (text_of ts) ret ≡ some ((ret + seconds ts) % 2 ^ 32)
unfolding time_loop
time_loop-seconds zero ts ret h low enough = absurd (omega arith)
time_loop-seconds (suc k) [] ret h low enough =
    let same : (ret + 0) % 2 ^ 32 ≡ ret = omega arith in rw same refl
time_loop-seconds (suc k) (t ∷ ts) ret h low enough =
    let (no_digit, some_unit) = suffix-no_digit t.suffix t.unit h.0.means in
    let a = amount t in
    let small : a < 2 ^ 31 = grind (arith, h.0.fits) in
    let inside : in_int32 (pos (a * t.unit)) ≡ true = ground (arith, h.0.fits) in
    let wrapped : ((ret + a * t.unit % 2 ^ 32) % 2 ^ 32 + seconds ts) % 2 ^ 32
        ≡ (ret + (a * t.unit + seconds ts)) % 2 ^ 32 =
      omega (arith, h.0.fits) in
    let length_more = length-printed (t.digit ∷ t.digits) (t.suffix ∷ text_of ts) in
    ap (λ r. add_number r (λ p r. time_loop k p r) ret)
      (strtol-printed t.digit t.digits t.suffix (text_of ts) h.0.are_digits no_digit (omega arith))
    ∙ rw (to_i32-pos a small, h.0.means, times-pos a t.unit, inside)
        (time_loop-seconds k ts ((ret + a * t.unit % 2 ^ 32) % 2 ^ 32) h.1 (omega arith)
            (omega (arith, length_more))
          ∙ ap some wrapped)

-- Of numbers with their suffixes, each of fewer than 2^31 seconds, `bctbx_time_string_to_sec` gives the
-- sum of their seconds, modulo 2^32.
pub time_string_to_sec-seconds :
    (ts : List Term) → AreTerms ts → time_string_to_sec (text_of ts) ≡ some (seconds ts % 2 ^ 32)
unfolding time_string_to_sec
time_string_to_sec-seconds ts h =
    let from_0 : 0 + seconds ts ≡ seconds ts = omega arith in
    time_loop-seconds (length (text_of ts) + 1) ts 0 h (omega arith) (omega arith)
    ∙ ap (λ n. some (n % 2 ^ 32)) from_0
