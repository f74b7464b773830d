-- ===== src/ParamString/Search.antt =====
-- Finding a parameter by its name, src/param_string.c.
use bctoolbox.Common.{
  ℕ, zero, suc, ◌+◌, ◌-◌, ◌^◌, ◌≤◌, ◌<◌, ◌≡◌, refl, sym, ◌∙◌, inl, inr, Bool, true, false, not,
  ◌&&◌, ◌||◌, Option, none, some, [], ◌∷◌, arith, ltb, ◌==◌, length, drop, length-drop, Bool-cases,
  ==→eq,
}
use bctoolbox.Common.Int.{to_int-small}
use bctoolbox.ParamString.{Bytes, byte_at, starts_with, strstr, is_param_at, find_param_loop}
use bctoolbox.ParamString.Text.{
  byte_at-drop, drop-drop, starts_with-byte_at, length-starts_with, IsFirst, strstr-IsFirst,
}

-- The bytes that a name may have: neither a separator nor `=` nor the zero that ends a string.
abbrev pub plain : ℕ → Bool
plain c = not (c == 0 || c == b';' || c == b' ' || c == b'=')

abbrev pub all_plain : Bytes → Bool
all_plain [] = true
all_plain (c ∷ s) = plain c && all_plain s

-- A place where the parameter stands: the whole of a name, at the start or behind a separator, with
-- `=` behind it.
abbrev pub stands_at : (s param : Bytes) → ℕ → Bool
stands_at s param p =
    starts_with param (drop p s)
    && ((p == 0 || byte_at s (p - 1) == b';' || byte_at s (p - 1) == b' ')
        && byte_at s (p + length param) == b'=')

pub byte_at-plain :
    (param : Bytes) (k : ℕ)
    → all_plain param ≡ true
    → k < length param
    → plain (byte_at param k) ≡ true
byte_at-plain [] k h lt = absurd (omega arith)
byte_at-plain (c ∷ param) zero h lt = ground arith
byte_at-plain (c ∷ param) (suc k) h lt = byte_at-plain param k (ground arith) (omega arith)

module _ (s param : Bytes) (names : all_plain param ≡ true) where
  -- Inside an occurrence of the name the parameter cannot stand: the byte in front is one of the name.
  pub inside :
      (q p : ℕ)
      → starts_with param (drop q s) ≡ true
      → q < p
      → p < q + length param
      → stands_at s param p ≡ false
  inside q p here after before =
      let at : byte_at s (p - 1) ≡ byte_at param (p - 1 - q) =
        let e : q + (p - 1 - q) ≡ p - 1 = omega arith in
        sym (rw e at (byte_at-drop q (p - 1 - q) s))
        ∙ starts_with-byte_at param (drop q s) (p - 1 - q) here (omega arith) in
      let own = byte_at-plain param (p - 1 - q) names (omega arith) in ground (arith, at, own)

  -- The first place from `i` on where the parameter stands.
  abbrev pub FirstFrom : ℕ → Option ℕ → Type 0
  FirstFrom i none = (p : ℕ) → i ≤ p → stands_at s param p ≡ false
  FirstFrom i (some p) =
      (i ≤ p)
      × (stands_at s param p ≡ true)
      × ((q : ℕ) → i ≤ q → q < p → stands_at s param q ≡ false)
      × (p + length param ≤ length s)

  pub not_there : (p : ℕ) → starts_with param (drop p s) ≡ false → stands_at s param p ≡ false
  not_there p miss = ground arith

  FirstFrom-later :
      (i k : ℕ) (r : Option ℕ)
      → i ≤ k
      → ((q : ℕ) → i ≤ q → q < k → stands_at s param q ≡ false)
      → FirstFrom k r
      → FirstFrom i r
  FirstFrom-later i k none le before h = λ p from. elim (Bool-cases (ltb p k)) [
    | inl early ↦ before p from (ground arith)
    | inr late ↦ h p (ground arith)
  ]
  FirstFrom-later i k (some p) le before (from, here, first, room) = (
    omega arith,
    here,
    λ q a b. elim (Bool-cases (ltb q k)) [
      | inl early ↦ before q a (ground arith)
      | inr late ↦ first q (ground arith) b
    ],
    room,
  )

  stands_at-is_param_at :
      (p : ℕ)
      → length s < 2 ^ 31
      → starts_with param (drop p s) ≡ true
      → stands_at s param p ≡ is_param_at s param p
  unfolding is_param_at
  stands_at-is_param_at p small here =
      let room = length-starts_with param (drop p s) here in
      let fits = to_int-small (length param) (omega (arith, length-drop p s)) in
      elim (Bool-cases (p == 0)) [
        | inl start ↦ rw (here, start, fits) refl
        | inr later ↦ rw (here, later, fits) refl
      ]

  -- The cases of one search of the name, from `i` on.
  module _ (i : ℕ) where
    before_hit :
        (j : ℕ)
        → ((k : ℕ) → k < j → starts_with param (drop k (drop i s)) ≡ false)
        → (q : ℕ) → i ≤ q
        → q < i + j
        → stands_at s param q ≡ false
    before_hit j none_yet q a b =
        let e : i + (q - i) ≡ q = omega arith in
        not_there q (rw (drop-drop i (q - i) s, e) at (none_yet (q - i) (omega arith)))

    up_to :
        (j : ℕ)
        → length s < 2 ^ 31
        → starts_with param (drop (i + j) s) ≡ true
        → is_param_at s param (i + j) ≡ false
        → ((q : ℕ) → i ≤ q → q < i + j → stands_at s param q ≡ false)
        → (q : ℕ) → i ≤ q
        → q < i + j + length param
        → stands_at s param q ≡ false
    up_to j small here part before q a b = elim (Bool-cases (ltb q (i + j))) [
      | inl early ↦ before q a (ground arith)
      | inr late ↦ elim (Bool-cases (q == i + j)) [
        | inl same ↦ rw (==→eq q (i + j) same) (stands_at-is_param_at (i + j) small here ∙ part)
        | inr past ↦ inside (i + j) q here (ground arith) b
      ]
    ]

    never_from :
        0 < length param
        → i ≤ length s
        → ((k : ℕ) → k ≤ length (drop i s) → starts_with param (drop k (drop i s)) ≡ false)
        → (p : ℕ) → i ≤ p
        → stands_at s param p ≡ false
    never_from one le never p from = elim (Bool-cases (starts_with param (drop p s))) [
      | inl hit ↦
          let room = length-starts_with param (drop p s) hit in
          let same : i + (p - i) ≡ p = omega arith in
          let miss = never (p - i) (omega (arith, length-drop i s, length-drop p s)) in
          let miss2 = rw (drop-drop i (p - i) s, same) at miss in ground arith
      | inr miss ↦ not_there p miss
    ]

    -- One round of the loop, where `again` is what the rounds behind it find.
    round :
        (fuel : ℕ) (o : Option ℕ)
        → length s < 2 ^ 31
        → 0 < length param
        → i ≤ length s
        → length s < i + suc fuel
        → strstr (drop i s) param ≡ o
        → IsFirst (drop i s) param o
        → ((k : ℕ)
            → k ≤ length s
            → length s < k + fuel
            → (r : Option ℕ) × (find_param_loop fuel s param k ≡ some r) × FirstFrom k r)
        → (r : Option ℕ) × (find_param_loop (suc fuel) s param i ≡ some r) × FirstFrom i r
    unfolding find_param_loop
    round fuel none small one le enough e never again =
        (none, rw (e, find_param_loop) refl, never_from one le never)
    round fuel (some j) small one le enough e (hit, none_yet) again =
        let here : starts_with param (drop (i + j) s) ≡ true = rw (drop-drop i j s) at hit in
        let room : i + j + length param ≤ length s =
          omega (arith, length-starts_with param (drop (i + j) s) here, length-drop (i + j) s) in
        elim (Bool-cases (is_param_at s param (i + j))) [
          | inl stands ↦ (
            some (i + j),
            rw (e, find_param_loop, stands) refl,
            (
              omega arith,
              stands_at-is_param_at (i + j) small here ∙ stands,
              before_hit j none_yet,
              room,
            ),
          )
          | inr part ↦
              let (r, found, first) = again (i + j + length param) room (omega arith) in
              (
                r,
                rw (e, find_param_loop, part) found,
                FirstFrom-later i (i + j + length param) r (omega arith)
                    (up_to j small here part (before_hit j none_yet)) first,
              )
        ]

  module _ (one : 0 < length param) where
    pub find_param_loop-FirstFrom :
        (fuel i : ℕ)
        → length s < 2 ^ 31
        → i ≤ length s
        → length s < i + fuel
        → (r : Option ℕ) × (find_param_loop fuel s param i ≡ some r) × FirstFrom i r
    find_param_loop-FirstFrom zero i small le enough = absurd (omega arith)
    find_param_loop-FirstFrom (suc fuel) i small le enough =
        round i fuel (strstr (drop i s) param) small one le enough refl
          (strstr-IsFirst (drop i s) param) λ k a b. find_param_loop-FirstFrom fuel k small a b
