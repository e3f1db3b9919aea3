-- ===== src/Base/Strings.antt =====
-- The parts of Go's `strings` and `strconv` packages that the sources call, on lists of bytes.
use Prim.Native.Nat.{ℕ, zero, suc, ◌+◌, ◌-◌, ◌*◌, ◌/◌, ◌%◌, ◌^◌, ◌<◌}
use mathlib.Core.Path.{◌≡◌, refl, ap, sym, subst}
use mathlib.Core.Bool.{Bool, true, false, ◌&&◌}
use mathlib.Core.List.{List, [], ◌∷◌, ◌++◌, append-nil, append_assoc}
use mathlib.Core.Option.{Option, none, some}
use native.Mathlib.Omega.{arith}
use rediscluster_operator.Base.Tests.{leb, ltb, ◌==◌, if◌then◌else◌, Bool-cases}
use mathlib.Core.Logic.{inl, inr}
use rediscluster_operator.Base.Bytes.{Text}

-- strings.Split by one byte: `word` holds the bytes since the last separator.
split_from : ℕ → Text → Text → List Text
split_from sep word [] = word ∷ []
split_from sep word (c ∷ s) =
    if c == sep then word ∷ split_from sep [] s else split_from sep (word ++ c ∷ []) s

unfoldable pub split : ℕ → Text → List Text
unfolding split_from
split sep s = split_from sep [] s

-- strings.TrimPrefix by one byte.
unfoldable pub trim_prefix : ℕ → Text → Text
trim_prefix b [] = []
trim_prefix b (c ∷ s) = if c == b then s else c ∷ s

-- strings.TrimSuffix by one byte.
unfoldable pub trim_suffix : ℕ → Text → Text
trim_suffix b [] = []
trim_suffix b (c ∷ []) = if c == b then [] else c ∷ []
trim_suffix b (c ∷ d ∷ s) = c ∷ trim_suffix b (d ∷ s)

abbrev pub is_digit : ℕ → Bool
is_digit c = leb b'0' c && leb c b'9'

parse_from : ℕ → Text → Option ℕ
parse_from n [] = some n
parse_from n (c ∷ s) =
    if is_digit c && ltb (n * 10 + (c - b'0')) (2 ^ 64)
    then parse_from (n * 10 + (c - b'0')) s
    else none

-- strconv.ParseUint(s, 10, 64): no sign, no underscore, and the value fits 64 bits.
unfoldable pub parse_uint : Text → Option ℕ
unfolding parse_from
parse_uint [] = none
parse_uint (c ∷ s) = parse_from 0 (c ∷ s)

-- A digit more than the number has is fuel enough.
format_loop : ℕ → ℕ → Text → Text
format_loop zero n s = s
format_loop (suc fuel) n s = elim (n / 10 == 0) [
  | true ↦ (b'0' + n % 10) ∷ s
  | false ↦ format_loop fuel (n / 10) ((b'0' + n % 10) ∷ s)
]

-- strconv.FormatUint(n, 10)
unfoldable pub format_uint : ℕ → Text
unfolding format_loop
format_uint n = format_loop (suc n) n []

abbrev pub Without : ℕ → Text → Type 0
Without b [] = Unit {0}
Without b (c ∷ s) = ((c == b) ≡ false) × Without b s

abbrev pub AllDigits : Text → Type 0
AllDigits [] = Unit {0}
AllDigits (c ∷ s) = (is_digit c ≡ true) × AllDigits s

AllDigits-if : (b : Bool) (s t : Text) → AllDigits s → AllDigits t → AllDigits (if b then s else t)
AllDigits-if true s t h k = h
AllDigits-if false s t h k = k

format_loop_step :
    (fuel n : ℕ) (s : Text)
    → format_loop (suc fuel) n s ≡ (
        if n / 10 == 0
        then (b'0' + n % 10) ∷ s
        else format_loop fuel (n / 10) ((b'0' + n % 10) ∷ s))
unfolding format_loop
format_loop_step fuel n s = ground arith

format_loop-AllDigits : (fuel n : ℕ) (s : Text) → AllDigits s → AllDigits (format_loop fuel n s)
unfolding format_loop
format_loop-AllDigits zero n s h = h
format_loop-AllDigits (suc fuel) n s h = subst AllDigits (sym (format_loop_step fuel n s)) (
    AllDigits-if (n / 10 == 0) _ _ (ground arith, h)
      (format_loop-AllDigits fuel (n / 10) ((b'0' + n % 10) ∷ s) (ground arith, h)))

pub format_uint-AllDigits : (n : ℕ) → AllDigits (format_uint n)
unfolding format_uint
format_uint-AllDigits n = format_loop-AllDigits (suc n) n [] tt

pub Without-of-AllDigits : (b : ℕ) (s : Text) → is_digit b ≡ false → AllDigits s → Without b s
Without-of-AllDigits b [] h d = tt
Without-of-AllDigits b (c ∷ s) h d = (ground arith, Without-of-AllDigits b s h d.1)

parse_from-format_loop :
    (fuel n : ℕ) (s : Text)
    → n < fuel
    → n < 2 ^ 64
    → parse_from 0 (format_loop fuel n s) ≡ parse_from n s
unfolding parse_from format_loop
parse_from-format_loop zero n s h w = absurd (omega arith)
parse_from-format_loop (suc fuel) n s h w =
    ground
      (arith, format_loop_step fuel n s, parse_from-format_loop fuel (n / 10) ((b'0' + n % 10) ∷ s))

format_loop-cons :
    (fuel n d : ℕ) (s : Text) → (c : ℕ) × (r : Text) × (format_loop fuel n (d ∷ s) ≡ c ∷ r)
unfolding format_loop
format_loop-cons zero n d s = (d, s, refl)
format_loop-cons (suc fuel) n d s = elim (Bool-cases (n / 10 == 0)) [
  | inl e ↦ (b'0' + n % 10, d ∷ s, ground (arith, format_loop_step fuel n (d ∷ s)))
  | inr e ↦
      let (c, r, p) = format_loop-cons fuel (n / 10) (b'0' + n % 10) (d ∷ s) in
      (c, r, ground (arith, format_loop_step fuel n (d ∷ s)))
]

format_uint-cons : (n : ℕ) → (c : ℕ) × (r : Text) × (format_uint n ≡ c ∷ r)
unfolding format_uint
format_uint-cons n = elim (Bool-cases (n / 10 == 0)) [
  | inl e ↦ (b'0' + n % 10, [], ground (arith, format_loop_step n n []))
  | inr e ↦
      let (c, r, p) = format_loop-cons n (n / 10) (b'0' + n % 10) [] in
      (c, r, ground (arith, format_loop_step n n []))
]

-- A printed number is read back.
pub parse_uint-format_uint : (n : ℕ) → n < 2 ^ 64 → parse_uint (format_uint n) ≡ some n
unfolding parse_uint format_uint
parse_uint-format_uint n h =
    let (c, r, p) = format_uint-cons n in ground (arith, parse_from-format_loop (suc n) n [], p)

split_from-word :
    (sep : ℕ) (word s rest : Text)
    → Without sep s
    → split_from sep word (s ++ sep ∷ rest) ≡ (word ++ s) ∷ split_from sep [] rest
unfolding split_from
split_from-word sep word [] rest h = ground (arith, append-nil word)
split_from-word sep word (c ∷ s) rest h =
    ground (arith, split_from-word sep (word ++ c ∷ []) s rest h.1, append_assoc word (c ∷ []) s)

-- The text before the first separator is the first word.
pub split-word :
    (sep : ℕ) (s rest : Text) → Without sep s → split sep (s ++ sep ∷ rest) ≡ s ∷ split sep rest
unfolding split
split-word sep s rest h = split_from-word sep [] s rest h

split_from-last :
    (sep : ℕ) (word s : Text) → Without sep s → split_from sep word s ≡ (word ++ s) ∷ []
unfolding split_from
split_from-last sep word [] h = ground (arith, append-nil word)
split_from-last sep word (c ∷ s) h =
    ground (arith, split_from-last sep (word ++ c ∷ []) s h.1, append_assoc word (c ∷ []) s)

-- A text without a separator is one word.
pub split-last : (sep : ℕ) (s : Text) → Without sep s → split sep s ≡ s ∷ []
unfolding split
split-last sep s h = split_from-last sep [] s h

-- TrimPrefix leaves a number as it is, and TrimSuffix takes off what was put there.
pub trim_prefix-cons : (b : ℕ) (s : Text) → trim_prefix b (b ∷ s) ≡ s
unfolding trim_prefix
trim_prefix-cons b s = ground arith

pub trim_prefix-Without : (b : ℕ) (s : Text) → Without b s → trim_prefix b s ≡ s
unfolding trim_prefix
trim_prefix-Without b [] h = refl
trim_prefix-Without b (c ∷ s) h = ground arith

pub trim_suffix-snoc : (b : ℕ) (s : Text) → trim_suffix b (s ++ b ∷ []) ≡ s
unfolding trim_suffix
trim_suffix-snoc b [] = ground arith
trim_suffix-snoc b (c ∷ []) = ground arith
trim_suffix-snoc b (c ∷ d ∷ s) = ap (λ r. c ∷ r) (trim_suffix-snoc b (d ∷ s))

pub trim_suffix-Without : (b : ℕ) (s : Text) → Without b s → trim_suffix b s ≡ s
unfolding trim_suffix
trim_suffix-Without b [] h = refl
trim_suffix-Without b (c ∷ []) h = ground arith
trim_suffix-Without b (c ∷ d ∷ s) h = ap (λ r. c ∷ r) (trim_suffix-Without b (d ∷ s) h.1)

unfoldable pub contains_byte : ℕ → Text → Bool
contains_byte b [] = false
contains_byte b (c ∷ s) = if c == b then true else contains_byte b s

-- net.JoinHostPort: a host with a colon stands in brackets.
unfoldable pub join_host_port : Text → Text → Text
join_host_port host port =
    if contains_byte b':' host then b'[' ∷ host ++ (b']' ∷ b':' ∷ port) else host ++ (b':' ∷ port)
