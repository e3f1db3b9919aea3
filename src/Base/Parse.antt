-- ===== src/Base/Parse.antt =====
-- More of Go's `strings` and `strconv`: the last occurrence of a byte, signed numbers, and the order
-- of strings.
use Prim.Native.Nat.{ℕ, ◌+◌, ◌-◌, ◌^◌, ◌<◌}
use rediscluster_operator.Base.Lists.{length}
use mathlib.Core.Path.{◌≡◌, refl}
use mathlib.Core.Bool.{Bool, true, false}
use mathlib.Core.List.{List, [], ◌∷◌, ◌++◌}
use mathlib.Core.Option.{Option, none, some}
use native.Mathlib.Omega.{arith}
use rediscluster_operator.Base.Tests.{leb, ltb, ◌==◌, if◌then◌else◌}
use rediscluster_operator.Base.Bytes.{Text}
use rediscluster_operator.Base.Int.{ℤ, pos, negsuc}
use rediscluster_operator.Base.Strings.{
  parse_uint, Without, AllDigits, format_uint, format_uint-AllDigits, parse_uint-format_uint,
}

-- The parts before and after the last occurrence of a byte: strings.LastIndex with its two slices.
unfoldable pub cut_last : ℕ → Text → Option (Text × Text)
cut_last sep [] = none
cut_last sep (c ∷ s) = elim (cut_last sep s) [
  | some (before, after) ↦ some (c ∷ before, after)
  | none ↦ if c == sep then some ([], s) else none
]

-- `s[strings.LastIndex(s, sep)+1:]`, which is `s` where the byte does not occur.
unfoldable pub after_last : ℕ → Text → Text
after_last sep s = elim (cut_last sep s) [ none ↦ s | some (before, after) ↦ after ]

-- The value of an optional sign and digits, within the bounds of an int64.
abbrev in_int64 : Bool → Option ℕ → Option ℤ
in_int64 negative none = none
in_int64 true (some n) =
    if n == 0 then some (pos 0) else if leb n (2 ^ 63) then some (negsuc (n - 1)) else none
in_int64 false (some n) = if ltb n (2 ^ 63) then some (pos n) else none

-- strconv.ParseInt(s, 10, 64), and strconv.Atoi on a 64-bit machine.
unfoldable pub parse_int : Text → Option ℤ
parse_int [] = none
parse_int (c ∷ s) =
    if c == b'-'
    then in_int64 true (parse_uint s)
    else if c == b'+'
    then in_int64 false (parse_uint s)
    else in_int64 false (parse_uint (c ∷ s))

-- `a <= b` on strings: byte by byte.
unfoldable pub leb_text : Text → Text → Bool
leb_text [] t = true
leb_text (a ∷ s) [] = false
leb_text (a ∷ s) (b ∷ t) = if a == b then leb_text s t else ltb a b

insert_text : Text → List Text → List Text
insert_text a [] = a ∷ []
insert_text a (x ∷ xs) = if leb_text a x then a ∷ x ∷ xs else x ∷ insert_text a xs

-- sort.Strings: equal strings cannot be told apart, so any correct sort returns this list.
unfoldable pub sort_texts : List Text → List Text
unfolding insert_text
sort_texts [] = []
sort_texts (x ∷ xs) = insert_text x (sort_texts xs)

pub cut_last-Without : (sep : ℕ) (s : Text) → Without sep s → cut_last sep s ≡ none
unfolding cut_last
cut_last-Without sep [] h = refl
cut_last-Without sep (c ∷ s) h = ground (arith, cut_last-Without sep s h.1)

-- The last part has no occurrence, so the cut is before it.
pub cut_last-append :
    (sep : ℕ) (s t : Text) → Without sep t → cut_last sep (s ++ sep ∷ t) ≡ some (s, t)
unfolding cut_last
cut_last-append sep [] t h = ground (arith, cut_last-Without sep t h)
cut_last-append sep (c ∷ s) t h = ground (arith, cut_last-append sep s t h)

parse_int-digits :
    (s : Text) (n : ℕ)
    → AllDigits s
    → parse_uint s ≡ some n
    → n < 2 ^ 63
    → parse_int s ≡ some (pos n)
unfolding parse_int parse_uint
parse_int-digits [] n d h lt = absurd (cc)
parse_int-digits (c ∷ s) n d h lt =
    let e : (c == b'-') ≡ false = ground (arith, d.0) in
    let f : (c == b'+') ≡ false = ground (arith, d.0) in
    let g : ltb n (2 ^ 63) ≡ true = ground arith in rw (e, f, h, g) refl

-- A printed number below 2 ^ 63 is read back.
pub parse_int-format_uint : (n : ℕ) → n < 2 ^ 63 → parse_int (format_uint n) ≡ some (pos n)
parse_int-format_uint n h =
    parse_int-digits (format_uint n) n (format_uint-AllDigits n)
      (parse_uint-format_uint n (omega (arith, h))) h

length-insert_text : (a : Text) (xs : List Text) → length (insert_text a xs) ≡ length xs + 1
unfolding insert_text
length-insert_text a [] = refl
length-insert_text a (x ∷ xs) = ground (arith, length-insert_text a xs)

pub length-sort_texts : (xs : List Text) → length (sort_texts xs) ≡ length xs
unfolding sort_texts
length-sort_texts [] = refl
length-sort_texts (x ∷ xs) =
    ground (arith, length-insert_text x (sort_texts xs), length-sort_texts xs)
