-- ===== src/Common/Strconv.antt =====
-- Package strconv, as far as the program reads numbers with it.
use Prim.Native.Nat.{ℕ, ◌+◌, ◌-◌, ◌*◌}
use mathlib.Core.Bool.{◌&&◌}
use mathlib.Core.Option.{Option, none, some}
use mathlib.Core.List.{[], ◌∷◌}
use secure_mail_scope_sih.Common.Tests.{leb, ltb, ◌==◌, if◌then◌else◌}
use secure_mail_scope_sih.Common.Strings.{Text}

-- The value of a digit in base 16.
unfoldable pub digit_value : ℕ → Option ℕ
digit_value c =
    if leb b'0' c && leb c b'9'
    then some (c - b'0')
    else if leb b'a' c && leb c b'f'
    then some (c - b'a' + 10)
    else if leb b'A' c && leb c b'F'
    then some (c - b'A' + 10)
    else none

digit_below : ℕ → Option ℕ → Option ℕ
digit_below base none = none
digit_below base (some d) = if ltb d base then some d else none

-- The number that the digits stand for, behind those that make `acc`.
unfoldable pub parse_digits : ℕ → ℕ → Text → Option ℕ
unfolding digit_below
parse_digits base acc [] = some acc
parse_digits base acc (c ∷ s) = elim (digit_below base (digit_value c)) [
  | none ↦ none
  | some d ↦ parse_digits base (acc * base + d) s
]

-- `strconv.ParseInt(s, base, 64)`, as far as the program tells its results apart: `none` for an error, and
-- for a negative number, which the callers treat as one. A number beyond the int64 range is not cut
-- off here.
unfoldable pub parse_int : ℕ → Text → Option ℕ
parse_int base [] = none
parse_int base (c ∷ []) = parse_digits base 0 (c ∷ [])
parse_int base (c ∷ d ∷ s) =
    if c == b'+' then parse_digits base 0 (d ∷ s) else parse_digits base 0 (c ∷ d ∷ s)

-- `n, err := strconv.Atoi(s); if err != nil || n <= 0 { n = fallback }`
unfoldable pub positive_or : ℕ → Text → ℕ
positive_or fallback s = elim (parse_int 10 s) [
  | none ↦ fallback
  | some n ↦ if leb 1 n && ltb n 0x8000000000000000 then n else fallback
]
