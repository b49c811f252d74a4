-- ===== src/Common/Strings.antt =====
-- Go strings as lists of bytes, with the functions of package strings that the program calls.
-- `ToUpper` and `ToLower` change ASCII letters only, and `TrimSpace` strips ASCII white space only:
-- what Go does with letters and spaces outside ASCII is not modelled.
use Prim.Native.Nat.{ℕ, zero, suc, ◌+◌, ◌-◌, ◌/◌, ◌%◌, ◌<◌}
use Prim.Native.Char.{code}
use Prim.Native.String.{String}
use mathlib.Core.Path.{◌≡◌, refl}
use mathlib.Core.Logic.{◌↔◌}
use mathlib.Core.Bool.{Bool, true, false, ◌&&◌, ◌||◌}
use mathlib.Core.Option.{Option, none, some}
use mathlib.Core.List.{List, [], ◌∷◌, ◌++◌, map, reverse}
use native.Mathlib.Omega.{arith}
use secure_mail_scope_sih.Common.Tests.{leb, ltb, ◌==◌, if◌then◌else◌}
use secure_mail_scope_sih.Common.Lists.{length}

abbrev pub Text : Type 0
Text = List ℕ

-- The bytes of an ASCII literal. It stays shut, so that a literal is an atom for the tactics.
unfoldable pub codes : String → Text
codes String.[] = []
codes (String.◌∷◌ c s) = code c ∷ codes s

unfoldable pub text_eq : Text → Text → Bool
text_eq [] [] = true
text_eq (x ∷ xs) (y ∷ ys) = x == y && text_eq xs ys
text_eq _ _ = false

pub text_eq_iff : (a b : Text) → (text_eq a b ≡ true) ↔ (a ≡ b)
unfolding text_eq
text_eq_iff (x ∷ a) (y ∷ b) = ground (arith, text_eq_iff a b)
text_eq_iff _ _ = ground arith

-- `s == ""`
unfoldable pub is_empty : Text → Bool
is_empty [] = true
is_empty (x ∷ xs) = false

pub is_empty_iff : (a : Text) → (is_empty a ≡ true) ↔ (a ≡ [])
unfolding is_empty
is_empty_iff [] = ground arith
is_empty_iff (x ∷ xs) = ground arith

-- strings.HasPrefix
unfoldable pub has_prefix : Text → Text → Bool
has_prefix s [] = true
has_prefix [] (c ∷ p) = false
has_prefix (x ∷ s) (c ∷ p) = x == c && has_prefix s p

-- strings.Contains
unfoldable pub contains : Text → Text → Bool
contains [] p = has_prefix [] p
contains (x ∷ s) p = has_prefix (x ∷ s) p || contains s p

-- strings.HasSuffix
unfoldable pub has_suffix : Text → Text → Bool
has_suffix s p = has_prefix (reverse s) (reverse p)

unfoldable pub upper_byte : ℕ → ℕ
upper_byte c = if leb b'a' c && leb c b'z' then c - 32 else c

unfoldable pub lower_byte : ℕ → ℕ
lower_byte c = if leb b'A' c && leb c b'Z' then c + 32 else c

unfoldable pub to_upper : Text → Text
unfolding upper_byte
to_upper s = map upper_byte s

unfoldable pub to_lower : Text → Text
unfolding lower_byte
to_lower s = map lower_byte s

is_space : ℕ → Bool
is_space c = c == 32 || (leb 9 c && leb c 13)

trim_left : Text → Text
trim_left [] = []
trim_left (c ∷ s) = let rest = trim_left s in if is_space c then rest else c ∷ s

-- strings.TrimSpace
unfoldable pub trim_space : Text → Text
unfolding trim_left is_space
trim_space s = reverse (trim_left (reverse (trim_left s)))

-- What stands before the first byte `b`, and what stands behind it; `none` with no such byte.
unfoldable pub cut_at : ℕ → Text → Text × Option Text
cut_at b [] = ([], none)
cut_at b (c ∷ s) =
    let (front, back) = cut_at b s in if c == b then ([], some s) else (c ∷ front, back)

unfoldable pub digit : ℕ → ℕ
digit d = if ltb d 10 then b'0' + d else b'A' + d - 10

decimal_go : ℕ → ℕ → Text → Text
decimal_go zero n acc = acc
decimal_go (suc f) n acc =
    let rest = decimal_go f (n / 10) (digit (n % 10) ∷ acc) in
    if ltb n 10 then digit n ∷ acc else rest

-- `%d`: a number has at most as many digits as `n + 1`.
unfoldable pub decimal : ℕ → Text
unfolding decimal_go digit
decimal n = decimal_go (suc n) n []

-- `0x%04X`, for a number below 2 ^ 16
unfoldable pub hex4 : ℕ → Text
unfolding digit
hex4 n =
    b'0'
    ∷ b'x'
    ∷ digit (n / 4096 % 16)
    ∷ digit (n / 256 % 16)
    ∷ digit (n / 16 % 16)
    ∷ digit (n % 16)
    ∷ []

pub has_prefix-contains : (s p : Text) → has_prefix s p ≡ true → contains s p ≡ true
unfolding contains
has_prefix-contains [] p h = h
has_prefix-contains (x ∷ s) p h = rw h

-- What holds a text holds its tail.
pub contains-tail : (s : Text) (c : ℕ) (p : Text) → contains s (c ∷ p) ≡ true → contains s p ≡ true
unfolding contains has_prefix
contains-tail [] c p h = cc
contains-tail (x ∷ s) c p h = ground (arith, contains-tail s c p, has_prefix-contains s p)

pub has_prefix-append : (p b : Text) → has_prefix (p ++ b) p ≡ true
unfolding has_prefix
has_prefix-append [] b = refl
has_prefix-append (x ∷ p) b = ground (arith, has_prefix-append p b)

-- `a ++ p ++ b` holds `p`.
pub contains-append : (a p b : Text) → contains (a ++ (p ++ b)) p ≡ true
unfolding contains
contains-append [] p b = has_prefix-contains (p ++ b) p (has_prefix-append p b)
contains-append (x ∷ a) p b = ground (arith, contains-append a p b)

-- Whether a text has a byte.
unfoldable pub has_byte : ℕ → Text → Bool
has_byte b [] = false
has_byte b (c ∷ s) = c == b || has_byte b s

has_prefix-has_byte :
    (b : ℕ) (s p : Text) → has_prefix s p ≡ true → has_byte b p ≡ true → has_byte b s ≡ true
unfolding has_prefix has_byte
has_prefix-has_byte b s [] h k = cc
has_prefix-has_byte b [] (c ∷ p) h k = cc
has_prefix-has_byte b (x ∷ s) (c ∷ p) h k = ground (arith, has_prefix-has_byte b s p)

-- What holds a text has each of its bytes.
pub contains-has_byte :
    (b : ℕ) (s p : Text) → contains s p ≡ true → has_byte b p ≡ true → has_byte b s ≡ true
unfolding contains has_byte
contains-has_byte b [] p h k = has_prefix-has_byte b [] p h k
contains-has_byte b (x ∷ s) p h k =
    let prefixed = has_prefix-has_byte b (x ∷ s) p in
    ground (arith, prefixed, contains-has_byte b s p)

-- What stands behind a cut is shorter than the text.
pub cut_at-shorter : (b : ℕ) (s rest : Text) → (cut_at b s).1 ≡ some rest → length rest < length s
unfolding cut_at
cut_at-shorter b [] rest e = cc
cut_at-shorter b (c ∷ s) rest e = ground (arith, cut_at-shorter b s rest)

-- What starts with a text is that text with a rest.
pub has_prefix-split : (s p : Text) → has_prefix s p ≡ true → (r : Text) × (s ≡ p ++ r)
unfolding has_prefix
has_prefix-split s [] h = (s, refl)
has_prefix-split [] (c ∷ p) h = cc
has_prefix-split (x ∷ s) (c ∷ p) h =
    let (r, e) = has_prefix-split s p (ground arith) in (r, ground (arith, e))

-- A prefix does not hide what stands behind it.
pub contains-behind : (a s p : Text) → contains s p ≡ true → contains (a ++ s) p ≡ true
unfolding contains
contains-behind [] s p h = h
contains-behind (x ∷ a) s p h = ground (arith, contains-behind a s p)

-- The first `b` behind a text with none.
pub cut_at-append :
    (b : ℕ) (a s : Text) → has_byte b a ≡ false → cut_at b (a ++ b ∷ s) ≡ (a, some s)
unfolding cut_at has_byte
cut_at-append b [] s h = ground arith
cut_at-append b (x ∷ a) s h = ground (arith, cut_at-append b a s)

pub has_prefix-front : (s p q : Text) → has_prefix s (p ++ q) ≡ true → has_prefix s p ≡ true
unfolding has_prefix
has_prefix-front s [] q h = refl
has_prefix-front [] (c ∷ p) q h = cc
has_prefix-front (x ∷ s) (c ∷ p) q h = ground (arith, has_prefix-front s p q)

-- What holds a text holds its beginning.
pub contains-front : (s p q : Text) → contains s (p ++ q) ≡ true → contains s p ≡ true
unfolding contains
contains-front [] p q h = has_prefix-front [] p q h
contains-front (x ∷ s) p q h =
    let prefixed = has_prefix-front (x ∷ s) p q in ground (arith, prefixed, contains-front s p q)
