-- ===== src/Common/Faults.antt =====
-- Go's run-time faults and its reads of byte slices.
use Prim.Native.Nat.{ℕ, zero, suc, ◌+◌, ◌*◌, ◌-◌, ◌≤◌, ◌<◌}
use mathlib.Core.Path.{◌≡◌, refl}
use mathlib.Core.Bool.{◌&&◌}
use mathlib.Core.List.{List, [], ◌∷◌, ◌++◌}
use native.Mathlib.Omega.{arith}
use secure_mail_scope_sih.Common.Tests.{leb, ltb, if◌then◌else◌}
use secure_mail_scope_sih.Common.Lists.{length, take, drop, length-take, length-drop, All}

abbrev pub Bytes : Type 0
Bytes = List ℕ

-- A run that returns, one that panics, and one that a loop's fuel does not suffice for.
pub data Go {ℓ} (A : Type ℓ) : Type ℓ where
  returns : A → Go A
  panics : Go A
  unfinished : Go A

infixl 5 ◌>>=◌
abbrev pub ◌>>=◌ {ℓ κ} : {A : Type ℓ} {B : Type κ} → Go A → (A → Go B) → Go B
returns a >>= f = f a
panics >>= f = panics
unfinished >>= f = unfinished

-- The run returns, with a value of which `P` holds.
abbrev pub Ensures {ℓ} : {A : Type ℓ} → (A → Type 0) → Go A → Type 0
Ensures P (returns a) = P a
Ensures P panics = ⊥
Ensures P unfinished = ⊥

-- A run that ensures something is one that returns.
pub Ensures-returns {ℓ} :
    {A : Type ℓ} (P : A → Type 0) (m : Go A) → Ensures P m → (a : A) × (m ≡ returns a) × P a
Ensures-returns P (returns a) h = (a, refl, h)
Ensures-returns P panics h = absurd h
Ensures-returns P unfinished h = absurd h

pub Ensures-bind {ℓ κ} :
    {A : Type ℓ} {B : Type κ} (Q : A → Type 0) (P : B → Type 0) (m : Go A) (f : A → Go B)
    → Ensures Q m
    → ((a : A) → Q a → Ensures P (f a))
    → Ensures P (m >>= f)
Ensures-bind Q P (returns a) f h k = k a h
Ensures-bind Q P panics f h k = absurd h
Ensures-bind Q P unfinished f h k = absurd h

-- The byte at a place, 0 beyond the end: read only where a test has passed.
unfoldable pub byte_at : Bytes → ℕ → ℕ
byte_at [] i = 0
byte_at (x ∷ xs) zero = x
byte_at (x ∷ xs) (suc i) = byte_at xs i

-- `b[i]`
abbrev pub index : Bytes → ℕ → Go ℕ
index b i = if ltb i (length b) then returns (byte_at b i) else panics

-- `b[lo:hi]`, of a slice with no room behind its length
abbrev pub slice : Bytes → ℕ → ℕ → Go Bytes
slice b lo hi =
    if leb lo hi && leb hi (length b) then returns (take (hi - lo) (drop lo b)) else panics

-- `binary.BigEndian.Uint16(b[i : i+2])`
abbrev pub uint16_at : Bytes → ℕ → Go ℕ
uint16_at b i =
    if leb (i + 2) (length b) then returns (256 * byte_at b i + byte_at b (i + 1)) else panics

-- `int(b[i])<<16 | int(b[i+1])<<8 | int(b[i+2])`, of bytes
abbrev pub uint24_at : Bytes → ℕ → Go ℕ
uint24_at b i =
    if leb (i + 3) (length b)
    then returns (65536 * byte_at b i + 256 * byte_at b (i + 1) + byte_at b (i + 2))
    else panics

pub length-slice :
    (b : Bytes) (lo hi : ℕ)
    → lo ≤ hi
    → hi ≤ length b
    → length (take (hi - lo) (drop lo b)) ≡ hi - lo
length-slice b lo hi h k = length-take (hi - lo) (drop lo b) (omega (arith, length-drop lo b))

-- An element of a byte list is below 256.
abbrev pub IsBytes : Bytes → Type 0
IsBytes = All (λ b. b < 256)

pub byte_at-lt : (b : Bytes) (i : ℕ) → IsBytes b → byte_at b i < 256
unfolding byte_at
byte_at-lt [] i h = omega arith
byte_at-lt (x ∷ xs) zero h = h.0
byte_at-lt (x ∷ xs) (suc i) h = byte_at-lt xs i h.1

-- Reading behind a prefix.
pub byte_at-append : (a b : Bytes) (i : ℕ) → byte_at (a ++ b) (length a + i) ≡ byte_at b i
unfolding byte_at
byte_at-append [] b i = ground arith
byte_at-append (x ∷ a) b i =
    let e : suc (length a) + i ≡ suc (length a + i) = omega arith in rw e (byte_at-append a b i)

pub byte_at-take : (n i : ℕ) (b : Bytes) → i < n → byte_at (take n b) i ≡ byte_at b i
unfolding byte_at take
byte_at-take zero i b h = elim h [ ]
byte_at-take (suc n) i [] h = refl
byte_at-take (suc n) zero (x ∷ b) h = refl
byte_at-take (suc n) (suc i) (x ∷ b) h = byte_at-take n i b (omega arith)
