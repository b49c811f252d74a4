-- ===== src/Common/Assoc.antt =====
-- Go maps as association lists, over a key with a Boolean equality.
use Prim.Native.Nat.{ℕ}
use mathlib.Core.Path.{◌≡◌, refl, sym, subst, ◌∙◌}
use mathlib.Core.Logic.{◌↔◌, inl, inr}
use mathlib.Core.Bool.{Bool, true}
use mathlib.Core.Option.{Option, none, some}
use mathlib.Core.List.{List, [], ◌∷◌}
use native.Mathlib.Omega.{arith}
use secure_mail_scope_sih.Common.Tests.{◌==◌, ==_iff, Bool-cases, if◌then◌else◌}
use secure_mail_scope_sih.Common.Lists.{All}
use secure_mail_scope_sih.Common.Strings.{Text, text_eq, text_eq_iff}

pub record Key {ℓ} (K : Type ℓ) : Type ℓ where
  pub key_eq : K → K → Bool
  pub key_eq_iff : (a b : K) → (key_eq a b ≡ true) ↔ (a ≡ b)

instance abbrev pub nat_key : Key ℕ
nat_key = record { key_eq = ◌==◌; key_eq_iff = ==_iff }

instance abbrev pub text_key : Key Text
text_key = record { key_eq = text_eq; key_eq_iff = text_eq_iff }

module _ {ℓ κ} {K : Type ℓ} {V : Type κ} ⦃k : Key K⦄ where
  -- `m[key]`
  unfoldable pub lookup : K → List (K × V) → Option V
  lookup key [] = none
  lookup key ((j, v) ∷ m) = if k.key_eq j key then some v else lookup key m

  -- `m[key] = v`
  unfoldable pub insert : K → V → List (K × V) → List (K × V)
  insert key v [] = (key, v) ∷ []
  insert key v ((j, w) ∷ m) = if k.key_eq j key then (j, v) ∷ m else (j, w) ∷ insert key v m

  pub lookup-insert :
      (key j : K) (v : V) (m : List (K × V))
      → lookup j (insert key v m) ≡ (if k.key_eq key j then some v else lookup j m)
  unfolding lookup insert
  lookup-insert key j v [] = refl
  lookup-insert key j v ((i, w) ∷ m) =
      ground
        (arith, k.key_eq_iff key j, k.key_eq_iff i key, k.key_eq_iff i j, lookup-insert key j v m)

  -- A property of all entries is one of what is found,
  pub All-lookup {μ} :
      (P : K × V → Type μ) (key : K) (m : List (K × V)) (v : V)
      → All P m
      → lookup key m ≡ some v
      → P (key, v)
  unfolding lookup
  All-lookup P key [] v h e = cc
  All-lookup P key ((j, w) ∷ m) v h e = elim (Bool-cases (k.key_eq j key)) [
    | inl same ↦
        let p = (k.key_eq_iff j key).0 same in
        let found : some w ≡ some v = rw same at e in
        let q : w ≡ v = cc in subst P (λ i. (p i, q i)) h.0
    | inr other ↦ All-lookup P key m v h.1 (rw other at e)
  ]

  -- and is kept by an insertion that has it.
  pub All-insert {μ} :
      (P : K × V → Type μ) (key : K) (v : V) (m : List (K × V))
      → P (key, v)
      → All P m
      → All P (insert key v m)
  unfolding insert
  All-insert P key v [] h a = (h, tt)
  All-insert P key v ((j, w) ∷ m) h a = elim (Bool-cases (k.key_eq j key)) [
    | inl same ↦
        let p : key ≡ j = sym ((k.key_eq_iff j key).0 same) in
        rw same (subst P (λ i. (p i, v)) h, a.1)
    | inr other ↦ rw other (a.0, All-insert P key v m h a.1)
  ]

  -- A key that is there stays.
  pub insert-keeps :
      (key j : K) (v w : V) (m : List (K × V))
      → lookup j m ≡ some w
      → (x : V) × (lookup j (insert key v m) ≡ some x)
  insert-keeps key j v w m e = elim (Bool-cases (k.key_eq key j)) [
    | inl same ↦ (v, lookup-insert key j v m ∙ rw same)
    | inr other ↦ (w, lookup-insert key j v m ∙ rw other e)
  ]
