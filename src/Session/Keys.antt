-- ===== src/Session/Keys.antt =====
-- `MakeConnectionKey` and `isServerPort` of backend/internal/session/reassembler.go.
use secure_mail_scope_sih.Common.{
  ℕ, ◌≡◌, refl, Bool, true, false, ◌&&◌, ◌||◌, [], ◌∷◌, ◌++◌, arith, ltb, ◌==◌, if◌then◌else◌, Text,
  codes, text_eq, text_eq_iff, decimal,
}

-- `<` on Go strings: the order of their bytes.
unfoldable pub text_lt : Text → Text → Bool
text_lt a [] = false
text_lt [] (y ∷ b) = true
text_lt (x ∷ a) (y ∷ b) = if ltb x y then true else if ltb y x then false else text_lt a b

-- `fmt.Sprintf("%s:%d-%s:%d", …)`
unfoldable pub key_text : Text → ℕ → Text → ℕ → Text
key_text ip1 port1 ip2 port2 =
    ip1 ++ (codes ":" ++ (decimal port1 ++ (codes "-" ++ (ip2 ++ (codes ":" ++ decimal port2)))))

-- `MakeConnectionKey`
unfoldable pub make_connection_key : Text → ℕ → Text → ℕ → Text
make_connection_key ip1 port1 ip2 port2 =
    if text_lt ip1 ip2 || (text_eq ip1 ip2 && ltb port1 port2)
    then key_text ip1 port1 ip2 port2
    else key_text ip2 port2 ip1 port1

-- `isServerPort`
unfoldable pub is_server_port : ℕ → Bool
is_server_port port =
    port == 25
    || port == 465
    || port == 587
    || port == 110
    || port == 995
    || port == 143
    || port == 993

text_lt_asymm : (a b : Text) → text_lt a b ≡ true → text_lt b a ≡ false
unfolding text_lt
text_lt_asymm [] [] h = refl
text_lt_asymm [] (y ∷ b) h = refl
text_lt_asymm (x ∷ a) [] h = cc
text_lt_asymm (x ∷ a) (y ∷ b) h = ground (arith, text_lt_asymm a b)

text_lt_total : (a b : Text) → text_lt a b ≡ false → text_lt b a ≡ false → a ≡ b
unfolding text_lt
text_lt_total [] [] h k = refl
text_lt_total [] (y ∷ b) h k = cc
text_lt_total (x ∷ a) [] h k = cc
text_lt_total (x ∷ a) (y ∷ b) h k = ground (arith, text_lt_total a b)

text_lt_irrefl : (a : Text) → text_lt a a ≡ false
unfolding text_lt
text_lt_irrefl [] = refl
text_lt_irrefl (x ∷ a) = ground (arith, text_lt_irrefl a)

-- The key of a connection does not depend on which end is named first.
pub make_connection_key_comm :
    (ip1 ip2 : Text) (port1 port2 : ℕ)
    → make_connection_key ip1 port1 ip2 port2 ≡ make_connection_key ip2 port2 ip1 port1
unfolding make_connection_key
make_connection_key_comm ip1 ip2 port1 port2 = ground (
  arith,
  text_lt_asymm ip1 ip2,
  text_lt_total ip1 ip2,
  text_lt_irrefl ip1,
  text_eq_iff ip1 ip2,
  text_eq_iff ip2 ip1,
)
