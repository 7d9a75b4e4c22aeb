-- ===== src/Auth/Compare.antt =====
-- The comparison of auth.c that takes as long wherever two texts differ.
use lamseryn.Prelude.{
  ◌↔◌, subst, ℕ, zero, suc, ◌+◌, ◌/◌, ◌%◌, ◌^◌, ◌≤◌, ◌<◌, [], ◌∷◌, ◌≡◌, refl, sym, ap, ap₂, ◌∙◌,
  Bytes, length, arith,
}
use Prim.Native.Nat.{max, bit_or, bit_xor, digits, differ, bit_or-bitwise, bit_xor-bitwise}

-- The loop, with `diff`; past the end of a text its bytes count as 0.
unfoldable pub ct_from : Bytes → Bytes → ℕ → ℕ
ct_from [] [] diff = diff
ct_from [] (y ∷ b) diff = ct_from [] b (bit_or diff (bit_xor 0 y))
ct_from (x ∷ a) [] diff = ct_from a [] (bit_or diff (bit_xor x 0))
ct_from (x ∷ a) (y ∷ b) diff = ct_from a b (bit_or diff (bit_xor x y))

unfoldable pub auth_ct_strcmp : Bytes → Bytes → ℕ
unfolding ct_from
auth_ct_strcmp a b = ct_from a b (bit_xor (length a) (length b) % 2 ^ 32)

differ-zero : (x y : ℕ) → differ x y ≡ 0 → x ≡ y
differ-zero zero y h = sym h
differ-zero (suc x) zero h = h
differ-zero (suc x) (suc y) h = ap suc (differ-zero x y h)

differ-le : (x y : ℕ) → differ x y ≤ x + y
differ-le zero y = omega arith
differ-le (suc x) zero = omega arith
differ-le (suc x) (suc y) = omega (arith, differ-le x y)

differ_self : (x : ℕ) → differ x x ≡ 0
differ_self zero = refl
differ_self (suc x) = differ_self x

xor_fuel : (n a b : ℕ) → a ≤ n → digits (λ b. b) differ n a b ≡ 0 → a ≡ b
xor_fuel zero zero b h e = sym e
xor_fuel zero (suc a) b h e = absurd (omega arith)
xor_fuel (suc n) zero b h e = sym e
xor_fuel (suc n) (suc a) b h e =
    let half : suc a / 2 ≡ b / 2 = xor_fuel n (suc a / 2) (b / 2) (omega arith) (omega arith) in
    let low : suc a % 2 ≡ b % 2 = differ-zero (suc a % 2) (b % 2) (omega arith) in
    omega (arith, half, low)

xor_self_fuel : (n a : ℕ) → a ≤ n → digits (λ b. b) differ n a a ≡ 0
xor_self_fuel zero zero h = refl
xor_self_fuel zero (suc a) h = absurd (omega arith)
xor_self_fuel (suc n) zero h = refl
xor_self_fuel (suc n) (suc a) h =
    omega (arith, xor_self_fuel n (suc a / 2) (omega arith), differ_self (suc a % 2))

or_fuel : (n a b : ℕ) → a ≤ n → digits (λ b. b) max n a b ≡ 0 → (a ≡ 0) × (b ≡ 0)
or_fuel zero zero b h e = (refl, e)
or_fuel zero (suc a) b h e = absurd (omega arith)
or_fuel (suc n) zero b h e = (refl, e)
or_fuel (suc n) (suc a) b h e =
    let (p, q) = or_fuel n (suc a / 2) (b / 2) (omega arith) (omega arith) in
    (omega (arith, p), omega (arith, q))

xor-zero : (a b : ℕ) → bit_xor a b ≡ 0 → a ≡ b
xor-zero a b e = xor_fuel a a b (omega arith) (sym (bit_xor-bitwise a b) ∙ e)

xor_self : (a : ℕ) → bit_xor a a ≡ 0
xor_self a = bit_xor-bitwise a a ∙ xor_self_fuel a a (omega arith)

or-zero : (a b : ℕ) → bit_or a b ≡ 0 → (a ≡ 0) × (b ≡ 0)
or-zero a b e = or_fuel a a b (omega arith) (sym (bit_or-bitwise a b) ∙ e)

xor_fuel-le : (n a b : ℕ) → a ≤ n → digits (λ b. b) differ n a b ≤ a + b
xor_fuel-le zero zero b h = omega arith
xor_fuel-le zero (suc a) b h = absurd (omega arith)
xor_fuel-le (suc n) zero b h = omega arith
xor_fuel-le (suc n) (suc a) b h =
    omega (arith, xor_fuel-le n (suc a / 2) (b / 2) (omega arith), differ-le (suc a % 2) (b % 2))

xor-le : (a b : ℕ) → bit_xor a b ≤ a + b
xor-le a b = subst (λ x. x ≤ a + b) (sym (bit_xor-bitwise a b)) (xor_fuel-le a a b (omega arith))

ct_from-diff : (a b : Bytes) (diff : ℕ) → ct_from a b diff ≡ 0 → diff ≡ 0
unfolding ct_from
ct_from-diff [] [] diff e = e
ct_from-diff [] (y ∷ b) diff e =
    (or-zero diff (bit_xor 0 y) (ct_from-diff [] b (bit_or diff (bit_xor 0 y)) e)).0
ct_from-diff (x ∷ a) [] diff e =
    (or-zero diff (bit_xor x 0) (ct_from-diff a [] (bit_or diff (bit_xor x 0)) e)).0
ct_from-diff (x ∷ a) (y ∷ b) diff e =
    (or-zero diff (bit_xor x y) (ct_from-diff a b (bit_or diff (bit_xor x y)) e)).0

ct_from-zero : (a b : Bytes) (diff : ℕ) → length a ≡ length b → ct_from a b diff ≡ 0 → a ≡ b
unfolding ct_from
ct_from-zero [] [] diff n e = refl
ct_from-zero [] (y ∷ b) diff n e = absurd (omega arith)
ct_from-zero (x ∷ a) [] diff n e = absurd (omega arith)
ct_from-zero (x ∷ a) (y ∷ b) diff n e =
    let q = ct_from-diff a b (bit_or diff (bit_xor x y)) e in
    ap₂ (◌∷◌) (xor-zero x y (or-zero diff (bit_xor x y) q).1)
      (ct_from-zero a b (bit_or diff (bit_xor x y)) (omega arith) e)

ct_from_self : (a : Bytes) → ct_from a a 0 ≡ 0
unfolding ct_from
ct_from_self [] = refl
ct_from_self (x ∷ a) = rw (xor_self x) (ct_from_self a)

-- The comparison gives 0 for equal texts.
pub auth_ct_strcmp_self : (a : Bytes) → auth_ct_strcmp a a ≡ 0
unfolding auth_ct_strcmp
auth_ct_strcmp_self a = rw (xor_self (length a)) (ct_from_self a)

-- The comparison gives 0 for texts shorter than 2^31 bytes just when they are equal.
pub auth_ct_strcmp_lem :
    (a b : Bytes) → length a < 2 ^ 31 → length b < 2 ^ 31 → (auth_ct_strcmp a b ≡ 0) ↔ (a ≡ b)
unfolding auth_ct_strcmp
auth_ct_strcmp_lem a b ha hb = (
  λ e.
      let d = ct_from-diff a b (bit_xor (length a) (length b) % 2 ^ 32) e in
      let same_length =
        xor-zero (length a) (length b) (omega (arith, d, xor-le (length a) (length b))) in
      ct_from-zero a b (bit_xor (length a) (length b) % 2 ^ 32) same_length e,
  λ e. subst (λ (x : Bytes). auth_ct_strcmp a x ≡ 0) e (auth_ct_strcmp_self a),
)
