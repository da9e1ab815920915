-- ===== src/Base/Words.antt =====
-- Go's uint32 and byte as native numbers, and encoding/binary's big-endian form of a uint32.
use Prim.Native.Nat.{ℕ, ◌+◌, ◌*◌, ◌/◌, ◌%◌, ◌^◌, ◌<◌}
use mathlib.Core.Path.{◌≡◌}
use mathlib.Core.List.{List, [], ◌∷◌, ◌++◌}
use native.Mathlib.Omega.{arith}

abbrev pub u32_mod : ℕ
u32_mod = 2 ^ 32

-- The conversion uint32(n), and the sum of two uint32 values.
abbrev pub u32 : ℕ → ℕ
u32 n = n % u32_mod

abbrev pub add_u32 : ℕ → ℕ → ℕ
add_u32 a b = u32 (a + b)

abbrev pub IsU32 : ℕ → Type 0
IsU32 n = n < u32_mod

abbrev pub IsByte : ℕ → Type 0
IsByte n = n < 256

abbrev pub All {ℓ κ} : {A : Type ℓ} → (A → Type κ) → List A → Type κ
All P [] = Unit
All P (x ∷ xs) = P x × All P xs

pub All-weaken {ℓ κ μ} :
    {A : Type ℓ} (P : A → Type κ) (Q : A → Type μ)
    → ((x : A) → P x → Q x)
    → (xs : List A) → All P xs
    → All Q xs
All-weaken P Q f [] h = tt
All-weaken P Q f (x ∷ xs) h = (f x h.0, All-weaken P Q f xs h.1)

pub All-append {ℓ κ} :
    {A : Type ℓ} (P : A → Type κ) (xs ys : List A) → All P xs → All P ys → All P (xs ++ ys)
All-append P [] ys h k = k
All-append P (x ∷ xs) ys h k = (h.0, All-append P xs ys h.1 k)

pub All-append_right {ℓ κ} :
    {A : Type ℓ} (P : A → Type κ) (xs ys : List A) → All P (xs ++ ys) → All P ys
All-append_right P [] ys h = h
All-append_right P (x ∷ xs) ys h = All-append_right P xs ys h.1

pub All-append_left {ℓ κ} :
    {A : Type ℓ} (P : A → Type κ) (xs ys : List A) → All P (xs ++ ys) → All P xs
All-append_left P [] ys h = tt
All-append_left P (x ∷ xs) ys h = (h.0, All-append_left P xs ys h.1)

-- binary.BigEndian.PutUint32 and the four bytes that it writes, highest first.
abbrev pub put_u32 : ℕ → List ℕ
put_u32 v = (v / 16777216 % 256) ∷ (v / 65536 % 256) ∷ (v / 256 % 256) ∷ (v % 256) ∷ []

-- binary.BigEndian.Uint32 of four bytes.
abbrev pub be_u32 : ℕ → ℕ → ℕ → ℕ → ℕ
be_u32 a b c d = a * 16777216 + b * 65536 + c * 256 + d

pub be_u32-put_u32 :
    (v : ℕ) → IsU32 v → be_u32 (v / 16777216 % 256) (v / 65536 % 256) (v / 256 % 256) (v % 256) ≡ v
be_u32-put_u32 v h = omega arith

pub be_u32-IsU32 :
    (a b c d : ℕ) → IsByte a → IsByte b → IsByte c → IsByte d → IsU32 (be_u32 a b c d)
be_u32-IsU32 a b c d ha hb hc hd = omega arith

pub put_u32-be_u32 :
    (a b c d : ℕ)
    → IsByte a
    → IsByte b
    → IsByte c
    → IsByte d
    → put_u32 (be_u32 a b c d) ≡ a ∷ b ∷ c ∷ d ∷ []
put_u32-be_u32 a b c d ha hb hc hd =
    let e3 : be_u32 a b c d / 16777216 % 256 ≡ a = omega arith in
    let e2 : be_u32 a b c d / 65536 % 256 ≡ b = omega arith in
    let e1 : be_u32 a b c d / 256 % 256 ≡ c = omega arith in
    let e0 : be_u32 a b c d % 256 ≡ d = omega arith in rw (e3, e2, e1, e0)

pub put_u32-IsByte : (v : ℕ) → All IsByte (put_u32 v)
put_u32-IsByte v = omega arith
