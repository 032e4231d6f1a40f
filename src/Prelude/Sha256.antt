-- ===== src/Prelude/Sha256.antt =====
-- `crypto/sha256`: FIPS 180-4 over the native numbers, 32-bit words with their wrap-around.
use Prim.Native.Nat.{ℕ, zero, suc, ◌+◌, ◌-◌, ◌*◌, ◌/◌, ◌%◌, ◌^◌, bit_and, bit_xor}
use mathlib.Core.Path.{◌≡◌, refl}
use mathlib.Core.List.{List, [], ◌∷◌, ◌++◌}
use gas_city.Prelude.Lists.{length}
use gas_city.Prelude.Text.{text, hex}

abbrev word : ℕ
word = 4294967296

rotr : ℕ → ℕ → ℕ
rotr x n = x / 2 ^ n + x * 2 ^ (32 - n) % word

xor3 : ℕ → ℕ → ℕ → ℕ
xor3 a b c = bit_xor (bit_xor a b) c

record Words : Type 0 where
  a : ℕ
  b : ℕ
  c : ℕ
  d : ℕ
  e : ℕ
  f : ℕ
  g : ℕ
  h : ℕ

nth : List ℕ → ℕ → ℕ
nth [] i = 0
nth (x ∷ xs) zero = x
nth (x ∷ xs) (suc i) = nth xs i

-- The next word of the message schedule, from the last sixteen.
next_word : List ℕ → ℕ
unfolding rotr xor3 nth
next_word ws =
    let x = nth ws 1 in
    let y = nth ws 14 in
    let s0 = xor3 (rotr x 7) (rotr x 18) (x / 2 ^ 3) in
    let s1 = xor3 (rotr y 17) (rotr y 19) (y / 2 ^ 10) in (nth ws 0 + s0 + nth ws 9 + s1) % word

drop_first : List ℕ → List ℕ
drop_first [] = []
drop_first (x ∷ xs) = xs

round : ℕ → ℕ → Words → Words
unfolding rotr xor3
round k w s =
    let s1 = xor3 (rotr s.e 6) (rotr s.e 11) (rotr s.e 25) in
    let ch = bit_xor (bit_and s.e s.f) (bit_and (word - 1 - s.e) s.g) in
    let t1 = s.h + s1 + ch + k + w in
    let s0 = xor3 (rotr s.a 2) (rotr s.a 13) (rotr s.a 22) in
    let maj = xor3 (bit_and s.a s.b) (bit_and s.a s.c) (bit_and s.b s.c) in
    record {
      a = (t1 + s0 + maj) % word;
      b = s.a;
      c = s.b;
      d = s.c;
      e = (s.d + t1) % word;
      f = s.e;
      g = s.f;
      h = s.g;
    }

rounds : List ℕ → List ℕ → Words → Words
unfolding round next_word nth drop_first
rounds [] ws s = s
rounds (k ∷ ks) ws s = rounds ks (drop_first ws ++ next_word ws ∷ []) (round k (nth ws 0) s)

constants : List ℕ
constants =
    0x428a2f98 ∷ 0x71374491 ∷ 0xb5c0fbcf ∷ 0xe9b5dba5 ∷ 0x3956c25b ∷ 0x59f111f1 ∷ 0x923f82a4
    ∷ 0xab1c5ed5 ∷ 0xd807aa98 ∷ 0x12835b01 ∷ 0x243185be ∷ 0x550c7dc3 ∷ 0x72be5d74 ∷ 0x80deb1fe
    ∷ 0x9bdc06a7 ∷ 0xc19bf174 ∷ 0xe49b69c1 ∷ 0xefbe4786 ∷ 0x0fc19dc6 ∷ 0x240ca1cc ∷ 0x2de92c6f
    ∷ 0x4a7484aa ∷ 0x5cb0a9dc ∷ 0x76f988da ∷ 0x983e5152 ∷ 0xa831c66d ∷ 0xb00327c8 ∷ 0xbf597fc7
    ∷ 0xc6e00bf3 ∷ 0xd5a79147 ∷ 0x06ca6351 ∷ 0x14292967 ∷ 0x27b70a85 ∷ 0x2e1b2138 ∷ 0x4d2c6dfc
    ∷ 0x53380d13 ∷ 0x650a7354 ∷ 0x766a0abb ∷ 0x81c2c92e ∷ 0x92722c85 ∷ 0xa2bfe8a1 ∷ 0xa81a664b
    ∷ 0xc24b8b70 ∷ 0xc76c51a3 ∷ 0xd192e819 ∷ 0xd6990624 ∷ 0xf40e3585 ∷ 0x106aa070 ∷ 0x19a4c116
    ∷ 0x1e376c08 ∷ 0x2748774c ∷ 0x34b0bcb5 ∷ 0x391c0cb3 ∷ 0x4ed8aa4a ∷ 0x5b9cca4f ∷ 0x682e6ff3
    ∷ 0x748f82ee ∷ 0x78a5636f ∷ 0x84c87814 ∷ 0x8cc70208 ∷ 0x90befffa ∷ 0xa4506ceb ∷ 0xbef9a3f7
    ∷ 0xc67178f2 ∷ []

start : Words
start = record {
  a = 0x6a09e667;
  b = 0xbb67ae85;
  c = 0x3c6ef372;
  d = 0xa54ff53a;
  e = 0x510e527f;
  f = 0x9b05688c;
  g = 0x1f83d9ab;
  h = 0x5be0cd19;
}

block : List ℕ → Words → Words
unfolding rounds constants
block ws s =
    let r = rounds constants ws s in
    record {
      a = (s.a + r.a) % word;
      b = (s.b + r.b) % word;
      c = (s.c + r.c) % word;
      d = (s.d + r.d) % word;
      e = (s.e + r.e) % word;
      f = (s.f + r.f) % word;
      g = (s.g + r.g) % word;
      h = (s.h + r.h) % word;
    }

-- The words of a padded message, gathered sixteen at a time.
blocks : List ℕ → ℕ → List ℕ → Words → Words
unfolding block
blocks (a ∷ b ∷ c ∷ d ∷ rest) zero ws s =
    blocks rest 15 ((a * 2 ^ 24 + b * 2 ^ 16 + c * 2 ^ 8 + d) ∷ []) (block ws s)
blocks (a ∷ b ∷ c ∷ d ∷ rest) (suc n) ws s =
    blocks rest n (ws ++ (a * 2 ^ 24 + b * 2 ^ 16 + c * 2 ^ 8 + d) ∷ []) s
blocks _ n ws s = block ws s

zeros : ℕ → List ℕ
zeros zero = []
zeros (suc n) = 0 ∷ zeros n

bytes_of : ℕ → ℕ → List ℕ
bytes_of zero n = []
bytes_of (suc k) n = (n / 256 ^ k) % 256 ∷ bytes_of k n

padded : List ℕ → List ℕ
unfolding zeros bytes_of
padded m =
    let n = length m in m ++ (0x80 ∷ (zeros ((64 - (n + 9) % 64) % 64) ++ bytes_of 8 (8 * n)))

-- The first eight bytes of the digest, and the other twenty-four.
unfoldable pub sha256 : List ℕ → List ℕ
unfolding blocks start padded bytes_of
sha256 m =
    let s = blocks (padded m) 16 [] start in
    bytes_of 4 s.a
    ++ (bytes_of 4 s.b
        ++ (bytes_of 4 s.c
            ++ (bytes_of 4 s.d
                ++ (bytes_of 4 s.e ++ (bytes_of 4 s.f ++ (bytes_of 4 s.g ++ bytes_of 4 s.h))))))

sha256_abc :
    hex (sha256 (text "abc"))
    ≡ text "ba7816bf8f01cfea414140de5dae2223b00361a396177a9cb410ff61f20015ad"
unfolding sha256
sha256_abc = refl
