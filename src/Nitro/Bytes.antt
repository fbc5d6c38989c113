-- ===== src/Nitro/Bytes.antt =====
-- Byte slices, and the big endian integers in them; `CanSafelyReadElements` of nitro/utils.go.
use espresso_streamers.Base.{
  ℕ, ◌+◌, ◌*◌, ◌/◌, ◌%◌, ◌^◌, ◌<◌, ◌≡◌, Bool, true, false, ◌&&◌, ◌==◌, List, [], ◌∷◌, ◌++◌, ltb,
  sub64, length, arith, refl,
}

-- A byte is a number below 256; a Go string is the slice of its bytes.
abbrev pub Bytes : Type 0
Bytes = List ℕ

-- `LEN_SIZE` and `INDEX_SIZE`.
abbrev pub len_size : ℕ
len_size = 8

abbrev pub index_size : ℕ
index_size = 8

-- `binary.BigEndian.PutUint64`.
unfoldable pub put_uint64 : ℕ → Bytes
put_uint64 n =
    (n / 2 ^ 56) % 256
    ∷ (n / 2 ^ 48) % 256
    ∷ (n / 2 ^ 40) % 256
    ∷ (n / 2 ^ 32) % 256
    ∷ (n / 2 ^ 24) % 256
    ∷ (n / 2 ^ 16) % 256
    ∷ (n / 2 ^ 8) % 256
    ∷ n % 256
    ∷ []

-- `binary.BigEndian.Uint64` of the first eight bytes; the code checks first that they are there.
unfoldable pub get_uint64 : Bytes → ℕ
get_uint64 (a ∷ b ∷ c ∷ d ∷ e ∷ f ∷ g ∷ h ∷ rest) =
    a * 2 ^ 56 + b * 2 ^ 48 + c * 2 ^ 40 + d * 2 ^ 32 + e * 2 ^ 24 + f * 2 ^ 16 + g * 2 ^ 8 + h
get_uint64 _ = 0

-- `CanSafelyReadElements`: true when the elements to read are more than the space that is left.
unfoldable pub can_safely_read_elements : ℕ → ℕ → ℕ → Bool
can_safely_read_elements total_space_available read_position elements_to_read =
    ltb (sub64 total_space_available read_position) elements_to_read

-- `==` of strings, and `bytes.HasPrefix`.
unfoldable pub bytes_equal : Bytes → Bytes → Bool
bytes_equal [] [] = true
bytes_equal [] (y ∷ ys) = false
bytes_equal (x ∷ xs) [] = false
bytes_equal (x ∷ xs) (y ∷ ys) = x == y && bytes_equal xs ys

unfoldable pub has_prefix : Bytes → Bytes → Bool
has_prefix xs [] = true
has_prefix [] (y ∷ ys) = false
has_prefix (x ∷ xs) (y ∷ ys) = x == y && has_prefix xs ys

pub length-put_uint64 : (n : ℕ) → length (put_uint64 n) ≡ 8
unfolding put_uint64
length-put_uint64 n = refl

-- What is written is what is read, whatever follows.
pub get_uint64-put_uint64 :
    (n : ℕ) (rest : Bytes) → n < 2 ^ 64 → get_uint64 (put_uint64 n ++ rest) ≡ n
unfolding put_uint64 get_uint64
get_uint64-put_uint64 n rest h = omega arith
