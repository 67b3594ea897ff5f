-- ===== src/Secret/Strength.antt =====
-- The lengths of generated passwords.
use site_operator.Common.{
  ℕ, String, ◌≤◌, ◌≡◌, refl, Option, none, some, length, arith, ◌+◌, ◌*◌, ◌/◌,
}
use site_operator.Kube.Objects.{Bytes}
use site_operator.Secret.{ascii, encode_or, random_key, random_short_key}
use site_operator.Secret.Base64.{length-encode}

-- A call of `rand.Read` that fails, or fills the whole buffer.
abbrev pub FillsBuffer : (ℕ → Option Bytes) → Type 0
FillsBuffer read = (n : ℕ) (b : Bytes) → read n ≡ some b → length b ≡ n

abbrev pub if_read : Option Bytes → ℕ → ℕ → ℕ
if_read none n m = m
if_read (some b) n m = n

length-encode_or :
    (fallback : String) (n : ℕ) (o : Option Bytes)
    → ((b : Bytes) → o ≡ some b → length b ≡ n)
    → length (encode_or fallback o) ≡ if_read o (4 * ((n + 2) / 3)) (length (ascii fallback))
unfolding encode_or
length-encode_or fallback n none h = refl
length-encode_or fallback n (some b) h = rw (length-encode, h b refl)

-- A key has 88 characters and a file browser password 32; where there is no entropy they are the
-- fixed texts of 36 and 18 characters. No file browser password exceeds the 72 bytes that bcrypt
-- reads.
pub length-random_key :
    (read : ℕ → Option Bytes)
    → FillsBuffer read
    → (length (random_key read) ≡ if_read (read 64) 88 36)
      × (length (random_short_key read) ≡ if_read (read 24) 32 18)
      × (length (random_short_key read) ≤ 72)
unfolding random_key random_short_key
length-random_key read h =
    let long = length-encode_or "fallback-random-key-if-entropy-fails" 64 (read 64) (h 64) in
    let short = length-encode_or "fallback-short-key" 24 (read 24) (h 24) in
    (long, short, short_bound (read 24) short)
  where
    short_bound : (o : Option Bytes) {n : ℕ} → n ≡ if_read o 32 18 → n ≤ 72
    short_bound none e = omega arith
    short_bound (some b) e = omega arith
