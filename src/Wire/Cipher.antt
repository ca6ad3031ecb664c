-- ===== src/Wire/Cipher.antt =====
-- server/internal/proudnet/crypto.go's AES-ECB. The block cipher is crypto/aes, a parameter.
use mathlib.Core.Path.{ap₂}
use fear_online_server.Prelude.{
  ℕ, zero, suc, ◌+◌, ◌-◌, ◌*◌, ◌/◌, ◌%◌, ◌≡◌, refl, sym, ap, ◌∙◌, arith, ◌==◌, Bool, true,
  if◌then◌else◌, List, [], ◌∷◌, ◌++◌, length, take, drop, replicate, length-append, length-take,
  length-drop, length-replicate, Option, none, some, take-append-drop, take-length_append,
  drop-length_append,
}

-- aes.NewCipher accepts a key or not; with an accepted key, Encrypt and Decrypt map blocks of 16
-- bytes to such blocks, and Decrypt undoes Encrypt.
pub record BlockCipher : Type 0 where
  pub accepts : List ℕ → Bool
  pub encrypt : List ℕ → List ℕ → List ℕ
  pub decrypt : List ℕ → List ℕ → List ℕ

pub record IsBlockCipher (c : BlockCipher) : Type 0 where
  pub encrypt_length : (key b : List ℕ) → length b ≡ 16 → length (c.encrypt key b) ≡ 16
  pub decrypt-encrypt : (key b : List ℕ) → length b ≡ 16 → c.decrypt key (c.encrypt key b) ≡ b

-- `for i := 0; i < len(out); i += 16 { f(out[i:i+16]) }`, over the blocks that are left.
unfoldable pub each_block : (List ℕ → List ℕ) → ℕ → List ℕ → List ℕ
each_block f zero out = []
each_block f (suc blocks) out = f (take 16 out) ++ each_block f blocks (drop 16 out)

-- `((len(plaintext)+15)/16)*16` bytes, zero where the plaintext does not reach.
unfoldable pub padded : List ℕ → List ℕ
padded plaintext = plaintext ++ replicate ((length plaintext + 15) / 16 * 16 - length plaintext) 0

module _ (c : BlockCipher) where
  unfoldable pub aes_ecb_encrypt : List ℕ → List ℕ → Option (List ℕ)
  unfolding padded each_block
  aes_ecb_encrypt key plaintext =
      if c.accepts key
      then some (each_block (c.encrypt key) ((length plaintext + 15) / 16) (padded plaintext))
      else none

  unfoldable pub aes_ecb_decrypt : List ℕ → List ℕ → Option (List ℕ)
  unfolding each_block
  aes_ecb_decrypt key ciphertext =
      if c.accepts key
      then (if length ciphertext % 16 == 0
          then some (each_block (c.decrypt key) (length ciphertext / 16) ciphertext)
          else none)
      else none

length-each_block :
    (f : List ℕ → List ℕ) (n : ℕ) (out : List ℕ)
    → ((b : List ℕ) → length b ≡ 16 → length (f b) ≡ 16)
    → length out ≡ n * 16
    → length (each_block f n out) ≡ n * 16
unfolding each_block
length-each_block f zero out h e = omega arith
length-each_block f (suc n) out h e = omega (
  arith,
  length-append (f (take 16 out)) (each_block f n (drop 16 out)),
  h (take 16 out) (omega (arith, length-take 16 out)),
  length-each_block f n (drop 16 out) h (omega (arith, length-drop 16 out)),
)

each_block-each_block :
    (f g : List ℕ → List ℕ) (n : ℕ) (out : List ℕ)
    → ((b : List ℕ) → length b ≡ 16 → length (f b) ≡ 16)
    → ((b : List ℕ) → length b ≡ 16 → g (f b) ≡ b)
    → length out ≡ n * 16
    → each_block g n (each_block f n out) ≡ out
unfolding each_block
each_block-each_block f g zero [] h k e = refl
each_block-each_block f g zero (x ∷ out) h k e = absurd (omega arith)
each_block-each_block f g (suc n) out h k e =
    ap₂ ◌++◌ (ap g front ∙ k (take 16 out) first) (
      ap (each_block g n) rest
      ∙ each_block-each_block f g n (drop 16 out) h k (omega (arith, length-drop 16 out)))
    ∙ take-append-drop 16 out
  where
    first : length (take 16 out) ≡ 16
    first = omega (arith, length-take 16 out)

    front : take 16 (f (take 16 out) ++ each_block f n (drop 16 out)) ≡ f (take 16 out)
    front =
        ap (λ m. take m (f (take 16 out) ++ each_block f n (drop 16 out)))
          (sym (h (take 16 out) first))
        ∙ take-length_append (f (take 16 out)) (each_block f n (drop 16 out))

    rest : drop 16 (f (take 16 out) ++ each_block f n (drop 16 out)) ≡ each_block f n (drop 16 out)
    rest =
        ap (λ m. drop m (f (take 16 out) ++ each_block f n (drop 16 out)))
          (sym (h (take 16 out) first))
        ∙ drop-length_append (f (take 16 out)) (each_block f n (drop 16 out))

length-padded : (p : List ℕ) → length (padded p) ≡ (length p + 15) / 16 * 16
unfolding padded
length-padded p = omega (
  arith,
  length-append p (replicate ((length p + 15) / 16 * 16 - length p) 0),
  length-replicate ((length p + 15) / 16 * 16 - length p) (zero),
)

whole_blocks : (n m : ℕ) → m ≡ n * 16 → (m % 16 ≡ 0) × (m / 16 ≡ n)
whole_blocks n m h = omega arith

-- With a key that the cipher accepts, AESECBDecrypt gives back what AESECBEncrypt was given,
-- zero-padded to whole blocks.
pub aes_ecb_decrypt-encrypt :
    (c : BlockCipher) (key plaintext : List ℕ)
    → IsBlockCipher c
    → c.accepts key ≡ true
    → (s : List ℕ) × (aes_ecb_encrypt c key plaintext ≡ some s)
      × (aes_ecb_decrypt c key s ≡ some (padded plaintext))
unfolding aes_ecb_encrypt aes_ecb_decrypt
aes_ecb_decrypt-encrypt c key plaintext h a =
    let n = (length plaintext + 15) / 16 in
    let enc = each_block (c.encrypt key) n (padded plaintext) in
    (
      enc,
      ground arith,
      ground (
        arith,
        length-each_block (c.encrypt key) n (padded plaintext) (h.encrypt_length key)
            (length-padded plaintext),
        whole_blocks n (length enc),
        each_block-each_block (c.encrypt key) (c.decrypt key) n (padded plaintext)
            (h.encrypt_length key) (h.decrypt-encrypt key) (length-padded plaintext),
      ),
    )
