-- ===== src/Crypto/RoundTrip.antt =====
-- What tattle/crypto.py encrypts it can decrypt.
use mathlib.Core.List.{append_assoc, append-nil}
use tattle.Prelude.{
  ℕ, ◌<◌, ◌≡◌, refl, sym, ap, ◌∙◌, Option, none, some, List, [], ◌∷◌, ◌++◌, arith, length, take,
  drop, take-append, drop-append, length-append, All,
}
use tattle.Exec.{ok, raised, decrypt_error}
use tattle.Messages.{Bytes}
use tattle.Crypto.{AesGcm, validate_key, encrypt_data, try_keys, decrypt_data}

module _ (gcm : AesGcm) where
  -- The key is valid, and does not open the message.
  abbrev pub Fails : Bytes → Bytes → Bytes → Option Bytes → Type 0
  Fails nonce tag cipher_text key =
      (k : Bytes) × (validate_key key ≡ ok k) × (gcm.unseal k nonce tag cipher_text ≡ ok none)

  try_keys-skip :
      (nonce tag cipher_text : Bytes) (wrong keys : List (Option Bytes))
      → All (Fails nonce tag cipher_text) wrong
      → try_keys gcm nonce tag cipher_text (wrong ++ keys) ≡ try_keys gcm nonce tag cipher_text keys
  unfolding try_keys
  try_keys-skip nonce tag cipher_text [] keys h = refl
  try_keys-skip nonce tag cipher_text (key ∷ wrong) keys (h, hs) =
      ground (arith, h, try_keys-skip nonce tag cipher_text wrong keys hs)

  nothing_left :
      (nonce tag cipher_text : Bytes) → try_keys gcm nonce tag cipher_text [] ≡ raised decrypt_error
  unfolding try_keys
  nothing_left nonce tag cipher_text = refl

  try_keys-found :
      (nonce tag cipher_text key plain : Bytes) (rest : List (Option Bytes))
      → validate_key (some key) ≡ ok key
      → gcm.unseal key nonce tag cipher_text ≡ ok (some plain)
      → try_keys gcm nonce tag cipher_text (some key ∷ rest) ≡ ok plain
  unfolding try_keys
  try_keys-found nonce tag cipher_text key plain rest valid opens = ground (arith, valid, opens)

  -- If every key is valid and none opens the message, decryption of data with a version byte
  -- raises `DecryptError`.
  pub decrypt_data-refuses :
      (version : ℕ) (raw : Bytes) (keys : List (Option Bytes))
      → All (Fails (take 12 raw) (take 16 (drop 12 raw)) (drop 28 raw)) keys
      → decrypt_data gcm (version ∷ raw) keys ≡ raised decrypt_error
  unfolding decrypt_data
  decrypt_data-refuses version raw keys fails =
      ap (try_keys gcm (take 12 raw) (take 16 (drop 12 raw)) (drop 28 raw)) (sym (append-nil keys))
      ∙ try_keys-skip (take 12 raw) (take 16 (drop 12 raw)) (drop 28 raw) keys [] fails
      ∙ nothing_left (take 12 raw) (take 16 (drop 12 raw)) (drop 28 raw)

  module _ (key nonce plain : Bytes) (version : ℕ) (l : length nonce ≡ 12) where
    abbrev cipher_text : Bytes
    cipher_text = (gcm.seal key nonce plain).0

    abbrev tag : Bytes
    tag = (gcm.seal key nonce plain).1

    abbrev sealed : Bytes
    sealed = nonce ++ (tag ++ cipher_text)

    sealed_parts :
        (take 12 sealed ≡ nonce) × (take 16 (drop 12 sealed) ≡ tag) × (drop 28 sealed ≡ cipher_text)
    sealed_parts =
        let t = gcm.length-tag key nonce plain in
        let whole : nonce ++ (tag ++ cipher_text) ≡ (nonce ++ tag) ++ cipher_text =
          sym (append_assoc nonce tag cipher_text) in
        (
          take-append 12 nonce (tag ++ cipher_text) l,
          rw (drop-append 12 nonce (tag ++ cipher_text) l) (take-append 16 tag cipher_text t),
          ap (drop 28) whole
              ∙ drop-append 28 (nonce ++ tag) cipher_text
                  (omega (arith, length-append nonce tag, l, t)),
        )

    -- With a nonce of twelve bytes and a valid key, encryption returns, and decryption gives the plain
    -- text back with any list of keys that has the key behind valid keys that do not open the message.
    pub decrypt-encrypt :
        (wrong rest : List (Option Bytes))
        → validate_key (some key) ≡ ok key
        → version < 256
        → All (Fails nonce tag cipher_text) wrong
        → (raw : Bytes) × (encrypt_data gcm nonce plain key version ≡ ok raw)
          × (decrypt_data gcm raw (wrong ++ some key ∷ rest) ≡ ok plain)
    unfolding encrypt_data decrypt_data
    decrypt-encrypt wrong rest valid small fails =
        let (n, t, c) = sealed_parts in
        let opens =
          try_keys-found nonce tag cipher_text key plain rest valid
            (gcm.unseal-seal key nonce plain l) in
        (
          version ∷ sealed,
          ground (arith, valid),
          rw (n, t, c, try_keys-skip nonce tag cipher_text wrong (some key ∷ rest) fails) opens,
        )
