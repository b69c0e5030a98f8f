-- ===== src/Crypto.antt =====
-- tattle/crypto.py. AES in GCM mode is not the program's: it is a parameter, with the behaviour that
-- the program relies on.
pub mod RoundTrip
use tattle.Prelude.{
  ℕ, ◌+◌, Bool, true, false, not, ◌||◌, ◌&&◌, Option, none, some, List, [], ◌∷◌, ◌++◌, ◌≡◌, eqb,
  ltb, if◌then◌else◌, length, take, drop,
}
use tattle.Exec.{Result, ok, raised, type_error, value_error, struct_error, decrypt_error}
use tattle.Messages.{Bytes}

-- `algorithms.AES` with `modes.GCM`. `seal` is the cipher text and the tag of `encryptor`; `unseal` may
-- refuse its parameters, and is `none` on `InvalidTag` or `InvalidKey`.
pub record AesGcm : Type 0 where
  pub seal : Bytes → Bytes → Bytes → Bytes × Bytes
  pub unseal : Bytes → Bytes → Bytes → Bytes → Result (Option Bytes)
  pub length-tag : (key nonce plain : Bytes) → length (seal key nonce plain).1 ≡ 16
  pub unseal-seal :
      (key nonce plain : Bytes)
      → length nonce ≡ 12
      → unseal key nonce (seal key nonce plain).1 (seal key nonce plain).0 ≡ ok (some plain)

abbrev pub iv_size : ℕ
iv_size = 12

abbrev pub tag_size : ℕ
tag_size = 16

-- A key that is `None` is not of type `bytes`.
unfoldable pub validate_key : Option Bytes → Result Bytes
validate_key none = raised type_error
validate_key (some key) =
    if not (eqb (length key) 16) && not (eqb (length key) 24) && not (eqb (length key) 32)
    then raised value_error
    else ok key

module _ (gcm : AesGcm) where
  -- `nonce` is `os.urandom(12)`. The last test is that of `struct.pack('>B', version)`.
  unfoldable pub encrypt_data : Bytes → Bytes → Bytes → ℕ → Result Bytes
  unfolding validate_key
  encrypt_data nonce plain key version = elim (validate_key (some key)) [
    | raised x ↦ raised x
    | ok k ↦
        let (cipher_text, tag) = gcm.seal k nonce plain in
        if ltb version 256
        then ok (version ∷ (nonce ++ (tag ++ cipher_text)))
        else raised struct_error
  ]

  -- `for key in keys: …`
  unfoldable pub try_keys : Bytes → Bytes → Bytes → List (Option Bytes) → Result Bytes
  unfolding validate_key
  try_keys nonce tag cipher_text [] = raised decrypt_error
  try_keys nonce tag cipher_text (key ∷ keys) =
      let rest = try_keys nonce tag cipher_text keys in
      elim (validate_key key) [
        | raised x ↦ raised x
        | ok k ↦ elim (gcm.unseal k nonce tag cipher_text) [
          | raised x ↦ raised x
          | ok none ↦ rest
          | ok (some plain_text) ↦ ok plain_text
        ]
      ]

  -- The version is read and not used: without it the data is refused.
  unfoldable pub decrypt_data : Bytes → List (Option Bytes) → Result Bytes
  decrypt_data [] keys = raised struct_error
  decrypt_data (version ∷ raw) keys =
      try_keys (take iv_size raw) (take tag_size (drop iv_size raw)) (drop (iv_size + tag_size) raw)
        keys
