-- ===== src/Tests/Wires.antt =====
-- tests/test_crypto.py, and the theorems on tattle/crypto.py and the frames of tattle/messages.py, with
-- a cipher that writes the key's first byte into the tag.
use tattle.Prelude.{
  ℕ, ◌≡◌, refl, Option, none, some, [], ◌∷◌, ◌++◌, arith, length, eqb, if◌then◌else◌, get_or,
}
use tattle.Exec.{Result, ok}
use tattle.Messages.{Bytes}
use tattle.Crypto.{AesGcm, validate_key, encrypt_data}
use tattle.Messages.Wire.{crc32}

abbrev pub sixteen : ℕ → Bytes
sixteen k = k ∷ 0 ∷ 0 ∷ 0 ∷ 0 ∷ 0 ∷ 0 ∷ 0 ∷ 0 ∷ 0 ∷ 0 ∷ 0 ∷ 0 ∷ 0 ∷ 0 ∷ 0 ∷ []

abbrev pub opens : Bytes → Bytes → Bytes → Bytes → Result (Option Bytes)
opens key nonce tag cipher_text =
    if eqb (get_or tag 0 0) (get_or key 0 0) then ok (some cipher_text) else ok none

pub opens-seals :
    (key nonce plain : Bytes)
    → length nonce ≡ 12
    → opens key nonce (sixteen (get_or key 0 0)) plain ≡ ok (some plain)
opens-seals key nonce plain l = ground arith

abbrev pub toy : AesGcm
toy = record {
  seal = λ key nonce plain. (plain, sixteen (get_or key 0 0));
  unseal = opens;
  length-tag = λ key nonce plain. refl;
  unseal-seal = opens-seals;
}

abbrev pub nonce : Bytes
nonce = 1 ∷ 2 ∷ 3 ∷ 4 ∷ 5 ∷ 6 ∷ 7 ∷ 8 ∷ 9 ∷ 10 ∷ 11 ∷ 12 ∷ []

abbrev hello : Bytes
hello = 104 ∷ 101 ∷ 108 ∷ 108 ∷ 111 ∷ []

-- The known value of "123456789".
crc32_check : crc32 (49 ∷ 50 ∷ 51 ∷ 52 ∷ 53 ∷ 54 ∷ 55 ∷ 56 ∷ 57 ∷ []) ≡ 0xcbf43926
unfolding crc32
crc32_check = refl

pub key_checks :
    (validate_key (some (sixteen 5)) ≡ ok (sixteen 5))
    × (validate_key (some (sixteen 6)) ≡ ok (sixteen 6))
unfolding validate_key
key_checks = (refl, refl)

encrypted : encrypt_data toy nonce hello (sixteen 5) 0 ≡ ok (0 ∷ (nonce ++ (sixteen 5 ++ hello)))
unfolding encrypt_data
encrypted = refl
