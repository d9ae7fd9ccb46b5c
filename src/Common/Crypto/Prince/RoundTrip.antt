-- ===== src/Common/Crypto/Prince/RoundTrip.antt =====
-- Encryption and decryption in common/src/crypto.rs undo one another.
use prototype_net.Base.{
  ℕ, bit_xor, List, [], ◌∷◌, get_or, ◌≡◌, refl, ap, ap₂, sym, subst, ◌∙◌, slice, arith,
}
use prototype_net.Word.{from_be_bytes, IsU64, IsByte}
use prototype_net.Word.Bytes.{from_be_bytes-lt64}
use prototype_net.Word.Rotate.{rotate_right-lt}
use prototype_net.Word.Xor.{xor_cancel, xor-zero, xor-lt}
use prototype_net.Common.Crypto.Prince.{
  rc, alpha, sbox_layer, sbox_inv_layer, m_prime, forward, backward, prince_core_encrypt, k0_prime,
  prince_encrypt, prince_decrypt,
}
use prototype_net.Common.Crypto.Prince.Nibbles.{
  sbox_inv_layer-sbox_layer, sbox_layer-sbox_inv_layer, sbox_layer-lt, sbox_inv_layer-lt,
}
use prototype_net.Common.Crypto.Prince.Mix.{m_prime_self, m_prime-lt}
use prototype_net.Common.Crypto.Prince.Reflect.{
  Reflects, Reflects-sym, undo_forward, undo_backward, forward-lt, backward-lt,
}

-- A forward round and the backward round that undoes it.
abbrev IsPair : ℕ × ℕ → Type 0
IsPair p =
    IsU64 (rc p.0)
    × IsU64 (rc p.1)
    × (alpha ≡ bit_xor (rc p.0) (rc p.1))
    × (alpha ≡ bit_xor (rc p.1) (rc p.0))

abbrev AllPairs : List (ℕ × ℕ) → Type 0
AllPairs [] = Unit {0}
AllPairs (p ∷ ps) = IsPair p × AllPairs ps

abbrev forwards : ℕ → List (ℕ × ℕ) → ℕ → ℕ
forwards k [] s = s
forwards k (p ∷ ps) s = forwards k ps (forward k p.0 s)

abbrev backwards : ℕ → List (ℕ × ℕ) → ℕ → ℕ
backwards k [] s = s
backwards k (p ∷ ps) s = backward k p.1 (backwards k ps s)

module _ (k k' : ℕ) (e : Reflects k k') (hk : IsU64 k) where
  forwards-lt : (ps : List (ℕ × ℕ)) → AllPairs ps → (s : ℕ) → IsU64 s → IsU64 (forwards k ps s)
  forwards-lt [] v s h = h
  forwards-lt (p ∷ ps) v s h =
      forwards-lt ps v.1 (forward k p.0 s) (forward-lt k k' p.0 p.1 e hk v.0.0 v.0.2 s h)

  backwards-lt : (ps : List (ℕ × ℕ)) → AllPairs ps → (s : ℕ) → IsU64 s → IsU64 (backwards k ps s)
  backwards-lt [] v s h = h
  backwards-lt (p ∷ ps) v s h =
      backward-lt k k' p.1 p.0 e hk v.0.1 v.0.3 (backwards k ps s) (backwards-lt ps v.1 s h)

  backwards-forwards :
      (ps : List (ℕ × ℕ)) → AllPairs ps → (s : ℕ) → IsU64 s → backwards k' ps (forwards k ps s) ≡ s
  backwards-forwards [] v s h = refl
  backwards-forwards (p ∷ ps) v s h =
      ap (backward k' p.1)
        (backwards-forwards ps v.1 (forward k p.0 s) (forward-lt k k' p.0 p.1 e hk v.0.0 v.0.2 s h))
      ∙ undo_forward k k' p.0 p.1 e hk v.0.0 v.0.2 s h

  forwards-backwards :
      (ps : List (ℕ × ℕ)) → AllPairs ps → (s : ℕ) → IsU64 s → forwards k' ps (backwards k ps s) ≡ s
  forwards-backwards [] v s h = refl
  forwards-backwards (p ∷ ps) v s h =
      ap (forwards k' ps)
        (undo_backward k k' p.1 p.0 e hk v.0.1 v.0.3 (backwards k ps s) (backwards-lt ps v.1 s h))
      ∙ forwards-backwards ps v.1 s h

abbrev rounds : List (ℕ × ℕ)
rounds = (1, 10) ∷ (2, 9) ∷ (3, 8) ∷ (4, 7) ∷ (5, 6) ∷ []

rounds-AllPairs : AllPairs rounds
rounds-AllPairs = omega arith

middle : ℕ → ℕ
middle s = sbox_inv_layer (m_prime (sbox_layer s))

middle_self : (s : ℕ) → IsU64 s → middle (middle s) ≡ s
unfolding middle
middle_self s h =
    ap (λ t. sbox_inv_layer (m_prime t))
      (sbox_layer-sbox_inv_layer _ (m_prime-lt _ (sbox_layer-lt s)))
    ∙ ap sbox_inv_layer (m_prime_self (sbox_layer s) (sbox_layer-lt s))
    ∙ sbox_inv_layer-sbox_layer s h

middle-lt : (s : ℕ) → IsU64 (middle s)
unfolding middle
middle-lt s = sbox_inv_layer-lt _

core_lem :
    (block k : ℕ)
    → prince_core_encrypt block k
      ≡ bit_xor
          (backwards k rounds (middle (forwards k rounds (bit_xor block (bit_xor k (rc 0))))))
          (bit_xor k (rc 11))
unfolding prince_core_encrypt middle
core_lem block k = refl

module _ (k k' : ℕ) (e : Reflects k k') (hk : IsU64 k) where
  -- The last whitening of one key is the first of the other, and the other way round.
  whitening : bit_xor k' (rc 0) ≡ bit_xor k (rc 11)
  whitening = xor-zero k' ∙ e

  unwhitening : bit_xor k' (rc 11) ≡ bit_xor k (rc 0)
  unwhitening = sym (Reflects-sym k k' e) ∙ sym (xor-zero k)

  -- The core under the reflected key undoes the core.
  core_core :
      (block : ℕ) → IsU64 block → prince_core_encrypt (prince_core_encrypt block k) k' ≡ block
  core_core block h =
      core_lem (prince_core_encrypt block k) k'
      ∙ ap₂ bit_xor
          (ap (λ t. backwards k' rounds (middle (forwards k' rounds t)))
              (ap₂ bit_xor (core_lem block k) whitening ∙ xor_cancel _ (bit_xor k (rc 11)))
            ∙ ap (λ t. backwards k' rounds (middle t))
                (forwards-backwards k k' e hk rounds rounds-AllPairs (middle inner)
                  (middle-lt inner))
            ∙ ap (backwards k' rounds)
                (middle_self inner (forwards-lt k k' e hk rounds rounds-AllPairs white white-lt))
            ∙ backwards-forwards k k' e hk rounds rounds-AllPairs white white-lt)
          unwhitening
      ∙ xor_cancel block (bit_xor k (rc 0))
    where
      white : ℕ
      white = bit_xor block (bit_xor k (rc 0))

      white-lt : IsU64 white
      white-lt = xor-lt 64 block _ h (xor-lt 64 k (rc 0) hk (omega arith))

      inner : ℕ
      inner = forwards k rounds white

core-lt : (block k : ℕ) → IsU64 k → IsU64 (prince_core_encrypt block k)
core-lt block k hk =
    subst IsU64 (sym (core_lem block k))
      (xor-lt 64 _ _ (sbox_inv_layer-lt _) (xor-lt 64 k (rc 11) hk (omega arith)))

half_key-lt :
    (key : List ℕ) (i : ℕ)
    → ((j : ℕ) → IsByte (get_or key j 0))
    → IsU64 (from_be_bytes (slice key i 8))
half_key-lt key i h =
    from_be_bytes-lt64 _ _ _ _ _ _ _ _ (h _) (h _) (h _) (h _) (h _) (h _) (h _) (h _)

module _ (block : ℕ) (key : List ℕ) (h : IsU64 block)
    (bytes : (j : ℕ) → IsByte (get_or key j 0)) where
  k0 : ℕ
  k0 = from_be_bytes (slice key 0 8)

  k1 : ℕ
  k1 = from_be_bytes (slice key 8 8)

  -- On 64-bit blocks, under any key of bytes, `prince_decrypt` undoes `prince_encrypt`, and
  -- `prince_encrypt` undoes `prince_decrypt`.
  pub prince_decrypt-prince_encrypt :
      (prince_decrypt (prince_encrypt block key) key ≡ block)
      × (prince_encrypt (prince_decrypt block key) key ≡ block)
  unfolding prince_encrypt prince_decrypt k0 k1
  prince_decrypt-prince_encrypt = (
    ap (λ t. bit_xor (prince_core_encrypt t (bit_xor k1 alpha)) k0) (xor_cancel _ (k0_prime k0))
        ∙ ap (λ t. bit_xor t k0)
            (core_core k1 (bit_xor k1 alpha) refl (half_key-lt key 8 bytes) (bit_xor block k0)
              (xor-lt 64 block k0 h (half_key-lt key 0 bytes)))
        ∙ xor_cancel block k0,
    ap (λ t. bit_xor (prince_core_encrypt t k1) (k0_prime k0)) (xor_cancel _ k0)
        ∙ ap (λ t. bit_xor t (k0_prime k0))
            (core_core (bit_xor k1 alpha) k1 (Reflects-sym k1 (bit_xor k1 alpha) refl)
              (xor-lt 64 k1 alpha (half_key-lt key 8 bytes) (omega arith))
              (bit_xor block (k0_prime k0))
              (xor-lt 64 block _ h (
                xor-lt 64 _ _ (rotate_right-lt k0 1 (half_key-lt key 0 bytes))
                  (omega (arith, half_key-lt key 0 bytes)))))
        ∙ xor_cancel block (k0_prime k0),
  )
