-- ===== src/Common/Crypto/Prince/Reflect.antt =====
-- Decryption in common/src/crypto.rs is encryption with a reflected key.
use prototype_net.Base.{ℕ, bit_xor, ◌≡◌, ap, ap₂, sym, ◌∙◌}
use prototype_net.Word.{IsU64}
use prototype_net.Word.Xor.{xor_assoc, xor_comm, xor_cancel, xor-lt}
use prototype_net.Common.Crypto.Prince.{
  rc, alpha, sbox_layer, sbox_inv_layer, m_prime, m_layer, m_layer_inv, forward, backward,
  shift_rows, shift_rows_inv,
}
use prototype_net.Common.Crypto.Prince.Nibbles.{
  sbox_inv_layer-sbox_layer, sbox_layer-sbox_inv_layer, sbox_layer-lt, sbox_inv_layer-lt,
}
use prototype_net.Common.Crypto.Prince.Mix.{m_prime_self, m_prime-lt}
use prototype_net.Common.Crypto.Prince.Rows.{
  shift_rows_inv-shift_rows, shift_rows-shift_rows_inv, shift_rows-lt, shift_rows_inv-lt,
}

m_layer-lt : (x : ℕ) → IsU64 x → IsU64 (m_layer x)
unfolding m_layer
m_layer-lt x h = shift_rows-lt (m_prime x) (m_prime-lt x h)

m_layer_inv-lt : (x : ℕ) → IsU64 x → IsU64 (m_layer_inv x)
unfolding m_layer_inv
m_layer_inv-lt x h = m_prime-lt _ (shift_rows_inv-lt x h)

m_layer_inv-m_layer : (x : ℕ) → IsU64 x → m_layer_inv (m_layer x) ≡ x
unfolding m_layer m_layer_inv
m_layer_inv-m_layer x h =
    ap m_prime (shift_rows_inv-shift_rows (m_prime x) (m_prime-lt x h)) ∙ m_prime_self x h

m_layer-m_layer_inv : (x : ℕ) → IsU64 x → m_layer (m_layer_inv x) ≡ x
unfolding m_layer m_layer_inv
m_layer-m_layer_inv x h =
    ap shift_rows (m_prime_self (shift_rows_inv x) (shift_rows_inv-lt x h))
    ∙ shift_rows-shift_rows_inv x h

-- A key and its reflection, which `prince_decrypt` uses in its place.
abbrev pub Reflects : ℕ → ℕ → Type 0
Reflects k k' = k' ≡ bit_xor k alpha

pub Reflects-sym : (k k' : ℕ) → Reflects k k' → Reflects k' k
Reflects-sym k k' e = sym (xor_cancel k alpha) ∙ ap (λ t. bit_xor t alpha) (sym e)

-- Rounds `r` and `r'`, whose constants differ by alpha, undo one another under reflected keys.
module _ (k k' r r' : ℕ) (e : Reflects k k') (hk : IsU64 k) (hr : IsU64 (rc r))
    (pair : alpha ≡ bit_xor (rc r) (rc r')) where
  round_key : bit_xor k' (rc r') ≡ bit_xor k (rc r)
  round_key =
      ap (λ t. bit_xor t (rc r')) (e ∙ ap (bit_xor k) pair)
      ∙ xor_assoc k (bit_xor (rc r) (rc r')) (rc r')
      ∙ ap (bit_xor k) (xor_cancel (rc r) (rc r'))

  round_key-lt : IsU64 (bit_xor k (rc r))
  round_key-lt = xor-lt 64 k (rc r) hk hr

  module _ (s : ℕ) (hs : IsU64 s) where
    pub forward-lt : IsU64 (forward k r s)
    forward-lt = xor-lt 64 _ _ (m_layer-lt _ (sbox_layer-lt s)) (xor-lt 64 (rc r) k hr hk)

    pub backward-lt : IsU64 (backward k r s)
    backward-lt = sbox_inv_layer-lt _

    pub undo_forward : backward k' r' (forward k r s) ≡ s
    undo_forward =
        ap (λ t. sbox_inv_layer (m_layer_inv t))
          (ap₂ (λ u v. bit_xor (bit_xor (m_layer (sbox_layer s)) u) v) (xor_comm (rc r) k) round_key
            ∙ xor_cancel (m_layer (sbox_layer s)) (bit_xor k (rc r)))
        ∙ ap sbox_inv_layer (m_layer_inv-m_layer (sbox_layer s) (sbox_layer-lt s))
        ∙ sbox_inv_layer-sbox_layer s hs

    pub undo_backward : forward k' r' (backward k r s) ≡ s
    undo_backward =
        ap₂ bit_xor
          (ap m_layer (sbox_layer-sbox_inv_layer _ (m_layer_inv-lt _ masked))
            ∙ m_layer-m_layer_inv _ masked)
          (xor_comm (rc r') k' ∙ round_key)
        ∙ xor_cancel s (bit_xor k (rc r))
      where
        masked : IsU64 (bit_xor s (bit_xor k (rc r)))
        masked = xor-lt 64 s _ hs round_key-lt
