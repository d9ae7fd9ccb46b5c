-- ===== src/Common/Crypto/Sip/Reference.antt =====
-- SipHash for messages of any length, as its authors define it, and the version of
-- common/src/crypto.rs for 17 bytes.
use prototype_net.Base.{
  ℕ, zero, suc, ◌-◌, ◌%◌, bit_or, bit_xor, List, [], ◌∷◌, ◌++◌, length, get_or, slice, ◌≡◌, refl,
  ap, ◌∙◌, sym, arith,
}
use prototype_net.Word.{◌<<<◌, wrapping_add, rotate_left, from_le_bytes, from_be_bytes, IsByte}
use prototype_net.Word.Fields.{or_fields}
use prototype_net.Common.Crypto.Sip.{
  SipState, sip_round, absorb, finish, sip_init, siphash_2_4_17, siphash_2_4,
}

-- The four words of the state, v0 first.
abbrev Words : Type 0
Words = ℕ × (ℕ × (ℕ × ℕ))

-- Two of the four columns of a round: additions, rotations by `s` and `t`, exclusive ors, and a
-- rotation by half a word.
half_round : ℕ → ℕ → Words → Words
half_round s t (a, (b, (c, d))) = (
  rotate_left (wrapping_add a b) 32,
  (
    bit_xor (rotate_left b s) (wrapping_add a b),
    (wrapping_add c d, bit_xor (rotate_left d t) (wrapping_add c d)),
  ),
)

-- The second half works on the words in the order v2, v1, v0, v3.
exchanged : Words → Words
exchanged (a, (b, (c, d))) = (c, (b, (a, d)))

round : Words → Words
unfolding half_round exchanged
round v = exchanged (half_round 17 21 (exchanged (half_round 13 16 v)))

iterate : ℕ → Words → Words
iterate zero v = v
iterate (suc n) v = iterate n (round v)

abbrev xor_v0 : ℕ → Words → Words
xor_v0 m (a, (b, (c, d))) = (bit_xor a m, (b, (c, d)))

abbrev xor_v2 : ℕ → Words → Words
xor_v2 m (a, (b, (c, d))) = (a, (b, (bit_xor c m, d)))

abbrev xor_v3 : ℕ → Words → Words
xor_v3 m (a, (b, (c, d))) = (a, (b, (c, bit_xor d m)))

-- `c` rounds for each word of the message.
compress : ℕ → ℕ → Words → Words
unfolding iterate
compress c m v = xor_v0 m (iterate c (xor_v3 m v))

-- The text "somepseudorandomlygeneratedbytes" in ASCII.
abbrev nothing_up_my_sleeve : List ℕ
nothing_up_my_sleeve =
    0x73 ∷ 0x6f ∷ 0x6d ∷ 0x65 ∷ 0x70 ∷ 0x73 ∷ 0x65 ∷ 0x75 ∷ 0x64 ∷ 0x6f ∷ 0x72 ∷ 0x61 ∷ 0x6e ∷ 0x64
    ∷ 0x6f ∷ 0x6d ∷ 0x6c ∷ 0x79 ∷ 0x67 ∷ 0x65 ∷ 0x6e ∷ 0x65 ∷ 0x72 ∷ 0x61 ∷ 0x74 ∷ 0x65 ∷ 0x64
    ∷ 0x62 ∷ 0x79 ∷ 0x74 ∷ 0x65 ∷ 0x73 ∷ []

-- The text, most significant byte first, and the two halves of the key, least significant byte
-- first.
initial : List ℕ → Words
initial key =
    let k0 = from_le_bytes (slice key 0 8) in
    let k1 = from_le_bytes (slice key 8 8) in
    (
      bit_xor (from_be_bytes (slice nothing_up_my_sleeve 0 8)) k0,
      (
        bit_xor (from_be_bytes (slice nothing_up_my_sleeve 8 8)) k1,
        (
          bit_xor (from_be_bytes (slice nothing_up_my_sleeve 16 8)) k0,
          bit_xor (from_be_bytes (slice nothing_up_my_sleeve 24 8)) k1,
        ),
      ),
    )

abbrev zero_bytes : ℕ → List ℕ
zero_bytes zero = []
zero_bytes (suc n) = 0 ∷ zero_bytes n

-- The words of a message of `total` bytes: eight bytes each, and in the last one what is left,
-- filled up with zeros to seven bytes, and the length of the message modulo 256.
abbrev message_words : ℕ → List ℕ → List ℕ
message_words total (a ∷ b ∷ c ∷ d ∷ e ∷ f ∷ g ∷ h ∷ rest) =
    from_le_bytes (a ∷ b ∷ c ∷ d ∷ e ∷ f ∷ g ∷ h ∷ []) ∷ message_words total rest
message_words total rest =
    from_le_bytes (rest ++ (zero_bytes (7 - length rest) ++ total % 256 ∷ [])) ∷ []

compress_all : ℕ → List ℕ → Words → Words
compress_all c [] v = v
compress_all c (m ∷ ms) v = compress_all c ms (compress c m v)

abbrev xor_all : Words → ℕ
xor_all (a, (b, (c, d))) = bit_xor (bit_xor (bit_xor a b) c) d

finalise : ℕ → Words → ℕ
unfolding iterate
finalise d v = xor_all (iterate d (xor_v2 0xff v))

-- SipHash-c-d.
unfoldable pub siphash : ℕ → ℕ → List ℕ → List ℕ → ℕ
unfolding compress_all compress iterate round half_round exchanged finalise initial
siphash c d key message =
    finalise d (compress_all c (message_words (length message) message) (initial key))

abbrev words : SipState → Words
words s = (s.v0, (s.v1, (s.v2, s.v3)))

round-words : (s : SipState) → round (words s) ≡ words (sip_round s)
unfolding round half_round exchanged sip_round
round-words s = refl

initial-words : (key : List ℕ) → initial key ≡ words (sip_init key)
unfolding initial sip_init from_be_bytes
initial-words key = refl

-- The unrolled steps of the program against the reference.
compress_two : (m : ℕ) (s : SipState) → compress 2 m (words s) ≡ words (absorb m s)
unfolding compress iterate absorb
compress_two m s =
    ap (λ v. xor_v0 m (round v)) (round-words (record s { v3 = bit_xor s.v3 m }))
    ∙ ap (xor_v0 m) (round-words (sip_round (record s { v3 = bit_xor s.v3 m })))

finalise_four : (s : SipState) → finalise 4 (words s) ≡ finish s
unfolding finalise iterate finish
finalise_four s =
    ap (λ v. xor_all (round (round (round v)))) (round-words s')
    ∙ ap (λ v. xor_all (round (round v))) (round-words (sip_round s'))
    ∙ ap (λ v. xor_all (round v)) (round-words (sip_round (sip_round s')))
    ∙ ap xor_all (round-words (sip_round (sip_round (sip_round s'))))
  where
    s' : SipState
    s' = record s { v2 = bit_xor s.v2 0xff }

-- The last word of 17 bytes.
last_word :
    (z : ℕ) → IsByte z → bit_or (17 <<< 56) z ≡ from_le_bytes (z ∷ 0 ∷ 0 ∷ 0 ∷ 0 ∷ 0 ∷ 0 ∷ 17 ∷ [])
unfolding from_le_bytes
last_word z h = or_fields 56 17 z (omega arith) ∙ omega arith

three_words :
    (m0 m1 b : ℕ) (s : SipState)
    → finish (absorb b (absorb m1 (absorb m0 s)))
      ≡ finalise 4 (compress_all 2 (m0 ∷ m1 ∷ b ∷ []) (words s))
unfolding compress_all
three_words m0 m1 b s = sym (
    ap (λ v. finalise 4 (compress 2 b (compress 2 m1 v))) (compress_two m0 s)
    ∙ ap (λ v. finalise 4 (compress 2 b v)) (compress_two m1 (absorb m0 s))
    ∙ ap (finalise 4) (compress_two b (absorb m1 (absorb m0 s)))
    ∙ finalise_four (absorb b (absorb m1 (absorb m0 s))))

-- On a message of 17 bytes the unrolled function is SipHash-2-4: the hash that its authors define for
-- messages of any length, with half rounds, and constants taken from an ASCII text. The two have
-- only the operations on words and bytes in common.
pub siphash_2_4_17-eq-siphash :
    (key message : List ℕ)
    → length message ≡ 17
    → IsByte (get_or message 16 0)
    → siphash_2_4_17 key message ≡ siphash 2 4 key message
unfolding siphash siphash_2_4_17
siphash_2_4_17-eq-siphash key
      (a ∷ b ∷ c ∷ d ∷ e ∷ f ∷ g ∷ h ∷ a' ∷ b' ∷ c' ∷ d' ∷ e' ∷ f' ∷ g' ∷ h' ∷ z ∷ []) n p =
    ap (λ w. finish (absorb w (absorb m1 (absorb m0 (sip_init key))))) (last_word z p)
    ∙ three_words m0 m1 _ (sip_init key)
    ∙ ap (λ v. finalise 4 (compress_all 2 (m0 ∷ m1 ∷ last ∷ []) v)) (sym (initial-words key))
  where
    m0 : ℕ
    m0 = from_le_bytes (a ∷ b ∷ c ∷ d ∷ e ∷ f ∷ g ∷ h ∷ [])

    m1 : ℕ
    m1 = from_le_bytes (a' ∷ b' ∷ c' ∷ d' ∷ e' ∷ f' ∷ g' ∷ h' ∷ [])

    last : ℕ
    last = from_le_bytes (z ∷ 0 ∷ 0 ∷ 0 ∷ 0 ∷ 0 ∷ 0 ∷ 17 ∷ [])
siphash_2_4_17-eq-siphash key message n p = absurd (omega arith)

-- With a crate that hashes as its documentation says, the two functions agree on 17 bytes.
siphash_2_4_17-eq-siphash_2_4 :
    (sip_hasher_24 : List ℕ → List ℕ → ℕ)
    → ((key message : List ℕ) → sip_hasher_24 key message ≡ siphash 2 4 key message)
    → (key message : List ℕ) → length message ≡ 17
    → IsByte (get_or message 16 0)
    → siphash_2_4_17 key message ≡ siphash_2_4 sip_hasher_24 key message
unfolding siphash_2_4
siphash_2_4_17-eq-siphash_2_4 sip_hasher_24 documented key message n p =
    siphash_2_4_17-eq-siphash key message n p ∙ sym (documented key message)
