-- ===== src/LogStream/Decoding.antt =====
-- Code: frontend/src/hooks/useLogStream.ts.
-- From the bytes of the response to the text that the buffer gets: one TextDecoder for all chunks.
use vps_dashboard.Common.{
  ℕ, ◌≡◌, refl, sym, ap, ◌∙◌, true, List, [], ◌∷◌, ◌++◌, map, Text, ltb, All,
}
use mathlib.Core.List.{append_assoc}
use vps_dashboard.LogStream.{data_prefix}
use vps_dashboard.LogStream.Chunks.{joined}
use vps_dashboard.LogStream.Events.{IsLine, event}

abbrev pub Bytes : Type 0
Bytes = List ℕ

-- `TextDecoder` with the option `stream`: the text of some bytes, and what the decoder remembers of a
-- character that they leave unfinished. That is how it is documented: the text does not depend on
-- where the bytes are cut, a byte below 128 between characters stands for itself, and no other byte
-- makes a line break.
pub record Decoder : Type 1 where
  pub State : Type 0
  pub fresh : State
  pub decode : State → Bytes → Text
  pub after : State → Bytes → State
  pub decode_nil : (s : State) → decode s [] ≡ []
  pub decode-append :
      (s : State) (a b : Bytes) → decode s (a ++ b) ≡ decode s a ++ decode (after s a) b
  pub after-append : (s : State) (a b : Bytes) → after s (a ++ b) ≡ after (after s a) b
  pub decode_ascii : (c : ℕ) → ltb c 128 ≡ true → decode fresh (c ∷ []) ≡ c ∷ []
  pub after_ascii : (c : ℕ) → ltb c 128 ≡ true → after fresh (c ∷ []) ≡ fresh
  pub decode-IsLine : (a : Bytes) → IsLine a → IsLine (decode fresh a)

module _ (decoder : Decoder) where
  open decoder use {
    State, fresh, decode, after, decode_nil, decode-append, after-append, decode_ascii, after_ascii,
  }

  -- `decoder.decode(value, { stream: true })` for each chunk.
  unfoldable pub decode_from : State → List Bytes → List Text
  decode_from s [] = []
  decode_from s (value ∷ values) = decode s value ∷ decode_from (after s value) values

  -- The chunks of text for the chunks of the response.
  unfoldable pub decode_chunks : List Bytes → List Text
  unfolding decode_from
  decode_chunks values = decode_from fresh values

  -- Bytes that leave no character unfinished.
  abbrev pub IsWhole : Bytes → Type 0
  IsWhole a = after fresh a ≡ fresh

  pub joined-decode_from :
      (s : State) (values : List Bytes) → joined (decode_from s values) ≡ decode s (joined values)
  unfolding decode_from
  joined-decode_from s [] = sym (decode_nil s)
  joined-decode_from s (value ∷ values) =
      ap (decode s value ++◌) (joined-decode_from (after s value) values)
      ∙ sym (decode-append s value (joined values))

  decode-whole :
      (a b : Bytes) → IsWhole a → decode fresh (a ++ b) ≡ decode fresh a ++ decode fresh b
  decode-whole a b h = decode-append fresh a b ∙ ap (λ s. decode fresh a ++ decode s b) h

  decode-cons : (c : ℕ) (b : Bytes) → ltb c 128 ≡ true → decode fresh (c ∷ b) ≡ c ∷ decode fresh b
  decode-cons c b h =
      decode-whole (c ∷ []) b (after_ascii c h) ∙ ap (λ t. t ++ decode fresh b) (decode_ascii c h)

  decode-ascii :
      (a b : Bytes) → All (λ c. ltb c 128 ≡ true) a → decode fresh (a ++ b) ≡ a ++ decode fresh b
  decode-ascii [] b h = refl
  decode-ascii (c ∷ a) b h = decode-cons c (a ++ b) h.0 ∙ ap (c ∷◌) (decode-ascii a b h.1)

  prefix-ascii : All (λ c. ltb c 128 ≡ true) data_prefix
  prefix-ascii = (refl, (refl, (refl, (refl, (refl, (refl, tt))))))

  decode-event :
      (raw b : Bytes)
      → IsWhole raw
      → decode fresh (event raw ++ b) ≡ event (decode fresh raw) ++ decode fresh b
  decode-event raw b h =
      ap (λ t. decode fresh (data_prefix ++ t)) (append_assoc raw (10 ∷ 10 ∷ []) b)
      ∙ decode-ascii data_prefix (raw ++ 10 ∷ 10 ∷ b) prefix-ascii
      ∙ ap (data_prefix ++◌) (decode-whole raw (10 ∷ 10 ∷ b) h)
      ∙ ap (λ t. data_prefix ++ decode fresh raw ++ t)
          (decode-cons 10 (10 ∷ b) refl ∙ ap (10 ∷◌) (decode-cons 10 b refl))
      ∙ ap (data_prefix ++◌) (sym (append_assoc (decode fresh raw) (10 ∷ 10 ∷ []) (decode fresh b)))

  -- Events of whole payloads arrive as the events of the decoded payloads.
  pub decode-events :
      (raws : List Bytes)
      → All IsWhole raws
      → decode fresh (joined (map event raws)) ≡ joined (map event (map (decode fresh) raws))
  decode-events [] h = decode_nil fresh
  decode-events (raw ∷ raws) h =
      decode-event raw (joined (map event raws)) h.0
      ∙ ap (event (decode fresh raw) ++◌) (decode-events raws h.1)
