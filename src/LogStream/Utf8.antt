-- ===== src/LogStream/Utf8.antt =====
-- A decoder of UTF-8 into UTF-16, byte by byte, with a replacement character for what is no UTF-8:
-- the behaviour that frontend/src/hooks/useLogStream.ts needs of TextDecoder can be had.
use Prim.Native.Nat.{◌/◌, ◌%◌}
use mathlib.Core.List.{append_assoc}
use vps_dashboard.Common.{
  ℕ, zero, suc, ◌+◌, ◌-◌, ◌*◌, ◌≡◌, refl, sym, ap, ◌∙◌, arith, Bool, true, false, not, ◌&&◌, ◌==◌,
  [], ◌∷◌, ◌++◌, Text, ltb, if◌then◌else◌, All-append,
}
use vps_dashboard.LogStream.Events.{IsLine}
use vps_dashboard.LogStream.Decoding.{Bytes, Decoder}

-- How many bytes a character still needs, and its code so far.
pub record Pending : Type 0 where
  pub left : ℕ
  pub code : ℕ

abbrev pub nothing : Pending
nothing = record { left = 0; code = 0 }

-- A step has a new state and some text.
pub record Step : Type 0 where
  pub state : Pending
  pub text : Text

abbrev units : ℕ → Text
units c =
    if ltb c 128
    then 65533 ∷ []
    else if ltb c 65536
    then c ∷ []
    else (55296 + (c - 65536) / 1024) ∷ (56320 + (c - 65536) % 1024) ∷ []

abbrev first_byte : ℕ → Step
first_byte b =
    if ltb b 128
    then record { state = nothing; text = b ∷ [] }
    else if ltb b 192
    then record { state = nothing; text = 65533 ∷ [] }
    else if ltb b 224
    then record { state = record { left = 1; code = b % 32 }; text = [] }
    else if ltb b 240
    then record { state = record { left = 2; code = b % 16 }; text = [] }
    else record { state = record { left = 3; code = b % 8 }; text = [] }

abbrev replaced : Step → Step
replaced s = record { state = s.state; text = 65533 ∷ s.text }

abbrev is_continuation : ℕ → Bool
is_continuation b = not (ltb b 128) && ltb b 192

abbrev continued_by : ℕ → ℕ → ℕ → Step
continued_by zero code b = record { state = nothing; text = units (code * 64 + b % 64) }
continued_by (suc n) code b = record {
  state = record { left = suc n; code = code * 64 + b % 64 };
  text = [];
}

abbrev later_byte : ℕ → ℕ → ℕ → Step
later_byte zero code b = first_byte b
later_byte (suc n) code b =
    if is_continuation b then continued_by n code b else replaced (first_byte b)

abbrev step : Pending → ℕ → Step
step s b = later_byte s.left s.code b

abbrev pub text_of : Pending → Bytes → Text
text_of s [] = []
text_of s (b ∷ bs) = (step s b).text ++ text_of (step s b).state bs

abbrev pub state_after : Pending → Bytes → Pending
state_after s [] = s
state_after s (b ∷ bs) = state_after (step s b).state bs

pub text_of-append :
    (s : Pending) (a b : Bytes) → text_of s (a ++ b) ≡ text_of s a ++ text_of (state_after s a) b
text_of-append s [] b = refl
text_of-append s (c ∷ a) b =
    ap ((step s c).text ++◌) (text_of-append (step s c).state a b)
    ∙ sym (append_assoc (step s c).text (text_of (step s c).state a) _)

pub state_after-append :
    (s : Pending) (a b : Bytes) → state_after s (a ++ b) ≡ state_after (state_after s a) b
state_after-append s [] b = refl
state_after-append s (c ∷ a) b = state_after-append (step s c).state a b

pub text_of_ascii : (c : ℕ) → ltb c 128 ≡ true → text_of nothing (c ∷ []) ≡ c ∷ []
text_of_ascii c h = rw h refl

first_byte_ascii :
    (c : ℕ) → ltb c 128 ≡ true → first_byte c ≡ record { state = nothing; text = c ∷ [] }
first_byte_ascii c h = rw h refl

pub state_after_ascii : (c : ℕ) → ltb c 128 ≡ true → state_after nothing (c ∷ []) ≡ nothing
state_after_ascii c h = ap (λ s. s.state) (first_byte_ascii c h)

one_of : (b : Bool) (x y : Text) → IsLine x → (b ≡ false → IsLine y) → IsLine (if b then x else y)
one_of true x y h k = h
one_of false x y h k = k refl

units-IsLine : (c : ℕ) → IsLine (units c)
units-IsLine c =
    one_of (ltb c 128) _ _ (refl, tt)
      (λ e.
        one_of (ltb c 65536) _ _ (ground (arith, e), tt) (λ k. (ground arith, (ground arith, tt))))

either : (b : Bool) (x y : Step) → IsLine x.text → IsLine y.text → IsLine (if b then x else y).text
either true x y h k = h
either false x y h k = k

first_byte-IsLine : (b : ℕ) → (b == 10) ≡ false → IsLine (first_byte b).text
first_byte-IsLine b h =
    either (ltb b 128) _ _ (h, tt)
      (either (ltb b 192) _ _ (refl, tt) (either (ltb b 224) _ _ tt (either (ltb b 240) _ _ tt tt)))

continued_by-IsLine : (n code b : ℕ) → IsLine (continued_by n code b).text
continued_by-IsLine zero code b = units-IsLine (code * 64 + b % 64)
continued_by-IsLine (suc n) code b = tt

later_byte-IsLine : (n code b : ℕ) → (b == 10) ≡ false → IsLine (later_byte n code b).text
later_byte-IsLine zero code b h = first_byte-IsLine b h
later_byte-IsLine (suc n) code b h =
    either (is_continuation b) _ _ (continued_by-IsLine n code b) (refl, first_byte-IsLine b h)

pub text_of-IsLine : (s : Pending) (a : Bytes) → IsLine a → IsLine (text_of s a)
text_of-IsLine s [] h = tt
text_of-IsLine s (b ∷ a) h =
    All-append _ (step s b).text (text_of (step s b).state a)
      (later_byte-IsLine s.left s.code b h.0) (text_of-IsLine (step s b).state a h.1)

unfoldable pub utf8 : Decoder
utf8 = record {
  State = Pending;
  fresh = nothing;
  decode = text_of;
  after = state_after;
  decode_nil = λ s. refl;
  decode-append = text_of-append;
  after-append = state_after-append;
  decode_ascii = text_of_ascii;
  after_ascii = state_after_ascii;
  decode-IsLine = λ a h. text_of-IsLine nothing a h;
}
