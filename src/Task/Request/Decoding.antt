-- ===== src/Task/Request/Decoding.antt =====
-- src/domain/task.ts: the canonical text of a request, read back.
use Prim.Native.Char.{Char, code}
use Prim.Native.String
use text.Mathlib.TextLemmas.{
  nil-append, cons-append, append_assoc, append_cancel_left, head-eq_of_cons-eq, tail-eq_of_cons-eq,
  cons-eq-cons, cons≢nil, append-eq-nil_iff,
}
use text.Mathlib.TextPositions.{slice-append_left}
use mathlib.Core.Path.{ap₂}
use copilot_agent_mesh.Prelude.{
  ℕ, zero, suc, ◌+◌, ◌-◌, ◌*◌, ◌/◌, ◌%◌, ◌<◌, String, List, [], ◌∷◌, ◌≡◌, ◌≢◌, refl, sym, ap, ◌∙◌,
  arith, inl, inr, Bool-cases, ltb,
}
use copilot_agent_mesh.Protocol.{digit_text, digits, number_text, ◌^◌, utf8_byte_length}
use copilot_agent_mesh.Task.Request.Framing.{length_prefix, joined, framed}

-- The number that a text of decimal digits stands for, after `n`.
text_value : ℕ → String → ℕ
text_value n String.[] = n
text_value n (String.◌∷◌ c s) = text_value (n * 10 + (code c - 48)) s

abbrev NoColon : String → Type 0
NoColon String.[] = Unit {0}
NoColon (String.◌∷◌ c s) = (code c ≢ 58) × NoColon s

text_value-append : (n : ℕ) (s t : String) → text_value n (s ^ t) ≡ text_value (text_value n s) t
unfolding text_value
text_value-append n String.[] t = ap (text_value n) (nil-append t)
text_value-append n (String.◌∷◌ c s) t =
    ap (text_value n) (cons-append c s t) ∙ text_value-append (n * 10 + (code c - 48)) s t

NoColon-append : (s t : String) → NoColon s → NoColon t → NoColon (s ^ t)
NoColon-append String.[] t hs ht = rw nil-append ht
NoColon-append (String.◌∷◌ c s) t (h, hs) ht = rw cons-append (h, NoColon-append s t hs ht)

text_value-digit : (n d : ℕ) → d < 10 → text_value n (digit_text d) ≡ n * 10 + d
unfolding text_value
text_value-digit n zero h = omega arith
text_value-digit n (suc zero) h = omega arith
text_value-digit n (suc (suc zero)) h = omega arith
text_value-digit n (suc (suc (suc zero))) h = omega arith
text_value-digit n (suc (suc (suc (suc zero)))) h = omega arith
text_value-digit n (suc (suc (suc (suc (suc zero))))) h = omega arith
text_value-digit n (suc (suc (suc (suc (suc (suc zero)))))) h = omega arith
text_value-digit n (suc (suc (suc (suc (suc (suc (suc zero))))))) h = omega arith
text_value-digit n (suc (suc (suc (suc (suc (suc (suc (suc zero)))))))) h = omega arith
text_value-digit n (suc (suc (suc (suc (suc (suc (suc (suc (suc zero))))))))) h = omega arith
text_value-digit n (suc (suc (suc (suc (suc (suc (suc (suc (suc (suc d)))))))))) h =
    absurd (omega arith)

NoColon-digit : (d : ℕ) → NoColon (digit_text d)
NoColon-digit zero = omega arith
NoColon-digit (suc zero) = omega arith
NoColon-digit (suc (suc zero)) = omega arith
NoColon-digit (suc (suc (suc zero))) = omega arith
NoColon-digit (suc (suc (suc (suc zero)))) = omega arith
NoColon-digit (suc (suc (suc (suc (suc zero))))) = omega arith
NoColon-digit (suc (suc (suc (suc (suc (suc zero)))))) = omega arith
NoColon-digit (suc (suc (suc (suc (suc (suc (suc zero))))))) = omega arith
NoColon-digit (suc (suc (suc (suc (suc (suc (suc (suc zero)))))))) = omega arith
NoColon-digit _ = omega arith

text_value-digits : (rounds n : ℕ) → n < rounds → text_value 0 (digits rounds n) ≡ n
unfolding digits
text_value-digits zero n h = absurd (omega arith)
text_value-digits (suc rounds) n h = elim (Bool-cases (ltb n 10)) [
  | inl small ↦ rw small (text_value-digit 0 n (ground arith) ∙ (omega arith))
  | inr large ↦ rw large (
      text_value-append 0 (digits rounds (n / 10)) (digit_text (n % 10))
      ∙ text_value-digit (text_value 0 (digits rounds (n / 10))) (n % 10) (omega arith)
      ∙ (omega (arith, text_value-digits rounds (n / 10) (ground arith))))
]

NoColon-digits : (rounds n : ℕ) → NoColon (digits rounds n)
unfolding digits
NoColon-digits zero n = tt
NoColon-digits (suc rounds) n = elim (Bool-cases (ltb n 10)) [
  | inl small ↦ rw small (NoColon-digit n)
  | inr large ↦
      rw large (NoColon-append _ _ (NoColon-digits rounds (n / 10)) (NoColon-digit (n % 10)))
]

number_text-NoColon : (n : ℕ) → NoColon (number_text n)
unfolding number_text
number_text-NoColon n = NoColon-digits (suc n) n

-- No number has the empty text.
pub number_text-ne-empty : (n : ℕ) → number_text n ≢ ""
unfolding number_text digits
number_text-ne-empty n e =
    let zero_only : n ≡ 0 =
      sym (text_value-digits (suc n) n (omega arith))
      ∙ ap (text_value 0) e
      ∙ (unfold text_value in refl) in
    cons≢nil {x = "0"} {xs = ""} (sym (ap number_text zero_only) ∙ e)

-- A number can be read back from its text.
pub number_text_injective : (m n : ℕ) → number_text m ≡ number_text n → m ≡ n
unfolding number_text
number_text_injective m n e =
    sym (text_value-digits (suc m) m (omega arith))
    ∙ ap (text_value 0) e
    ∙ text_value-digits (suc n) n (omega arith)

colon : Char
colon = ":"

colon-cons : (x : String) → ":" ^ x ≡ String.◌∷◌ colon x
unfolding colon
colon-cons x = cons-append ":" "" x ∙ ap (String.◌∷◌ ":") (nil-append x)

-- A text that goes on with a colon does not begin with another character.
colon_first :
    (x y t : String) (d : Char) → code d ≢ 58 → "" ^ (":" ^ x) ≡ String.◌∷◌ d t ^ (":" ^ y) → ⊥
unfolding colon
colon_first x y t d h e =
    let heads : String.◌∷◌ colon x ≡ String.◌∷◌ d (t ^ (":" ^ y)) =
      sym (nil-append (":" ^ x) ∙ colon-cons x) ∙ e ∙ cons-append d t (":" ^ y) in
    h (ap code (sym (head-eq_of_cons-eq heads)))

-- Two texts without a colon, each followed by one, are equal, and so is what follows.
split_at_colon :
    (s t x y : String) → NoColon s → NoColon t → s ^ (":" ^ x) ≡ t ^ (":" ^ y) → (s ≡ t) × (x ≡ y)
split_at_colon String.[] String.[] x y hs ht e =
    (refl, append_cancel_left ":" x y (sym (nil-append (":" ^ x)) ∙ e ∙ nil-append (":" ^ y)))
split_at_colon String.[] (String.◌∷◌ d t) x y hs ht e = absurd (colon_first x y t d ht.0 e)
split_at_colon (String.◌∷◌ c s) String.[] x y hs ht e = absurd (colon_first y x s c hs.0 (sym e))
split_at_colon (String.◌∷◌ c s) (String.◌∷◌ d t) x y hs ht e =
    let conses : String.◌∷◌ c (s ^ (":" ^ x)) ≡ String.◌∷◌ d (t ^ (":" ^ y)) =
      sym (cons-append c s (":" ^ x)) ∙ e ∙ cons-append d t (":" ^ y) in
    let (tails, rest) = split_at_colon s t x y hs.1 ht.1 (tail-eq_of_cons-eq conses) in
    (cons-eq-cons.1 (head-eq_of_cons-eq conses, tails), rest)

slice_prefix : (s t x y : String) → utf8_byte_length s ≡ utf8_byte_length t → s ^ x ≡ t ^ y → s ≡ t
slice_prefix s t x y n e =
    sym (slice-append_left s x)
    ∙ ap (λ r. String.slice r 0 (utf8_byte_length s)) e
    ∙ ap (String.slice (t ^ y) 0) n
    ∙ slice-append_left t y

-- A field is told apart from what follows it.
length_prefix_split :
    (s t x y : String) → length_prefix s ^ x ≡ length_prefix t ^ y → (s ≡ t) × (x ≡ y)
unfolding length_prefix
length_prefix_split s t x y e =
    let m = utf8_byte_length s in
    let n = utf8_byte_length t in
    let regroup : (k : ℕ) (u z : String)
        → (number_text k ^ (":" ^ u)) ^ z ≡ number_text k ^ (":" ^ (u ^ z)) =
      λ k u z.
        append_assoc (number_text k) (":" ^ u) z
        ∙ ap (String.◌++◌ (number_text k)) (append_assoc ":" u z) in
    let (numbers, bodies) =
      split_at_colon (number_text m) (number_text n) (s ^ x) (t ^ y) (number_text-NoColon m)
        (number_text-NoColon n) (sym (regroup m s x) ∙ e ∙ regroup n t y) in
    let same : s ≡ t = slice_prefix s t x y (number_text_injective m n numbers) bodies in
    (same, append_cancel_left t x y (ap (λ r. r ^ x) (sym same) ∙ bodies))

framed_nonempty : (s : String) (x : String) → length_prefix s ^ x ≢ ""
unfolding length_prefix
framed_nonempty s x e =
    cons≢nil (sym (colon-cons s) ∙ (append-eq-nil_iff.0 (append-eq-nil_iff.0 e).0).1)

-- The text of a list of fields determines the fields.
pub framed_injective : (ss ts : List String) → framed ss ≡ framed ts → ss ≡ ts
unfolding joined
framed_injective [] [] e = refl
framed_injective [] (t ∷ ts) e = absurd (framed_nonempty t (framed ts) (sym e))
framed_injective (s ∷ ss) [] e = absurd (framed_nonempty s (framed ss) e)
framed_injective (s ∷ ss) (t ∷ ts) e =
    let (same, rest) = length_prefix_split s t (framed ss) (framed ts) e in
    ap₂ (λ u us. u ∷ us) same (framed_injective ss ts rest)
