-- ===== src/Callbacks/Clean/Plain.antt =====
-- What `clean` leaves of a text (demo/heartbeat/src/callbackAssistant.ts).
use Prim.Native.Char.{code}
use ctf_website.Base.{
  ℕ, zero, suc, ◌≤◌, ◌≡◌, refl, String, Bool, true, false, not, ◌&&◌, Option, none, some, if_both,
  arith, Bool-cases, inl, inr,
}
use ctf_website.Base.Texts.{
  trim, trim_start, trim_end, trim_step, take_text, text_length, is_space, is_empty,
}
use ctf_website.Callbacks.Clean.{is_markup, is_control, blank, squeeze, clean, clean_text}

abbrev pub every : (ℕ → Bool) → String → Bool
every p String.[] = true
every p (String.◌∷◌ c s) = p (code c) && every p s

abbrev no_markup : ℕ → Bool
no_markup c = not (is_markup c)

-- No character that a template or a prompt reads as code, and no control character.
abbrev pub is_plain : ℕ → Bool
is_plain c = not (is_markup c) && not (is_control c)

every-blank : (s : String) → every no_markup (blank is_markup s) ≡ true
unfolding blank
every-blank String.[] = refl
every-blank (String.◌∷◌ c s) = elim (Bool-cases (is_markup (code c))) [
  | inl bad ↦ rw bad (every-blank s)
  | inr good ↦ rw good (rw good (every-blank s))
]

module _ (p q test : ℕ → Bool) (space : p 32 ≡ true)
    (keeps : (c : ℕ) → test c ≡ false → q c ≡ true → p c ≡ true) where
  every-squeeze : (s : String) → every q s ≡ true → every p (squeeze test s) ≡ true
  unfolding squeeze
  every-squeeze String.[] h = refl
  every-squeeze (String.◌∷◌ c s) h = ground (arith, every-squeeze s, keeps (code c), space)

every-trim_step :
    (p : ℕ → Bool) (c : Prim.Native.Char.Char) (s : String)
    → p (code c) ≡ true
    → every p s ≡ true
    → every p (trim_step c s) ≡ true
every-trim_step p c String.[] h hs =
    if_both (λ t. every p t ≡ true) (is_space (code c)) refl (rw h refl)
every-trim_step p c (String.◌∷◌ d s) h hs = rw h hs

module _ (p : ℕ → Bool) where
  every-trim_end : (s : String) → every p s ≡ true → every p (trim_end s) ≡ true
  unfolding trim_end
  every-trim_end String.[] h = refl
  every-trim_end (String.◌∷◌ c s) h =
      every-trim_step p c (trim_end s) (ground arith) (every-trim_end s (ground arith))

  every-trim_start : (s : String) → every p s ≡ true → every p (trim_start s) ≡ true
  unfolding trim_start
  every-trim_start String.[] h = refl
  every-trim_start (String.◌∷◌ c s) h =
      if_both (λ t. every p t ≡ true) (is_space (code c)) (every-trim_start s (ground arith)) h

  every-trim : (s : String) → every p s ≡ true → every p (trim s) ≡ true
  unfolding trim
  every-trim s h = every-trim_start (trim_end s) (every-trim_end s h)

  every-take_text : (n : ℕ) (s : String) → every p s ≡ true → every p (take_text n s) ≡ true
  every-take_text zero s h = refl
  every-take_text (suc n) String.[] h = refl
  every-take_text (suc n) (String.◌∷◌ c s) h = ground (arith, every-take_text n s)

length-take_text : (n : ℕ) (s : String) → text_length (take_text n s) ≤ n
length-take_text zero s = omega arith
length-take_text (suc n) String.[] = omega arith
length-take_text (suc n) (String.◌∷◌ c s) = omega (arith, length-take_text n s)

plain_of_control : (c : ℕ) → is_control c ≡ false → no_markup c ≡ true → is_plain c ≡ true
plain_of_control c h k = rw h (rw k refl)

pub record IsPlain (max : ℕ) (s : String) : Type 0 where
  pub short : text_length s ≤ max
  pub plain : every is_plain s ≡ true

clean_text-IsPlain : (value : String) (max : ℕ) → IsPlain max (clean_text value max)
unfolding clean_text
clean_text-IsPlain value max = record {
  short = length-take_text max _;
  plain = every-take_text is_plain max _ (
      every-trim is_plain _ (
        every-squeeze is_plain is_plain is_space refl (λ c _ h. h)
          (squeeze is_control (blank is_markup value))
          (every-squeeze is_plain no_markup is_control refl plain_of_control (blank is_markup value)
            (every-blank value))));
}

-- Whatever a stranger typed, what reaches the prompt of the call is no longer than the limit and
-- holds no brace, percent sign, backtick, angle bracket, backslash or control character.
pub clean-IsPlain : (value : Option String) (max : ℕ) → IsPlain max (clean value max)
unfolding clean
clean-IsPlain none max = record { short = omega arith; plain = refl }
clean-IsPlain (some value) max =
    if_both (IsPlain max) (is_empty value) (record { short = omega arith; plain = refl })
      (clean_text-IsPlain value max)
