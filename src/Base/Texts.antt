-- ===== src/Base/Texts.antt =====
-- JavaScript strings as lists of UTF-16 code units, with what the program uses of them.
use Prim.Native.Nat.{ℕ, ◌≤◌}
use Prim.Native.Char.{code}
use Prim.Native.String.{String}
use mathlib.Core.Path.{◌≡◌, refl}
use mathlib.Core.Logic.{◌↔◌}
use mathlib.Core.Bool.{Bool, true, false, ◌&&◌, ◌||◌, not}
use mathlib.Core.List.{List, [], ◌∷◌}
use native.Mathlib.Omega.{arith}
use comdove_fake_backend.Base.Tests.{leb, ◌==◌, if◌then◌else◌}
use comdove_fake_backend.Base.Lists.{length, keep, all, is_empty}

abbrev pub Text : Type 0
Text = List ℕ

-- A literal of the source. All of them are ASCII, so a code point is a code unit.
abbrev pub lit : String → Text
lit String.[] = []
lit (String.◌∷◌ c s) = code c ∷ lit s

-- `s === t`
unfoldable pub text_eq : Text → Text → Bool
text_eq [] [] = true
text_eq [] (d ∷ t) = false
text_eq (c ∷ s) [] = false
text_eq (c ∷ s) (d ∷ t) = (c == d) && text_eq s t

pub text_eq_refl : (s : Text) → text_eq s s ≡ true
unfolding text_eq
text_eq_refl [] = refl
text_eq_refl (c ∷ s) = ground (arith, text_eq_refl s)

pub text_eq_sound : (s t : Text) → text_eq s t ≡ true → s ≡ t
unfolding text_eq
text_eq_sound [] [] h = refl
text_eq_sound [] (d ∷ t) h = cc
text_eq_sound (c ∷ s) [] h = cc
text_eq_sound (c ∷ s) (d ∷ t) h = ground (arith, text_eq_sound s t)

pub text_eq_iff : (s t : Text) → (text_eq s t ≡ true) ↔ (s ≡ t)
text_eq_iff s t = (text_eq_sound s t, λ e. rw e (text_eq_refl t))

-- `xs.includes(s)`
abbrev pub has_text : Text → List Text → Bool
has_text s [] = false
has_text s (t ∷ ts) = text_eq t s || has_text s ts

-- ECMAScript's WhiteSpace and LineTerminator: what `trim` removes and what `\s` matches.
unfoldable pub is_space : ℕ → Bool
is_space c =
    (leb 9 c && leb c 13)
    || c == 32
    || c == 160
    || c == 0x1680
    || (leb 0x2000 c && leb c 0x200a)
    || c == 0x2028
    || c == 0x2029
    || c == 0x202f
    || c == 0x205f
    || c == 0x3000
    || c == 0xfeff

abbrev pub is_digit : ℕ → Bool
is_digit c = leb b'0' c && leb c b'9'

-- `s.trim() === ''`
unfoldable pub is_blank : Text → Bool
unfolding is_space
is_blank s = all is_space s

-- `s.replace(/[+\s-]/g, '')`
unfoldable pub strip_separators : Text → Text
unfolding is_space
strip_separators s = keep (λ c. not (c == b'+' || is_space c || c == b'-')) s

-- `/^\d{8,15}$/.test(s)`
unfoldable pub is_phone : Text → Bool
is_phone s = all is_digit s && leb 8 (length s) && leb (length s) 15

-- `s.replace(/[^\d]/g, '')`
unfoldable pub digits_only : Text → Text
digits_only s = keep is_digit s

-- A stored phone number: 8 to 15 digits and nothing else.
pub record IsPhone (s : Text) : Type 0 where
  pub digits : all is_digit s ≡ true
  pub at_least : 8 ≤ length s
  pub at_most : length s ≤ 15

pub is_phone-IsPhone : (s : Text) → is_phone s ≡ true → IsPhone s
unfolding is_phone
is_phone-IsPhone s h = ground arith

keep-all : (p : ℕ → Bool) (s : Text) → all p s ≡ true → keep p s ≡ s
keep-all p [] h = refl
keep-all p (c ∷ s) h = ground (arith, keep-all p s)

-- Cleaning a stored number again changes nothing.
pub digits_only-IsPhone : (s : Text) → IsPhone s → digits_only s ≡ s
unfolding digits_only
digits_only-IsPhone s h = keep-all is_digit s h.digits

digit_no_separator : (c : ℕ) → is_digit c ≡ true → not (c == b'+' || is_space c || c == b'-') ≡ true
unfolding is_space
digit_no_separator c h = ground arith

keep_weaken :
    (p q : ℕ → Bool)
    → ((c : ℕ) → p c ≡ true → q c ≡ true)
    → (s : Text) → all p s ≡ true
    → keep q s ≡ s
keep_weaken p q imp [] h = refl
keep_weaken p q imp (c ∷ s) h = ground (arith, imp c, keep_weaken p q imp s)

pub strip_separators-IsPhone : (s : Text) → IsPhone s → strip_separators s ≡ s
unfolding strip_separators
strip_separators-IsPhone s h = keep_weaken is_digit _ digit_no_separator s h.digits

pub IsPhone-is_phone : (s : Text) → IsPhone s → is_phone s ≡ true
unfolding is_phone
IsPhone-is_phone s h = ground arith

-- `s.trim()`
unfoldable pub trim_start : Text → Text
trim_start [] = []
trim_start (c ∷ s) = if is_space c then trim_start s else c ∷ s

unfoldable pub trim_end : Text → Text
trim_end [] = []
trim_end (c ∷ s) = let rest = trim_end s in if is_space c && is_empty rest then [] else c ∷ rest

unfoldable pub trim : Text → Text
unfolding trim_start trim_end
trim s = trim_end (trim_start s)

pub digits_only_idem : (s : Text) → digits_only (digits_only s) ≡ digits_only s
unfolding digits_only
digits_only_idem [] = refl
digits_only_idem (c ∷ s) = ground (arith, digits_only_idem s)
