-- ===== src/Base/CString.antt =====
-- C strings. A `const char *` argument is the list of the bytes before its terminator; a `char`
-- array is the list of all its bytes. `overlay` writes over the front of an array, and what does
-- not fit is cut off.
use Prim.Native.Char.{code}
use Prim.Native.String.{String}
use Prim.Native.Nat.{ℕ, zero, suc, ◌<◌, ◌≤◌}
use mathlib.Core.Path.{◌≡◌, refl, ap}
use mathlib.Core.Logic.{◌↔◌}
use mathlib.Core.Bool.{Bool, true, false, ◌&&◌}
use mathlib.Core.List.{List, [], ◌∷◌, ◌++◌}
use native.Mathlib.Omega.{arith}
use linux_mqtt_sn_gateway.Base.Tests.{◌==◌, if◌then◌else◌}
use linux_mqtt_sn_gateway.Base.Lists.{length, take, All, replicate}

-- The bytes of a text literal.
abbrev pub codes : String → List ℕ
codes String.[] = []
codes (String.◌∷◌ c s) = code c ∷ codes s

-- The bytes of an array before its first NUL.
unfoldable pub c_str : List ℕ → List ℕ
c_str [] = []
c_str (b ∷ bs) = if b == 0 then [] else b ∷ c_str bs

abbrev pub strlen : List ℕ → ℕ
strlen bs = length (c_str bs)

unfoldable pub overlay : List ℕ → List ℕ → List ℕ
overlay [] src = []
overlay (d ∷ ds) [] = d ∷ ds
overlay (d ∷ ds) (b ∷ bs) = b ∷ overlay ds bs

-- `strcpy(dst, src)` into an array.
abbrev pub strcpy : List ℕ → List ℕ → List ℕ
strcpy dst src = overlay dst (src ++ 0 ∷ [])

-- Equality of texts: `strcmp(a, b) == 0`, and `memcmp` on arrays of one length.
unfoldable pub bytes_eq : List ℕ → List ℕ → Bool
bytes_eq [] [] = true
bytes_eq [] (_ ∷ _) = false
bytes_eq (_ ∷ _) [] = false
bytes_eq (a ∷ as') (b ∷ bs) = a == b && bytes_eq as' bs

abbrev pub IsByte : ℕ → Type 0
IsByte b = b < 256

abbrev pub IsChar : ℕ → Type 0
IsChar b = (0 < b) × (b < 256)

-- A text that a C string can hold.
abbrev pub IsText : List ℕ → Type 0
IsText = All IsChar

pub bytes_eq_iff : (a b : List ℕ) → (bytes_eq a b ≡ true) ↔ (a ≡ b)
unfolding bytes_eq
bytes_eq_iff [] [] = ground arith
bytes_eq_iff [] (_ ∷ _) = ground arith
bytes_eq_iff (_ ∷ _) [] = ground arith
bytes_eq_iff (a ∷ as') (b ∷ bs) = ground (arith, bytes_eq_iff as' bs)

pub length-overlay : (dst src : List ℕ) → length (overlay dst src) ≡ length dst
unfolding overlay
length-overlay [] src = refl
length-overlay (d ∷ ds) [] = refl
length-overlay (d ∷ ds) (b ∷ bs) = ap suc (length-overlay ds bs)

pub All-overlay :
    (dst src : List ℕ) → All IsByte dst → All IsByte src → All IsByte (overlay dst src)
unfolding overlay
All-overlay [] src h k = tt
All-overlay (d ∷ ds) [] h k = h
All-overlay (d ∷ ds) (b ∷ bs) h k = (k.0, All-overlay ds bs h.1 k.1)

pub c_str-strcpy :
    (dst src : List ℕ) → IsText src → length src < length dst → c_str (strcpy dst src) ≡ src
unfolding c_str overlay
c_str-strcpy [] src h lt = absurd (omega arith)
c_str-strcpy (d ∷ ds) [] h lt = refl
c_str-strcpy (d ∷ ds) (b ∷ bs) h lt = ground (arith, c_str-strcpy ds bs h.1)

pub All-IsByte_of_text : (s : List ℕ) → IsText s → All IsByte (s ++ 0 ∷ [])
All-IsByte_of_text [] h = omega arith
All-IsByte_of_text (b ∷ bs) h = (h.0.1, All-IsByte_of_text bs h.1)

pub c_str-zeros : (n : ℕ) → c_str (replicate n 0) ≡ []
unfolding c_str
c_str-zeros zero = refl
c_str-zeros (suc n) = refl

-- The bytes that `memcpy` put into an array can be read back from it.
pub take-overlay :
    (n : ℕ) (dst src : List ℕ)
    → n ≤ length dst
    → n ≤ length src
    → take n (overlay dst (take n src)) ≡ take n src
unfolding overlay
take-overlay zero dst src h k = refl
take-overlay (suc n) [] src h k = absurd (omega arith)
take-overlay (suc n) (d ∷ ds) [] h k = absurd (omega arith)
take-overlay (suc n) (d ∷ ds) (b ∷ bs) h k =
    ap (λ l. b ∷ l) (take-overlay n ds bs (omega arith) (omega arith))
