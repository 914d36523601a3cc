-- ===== src/Settings/Decimal.antt =====
-- Decimal texts, and what `atoi` and `parse_ipaddress_after_space` of the parsers in
-- Implementation/LinuxPersistent.h read from them.
use native.Mathlib.Nat.{mod-eq_of_lt}
use linux_mqtt_sn_gateway.Base.{
  ℕ, zero, suc, ◌+◌, ◌-◌, ◌*◌, ◌/◌, ◌%◌, ◌<◌, ◌≤◌, ◌≡◌, ◌≢◌, refl, ap, ◌∙◌, Bool, true, false, ◌&&◌,
  some, List, [], ◌∷◌, ◌++◌, length, length-append, All, All-append, ltb, if◌then◌else◌, lt→ltb,
  Bool-cases, inl, inr, arith,
}
use linux_mqtt_sn_gateway.Settings.Values.{IsLineText}
use linux_mqtt_sn_gateway.Settings.Parse.{
  decimal, atoi, pieces, nonempty, strtok, fill_ip, stored_ip,
}

-- The decimal text of a number below `limit digits`.
unfoldable pub number_text : ℕ → ℕ → List ℕ
number_text zero n = (48 + n % 10) ∷ []
number_text (suc digits) n =
    let front = number_text digits (n / 10) in
    if ltb n 10 then (48 + n) ∷ [] else front ++ (48 + n % 10) ∷ []

abbrev pub limit : ℕ → ℕ
limit zero = 10
limit (suc digits) = 10 * limit digits

abbrev pub IsDigits : List ℕ → Type 0
IsDigits = All (λ c. (48 ≤ c) × (c ≤ 57))

pub number_text-IsDigits : (digits n : ℕ) → IsDigits (number_text digits n)
unfolding number_text
number_text-IsDigits zero n = omega arith
number_text-IsDigits (suc digits) n = elim (Bool-cases (ltb n 10)) [
  | inl e ↦ rw e (ground arith)
  | inr e ↦ rw e (
      All-append (λ c. (48 ≤ c) × (c ≤ 57)) (number_text digits (n / 10)) ((48 + n % 10) ∷ [])
        (number_text-IsDigits digits (n / 10)) (omega arith))
]

pub length-number_text :
    (digits n : ℕ)
    → (1 ≤ length (number_text digits n)) × (length (number_text digits n) ≤ suc digits)
unfolding number_text
length-number_text zero n = omega arith
length-number_text (suc digits) n = ground (
  arith,
  length-append (number_text digits (n / 10)) ((48 + n % 10) ∷ []),
  length-number_text digits (n / 10),
)

decimal-append : (k : ℕ) (s t : List ℕ) → IsDigits s → decimal k (s ++ t) ≡ decimal (decimal k s) t
unfolding decimal
decimal-append k [] t h = refl
decimal-append k (c ∷ s) t h = ground (arith, decimal-append (k * 10 + (c - 48)) s t h.1)

decimal-number_text : (digits n : ℕ) → n < limit digits → decimal 0 (number_text digits n) ≡ n
unfolding decimal number_text
decimal-number_text zero n lt = ground arith
decimal-number_text (suc digits) n lt = elim (Bool-cases (ltb n 10)) [
  | inl e ↦ rw e (ground arith)
  | inr e ↦ rw e (
      decimal-append 0 (number_text digits (n / 10)) ((48 + n % 10) ∷ [])
        (number_text-IsDigits digits (n / 10))
      ∙ ap (λ k. decimal k ((48 + n % 10) ∷ [])) (decimal-number_text digits (n / 10) (omega arith))
      ∙ ground arith)
]

atoi-digits :
    (modulus : ℕ) (s : List ℕ) → IsDigits s → 1 ≤ length s → atoi modulus s ≡ decimal 0 s % modulus
unfolding atoi
atoi-digits modulus [] h le = absurd (omega arith)
atoi-digits modulus (c ∷ s) h le = ground arith

pub atoi-number_text :
    (modulus digits n : ℕ)
    → n < limit digits
    → n < modulus
    → atoi modulus (number_text digits n) ≡ n
atoi-number_text modulus digits n lt lt' =
    atoi-digits modulus (number_text digits n) (number_text-IsDigits digits n)
      (length-number_text digits n).0
    ∙ ap (λ k. k % modulus) (decimal-number_text digits n lt)
    ∙ mod-eq_of_lt lt'

pieces-digits : (s : List ℕ) → IsDigits s → pieces 46 s ≡ s ∷ []
unfolding pieces
pieces-digits [] h = refl
pieces-digits (c ∷ s) h = ground (arith, pieces-digits s h.1)

pieces-dot : (s t : List ℕ) → IsDigits s → pieces 46 (s ++ 46 ∷ t) ≡ s ∷ pieces 46 t
unfolding pieces
pieces-dot [] t h = refl
pieces-dot (c ∷ s) t h = ground (arith, pieces-dot s t h.1)

-- The decimal text of a byte.
abbrev pub byte_text : ℕ → List ℕ
byte_text = number_text 2

-- The text of an address.
abbrev pub ip_text : ℕ → ℕ → ℕ → ℕ → List ℕ
ip_text a b c d = byte_text a ++ 46 ∷ (byte_text b ++ 46 ∷ (byte_text c ++ 46 ∷ byte_text d))

nonempty-cons :
    (s : List ℕ) (ts : List (List ℕ)) → 1 ≤ length s → nonempty (s ∷ ts) ≡ s ∷ nonempty ts
unfolding nonempty
nonempty-cons [] ts le = absurd (omega arith)
nonempty-cons (c ∷ s) ts le = refl

nonempty-byte_text :
    (a : ℕ) (ts : List (List ℕ)) → nonempty (byte_text a ∷ ts) ≡ byte_text a ∷ nonempty ts
nonempty-byte_text a ts = nonempty-cons (byte_text a) ts (length-number_text 2 a).0

pieces-ip_text :
    (a b c d : ℕ)
    → pieces 46 (ip_text a b c d) ≡ byte_text a ∷ byte_text b ∷ byte_text c ∷ byte_text d ∷ []
pieces-ip_text a b c d =
    pieces-dot (byte_text a) (byte_text b ++ 46 ∷ (byte_text c ++ 46 ∷ byte_text d))
      (number_text-IsDigits 2 a)
    ∙ ap (λ ts. byte_text a ∷ ts)
        (pieces-dot (byte_text b) (byte_text c ++ 46 ∷ byte_text d) (number_text-IsDigits 2 b)
          ∙ ap (λ ts. byte_text b ∷ ts)
              (pieces-dot (byte_text c) (byte_text d) (number_text-IsDigits 2 c)
                ∙ ap (λ ts. byte_text c ∷ ts)
                    (pieces-digits (byte_text d) (number_text-IsDigits 2 d))))

strtok-ip_text :
    (a b c d : ℕ)
    → strtok 46 (ip_text a b c d) ≡ byte_text a ∷ byte_text b ∷ byte_text c ∷ byte_text d ∷ []
unfolding strtok nonempty
strtok-ip_text a b c d =
    ap nonempty (pieces-ip_text a b c d)
    ∙ nonempty-byte_text a _
    ∙ ap (λ ts. byte_text a ∷ ts)
        (nonempty-byte_text b _
          ∙ ap (λ ts. byte_text b ∷ ts)
              (nonempty-byte_text c _ ∙ ap (λ ts. byte_text c ∷ ts) (nonempty-byte_text d [])))

fill_ip-byte_texts :
    (w x y z a b c d : ℕ)
    → a < 256
    → b < 256
    → c < 256
    → d < 256
    → fill_ip (w ∷ x ∷ y ∷ z ∷ []) 0 (byte_text a ∷ byte_text b ∷ byte_text c ∷ byte_text d ∷ [])
      ≡ (true, a ∷ b ∷ c ∷ d ∷ [])
unfolding fill_ip
fill_ip-byte_texts w x y z a b c d h i j k =
    rw
      (
        atoi-number_text 65536 2 a (omega arith) (omega arith),
        atoi-number_text 65536 2 b (omega arith) (omega arith),
        atoi-number_text 65536 2 c (omega arith) (omega arith),
        atoi-number_text 65536 2 d (omega arith) (omega arith),
      )
      (ground arith)

length-join : (a : ℕ) (t : List ℕ) → length (byte_text a ++ 46 ∷ t) ≤ 4 + length t
length-join a t = omega (arith, length-append (byte_text a) (46 ∷ t), (length-number_text 2 a).1)

pub length-ip_text : (a b c d : ℕ) → length (ip_text a b c d) ≤ 15
length-ip_text a b c d = omega (
  arith,
  length-join a (byte_text b ++ 46 ∷ (byte_text c ++ 46 ∷ byte_text d)),
  length-join b (byte_text c ++ 46 ∷ byte_text d),
  length-join c (byte_text d),
  (length-number_text 2 d).1,
)

within_17 :
    (n : ℕ) (r q : Bool × List ℕ)
    → n ≤ 15
    → (if ltb n 17 && ltb 7 n then r else q) ≡ (if ltb 7 n then r else q)
within_17 n r q le = rw (lt→ltb n 17 (omega arith))

-- Four bytes survive; a text of seven bytes, the shortest, is refused.
pub stored_ip-ip_text :
    (w x y z a b c d : ℕ)
    → a < 256
    → b < 256
    → c < 256
    → d < 256
    → stored_ip (w ∷ x ∷ y ∷ z ∷ []) (some (ip_text a b c d)) ≡ (
        if ltb 7 (length (ip_text a b c d))
        then (true, a ∷ b ∷ c ∷ d ∷ [])
        else (false, w ∷ x ∷ y ∷ z ∷ []))
stored_ip-ip_text w x y z a b c d h i j k =
    within_17 (length (ip_text a b c d)) _ _ (length-ip_text a b c d)
    ∙ ap (λ r. if ltb 7 (length (ip_text a b c d)) then r else (false, w ∷ x ∷ y ∷ z ∷ []))
        (ap (fill_ip (w ∷ x ∷ y ∷ z ∷ []) 0) (strtok-ip_text a b c d)
          ∙ fill_ip-byte_texts w x y z a b c d h i j k)

pub digits-IsLineText : (s : List ℕ) → IsDigits s → IsLineText s
digits-IsLineText [] h = tt
digits-IsLineText (c ∷ s) h = ((omega arith, omega arith), digits-IsLineText s h.1)

byte_text-IsLineText : (a : ℕ) → IsLineText (byte_text a)
byte_text-IsLineText a = digits-IsLineText (byte_text a) (number_text-IsDigits 2 a)

join-IsLineText : (a : ℕ) (t : List ℕ) → IsLineText t → IsLineText (byte_text a ++ 46 ∷ t)
join-IsLineText a t h =
    All-append (λ c. (c ≢ 10) × (c ≢ 0)) (byte_text a) (46 ∷ t) (byte_text-IsLineText a)
      ((omega arith, omega arith), h)

pub ip_text-IsLineText : (a b c d : ℕ) → IsLineText (ip_text a b c d)
ip_text-IsLineText a b c d =
    join-IsLineText a _ (join-IsLineText b _ (join-IsLineText c _ (byte_text-IsLineText d)))

pub length-ip_text_positive : (a b c d : ℕ) → 1 ≤ length (ip_text a b c d)
length-ip_text_positive a b c d = omega (
  arith,
  length-append (byte_text a) (46 ∷ (byte_text b ++ 46 ∷ (byte_text c ++ 46 ∷ byte_text d))),
)
