-- ===== src/Settings/Values.antt =====
-- What the parsers of Implementation/LinuxPersistent.h find in a line: the text behind its first space.
use linux_mqtt_sn_gateway.Base.{
  ℕ, zero, suc, ◌+◌, ◌-◌, ◌<◌, ◌≤◌, ◌≡◌, ◌≢◌, refl, ap, ◌∙◌, true, false, Option, none, some, List,
  [], ◌∷◌, ◌++◌, length, take, take-length_append, All, ◌==◌, if◌then◌else◌, replicate, Bool-cases,
  inl, inr, arith,
}
use linux_mqtt_sn_gateway.Settings.Parse.{
  find_space, find_end, copied, value_behind, value_of, newline_next,
}

-- A line as `strlen` sees it: no NUL and no end.
abbrev pub IsLineText : List ℕ → Type 0
IsLineText = All (λ c. (c ≢ 10) × (c ≢ 0))

abbrev pub some_text : List ℕ → Option (List ℕ)
some_text [] = none
some_text (c ∷ s) = some (c ∷ s)

pub some_text-nonempty : (s : List ℕ) → 1 ≤ length s → some_text s ≡ some s
some_text-nonempty [] le = absurd (omega arith)
some_text-nonempty (c ∷ s) le = refl

-- The text behind the first space, if there is any.
unfoldable pub behind_space : List ℕ → Option (List ℕ)
behind_space [] = none
behind_space (c ∷ s) = let rest = behind_space s in if c == 32 then some_text s else rest

no_newline : (s : List ℕ) (k : ℕ) → IsLineText s → newline_next (s ++ replicate k 0) ≡ false
no_newline [] zero h = refl
no_newline [] (suc k) h = refl
no_newline (c ∷ s) k h = ground arith

find_space-none :
    (max start k : ℕ) → max ≡ start + 1 → find_space max start (replicate (suc k) 0) ≡ none
unfolding find_space
find_space-none max start k e = ground (arith, no_newline [] k tt)

find_space-here : (max start : ℕ) (s : List ℕ) → find_space max start (32 ∷ s) ≡ some (start, s)
unfolding find_space
find_space-here max start s = refl

find_space-next :
    (max start c k : ℕ) (s : List ℕ)
    → IsLineText s
    → c ≢ 32
    → suc start < max
    → find_space max start (c ∷ (s ++ replicate k 0))
      ≡ find_space max (suc start) (s ++ replicate k 0)
unfolding find_space
find_space-next max start c k s h ne lt = ground (arith, no_newline s k h)

find_end-nul : (max end : ℕ) (s : List ℕ) → find_end max end (0 ∷ s) ≡ some (end + 0)
unfolding find_end
find_end-nul max end s = ap some (omega arith)

find_end_lem :
    (max end k : ℕ) (v : List ℕ)
    → IsLineText v
    → end + length v ≤ max
    → find_end max end (v ++ replicate (suc k) 0) ≡ some (end + length v)
unfolding find_end
find_end_lem max end k [] h le = find_end-nul max end (replicate k 0)
find_end_lem max end k (c ∷ v) h le = ground (arith, find_end_lem max (suc end) k v h.1)

minus_plus : (m n : ℕ) → m + n - m ≡ n
minus_plus m n = omega arith

take-plus : (start : ℕ) (v z : List ℕ) → take (start + length v - start) (v ++ z) ≡ v
take-plus start v z =
    ap (λ n. take n (v ++ z)) (minus_plus start (length v)) ∙ take-length_append v z

copied_lem :
    (max start : ℕ) (v z : List ℕ)
    → start + length v + 1 < max
    → copied max start (v ++ z) (some (start + length v)) ≡ some_text v
copied_lem max start [] z lt = ground arith
copied_lem max start (c ∷ v) z lt = ground (arith, take-plus start (c ∷ v) z)

equals : (a b : ℕ) → (a == b) ≡ true → a ≡ b
equals a b h = ground arith

differs : (a b : ℕ) → (a == b) ≡ false → a ≢ b
differs a b h = ground arith

value_behind-here :
    (max start k : ℕ) (s : List ℕ)
    → IsLineText s
    → start + length s + 1 < max
    → value_behind max (find_space max start (32 ∷ (s ++ replicate (suc k) 0))) ≡ some_text s
value_behind-here max start k s h lt =
    ap (value_behind max) (find_space-here max start (s ++ replicate (suc k) 0))
    ∙ ap (copied max start (s ++ replicate (suc k) 0)) (find_end_lem max start k s h (omega arith))
    ∙ copied_lem max start s (replicate (suc k) 0) lt

value_behind-find_space :
    (max start k : ℕ) (s : List ℕ)
    → IsLineText s
    → max ≡ start + length s + 1
    → value_behind max (find_space max start (s ++ replicate (suc k) 0)) ≡ behind_space s
unfolding behind_space
value_behind-find_space max start k [] h e =
    ap (value_behind max) (find_space-none max start k (omega arith))
value_behind-find_space max start k (c ∷ s) h e = elim (Bool-cases (c == 32)) [
  | inl eq ↦
      ap (λ x. value_behind max (find_space max start (x ∷ (s ++ replicate (suc k) 0))))
        (equals c 32 eq)
      ∙ value_behind-here max start k s h.1 (omega arith)
      ∙ rw eq
  | inr ne ↦
      ap (value_behind max)
        (find_space-next max start c (suc k) s h.1 (differs c 32 ne) (omega arith))
      ∙ value_behind-find_space max (suc start) k s h.1 (omega arith)
      ∙ rw ne
]

-- For every line without NUL and newline in its buffer, the two loops of the parsers and the test
-- behind them find the text behind the first space, and nothing where there is none.
pub value_of-buffer :
    (s : List ℕ) (k : ℕ)
    → IsLineText s
    → value_of (s ++ replicate (suc k) 0) (length s + 1) ≡ behind_space s
unfolding value_of
value_of-buffer s k h = value_behind-find_space (length s + 1) 0 k s h (omega arith)
