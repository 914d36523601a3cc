-- ===== src/Persistent/Scan.antt =====
-- The read loops that several methods of LinuxPersistent.cpp share: read struct after struct until
-- one meets a test. Counters of the type `uint16_t` or `uint32_t` wrap at `w`.
use linux_mqtt_sn_gateway.Base.{
  ◌⊎◌, Option-cases, ℕ, zero, suc, ◌+◌, ◌%◌, ◌<◌, ◌≤◌, ◌≡◌, refl, ap, ◌*◌, ◌-◌, ◌^◌, not, ◌&&◌,
  inc16, Bool, true, false, Option, none, some, List, [], ◌∷◌, map, length, All, ◌∙◌, get_elem?,
  if◌then◌else◌, Bool-cases, inl, inr, ◌≢◌, arith,
}
use native.Mathlib.Nat.{mod-eq_of_lt}
use linux_mqtt_sn_gateway.Storage.Splice.{put}
use linux_mqtt_sn_gateway.Storage.Table.{Read, whole, short}

-- How a loop ends that looks for a row and notes the last empty one: at the row, with its index; or
-- after the last read, with `first_empty_space` (`none` is -1), `entry_number` and what a short read
-- left in the struct (`none`: it is zeroed).
pub data SlotScan (E : Type 0) : Type 0 where
  hit : ℕ → E → SlotScan E
  ended : Option ℕ → ℕ → Option E → SlotScan E

-- The offset of `first_empty_space`, set to `entry_number - 1` if none was found: the product with a
-- size below 2 ^ 16 fits 64 bits, except that -1 wraps.
abbrev pub new_offset : ℕ → Option ℕ → ℕ → ℕ
new_offset size (some i) n = i * size
new_offset size none zero = 2 ^ 64 - size
new_offset size none (suc n) = n * size

module _ {E : Type 0} where
  -- With `stop` a short read breaks the loop before `entry_number++`.
  unfoldable pub scan_slot :
      Bool → (E → Bool) → (E → Bool) → List (Read E) → Option ℕ → ℕ → SlotScan E
  scan_slot stop is_empty matches [] first n = ended first (inc16 n) none
  scan_slot stop is_empty matches (short e ∷ r) first n =
      let rest = scan_slot stop is_empty matches r first (inc16 n) in
      if stop then ended first n (some e) else rest
  scan_slot stop is_empty matches (whole e ∷ r) first n =
      let rest =
        scan_slot stop is_empty matches r (if is_empty e then some n else first) (inc16 n) in
      if not (is_empty e) && matches e then hit n e else rest

  -- The index of the last empty row, counted from `n`.
  abbrev pub last_empty : (E → Bool) → List E → Option ℕ → ℕ → Option ℕ
  last_empty is_empty [] first n = first
  last_empty is_empty (e ∷ es) first n =
      last_empty is_empty es (if is_empty e then some n else first) (suc n)

  abbrev pub slot_result : Option (ℕ × E) → Option ℕ → ℕ → SlotScan E
  slot_result none first n = ended first n none
  slot_result (some (i, e)) first n = hit i e

  -- The first whole struct that meets the test, with the count of the reads before it.
  unfoldable pub scan : ℕ → (E → Bool) → List (Read E) → ℕ → Option (ℕ × E)
  scan w test [] n = none
  scan w test (short _ ∷ r) n = scan w test r ((n + 1) % w)
  scan w test (whole e ∷ r) n =
      let rest = scan w test r ((n + 1) % w) in if test e then some (n, e) else rest

  -- The first element that meets the test, with its index, counted from `n`.
  abbrev pub find : (E → Bool) → List E → ℕ → Option (ℕ × E)
  find test [] n = none
  find test (e ∷ es) n = let rest = find test es (suc n) in if test e then some (n, e) else rest

  pub scan-eq-find :
      (w : ℕ) (test : E → Bool) (es : List E) (n : ℕ)
      → n + length es < w
      → scan w test (map whole es) n ≡ find test es n
  unfolding scan
  scan-eq-find w test [] n h = refl
  scan-eq-find w test (e ∷ es) n h =
      let next : (n + 1) % w ≡ suc n =
        mod-eq_of_lt {n = n + 1} {m = w} (omega arith) ∙ omega arith in
      rw (next, scan-eq-find w test es (suc n) (omega arith))

  -- What `find` returns is at its index and meets the test.
  pub find-some :
      (test : E → Bool) (es : List E) (n i : ℕ) (e : E)
      → find test es n ≡ some (i, e)
      → (j : ℕ) × (i ≡ n + j) × (get_elem? es j ≡ some e) × (test e ≡ true) × (j < length es)
  find-some test [] n i e h = absurd (ground arith)
  find-some test (x ∷ es) n i e h = elim (Bool-cases (test x)) [
    | inl t ↦ (0, ground arith, ground arith, ground arith, omega arith)
    | inr t ↦
        let (j, at, found, meets, lt) = find-some test es (suc n) i e (ground arith) in
        (suc j, omega arith, found, meets, omega arith)
  ]

  -- If no element meets the test, `find` returns nothing.
  pub find-none :
      (test : E → Bool) (es : List E) (n : ℕ) → All (λ e. test e ≡ false) es → find test es n ≡ none
  find-none test [] n h = refl
  find-none test (e ∷ es) n h = rw h.0 (find-none test es (suc n) h.1)

  -- A row put where no earlier row meets the test is the one that `find` returns.
  pub find-put :
      (test : E → Bool) (es : List E) (n i : ℕ) (e : E)
      → All (λ x. test x ≡ false) es
      → test e ≡ true
      → i ≤ length es
      → find test (put es i e) n ≡ some (n + i, e)
  find-put test [] n zero e h t k = rw t (ap (λ m. some (m, e)) (omega arith))
  find-put test [] n (suc i) e h t k = absurd (omega arith)
  find-put test (x ∷ es) n zero e h t k = rw t (ap (λ m. some (m, e)) (omega arith))
  find-put test (x ∷ es) n (suc i) e h t k =
      rw h.0
        (find-put test es (suc n) i e h.1 t (omega arith) ∙ ap (λ m. some (m, e)) (omega arith))

  -- An element that meets the test is found, or an earlier one.
  pub find-mem :
      (test : E → Bool) (es : List E) (n j : ℕ) (e : E)
      → get_elem? es j ≡ some e
      → test e ≡ true
      → (r : ℕ × E) × (find test es n ≡ some r)
  find-mem test [] n j e h t = absurd (ground arith)
  find-mem test (x ∷ es) n zero e h t = ((n, x), let k : test x ≡ true = ground arith in rw k)
  find-mem test (x ∷ es) n (suc j) e h t = elim (Bool-cases (test x)) [
    | inl k ↦ ((n, x), rw k)
    | inr k ↦ let (r, f) = find-mem test es (suc n) j e h t in (r, rw k f)
  ]

  pub get_elem?-put_self :
      (es : List E) (i : ℕ) (e : E) → i ≤ length es → get_elem? (put es i e) i ≡ some e
  get_elem?-put_self [] zero e h = refl
  get_elem?-put_self [] (suc i) e h = absurd (omega arith)
  get_elem?-put_self (x ∷ es) zero e h = refl
  get_elem?-put_self (x ∷ es) (suc i) e h = get_elem?-put_self es i e (omega arith)

  pub find-none-All :
      (test : E → Bool) (es : List E) (n : ℕ) → find test es n ≡ none → All (λ e. test e ≡ false) es
  find-none-All test [] n h = tt
  find-none-All test (e ∷ es) n h = elim (Bool-cases (test e)) [
    | inl t ↦ absurd (ground arith)
    | inr t ↦ (t, find-none-All test es (suc n) (ground arith))
  ]

  -- `find` looks past a row that is put over one that the test fails, if the new one fails it too.
  pub find-put_ne :
      (test : E → Bool) (es : List E) (n i : ℕ) (e : E)
      → ((x : E) → get_elem? es i ≡ some x → test x ≡ false)
      → test e ≡ false
      → find test (put es i e) n ≡ find test es n
  find-put_ne test [] n i e h t = rw t
  find-put_ne test (x ∷ es) n zero e h t = rw (t, h x refl)
  find-put_ne test (x ∷ es) n (suc i) e h t = rw (find-put_ne test es (suc n) i e h t)

  -- Without a wrap of `entry_number`, the loop over a table is `find` and `last_empty`.
  pub scan_slot-eq :
      (stop : Bool) (is_empty matches : E → Bool) (es : List E) (first : Option ℕ) (n : ℕ)
      → n + length es + 1 < 65536
      → scan_slot stop is_empty matches (map whole es) first n
        ≡ slot_result
            (find (λ e. not (is_empty e) && matches e) es n)
            (last_empty is_empty es first n)
            (suc (n + length es))
  unfolding scan_slot
  scan_slot-eq stop is_empty matches [] first n h = ap (λ m. ended first m none) (omega arith)
  scan_slot-eq stop is_empty matches (e ∷ es) first n h =
      let next : inc16 n ≡ suc n = omega arith in
      let more : suc n + length es ≡ n + suc (length es) = omega arith in
      let ih =
        scan_slot-eq stop is_empty matches es (if is_empty e then some n else first) (suc n)
          (omega arith) in
      elim (Bool-cases (not (is_empty e) && matches e)) [
        | inl t ↦ rw t
        | inr t ↦ rw (t, next, ih, more)
      ]

  -- The slot that `last_empty` returns is an empty row.
  pub last_empty-some :
      (is_empty : E → Bool) (es : List E) (first : Option ℕ) (n i : ℕ)
      → last_empty is_empty es first n ≡ some i
      → (first ≡ some i)
        ⊎ ((j : ℕ) × (i ≡ n + j)
            × (e : E) × (get_elem? es j ≡ some e)
            × (is_empty e ≡ true)
            × (j < length es))
  last_empty-some is_empty [] first n i h = inl h
  last_empty-some is_empty (x ∷ es) first n i h =
      elim (last_empty-some is_empty es (if is_empty x then some n else first) (suc n) i h) [
        | inr (j, at, e, found, empty, lt) ↦ inr (suc j, omega arith, e, found, empty, omega arith)
        | inl q ↦ elim (Bool-cases (is_empty x)) [
          | inl t ↦ inr (0, ground arith, x, refl, t, omega arith)
          | inr t ↦ inl (ground arith)
        ]
      ]

  -- If it returns nothing, no row is empty.
  pub last_empty-none-All :
      (is_empty : E → Bool) (es : List E) (first : Option ℕ) (n : ℕ)
      → last_empty is_empty es first n ≡ none
      → (first ≡ none) × All (λ e. is_empty e ≡ false) es
  last_empty-none-All is_empty [] first n h = (h, tt)
  last_empty-none-All is_empty (x ∷ es) first n h =
      let (later, rest) =
        last_empty-none-All is_empty es (if is_empty x then some n else first) (suc n) h in
      elim (Bool-cases (is_empty x)) [
        | inl t ↦ absurd (let q : ◌≡◌ {A = Option ℕ} (some n) none = rw t at later in ground arith)
        | inr t ↦ ((rw t at later), (t, rest))
      ]

-- The index that a new row goes to: the last empty row, or the end.
abbrev pub slot_of : Option ℕ → ℕ → ℕ
slot_of none count = count
slot_of (some i) count = i

pub new_offset-eq :
    (size : ℕ) (first : Option ℕ) (count : ℕ)
    → new_offset size first (suc count) ≡ slot_of first count * size
new_offset-eq size none count = refl
new_offset-eq size (some i) count = refl

module _ {E : Type 0} (is_empty : E → Bool) (es : List E) where
  get_elem?-length-ne : (l : List E) (x : E) → get_elem? l (length l) ≢ some x
  get_elem?-length-ne [] x h = ground arith
  get_elem?-length-ne (_ ∷ l) x h = get_elem?-length-ne l x h

  at_row :
      (i : ℕ)
      → (none ≡ some i)
        ⊎ ((j : ℕ) × (i ≡ 0 + j)
            × (e : E) × (get_elem? es j ≡ some e)
            × (is_empty e ≡ true)
            × (j < length es))
      → (i ≤ length es) × ((x : E) → get_elem? es i ≡ some x → is_empty x ≡ true)
  at_row i (inl h) = absurd (ground arith)
  at_row i (inr (j, at, e, found, empty, lt)) =
      (omega arith, λ x h. let k : i ≡ j = omega arith in ground (arith, rw k at h))

  abbrev pub free_slot : ℕ
  free_slot = slot_of (last_empty is_empty es none 0) (length es)

  -- A new row goes to the end of the table or to an empty row of it.
  pub free_slot_lem :
      (free_slot ≤ length es) × ((x : E) → get_elem? es free_slot ≡ some x → is_empty x ≡ true)
  free_slot_lem = elim (Option-cases (last_empty is_empty es none 0)) [
    | inl e ↦ rw e (omega arith, λ x h. absurd (get_elem?-length-ne es x h))
    | inr (i, e) ↦ rw e (at_row i (last_empty-some is_empty es none 0 i e))
  ]
