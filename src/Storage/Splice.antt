-- ===== src/Storage/Splice.antt =====
-- Writing bytes into the middle of a file, and replacing one row of a list.
use linux_mqtt_sn_gateway.Base.{
  sym, ◌∙◌, length-append, ◌≤◌, ℕ, zero, suc, ◌+◌, ◌≤◌, ◌<◌, ◌≡◌, refl, ap, List, [], ◌∷◌, ◌++◌,
  length, take, drop, All, append_assoc, arith,
}

-- A file after `seek(off)` and `write(new)`, for `off` within the file.
unfoldable pub splice : List ℕ → ℕ → List ℕ → List ℕ
splice old off new = take off old ++ (new ++ drop (off + length new) old)

module _ {ℓ} {A : Type ℓ} where
  -- Row `i` replaced; one past the end it is appended.
  abbrev pub put : List A → ℕ → A → List A
  put [] i e = e ∷ []
  put (x ∷ xs) zero e = e ∷ xs
  put (x ∷ xs) (suc i) e = x ∷ put xs i e

  take-add_append : (xs ys : List A) (k : ℕ) → take (length xs + k) (xs ++ ys) ≡ xs ++ take k ys
  take-add_append [] ys k = ap (λ n. take n ys) (omega arith)
  take-add_append (x ∷ xs) ys k =
      let e : suc (length xs) + k ≡ suc (length xs + k) = omega arith in
      rw e (ap (λ l. x ∷ l) (take-add_append xs ys k))

  pub drop-add_append : (xs ys : List A) (k : ℕ) → drop (length xs + k) (xs ++ ys) ≡ drop k ys
  drop-add_append [] ys k = ap (λ n. drop n ys) (omega arith)
  drop-add_append (x ∷ xs) ys k =
      let e : suc (length xs) + k ≡ suc (length xs + k) = omega arith in
      rw e (drop-add_append xs ys k)

  pub length-put : (xs : List A) (i : ℕ) (e : A) → length (put xs i e) ≤ suc (length xs)
  length-put [] i e = omega arith
  length-put (x ∷ xs) zero e = omega arith
  length-put (x ∷ xs) (suc i) e = omega (arith, length-put xs i e)

  pub length-put_inside :
      (xs : List A) (i : ℕ) (e : A) → i < length xs → length (put xs i e) ≡ length xs
  length-put_inside [] i e h = absurd (omega arith)
  length-put_inside (x ∷ xs) zero e h = refl
  length-put_inside (x ∷ xs) (suc i) e h = ap suc (length-put_inside xs i e (omega arith))

  pub All-put {κ} :
      (P : A → Type κ) (xs : List A) (i : ℕ) (e : A) → All P xs → P e → All P (put xs i e)
  All-put P [] i e h p = (p, tt)
  All-put P (x ∷ xs) zero e h p = (p, h.1)
  All-put P (x ∷ xs) (suc i) e h p = (h.0, All-put P xs i e h.1 p)

drop-nil : (n : ℕ) → drop {A = ℕ} n [] ≡ []
drop-nil zero = refl
drop-nil (suc n) = refl

pub splice-append :
    (xs ys new : List ℕ) (k : ℕ) → splice (xs ++ ys) (length xs + k) new ≡ xs ++ splice ys k new
unfolding splice
splice-append xs ys new k =
    let e : length xs + k + length new ≡ length xs + (k + length new) = omega arith in
    rw (e, take-add_append, drop-add_append, append_assoc)

pub splice-front :
    (xs ys new : List ℕ) → length new ≡ length xs → splice (xs ++ ys) 0 new ≡ new ++ ys
unfolding splice
splice-front xs ys new h =
    let e : 0 + length new ≡ length xs + 0 = omega arith in rw (e, drop-add_append)

pub splice-empty : (new : List ℕ) → splice [] 0 new ≡ new ++ []
unfolding splice
splice-empty new = ap (λ r. new ++ r) (drop-nil (0 + length new))

drop-drop : (m k : ℕ) (xs : List ℕ) → drop (m + k) xs ≡ drop k (drop m xs)
drop-drop zero k xs = ap (λ n. drop n xs) (omega arith)
drop-drop (suc m) k [] = drop-nil (suc m + k) ∙ sym (drop-nil k)
drop-drop (suc m) k (x ∷ xs) =
    let e : suc m + k ≡ suc (m + k) = omega arith in rw e (drop-drop m k xs)

-- What stands behind the bytes written is as it was.
pub drop-splice :
    (old : List ℕ) (off : ℕ) (new : List ℕ) (k : ℕ)
    → off ≤ length old
    → drop (off + (length new + k)) (splice old off new) ≡ drop (off + (length new + k)) old
unfolding splice
drop-splice old zero new k h =
    let e : zero + (length new + k) ≡ length new + k = omega arith in
    let f : zero + length new ≡ length new = omega arith in
    rw (e, drop-add_append, f, drop-drop (length new) k old)
drop-splice [] (suc off) new k h = absurd (omega arith)
drop-splice (x ∷ old) (suc off) new k h =
    let e : suc off + (length new + k) ≡ suc (off + (length new + k)) = omega arith in
    let f : suc off + length new ≡ suc (off + length new) = omega arith in
    rw (e, f) (drop-splice old off new k (omega arith))

length-drop : (n : ℕ) (xs : List ℕ) → length xs ≤ n + length (drop n xs)
length-drop zero xs = omega arith
length-drop (suc n) [] = omega arith
length-drop (suc n) (x ∷ xs) = omega (arith, length-drop n xs)

-- A write inside the file makes it no shorter.
pub length-splice :
    (old : List ℕ) (off : ℕ) (new : List ℕ)
    → off ≤ length old
    → length old ≤ length (splice old off new)
unfolding splice
length-splice old zero new h =
    let f : zero + length new ≡ length new = omega arith in
    rw f (omega (arith, length-append new (drop (length new) old), length-drop (length new) old))
length-splice [] (suc off) new h = absurd (omega arith)
length-splice (x ∷ old) (suc off) new h =
    let f : suc off + length new ≡ suc (off + length new) = omega arith in
    rw f (let ih = length-splice old off new (omega arith) in omega arith)
