-- ===== src/Persistent/Unique.antt =====
-- Tables in which no two rows answer to one key, under the read loops of LinuxPersistent.cpp.
use mathlib.Core.Path.{fun_ext}
use linux_mqtt_sn_gateway.Base.{
  ℕ, zero, suc, ◌+◌, ◌≡◌, ap, Bool, true, false, Option, none, some, List, [], ◌∷◌, get_elem?, All,
  Bool-cases, ◌⊎◌, inl, inr, arith,
}
use linux_mqtt_sn_gateway.Storage.Splice.{put}
use linux_mqtt_sn_gateway.Persistent.Scan.{find, find-none, find-some}

pub find-ext :
    {E : Type 0} (f g : E → Bool) (es : List E) (n : ℕ)
    → ((e : E) → f e ≡ g e)
    → find f es n ≡ find g es n
find-ext f g es n h = ap (λ t. find t es n) (fun_ext h)

pub All-get_elem? :
    {E : Type 0} (P : E → Type 0) (es : List E) (i : ℕ) (e : E)
    → All P es
    → get_elem? es i ≡ some e
    → P e
All-get_elem? P [] i e h g = absurd (ground arith)
All-get_elem? P (x ∷ es) zero e h g = let k : x ≡ e = ground arith in rw k at h.0
All-get_elem? P (x ∷ es) (suc i) e h g = All-get_elem? P es i e h.1 g

pub All-put_of {ℓ} :
    {E : Type 0} (P : E → Type ℓ) (es : List E) (i : ℕ) (e : E)
    → All P es
    → P e
    → All P (put es i e)
All-put_of P [] i e h k = (k, tt)
All-put_of P (x ∷ es) zero e h k = (k, h.1)
All-put_of P (x ∷ es) (suc i) e h k = (h.0, All-put_of P es i e h.1 k)

module _ {K E : Type 0} (t : K → E → Bool) where
  abbrev pub None : K → List E → Type 0
  None m = All (λ e. t m e ≡ false)

  abbrev pub Unique : List E → Type 0
  Unique [] = Unit
  Unique (e ∷ es) = ((m : K) → t m e ≡ true → None m es) × Unique es

  -- A row may answer to the keys of the row that it replaces, and to keys that no row answers to.
  pub Unique-put :
      (es : List E) (i : ℕ) (e' : E)
      → Unique es
      → ((m : K)
          → t m e' ≡ true
          → ((x : E) × (get_elem? es i ≡ some x) × (t m x ≡ true)) ⊎ None m es)
      → Unique (put es i e')
  Unique-put [] i e' u h = (λ m k. tt, tt)
  Unique-put (x ∷ es) zero e' u h = (λ m k. front m (h m k), u.1)
    where
      front :
          (m : K)
          → ((y : E) × (get_elem? (x ∷ es) 0 ≡ some y) × (t m y ≡ true)) ⊎ None m (x ∷ es)
          → None m es
      front m (inl (y, at, k)) = u.0 m (let q : x ≡ y = ground arith in rw q k)
      front m (inr none_yet) = none_yet.1
  Unique-put (x ∷ es) (suc i) e' u h = (
    λ m k. All-put_of (λ e. t m e ≡ false) es i e' (u.0 m k) (other m k),
    Unique-put es i e' u.1 (λ m k. below m (h m k)),
  )
    where
      clash :
          (m : K)
          → t m x ≡ true
          → ((y : E) × (get_elem? es i ≡ some y) × (t m y ≡ true)) ⊎ None m (x ∷ es)
          → ⊥
      clash m k (inl (y, at, q)) =
          let r = All-get_elem? (λ e. t m e ≡ false) es i y (u.0 m k) at in ground arith
      clash m k (inr none_yet) = let r = none_yet.0 in ground arith

      other : (m : K) → t m x ≡ true → t m e' ≡ false
      other m k = elim (Bool-cases (t m e')) [ inl q ↦ absurd (clash m k (h m q)) | inr q ↦ q ]

      below :
          (m : K)
          → ((y : E) × (get_elem? (x ∷ es) (suc i) ≡ some y) × (t m y ≡ true)) ⊎ None m (x ∷ es)
          → ((y : E) × (get_elem? es i ≡ some y) × (t m y ≡ true)) ⊎ None m es
      below m (inl found) = inl found
      below m (inr none_yet) = inr none_yet.1

  -- Replacing the row that is found by one of the same key.
  pub find-put_found :
      (m : K) (es : List E) (n i : ℕ) (e e' : E)
      → find (t m) es n ≡ some (n + i, e)
      → t m e' ≡ true
      → find (t m) (put es i e') n ≡ some (n + i, e')
  find-put_found m [] n i e e' h k = absurd (ground arith)
  find-put_found m (x ∷ es) n zero e e' h k = rw k (ap (λ j. some (j, e')) (omega arith))
  find-put_found m (x ∷ es) n (suc i) e e' h k = elim (Bool-cases (t m x)) [
    | inl q ↦
        let r : ◌≡◌ {A = Option (ℕ × E)} (some (n, x)) (some (n + suc i, e)) = rw q at h in
        absurd (ground arith)
    | inr q ↦
        let next : n + suc i ≡ suc n + i = omega arith in
        rw (q, next) (find-put_found m es (suc n) i e e' (ground arith) k)
  ]

  -- Replacing the row that is found by one of no key: the key is gone.
  pub find-put_gone :
      (m : K) (es : List E) (n i : ℕ) (e e' : E)
      → Unique es
      → find (t m) es n ≡ some (n + i, e)
      → t m e' ≡ false
      → find (t m) (put es i e') n ≡ none
  find-put_gone m [] n i e e' u h k = absurd (ground arith)
  find-put_gone m (x ∷ es) n zero e e' u h k = elim (Bool-cases (t m x)) [
    | inl q ↦ rw k (find-none (t m) es (suc n) (u.0 m q))
    | inr q ↦
        let (j, at, found, meets, lt) = find-some (t m) es (suc n) (n + 0) e (ground arith) in
        absurd (omega arith)
  ]
  find-put_gone m (x ∷ es) n (suc i) e e' u h k = elim (Bool-cases (t m x)) [
    | inl q ↦
        let r : ◌≡◌ {A = Option (ℕ × E)} (some (n, x)) (some (n + suc i, e)) = rw q at h in
        absurd (ground arith)
    | inr q ↦
        let next : n + suc i ≡ suc n + i = omega arith in
        rw q (find-put_gone m es (suc n) i e e' u.1 (ground arith) k)
  ]
