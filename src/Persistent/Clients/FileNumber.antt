-- ===== src/Persistent/Clients/FileNumber.antt =====
-- `sprintf(file_number, "%08d", n)` and `atoi(file_number)` of LinuxPersistent.cpp and
-- LinuxPersistent.h: the number of a row, written into the row and read back.
use native.Mathlib.Nat.{pow-suc}
use linux_mqtt_sn_gateway.Base.{
  ℕ, zero, suc, ◌+◌, ◌-◌, ◌*◌, ◌/◌, ◌%◌, ◌^◌, ◌≤◌, ◌<◌, ◌≡◌, ◌≢◌, refl, ap, ◌∙◌, true, List, [],
  ◌∷◌, ◌++◌, c_str, IsText, length, replicate, All, All-append, length-append, c_str-strcpy, arith,
}
use linux_mqtt_sn_gateway.Storage.Entries.{Client}
use linux_mqtt_sn_gateway.Persistent.State.{
  decimal, digits_value, atoi, is_digit, parse_file_number_to_int, client_file, client_registry,
  Ending, ending, registration_file, subscribe_file, will_file, publish_file,
}
use linux_mqtt_sn_gateway.Persistent.Clients.{file_number_of}

abbrev IsDigit : ℕ → Type 0
IsDigit b = (48 ≤ b) × (b ≤ 57)

pub length-decimal : (k n : ℕ) → length (decimal k n) ≡ k
unfolding decimal
length-decimal zero n = refl
length-decimal (suc k) n =
    omega
      (arith, length-append (decimal k (n / 10)) ((48 + n % 10) ∷ []), length-decimal k (n / 10))

decimal-IsDigit : (k n : ℕ) → All IsDigit (decimal k n)
unfolding decimal
decimal-IsDigit zero n = tt
decimal-IsDigit (suc k) n =
    All-append IsDigit (decimal k (n / 10)) ((48 + n % 10) ∷ []) (decimal-IsDigit k (n / 10))
      (omega arith)

digits-IsText : (bs : List ℕ) → All IsDigit bs → IsText bs
digits-IsText [] h = tt
digits-IsText (b ∷ bs) h = (omega arith, digits-IsText bs h.1)

pub decimal-IsText : (k n : ℕ) → IsText (decimal k n)
decimal-IsText k n = digits-IsText (decimal k n) (decimal-IsDigit k n)

digits_value-append :
    (a d : ℕ) (bs : List ℕ)
    → All IsDigit bs
    → IsDigit d
    → digits_value a (bs ++ d ∷ []) ≡ digits_value a bs * 10 + (d - 48)
unfolding digits_value
digits_value-append a d [] h k = ground arith
digits_value-append a d (b ∷ bs) h k =
    let digit : is_digit b ≡ true = ground arith in
    rw digit (digits_value-append (a * 10 + (b - 48)) d bs h.1 k)

digits_value-decimal : (k n : ℕ) → n < 10 ^ k → digits_value 0 (decimal k n) ≡ n
unfolding digits_value decimal
digits_value-decimal zero n h = omega arith
digits_value-decimal (suc k) n h =
    digits_value-append 0 (48 + n % 10) (decimal k (n / 10)) (decimal-IsDigit k (n / 10))
      (omega arith)
    ∙ (let ih = digits_value-decimal k (n / 10) (let q = pow-suc 10 k in omega arith) in
        omega arith)

atoi-digits : (bs : List ℕ) → All IsDigit bs → atoi bs ≡ digits_value 0 bs
unfolding atoi
atoi-digits [] h = refl
atoi-digits (b ∷ bs) h = ground arith

c_str-file_number_of : (n : ℕ) → c_str (file_number_of n) ≡ decimal 8 n
c_str-file_number_of n =
    c_str-strcpy (replicate 9 0) (decimal 8 n) (digits-IsText (decimal 8 n) (decimal-IsDigit 8 n))
      (omega (arith, length-decimal 8 n))

-- The number, below 65536, that is written into a new row is the number that is read back from it.
pub parse-file_number_of :
    (e : Client) (n : ℕ)
    → e.file_number ≡ file_number_of n
    → n < 65536
    → parse_file_number_to_int e ≡ n
unfolding parse_file_number_to_int
parse-file_number_of e n same h =
    rw (same, c_str-file_number_of n, atoi-digits (decimal 8 n) (decimal-IsDigit 8 n))
      (digits_value-decimal 8 n (omega arith))

length-client_file :
    (e : Client) (n : ℕ) (x : Ending)
    → e.file_number ≡ file_number_of n
    → length (client_file e x) ≡ 12
unfolding client_file
length-client_file e n registration_file same =
    rw (same, c_str-file_number_of n)
      (omega (arith, length-append (decimal 8 n) (ending registration_file), length-decimal 8 n))
length-client_file e n subscribe_file same =
    rw (same, c_str-file_number_of n)
      (omega (arith, length-append (decimal 8 n) (ending subscribe_file), length-decimal 8 n))
length-client_file e n will_file same =
    rw (same, c_str-file_number_of n)
      (omega (arith, length-append (decimal 8 n) (ending will_file), length-decimal 8 n))
length-client_file e n publish_file same =
    rw (same, c_str-file_number_of n)
      (omega (arith, length-append (decimal 8 n) (ending publish_file), length-decimal 8 n))

-- None of the four files of a client with a written file number is the registry.
pub client_file-ne-registry :
    (e : Client) (n : ℕ) (x : Ending)
    → e.file_number ≡ file_number_of n
    → client_file e x ≢ client_registry
client_file-ne-registry e n x same h =
    let twelve = length-client_file e n x same in let seven = ap length h in omega arith
