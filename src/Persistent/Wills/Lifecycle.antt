-- ===== src/Persistent/Wills/Lifecycle.antt =====
-- Setting, reading and deleting the will of a client, LinuxPersistent.cpp.
use native.Mathlib.Nat.{zero-mul}
use linux_mqtt_sn_gateway.Base.{
  All-take, take-overlay, ℕ, ◌≤◌, ◌<◌, ◌≡◌, refl, ap, ◌∙◌, Bool, true, false, Option, none, some,
  List, [], ◌∷◌, ◌++◌, map, c_str, take, replicate, length, ltb, IsText, IsByte, All, All-overlay,
  length-overlay, c_str-strcpy, All-IsByte_of_text, arith,
}
use linux_mqtt_sn_gateway.Storage.Entries.{Will, WillFits, zero_will, zero_will-fits, zeros-IsArray}
use linux_mqtt_sn_gateway.Storage.Splice.{put}
use linux_mqtt_sn_gateway.Storage.Platform.{Platform, content}
use linux_mqtt_sn_gateway.Storage.Table.{
  Read, read_rows, Holds, whole, read_rows-Holds, save_row-Holds,
}
use linux_mqtt_sn_gateway.Persistent.State.{Persistent, ready}
use linux_mqtt_sn_gateway.Persistent.Wills.{
  first_will, WillValue, will_value, with_willtopic, with_message, will_name, wills_of, save_will,
  has_client_will, get_client_will, set_client_willtopic, set_client_willmessage, delete_will,
}

-- The will that a file of structs has: the first, or none set.
abbrev pub will_in : List Will → Will
will_in [] = zero_will
will_in (e ∷ _) = e

-- A topic that set_client_willtopic takes.
pub record IsWillTopic (topic : List ℕ) : Type 0 where
  pub text : IsText topic
  pub short : length topic < 255

-- The bytes of a message, at most 255.
pub record IsWillMessage (bytes : List ℕ) : Type 0 where
  pub bytes_fit : All IsByte bytes
  pub short : length bytes < 256

will_in-fits : (es : List Will) → All WillFits es → WillFits (will_in es)
will_in-fits [] h = zero_will-fits
will_in-fits (e ∷ es) h = h.0

with_willtopic-fits :
    (topic : List ℕ) (qos : ℕ) (retain : Bool) (e : Will)
    → IsWillTopic topic
    → qos < 256
    → WillFits e
    → WillFits (with_willtopic topic qos retain e)
with_willtopic-fits topic qos retain e t q f = record {
  topic_fits = (
    length-overlay (replicate 255 0) (topic ++ 0 ∷ []) ∙ (zeros-IsArray 255).0,
    All-overlay (replicate 255 0) (topic ++ 0 ∷ []) (zeros-IsArray 255).1
        (All-IsByte_of_text topic t.text),
  );
  msg_fits = f.msg_fits;
  length_fits = f.length_fits;
  qos_fits = q;
}

with_message-fits :
    (bytes : List ℕ) (len : ℕ) (e : Will)
    → All IsByte bytes
    → len < 256
    → WillFits e
    → WillFits (with_message bytes len e)
with_message-fits bytes len e b l f = record {
  topic_fits = f.topic_fits;
  msg_fits = (
    length-overlay (replicate 255 0) (take len bytes) ∙ (zeros-IsArray 255).0,
    All-overlay (replicate 255 0) (take len bytes) (zeros-IsArray 255).1
        (All-take IsByte len bytes b),
  );
  length_fits = l;
  qos_fits = f.qos_fits;
}

first_will-eq : (es : List Will) → first_will (map whole es) ≡ will_in es
first_will-eq [] = refl
first_will-eq (e ∷ es) = refl

will_in-put : (es : List Will) (e : Will) → will_in (put es 0 e) ≡ e
will_in-put [] e = refl
will_in-put (x ∷ es) e = refl

first_of_put :
    {X : Type 0} (f : List (Read Will) → X) (r : Will → X) (es : List Will) (e : Will)
    → ((x : Will) (xs : List (Read Will)) → f (whole x ∷ xs) ≡ r x)
    → f (map whole (put es 0 e)) ≡ r e
first_of_put f r [] e h = h e []
first_of_put f r (x ∷ es) e h = h e (map whole es)

abbrev value_of : Will → Option WillValue
value_of e = will_value (whole e ∷ [])

c_str-with_willtopic :
    (topic : List ℕ) (qos : ℕ) (retain : Bool) (e : Will)
    → IsWillTopic topic
    → c_str (with_willtopic topic qos retain e).willtopic ≡ topic
c_str-with_willtopic topic qos retain e t =
    c_str-strcpy (replicate 255 0) topic t.text
      (let n = (zeros-IsArray 255).0 in let h = t.short in omega arith)

take-with_message :
    (bytes : List ℕ) (len : ℕ) (e : Will)
    → len < 256
    → len ≤ length bytes
    → take len (with_message bytes len e).willmsg ≡ take len bytes
take-with_message bytes len e l k =
    take-overlay len (replicate 255 0) bytes (let n = (zeros-IsArray 255).0 in omega arith) k

module _ {p : Platform} where
  -- A transaction runs for a registered client, whose will file holds the structs `es`.
  pub record HasWills (s : Persistent p) (es : List Will) : Type 0 where
    pub is_ready : ready s ≡ true
    pub table : Holds p p.will_layout (will_name s) s.card es

  wills_of-eq : (s : Persistent p) (es : List Will) → HasWills s es → wills_of s ≡ map whole es
  wills_of-eq s es h = read_rows-Holds p p.will_layout (will_name s) s.card es h.table

  save_will-HasWills :
      (e : Will) (s : Persistent p) (es : List Will)
      → HasWills s es
      → WillFits e
      → HasWills (save_will e s) (put es 0 e)
  save_will-HasWills e s es h f = record {
    is_ready = h.is_ready;
    table =
        let at_front =
          save_row-Holds p p.will_layout (will_name s) s.card es 0 e h.table f (omega arith) in
        rw zero-mul at at_front;
  }

  -- set_client_willtopic puts the topic into the first struct and keeps the message.
  pub set_client_willtopic-HasWills :
      (topic : List ℕ) (qos : ℕ) (retain : Bool) (s : Persistent p) (es : List Will)
      → HasWills s es
      → IsWillTopic topic
      → qos < 256
      → HasWills
          (set_client_willtopic topic qos retain s)
          (put es 0 (with_willtopic topic qos retain (will_in es)))
  unfolding set_client_willtopic
  set_client_willtopic-HasWills topic qos retain s es h t q =
      let short : ltb (length topic) 255 ≡ true = let k = t.short in ground arith in
      rw (h.is_ready, short, wills_of-eq s es h, first_will-eq es)
        (save_will-HasWills (with_willtopic topic qos retain (will_in es)) s es h
          (with_willtopic-fits topic qos retain (will_in es) t q (will_in-fits es h.table.fit)))

  -- set_client_willmessage puts the message into the first struct and keeps the topic.
  pub set_client_willmessage-HasWills :
      (bytes : List ℕ) (len : ℕ) (s : Persistent p) (es : List Will)
      → HasWills s es
      → All IsByte bytes
      → len < 256
      → HasWills
          (set_client_willmessage bytes len s)
          (put es 0 (with_message bytes len (will_in es)))
  unfolding set_client_willmessage
  set_client_willmessage-HasWills bytes len s es h b l =
      rw (h.is_ready, wills_of-eq s es h, first_will-eq es)
        (save_will-HasWills (with_message bytes len (will_in es)) s es h
          (with_message-fits bytes len (will_in es) b l (will_in-fits es h.table.fit)))

  get_client_will-put :
      (e : Will) (s : Persistent p) (es : List Will)
      → HasWills s (put es 0 e)
      → get_client_will s ≡ value_of e
  unfolding get_client_will
  get_client_will-put e s es h =
      rw (h.is_ready, wills_of-eq s (put es 0 e) h)
        (first_of_put will_value value_of es e (λ x xs. refl))

  -- After set_client_willtopic and then set_client_willmessage, get_client_will gives the topic,
  -- the bytes of the message, its length, the quality of service and the retain flag that were
  -- set. The topic is a text of fewer than 255 bytes, the message has the bytes that its length,
  -- below 256, asks for, and the transaction runs for a registered client, whose will file holds
  -- whole structs.
  pub get_client_will-set :
      (topic bytes : List ℕ) (len qos : ℕ) (retain : Bool) (s : Persistent p) (es : List Will)
      → HasWills s es
      → IsWillTopic topic
      → qos < 256
      → All IsByte bytes
      → len < 256
      → len ≤ length bytes
      → get_client_will (set_client_willmessage bytes len (set_client_willtopic topic qos retain s))
        ≡ some (record {
          topic = topic;
          message = take len bytes;
          message_length = len;
          qos = qos;
          retain = retain;
        })
  get_client_will-set topic bytes len qos retain s es h t q b l k =
      let s1 = set_client_willtopic topic qos retain s in
      let e1 = with_willtopic topic qos retain (will_in es) in
      let h1 = set_client_willtopic-HasWills topic qos retain s es h t q in
      let s2 = set_client_willmessage bytes len s1 in
      let h2 = set_client_willmessage-HasWills bytes len s1 (put es 0 e1) h1 b l in
      get_client_will-put (with_message bytes len (will_in (put es 0 e1))) s2 (put es 0 e1) h2
      ∙ ap (λ e. value_of (with_message bytes len e)) (will_in-put es e1)
      ∙ rw
          (c_str-with_willtopic topic qos retain (will_in es) t, take-with_message bytes len e1 l k)

  -- After delete_will in a transaction for a registered client there is no will: has_client_will
  -- is false and get_client_will hands back nothing.
  pub delete_will-none :
      (s : Persistent p)
      → ready s ≡ true
      → (has_client_will (delete_will s) ≡ false) × (get_client_will (delete_will s) ≡ none)
  unfolding delete_will has_client_will get_client_will
  delete_will-none s h =
      let c = p.open_write (will_name s) (p.remove (will_name s) s.card) in
      let gone : p.file c (will_name s) ≡ some [] =
        p.file-open_write_self (will_name s) (p.remove (will_name s) s.card)
        ∙ ap (λ o. some (content o)) (p.file-remove_self (will_name s) s.card) in
      let empty : read_rows p p.will_layout (will_name s) c ≡ [] =
        read_rows-Holds p p.will_layout (will_name s) c [] (record { there = gone; fit = tt }) in
      (rw (h, empty) (ground arith), rw (h, empty) (ground arith))
