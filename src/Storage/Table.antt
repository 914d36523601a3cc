-- ===== src/Storage/Table.antt =====
-- A file as a table of structs: what successive `read(&entry, sizeof(entry))` calls give, and
-- `seek(i * sizeof(entry)); write(&entry, sizeof(entry))`.
use native.Mathlib.Nat.{suc-mul, zero-mul}
use mathlib.Core.Option
use linux_mqtt_sn_gateway.Base.{
  ℕ, zero, suc, ◌+◌, ◌*◌, ◌≤◌, ◌<◌, ◌≡◌, ◌≢◌, refl, ap, overlay, replicate, sym, ◌-◌, get_elem?,
  ◌∙◌, Option, none, some, List, [], ◌∷◌, ◌++◌, map, length, take, drop, All, length-append,
  take-length_append, drop-length_append, ◌==◌, if◌then◌else◌, arith,
}
use linux_mqtt_sn_gateway.Storage.Splice.{
  length-splice, drop-splice, drop-add_append, splice, put, splice-empty, splice-append,
  splice-front, All-put,
}
use linux_mqtt_sn_gateway.Storage.Platform.{Platform, Layout, content}

-- The buffers that reads of `size` bytes fill, until the end of the file. A read at the end gives no
-- bytes and is not listed; the last buffer may be short. The fuel is the number of bytes.
unfoldable pub reads : ℕ → ℕ → List ℕ → List (List ℕ)
reads zero size bs = []
reads (suc f) size [] = []
reads (suc f) size (b ∷ bs) = take size (b ∷ bs) ∷ reads f size (drop size (b ∷ bs))

reads-step :
    (f size : ℕ) (bs : List ℕ)
    → 0 < length bs
    → reads (suc f) size bs ≡ take size bs ∷ reads f size (drop size bs)
unfolding reads
reads-step f size [] h = absurd (omega arith)
reads-step f size (b ∷ bs) h = refl

take-append_of_length : (n : ℕ) (xs ys : List ℕ) → length xs ≡ n → take n (xs ++ ys) ≡ xs
take-append_of_length n xs ys h = rw (← h) (take-length_append xs ys)

drop-append_of_length : (n : ℕ) (xs ys : List ℕ) → length xs ≡ n → drop n (xs ++ ys) ≡ ys
drop-append_of_length n xs ys h = rw (← h) (drop-length_append xs ys)

abbrev non_empty : List ℕ → Option (List ℕ)
non_empty [] = none
non_empty (b ∷ bs) = some (b ∷ bs)

-- One `read` into a zeroed struct: all its bytes, or only some before the end of the file.
pub data Read (E : Type 0) : Type 0 where
  whole short : E → Read E

module _ {E : Type 0} {Fits : E → Type 0} (l : Layout Fits) where
  unfoldable pub row : List ℕ → Read E
  row buf =
      if length buf == l.size
      then whole (l.decode buf)
      else short (l.decode (overlay (replicate l.size 0) buf))

  unfoldable pub rows : List ℕ → List (Read E)
  unfolding reads row
  rows bs = map row (reads (length bs) l.size bs)

  -- The bytes of a file that holds these structs and nothing else.
  abbrev pub image : List E → List ℕ
  image [] = []
  image (e ∷ es) = l.encode e ++ image es

  row-encode : (e : E) → Fits e → row (l.encode e) ≡ whole e
  unfolding row
  row-encode e h = ground (arith, l.length-encode e h, l.decode-encode e h)

  length-image :
      (e : E) (es : List E) → Fits e → length (image (e ∷ es)) ≡ l.size + length (image es)
  length-image e es h = omega (arith, length-append (l.encode e) (image es), l.length-encode e h)

  reads-image :
      (f : ℕ) (es : List E)
      → All Fits es
      → length (image es) ≤ f
      → map row (reads f l.size (image es)) ≡ map whole es
  unfolding reads
  reads-image zero [] h k = refl
  reads-image (suc f) [] h k = refl
  reads-image zero (e ∷ es) h k = absurd (omega (arith, length-image e es h.0, l.size_pos))
  reads-image (suc f) (e ∷ es) h k = rw (
    reads-step f l.size (image (e ∷ es)) (omega (arith, length-image e es h.0, l.size_pos)),
    take-append_of_length l.size (l.encode e) (image es) (l.length-encode e h.0),
    drop-append_of_length l.size (l.encode e) (image es) (l.length-encode e h.0),
    row-encode e h.0,
    reads-image f es h.1 (omega (arith, length-image e es h.0, l.size_pos)),
  )

  -- Reading a table back gives its structs, one whole read each.
  pub rows-image : (es : List E) → All Fits es → rows (image es) ≡ map whole es
  unfolding rows
  rows-image es h = reads-image (length (image es)) es h (omega arith)

  -- Row `i` starts inside the file, or at its end.
  pub offset-le-length-image :
      (es : List E) (i : ℕ) → All Fits es → i ≤ length es → i * l.size ≤ length (image es)
  offset-le-length-image es zero h k = omega arith
  offset-le-length-image [] (suc i) h k = absurd (omega arith)
  offset-le-length-image (e ∷ es) (suc i) h k = omega (
    arith,
    length-image e es h.0,
    offset-le-length-image es i h.1 (omega arith),
    suc-mul i l.size,
  )

  -- Writing a struct over row `i`, or at the end, gives the table with that row put.
  pub splice-image :
      (es : List E) (i : ℕ) (e : E)
      → All Fits es
      → Fits e
      → i ≤ length es
      → splice (image es) (i * l.size) (l.encode e) ≡ image (put es i e)
  splice-image [] zero e h p k = rw zero-mul (splice-empty (l.encode e))
  splice-image [] (suc i) e h p k = absurd (omega arith)
  splice-image (x ∷ es) zero e h p k = rw zero-mul (
      splice-front (l.encode x) (image es) (l.encode e)
        (l.length-encode e p ∙ sym (l.length-encode x h.0)))
  splice-image (x ∷ es) (suc i) e h p k =
      let off : suc i * l.size ≡ length (l.encode x) + i * l.size =
        omega (arith, suc-mul i l.size, l.length-encode x h.0) in
      rw (off, splice-append (l.encode x) (image es) (l.encode e) (i * l.size))
        (ap (λ r. l.encode x ++ r) (splice-image es i e h.1 p (omega arith)))

  -- From row `i` on, the file starts with the bytes of that row.
  drop-image :
      (es : List E) (i : ℕ) (e : E)
      → All Fits es
      → get_elem? es i ≡ some e
      → Fits e × (i ≤ length es) × (r : List ℕ) × (drop (i * l.size) (image es) ≡ l.encode e ++ r)
  drop-image [] i e h g = absurd (ground arith)
  drop-image (x ∷ es) zero e h g =
      let same : x ≡ e = ground arith in
      (rw same at h.0, omega arith, image es, rw (zero-mul, same))
  drop-image (x ∷ es) (suc i) e h g =
      let (fits, inside, r, ih) = drop-image es i e h.1 g in
      let off : suc i * l.size ≡ length (l.encode x) + i * l.size =
        omega (arith, suc-mul i l.size, l.length-encode x h.0) in
      (fits, omega arith, r, rw (off, drop-add_append) ih)

-- `c` has a file `n` that holds exactly the structs `es`.
pub record Holds (p : Platform) {E : Type 0} {Fits : E → Type 0} (l : Layout Fits) (n : List ℕ)
    (c : p.Card) (es : List E) : Type 0 where
  pub there : p.file c n ≡ some (image l es)
  pub fit : All Fits es

module _ (p : Platform) {E : Type 0} {Fits : E → Type 0} (l : Layout Fits) where
  -- Open a file for reading and read it struct by struct.
  unfoldable pub read_rows : List ℕ → p.Card → List (Read E)
  read_rows n c = rows l (content (p.file c n))

  -- Open a file for writing, seek and write a struct.
  unfoldable pub save_at : List ℕ → ℕ → E → p.Card → p.Card
  save_at n off e c = p.write_at n off (l.encode e) (p.open_write n c)

  abbrev pub save_row : List ℕ → ℕ → E → p.Card → p.Card
  save_row n i e c = save_at n (i * l.size) e c

  pub read_rows-Holds :
      (n : List ℕ) (c : p.Card) (es : List E) → Holds p l n c es → read_rows n c ≡ map whole es
  unfolding read_rows
  read_rows-Holds n c es h = rw h.there (rows-image l es h.fit)

  pub save_row-Holds :
      (n : List ℕ) (c : p.Card) (es : List E) (i : ℕ) (e : E)
      → Holds p l n c es
      → Fits e
      → i ≤ length es
      → Holds p l n (save_row n i e c) (put es i e)
  unfolding save_at
  save_row-Holds n c es i e h fits k =
      let opened : p.file (p.open_write n c) n ≡ some (image l es) =
        p.file-open_write_self n c ∙ ap (λ o. some (content o)) h.there in
      record {
        there =
            p.file-write_at_self n (i * l.size) (l.encode e) (image l es) (p.open_write n c) opened
              (offset-le-length-image l es i h.fit k)
            ∙ ap some (splice-image l es i e h.fit fits k);
        fit = All-put Fits es i e h.fit fits;
      }

  -- A write leaves every other file as it was.
  pub file-save_at_ne :
      (n m : List ℕ) (off : ℕ) (e : E) (c : p.Card)
      → n ≢ m
      → p.file (save_at n off e c) m ≡ p.file c m
  unfolding save_at
  file-save_at_ne n m off e c ne =
      p.file-write_at_ne n m off (l.encode e) (p.open_write n c) ne ∙ p.file-open_write_ne n m c ne

  -- `seek(off)` and one `read` of a struct; `none` at the end of the file.
  unfoldable pub read_row : List ℕ → ℕ → p.Card → Option (Read E)
  unfolding row
  read_row n off c = Option.map (row l) (non_empty (p.read_at n off l.size c))

  filled : (bs : List ℕ) → 0 < length bs → non_empty bs ≡ some bs
  filled [] h = absurd (omega arith)
  filled (b ∷ bs) h = refl

  -- Seeking to a row and reading gives that row.
  pub read_row-Holds :
      (n : List ℕ) (c : p.Card) (es : List E) (i : ℕ) (e : E)
      → Holds p l n c es
      → get_elem? es i ≡ some e
      → read_row n (i * l.size) c ≡ some (whole e)
  unfolding read_row
  read_row-Holds n c es i e h g =
      let (fits, inside, r, starts) = drop-image l es i e h.fit g in
      let bytes : p.read_at n (i * l.size) l.size c ≡ l.encode e =
        p.read_at_lem n (i * l.size) l.size c
          (rw h.there (offset-le-length-image l es i h.fit inside))
        ∙ (rw (h.there, starts)
            (take-append_of_length l.size (l.encode e) r (l.length-encode e fits))) in
      rw (
        bytes,
        filled (l.encode e) (omega (arith, l.length-encode e fits, l.size_pos)),
        row-encode l e fits,
      )

  -- A write that ends before a row leaves the row as it was.
  pub read_row-write_before :
      (n : List ℕ) (c : p.Card) (es : List E) (i off : ℕ) (e : E) (bytes : List ℕ)
      → Holds p l n c es
      → get_elem? es i ≡ some e
      → off + length bytes ≤ i * l.size
      → read_row n (i * l.size) (p.write_at n off bytes (p.open_write n c)) ≡ some (whole e)
  unfolding read_row
  read_row-write_before n c es i off e bytes h g before =
      let (fits, inside, r, starts) = drop-image l es i e h.fit g in
      let room = offset-le-length-image l es i h.fit inside in
      let opened : p.file (p.open_write n c) n ≡ some (image l es) =
        p.file-open_write_self n c ∙ ap (λ o. some (content o)) h.there in
      let written : p.file (p.write_at n off bytes (p.open_write n c)) n
          ≡ some (splice (image l es) off bytes) =
        p.file-write_at_self n off bytes (image l es) (p.open_write n c) opened (omega arith) in
      let at : i * l.size ≡ off + (length bytes + (i * l.size - (off + length bytes))) =
        omega arith in
      let same : drop (i * l.size) (splice (image l es) off bytes) ≡ l.encode e ++ r =
        ap (λ k. drop k (splice (image l es) off bytes)) at
        ∙ drop-splice (image l es) off bytes (i * l.size - (off + length bytes)) (omega arith)
        ∙ ap (λ k. drop k (image l es)) (sym at)
        ∙ starts in
      let got : p.read_at n (i * l.size) l.size (p.write_at n off bytes (p.open_write n c))
          ≡ l.encode e =
        p.read_at_lem n (i * l.size) l.size (p.write_at n off bytes (p.open_write n c)) (
          rw written
            (let longer = length-splice (image l es) off bytes (omega arith) in omega arith))
        ∙ (rw (written, same)
            (take-append_of_length l.size (l.encode e) r (l.length-encode e fits))) in
      rw (
        got,
        filled (l.encode e) (omega (arith, l.length-encode e fits, l.size_pos)),
        row-encode l e fits,
      )
