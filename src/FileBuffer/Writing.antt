-- ===== src/FileBuffer/Writing.antt =====
-- What `writeFileBuffer` and `closeFileBuffer` of src/util.c leave in the file.
use opl_future_beta.Base.{
  ℕ, zero, suc, ◌+◌, ◌-◌, ◌≤◌, ◌<◌, ◌≡◌, ◌∙◌, ap, refl, sym, subst, Bool, true, false, ◌&&◌, List,
  [], ◌∷◌, ◌++◌, Option, none, some, ltb, leb, ltb→lt, leb→le, if◌then◌else◌, if-elim, length, take,
  drop, length-append, length-take, take-append, take_all, append-nil, append_assoc, arith,
}
use opl_future_beta.Text.{Str}
use opl_future_beta.FileBuffer.{
  Writer, open_writer, store_bytes, flush, stored, put_bytes, write_file_buffer, write_all,
  close_writer,
}

-- `written` is what the program has written so far.
pub record IsWriter (written : Str) (w : Writer) : Type 0 where
  pub at_end : w.last_ptr ≡ w.available
  pub fits : w.available ≤ w.size
  pub whole : length (w.memory) ≡ w.size
  pub holds : w.file ++ take (w.available) (w.memory) ≡ written

flush-IsWriter : (written : Str) (w : Writer) → IsWriter written w → IsWriter written (flush w)
flush-IsWriter written w v = record {
  at_end = refl;
  fits = omega arith;
  whole = v.whole;
  holds = append-nil (w.file ++ take (w.available) (w.memory)) ∙ v.holds;
}

length-drop_eq : (n : ℕ) (s : Str) → length (drop n s) ≡ length s - n
length-drop_eq zero s = omega arith
length-drop_eq (suc n) [] = omega arith
length-drop_eq (suc n) (c ∷ s) = omega (arith, length-drop_eq n s)

-- `memcpy` of bytes that fit.
store-length :
    (memory : Str) (at : ℕ) (bytes : Str)
    → at + length bytes ≤ length memory
    → length (take at memory ++ (bytes ++ drop (at + length bytes) memory)) ≡ length memory
store-length memory at bytes h =
    let n = at + length bytes in
    omega (
      arith,
      h,
      length-append {0} (take at memory) (bytes ++ drop n memory),
      length-append {0} bytes (drop n memory),
      length-take {0} at memory,
      length-drop_eq n memory,
    )

take-front : (n : ℕ) (xs ys : Str) → length xs ≡ n → take n (xs ++ ys) ≡ xs
take-front n xs ys h = take-append n xs ys (omega (arith, h)) ∙ take_all n xs (omega (arith, h))

store-take :
    (memory : Str) (at : ℕ) (bytes : Str)
    → at + length bytes ≤ length memory
    → take (at + length bytes) (take at memory ++ (bytes ++ drop (at + length bytes) memory))
      ≡ take at memory ++ bytes
store-take memory at bytes h =
    let n = at + length bytes in
    ap (take n) (sym (append_assoc (take at memory) bytes (drop n memory)))
    ∙ take-front n (take at memory ++ bytes) (drop n memory)
        (omega (arith, h, length-append {0} (take at memory) bytes, length-take {0} at memory))

-- What a write has to give.
abbrev Written : Str → Option Writer → Type 0
Written written none = ⊥
Written written (some w) = IsWriter written w

put-Written :
    (written bytes : Str) (w : Writer)
    → IsWriter written w
    → (length bytes ≤ w.size → w.available + length bytes ≤ w.size)
    → (w.size < length bytes → w.available ≡ 0)
    → Written (written ++ bytes) (put_bytes bytes w)
unfolding put_bytes store_bytes
put-Written written bytes w v room direct =
    if-elim (Written (written ++ bytes)) (ltb (w.size) (length bytes))
      (λ t. record {
        at_end = v.at_end;
        fits = v.fits;
        whole = v.whole;
        holds =
            (let z = direct (ltb→lt (w.size) (length bytes) t) in
              ap (λ n. w.file ++ bytes ++ take n (w.memory)) z
              ∙ append-nil (w.file ++ bytes)
              ∙ ap (λ l. l ++ bytes)
                  (sym (append-nil (w.file))
                    ∙ sym (ap (λ n. w.file ++ take n (w.memory)) z)
                    ∙ v.holds));
      })
      (λ t.
        if-elim (λ o. Written (written ++ bytes) (stored w (length bytes) o))
          (leb (w.last_ptr + length bytes) (length (w.memory)))
          (λ k. record {
            at_end = ap (λ n. n + length bytes) (v.at_end);
            fits = room (ground (arith, t));
            whole =
                store-length (w.memory) (w.last_ptr) bytes
                  (leb→le (w.last_ptr + length bytes) (length (w.memory)) k)
                ∙ v.whole;
            holds =
                ap
                  (λ n.
                    w.file
                    ++ take (n + length bytes) (
                        take (w.last_ptr) (w.memory)
                        ++ (bytes ++ drop (w.last_ptr + length bytes) (w.memory))))
                  (sym (v.at_end))
                ∙ ap (λ l. w.file ++ l)
                    (store-take (w.memory) (w.last_ptr) bytes
                      (leb→le (w.last_ptr + length bytes) (length (w.memory)) k))
                ∙ sym (append_assoc (w.file) (take (w.last_ptr) (w.memory)) bytes)
                ∙ ap (λ l. l ++ bytes) (ap (λ n. w.file ++ take n (w.memory)) (v.at_end) ∙ v.holds);
          })
          (λ k.
            let r = room (ground (arith, t)) in
            let a = v.at_end in
            let b = v.whole in
            let n : leb (w.last_ptr + length bytes) (length (w.memory)) ≡ true =
              ground (arith, r, a, b) in
            absurd (let q = sym n ∙ k in cc)))

write-Written :
    (written bytes : Str) (w : Writer)
    → IsWriter written w
    → Written (written ++ bytes) (write_file_buffer bytes w)
unfolding write_file_buffer
write-Written written bytes w v =
    by (ltb 0 (w.available) && ltb (w.size) (w.available + length bytes)) refl
  where
    by :
        (b : Bool)
        → (ltb 0 (w.available) && ltb (w.size) (w.available + length bytes)) ≡ b
        → Written (written ++ bytes) (put_bytes bytes (if b then flush w else w))
    by true e =
        put-Written written bytes (flush w) (flush-IsWriter written w v) (λ h. omega (arith, h))
          (λ h. refl)
    by false e =
        put-Written written bytes w v (λ h. ground (arith, e, h, v.fits))
          (λ h. ground (arith, e, h, v.fits))

abbrev pub concat : List Str → Str
concat [] = []
concat (s ∷ ss) = s ++ concat ss

all-Written :
    (ss : List Str) (written : Str) (w : Writer)
    → IsWriter written w
    → Written (written ++ concat ss) (write_all ss w)
unfolding write_all
all-Written [] written w v = record {
  at_end = v.at_end;
  fits = v.fits;
  whole = v.whole;
  holds = v.holds ∙ sym (append-nil written);
}
all-Written (s ∷ ss) written w v =
    subst (λ l. Written l (write_all (s ∷ ss) w)) (append_assoc written s (concat ss))
      (by (λ w' v'. all-Written ss (written ++ s) w' v') (write_file_buffer s w)
        (write-Written written s w v))
  where
    by :
        ((w' : Writer)
          → IsWriter (written ++ s) w'
          → Written (written ++ s ++ concat ss) (write_all ss w'))
        → (o : Option Writer) → Written (written ++ s) o
        → Written (written ++ s ++ concat ss) (elim o [ none ↦ none | some w' ↦ write_all ss w' ])
    by ih none k = k
    by ih (some w') k = ih w' k

-- What `closeFileBuffer` leaves, where no write has gone outside the buffer.
abbrev pub closed : Option Writer → Option Str
closed none = none
closed (some w) = some (close_writer w)

close-holds : (written : Str) (w : Writer) → IsWriter written w → close_writer w ≡ written
unfolding close_writer
close-holds written w v =
    if-elim (λ l. l ≡ written) (ltb 0 (w.available)) (λ _. v.holds)
      (λ t.
        let z : w.available ≡ 0 = ground (arith, t) in
        sym (append-nil (w.file)) ∙ sym (ap (λ n. w.file ++ take n (w.memory)) z) ∙ v.holds)

-- Whatever is written to a file through a buffer of any size, in any number of writes of any lengths: no write
-- goes outside the buffer, and the file that `closeFileBuffer` leaves is all of it in order.
pub write_all-closed :
    (memory : Str) (ss : List Str) → closed (write_all ss (open_writer memory)) ≡ some (concat ss)
unfolding open_writer
write_all-closed memory ss = by (write_all ss (open_writer memory)) (
    all-Written ss [] (open_writer memory)
      (record { at_end = refl; fits = omega arith; whole = refl; holds = refl }))
  where
    by : (o : Option Writer) → Written (concat ss) o → closed o ≡ some (concat ss)
    by none k = absurd k
    by (some w) k = ap some (close-holds (concat ss) w k)
