-- ===== src/Batch/Parts.antt =====
-- One message of a batch: how many records it takes, and that they and its header fit.
use native.Mathlib.Nat.{mul-le-mul_left, mul-suc}
use my_mmoproject.Base.{
  ℕ, zero, suc, ◌+◌, ◌-◌, ◌*◌, ◌<◌, ◌≤◌, ◌≡◌, refl, ap, ap₂, sym, ◌∙◌, subst, List, [], ◌∷◌, ◌++◌,
  some, length, take, drop, arith, length-append, append_assoc, append-nil, length-take, take_all,
}
use my_mmoproject.Fault.{Result, ok, err, ◌>>=◌}
use my_mmoproject.Bytes.{to_bytes}
use my_mmoproject.Message.{Message, init_message, put_data, buffer_size}
use my_mmoproject.Message.Fields.{
  Field, write_fields, total_size, encode, write_fields_appends, length-encode,
}
use my_mmoproject.Packet.{int16, header_bytes, header_size, type_code, header_len, each}
use my_mmoproject.Packet.Wire.{frame, body, length-header_bytes}
use my_mmoproject.Batch.{Kind, max_batch, begin_batch, next_count, batch_loop}

drop_all : {A : Type 0} (n : ℕ) (xs : List A) → length xs ≤ n → drop n xs ≡ []
drop_all zero [] h = refl
drop_all zero (x ∷ xs) h = absurd (omega arith)
drop_all (suc n) [] h = refl
drop_all (suc n) (x ∷ xs) h = drop_all n xs (omega arith)

-- A run of as many records as there are, or of `most` if there are more.
pub next_count_lem :
    {A : Type 0} (most : ℕ) (xs : List A)
    → 0 < most
    → 0 < length xs
    → (next_count (length xs) most ≡ suc (next_count (length xs) most - 1))
      × (next_count (length xs) most ≤ most)
      × (next_count (length xs) most ≤ length xs)
      × (take (next_count (length xs) most) xs ≡ take most xs)
      × (drop (next_count (length xs) most) xs ≡ drop most xs)
unfolding next_count
next_count_lem most xs h k =
    ground
      (arith, take_all most xs, take_all (length xs) xs, drop_all most xs, drop_all (length xs) xs)

bind_once :
    {B C D : Type 0} (x : Result B) (l : B → Result C) (k : C → Result D)
    → (x >>= λ m'. l m' >>= k) ≡ ((x >>= l) >>= k)
bind_once (ok m') l k = refl
bind_once (err f) l k = refl

pub bind_twice :
    {A B C D : Type 0} (b : Result A) (w : A → Result B) (l : B → Result C) (k : C → Result D)
    → (b >>= λ m. w m >>= λ m'. l m' >>= k) ≡ ((b >>= λ m. w m >>= l) >>= k)
bind_twice (err f) w l k = refl
bind_twice (ok m) w l k = bind_once (w m) l k

encode-append : (fs gs : List Field) → encode (fs ++ gs) ≡ encode fs ++ encode gs
encode-append [] gs = refl
encode-append (f ∷ fs) gs =
    ap (◌++◌ (to_bytes f.size f.value)) (encode-append fs gs)
    ∙ sym (append_assoc (to_bytes f.size f.value) (encode fs) (encode gs))

-- What a kind of batch must satisfy, as the three kinds of the program do.
pub record IsKind {A : Type 0} (kind : Kind A) : Type 0 where
  pub some_fit : 0 < max_batch kind.record_size
  pub all_fit : kind.record_size * max_batch kind.record_size ≤ buffer_size - 7
  pub sized : (a : A) → total_size (kind.fields a) ≡ kind.record_size
  pub announced :
      (as' : List A) → header_len (kind.packet as') ≡ 2 + 2 + kind.record_size * length as'
  pub laid_out :
      (as' : List A)
      → body (kind.packet as')
        ≡ int16 (type_code (kind.packet [])) ∷ int16 (length as') ∷ each kind.fields as'

module _ {A : Type 0} (clock : ℕ → ℕ) (session : ℕ) (kind : Kind A) (good : IsKind kind) where
  -- The records announced in a message are written to it.
  fill :
      (rest : List A) (cnt count : ℕ) (m : Message)
      → count ≤ length rest
      → length m.written + kind.record_size * count ≤ m.end
      → batch_loop clock session kind rest cnt count (some m)
        ≡ batch_loop clock session kind
            (drop count rest)
            (cnt - count)
            0
            (some (record m { written = m.written ++ encode (each kind.fields (take count rest)) }))
  unfolding batch_loop
  fill rest cnt zero m few room =
      ap₂ (λ c w. batch_loop clock session kind rest c 0 (some (record m { written = w })))
        (omega arith) (sym (append-nil m.written))
  fill [] cnt (suc count) m few room = absurd (omega arith)
  fill (a ∷ rest) cnt (suc count) m few room =
      let more = mul-suc kind.record_size count in
      let m' : Message = record m { written = m.written ++ encode (kind.fields a) } in
      let one : length m.written + total_size (kind.fields a) ≤ m.end =
        omega (arith, more, good.sized a) in
      let wrote = write_fields_appends m (kind.fields a) one in
      let left : length m'.written + kind.record_size * count ≤ m.end = omega (
        arith,
        more,
        good.sized a,
        length-append m.written (encode (kind.fields a)),
        length-encode (kind.fields a),
      ) in
      let joined : m'.written ++ encode (each kind.fields (take count rest))
          ≡ m.written ++ encode (kind.fields a ++ each kind.fields (take count rest)) =
        append_assoc m.written _ _
        ∙ ap (◌++◌ m.written)
            (sym (encode-append (kind.fields a) (each kind.fields (take count rest)))) in
      rw wrote (
        fill rest (cnt - 1) count m' (omega arith) left
        ∙ ap₂
            (λ c w.
              batch_loop clock session kind (drop count rest) c 0 (some (record m { written = w })))
            (omega arith) joined)

  -- The header, the type and the count of a new message.
  begun :
      (cnt count : ℕ)
      → begin_batch clock session kind cnt count
        ≡ ok (record (init_message session 0 (clock cnt)) {
          written =
              header_bytes (2 + 2 + kind.record_size * count) 0
              ++ encode (int16 (type_code (kind.packet [])) ∷ int16 count ∷ []);
        })
  unfolding begin_batch put_data init_message
  begun cnt count =
      let h = header_bytes (2 + 2 + kind.record_size * count) 0 in
      let three = length-header_bytes (2 + 2 + kind.record_size * count) 0 in
      rw (take_all header_size h (omega (arith, three))) (
        write_fields_appends (record (init_message session 0 (clock cnt)) { written = h })
          (int16 (type_code (kind.packet [])) ∷ int16 count ∷ []) (omega (arith, three)))

  -- The header, the type, the count and the records make the packet's frame.
  whole_frame :
      (a : A) (as' : List A)
      → ((header_bytes (2 + 2 + kind.record_size * suc (length as')) 0
              ++ encode (int16 (type_code (kind.packet [])) ∷ int16 (suc (length as')) ∷ []))
            ++ encode (kind.fields a))
          ++ encode (each kind.fields as')
        ≡ frame (kind.packet (a ∷ as'))
  whole_frame a as' =
      let h = header_bytes (2 + 2 + kind.record_size * suc (length as')) 0 in
      let head = int16 (type_code (kind.packet [])) ∷ int16 (suc (length as')) ∷ [] in
      let es = each kind.fields as' in
      append_assoc (h ++ encode head) (encode (kind.fields a)) (encode es)
      ∙ (append_assoc h (encode head) (encode (kind.fields a) ++ encode es)
          ∙ (ap (λ z. h ++ (encode head ++ z)) (sym (encode-append (kind.fields a) es))
              ∙ (ap (◌++◌ h) (sym (encode-append head (kind.fields a ++ es)))
                  ∙ sym (
                      ap₂ (λ l b. header_bytes l 0 ++ encode b) (good.announced (a ∷ as'))
                        (good.laid_out (a ∷ as'))))))

  -- A message is begun for `suc p` records, and they are written.
  pub one_batch :
      (a : A) (rs : List A) (cnt p : ℕ)
      → suc p ≤ max_batch kind.record_size
      → p ≤ length rs
      → (begin_batch clock session kind cnt (suc p) >>= λ m.
          write_fields m (kind.fields a) >>= λ m'.
          batch_loop clock session kind rs (cnt - 1) p (some m'))
        ≡ batch_loop clock session kind (drop p rs) (cnt - 1 - p) 0 (
            some (record (init_message session 0 (clock cnt)) {
              written = frame (kind.packet (a ∷ take p rs));
            }))
  unfolding init_message
  one_batch a rs cnt p capped few =
      let h = header_bytes (2 + 2 + kind.record_size * suc p) 0 in
      let head = int16 (type_code (kind.packet [])) ∷ int16 (suc p) ∷ [] in
      let m : Message = record (init_message session 0 (clock cnt)) {
        written = h ++ encode head;
      } in
      let three = length-header_bytes (2 + 2 + kind.record_size * suc p) 0 in
      let all = mul-le-mul_left kind.record_size capped in
      let more = mul-suc kind.record_size p in
      let room : length m.written + total_size (kind.fields a) ≤ m.end = omega (
        arith,
        three,
        more,
        all,
        good.sized a,
        good.all_fit,
        length-append h (encode head),
        length-encode head,
      ) in
      let m' : Message = record m { written = m.written ++ encode (kind.fields a) } in
      let left : length m'.written + kind.record_size * p ≤ m'.end = omega (
        arith,
        three,
        more,
        all,
        good.sized a,
        good.all_fit,
        length-append h (encode head),
        length-encode head,
        length-append m.written (encode (kind.fields a)),
        length-encode (kind.fields a),
      ) in
      let run : length (take p rs) ≡ p = omega (arith, length-take p rs) in
      let whole : m'.written ++ encode (each kind.fields (take p rs))
          ≡ frame (kind.packet (a ∷ take p rs)) =
        subst
          (λ k.
            ((header_bytes (2 + 2 + kind.record_size * suc k) 0
                  ++ encode (int16 (type_code (kind.packet [])) ∷ int16 (suc k) ∷ []))
                ++ encode (kind.fields a))
              ++ encode (each kind.fields (take p rs))
            ≡ frame (kind.packet (a ∷ take p rs)))
          run (whole_frame a (take p rs)) in
      rw (begun cnt (suc p), write_fields_appends m (kind.fields a) room)
        (fill rs (cnt - 1) p m' few left
          ∙ ap
              (λ w.
                batch_loop clock session kind (drop p rs) (cnt - 1 - p) 0
                  (some (record m { written = w })))
              whole)
